-- ===== src/SharedMem/Channel.antt =====
-- core/SharedMemIPC/SharedMemMessage, and the methods of SharedMemIPC that place a message and wait
-- for one. The memory has a half for each direction: a name, the message's type, its length and its
-- bytes. The methods for the client and for the server differ in the half, `base`, alone.
pub mod Roundtrip
pub mod Waiting
pub mod Refusals
use fluffi.Base.{
  ℕ, zero, suc, ◌+◌, ◌-◌, ◌/◌, ◌%◌, ◌^◌, Bool, true, false, ◌&&◌, not, Option, none, some, List, [],
  ◌∷◌, leb, ◌==◌, if◌then◌else◌, length,
}
use fluffi.SharedMem.Memory.{View, write_bytes, read_bytes, u32_bytes, read_u32}

pub record Message : Type 0 where
  pub message_type : ℕ
  pub bytes : List ℕ

abbrev pub max_path : ℕ
max_path = 260

-- SharedMemMessageType, as far as the methods use its values.
abbrev pub message_not_initialized : ℕ
message_not_initialized = 0x100

abbrev pub message_transmission_timeout : ℕ
message_transmission_timeout = 0x101

abbrev pub message_wait_interrupted : ℕ
message_wait_interrupted = 0x104

abbrev pub message_transmission_error : ℕ
message_transmission_error = 0x105

unfoldable pub new_message : Message
new_message = record { message_type = message_not_initialized; bytes = [] }

unfoldable pub get_data_size : Message → ℕ
get_data_size m = length m.bytes

unfoldable pub set_message_type : ℕ → Message → Message
set_message_type t m = record m { message_type = t }

unfoldable pub replace_data_with : List ℕ → Message → Message
replace_data_with bytes m = record m { bytes = bytes }

-- The memory, and how many signals wait in the pipes: the two of the object, and the one that a
-- caller may pass to interrupt its wait.
pub record Ipc : Type 0 where
  pub shared_memory_size : ℕ
  pub view : View
  pub client_signals : ℕ
  pub server_signals : ℕ
  pub interrupt_signals : ℕ

abbrev pub half : Ipc → ℕ
half s = s.shared_memory_size / 2

-- The header is written first, also of a message that turns out to be too long.
unfoldable pub place_message : ℕ → ℕ → Message → View → Bool × View
unfolding get_data_size
place_message base room m v =
    let header =
      write_bytes (base + max_path + 4) (u32_bytes (get_data_size m))
        (write_bytes (base + max_path) (u32_bytes m.message_type) v) in
    if get_data_size m == 0
    then (true, header)
    else if leb (room - (max_path + 8)) (get_data_size m)
    then (false, header)
    else (true, write_bytes (base + max_path + 8) m.bytes header)

unfoldable pub place_message_for_client : Message → Ipc → Bool × Ipc
unfolding place_message
place_message_for_client m s =
    let (placed, v) = place_message 0 (half s) m s.view in (placed, record s { view = v })

unfoldable pub place_message_for_server : Message → Ipc → Bool × Ipc
unfolding place_message
place_message_for_server m s =
    let (placed, v) = place_message (half s) (half s) m s.view in (placed, record s { view = v })

-- `written` says whether the byte that signals the message could be written.
unfoldable pub send_message_to_client : Bool → Message → Ipc → Bool × Ipc
unfolding place_message_for_client
send_message_to_client written m s =
    let (placed, s') = place_message_for_client m s in
    if placed && written
    then (true, record s' { client_signals = s'.client_signals + 1 })
    else (false, s')

unfoldable pub send_message_to_server : Bool → Message → Ipc → Bool × Ipc
unfolding place_message_for_server
send_message_to_server written m s =
    let (placed, s') = place_message_for_server m s in
    if placed && written
    then (true, record s' { server_signals = s'.server_signals + 1 })
    else (false, s')

-- The message that stands in a half of the memory.
unfoldable pub read_message : ℕ → View → Message
read_message base v = record {
  message_type = read_u32 (base + max_path) v;
  bytes = read_bytes (base + max_path + 8) (read_u32 (base + max_path + 4) v) v;
}

-- What `pselect` reports: an error (by a signal or another), the end of the time, or which of the
-- interrupt and the pipe can be read.
pub data Poll : Type 0 where
  failed : Bool → Poll
  timed_out : Poll
  readable : Bool → Bool → Poll

-- What the loop round `pselect` hands on: a signal is waited out.
unfoldable pub poll_loop : List Poll → Option Poll
poll_loop [] = none
poll_loop (failed true ∷ ps) = poll_loop ps
poll_loop (failed false ∷ ps) = some (failed false)
poll_loop (timed_out ∷ ps) = some timed_out
poll_loop (readable i f ∷ ps) = some (readable i f)

unfoldable pub without_data : ℕ → Message → Message
unfolding set_message_type replace_data_with
without_data t m = replace_data_with [] (set_message_type t m)

-- What follows the loop, given whether there is an interrupt descriptor: the result, the caller's
-- message, and whether the interrupt pipe and the pipe of the half were emptied.
pub record Received : Type 0 where
  pub success : Bool
  pub message : Message
  pub interrupt_emptied : Bool
  pub pipe_emptied : Bool

unfoldable pub after_poll : Bool → ℕ → View → Message → Poll → Received
unfolding without_data read_message set_message_type replace_data_with
after_poll has_interrupt base v m (failed e) = record {
  success = false;
  message = without_data message_transmission_error m;
  interrupt_emptied = false;
  pipe_emptied = false;
}
after_poll has_interrupt base v m timed_out = record {
  success = false;
  message = without_data message_transmission_timeout m;
  interrupt_emptied = false;
  pipe_emptied = false;
}
after_poll has_interrupt base v m (readable i f) =
    if has_interrupt && i
    then record {
      success = false;
      message = without_data message_wait_interrupted m;
      interrupt_emptied = true;
      pipe_emptied = false;
    }
    else if not f
    then record {
      success = false;
      message = without_data message_transmission_error m;
      interrupt_emptied = false;
      pipe_emptied = false;
    }
    else record {
      success = true;
      message =
          replace_data_with (read_message base v).bytes
            (set_message_type (read_message base v).message_type m);
      interrupt_emptied = false;
      pipe_emptied = true;
    }

abbrev emptied : Bool → ℕ → ℕ
emptied b n = if b then 0 else n

-- `none` is a wait that has not ended with the reports that are given.
unfoldable pub wait_for_new_message_to_client :
    Bool → List Poll → Message → Ipc → Option (Bool × Message × Ipc)
unfolding poll_loop after_poll
wait_for_new_message_to_client has_interrupt polls m s = elim (poll_loop polls) [
  | none ↦ none
  | some p ↦
      let r = after_poll has_interrupt 0 s.view m p in
      some (
        r.success,
        r.message,
        record s {
          client_signals = emptied r.pipe_emptied s.client_signals;
          interrupt_signals = emptied r.interrupt_emptied s.interrupt_signals;
        },
      )
]

unfoldable pub wait_for_new_message_to_server :
    Bool → List Poll → Message → Ipc → Option (Bool × Message × Ipc)
unfolding poll_loop after_poll
wait_for_new_message_to_server has_interrupt polls m s = elim (poll_loop polls) [
  | none ↦ none
  | some p ↦
      let r = after_poll has_interrupt (half s) s.view m p in
      some (
        r.success,
        r.message,
        record s {
          server_signals = emptied r.pipe_emptied s.server_signals;
          interrupt_signals = emptied r.interrupt_emptied s.interrupt_signals;
        },
      )
]
