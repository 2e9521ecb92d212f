-- ===== src/Tests/Channels.antt =====
-- The shared memory.
use fluffi.Base.{
  ◌+◌, ◌<◌, ◌≡◌, ◌↔◌, length, inr, refl, true, false, some, List, [], ◌∷◌, if◌then◌else◌, arith,
}
use fluffi.SharedMem.Memory.{View}
use fluffi.SharedMem.Channel.{
  Message, Ipc, half, Poll, failed, readable, read_message, place_message, poll_loop,
  send_message_to_client, send_message_to_server, wait_for_new_message_to_client,
  wait_for_new_message_to_server,
}
use fluffi.SharedMem.Channel.Roundtrip.{Fits, place_outside}
use fluffi.SharedMem.Channel.Waiting.{send-wait_both}
use fluffi.SharedMem.Channel.Refusals.{send_too_long}
use fluffi.SharedMem.Posix
use fluffi.SharedMem.Posix.Release.{
  HoldsNothing, no_names, fresh, server_fails-HoldsNothing, server-destruct, named,
}
use fluffi.SharedMem.Windows
use fluffi.SharedMem.Windows.Release.{setup-destruct}

abbrev to_client : Message
to_client = record { message_type = 3; bytes = 65 ∷ (66 ∷ []) }

abbrev to_server : Message
to_server = record { message_type = 4; bytes = 67 ∷ [] }

abbrev zeros : View
zeros a = 0

abbrev memory : Ipc
memory = record {
  shared_memory_size = 600;
  view = zeros;
  client_signals = 0;
  server_signals = 0;
  interrupt_signals = 0;
}

to_client-Fits : Fits (half memory) to_client
to_client-Fits = record { short = omega arith; small = omega arith; type_small = omega arith }

to_server-Fits : Fits (half memory) to_server
to_server-Fits = record { short = omega arith; small = omega arith; type_small = omega arith }

place_outside_example : (place_message 0 300 to_client zeros).1 310 ≡ zeros 310
place_outside_example = place_outside 0 300 to_client zeros 310 (omega arith) (inr (omega arith))

-- The wait is disturbed by a signal once.
abbrev disturbed : List Poll
disturbed = failed true ∷ (readable false true ∷ [])

send-wait_both_example :
    let (sent, s1) = send_message_to_client true to_client memory in
    let (sent', s2) = send_message_to_server true to_server s1 in
    (sent ≡ true)
    × (sent' ≡ true)
    × (wait_for_new_message_to_client true disturbed to_server s2
        ≡ some (true, to_client, record s2 { client_signals = 0 }))
    × (wait_for_new_message_to_server true disturbed to_server s2
        ≡ some (true, to_server, record s2 { server_signals = 0 }))
unfolding poll_loop
send-wait_both_example =
    send-wait_both to_client to_server to_server memory true false disturbed to_client-Fits
      to_server-Fits refl refl

abbrev small_memory : Ipc
small_memory = record memory { shared_memory_size = 540 }

-- One byte more than what is behind the header.
abbrev three_bytes : Message
three_bytes = record to_client { bytes = 7 ∷ (8 ∷ (9 ∷ [])) }

send_too_long_example :
    let v = (send_message_to_client true three_bytes small_memory).1.view in
    ((send_message_to_client true three_bytes small_memory).0 ≡ false)
    × ((send_message_to_client true three_bytes small_memory).1.client_signals ≡ 0)
    × (length (read_message 0 v).bytes ≡ 3)
    × ((270 < 268 + length (read_message 0 v).bytes) ↔ (2 < 3))
send_too_long_example =
    send_too_long true three_bytes small_memory (omega arith) (omega arith) (omega arith)

-- Everything succeeds but the opening of the server's pipe.
abbrev late_failure : Posix.Calls
late_failure = record {
  shm_opens = true;
  truncates = true;
  maps = true;
  makes_client_fifo = true;
  makes_server_fifo = true;
  opens_client_fifo = true;
  opens_server_fifo = false;
}

abbrev all_well : Posix.Calls
all_well = record late_failure { opens_server_fifo = true }

late_failure_run : (Posix.initialize_as_server 4096 late_failure fresh).0 ≡ false
unfolding Posix.initialize_as_server
late_failure_run = refl

server_fails-HoldsNothing_example :
    ((Posix.initialize_as_server 4096 late_failure fresh).1.names ≡ no_names)
    × HoldsNothing (Posix.initialize_as_server 4096 late_failure fresh).1.process
server_fails-HoldsNothing_example = server_fails-HoldsNothing 4096 late_failure late_failure_run

abbrev served : Posix.Names
served = record { memory = true; client_fifo = true; server_fifo = true }

abbrev client_start : Posix.State
client_start = record { names = served; process = Posix.new_process }

late_client_run : (Posix.initialize_as_client late_failure client_start).0 ≡ false
unfolding Posix.initialize_as_client
late_client_run = refl

all_well_run : (Posix.initialize_as_server 4096 all_well fresh).0 ≡ true
unfolding Posix.initialize_as_server
all_well_run = refl

abbrev no_event : Windows.Calls
no_event = record {
  opens_mapping = true;
  maps_view = true;
  opens_client_event = true;
  opens_server_event = false;
}

setup-destruct_example :
    let (ok, p) = Windows.initialize_as_server 4096 no_event Windows.new_process in
    let (joined, q) = Windows.initialize_as_client no_event Windows.new_process in
    ((if ok then Windows.new_process else p) ≡ Windows.new_process)
    × ((if joined then Windows.new_process else q) ≡ Windows.new_process)
    × (Windows.destruct p ≡ Windows.new_process)
    × (Windows.destruct q ≡ Windows.new_process)
setup-destruct_example = setup-destruct 4096 no_event no_event

-- The name is taken by another server, whose memory the destructor unlinks.
abbrev name_taken : Posix.Calls
name_taken = record late_failure { shm_opens = false }

server-destruct_example :
    ((Posix.destruct (Posix.initialize_as_server 4096 name_taken (named true)).1).names ≡ no_names)
    × HoldsNothing
        (Posix.destruct (Posix.initialize_as_server 4096 name_taken (named true)).1).process
server-destruct_example = server-destruct 4096 name_taken true
