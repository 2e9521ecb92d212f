-- ===== src/SharedMem/Channel/Refusals.antt =====
-- Messages that are too long, and the ends of a wait.
use fluffi.Base.{
  ℕ, ◌+◌, ◌-◌, ◌^◌, ◌≤◌, ◌<◌, ◌≡◌, ◌⊎◌, ◌↔◌, inl, inr, refl, ap, ◌∙◌, zero, suc, Bool, true, false,
  ◌&&◌, not, [], arith, if◌then◌else◌, Bool-cases, length,
}
use fluffi.SharedMem.Memory.{View, read_bytes, write_bytes, u32_bytes, read_u32}
use fluffi.SharedMem.Memory.Access.{read-write_u32}
use fluffi.SharedMem.Channel.{
  Message, Ipc, half, place_message, read_message, place_message_for_client, send_message_to_client,
  Poll, failed, timed_out, readable, Received, without_data, after_poll, set_message_type,
  replace_data_with, message_transmission_error, message_transmission_timeout,
  message_wait_interrupted,
}

length-read_bytes : (off n : ℕ) (v : View) → length (read_bytes off n v) ≡ n
unfolding read_bytes
length-read_bytes off zero v = refl
length-read_bytes off (suc n) v = ap suc (length-read_bytes (off + 1) n v)

-- The header of a message that does not fit holds its length all the same.
refused_header :
    (written : Bool) (m : Message) (s : Ipc)
    → 269 ≤ half s
    → half s - 268 ≤ length m.bytes
    → length m.bytes < 2 ^ 32
    → ((send_message_to_client written m s).0 ≡ false)
      × ((send_message_to_client written m s).1.client_signals ≡ s.client_signals)
      × (read_u32 264 (send_message_to_client written m s).1.view ≡ length m.bytes)
unfolding send_message_to_client place_message_for_client place_message
refused_header written m s a b c =
    ground (
      arith,
      read-write_u32 264 (length m.bytes) (write_bytes 260 (u32_bytes m.message_type) s.view),
    )

-- A message that leaves no byte of the half free, or is longer, is refused and not signalled, but its
-- length is in the header: whoever reads that half next, for the sake of an earlier message, is given
-- that many bytes, which go beyond the end of the half exactly where the message is longer than what
-- is behind the header.
pub send_too_long :
    (written : Bool) (m : Message) (s : Ipc)
    → 269 ≤ half s
    → half s - 268 ≤ length m.bytes
    → length m.bytes < 2 ^ 32
    → let v = (send_message_to_client written m s).1.view in
      ((send_message_to_client written m s).0 ≡ false)
      × ((send_message_to_client written m s).1.client_signals ≡ s.client_signals)
      × (length (read_message 0 v).bytes ≡ length m.bytes)
      × ((half s < 268 + length (read_message 0 v).bytes) ↔ (half s - 268 < length m.bytes))
unfolding read_message
send_too_long written m s a b c =
    let (refused, silent, header) = refused_header written m s a b c in
    let v = (send_message_to_client written m s).1.view in
    let n : length (read_message 0 v).bytes ≡ length m.bytes =
      length-read_bytes 268 (read_u32 264 v) v ∙ header in
    (refused, silent, n, ((λ h. omega arith), (λ h. omega arith)))

-- A wait ends with the message that stands in the half, and then empties the pipe of the half; or
-- with `false`, no data, and a type that names the end of the time, an interrupt or an error, and then
-- leaves the pipe. The interrupt pipe is emptied exactly when the type says interrupt, and only where
-- there is one.
pub after_poll_outcomes :
    (interrupt : Bool) (base : ℕ) (v : View) (k : Message) (p : Poll)
    → let r = after_poll interrupt base v k p in
      ((r.success ≡ true)
        × (r.message ≡ read_message base v)
        × (r.pipe_emptied ≡ true)
        × (r.interrupt_emptied ≡ false))
      ⊎ ((r.success ≡ false)
          × (r.message.bytes ≡ [])
          × (r.pipe_emptied ≡ false)
          × (((r.message.message_type ≡ message_wait_interrupted)
                × (r.interrupt_emptied ≡ true)
                × (interrupt ≡ true))
              ⊎ (((r.message.message_type ≡ message_transmission_timeout)
                    ⊎ (r.message.message_type ≡ message_transmission_error))
                  × (r.interrupt_emptied ≡ false))))
unfolding after_poll
after_poll_outcomes interrupt base v k (failed e) = inr (refl, refl, refl, inr (inr refl, refl))
after_poll_outcomes interrupt base v k timed_out = inr (refl, refl, refl, inr (inl refl, refl))
after_poll_outcomes interrupt base v k (readable i f) = elim (Bool-cases (interrupt && i)) [
  | inl e ↦ rw e (inr (refl, refl, refl, inl (refl, refl, ground arith)))
  | inr e ↦ rw e (ending f)
]
  where
    ending :
        (f : Bool)
        → let r : Received =
            (if not f
              then record {
                success = false;
                message = without_data message_transmission_error k;
                interrupt_emptied = false;
                pipe_emptied = false;
              }
              else record {
                success = true;
                message =
                    replace_data_with
                      (read_message base v).bytes
                      (set_message_type (read_message base v).message_type k);
                interrupt_emptied = false;
                pipe_emptied = true;
              }) in
          ((r.success ≡ true)
            × (r.message ≡ read_message base v)
            × (r.pipe_emptied ≡ true)
            × (r.interrupt_emptied ≡ false))
          ⊎ ((r.success ≡ false)
              × (r.message.bytes ≡ [])
              × (r.pipe_emptied ≡ false)
              × (((r.message.message_type ≡ message_wait_interrupted)
                    × (r.interrupt_emptied ≡ true)
                    × (interrupt ≡ true))
                  ⊎ (((r.message.message_type ≡ message_transmission_timeout)
                        ⊎ (r.message.message_type ≡ message_transmission_error))
                      × (r.interrupt_emptied ≡ false))))
    ending true = inl (refl, refl, refl, refl)
    ending false = inr (refl, refl, refl, inr (inr refl, refl))
