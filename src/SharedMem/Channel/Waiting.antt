-- ===== src/SharedMem/Channel/Waiting.antt =====
-- A message that is sent is the one that a wait returns.
use fluffi.Base.{
  ℕ, ◌+◌, ◌≤◌, ◌<◌, ◌≡◌, ◌⊎◌, inl, refl, ap, ◌∙◌, Bool, true, false, ◌&&◌, some, List, arith,
}
use fluffi.SharedMem.Memory.{View, read_bytes, read_u32}
use fluffi.SharedMem.Memory.Access.{read_bytes_same, read_u32_same}
use fluffi.SharedMem.Channel.{
  Message, Ipc, half, max_path, read_message, place_message_for_client, place_message_for_server,
  send_message_to_client, send_message_to_server, Poll, readable, poll_loop,
  wait_for_new_message_to_client, wait_for_new_message_to_server,
}
use fluffi.SharedMem.Channel.Roundtrip.{
  Fits, placed, length-placed, place_outside, place-Fits, read-placed,
}

-- Reading a half depends on its header and the bytes that the header counts.
read_message_same :
    (base : ℕ) (v w : View)
    → ((a : ℕ) → base + 260 ≤ a → a < base + 268 + read_u32 (base + max_path + 4) v → w a ≡ v a)
    → read_message base w ≡ read_message base v
unfolding read_message
read_message_same base v w h = λ i. record { message_type = t i; bytes = b i }
  where
    n : read_u32 (base + max_path + 4) w ≡ read_u32 (base + max_path + 4) v
    n = read_u32_same (base + max_path + 4) w v (λ a p q. h a (omega arith) (omega arith))

    t : read_u32 (base + max_path) w ≡ read_u32 (base + max_path) v
    t = read_u32_same (base + max_path) w v (λ a p q. h a (omega arith) (omega arith))

    b :
        read_bytes (base + max_path + 8) (read_u32 (base + max_path + 4) w) w
        ≡ read_bytes (base + max_path + 8) (read_u32 (base + max_path + 4) v) v
    b = rw n (
        read_bytes_same (base + max_path + 8) (read_u32 (base + max_path + 4) v) w v
          (λ a p q. h a (omega arith) (omega arith)))

-- The message in a half is there still when the other half was written.
kept_message :
    (base room : ℕ) (m : Message) (v w : View)
    → Fits room m
    → ((a : ℕ) → base + 260 ≤ a → a < base + room → w a ≡ placed base m v a)
    → read_message base w ≡ m
kept_message base room m v w f h =
    read_message_same base (placed base m v) w (λ a p q.
      h a p (omega (arith, length-placed base m v (omega (arith, f.short, f.small)), f.short)))
    ∙ read-placed base room m v f

sent_to_client :
    (m : Message) (s : Ipc)
    → Fits (half s) m
    → send_message_to_client true m s
      ≡ (true, record s { view = placed 0 m s.view; client_signals = s.client_signals + 1 })
unfolding send_message_to_client place_message_for_client
sent_to_client m s f = ground (arith, place-Fits 0 (half s) m s.view f)

sent_to_server :
    (m : Message) (s : Ipc)
    → Fits (half s) m
    → send_message_to_server true m s
      ≡ (true, record s { view = placed (half s) m s.view; server_signals = s.server_signals + 1 })
unfolding send_message_to_server place_message_for_server
sent_to_server m s f = ground (arith, place-Fits (half s) (half s) m s.view f)

-- The state after a message to each side.
abbrev both_sent : Message → Message → Ipc → Ipc
both_sent m n s = record s {
  view = placed (half s) n (placed 0 m s.view);
  client_signals = s.client_signals + 1;
  server_signals = s.server_signals + 1;
}

placed_outside :
    (base room : ℕ) (m : Message) (v : View) (a : ℕ)
    → Fits room m
    → (a < base + 260) ⊎ (base + room ≤ a)
    → placed base m v a ≡ v a
placed_outside base room m v a f h = ground (
  arith,
  f.short,
  place-Fits base room m v f,
  place_outside base room m v a (omega (arith, f.short)) h,
)

client_part :
    (m n : Message) (s : Ipc)
    → Fits (half s) m
    → Fits (half s) n
    → read_message 0 (both_sent m n s).view ≡ m
client_part m n s f g =
    kept_message 0 (half s) m s.view (both_sent m n s).view f
      (λ a p q. placed_outside (half s) (half s) n (placed 0 m s.view) a g (inl (omega arith)))

server_part :
    (m n : Message) (s : Ipc) → Fits (half s) n → read_message (half s) (both_sent m n s).view ≡ n
server_part m n s g = read-placed (half s) (half s) n (placed 0 m s.view) g

received_by_client :
    (interrupt i : Bool) (polls : List Poll) (k m : Message) (s : Ipc)
    → poll_loop polls ≡ some (readable i true)
    → (interrupt && i) ≡ false
    → read_message 0 s.view ≡ m
    → wait_for_new_message_to_client interrupt polls k s
      ≡ some (true, m, record s { client_signals = 0 })
unfolding wait_for_new_message_to_client
received_by_client interrupt i polls k m s e h r =
    rw (e, wait_for_new_message_to_client)
      (rw h (ap (λ (x : Message). some (true, x, record s { client_signals = 0 })) r))

received_by_server :
    (interrupt i : Bool) (polls : List Poll) (k m : Message) (s : Ipc)
    → poll_loop polls ≡ some (readable i true)
    → (interrupt && i) ≡ false
    → read_message (half s) s.view ≡ m
    → wait_for_new_message_to_server interrupt polls k s
      ≡ some (true, m, record s { server_signals = 0 })
unfolding wait_for_new_message_to_server
received_by_server interrupt i polls k m s e h r =
    rw (e, wait_for_new_message_to_server)
      (rw h (ap (λ (x : Message). some (true, x, record s { server_signals = 0 })) r))

-- Full duplex: where a message for the client and one for the server fit into their halves, both
-- sends succeed, and each side's wait, after any number of signals and where its pipe is readable and
-- no interrupt is, returns exactly the message that was sent to it and empties its own pipe.
pub send-wait_both :
    (m n k : Message) (s : Ipc) (interrupt i : Bool) (polls : List Poll)
    → Fits (half s) m
    → Fits (half s) n
    → poll_loop polls ≡ some (readable i true)
    → (interrupt && i) ≡ false
    → let (sent, s1) = send_message_to_client true m s in
      let (sent', s2) = send_message_to_server true n s1 in
      (sent ≡ true)
      × (sent' ≡ true)
      × (wait_for_new_message_to_client interrupt polls k s2
          ≡ some (true, m, record s2 { client_signals = 0 }))
      × (wait_for_new_message_to_server interrupt polls k s2
          ≡ some (true, n, record s2 { server_signals = 0 }))
send-wait_both m n k s interrupt i polls f g p q =
    let c = sent_to_client m s f in
    let d =
      sent_to_server n
        (record s { view = placed 0 m s.view; client_signals = s.client_signals + 1 }) g in
    rw c (
      rw d (
        refl,
        refl,
        received_by_client interrupt i polls k m (both_sent m n s) p q (client_part m n s f g),
        received_by_server interrupt i polls k n (both_sent m n s) p q (server_part m n s g),
      ))
