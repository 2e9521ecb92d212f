-- ===== src/Comm/Commands.antt =====
-- When a turn of the proxy ends the process.
use fluffi.Base.{
  ◌≡◌, ◌≢◌, ◌↔◌, inl, inr, refl, Option, none, some, Option-cases, List, Text, codes, text_eq_iff,
  arith,
}
use fluffi.Comm.Proxy.{Phase, Poll, Turn, process_control, process_reply, then_request, proxy_turn}
use fluffi.Comm.Network.{Sockets, Network, Label, Run, started}
use fluffi.Comm.Protocol.{Protocol, encode}
use fluffi.Comm.Protocol.Turns.{turn_of, process_reply-TakesNote}
use fluffi.Comm.Refinement.{run-Served}

-- A control message that is none of the three commands.
abbrev pub IsUnknown : Option Text → Type 0
IsUnknown none = ⊥
IsUnknown (some msg) = (msg ≢ codes "PAUSE") × (msg ≢ codes "RESUME") × (msg ≢ codes "TERMINATE")

control-IsUnknown :
    (control : Option Text) (p : Phase) → (process_control control p ≡ none) ↔ IsUnknown control
unfolding process_control
control-IsUnknown none p = (λ h. cc, λ h. absurd h)
control-IsUnknown (some msg) p = ground (
  arith,
  text_eq_iff msg (codes "PAUSE"),
  text_eq_iff msg (codes "RESUME"),
  text_eq_iff msg (codes "TERMINATE"),
)

module _ {Answers : Text → Text → Type 0} where
  messages_go_on :
      (m : Protocol Answers) (p : Poll)
      → (u : Turn) × (then_request p (process_reply p (turn_of m none none)) ≡ some u)
  unfolding then_request
  messages_go_on m p = elim (process_reply-TakesNote p m) [
    | inl e ↦ rw e (_, refl)
    | inr (n, ns, first, e) ↦ rw e (_, refl)
  ]

  turn-IsUnknown :
      (m : Protocol Answers) (p : Poll)
      → (proxy_turn p (encode m).proxy (encode m).backend (encode m).frontend ≡ none)
        ↔ IsUnknown p.control
  unfolding proxy_turn
  turn-IsUnknown m p = elim (Option-cases (process_control p.control m.state)) [
    | inl e ↦ rw e (λ h. (control-IsUnknown p.control m.state).0 e, λ h. refl)
    | inr (phase, e) ↦
        let (u, goes) = messages_go_on (record m { state = phase }) p in
        rw (e, goes)
          (
            λ h. absurd (cc),
            λ h. absurd (
                let x : process_control p.control m.state ≡ none =
                  (control-IsUnknown p.control m.state).1 h in
                cc),
          )
  ]

-- A turn in a network that runs ends the process exactly where the control socket gave a message that
-- is no command: no message of a client or a worker does.
pub run-IsUnknown :
    (z : Sockets) (Answers : Text → Text → Type 0) (t : Network) (ls : List Label)
    (run : Run z Answers started ls t) (p : Poll)
    → (proxy_turn p t.proxy t.backend t.frontend ≡ none) ↔ IsUnknown p.control
run-IsUnknown z Answers t ls run p =
    let (m, same, placed, served) = run-Served z run in rw same (turn-IsUnknown m p)
