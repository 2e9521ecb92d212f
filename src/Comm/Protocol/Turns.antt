-- ===== src/Comm/Protocol/Turns.antt =====
-- A turn of the proxy on messages of the protocol takes at most one note and forwards at most one job.
use fluffi.Base.{
  ◌≡◌, ◌⊎◌, inl, inr, refl, ◌&&◌, Bool-cases, Option, none, some, List, [], ◌∷◌, map, Text, text_eq,
  text_eq_iff,
}
use fluffi.Comm.Proxy.{
  Frames, ready, Poll, Turn, is_active, receive_reply, process_reply, forward_request,
  process_request,
}
use fluffi.Comm.Protocol.{Note, hello, reply, Job, Protocol, note_frames, job_frames}
use fluffi.Comm.Protocol.Moves.{takes, forwards}

module _ {Answers : Text → Text → Type 0} where
  abbrev pub note_answer : Note Answers → Option Frames
  note_answer (hello w) = none
  note_answer (reply w c r a n p) = some (c ∷ ([] ∷ (a ∷ [])))

  abbrev pub turn_of : Protocol Answers → Option Frames → Option Frames → Turn
  turn_of m f b = record {
    proxy = record { state = m.state; worker_queue = m.idle };
    backend = map note_frames m.notes;
    frontend = map job_frames m.waiting;
    to_frontend = f;
    to_backend = b;
  }

  pub receive_note :
      (n : Note Answers) (ns : List (Note Answers)) (m : Protocol Answers)
      → receive_reply (map note_frames (n ∷ ns)) (turn_of m none none)
        ≡ some (turn_of (takes m n ns) (note_answer n) none)
  unfolding receive_reply text_eq
  receive_note (hello w) ns m = refl
  receive_note (reply w c r a client_named p) ns m = elim (Bool-cases (text_eq c ready)) [
    | inl e ↦ absurd (client_named ((text_eq_iff c ready).0 e))
    | inr e ↦ rw e refl
  ]

  abbrev pub TakesNote : Protocol Answers → Option Turn → Type 0
  TakesNote m result =
      (n : Note Answers) × (ns : List (Note Answers)) × (m.notes ≡ n ∷ ns)
      × (result ≡ some (turn_of (takes m n ns) (note_answer n) none))

  receive-TakesNote :
      (m : Protocol Answers) (notes : List (Note Answers))
      → m.notes ≡ notes
      → (receive_reply (map note_frames notes) (turn_of m none none) ≡ some (turn_of m none none))
        ⊎ TakesNote m (receive_reply (map note_frames notes) (turn_of m none none))
  unfolding receive_reply
  receive-TakesNote m [] e = inl refl
  receive-TakesNote m (n ∷ ns) e = inr (n, ns, e, receive_note n ns m)

  pub process_reply-TakesNote :
      (p : Poll) (m : Protocol Answers)
      → (process_reply p (turn_of m none none) ≡ some (turn_of m none none))
        ⊎ TakesNote m (process_reply p (turn_of m none none))
  unfolding process_reply
  process_reply-TakesNote p m =
      elim (Bool-cases (is_active m.state && (p.backend_in && p.frontend_out))) [
        | inl e ↦ rw e (receive-TakesNote m m.notes refl)
        | inr e ↦ rw e (inl refl)
      ]

  abbrev pub Forwards : Protocol Answers → Option Frames → Turn → Type 0
  Forwards m f result =
      (w : Text) × (ws : List Text) × (j : Job) × (js : List Job) × (m.idle ≡ w ∷ ws)
      × (m.waiting ≡ j ∷ js)
      × (result ≡ turn_of (forwards m w ws j js) f (some (w ∷ ([] ∷ job_frames j))))

  forward-Forwards :
      (m : Protocol Answers) (f : Option Frames) (idle : List Text) (waiting : List Job)
      → m.idle ≡ idle
      → m.waiting ≡ waiting
      → (forward_request idle (map job_frames waiting) (turn_of m f none) ≡ turn_of m f none)
        ⊎ Forwards m f (forward_request idle (map job_frames waiting) (turn_of m f none))
  unfolding forward_request
  forward-Forwards m f [] waiting e d = inl refl
  forward-Forwards m f (w ∷ ws) [] e d = inl refl
  forward-Forwards m f (w ∷ ws) (j ∷ js) e d = inr (w, ws, j, js, e, d, refl)

  pub process_request-Forwards :
      (p : Poll) (m : Protocol Answers) (f : Option Frames)
      → (process_request p (turn_of m f none) ≡ turn_of m f none)
        ⊎ Forwards m f (process_request p (turn_of m f none))
  unfolding process_request
  process_request-Forwards p m f =
      elim (Bool-cases (is_active m.state && (p.frontend_in && p.backend_out))) [
        | inl e ↦ rw e (forward-Forwards m f m.idle m.waiting refl refl)
        | inr e ↦ rw e (inl refl)
      ]
