-- ===== src/Comm/Progress/Steps.antt =====
-- The steps by which an active network goes on: a note is taken, a job is forwarded, a job is done.
use fluffi.Base.{
  ℕ, ◌<◌, ◌≡◌, ◌≢◌, refl, true, false, none, some, List, [], ◌∷◌, ◌++◌, map, map-append, Text,
  text_eq, contains, text_instance, arith, total, Bag, append-nil, if◌then◌else◌,
}
use fluffi.Comm.Proxy.{active, Poll, proxy_turn}
use fluffi.Comm.Network.{
  Sockets, Network, Label, silent, respond, last_frame, deliver, reply_label, Step, serve, turn,
  Run, rest, step,
}
use fluffi.Comm.Protocol.{
  Request, Note, reply, Job, Protocol, note_frames, job_frames, mail_of, encode, Serves, Served,
  done, serve_next,
}
use fluffi.Comm.Protocol.Moves.{completes, takes, forwards}
use fluffi.Comm.Protocol.Turns.{note_answer, turn_of, receive_note}

abbrev pub each : Text → ℕ
each w = 1

abbrev pub one : Request → ℕ
one r = 1

pub nil_of_total : (rs : List Request) → total one rs ≡ 0 → rs ≡ []
nil_of_total [] h = refl
nil_of_total (r ∷ rs) h = absurd (omega arith)

abbrev pub is_worker : Text → Text → ℕ
is_worker w x = if text_eq x w then 1 else 0

pub contains_of_total :
    (w : Text) (ws : List Text) → 0 < total (is_worker w) ws → contains w ws ≡ true
unfolding contains
contains_of_total w [] h = absurd (omega arith)
contains_of_total w (x ∷ ws) h = ground (arith, contains_of_total w ws)

pub total_pos : (ws : List Text) → ws ≢ [] → 0 < total each ws
total_pos [] h = absurd (h refl)
total_pos (w ∷ ws) h = omega arith

abbrev take_poll : Poll
take_poll = record {
  control = none;
  backend_in = true;
  frontend_out = true;
  frontend_in = false;
  backend_out = false;
}

abbrev forward_poll : Poll
forward_poll = record {
  control = none;
  backend_in = false;
  frontend_out = false;
  frontend_in = true;
  backend_out = true;
}

module _ {Answers : Text → Text → Type 0} where
  pub Serves-first :
      {b c d : Bag Request} {l : Label} {ls : List Label}
      → Serves Answers b l c
      → Served Answers c ls d
      → Served Answers b (ls ++ l ∷ []) d
  Serves-first st done = serve_next done st
  Serves-first st (serve_next before next) = serve_next (Serves-first st before) next

  pub Served-append :
      {b c d : Bag Request} {ls ks : List Label}
      → Served Answers b ls c
      → Served Answers c ks d
      → Served Answers b (ks ++ ls) d
  Served-append before done = before
  Served-append before (serve_next after st) = serve_next (Served-append before after) st

  abbrev pub live :
      List Text → List Job → List (Note Answers) → List (Text × Job) → List Text → Protocol Answers
  live idle waiting notes jobs workers = record {
    state = active;
    idle = idle;
    waiting = waiting;
    notes = notes;
    jobs = jobs;
    workers = workers;
  }

module _ (z : Sockets) {Answers : Text → Text → Type 0} where
  pub step_first :
      {s t u : Network} {l : Label} {ls : List Label}
      → Step z Answers s l t
      → Run z Answers t ls u
      → Run z Answers s (ls ++ l ∷ []) u
  step_first st rest = step rest st
  step_first st (step before next) = step (step_first st before) next

  pub run_append :
      {s t u : Network} {ls ks : List Label}
      → Run z Answers s ls t
      → Run z Answers t ks u
      → Run z Answers s (ks ++ ls) u
  run_append before rest = before
  run_append before (step after st) = step (run_append before after) st

  turn_take :
      (i : List Text) (q : List Job) (n : Note Answers) (ns : List (Note Answers))
      (js : List (Text × Job)) (ws : List Text)
      → let m : Protocol Answers = live i q (n ∷ ns) js ws in
        proxy_turn take_poll (encode m).proxy (encode m).backend (encode m).frontend
        ≡ some (turn_of (takes m n ns) (note_answer n) none)
  unfolding proxy_turn
  turn_take i q n ns js ws = rw (receive_note n ns (live i q (n ∷ ns) js ws)) refl

  pub step_take :
      (i : List Text) (q : List Job) (n : Note Answers) (ns : List (Note Answers))
      (js : List (Text × Job)) (ws : List Text)
      → let m : Protocol Answers = live i q (n ∷ ns) js ws in
        Step z Answers (encode m) (reply_label z (note_answer n)) (encode (takes m n ns))
  unfolding deliver
  step_take i q n ns js ws =
      let m : Protocol Answers = live i q (n ∷ ns) js ws in
      turn take_poll (turn_of (takes m n ns) (note_answer n) none) (turn_take i q n ns js ws) refl
        (rw (append-nil (map mail_of js)) refl)

  pub step_forward :
      (w : Text) (i : List Text) (j : Job) (q : List Job) (js : List (Text × Job)) (ws : List Text)
      → let m : Protocol Answers = live (w ∷ i) (j ∷ q) [] js ws in
        Step z Answers (encode m) silent (encode (forwards m w i j q))
  unfolding proxy_turn deliver reply_label
  step_forward w i j q js ws =
      let m : Protocol Answers = live (w ∷ i) (j ∷ q) [] js ws in
      turn forward_poll (turn_of (forwards m w i j q) none (some (w ∷ ([] ∷ job_frames j)))) refl
        refl
        (rw (z.router_send_lem w ([] ∷ job_frames j), map-append mail_of js ((w, j) ∷ [])) refl)

  pub step_serve :
      (i : List Text) (q : List Job) (ns : List (Note Answers)) (w : Text) (j : Job)
      (js : List (Text × Job)) (ws : List Text) (a : Text) (p : Answers j.request a)
      → contains w ws ≡ true
      → let m : Protocol Answers = live i q ns ((w, j) ∷ js) ws in
        Step z Answers
          (encode m)
          silent
          (encode (completes m js (reply w j.client j.request a j.named p)))
  unfolding respond last_frame
  step_serve i q ns w j js ws a p known =
      serve [] (map mail_of js) w ([] ∷ job_frames j) (job_frames j) (j.client ∷ ([] ∷ (a ∷ [])))
        j.request a known refl (z.req_recv_lem (job_frames j)) refl p refl refl
        (rw
          (
            z.req_send_lem (j.client ∷ ([] ∷ (a ∷ []))),
            z.router_recv_lem w ([] ∷ (j.client ∷ ([] ∷ (a ∷ [])))),
            map-append note_frames ns (reply w j.client j.request a j.named p ∷ []),
          )
          refl)
