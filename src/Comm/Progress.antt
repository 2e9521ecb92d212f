-- ===== src/Comm/Progress.antt =====
-- An active proxy with a worker can always go on until no request is open.
pub mod Steps
use fluffi.Base.{
  ℕ, zero, suc, ◌+◌, ◌<◌, ◌≤◌, ◌≡◌, ◌≢◌, refl, ap, sym, ◌∙◌, Bool, true, false, Option, none, some,
  List, [], ◌∷◌, ◌++◌, map, map-append, Text, text_eq, contains, text_instance, text_eq_iff,
  text_eq_self, arith, subst, total, Bag, bag, append-nil, if◌then◌else◌,
}
use fluffi.Comm.Proxy.{Frames, ready, Phase, active, Proxy, Poll, Turn, proxy_turn}
use fluffi.Comm.Network.{
  Sockets, Network, Label, silent, asked, answered, respond, last_frame, deliver, reply_label, Step,
  serve, turn, Run, rest, step, started, after_turn,
}
use fluffi.Comm.Protocol.{
  Request, Note, hello, reply, Job, Protocol, note_frames, job_request, job_frames, mail_of, encode,
  open_requests, IsPlaced, Serves, pause, Served, done, serve_next,
}
use fluffi.Comm.Protocol.Moves
use fluffi.Comm.Protocol.Moves.{completes, takes, forwards, total-open}
use fluffi.Comm.Protocol.Turns.{note_answer, turn_of, receive_note}
use fluffi.Comm.Refinement.{takes-Serves, run-Served}
use fluffi.Comm.Progress.Steps.{
  one, each, is_worker, contains_of_total, nil_of_total, total_pos, step_first, run_append,
  Serves-first, Served-append, live, step_take, step_forward, step_serve,
}

module _ (z : Sockets) {Answers : Text → Text → Type 0} where
  -- A run that ends with an answer, after which one request less is open.
  abbrev pub Progresses : Protocol Answers → Type 0
  Progresses m =
      (m' : Protocol Answers) × (ls : List Label) × (c : Text) × (a : Text) × Run z Answers
        (encode m) (answered c a ∷ ls) (encode m')
      × (m'.state ≡ active)
      × (m'.workers ≡ m.workers)
      × IsPlaced m'
      × (total one (open_requests m) ≡ total one (open_requests m') + 1)
      × Served Answers (bag (open_requests m)) (answered c a ∷ ls) (bag (open_requests m'))

  -- A step that the clients do not see, before a run that ends with an answer.
  after_silent :
      (m k : Protocol Answers) (l : Label)
      → Step z Answers (encode m) l (encode k)
      → k.workers ≡ m.workers
      → total one (open_requests m) ≡ total one (open_requests k)
      → Serves Answers (bag (open_requests m)) l (bag (open_requests k))
      → Progresses k
      → Progresses m
  after_silent m k l st same count v
        (m', ls, c, a, run, is_active, workers, placed, fewer, served) =
      (
        m',
        ls ++ l ∷ [],
        c,
        a,
        step_first z st run,
        is_active,
        workers ∙ same,
        placed,
        count ∙ fewer,
        Serves-first v served,
      )

  take_reply_Progresses :
      (i : List Text) (q : List Job) (w c r a : Text) (named : c ≢ ready) (p : Answers r a)
      (ns : List (Note Answers)) (js : List (Text × Job)) (ws : List Text)
      → IsPlaced (live i q (reply w c r a named p ∷ ns) js ws)
      → Progresses (live i q (reply w c r a named p ∷ ns) js ws)
  unfolding reply_label
  take_reply_Progresses i q w c r a named p ns js ws h =
      let n : Note Answers = reply w c r a named p in
      let m : Protocol Answers = live i q (n ∷ ns) js ws in
      let seen : reply_label z (note_answer n) ≡ answered c a =
        rw (z.router_send_lem c ([] ∷ (a ∷ [])), z.req_recv_lem (a ∷ [])) refl in
      (
        takes m n ns,
        [],
        c,
        a,
        step rest (
            subst (λ (l : Label). Step z Answers (encode m) l (encode (takes m n ns))) seen
              (step_take z i q n ns js ws)),
        refl,
        refl,
        Moves.takes-IsPlaced m n ns refl h,
        omega (arith, Moves.takes-open m n ns refl one),
        serve_next done (
            subst
              (λ (l : Label).
                Serves Answers (bag (open_requests m)) l (bag (open_requests (takes m n ns))))
              seen (takes-Serves z m n ns refl)),
      )

  notes_Progresses :
      (i : List Text) (q : List Job) (ns : List (Note Answers)) (w c r a : Text) (named : c ≢ ready)
      (p : Answers r a) (js : List (Text × Job)) (ws : List Text)
      → IsPlaced (live i q (ns ++ reply w c r a named p ∷ []) js ws)
      → Progresses (live i q (ns ++ reply w c r a named p ∷ []) js ws)
  unfolding reply_label
  notes_Progresses i q [] w c r a named p js ws h =
      take_reply_Progresses i q w c r a named p [] js ws h
  notes_Progresses i q (reply w' c' r' a' named' p' ∷ ns) w c r a named p js ws h =
      take_reply_Progresses i q w' c' r' a' named' p' (ns ++ reply w c r a named p ∷ []) js ws h
  notes_Progresses i q (hello w' ∷ ns) w c r a named p js ws h =
      let rest_of : List (Note Answers) = ns ++ reply w c r a named p ∷ [] in
      let m : Protocol Answers = live i q (hello w' ∷ rest_of) js ws in
      after_silent m (takes m (hello w') rest_of) silent (step_take z i q (hello w') rest_of js ws)
        refl (omega (arith, Moves.takes-open m (hello w') rest_of refl one))
        (takes-Serves z m (hello w') rest_of refl)
        (notes_Progresses (i ++ w' ∷ []) q ns w c r a named p js ws
          (Moves.takes-IsPlaced m (hello w') rest_of refl h))

  -- Handlers answer every request.
  module _ (able : (r : Text) → (a : Text) × Answers r a) where
    job_Progresses :
        (i : List Text) (q : List Job) (w : Text) (j : Job) (js : List (Text × Job))
        (ws : List Text)
        → IsPlaced {Answers = Answers} (live i q [] ((w, j) ∷ js) ws)
        → Progresses (live i q [] ((w, j) ∷ js) ws)
    job_Progresses i q w j js ws h =
        let m : Protocol Answers = live i q [] ((w, j) ∷ js) ws in
        let (a, p) = able j.request in
        let n : Note Answers = reply w j.client j.request a j.named p in
        let known : contains w ws ≡ true =
          contains_of_total w ws (ground (arith, h.placed (is_worker w), text_eq_self w)) in
        after_silent m (completes m js n) silent (step_serve z i q [] w j js ws a p known) refl
          (omega (arith, total-open one m, total-open one (completes m js n)))
          (pause refl (Moves.completes-open m [] js w j n refl refl refl))
          (notes_Progresses i q [] w j.client j.request a j.named p js ws
            (Moves.completes-IsPlaced m [] js w j n refl refl refl h))

    live-Progresses :
        (i : List Text) (q : List Job) (ns : List (Note Answers)) (js : List (Text × Job))
        (ws : List Text)
        → IsPlaced (live i q ns js ws)
        → 0 < total each ws
        → 0 < total one (open_requests (live i q ns js ws))
        → Progresses (live i q ns js ws)
    unfolding reply_label
    live-Progresses i q (reply w c r a named p ∷ ns) js ws h some_worker is_open =
        take_reply_Progresses i q w c r a named p ns js ws h
    live-Progresses i q (hello w ∷ ns) js ws h some_worker is_open =
        let m : Protocol Answers = live i q (hello w ∷ ns) js ws in
        let same : total one (open_requests m) ≡ total one (open_requests (takes m (hello w) ns)) =
          omega (arith, Moves.takes-open m (hello w) ns refl one) in
        after_silent m (takes m (hello w) ns) silent (step_take z i q (hello w) ns js ws) refl same
          (takes-Serves z m (hello w) ns refl)
          (live-Progresses (i ++ w ∷ []) q ns js ws (Moves.takes-IsPlaced m (hello w) ns refl h)
            some_worker (subst (λ n. 0 < n) same is_open))
    live-Progresses i q [] ((w, j) ∷ js) ws h some_worker is_open = job_Progresses i q w j js ws h
    live-Progresses (w ∷ i) (j ∷ q) [] [] ws h some_worker is_open =
        let m : Protocol Answers = live (w ∷ i) (j ∷ q) [] [] ws in
        after_silent m (forwards m w i j q) silent (step_forward z w i j q [] ws) refl
          (omega (arith, total-open one m, total-open one (forwards m w i j q)))
          (pause refl (Moves.forwards-open m w i j q refl refl))
          (job_Progresses i q w j [] ws (Moves.forwards-IsPlaced m w i j q refl refl h))
    live-Progresses [] (j ∷ q) [] [] ws h some_worker is_open =
        absurd (omega (arith, h.placed each))
    live-Progresses i [] [] [] ws h some_worker is_open = absurd (omega arith)

    active_Progresses :
        (m : Protocol Answers)
        → m.state ≡ active
        → IsPlaced m
        → 0 < total each m.workers
        → 0 < total one (open_requests m)
        → Progresses m
    active_Progresses m is_active h some_worker is_open =
        let same : live m.idle m.waiting m.notes m.jobs m.workers ≡ m = rw (sym is_active) refl in
        subst Progresses same (
          live-Progresses m.idle m.waiting m.notes m.jobs m.workers
            (record { different = h.different; placed = h.placed }) some_worker is_open)

    drain :
        (count : ℕ) (m : Protocol Answers)
        → total one (open_requests m) ≡ count
        → m.state ≡ active
        → 0 < total each m.workers
        → IsPlaced m
        → (u : Network) × (ls : List Label) × Run z Answers (encode m) ls u
          × Served Answers (bag (open_requests m)) ls (bag [])
    drain zero m none_open is_active some_worker h = (
      encode m,
      [],
      rest,
      subst (λ (k : List Request). Served Answers (bag (open_requests m)) [] (bag k))
          (nil_of_total (open_requests m) none_open) done,
    )
    drain (suc count) m some_open is_active some_worker h =
        let (m', ls, c, a, run, is_active', workers, placed, fewer, served) =
          active_Progresses m is_active h some_worker (omega arith) in
        let (u, ks, run', served') =
          drain count m' (omega arith) is_active'
            (subst (λ (ws : List Text). 0 < total each ws) (sym workers) some_worker) placed in
        (u, ks ++ answered c a ∷ ls, run_append z run run', Served-append served served')

    -- From any state of the network in which the proxy is active and a worker has started, steps are
    -- possible after which every request that was asked has been answered.
    pub run-drains :
        {t : Network} {ls : List Label}
        → Run z Answers started ls t
        → t.proxy.state ≡ active
        → t.workers ≢ []
        → (u : Network) × (ks : List Label) × Run z Answers t ks u
          × Served Answers (bag []) (ks ++ ls) (bag [])
    run-drains {t} {ls} run is_active some_worker =
        let (m, same, placed, served) = run-Served z run in
        let (u, ks, run', served') =
          drain (total one (open_requests m)) m refl
            (sym (ap (λ (s : Network). s.proxy.state) same) ∙ is_active)
            (total_pos m.workers (λ e. some_worker (ap (λ (s : Network). s.workers) same ∙ e)))
            placed in
        (
          u,
          ks,
          subst (λ (s : Network). Run z Answers s ks u) (sym same) run',
          Served-append served served',
        )
