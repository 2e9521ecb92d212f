-- ===== src/Comm/Refinement.antt =====
-- The network of clients, proxy and workers is the service that Comm/Protocol specifies.
mod Steps
use fluffi.Base.{
  ℕ, ◌≡◌, ◌≢◌, ◌⊎◌, inl, inr, refl, ap, sym, true, false, Option, none, some, List, [], ◌∷◌, ◌++◌,
  map, map-append, Text, ◌∙◌, Option-cases, bag_eq, put-bag, contains, text_instance, arith, subst,
  bag, put, append-nil,
}
use fluffi.Comm.Proxy.{
  Frames, ready, Phase, active, Proxy, Poll, Turn, process_control, process_reply, process_request,
  process_messages, then_request, proxy_turn,
}
use fluffi.Comm.Network.{
  Sockets, Network, Label, silent, asked, answered, respond, last_frame, deliver, reply_label,
  after_turn, Step, ask, start, serve, turn, Run, rest, step, started,
}
use fluffi.Comm.Protocol.{
  Request, Note, hello, reply, Job, Protocol, note_worker, note_requests, note_frames, job_request,
  job_frames, mail_of, encode, open_requests, IsPlaced, Serves, pause, open_request, close_request,
  Served, done, serve_next,
}
use fluffi.Comm.Protocol.Moves
use fluffi.Comm.Protocol.Moves.{asks, starts, completes, takes, forwards}
use fluffi.Comm.Protocol.Turns.{
  note_answer, turn_of, TakesNote, Forwards, process_reply-TakesNote, process_request-Forwards,
}
use fluffi.Comm.Refinement.Steps.{Simulated, ask-Simulated, start-Simulated, serve-Simulated}

module _ (z : Sockets) {Answers : Text → Text → Type 0} where
  -- The second half of a turn: at most one request goes to an idle worker.
  request-Simulated :
      (m k : Protocol Answers) (p : Poll) (f : Option Frames)
      → k.jobs ≡ m.jobs
      → k.workers ≡ m.workers
      → IsPlaced k
      → Serves Answers (bag (open_requests m)) (reply_label z f) (bag (open_requests k))
      → Simulated m
          (reply_label z (process_request p (turn_of k f none)).to_frontend)
          (after_turn z (encode m) (process_request p (turn_of k f none)))
  unfolding deliver
  request-Simulated m k p f same_jobs same_workers h v = elim (process_request-Forwards p k f) [
    | inl e ↦ rw e (k, rw (same_jobs, same_workers, append-nil (map mail_of m.jobs)) refl, h, v)
    | inr (w, ws, j, js, free, first, e) ↦ rw e (
      forwards k w ws j js,
      rw
          (
            same_jobs,
            same_workers,
            z.router_send_lem w ([] ∷ job_frames j),
            map-append mail_of m.jobs ((w, j) ∷ []),
          )
          refl,
      Moves.forwards-IsPlaced k w ws j js free first h,
      rw (Moves.forwards-open k w ws j js free first) v,
    )
  ]

  pub takes-Serves :
      (m : Protocol Answers) (n : Note Answers) (ns : List (Note Answers))
      → m.notes ≡ n ∷ ns
      → Serves Answers
          (bag (open_requests m))
          (reply_label z (note_answer n))
          (bag (open_requests (takes m n ns)))
  unfolding reply_label
  takes-Serves m (hello w) ns e = pause refl (
      bag_eq (open_requests (takes m (hello w) ns)) (open_requests m)
        (λ (v : Request → ℕ). omega (arith, Moves.takes-open m (hello w) ns e v)))
  takes-Serves m (reply w c r a named p) ns e =
      let n : Note Answers = reply w c r a named p in
      close_request c r a (rw (z.router_send_lem c ([] ∷ (a ∷ [])), z.req_recv_lem (a ∷ [])) refl) p
        (rw (put-bag (c, r) (open_requests (takes m n ns))) (
          bag_eq (open_requests m) ((c, r) ∷ open_requests (takes m n ns))
            (λ (v : Request → ℕ). omega (arith, Moves.takes-open m n ns e v))))

  messages-Simulated :
      (m k : Protocol Answers) (p : Poll) (u : Turn)
      → k.jobs ≡ m.jobs
      → k.workers ≡ m.workers
      → IsPlaced k
      → open_requests k ≡ open_requests m
      → then_request p (process_reply p (turn_of k none none)) ≡ some u
      → Simulated m (reply_label z u.to_frontend) (after_turn z (encode m) u)
  unfolding then_request reply_label
  messages-Simulated m k p u same_jobs same_workers h same e = elim (process_reply-TakesNote p k) [
    | inl none_taken ↦
        let e' : process_request p (turn_of k none none) ≡ u =
          let x : some (process_request p (turn_of k none none)) ≡ some u = rw none_taken at e in
          cc in
        subst (λ (t : Turn). Simulated m (reply_label z t.to_frontend) (after_turn z (encode m) t))
          e' (request-Simulated m k p none same_jobs same_workers h (pause refl (ap bag same)))
    | inr (n, ns, first, taken) ↦
        let k' : Protocol Answers = takes k n ns in
        let e' : process_request p (turn_of k' (note_answer n) none) ≡ u =
          let x : some (process_request p (turn_of k' (note_answer n) none)) ≡ some u =
            rw taken at e in
          cc in
        subst (λ (t : Turn). Simulated m (reply_label z t.to_frontend) (after_turn z (encode m) t))
          e'
          (request-Simulated m k' p (note_answer n) same_jobs same_workers
            (Moves.takes-IsPlaced k n ns first h)
            (subst
              (λ (b : List Request).
                Serves Answers (bag b) (reply_label z (note_answer n)) (bag (open_requests k')))
              same (takes-Serves k n ns first)))
  ]

  turn-Simulated :
      (m : Protocol Answers) (p : Poll) (u : Turn)
      → proxy_turn p (encode m).proxy (encode m).backend (encode m).frontend ≡ some u
      → IsPlaced m
      → Simulated m (reply_label z u.to_frontend) (after_turn z (encode m) u)
  unfolding proxy_turn
  turn-Simulated m p u e h = elim (Option-cases (process_control p.control m.state)) [
    | inl no_phase ↦ let x : none ≡ some u = rw no_phase at e in absurd (cc)
    | inr (phase, controlled) ↦
        let k : Protocol Answers = record m { state = phase } in
        messages-Simulated m k p u refl refl (record { different = h.different; placed = h.placed })
          refl (rw controlled at e)
  ]

  step-Simulated :
      (m : Protocol Answers) (s t : Network) (l : Label)
      → s ≡ encode m
      → Step z Answers s l t
      → IsPlaced m
      → Simulated m l t
  step-Simulated m s t l same (ask c r named l_is t_is) h =
      rw (l_is, t_is, same) (ask-Simulated z m c r named h)
  step-Simulated m s t l same (start w new l_is t_is) h =
      rw (l_is, t_is, same)
        (start-Simulated z m w (subst (λ (k : Network). contains w k.workers ≡ false) same new) h)
  step-Simulated m s t l same
        (serve before after w wire message answer request response known e received last p r l_is
          t_is)
        h =
      rw (l_is, t_is, same)
        (serve-Simulated z m before after w wire message answer request response
          (sym (ap (λ (k : Network). k.mail) same) ∙ e) received last p r h)
  step-Simulated m s t l same (turn p u e l_is t_is) h =
      rw (l_is, t_is, same)
        (turn-Simulated m p u
          (subst (λ (k : Network). proxy_turn p k.proxy k.backend k.frontend ≡ some u) same e) h)

  -- Whatever the clients see of the network is what the service may show them, and the network is
  -- again in a state of the protocol, with every worker in one place.
  pub run-Served :
      {t : Network} {ls : List Label}
      → Run z Answers started ls t
      → (m : Protocol Answers) × (t ≡ encode m)
        × IsPlaced m
        × Served Answers (bag []) ls (bag (open_requests m))
  run-Served rest = (
    record { state = active; idle = []; waiting = []; notes = []; jobs = []; workers = [] },
    refl,
    record { different = tt; placed = λ v. omega arith },
    done,
  )
  run-Served (step {t} {u} {ls} {l} before next) =
      let (m, same, placed, served) = run-Served before in
      let (m', same', placed', serves) = step-Simulated m t u l same next placed in
      (m', same', placed', serve_next served serves)
