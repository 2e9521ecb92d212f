-- ===== src/Comm/Refinement/Steps.antt =====
-- A client's or a worker's step keeps the network in a state of the protocol.
use fluffi.Base.{
  ◌≡◌, ◌≢◌, refl, ap, false, some, List, [], ◌∷◌, ◌++◌, map, map-append, Text, contains,
  text_instance, subst, bag,
}
use fluffi.Comm.Proxy.{Frames, ready}
use fluffi.Comm.Network.{Sockets, Network, Label, silent, asked, respond, last_frame}
use fluffi.Comm.Protocol.{
  Note, hello, reply, Job, Protocol, note_frames, job_frames, mail_of, encode, open_requests,
  IsPlaced, Serves, pause, open_request,
}
use fluffi.Comm.Protocol.Moves
use fluffi.Comm.Protocol.Moves.{asks, starts, completes, takes, forwards}

map-eq-append :
    {A B : Type 0} (f : A → B) (xs : List A) (before after : List B) (y : B)
    → map f xs ≡ before ++ y ∷ after
    → (as' : List A) × (bs : List A) × (x : A) × (xs ≡ as' ++ x ∷ bs)
      × (map f as' ≡ before)
      × (f x ≡ y)
      × (map f bs ≡ after)
map-eq-append f [] [] after y h = absurd (cc)
map-eq-append f [] (b ∷ bs) after y h = absurd (cc)
map-eq-append f (x ∷ xs) [] after y h = ([], xs, x, refl, refl, cc, cc)
map-eq-append f (x ∷ xs) (b ∷ before) after y h =
    let (as', bs, z, e, p, q, r) = map-eq-append f xs before after y (cc) in
    (x ∷ as', bs, z, ap (◌∷◌ x) e, cc, q, r)

module _ (z : Sockets) where
  -- A worker that has a job's message has its request, and its reply is the note that answers it.
  handle-job :
      (j : Job) (w : Text) (wire message answer : Frames) (request response : Text)
      → [] ∷ job_frames j ≡ wire
      → z.req_recv wire ≡ some message
      → last_frame message ≡ some request
      → respond response message ≡ some answer
      → (request ≡ j.request) × (answer ≡ j.client ∷ ([] ∷ (response ∷ [])))
  unfolding last_frame respond
  handle-job j w wire message answer request response e received last responded =
      let same : message ≡ job_frames j = cc (z.req_recv_lem (job_frames j)) in
      (
        let l : last_frame (job_frames j) ≡ some request =
              subst (λ k. last_frame k ≡ some request) same last in
            cc,
        let r : respond response (job_frames j) ≡ some answer =
              subst (λ k. respond response k ≡ some answer) same responded in
            cc,
      )

module _ {Answers : Text → Text → Type 0} where
  -- What a step comes to: a state of the protocol again, and a step of the service.
  abbrev pub Simulated : Protocol Answers → Label → Network → Type 0
  Simulated m l t =
      (m' : Protocol Answers) × (t ≡ encode m')
      × IsPlaced m'
      × Serves Answers (bag (open_requests m)) l (bag (open_requests m'))

module _ (z : Sockets) {Answers : Text → Text → Type 0} where
  pub ask-Simulated :
      (m : Protocol Answers) (c r : Text)
      → c ≢ ready
      → IsPlaced m
      → Simulated m (asked c r) (record (encode m) {
        frontend = map job_frames m.waiting ++ z.router_recv c (z.req_send (r ∷ [])) ∷ [];
      })
  ask-Simulated m c r named h =
      let j : Job = record { client = c; request = r; named = named } in
      (
        asks m j,
        rw
            (
              z.req_send_lem (r ∷ []),
              z.router_recv_lem c ([] ∷ (r ∷ [])),
              map-append job_frames m.waiting (j ∷ []),
            )
            refl,
        Moves.asks-IsPlaced m j h,
        open_request c r refl (Moves.asks-open m j),
      )

  pub start-Simulated :
      (m : Protocol Answers) (w : Text)
      → contains w m.workers ≡ false
      → IsPlaced m
      → Simulated m silent (record (encode m) {
        workers = w ∷ m.workers;
        backend = map note_frames m.notes ++ z.router_recv w (z.req_send (ready ∷ [])) ∷ [];
      })
  start-Simulated m w new h = (
    starts m w,
    rw
        (
          z.req_send_lem (ready ∷ []),
          z.router_recv_lem w ([] ∷ (ready ∷ [])),
          map-append note_frames m.notes (hello w ∷ []),
        )
        refl,
    Moves.starts-IsPlaced m w new h,
    pause refl (Moves.starts-open m w),
  )

  pub serve-Simulated :
      (m : Protocol Answers) (before after : List (Text × Frames)) (w : Text)
      (wire message answer : Frames) (request response : Text)
      → map mail_of m.jobs ≡ before ++ (w, wire) ∷ after
      → z.req_recv wire ≡ some message
      → last_frame message ≡ some request
      → Answers request response
      → respond response message ≡ some answer
      → IsPlaced m
      → Simulated m silent (record (encode m) {
        mail = before ++ after;
        backend = map note_frames m.notes ++ z.router_recv w (z.req_send answer) ∷ [];
      })
  serve-Simulated m before after w wire message answer request response e received last p r h =
      let (js, ks, (w', j), split, b, y, a) =
        map-eq-append mail_of m.jobs before after (w, wire) e in
      let (asked_for, wrote) =
        handle-job z j w wire message answer request response (ap (λ (x : Text × Frames). x.1) y)
          received last r in
      let q : Answers j.request response = subst (λ k. Answers k response) asked_for p in
      let n : Note Answers = reply w' j.client j.request response j.named q in
      let same : w' ≡ w = ap (λ (x : Text × Frames). x.0) y in
      (
        completes m (js ++ ks) n,
        rw
            (
              map-append mail_of js ks,
              b,
              a,
              map-append note_frames m.notes (n ∷ []),
              same,
              wrote,
              z.req_send_lem (j.client ∷ ([] ∷ (response ∷ []))),
              z.router_recv_lem w ([] ∷ (j.client ∷ ([] ∷ (response ∷ [])))),
            )
            refl,
        Moves.completes-IsPlaced m js ks w' j n split refl refl h,
        pause refl (Moves.completes-open m js ks w' j n split refl refl),
      )
