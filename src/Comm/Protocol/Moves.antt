-- ===== src/Comm/Protocol/Moves.antt =====
-- The moves of the protocol, which keep every worker in one place and every request that is open.
use fluffi.Base.{
  ℕ, ◌+◌, ◌≡◌, ap, false, List, [], ◌∷◌, ◌++◌, map, Text, contains, text_instance, total,
  total-append, bag, bag_eq, put, put-bag, arith,
}
use fluffi.Comm.Protocol.{
  Request, Note, hello, Job, Protocol, note_worker, note_requests, notes_requests, job_request,
  open_requests, IsPlaced,
}

module _ {A B : Type 0} (v : B → ℕ) (f : A → B) where
  -- What stands in a list of messages weighs as much there as anywhere.
  pub total-map_middle :
      (xs ys : List A) (x : A)
      → total v (map f (xs ++ x ∷ ys)) ≡ total v (map f (xs ++ ys)) + v (f x)
  total-map_middle [] ys x = omega arith
  total-map_middle (y ∷ xs) ys x = omega (arith, total-map_middle xs ys x)

  pub total-map_end :
      (xs : List A) (x : A) → total v (map f (xs ++ x ∷ [])) ≡ total v (map f xs) + v (f x)
  total-map_end [] x = omega arith
  total-map_end (y ∷ ys) x = omega (arith, total-map_end ys x)

module _ {Answers : Text → Text → Type 0} where
  total-notes_end :
      (v : Request → ℕ) (ns : List (Note Answers)) (n : Note Answers)
      → total v (notes_requests (ns ++ n ∷ []))
        ≡ total v (notes_requests ns) + total v (note_requests n)
  total-notes_end v [] n = omega (arith, total-append v (note_requests n) [])
  total-notes_end v (k ∷ ns) n = omega (
    arith,
    total-notes_end v ns n,
    total-append v (note_requests k) (notes_requests ns),
    total-append v (note_requests k) (notes_requests (ns ++ n ∷ [])),
  )

  -- The open requests by where they are.
  pub total-open :
      (v : Request → ℕ) (m : Protocol Answers)
      → total v (open_requests m)
        ≡ total v (map job_request m.waiting)
          + (total v (map (λ (p : Text × Job). job_request p.1) m.jobs)
              + total v (notes_requests m.notes))
  total-open v m = omega (
    arith,
    total-append v (map job_request m.waiting)
        (map (λ (p : Text × Job). job_request p.1) m.jobs ++ notes_requests m.notes),
    total-append v (map (λ (p : Text × Job). job_request p.1) m.jobs) (notes_requests m.notes),
  )

  module _ (m : Protocol Answers) where
    abbrev pub asks : Job → Protocol Answers
    asks j = record m { waiting = m.waiting ++ j ∷ [] }

    abbrev pub starts : Text → Protocol Answers
    starts w = record m { workers = w ∷ m.workers; notes = m.notes ++ hello w ∷ [] }

    abbrev pub completes : List (Text × Job) → Note Answers → Protocol Answers
    completes others n = record m { jobs = others; notes = m.notes ++ n ∷ [] }

    abbrev pub takes : Note Answers → List (Note Answers) → Protocol Answers
    takes n ns = record m { idle = m.idle ++ note_worker n ∷ []; notes = ns }

    abbrev pub forwards : Text → List Text → Job → List Job → Protocol Answers
    forwards w ws j js = record m { idle = ws; waiting = js; jobs = m.jobs ++ (w, j) ∷ [] }

    pub asks-open :
        (j : Job) → bag (open_requests (asks j)) ≡ put (job_request j) (bag (open_requests m))
    asks-open j = rw (put-bag (job_request j) (open_requests m)) (
        bag_eq (open_requests (asks j)) (job_request j ∷ open_requests m) (λ (v : Request → ℕ).
          omega (
            arith,
            total-open v m,
            total-open v (asks j),
            total-map_end v job_request m.waiting j,
          )))

    pub asks-IsPlaced : (j : Job) → IsPlaced m → IsPlaced (asks j)
    asks-IsPlaced j h = record { different = h.different; placed = h.placed }

    pub starts-open : (w : Text) → bag (open_requests (starts w)) ≡ bag (open_requests m)
    starts-open w = bag_eq (open_requests (starts w)) (open_requests m) (λ (v : Request → ℕ).
        omega (arith, total-open v m, total-open v (starts w), total-notes_end v m.notes (hello w)))

    pub starts-IsPlaced :
        (w : Text) → contains w m.workers ≡ false → IsPlaced m → IsPlaced (starts w)
    starts-IsPlaced w new h = record {
      different = (new, h.different);
      placed = λ (v : Text → ℕ).
          omega (arith, h.placed v, total-map_end v note_worker m.notes (hello w));
    }

    -- A worker's reply takes the place of its request.
    module _ (before after : List (Text × Job)) (w : Text) (j : Job) (n : Note Answers)
        (there : m.jobs ≡ before ++ (w, j) ∷ after) (same : note_worker n ≡ w)
        (for_job : note_requests n ≡ job_request j ∷ []) where
      pub completes-open :
          bag (open_requests (completes (before ++ after) n)) ≡ bag (open_requests m)
      completes-open =
          bag_eq (open_requests (completes (before ++ after) n)) (open_requests m)
            (λ (v : Request → ℕ).
              let f : Text × Job → Request = λ (p : Text × Job). job_request p.1 in
              omega (
                arith,
                total-open v m,
                total-open v (completes (before ++ after) n),
                total-notes_end v m.notes n,
                ap (total v) for_job,
                ap (λ (js : List (Text × Job)). total v (map f js)) there,
                total-map_middle v f before after (w, j),
              ))

      pub completes-IsPlaced : IsPlaced m → IsPlaced (completes (before ++ after) n)
      completes-IsPlaced h = record {
        different = h.different;
        placed = λ (v : Text → ℕ).
            let f : Text × Job → Text = λ (p : Text × Job). p.0 in
            omega (
              arith,
              h.placed v,
              total-map_end v note_worker m.notes n,
              ap v same,
              ap (λ (js : List (Text × Job)). total v (map f js)) there,
              total-map_middle v f before after (w, j),
            );
      }

    module _ (n : Note Answers) (ns : List (Note Answers)) (first : m.notes ≡ n ∷ ns) where
      pub takes-open :
          (v : Request → ℕ)
          → total v (open_requests m)
            ≡ total v (note_requests n) + total v (open_requests (takes n ns))
      takes-open v = omega (
        arith,
        total-open v m,
        total-open v (takes n ns),
        ap (λ (k : List (Note Answers)). total v (notes_requests k)) first,
        total-append v (note_requests n) (notes_requests ns),
      )

      pub takes-IsPlaced : IsPlaced m → IsPlaced (takes n ns)
      takes-IsPlaced h = record {
        different = h.different;
        placed = λ (v : Text → ℕ). omega (
          arith,
          h.placed v,
          total-append v m.idle (note_worker n ∷ []),
          ap (λ (k : List (Note Answers)). total v (map note_worker k)) first,
        );
      }

    module _ (w : Text) (ws : List Text) (j : Job) (js : List Job) (free : m.idle ≡ w ∷ ws)
        (first : m.waiting ≡ j ∷ js) where
      pub forwards-open : bag (open_requests (forwards w ws j js)) ≡ bag (open_requests m)
      forwards-open =
          bag_eq (open_requests (forwards w ws j js)) (open_requests m) (λ (v : Request → ℕ).
            let f : Text × Job → Request = λ (p : Text × Job). job_request p.1 in
            omega (
              arith,
              total-open v m,
              total-open v (forwards w ws j js),
              ap (λ (k : List Job). total v (map job_request k)) first,
              total-map_end v f m.jobs (w, j),
            ))

      pub forwards-IsPlaced : IsPlaced m → IsPlaced (forwards w ws j js)
      forwards-IsPlaced h = record {
        different = h.different;
        placed = λ (v : Text → ℕ).
            let f : Text × Job → Text = λ (p : Text × Job). p.0 in
            omega (arith, h.placed v, ap (total v) free, total-map_end v f m.jobs (w, j));
      }
