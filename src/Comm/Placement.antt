-- ===== src/Comm/Placement.antt =====
-- Where the workers are while the proxy runs.
use fluffi.Base.{
  ℕ, ◌<◌, ◌≤◌, ◌≡◌, refl, sym, true, false, Bool-cases, inl, inr, List, [], ◌∷◌, ◌++◌, map, Text,
  contains, text_instance, text_eq_iff, text_eq_self, Distinct, arith, total, total-append, subst,
}
use fluffi.Comm.Network.{Sockets, Network, Label, Run, started}
use fluffi.Comm.Protocol.{Job, mail_of}
use fluffi.Comm.Progress.Steps.{is_worker}
use fluffi.Comm.Refinement.{run-Served}

total_of_contains : (w : Text) (xs : List Text) → contains w xs ≡ true → 0 < total (is_worker w) xs
unfolding contains
total_of_contains w [] h = absurd (cc)
total_of_contains w (x ∷ xs) h = ground (arith, total_of_contains w xs)

total_of_missing : (w : Text) (xs : List Text) → contains w xs ≡ false → total (is_worker w) xs ≡ 0
unfolding contains
total_of_missing w [] h = refl
total_of_missing w (x ∷ xs) h = ground (arith, total_of_missing w xs)

-- In a list without repetitions a worker stands at most once, and so the other way round.
total_of_Distinct : (w : Text) (xs : List Text) → Distinct xs → total (is_worker w) xs ≤ 1
total_of_Distinct w [] d = omega arith
total_of_Distinct w (x ∷ xs) d =
    ground (arith, text_eq_iff x w, total_of_Distinct w xs d.1, total_of_missing w xs, d.0)

Distinct-of_total : (xs : List Text) → ((w : Text) → total (is_worker w) xs ≤ 1) → Distinct xs
Distinct-of_total [] h = tt
Distinct-of_total (x ∷ xs) h = (
  elim (Bool-cases (contains x xs)) [
    | inl e ↦ absurd (ground (arith, total_of_contains x xs e, h x, text_eq_self x))
    | inr e ↦ e
  ],
  Distinct-of_total xs (λ w. omega (arith, h w)),
)

total-mail :
    (v : Text → ℕ) (js : List (Text × Job))
    → total v (map (λ (p : Text × List Text). p.0) (map mail_of js))
      ≡ total v (map (λ (p : Text × Job). p.0) js)
total-mail v [] = refl
total-mail v (j ∷ js) = omega (arith, total-mail v js)

-- No worker stands twice in the queue of idle workers, none in the queue has a message to handle, and
-- none has two.
pub run-Distinct :
    (z : Sockets) (Answers : Text → Text → Type 0) (t : Network) (ls : List Label)
    → Run z Answers started ls t
    → Distinct (t.proxy.worker_queue ++ map (λ (p : Text × List Text). p.0) t.mail)
run-Distinct z Answers t ls run =
    let (m, same, placed, served) = run-Served z run in
    subst
      (λ (s : Network).
        Distinct (s.proxy.worker_queue ++ map (λ (p : Text × List Text). p.0) s.mail))
      (sym same)
      (Distinct-of_total (m.idle ++ map (λ (p : Text × List Text). p.0) (map mail_of m.jobs))
        (λ (w : Text). omega (
          arith,
          total_of_Distinct w m.workers placed.different,
          placed.placed (is_worker w),
          total-append (is_worker w) m.idle
              (map (λ (p : Text × List Text). p.0) (map mail_of m.jobs)),
          total-mail (is_worker w) m.jobs,
        )))
