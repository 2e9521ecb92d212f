-- ===== src/GlobalManager/Registration/Answers.antt =====
-- What the answers say of the database.
use fluffi.Base.{
  ◌≡◌, ◌⊎◌, refl, sym, ap, ◌∙◌, Bool-cases, Option-cases, inl, inr, ℕ, true, false, none, some,
  arith,
}
use fluffi.LocalManager.Registration.{
  AgentType, testcase_generator, testcase_runner, testcase_evaluator, global_manager, local_manager,
  is_worker,
}
use fluffi.GlobalManager.Registration.{
  ServiceDescriptor, GmRegistration, GmResponse, send_to, configure, retry_later, remove_worker,
  set_lm, GmDatabase, AskWelcome, agent_is_welcomed_at, list_worker, keep_welcoming, answer_worker,
  register_worker, give_job, answer_local_manager, register_local_manager, register_type,
  handle_gm_registration,
}

module _ {D : Type 0} (db : GmDatabase D) (ask : AskWelcome) where
  -- A worker that is told to come back is listed, after an assignment to a local manager that does not
  -- welcome it was removed.
  abbrev pub WorkerWaits : GmRegistration → D → D → Type 0
  WorkerWaits r d e =
      ((db.lm_for_worker d r.descriptor ≡ none) × (e ≡ list_worker db ask r d))
      ⊎ ((lm : ServiceDescriptor) × (db.lm_for_worker d r.descriptor ≡ some lm)
          × (agent_is_welcomed_at ask r.type r.implemented_subtypes lm ≡ false)
          × (e ≡ list_worker db ask r (db.change (remove_worker r.descriptor) d).0))

  -- A local manager that is told to come back is listed where no job waits; else the job has no
  -- configuration, or the database refused the row.
  abbrev pub ManagerWaits : GmRegistration → D → D → Type 0
  ManagerWaits r d e =
      ((db.fuzz_job_without_lm d r.location ≡ none) × (e ≡ list_worker db ask r d))
      ⊎ ((job : ℕ) × (db.fuzz_job_without_lm d r.location ≡ some job)
          × (((db.lm_configuration d job ≡ none) × (e ≡ d))
              ⊎ (((db.change (set_lm r.location r.descriptor job) d).1 ≡ false)
                  × (e ≡ (db.change (set_lm r.location r.descriptor job) d).0))))

  -- What stands in the database when an answer is sent.
  abbrev pub Answered : GmRegistration → D → D × GmResponse → Type 0
  Answered r d (e, send_to lm) =
      (is_worker r.type ≡ true)
      × (db.lm_for_worker d r.descriptor ≡ some lm)
      × (agent_is_welcomed_at ask r.type r.implemented_subtypes lm ≡ true)
      × (e ≡ d)
  Answered r d (e, configure c) =
      (r.type ≡ local_manager)
      × ((job : ℕ) × (db.fuzz_job_without_lm d r.location ≡ some job)
          × (db.lm_configuration d job ≡ some c)
          × ((db.change (set_lm r.location r.descriptor job) d).1 ≡ true)
          × (e ≡ (db.change (set_lm r.location r.descriptor job) d).0))
  Answered r d (e, retry_later) =
      (is_worker r.type ≡ true → WorkerWaits r d e) × (r.type ≡ local_manager → ManagerWaits r d e)

  worker_no_manager : (r : GmRegistration) → is_worker r.type ≡ true → r.type ≡ local_manager → ⊥
  unfolding is_worker
  worker_no_manager r w m = ground (arith, sym (ap is_worker m) ∙ w)

  register_worker-Answered :
      (r : GmRegistration) (d : D)
      → is_worker r.type ≡ true
      → Answered r d (register_worker db ask r d)
  unfolding register_worker keep_welcoming answer_worker
  register_worker-Answered r d w = elim (Option-cases (db.lm_for_worker d r.descriptor)) [
    | inl e ↦ rw e ((λ x. inl (e, refl)), (λ x. absurd (worker_no_manager r w x)))
    | inr (lm, e) ↦ elim (Bool-cases (agent_is_welcomed_at ask r.type r.implemented_subtypes lm)) [
      | inl b ↦ rw (e, b) (w, e, b, refl)
      | inr b ↦ rw (e, b) ((λ x. inr (lm, e, b, refl)), (λ x. absurd (worker_no_manager r w x)))
    ]
  ]

  register_local_manager-Answered :
      (r : GmRegistration) (d : D)
      → r.type ≡ local_manager
      → Answered r d (register_local_manager db ask r d)
  unfolding register_local_manager answer_local_manager give_job is_worker
  register_local_manager-Answered r d w =
      elim (Option-cases (db.fuzz_job_without_lm d r.location)) [
        | inl e ↦ rw e ((λ x. absurd (worker_no_manager r x w)), (λ x. inl (e, refl)))
        | inr (job, e) ↦ elim (Option-cases (db.lm_configuration d job)) [
          | inl c ↦
              rw (e, c)
                ((λ x. absurd (worker_no_manager r x w)), (λ x. inr (job, e, inl (c, refl))))
          | inr (conf, c) ↦ elim (Bool-cases (db.change (set_lm r.location r.descriptor job) d).1) [
            | inl a ↦ rw (e, c, a) (w, (job, e, c, a, refl))
            | inr a ↦
                rw (e, c, a)
                  ((λ x. absurd (worker_no_manager r x w)), (λ x. inr (job, e, inr (a, refl))))
          ]
        ]
      ]

  register_type-Answered :
      (t : AgentType) (r : GmRegistration) (d : D)
      → r.type ≡ t
      → Answered r d (register_type db ask t r d)
  unfolding register_type is_worker
  register_type-Answered testcase_generator r d q = register_worker-Answered r d (ap is_worker q)
  register_type-Answered testcase_runner r d q = register_worker-Answered r d (ap is_worker q)
  register_type-Answered testcase_evaluator r d q = register_worker-Answered r d (ap is_worker q)
  register_type-Answered local_manager r d q = register_local_manager-Answered r d q
  register_type-Answered global_manager r d q =
      ((λ w. ground (arith, sym (ap is_worker q) ∙ w)), (λ w. ground (arith, q, w)))

  -- A worker is only sent to a local manager that it is assigned to and that welcomes it, with the
  -- database as before; one that is not sent is listed, after the assignment to a local manager that
  -- does not welcome it was removed. A configuration is only sent to a local manager, is that of a
  -- job without one at that location, and the database took its row. A local manager without one is
  -- listed where no job waits; else the job has no configuration or the database refused the row.
  pub handle_gm_registration-Answered :
      (r : GmRegistration) (d : D) → Answered r d (handle_gm_registration db ask r d)
  unfolding handle_gm_registration
  handle_gm_registration-Answered r d = register_type-Answered r.type r d refl
