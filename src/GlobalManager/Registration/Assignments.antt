-- ===== src/GlobalManager/Registration/Assignments.antt =====
-- Who is sent where.
use fluffi.Base.{◌≡◌, ◌≢◌, refl, ◌∙◌, true, some, [], arith, Text}
use fluffi.Generator.Cleaner.{Settings}
use fluffi.LocalManager.Registration.{
  AgentType, testcase_generator, testcase_runner, testcase_evaluator, global_manager, local_manager,
  Shares, is_worker, decide_sub_agent_type,
}
use fluffi.LocalManager.Welcome.{is_welcomed}
use fluffi.LocalManager.Welcome.Consistency.{decide_sub_agent_type-is_welcomed}
use fluffi.GlobalManager.Registration.{
  ServiceDescriptor, GmRegistration, send_to, GmDatabase, is_welcomed_response, AskWelcome,
  agent_is_welcomed_at, reply_welcomes, keep_welcoming, answer_worker, register_worker,
  register_type, handle_gm_registration,
}

module _ {D : Type 0} (db : GmDatabase D) (ask : AskWelcome) where
  register_type-worker :
      (t : AgentType) (r : GmRegistration) (d : D)
      → is_worker t ≡ true
      → register_type db ask t r d ≡ register_worker db ask r d
  unfolding register_type is_worker
  register_type-worker testcase_generator r d w = refl
  register_type-worker testcase_runner r d w = refl
  register_type-worker testcase_evaluator r d w = refl
  register_type-worker global_manager r d w = absurd (ground arith)
  register_type-worker local_manager r d w = absurd (ground arith)

  register_worker_kept :
      (r : GmRegistration) (d : D) (lm : ServiceDescriptor)
      → db.lm_for_worker d r.descriptor ≡ some lm
      → agent_is_welcomed_at ask r.type r.implemented_subtypes lm ≡ true
      → register_worker db ask r d ≡ (d, send_to lm)
  unfolding register_worker keep_welcoming answer_worker
  register_worker_kept r d lm a w = rw (a, w) refl

  -- Where the database assigns a worker to a local manager, and that one answers with its handler
  -- and would give the worker a subtype, the worker is sent there and the database is not changed.
  pub assigned_worker-sent :
      (r : GmRegistration) (d : D) (lm : ServiceDescriptor) (settings : Settings) (active : Shares)
      (t : Text)
      → is_worker r.type ≡ true
      → db.lm_for_worker d r.descriptor ≡ some lm
      → ask lm.host_and_port r.type r.implemented_subtypes
        ≡ is_welcomed_response (is_welcomed settings r.type r.implemented_subtypes)
      → decide_sub_agent_type settings active r.type r.implemented_subtypes ≡ some t
      → t ≢ []
      → handle_gm_registration db ask r d ≡ (d, send_to lm)
  unfolding handle_gm_registration agent_is_welcomed_at reply_welcomes
  assigned_worker-sent r d lm settings active t w a q c n =
      let welcome =
        decide_sub_agent_type-is_welcomed settings active r.type r.implemented_subtypes t c n in
      register_type-worker r.type r d w ∙ register_worker_kept r d lm a (rw (q, welcome) refl)
