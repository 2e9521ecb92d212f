-- ===== src/GlobalManager/Registration.antt =====
-- core/GlobalManager/RegisterAtGMRequestHandler: which local manager a worker is sent to, and which
-- fuzz job a local manager is given.
pub mod Assignments
pub mod Answers
pub mod Race
use fluffi.Base.{
  if◌then◌else◌, ℕ, Bool, true, false, Option, none, some, List, [], ◌∷◌, ◌++◌, Text, codes,
}
use fluffi.LocalManager.Registration.{
  AgentType, testcase_generator, testcase_runner, testcase_evaluator, global_manager, local_manager,
}

pub record ServiceDescriptor : Type 0 where
  pub guid : Text
  pub host_and_port : Text

-- FluffiLMConfiguration.
pub record LmConfiguration : Type 0 where
  pub db_host : Text
  pub db_user : Text
  pub db_password : Text
  pub db_name : Text
  pub fuzz_job_name : Text

-- RegisterAtGMRequest.
pub record GmRegistration : Type 0 where
  pub type : AgentType
  pub implemented_subtypes : List Text
  pub location : Text
  pub descriptor : ServiceDescriptor

-- RegisterAtGMResponse.
pub data GmResponse : Type 0 where
  send_to : ServiceDescriptor → GmResponse
  configure : LmConfiguration → GmResponse
  retry_later : GmResponse

-- The operations of GMDatabaseManager that change the database.
pub data Change : Type 0 where
  remove_worker : ServiceDescriptor → Change
  add_worker : ServiceDescriptor → AgentType → Text → Text → Change
  set_lm : Text → ServiceDescriptor → ℕ → Change

-- The database of the global manager: what it answers, and what a change makes of it, with the
-- success. No local manager is the null object, no fuzz job is -1, no configuration is an exception.
pub record GmDatabase (D : Type 0) : Type 1 where
  pub lm_for_worker : D → ServiceDescriptor → Option ServiceDescriptor
  pub fuzz_job_without_lm : D → Text → Option ℕ
  pub lm_configuration : D → ℕ → Option LmConfiguration
  pub change : Change → D → D × Bool

-- What comes back for an IsAgentWelcomedRequest.
pub data WelcomeReply : Type 0 where
  no_contact other_answer : WelcomeReply
  is_welcomed_response : Bool → WelcomeReply

-- The network: who is asked, and with what.
abbrev pub AskWelcome : Type 0
AskWelcome = Text → AgentType → List Text → WelcomeReply

unfoldable pub join_subtypes : List Text → Text
join_subtypes [] = []
join_subtypes (t ∷ []) = t
join_subtypes (t ∷ (u ∷ ts)) = t ++ (codes "|" ++ join_subtypes (u ∷ ts))

unfoldable pub reply_welcomes : WelcomeReply → Bool
reply_welcomes no_contact = false
reply_welcomes other_answer = false
reply_welcomes (is_welcomed_response b) = b

unfoldable pub agent_is_welcomed_at : AskWelcome → AgentType → List Text → ServiceDescriptor → Bool
unfolding reply_welcomes
agent_is_welcomed_at ask type subtypes lm = reply_welcomes (ask lm.host_and_port type subtypes)

module _ {D : Type 0} (db : GmDatabase D) (ask : AskWelcome) where
  unfoldable pub list_worker : GmRegistration → D → D
  unfolding join_subtypes
  list_worker r d =
      (db.change (add_worker r.descriptor r.type (join_subtypes r.implemented_subtypes) r.location)
        d).0

  -- A local manager that does not welcome the worker: its assignment is forgotten.
  unfoldable pub keep_welcoming :
      GmRegistration → Option ServiceDescriptor → D → D × Option ServiceDescriptor
  unfolding agent_is_welcomed_at
  keep_welcoming r none d = (d, none)
  keep_welcoming r (some lm) d =
      if agent_is_welcomed_at ask r.type r.implemented_subtypes lm
      then (d, some lm)
      else ((db.change (remove_worker r.descriptor) d).0, none)

  unfoldable pub answer_worker : GmRegistration → D × Option ServiceDescriptor → D × GmResponse
  unfolding list_worker
  answer_worker r (d, none) = (list_worker r d, retry_later)
  answer_worker r (d, some lm) = (d, send_to lm)

  unfoldable pub register_worker : GmRegistration → D → D × GmResponse
  unfolding keep_welcoming answer_worker
  register_worker r d = answer_worker r (keep_welcoming r (db.lm_for_worker d r.descriptor) d)

  -- A row that the database does not take is an exception, and so is `none` for the configuration;
  -- both are caught.
  unfoldable pub give_job : GmRegistration → ℕ → Option LmConfiguration → D → D × GmResponse
  give_job r job none d = (d, retry_later)
  give_job r job (some c) d =
      let (d', success) = db.change (set_lm r.location r.descriptor job) d in
      (d', if success then configure c else retry_later)

  unfoldable pub answer_local_manager : GmRegistration → Option ℕ → D → D × GmResponse
  unfolding list_worker give_job
  answer_local_manager r none d = (list_worker r d, retry_later)
  answer_local_manager r (some job) d = give_job r job (db.lm_configuration d job) d

  unfoldable pub register_local_manager : GmRegistration → D → D × GmResponse
  unfolding answer_local_manager
  register_local_manager r d = answer_local_manager r (db.fuzz_job_without_lm d r.location) d

  unfoldable pub register_type : AgentType → GmRegistration → D → D × GmResponse
  unfolding register_worker register_local_manager
  register_type testcase_generator r d = register_worker r d
  register_type testcase_runner r d = register_worker r d
  register_type testcase_evaluator r d = register_worker r d
  register_type local_manager r d = register_local_manager r d
  register_type global_manager r d = (d, retry_later)

  unfoldable pub handle_gm_registration : GmRegistration → D → D × GmResponse
  unfolding register_type
  handle_gm_registration r d = register_type r.type r d
