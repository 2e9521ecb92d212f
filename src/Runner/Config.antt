-- ===== src/Runner/Config.antt =====
-- core/TestcaseRunner/TRMainWorker::tryGetConfigFromLM: the executor that the fuzz job's configuration
-- asks for. `posix` tells the build for Linux from that for Windows.

pub mod Demands
pub mod Required
use fluffi.Base.{
  ℕ, ◌≡◌, ◌↔◌, Bool, true, false, ◌&&◌, Option, none, some, List, [], ◌∷◌, if◌then◌else◌, ◌==◌,
  Text, codes, text_eq, text_instance, text_eq_iff, contains, insert, insert_all, Eq, ℤ, negsuc,
  stoi, stoi_hex, length, arith,
}
use fluffi.Generator.Cleaner.{Settings, setting}
use fluffi.Evaluator.Blocks.{Block, int_eq, int_eq_iff, block_instance}
use fluffi.Strings.{string_has_ending}

-- A configuration is refused, ends the process, or gives a value.
pub data Reading {ℓ} (A : Type ℓ) : Type ℓ where
  refused process_exit : Reading A
  got : A → Reading A

infixl 5 ◌>>=◌
abbrev pub ◌>>=◌ {ℓ κ} : {A : Type ℓ} {B : Type κ} → Reading A → (A → Reading B) → Reading B
refused >>= f = refused
process_exit >>= f = process_exit
got a >>= f = f a

pub record TargetModule : Type 0 where
  pub module_name : Text
  pub module_path : Text
  pub module_id : ℤ

abbrev pub same_module : TargetModule → TargetModule → Bool
same_module a b =
    text_eq a.module_name b.module_name
    && (text_eq a.module_path b.module_path && int_eq a.module_id b.module_id)

pub same_module_iff : (a b : TargetModule) → (same_module a b ≡ true) ↔ (a ≡ b)
same_module_iff a b = ground (
  arith,
  text_eq_iff a.module_name b.module_name,
  text_eq_iff a.module_path b.module_path,
  int_eq_iff a.module_id b.module_id,
)

instance abbrev pub module_instance : Eq TargetModule
module_instance = record { beq = same_module; beq_iff = same_module_iff }

-- What every executor is given.
pub record Target : Type 0 where
  pub target_cmd_line : Text
  pub hang_timeout : ℤ
  pub suppress_child_output : Bool

pub record FeederSetup : Type 0 where
  pub feeder_cmd_line : Text
  pub starter_cmd_line : Text
  pub initialization_timeout : ℤ
  pub force_restart_after : ℤ

pub data Executor : Type 0 where
  dyn_rio_single : Target → Bool → Text → Executor
  dyn_rio_multi : Target → Bool → FeederSetup → Bool → Text → Executor
  qemu_user_single : Target → Bool → Text → Executor
  gdb : Target → FeederSetup → List Block → ℤ → ℤ → Executor

module _ (settings : Settings) where
  required : Option Text → Reading Text
  required none = refused
  required (some v) = got v

  unfoldable pub require : Text → Reading Text
  unfolding required
  require name = required (setting name settings)

  number : Option ℤ → Reading ℤ
  number none = process_exit
  number (some n) = got n

  unfoldable pub require_number : (Text → Option ℤ) → Text → Reading ℤ
  unfolding require number
  require_number read name = require name >>= λ v. number (read v)

  optional : Text → Option Text → Text
  optional fallback none = fallback
  optional fallback (some v) = v

  unfoldable pub text_or : Text → Text → Text
  unfolding optional
  text_or fallback name = optional fallback (setting name settings)

  flag : Bool → Option Text → Bool
  flag fallback none = fallback
  flag fallback (some v) = text_eq v (codes "true")

  unfoldable pub flag_or : Bool → Text → Bool
  unfolding flag
  flag_or fallback name = flag fallback (setting name settings)

  optional_number : ℤ → Option Text → Reading ℤ
  unfolding number
  optional_number fallback none = got fallback
  optional_number fallback (some v) = number (stoi v)

  unfoldable pub number_or : ℤ → Text → Reading ℤ
  unfolding optional_number
  number_or fallback name = optional_number fallback (setting name settings)

  -- The command line, the time limit and the treatment of output, which all executors begin with.
  unfoldable pub read_target : Reading Target
  unfolding require require_number flag_or
  read_target = do
    cmd ← require (codes "targetCMDLine")
    timeout ← require_number stoi (codes "hangTimeout")
    got (record {
      target_cmd_line = cmd;
      hang_timeout = timeout;
      suppress_child_output = flag_or true (codes "suppressChildOutput");
    })

  unfoldable pub access_violations_fatal : Bool
  unfolding flag_or
  access_violations_fatal = flag_or false (codes "treatAnyAccessViolationAsFatal")

  unfoldable pub additional_env_param : Bool → Text
  unfolding text_or
  additional_env_param posix = if posix then text_or [] (codes "additionalEnvParam") else []

  unfoldable pub read_dyn_rio_single : Bool → Reading Executor
  unfolding read_target
  read_dyn_rio_single posix = do
    target ← read_target
    got (dyn_rio_single target access_violations_fatal (additional_env_param posix))

  -- The feeder's settings; `forceRestartAfter` is read last, behind settings that cannot fail.
  unfoldable pub read_feeder : Reading FeederSetup
  unfolding require require_number text_or number_or
  read_feeder = do
    feeder ← require (codes "feederCMDLine")
    timeout ← require_number stoi (codes "initializationTimeout")
    restart ← number_or (negsuc 0) (codes "forceRestartAfter")
    got (record {
      feeder_cmd_line = feeder;
      starter_cmd_line = text_or [] (codes "starterCMDLine");
      initialization_timeout = timeout;
      force_restart_after = restart;
    })

  unfoldable pub read_dyn_rio_multi : Bool → Reading Executor
  unfolding read_target read_feeder
  read_dyn_rio_multi posix = do
    target ← read_target
    feeder ← read_feeder
    got (
        dyn_rio_multi target access_violations_fatal feeder
          (posix && flag_or false (codes "targetForks")) (additional_env_param posix))

  unfoldable pub read_qemu_user_single : Reading Executor
  unfolding read_target require
  read_qemu_user_single = do
    target ← read_target
    template ← require (codes "changerootTemplate")
    got (qemu_user_single target access_violations_fatal template)

  unfoldable pub read_gdb : List Block → Reading Executor
  unfolding read_target read_feeder require_number
  read_gdb blocks = do
    target ← read_target
    feeder ← read_feeder
    instruction ← require_number stoi_hex (codes "breakPointInstruction")
    bytes ← require_number stoi (codes "breakPointInstructionBytes")
    got (gdb target feeder (insert_all blocks []) instruction bytes)

  unfoldable pub read_executor : Bool → Text → List Block → Reading Executor
  unfolding read_dyn_rio_single read_dyn_rio_multi read_qemu_user_single read_gdb
  read_executor posix chosen blocks =
      if string_has_ending chosen (codes "DynRioSingle")
      then read_dyn_rio_single posix
      else if string_has_ending chosen (codes "DynRioMulti")
      then read_dyn_rio_multi posix
      else if string_has_ending chosen (codes "QemuUserSingle")
      then read_qemu_user_single
      else if string_has_ending chosen (codes "GDB")
      then read_gdb blocks
      else process_exit

-- The answer of the local manager.
pub record Configuration : Type 0 where
  pub settings : Settings
  pub target_modules : List TargetModule
  pub target_blocks : List Block

unfoldable pub check_setup : (Executor → Bool) → Executor → Reading Executor
check_setup functionable e = if functionable e then got e else process_exit

unfoldable pub chosen_executor :
    Bool
    → List Text
    → (Executor → Bool)
    → Configuration
    → Text
    → Reading (Executor × List TargetModule)
unfolding check_setup
chosen_executor posix my_types functionable c chosen =
    if contains chosen my_types
    then (read_executor c.settings posix chosen c.target_blocks >>= λ e.
        check_setup functionable e >>= λ w. got (w, insert_all c.target_modules []))
    else refused

unfoldable pub configure :
    Bool → List Text → (Executor → Bool) → Configuration → Reading (Executor × List TargetModule)
unfolding chosen_executor require
configure posix my_types functionable c =
    if length (insert_all c.target_modules []) == 0
    then refused
    else require c.settings (codes "chosenSubtype")
      >>= chosen_executor posix my_types functionable c

-- No answer is a refusal, too.
unfoldable pub try_get_config_from_lm :
    Bool
    → List Text
    → (Executor → Bool)
    → Option Configuration
    → Reading (Executor × List TargetModule)
unfolding configure
try_get_config_from_lm posix my_types functionable none = refused
try_get_config_from_lm posix my_types functionable (some c) =
    configure posix my_types functionable c
