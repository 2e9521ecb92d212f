-- ===== src/Runner/Config/Required.antt =====
-- That the code asks for exactly the settings of the table.
use fluffi.Base.{
  ◌≡◌, refl, ap, ◌∙◌, Bool, Option, List, [], ◌∷◌, Text, codes, ℤ, negsuc, stoi, stoi_hex,
  Option-cases, inl, inr, Bool-cases,
}
use fluffi.Generator.Cleaner.{Settings, setting}
use fluffi.Evaluator.Blocks.{Block}
use fluffi.Strings.{string_has_ending}
use fluffi.Runner.Config.{
  Reading, refused, process_exit, got, ◌>>=◌, Target, FeederSetup, require, require_number,
  number_or, read_target, read_feeder, read_dyn_rio_single, read_dyn_rio_multi,
  read_qemu_user_single, read_gdb, read_executor,
}
use fluffi.Runner.Config.Demands.{
  Demand, text, number, number_if_there, Answer, meet, name_of, meet_all, target_demands,
  feeder_demands, gdb_demands, demands, meet_kind, outcome,
}

outcome-bind :
    {A B : Type 0} (m : Reading A) (f : A → Reading B) (k : Answer)
    → ((a : A) → outcome (f a) ≡ k)
    → outcome (m >>= f) ≡ (outcome m >>= λ u. k)
outcome-bind refused f k h = refl
outcome-bind process_exit f k h = refl
outcome-bind (got a) f k h = h a

module _ (settings : Settings) where
  require-meet :
      (name : Text) → outcome (require settings name) ≡ meet (text name) (setting name settings)
  unfolding require
  require-meet name = elim (Option-cases (setting name settings)) [
    | inl e ↦ rw e refl
    | inr (v, e) ↦ rw e refl
  ]

  require_number-meet :
      (read : Text → Option ℤ) (name : Text)
      → outcome (require_number settings read name)
        ≡ meet (number read name) (setting name settings)
  unfolding require_number
  require_number-meet read name = elim (Option-cases (setting name settings)) [
    | inl e ↦ rw e refl
    | inr (v, e) ↦ elim (Option-cases (read v)) [
      | inl f ↦ rw (e, f) refl
      | inr (n, f) ↦ rw (e, f) refl
    ]
  ]

  number_or-meet :
      (fallback : ℤ) (name : Text)
      → outcome (number_or settings fallback name)
        ≡ meet (number_if_there name) (setting name settings)
  unfolding number_or
  number_or-meet fallback name = elim (Option-cases (setting name settings)) [
    | inl e ↦ rw e refl
    | inr (v, e) ↦ elim (Option-cases (stoi v)) [
      | inl f ↦ rw (e, f) refl
      | inr (n, f) ↦ rw (e, f) refl
    ]
  ]

  -- A reader asks for the demands of a list, and the rest of the reading for those of another.
  after_demand :
      {A B : Type 0} (d : Demand) (ds : List Demand) (m : Reading A) (f : A → Reading B)
      → outcome m ≡ meet d (setting (name_of d) settings)
      → ((a : A) → outcome (f a) ≡ meet_all settings ds)
      → outcome (m >>= f) ≡ meet_all settings (d ∷ ds)
  after_demand d ds m f first rest =
      outcome-bind m f (meet_all settings ds) rest
      ∙ ap (λ (o : Answer). o >>= λ u. meet_all settings ds) first

  bind_assoc :
      {A B C : Type 0} (m : Reading A) (f : A → Reading B) (g : B → Reading C)
      → ((m >>= f) >>= g) ≡ (m >>= λ a. f a >>= g)
  bind_assoc refused f g = refl
  bind_assoc process_exit f g = refl
  bind_assoc (got a) f g = refl

  after_target :
      {B : Type 0} (ds : List Demand) (f : Target → Reading B)
      → ((t : Target) → outcome (f t) ≡ meet_all settings ds)
      → outcome (read_target settings >>= f) ≡ meet_all settings (target_demands ds)
  unfolding read_target
  after_target ds f rest = rw bind_assoc (
      after_demand (text (codes "targetCMDLine")) (number stoi (codes "hangTimeout") ∷ ds)
        (require settings (codes "targetCMDLine")) _ (require-meet (codes "targetCMDLine"))
        (λ (cmd : Text). rw bind_assoc (
          after_demand (number stoi (codes "hangTimeout")) ds
            (require_number settings stoi (codes "hangTimeout")) _
            (require_number-meet stoi (codes "hangTimeout")) (λ (n : ℤ). rest _))))

  after_feeder :
      {B : Type 0} (ds : List Demand) (f : FeederSetup → Reading B)
      → ((t : FeederSetup) → outcome (f t) ≡ meet_all settings ds)
      → outcome (read_feeder settings >>= f) ≡ meet_all settings (feeder_demands ds)
  unfolding read_feeder
  after_feeder ds f rest = rw bind_assoc (
      after_demand (text (codes "feederCMDLine"))
        (number stoi (codes "initializationTimeout")
          ∷ (number_if_there (codes "forceRestartAfter") ∷ ds))
        (require settings (codes "feederCMDLine")) _ (require-meet (codes "feederCMDLine"))
        (λ (cmd : Text). rw bind_assoc (
          after_demand (number stoi (codes "initializationTimeout"))
            (number_if_there (codes "forceRestartAfter") ∷ ds)
            (require_number settings stoi (codes "initializationTimeout")) _
            (require_number-meet stoi (codes "initializationTimeout"))
            (λ (n : ℤ). rw bind_assoc (
              after_demand (number_if_there (codes "forceRestartAfter")) ds
                (number_or settings (negsuc 0) (codes "forceRestartAfter")) _
                (number_or-meet (negsuc 0) (codes "forceRestartAfter")) (λ (r : ℤ). rest _))))))

  dyn_rio_single-demands :
      (posix : Bool)
      → outcome (read_dyn_rio_single settings posix) ≡ meet_all settings (target_demands [])
  unfolding read_dyn_rio_single
  dyn_rio_single-demands posix = after_target [] _ (λ (t : Target). refl)

  dyn_rio_multi-demands :
      (posix : Bool)
      → outcome (read_dyn_rio_multi settings posix)
        ≡ meet_all settings (target_demands (feeder_demands []))
  unfolding read_dyn_rio_multi
  dyn_rio_multi-demands posix =
      after_target (feeder_demands []) _
        (λ (t : Target). after_feeder [] _ (λ (f : FeederSetup). refl))

  qemu_user_single-demands :
      outcome (read_qemu_user_single settings)
      ≡ meet_all settings (target_demands (text (codes "changerootTemplate") ∷ []))
  unfolding read_qemu_user_single
  qemu_user_single-demands =
      after_target (text (codes "changerootTemplate") ∷ []) _ (λ (t : Target).
        after_demand (text (codes "changerootTemplate")) []
          (require settings (codes "changerootTemplate")) _
          (require-meet (codes "changerootTemplate")) (λ (v : Text). refl))

  gdb-demands :
      (blocks : List Block)
      → outcome (read_gdb settings blocks)
        ≡ meet_all settings (target_demands (feeder_demands gdb_demands))
  unfolding read_gdb
  gdb-demands blocks = after_target (feeder_demands gdb_demands) _ (λ (t : Target).
      after_feeder gdb_demands _ (λ (f : FeederSetup).
        after_demand (number stoi_hex (codes "breakPointInstruction"))
          (number stoi (codes "breakPointInstructionBytes") ∷ [])
          (require_number settings stoi_hex (codes "breakPointInstruction")) _
          (require_number-meet stoi_hex (codes "breakPointInstruction"))
          (λ (n : ℤ).
            after_demand (number stoi (codes "breakPointInstructionBytes")) []
              (require_number settings stoi (codes "breakPointInstructionBytes")) _
              (require_number-meet stoi (codes "breakPointInstructionBytes")) (λ (k : ℤ). refl))))

-- Whether the settings give an executor, are refused or end the process is decided by the table: by
-- the first demand of the kind of runner that is not met, on Linux and on Windows.
pub read_executor-demands :
    (settings : Settings) (posix : Bool) (chosen : Text) (blocks : List Block)
    → outcome (read_executor settings posix chosen blocks) ≡ meet_kind settings (demands chosen)
unfolding read_executor
read_executor-demands settings posix chosen blocks =
    elim (Bool-cases (string_has_ending chosen (codes "DynRioSingle"))) [
      | inl e ↦ rw e (dyn_rio_single-demands settings posix)
      | inr e ↦ elim (Bool-cases (string_has_ending chosen (codes "DynRioMulti"))) [
        | inl d ↦ rw (e, d) (dyn_rio_multi-demands settings posix)
        | inr d ↦ elim (Bool-cases (string_has_ending chosen (codes "QemuUserSingle"))) [
          | inl c ↦ rw (e, d, c) (qemu_user_single-demands settings)
          | inr c ↦ elim (Bool-cases (string_has_ending chosen (codes "GDB"))) [
            | inl b ↦ rw (e, d, c, b) (gdb-demands settings blocks)
            | inr b ↦ rw (e, d, c, b) refl
          ]
        ]
      ]
    ]
