-- ===== src/Runner/Config/Demands.antt =====
-- Which settings each kind of runner needs, as a table.
use fluffi.Base.{Option, none, some, List, [], ◌∷◌, if◌then◌else◌, Text, codes, ℤ, stoi, stoi_hex}
use fluffi.Generator.Cleaner.{Settings, setting}
use fluffi.Strings.{string_has_ending}
use fluffi.Runner.Config.{Reading, refused, process_exit, got, ◌>>=◌}

-- A setting that must be there, that must be there and be a number, or that must be a number where it
-- is there.
pub data Demand : Type 0 where
  text : Text → Demand
  number : (Text → Option ℤ) → Text → Demand
  number_if_there : Text → Demand

abbrev pub Answer : Type 0
Answer = Reading (Unit {0})

abbrev pub given : Option ℤ → Answer
given none = process_exit
given (some n) = got tt

abbrev pub meet : Demand → Option Text → Answer
meet (text name) none = refused
meet (text name) (some v) = got tt
meet (number read name) none = refused
meet (number read name) (some v) = given (read v)
meet (number_if_there name) none = got tt
meet (number_if_there name) (some v) = given (stoi v)

abbrev pub name_of : Demand → Text
name_of (text name) = name
name_of (number read name) = name
name_of (number_if_there name) = name

-- The demands in turn: the first that is not met decides.
abbrev pub meet_all : Settings → List Demand → Answer
meet_all settings [] = got tt
meet_all settings (d ∷ ds) = meet d (setting (name_of d) settings) >>= λ u. meet_all settings ds

abbrev pub target_demands : List Demand → List Demand
target_demands ds = text (codes "targetCMDLine") ∷ (number stoi (codes "hangTimeout") ∷ ds)

abbrev pub feeder_demands : List Demand → List Demand
feeder_demands ds =
    text (codes "feederCMDLine")
    ∷ (number stoi (codes "initializationTimeout")
        ∷ (number_if_there (codes "forceRestartAfter") ∷ ds))

abbrev pub gdb_demands : List Demand
gdb_demands =
    number stoi_hex (codes "breakPointInstruction")
    ∷ (number stoi (codes "breakPointInstructionBytes") ∷ [])

-- The demands of each kind of runner, in the order of the code; nothing for an unknown kind.
abbrev pub demands : Text → Option (List Demand)
demands chosen =
    if string_has_ending chosen (codes "DynRioSingle")
    then some (target_demands [])
    else if string_has_ending chosen (codes "DynRioMulti")
    then some (target_demands (feeder_demands []))
    else if string_has_ending chosen (codes "QemuUserSingle")
    then some (target_demands (text (codes "changerootTemplate") ∷ []))
    else if string_has_ending chosen (codes "GDB")
    then some (target_demands (feeder_demands gdb_demands))
    else none

abbrev pub meet_kind : Settings → Option (List Demand) → Answer
meet_kind settings none = process_exit
meet_kind settings (some ds) = meet_all settings ds

-- What is left of a reading without its value.
abbrev pub outcome : {A : Type 0} → Reading A → Answer
outcome refused = refused
outcome process_exit = process_exit
outcome (got a) = got tt
