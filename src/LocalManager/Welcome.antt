-- ===== src/LocalManager/Welcome.antt =====
-- core/LocalManager/IsAgentWelcomedRequestHandler: whether an agent that the global manager asks for
-- may register here.
pub mod Consistency
use fluffi.Base.{
  ℕ, Bool, true, false, ◌||◌, Option, none, some, List, [], ◌∷◌, if◌then◌else◌, Text, codes,
  text_instance, contains, insert,
}
use fluffi.Generator.Cleaner.{Settings, setting}
use fluffi.Strings.{split_string}
use fluffi.LocalManager.Registration.{
  AgentType, testcase_generator, testcase_runner, testcase_evaluator, global_manager, local_manager,
}

-- `splitString` gives at least one piece.
unfoldable pub first_part : List Text → Text
first_part [] = []
first_part (part ∷ parts) = part

unfoldable pub accept_pieces : List Text → List Text
unfolding first_part split_string insert
accept_pieces [] = []
accept_pieces (piece ∷ pieces) =
    insert (first_part (split_string piece (codes "="))) (accept_pieces pieces)

unfoldable pub accept_types : Option Text → List Text
unfolding accept_pieces
accept_types none = []
accept_types (some value) = accept_pieces (split_string value (codes "|"))

unfoldable pub accept_one : Option Text → List Text
accept_one none = []
accept_one (some value) = value ∷ []

-- Nothing for an agent of which the question is not implemented.
unfoldable pub accepted_subtypes : AgentType → Settings → Option (List Text)
unfolding accept_types accept_one setting
accepted_subtypes testcase_generator settings =
    some (accept_types (setting (codes "generatorTypes") settings))
accepted_subtypes testcase_runner settings =
    some (accept_one (setting (codes "runnerType") settings))
accepted_subtypes testcase_evaluator settings =
    some (accept_types (setting (codes "evaluatorTypes") settings))
accepted_subtypes global_manager settings = none
accepted_subtypes local_manager settings = none

unfoldable pub some_accepted : List Text → List Text → Bool
unfolding contains
some_accepted [] accepted = false
some_accepted (t ∷ ts) accepted = if contains t accepted then true else some_accepted ts accepted

unfoldable pub welcomes : List Text → Option (List Text) → Bool
unfolding some_accepted
welcomes implemented none = false
welcomes implemented (some accepted) = some_accepted implemented accepted

unfoldable pub is_welcomed : Settings → AgentType → List Text → Bool
unfolding welcomes accepted_subtypes
is_welcomed settings type implemented = welcomes implemented (accepted_subtypes type settings)
