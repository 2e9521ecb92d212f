-- ===== src/LocalManager/Registration.antt =====
-- core/LocalManager/RegisterAtLMRequestHandler: an agent that registers is given the subtype of which
-- the most are missing. `none` is the end of the process: `_exit` on text that is no number, or the
-- trap on a division by zero.
pub mod Choice
pub mod Greatest
pub mod Gaps
pub mod Ending
pub mod Admission
use fluffi.Base.{
  ℕ, Bool, true, false, ◌&&◌, not, Option, none, some, List, [], ◌∷◌, ltb, ◌==◌, if◌then◌else◌,
  Text, codes, text_eq, text_instance, contains, ℤ, pos, negsuc, int_ltb, ◌+ℤ◌, ◌-ℤ◌, scale,
  quotient, stoi,
}
use fluffi.Generator.Cleaner.{Settings, setting}
use fluffi.Strings.{split_string}

pub data AgentType : Type 0 where
  testcase_generator testcase_runner testcase_evaluator global_manager local_manager : AgentType

-- Subtypes, each with a number of instances or a share.
abbrev pub Shares : Type 0
Shares = List (Text × ℤ)

-- A piece "A=50" of the setting: `none` for a number that `std::stoi` refuses. A piece with another
-- number of "=" is passed over.
unfoldable pub add_desired : List Text → Option Shares → Option Shares
add_desired parts none = none
add_desired [] (some rest) = some rest
add_desired (name ∷ []) (some rest) = some rest
add_desired (name ∷ (share ∷ [])) (some rest) = with_share (stoi share)
  where
    with_share : Option ℤ → Option Shares
    with_share none = none
    with_share (some n) = some ((name, n) ∷ rest)
add_desired (name ∷ (share ∷ (more ∷ parts))) (some rest) = some rest

unfoldable pub parse_pieces : List Text → Option Shares
unfolding split_string add_desired
parse_pieces [] = some []
parse_pieces (piece ∷ pieces) = add_desired (split_string piece (codes "=")) (parse_pieces pieces)

unfoldable pub parse_types : Option Text → Option Shares
unfolding parse_pieces split_string
parse_types none = some []
parse_types (some value) = parse_pieces (split_string value (codes "|"))

abbrev pub one_type : Option Text → Shares
one_type none = []
one_type (some value) = (value, pos 100) ∷ []

-- The subtypes that the settings want; other types of agents want none.
unfoldable pub desired_subtypes : AgentType → Settings → Option Shares
unfolding parse_types setting
desired_subtypes testcase_generator settings =
    parse_types (setting (codes "generatorTypes") settings)
desired_subtypes testcase_evaluator settings =
    parse_types (setting (codes "evaluatorTypes") settings)
desired_subtypes testcase_runner settings = some (one_type (setting (codes "runnerType") settings))
desired_subtypes global_manager settings = some []
desired_subtypes local_manager settings = some []

unfoldable pub sum_of : Shares → ℤ
unfolding ◌+ℤ◌
sum_of [] = pos 0
sum_of ((name, n) ∷ rest) = n +ℤ sum_of rest

unfoldable pub percentages : ℤ → Shares → Option Shares
unfolding quotient scale
percentages sum [] = some []
percentages sum ((name, n) ∷ rest) = both (quotient (scale 100 n) sum) (percentages sum rest)
  where
    both : Option ℤ → Option Shares → Option Shares
    both none later = none
    both (some p) none = none
    both (some p) (some later) = some ((name, p) ∷ later)

unfoldable pub normalize : Shares → Option Shares
unfolding percentages sum_of
normalize shares = percentages (sum_of shares) shares

-- The value of a name in the map that the shares are inserted into: the first one is kept.
unfoldable pub lookup : Text → Shares → Option ℤ
lookup name [] = none
lookup name ((n, v) ∷ rest) = if text_eq n name then some v else lookup name rest

abbrev pub current_value : Option ℤ → ℤ
current_value none = pos 0
current_value (some v) = v

-- `operator<` on texts.
unfoldable pub text_lt : Text → Text → Bool
text_lt s [] = false
text_lt [] (d ∷ ds) = true
text_lt (c ∷ cs) (d ∷ ds) = if c == d then text_lt cs ds else ltb c d

-- Insertion into a map that holds each name once, in the order of the names.
unfoldable pub insert_share : Text → ℤ → Shares → Shares
unfolding text_lt
insert_share name v [] = (name, v) ∷ []
insert_share name v ((n, w) ∷ rest) =
    let later = insert_share name v rest in
    if text_eq n name
    then (n, w) ∷ rest
    else if text_lt name n
    then (name, v) ∷ ((n, w) ∷ rest)
    else (n, w) ∷ later

-- The share that an implemented subtype lacks, where it is desired.
unfoldable pub gap : Shares → Shares → Text → Option ℤ
unfolding lookup ◌-ℤ◌
gap desired current name = lacks (lookup name desired)
  where
    lacks : Option ℤ → Option ℤ
    lacks none = none
    lacks (some d) = some (d -ℤ current_value (lookup name current))

abbrev pub add_gap : Text → Option ℤ → Shares → Shares
add_gap name none diffs = diffs
add_gap name (some d) diffs = insert_share name d diffs

unfoldable pub diff_loop : Shares → Shares → List Text → Shares → Shares
unfolding gap insert_share
diff_loop desired current [] diffs = diffs
diff_loop desired current (name ∷ names) diffs =
    diff_loop desired current names (add_gap name (gap desired current name) diffs)

-- The loop for the greatest difference.
unfoldable pub most_needed : Shares → Text × ℤ → Text × ℤ
most_needed [] best = best
most_needed ((name, d) ∷ rest) (best, value) =
    most_needed rest (if int_ltb value d then (name, d) else (best, value))

unfoldable pub choose_subtype : Shares → Shares → List Text → Text
unfolding diff_loop most_needed
choose_subtype desired current implemented =
    (most_needed (diff_loop desired current implemented []) ([], negsuc 199)).0

-- The empty text is the refusal.
unfoldable pub decide_sub_agent_type : Settings → Shares → AgentType → List Text → Option Text
unfolding desired_subtypes normalize choose_subtype
decide_sub_agent_type settings active type implemented =
    with_desired (desired_subtypes type settings)
  where
    normalized : Option Shares → Option Shares → Option Text
    normalized none current = none
    normalized (some desired) none = none
    normalized (some desired) (some current) = some (choose_subtype desired current implemented)

    with_desired : Option Shares → Option Text
    with_desired none = none
    with_desired (some []) = some []
    with_desired (some (share ∷ shares)) =
        normalized (normalize (share ∷ shares)) (normalize active)

-- What the local manager's database holds when an agent registers, and whether it takes the agent.
pub record Database : Type 0 where
  pub settings : Settings
  pub active_subtypes : Shares
  pub registered_subtype : Text
  pub writes_instance : Text → Bool

-- RegisterAtLMRequest, less the service descriptor.
pub record Registration : Type 0 where
  pub type : AgentType
  pub implemented_subtypes : List Text
  pub location : Text

-- RegisterAtLMResponse: the success, and the name of the fuzz job if it is set.
unfoldable pub register_response : Text → Option Bool → Option (Bool × Option Text)
register_response fuzzjob none = none
register_response fuzzjob (some success) = some (success, if success then some fuzzjob else none)

unfoldable pub admit : Database → Option Text → Option Bool
admit db none = none
admit db (some []) = some false
admit db (some (c ∷ cs)) = some (db.writes_instance (c ∷ cs))

unfoldable pub is_worker : AgentType → Bool
is_worker testcase_generator = true
is_worker testcase_runner = true
is_worker testcase_evaluator = true
is_worker global_manager = false
is_worker local_manager = false

-- Whether the agent is registered; `none` is the end of the process.
unfoldable pub registers : Text → Database → Registration → Option Bool
unfolding admit is_worker decide_sub_agent_type
registers my_location db r =
    if not (text_eq r.location my_location)
    then some false
    else if not (text_eq db.registered_subtype [])
    then some true
    else if is_worker r.type
    then admit db
        (decide_sub_agent_type db.settings db.active_subtypes r.type r.implemented_subtypes)
    else some false

unfoldable pub handle_registration :
    Text → Text → Database → Registration → Option (Bool × Option Text)
unfolding registers register_response
handle_registration my_location fuzzjob db r =
    register_response fuzzjob (registers my_location db r)
