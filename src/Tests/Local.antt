-- ===== src/Tests/Local.antt =====
-- The local manager's registrations and weights.
use fluffi.Base.{
  ◌≡◌, ◌≢◌, refl, true, false, none, some, List, [], ◌∷◌, contains, text_instance, arith, Text,
  codes, text_eq, ℤ, pos, negsuc, int_ltb, stoi,
}
use fluffi.Generator.Cleaner.{Settings, setting}
use fluffi.Strings.{split_string}
use fluffi.LocalManager.Registration.{
  testcase_generator, testcase_evaluator, Shares, Database, Registration, gap, choose_subtype,
  sum_of, parse_types, normalize, registers, desired_subtypes, decide_sub_agent_type,
  handle_registration,
}
use fluffi.LocalManager.Registration.Choice.{choose_subtype-neediest}
use fluffi.LocalManager.Weights.{StatusOfInstance, Calculator, update_status_information}
use fluffi.LocalManager.Weights.Ranking.{Weighed, update_status-Weighed}

abbrev afl : Text
afl = codes "AFLMutator"

abbrev radamsa : Text
radamsa = codes "RadamsaMutator"

abbrev halves : Shares
halves = (radamsa, pos 50) ∷ ((afl, pos 50) ∷ [])

abbrev radamsa_only : Shares
radamsa_only = (radamsa, pos 100) ∷ []

abbrev both : List Text
both = radamsa ∷ (afl ∷ [])

choice_run : choose_subtype halves radamsa_only both ≡ afl
unfolding choose_subtype text_eq
choice_run = refl

not_refused : choose_subtype halves radamsa_only both ≢ []
not_refused e = ground (arith, choice_run)

gap_run : gap halves radamsa_only radamsa ≡ some (negsuc 49)
unfolding gap text_eq
gap_run = refl

choose_subtype-neediest_example :
    (e : ℤ) × (gap halves radamsa_only (choose_subtype halves radamsa_only both) ≡ some e)
    × (contains (choose_subtype halves radamsa_only both) both ≡ true)
    × (int_ltb e (negsuc 49) ≡ false)
unfolding contains text_eq
choose_subtype-neediest_example =
    choose_subtype-neediest halves radamsa_only both radamsa (negsuc 49) not_refused refl gap_run

-- Shares with a negative number, of which the percentages are out of range.
abbrev odd_shares : Shares
odd_shares = (radamsa, negsuc 299) ∷ []

refusal_run : choose_subtype odd_shares [] both ≡ []
unfolding choose_subtype text_eq
refusal_run = refl

odd_gap_run : gap odd_shares [] radamsa ≡ some (negsuc 299)
unfolding gap text_eq
odd_gap_run = refl

abbrev zero_settings : Settings
zero_settings = (codes "generatorTypes", codes "AFLMutator=0|OedipusMutator=0") ∷ []

zero_run :
    desired_subtypes testcase_generator zero_settings
    ≡ some ((afl, pos 0) ∷ ((codes "OedipusMutator", pos 0) ∷ []))
unfolding desired_subtypes setting text_eq stoi parse_types split_string
zero_run = refl

zero_sum_run : sum_of ((afl, pos 0) ∷ ((codes "OedipusMutator", pos 0) ∷ [])) ≡ pos 0
unfolding sum_of
zero_sum_run = refl

abbrev database : Database
database = record {
  settings = (codes "generatorTypes", codes "RadamsaMutator=50|AFLMutator=50") ∷ [];
  active_subtypes = (radamsa, pos 3) ∷ [];
  registered_subtype = [];
  writes_instance = λ t. true;
}

abbrev newcomer : Registration
newcomer = record { type = testcase_generator; implemented_subtypes = both; location = codes "lab" }

admission_run :
    handle_registration (codes "lab") (codes "job") database newcomer
    ≡ some (true, some (codes "job"))
unfolding handle_registration registers decide_sub_agent_type desired_subtypes setting text_eq stoi
    split_string choose_subtype normalize
admission_run = refl

abbrev busy : StatusOfInstance
busy = record {
  type = testcase_generator;
  weight = 0;
  status =
      (codes "TestCasesQueueSize", codes "70")
      ∷ ((codes "TestEvaluationsQueueSize", codes "950") ∷ []);
}

abbrev idle : StatusOfInstance
idle = record {
  type = testcase_evaluator;
  weight = 0;
  status =
      (codes "TestCasesQueueSize", codes "30")
      ∷ ((codes "TestEvaluationsQueueSize", codes "4") ∷ []);
}

abbrev outdated : Calculator
outdated = record { generator_status = busy ∷ []; evaluator_status = [] }

update_status-Weighed_example :
    Weighed (idle ∷ (busy ∷ [])) (update_status_information (idle ∷ (busy ∷ [])) outdated)
update_status-Weighed_example = update_status-Weighed (idle ∷ (busy ∷ [])) outdated

-- The numbers of the setting add up to zero.
abbrev zero_database : Database
zero_database = record database { settings = zero_settings }

ending_run : handle_registration (codes "lab") (codes "job") zero_database newcomer ≡ none
unfolding handle_registration registers decide_sub_agent_type desired_subtypes setting text_eq stoi
    split_string choose_subtype normalize
ending_run = refl
