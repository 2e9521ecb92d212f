-- ===== src/LocalManager/Welcome/Consistency.antt =====
-- The question whether an agent is welcome, and its registration, read the same settings.
use fluffi.Base.{
  ◌≡◌, ◌≢◌, ◌⊎◌, refl, Bool, true, false, Bool-cases, inl, inr, Option, none, some, Option-cases,
  List, [], ◌∷◌, if◌then◌else◌, Text, codes, text_eq, text_eq_iff, text_instance, contains,
  contains-insert_mono, contains-insert_self, insert, arith, ℤ, subst, sym, ◌∙◌, stoi, quotient,
  scale,
}
use fluffi.Generator.Cleaner.{Settings, setting}
use fluffi.Strings.{split_string}
use fluffi.LocalManager.Registration.{
  AgentType, testcase_generator, testcase_runner, testcase_evaluator, global_manager, local_manager,
  Shares, add_desired, parse_pieces, parse_types, one_type, desired_subtypes, percentages,
  normalize, lookup, gap, sum_of, choose_subtype, decide_sub_agent_type,
}
use fluffi.LocalManager.Registration.Choice.{choose_subtype-Offered}
use fluffi.LocalManager.Welcome.{
  first_part, accept_pieces, accept_types, accept_one, accepted_subtypes, some_accepted, welcomes,
  is_welcomed,
}

-- The names that have a share.
unfoldable pub named : Text → Shares → Bool
unfolding text_eq
named name [] = false
named name ((n, v) ∷ rest) = if text_eq n name then true else named name rest

lookup-named :
    (name : Text) (shares : Shares) (v : ℤ) → lookup name shares ≡ some v → named name shares ≡ true
unfolding lookup named
lookup-named name [] v h = absurd (cc)
lookup-named name ((n, w) ∷ rest) v h = ground (arith, lookup-named name rest v)

some_accepted_of :
    (t : Text) (implemented accepted : List Text)
    → contains t implemented ≡ true
    → contains t accepted ≡ true
    → some_accepted implemented accepted ≡ true
unfolding some_accepted contains
some_accepted_of t [] accepted h k = absurd (cc)
some_accepted_of t (i ∷ is) accepted h k = elim (Bool-cases (text_eq i t)) [
  | inl e ↦ rw ((text_eq_iff i t).0 e, k) refl
  | inr e ↦ ground (arith, some_accepted_of t is accepted (ground (arith, h)) k)
]

gap-named :
    (desired current : Shares) (name : Text) (e : ℤ)
    → gap desired current name ≡ some e
    → named name desired ≡ true
unfolding gap
gap-named desired current name e h = elim (Option-cases (lookup name desired)) [
  | inl q ↦ ground (arith, h, q)
  | inr (v, q) ↦ lookup-named name desired v q
]

percentages-named :
    (sum : ℤ) (name : Text) (shares scaled : Shares)
    → percentages sum shares ≡ some scaled
    → named name scaled ≡ true
    → named name shares ≡ true
unfolding percentages named
percentages-named sum name [] scaled h k = ground (arith, h, k)
percentages-named sum name ((n, v) ∷ rest) scaled h k =
    elim (Option-cases (quotient (scale 100 v) sum)) [
      | inl q ↦ ground (arith, h, q)
      | inr (p, q) ↦ elim (Option-cases (percentages sum rest)) [
        | inl l ↦ ground (arith, h, q, l)
        | inr (later, l) ↦ ground (arith, h, q, l, k, percentages-named sum name rest later l)
      ]
    ]

normalize-named :
    (name : Text) (shares scaled : Shares)
    → normalize shares ≡ some scaled
    → named name scaled ≡ true
    → named name shares ≡ true
unfolding normalize
normalize-named name shares scaled h k = percentages-named (sum_of shares) name shares scaled h k

add_desired-named :
    (name : Text) (parts : List Text) (o : Option Shares) (shares : Shares)
    → add_desired parts o ≡ some shares
    → named name shares ≡ true
    → (rest : Shares) × (o ≡ some rest) × ((named name rest ≡ true) ⊎ (first_part parts ≡ name))
unfolding add_desired named first_part
add_desired-named name parts none shares h k = absurd (cc)
add_desired-named name [] (some rest) shares h k = (rest, refl, inl (ground (arith, h, k)))
add_desired-named name (n ∷ []) (some rest) shares h k = (rest, refl, inl (ground (arith, h, k)))
add_desired-named name (n ∷ (share ∷ [])) (some rest) shares h k =
    elim (Option-cases (stoi share)) [
      | inl q ↦ ground (arith, h, q)
      | inr (v, q) ↦ elim (Bool-cases (text_eq n name)) [
        | inl e ↦ (rest, refl, inr ((text_eq_iff n name).0 e))
        | inr e ↦ (rest, refl, inl (ground (arith, h, q, k, e)))
      ]
    ]
add_desired-named name (n ∷ (share ∷ (m ∷ parts))) (some rest) shares h k =
    (rest, refl, inl (ground (arith, h, k)))

parse_pieces-accepted :
    (name : Text) (pieces : List Text) (shares : Shares)
    → parse_pieces pieces ≡ some shares
    → named name shares ≡ true
    → contains name (accept_pieces pieces) ≡ true
unfolding parse_pieces accept_pieces named
parse_pieces-accepted name [] shares h k = ground (arith, h, k)
parse_pieces-accepted name (piece ∷ pieces) shares h k =
    let parts = split_string piece (codes "=") in
    let (rest, q, found) = add_desired-named name parts (parse_pieces pieces) shares h k in
    elim found [
      | inl l ↦
          contains-insert_mono (first_part parts) name (accept_pieces pieces)
            (parse_pieces-accepted name pieces rest q l)
      | inr l ↦
          subst (λ n. contains n (insert (first_part parts) (accept_pieces pieces)) ≡ true) l
            (contains-insert_self (first_part parts) (accept_pieces pieces))
    ]

parse_types-accepted :
    (name : Text) (value : Option Text) (shares : Shares)
    → parse_types value ≡ some shares
    → named name shares ≡ true
    → contains name (accept_types value) ≡ true
unfolding parse_types accept_types named
parse_types-accepted name none shares h k = ground (arith, h, k)
parse_types-accepted name (some value) shares h k =
    parse_pieces-accepted name (split_string value (codes "|")) shares h k

one_type-accepted :
    (name : Text) (value : Option Text)
    → named name (one_type value) ≡ true
    → contains name (accept_one value) ≡ true
unfolding accept_one named contains
one_type-accepted name none k = k
one_type-accepted name (some value) k = ground (arith, k)

desired_subtypes-is_welcomed :
    (settings : Settings) (type : AgentType) (name : Text) (shares : Shares)
    (implemented : List Text)
    → desired_subtypes type settings ≡ some shares
    → named name shares ≡ true
    → contains name implemented ≡ true
    → is_welcomed settings type implemented ≡ true
unfolding desired_subtypes is_welcomed welcomes accepted_subtypes named
desired_subtypes-is_welcomed settings testcase_generator name shares implemented h k c =
    let value = setting (codes "generatorTypes") settings in
    some_accepted_of name implemented (accept_types value) c
      (parse_types-accepted name value shares h k)
desired_subtypes-is_welcomed settings testcase_evaluator name shares implemented h k c =
    let value = setting (codes "evaluatorTypes") settings in
    some_accepted_of name implemented (accept_types value) c
      (parse_types-accepted name value shares h k)
desired_subtypes-is_welcomed settings testcase_runner name shares implemented h k c =
    let value = setting (codes "runnerType") settings in
    some_accepted_of name implemented (accept_one value) c
      (one_type-accepted name value (ground (arith, h, k)))
desired_subtypes-is_welcomed settings global_manager name shares implemented h k c =
    absurd (ground (arith, h, k))
desired_subtypes-is_welcomed settings local_manager name shares implemented h k c =
    absurd (ground (arith, h, k))

-- An agent for which the registration chooses a subtype is one that is welcome, whichever agents are
-- active.
pub decide_sub_agent_type-is_welcomed :
    (settings : Settings) (active : Shares) (type : AgentType) (implemented : List Text) (t : Text)
    → decide_sub_agent_type settings active type implemented ≡ some t
    → t ≢ []
    → is_welcomed settings type implemented ≡ true
unfolding decide_sub_agent_type
decide_sub_agent_type-is_welcomed settings active type implemented t h n =
    elim (Option-cases (desired_subtypes type settings)) [
      | inl d ↦ ground (arith, h, d)
      | inr ([], d) ↦ absurd (ground (arith, h, d, n))
      | inr (share ∷ shares, d) ↦ elim (Option-cases (normalize (share ∷ shares))) [
        | inl e ↦ ground (arith, h, d, e)
        | inr (desired, e) ↦ elim (Option-cases (normalize active)) [
          | inl f ↦ ground (arith, h, d, e, f)
          | inr (current, f) ↦
              let q : choose_subtype desired current implemented ≡ t = ground (arith, h, d, e, f) in
              let (gap_found, g, c) =
                choose_subtype-Offered desired current implemented (λ z. n (sym q ∙ z)) in
              desired_subtypes-is_welcomed settings type
                (choose_subtype desired current implemented) (share ∷ shares) implemented d
                (normalize-named _ (share ∷ shares) desired e
                  (gap-named desired current _ gap_found g))
                c
        ]
      ]
    ]
