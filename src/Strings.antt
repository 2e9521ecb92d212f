-- ===== src/Strings.antt =====
-- The text functions of core/SharedCode/Util.
pub mod Splitting
use fluffi.Base.{
  ℕ, zero, suc, ◌-◌, Bool, true, false, ◌&&◌, Option, none, some, List, [], ◌∷◌, ◌++◌, leb, ◌==◌,
  if◌then◌else◌, length, drop, Text, text_eq,
}

unfoldable pub starts_with : Text → Text → Bool
starts_with [] s = true
starts_with (c ∷ cs) [] = false
starts_with (c ∷ cs) (d ∷ ds) = (c == d) && starts_with cs ds

abbrev pub cons_first : ℕ → Option (Text × Text) → Option (Text × Text)
cons_first c none = none
cons_first c (some (pre, rest)) = some (c ∷ pre, rest)

-- `std::string::find`: what stands before the first occurrence, and what after it.
unfoldable pub find : Text → Text → Option (Text × Text)
unfolding starts_with
find token [] = if starts_with token [] then some ([], []) else none
find token (c ∷ cs) =
    let later = find token cs in
    if starts_with token (c ∷ cs)
    then some ([], drop (length token) (c ∷ cs))
    else cons_first c later

-- The loop of `splitString`. Each turn uses up a token.
unfoldable pub split_loop : ℕ → Text → Text → List Text
unfolding find
split_loop zero str token = []
split_loop (suc f) str token = elim (find token str) [
  | none ↦ str ∷ []
  | some (pre, rest) ↦ pre ∷ split_loop f rest token
]

unfoldable pub split_string : Text → Text → List Text
unfolding split_loop
split_string [] token = [] ∷ []
split_string (c ∷ cs) [] = (c ∷ cs) ∷ []
split_string (c ∷ cs) (t ∷ ts) = split_loop (suc (length (c ∷ cs))) (c ∷ cs) (t ∷ ts)

unfoldable pub string_has_ending : Text → Text → Bool
string_has_ending full ending =
    if leb (length ending) (length full)
    then text_eq (drop (length full - length ending) full) ending
    else false

-- `replaceAll` goes on behind what it inserted; `none` is a lack of fuel.
unfoldable pub replace_loop : ℕ → Text → Text → Text → Option Text
unfolding find
replace_loop zero s search replace = none
replace_loop (suc f) s search replace = elim (find search s) [
  | none ↦ some s
  | some (pre, rest) ↦ elim (replace_loop f rest search replace) [
    | none ↦ none
    | some t ↦ some (pre ++ (replace ++ t))
  ]
]
