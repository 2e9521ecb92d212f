-- ===== src/Strings/Splitting.antt =====
-- Splitting a text loses nothing, and replacing is splitting and joining.
use fluffi.Base.{
  ℕ, zero, suc, ◌<◌, ◌≡◌, ◌≢◌, inl, inr, refl, subst, sym, ap, ◌∙◌, true, false, Option, none, some,
  Option-cases, Bool-cases, List, [], ◌∷◌, ◌++◌, arith, length, length-append, drop, All, Text,
}
use fluffi.Strings.{starts_with, cons_first, find, split_loop, split_string, replace_loop}

starts_with-drop : (t s : Text) → starts_with t s ≡ true → s ≡ t ++ drop (length t) s
unfolding starts_with
starts_with-drop [] s h = refl
starts_with-drop (c ∷ cs) [] h = cc
starts_with-drop (c ∷ cs) (d ∷ ds) h = ground (arith, starts_with-drop cs ds)

starts_with-append : (t p q : Text) → starts_with t p ≡ true → starts_with t (p ++ q) ≡ true
unfolding starts_with
starts_with-append [] p q h = refl
starts_with-append (c ∷ cs) [] q h = cc
starts_with-append (c ∷ cs) (d ∷ ds) q h = ground (arith, starts_with-append cs ds q)

-- What `find` yields, for a token that is not empty.
record Found (token s pre rest : Text) : Type 0 where
  whole : s ≡ pre ++ (token ++ rest)
  first : find token pre ≡ none

-- A text without the token, seen from its first character.
find-here :
    (t : ℕ) (ts : Text) (c : ℕ) (cs : Text)
    → starts_with (t ∷ ts) (c ∷ cs) ≡ true
    → find (t ∷ ts) (c ∷ cs) ≡ some ([], drop (length ts) cs)
unfolding find
find-here t ts c cs e = rw e refl

find-later :
    (t : ℕ) (ts : Text) (c : ℕ) (cs : Text)
    → starts_with (t ∷ ts) (c ∷ cs) ≡ false
    → find (t ∷ ts) (c ∷ cs) ≡ cons_first c (find (t ∷ ts) cs)
unfolding find
find-later t ts c cs e = rw e refl

-- The first character of a text before a match starts no match.
starts_with-before :
    (t : ℕ) (ts : Text) (c : ℕ) (cs p r : Text)
    → starts_with (t ∷ ts) (c ∷ cs) ≡ false
    → cs ≡ p ++ r
    → starts_with (t ∷ ts) (c ∷ p) ≡ false
starts_with-before t ts c cs p r e w = elim (Bool-cases (starts_with (t ∷ ts) (c ∷ p))) [
  | inr n ↦ n
  | inl y ↦
      ground (
        arith,
        starts_with-append (t ∷ ts) (c ∷ p) r y,
        ap (λ x. starts_with (t ∷ ts) (c ∷ x)) w,
        e,
      )
]

find-Found :
    (t : ℕ) (ts s pre rest : Text) → find (t ∷ ts) s ≡ some (pre, rest) → Found (t ∷ ts) s pre rest
unfolding find starts_with
find-Found t ts [] pre rest h = cc
find-Found t ts (c ∷ cs) pre rest h = elim (Bool-cases (starts_with (t ∷ ts) (c ∷ cs))) [
  | inl e ↦
      let q : ◌≡◌ {A = Option (Text × Text)} (some ([], drop (length ts) cs)) (some (pre, rest)) =
        sym (find-here t ts c cs e) ∙ h in
      record {
        whole = ground (arith, starts_with-drop (t ∷ ts) (c ∷ cs) e, q);
        first = ground (arith, q);
      }
  | inr e ↦ elim (Option-cases (find (t ∷ ts) cs)) [
    | inl n ↦ ground (arith, find-later t ts c cs e, n, h)
    | inr ((p, r), g) ↦
        let q : ◌≡◌ {A = Option (Text × Text)} (some (c ∷ p, r)) (some (pre, rest)) =
          sym (find-later t ts c cs e ∙ ap (cons_first c) g) ∙ h in
        let ih = find-Found t ts cs p r g in
        record {
          whole = ground (arith, Found.whole ih, q);
          first = ground (
            arith,
            Found.first ih,
            q,
            find-later t ts c p (starts_with-before t ts c cs p ((t ∷ ts) ++ r) e (Found.whole ih)),
          );
        }
  ]
]

-- The pieces with the token between them: the reference that splitting is compared with.
unfoldable pub join : Text → List Text → Text
join token [] = []
join token (x ∷ []) = x
join token (x ∷ (y ∷ ys)) = x ++ (token ++ join token (y ∷ ys))

-- Pieces of a text: there is one at least.
unfoldable pub Splits : Text → Text → List Text → Type 0
Splits token str ps =
    (length ps ≢ zero) × ((join token ps ≡ str) × All (λ p. find token p ≡ none) ps)

Splits-cons :
    (token str pre rest : Text) (ps : List Text)
    → Found token str pre rest
    → Splits token rest ps
    → Splits token str (pre ∷ ps)
unfolding join Splits
Splits-cons token str pre rest [] f (l, (j, a)) = absurd (l refl)
Splits-cons token str pre rest (p ∷ ps) f (l, (j, a)) =
    (λ e. ground arith, (ground (arith, Found.whole f), (Found.first f, a)))

split_loop-last :
    (f : ℕ) (str token : Text) → find token str ≡ none → split_loop (suc f) str token ≡ str ∷ []
unfolding split_loop
split_loop-last f str token n = rw (n, split_loop) refl

split_loop-next :
    (f : ℕ) (str token pre rest : Text)
    → find token str ≡ some (pre, rest)
    → split_loop (suc f) str token ≡ pre ∷ split_loop f rest token
unfolding split_loop
split_loop-next f str token pre rest g = rw (g, split_loop) refl

Splits-one : (token str : Text) → find token str ≡ none → Splits token str (str ∷ [])
unfolding Splits join
Splits-one token str n = ((λ e. ground arith), (refl, (n, tt)))

shorter :
    (t : ℕ) (ts str pre rest : Text) (f : ℕ)
    → str ≡ pre ++ ((t ∷ ts) ++ rest)
    → length str < suc f
    → length rest < f
shorter t ts str pre rest f w h =
    omega (arith, ap length w, length-append pre ((t ∷ ts) ++ rest), length-append (t ∷ ts) rest, h)

split_loop-Splits :
    (f : ℕ) (str : Text) (t : ℕ) (ts : Text)
    → length str < f
    → Splits (t ∷ ts) str (split_loop f str (t ∷ ts))
split_loop-Splits zero str t ts h = ground arith
split_loop-Splits (suc f) str t ts h = elim (Option-cases (find (t ∷ ts) str)) [
  | inl n ↦
      subst (Splits (t ∷ ts) str) (sym (split_loop-last f str (t ∷ ts) n))
        (Splits-one (t ∷ ts) str n)
  | inr ((pre, rest), g) ↦
      let found = find-Found t ts str pre rest g in
      subst (Splits (t ∷ ts) str) (sym (split_loop-next f str (t ∷ ts) pre rest g)) (
        Splits-cons (t ∷ ts) str pre rest _ found
          (split_loop-Splits f rest t ts (shorter t ts str pre rest f (Found.whole found) h)))
]

-- Splitting a text at a token that is not empty, of the characters t ∷ ts: the pieces with the token between them are the
-- text again, no piece contains the token, and there is one piece at least, also for the empty text.
pub split_string-Splits :
    (str : Text) (t : ℕ) (ts : Text) → Splits (t ∷ ts) str (split_string str (t ∷ ts))
unfolding split_string Splits join find starts_with
split_string-Splits [] t ts = ((λ e. ground arith), (refl, (refl, tt)))
split_string-Splits (c ∷ cs) t ts =
    split_loop-Splits (suc (length (c ∷ cs))) (c ∷ cs) t ts (omega arith)

find_empty : (s : Text) → find [] s ≡ some ([], s)
unfolding find starts_with
find_empty [] = refl
find_empty (c ∷ cs) = refl

-- Replacing an empty text never ends: no amount of fuel gives a result, whatever the text and the replacement are.
pub replace_empty-loops : (fuel : ℕ) (s replace : Text) → replace_loop fuel s [] replace ≡ none
unfolding replace_loop
replace_empty-loops zero s replace = refl
replace_empty-loops (suc f) s replace =
    rw (find_empty s, replace_loop, replace_empty-loops f s replace) refl

replace-found :
    (f : ℕ) (s token replace pre rest t : Text)
    → find token s ≡ some (pre, rest)
    → replace_loop f rest token replace ≡ some t
    → replace_loop (suc f) s token replace ≡ some (pre ++ (replace ++ t))
unfolding replace_loop
replace-found f s token replace pre rest t g e = rw (g, replace_loop, e) refl

join-cons :
    (token x : Text) (ps : List Text)
    → length ps ≢ zero
    → join token (x ∷ ps) ≡ x ++ (token ++ join token ps)
unfolding join
join-cons token x [] l = absurd (l refl)
join-cons token x (p ∷ ps) l = refl

-- Replacing a text of the characters t ∷ ts with fuel for every character of the subject ends, and the result is the
-- pieces between the occurrences with the replacement between them.
pub replace-joins :
    (fuel : ℕ) (s : Text) (t : ℕ) (ts replace : Text)
    → length s < fuel
    → replace_loop fuel s (t ∷ ts) replace ≡ some (join replace (split_loop fuel s (t ∷ ts)))
unfolding Splits replace_loop join
replace-joins zero s t ts replace h = ground arith
replace-joins (suc f) s t ts replace h = elim (Option-cases (find (t ∷ ts) s)) [
  | inl n ↦ rw (n, replace_loop, split_loop-last f s (t ∷ ts) n) refl
  | inr ((pre, rest), g) ↦
      let l = shorter t ts s pre rest f (Found.whole (find-Found t ts s pre rest g)) h in
      rw
        (
          split_loop-next f s (t ∷ ts) pre rest g,
          join-cons replace pre _ (split_loop-Splits f rest t ts l).0,
        )
        (replace-found f s (t ∷ ts) replace pre rest _ g (replace-joins f rest t ts replace l))
]
