-- ===== src/LocalManager/Registration/Gaps.antt =====
-- The map of the differences.
use fluffi.Base.{
  ◌≡◌, inl, inr, refl, subst, ap, true, false, some, Option-cases, Bool-cases, List, [], ◌∷◌, arith,
  All, Text, text_eq, text_eq_iff, text_eq_self, text_instance, contains, ℤ, int_ltb,
}
use fluffi.LocalManager.Registration.{Shares, text_lt, insert_share, gap, add_gap, diff_loop}
use fluffi.LocalManager.Registration.Greatest.{Topped}

insert_share-All :
    (P : Text × ℤ → Type 0) (name : Text) (v : ℤ) (m : Shares)
    → P (name, v)
    → All P m
    → All P (insert_share name v m)
unfolding insert_share
insert_share-All P name v [] p a = (p, tt)
insert_share-All P name v ((n, w) ∷ m) p a = ground (arith, insert_share-All P name v m p a.1)

insert_share_same :
    (name n : Text) (v w : ℤ) (m : Shares)
    → text_eq n name ≡ true
    → insert_share name v ((n, w) ∷ m) ≡ (n, w) ∷ m
unfolding insert_share
insert_share_same name n v w m e = rw e refl

insert_share_before :
    (name n : Text) (v w : ℤ) (m : Shares)
    → text_eq n name ≡ false
    → text_lt name n ≡ true
    → insert_share name v ((n, w) ∷ m) ≡ (name, v) ∷ ((n, w) ∷ m)
unfolding insert_share
insert_share_before name n v w m e l = rw (e, l) refl

insert_share_after :
    (name n : Text) (v w : ℤ) (m : Shares)
    → text_eq n name ≡ false
    → text_lt name n ≡ false
    → insert_share name v ((n, w) ∷ m) ≡ (n, w) ∷ insert_share name v m
unfolding insert_share
insert_share_after name n v w m e l = rw (e, l) refl

module _ (desired current : Shares) where
  -- Every difference is that of its name, which is one of `names`.
  abbrev pub Sound : List Text → Shares → Type 0
  Sound names = All (λ e. (gap desired current e.0 ≡ some e.1) × (contains e.0 names ≡ true))

  insert_share-Topped :
      (value : ℤ) (names : List Text) (name : Text) (v : ℤ) (m : Shares)
      → Sound names m
      → gap desired current name ≡ some v
      → Topped value (insert_share name v m)
      → (int_ltb value v ≡ false) × Topped value m
  unfolding insert_share
  insert_share-Topped value names name v [] s g t = (t.0, tt)
  insert_share-Topped value names name v ((n, w) ∷ m) s g t = elim (Bool-cases (text_eq n name)) [
    | inl e ↦
        let u = subst (Topped value) (insert_share_same name n v w m e) t in
        (ground (arith, text_eq_iff n name, ap (gap desired current), s.0.0, g, u.0), u)
    | inr e ↦ elim (Bool-cases (text_lt name n)) [
      | inl l ↦ subst (Topped value) (insert_share_before name n v w m e l) t
      | inr l ↦
          let u = subst (Topped value) (insert_share_after name n v w m e l) t in
          let ih = insert_share-Topped value names name v m s.1 g u.1 in (ih.0, (u.0, ih.1))
    ]
  ]

  pub diff_loop-Sound :
      (names all : List Text) (m : Shares)
      → All (λ n. contains n all ≡ true) names
      → Sound all m
      → Sound all (diff_loop desired current names m)
  unfolding diff_loop
  diff_loop-Sound [] all m a s = s
  diff_loop-Sound (n ∷ names) all m a s = elim (Option-cases (gap desired current n)) [
    | inl e ↦ rw (e, diff_loop) (diff_loop-Sound names all m a.1 s)
    | inr (d, e) ↦
        rw (e, diff_loop)
          (diff_loop-Sound names all (insert_share n d m) a.1 (insert_share-All _ n d m (e, a.0) s))
  ]

  pub diff_loop-Topped :
      (value : ℤ) (names all : List Text) (m : Shares)
      → All (λ n. contains n all ≡ true) names
      → Sound all m
      → Topped value (diff_loop desired current names m)
      → Topped value m
        × ((s : Text) (d : ℤ)
            → contains s names ≡ true
            → gap desired current s ≡ some d
            → int_ltb value d ≡ false)
  unfolding diff_loop contains
  diff_loop-Topped value [] all m a o t = (t, λ s d c g. ground arith)
  diff_loop-Topped value (n ∷ names) all m a o t = elim (Option-cases (gap desired current n)) [
    | inl e ↦
        let u = subst (λ g. Topped value (diff_loop desired current names (add_gap n g m))) e t in
        let ih = diff_loop-Topped value names all m a.1 o u in
        (
          ih.0,
          λ s d c g. elim (Bool-cases (text_eq n s)) [
            | inl q ↦ ground (arith, text_eq_iff n s, ap (gap desired current), e, g)
            | inr q ↦ ih.1 s d (ground (arith, c)) g
          ],
        )
    | inr (v, e) ↦
        let u = subst (λ g. Topped value (diff_loop desired current names (add_gap n g m))) e t in
        let ih =
          diff_loop-Topped value names all (insert_share n v m) a.1
            (insert_share-All _ n v m (e, a.0) o) u in
        let top = insert_share-Topped value all n v m o e ih.0 in
        (
          top.1,
          λ s d c g. elim (Bool-cases (text_eq n s)) [
            | inl q ↦ ground (arith, text_eq_iff n s, ap (gap desired current), e, g, top.0)
            | inr q ↦ ih.1 s d (ground (arith, c)) g
          ],
        )
  ]

-- Every name of a list is in it.
contains-All_mono :
    (x : Text) (xs names : List Text)
    → All (λ n. contains n xs ≡ true) names
    → All (λ n. contains n (x ∷ xs) ≡ true) names
unfolding contains
contains-All_mono x xs [] a = tt
contains-All_mono x xs (n ∷ names) a = (ground (arith, a.0), contains-All_mono x xs names a.1)

pub contains-All_self : (xs : List Text) → All (λ n. contains n xs ≡ true) xs
unfolding contains
contains-All_self [] = tt
contains-All_self (x ∷ xs) =
    (ground (arith, text_eq_self x), contains-All_mono x xs xs (contains-All_self xs))
