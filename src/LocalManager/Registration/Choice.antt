-- ===== src/LocalManager/Registration/Choice.antt =====
-- The subtype that an agent is given lacks the most.
use fluffi.Base.{
  ◌≡◌, ◌≢◌, ◌⊎◌, inl, inr, refl, subst, ap, true, false, some, List, [], ◌∷◌, arith, All, Text,
  text_instance, contains, ℤ, negsuc, int_ltb,
}
use fluffi.LocalManager.Registration.{Shares, gap, diff_loop, most_needed, choose_subtype}
use fluffi.LocalManager.Registration.Greatest.{most_needed-All, most_needed-Tops}
use fluffi.LocalManager.Registration.Gaps.{
  Sound, diff_loop-Sound, diff_loop-Topped, contains-All_self,
}

abbrev Picked : Shares → Shares → List Text → Text × ℤ → Type 0
Picked desired current implemented r =
    (r ≡ ([], negsuc 199))
    ⊎ ((gap desired current r.0 ≡ some r.1) × (contains r.0 implemented ≡ true))

All-right :
    (desired current : Shares) (implemented : List Text) (m : Shares)
    → Sound desired current implemented m
    → All (Picked desired current implemented) m
All-right desired current implemented [] s = tt
All-right desired current implemented (x ∷ m) s =
    (inr s.0, All-right desired current implemented m s.1)

-- The name and the difference that the two loops end with.
best : Shares → Shares → List Text → Text × ℤ
best desired current implemented =
    most_needed (diff_loop desired current implemented []) ([], negsuc 199)

best-Picked :
    (desired current : Shares) (implemented : List Text)
    → Picked desired current implemented (best desired current implemented)
unfolding best
best-Picked desired current implemented =
    let m = diff_loop desired current implemented [] in
    let sound =
      diff_loop-Sound desired current implemented implemented [] (contains-All_self implemented)
        tt in
    most_needed-All (Picked desired current implemented) m ([], negsuc 199)
      (All-right desired current implemented m sound) (inl refl)

best_tops :
    (desired current : Shares) (implemented : List Text) (s : Text) (d : ℤ)
    → contains s implemented ≡ true
    → gap desired current s ≡ some d
    → int_ltb (best desired current implemented).1 d ≡ false
unfolding best
best_tops desired current implemented s d c g =
    let m = diff_loop desired current implemented [] in
    let top =
      diff_loop-Topped desired current (best desired current implemented).1 implemented implemented
        [] (contains-All_self implemented) tt (most_needed-Tops m ([], negsuc 199)).0 in
    top.1 s d c g

-- Where a subtype is chosen at all, it is implemented and desired.
pub choose_subtype-Offered :
    (desired current : Shares) (implemented : List Text)
    → choose_subtype desired current implemented ≢ []
    → (e : ℤ) × (gap desired current (choose_subtype desired current implemented) ≡ some e)
      × (contains (choose_subtype desired current implemented) implemented ≡ true)
unfolding choose_subtype best
choose_subtype-Offered desired current implemented n =
    elim (best-Picked desired current implemented) [
      | inl e ↦ absurd (n (ap (λ (r : Text × ℤ). r.0) e))
      | inr (p, q) ↦ ((best desired current implemented).1, p, q)
    ]

-- Where a subtype is chosen at all, it is implemented and desired, and no implemented and desired
-- subtype lacks a greater share.
pub choose_subtype-neediest :
    (desired current : Shares) (implemented : List Text) (s : Text) (d : ℤ)
    → choose_subtype desired current implemented ≢ []
    → contains s implemented ≡ true
    → gap desired current s ≡ some d
    → (e : ℤ) × (gap desired current (choose_subtype desired current implemented) ≡ some e)
      × (contains (choose_subtype desired current implemented) implemented ≡ true)
      × (int_ltb e d ≡ false)
unfolding choose_subtype best
choose_subtype-neediest desired current implemented s d n c g =
    elim (best-Picked desired current implemented) [
      | inl e ↦ absurd (n (ap (λ (r : Text × ℤ). r.0) e))
      | inr (p, q) ↦ (
        (best desired current implemented).1,
        p,
        q,
        best_tops desired current implemented s d c g,
      )
    ]

-- Nothing is chosen, where the empty text is not implemented, only if every implemented and desired
-- subtype is there 200 percent too often, or more.
pub choose_subtype-refuses :
    (desired current : Shares) (implemented : List Text) (s : Text) (d : ℤ)
    → choose_subtype desired current implemented ≡ []
    → contains [] implemented ≡ false
    → contains s implemented ≡ true
    → gap desired current s ≡ some d
    → int_ltb (negsuc 199) d ≡ false
unfolding choose_subtype best
choose_subtype-refuses desired current implemented s d n o c g =
    elim (best-Picked desired current implemented) [
      | inl e ↦
          subst (λ (r : Text × ℤ). int_ltb r.1 d ≡ false) e
            (best_tops desired current implemented s d c g)
      | inr (p, q) ↦ ground (arith, ap (λ t. contains t implemented) n, o, q)
    ]
