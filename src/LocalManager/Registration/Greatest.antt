-- ===== src/LocalManager/Registration/Greatest.antt =====
-- The loop that looks for the greatest difference.
use fluffi.Base.{
  ◌≡◌, inl, inr, refl, subst, sym, true, false, Bool-cases, [], ◌∷◌, All, Text, text_instance, ℤ,
  int_ltb, int_ltb_chain, int_ltb_antisym, int_ltb_irrefl,
}
use fluffi.LocalManager.Registration.{Shares, most_needed}

pub most_needed-All :
    (P : Text × ℤ → Type 0) (m : Shares) (b : Text × ℤ) → All P m → P b → P (most_needed m b)
unfolding most_needed
most_needed-All P [] b a p = p
most_needed-All P ((n, d) ∷ m) (best, value) a p = elim (Bool-cases (int_ltb value d)) [
  | inl e ↦ rw e (most_needed-All P m (n, d) a.1 a.0)
  | inr e ↦ rw e (most_needed-All P m (best, value) a.1 p)
]

-- Nothing in a list of differences is above a value.
abbrev pub Topped : ℤ → Shares → Type 0
Topped v = All (λ e. int_ltb v e.1 ≡ false)

most_needed_better :
    (n best : Text) (d value : ℤ) (m : Shares)
    → int_ltb value d ≡ true
    → most_needed ((n, d) ∷ m) (best, value) ≡ most_needed m (n, d)
unfolding most_needed
most_needed_better n best d value m e = rw e refl

most_needed_worse :
    (n best : Text) (d value : ℤ) (m : Shares)
    → int_ltb value d ≡ false
    → most_needed ((n, d) ∷ m) (best, value) ≡ most_needed m (best, value)
unfolding most_needed
most_needed_worse n best d value m e = rw e refl

abbrev Tops : Shares → ℤ → Text × ℤ → Type 0
Tops m v r = Topped r.1 m × (int_ltb r.1 v ≡ false)

pub most_needed-Tops : (m : Shares) (b : Text × ℤ) → Tops m b.1 (most_needed m b)
unfolding most_needed
most_needed-Tops [] b = (tt, int_ltb_irrefl b.1)
most_needed-Tops ((n, d) ∷ m) (best, value) = elim (Bool-cases (int_ltb value d)) [
  | inl e ↦
      let ih = most_needed-Tops m (n, d) in
      subst (Tops ((n, d) ∷ m) value) (sym (most_needed_better n best d value m e)) (
        (ih.1, ih.0),
        int_ltb_chain (most_needed m (n, d)).1 d value ih.1 (int_ltb_antisym value d e),
      )
  | inr e ↦
      let ih = most_needed-Tops m (best, value) in
      subst (Tops ((n, d) ∷ m) value) (sym (most_needed_worse n best d value m e))
        ((int_ltb_chain (most_needed m (best, value)).1 value d ih.1 e, ih.0), ih.1)
]
