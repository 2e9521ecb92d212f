-- ===== src/Runner/Partners/Choice.antt =====
-- Each partner is drawn with a probability in proportion to its weight.
use fluffi.Base.{
  ℕ, ◌+◌, ◌-◌, ◌*◌, ◌%◌, ◌^◌, ◌≤◌, ◌<◌, ◌≡◌, refl, ap, ◌∙◌, List, [], ◌∷◌, ◌++◌, arith, All, length,
}
use fluffi.Runner.Partners.{
  ServiceAndWeight, PartnerManager, u64_mod, host, select, get_next_partner, sum_weights, as_int,
  count_inserted, update_comm_partners,
}

-- The sum of the weights, with no wrap.
abbrev pub total : List ServiceAndWeight → ℕ
total [] = 0
total (p ∷ ps) = p.weight + total ps

abbrev pub Small : List ServiceAndWeight → Type 0
Small = All (λ p. p.weight < 2 ^ 32)

total-append : (xs ys : List ServiceAndWeight) → total (xs ++ ys) ≡ total xs + total ys
total-append [] ys = omega arith
total-append (x ∷ xs) ys = omega (arith, total-append xs ys)

total-le : (ps : List ServiceAndWeight) → Small ps → total ps ≤ length ps * (2 ^ 32 - 1)
total-le [] s = omega arith
total-le (p ∷ ps) s = omega (arith, total-le ps s.1, s.0)

sum_weights_lem :
    (sum : ℕ) (ps : List ServiceAndWeight)
    → sum + total ps < u64_mod
    → sum_weights sum ps ≡ sum + total ps
unfolding sum_weights
sum_weights_lem sum [] h = omega arith
sum_weights_lem sum (p ∷ ps) h =
    let e : (sum + p.weight) % u64_mod ≡ sum + p.weight = omega arith in
    rw e (omega (arith, sum_weights_lem (sum + p.weight) ps (omega arith)))

count_inserted_lem :
    (ps : List ServiceAndWeight) → length ps < 2 ^ 32 → count_inserted ps ≡ length ps
unfolding count_inserted
count_inserted_lem [] h = refl
count_inserted_lem (p ∷ ps) h = omega (arith, count_inserted_lem ps (omega arith))

select_hit :
    (random sum : ℕ) (xs : List ServiceAndWeight) (p : ServiceAndWeight)
    (ys : List ServiceAndWeight)
    → sum + total xs < random
    → random ≤ sum + total xs + p.weight
    → sum + total xs + p.weight < u64_mod - 1
    → select random sum (xs ++ p ∷ ys) ≡ host p.service_descriptor.service_host_and_port
unfolding select
select_hit random sum [] p ys l r b =
    let e : (sum + p.weight) % u64_mod ≡ sum + p.weight = omega arith in rw e (ground arith)
select_hit random sum (x ∷ xs) p ys l r b =
    let e : (sum + x.weight) % u64_mod ≡ sum + x.weight = omega arith in
    rw e (
      ground (
        arith,
        select_hit random (sum + x.weight) xs p ys (omega arith) (omega arith) (omega arith),
      ))

no_wrap : (ps : List ServiceAndWeight) → length ps < 2 ^ 32 → Small ps → total ps < u64_mod - 1
no_wrap ps n s = omega (arith, total-le ps s)

get_next-select :
    (draw : ℕ → ℕ) (m : PartnerManager)
    → 0 < m.weigth_sum
    → get_next_partner draw m ≡ select (draw m.weigth_sum) 0 m.comm_descriptor_set
unfolding get_next_partner
get_next-select draw m h = ground arith

-- For fewer than 2 ^ 32 partners of 32-bit weights, the number of partners is that of the message as
-- an `int`,
-- and the sum of the weights does not wrap around.
pub update_partners-total :
    (xs : List ServiceAndWeight) (m : PartnerManager)
    → length xs < 2 ^ 32
    → Small xs
    → ((update_comm_partners xs m).0 ≡ as_int (length xs))
      × ((update_comm_partners xs m).1.weigth_sum ≡ total xs)
unfolding update_comm_partners
update_partners-total xs m n s =
    let b = no_wrap xs n s in
    let w = sum_weights_lem 0 xs (omega arith) in
    (ap as_int (count_inserted_lem xs n), omega (arith, w))

-- Of the numbers from 1 to the sum of all weights, exactly as many as a partner's weight draw that
-- partner: those above the weights before it, up to its own. So neither "nobody" nor an exit of the
-- process is met, for fewer than 2 ^ 32 partners of 32-bit weights.
pub next_partner-proportional :
    (draw : ℕ → ℕ) (xs : List ServiceAndWeight) (p : ServiceAndWeight) (ys : List ServiceAndWeight)
    (m : PartnerManager)
    → length (xs ++ p ∷ ys) < 2 ^ 32
    → Small (xs ++ p ∷ ys)
    → total xs < draw (update_comm_partners (xs ++ p ∷ ys) m).1.weigth_sum
    → draw (update_comm_partners (xs ++ p ∷ ys) m).1.weigth_sum ≤ total xs + p.weight
    → get_next_partner draw (update_comm_partners (xs ++ p ∷ ys) m).1
      ≡ host p.service_descriptor.service_host_and_port
unfolding update_comm_partners
next_partner-proportional draw xs p ys m n s l r =
    let b = no_wrap (xs ++ p ∷ ys) n s in
    let w = sum_weights_lem 0 (xs ++ p ∷ ys) (omega arith) in
    let t = total-append xs (p ∷ ys) in
    get_next-select draw (update_comm_partners (xs ++ p ∷ ys) m).1 (omega (arith, w, t))
    ∙ select_hit (draw (sum_weights 0 (xs ++ p ∷ ys))) 0 xs p ys (omega arith) (omega arith)
        (omega (arith, b, t))
