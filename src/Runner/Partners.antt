-- ===== src/Runner/Partners.antt =====
-- core/TestcaseRunner/CommPartnerManager: the next communication partner is drawn at random, in
-- proportion to the weights that the local manager sent. `uint64_t` sums wrap at 2 ^ 64.
pub mod Choice
use fluffi.Base.{
  ℕ, ◌+◌, ◌-◌, ◌%◌, ◌^◌, Bool, List, [], ◌∷◌, leb, ltb, ℤ, pos, negsuc, ◌==◌, if◌then◌else◌, Text,
}
use fluffi.Testcase.{ServiceDescriptor}

pub record ServiceAndWeight : Type 0 where
  pub service_descriptor : ServiceDescriptor
  pub weight : ℕ

pub record PartnerManager : Type 0 where
  pub weigth_sum : ℕ
  pub comm_descriptor_set : List ServiceAndWeight

abbrev pub u64_mod : ℕ
u64_mod = 2 ^ 64

pub data Partner : Type 0 where
  host : Text → Partner
  nobody process_exit : Partner

-- The loop over the partners, from a sum of weights, for a random number.
unfoldable pub select : ℕ → ℕ → List ServiceAndWeight → Partner
select random sum [] = nobody
select random sum (p ∷ ps) =
    let rest = select random ((sum + p.weight) % u64_mod) ps in
    if leb (u64_mod - 1 - sum) p.weight
    then process_exit
    else if leb random ((sum + p.weight) % u64_mod)
    then host p.service_descriptor.service_host_and_port
    else rest

-- `draw n` is a number that `std::uniform_int_distribution(1, n)` yields.
unfoldable pub get_next_partner : (ℕ → ℕ) → PartnerManager → Partner
unfolding select
get_next_partner draw m =
    if m.weigth_sum == 0 then nobody else select (draw m.weigth_sum) 0 m.comm_descriptor_set

unfoldable pub sum_weights : ℕ → List ServiceAndWeight → ℕ
sum_weights sum [] = sum
sum_weights sum (p ∷ ps) = sum_weights ((sum + p.weight) % u64_mod) ps

unfoldable pub count_inserted : List ServiceAndWeight → ℕ
count_inserted [] = 0
count_inserted (p ∷ ps) = (1 + count_inserted ps) % 2 ^ 32

-- A `uint32_t` that is returned as `int`.
unfoldable pub as_int : ℕ → ℤ
as_int n = if ltb n (2 ^ 31) then pos n else negsuc (2 ^ 32 - 1 - n)

-- The number of partners, and the manager that holds them in place of those before.
unfoldable pub update_comm_partners : List ServiceAndWeight → PartnerManager → ℤ × PartnerManager
unfolding sum_weights count_inserted as_int
update_comm_partners ps m =
    (as_int (count_inserted ps), record { weigth_sum = sum_weights 0 ps; comm_descriptor_set = ps })
