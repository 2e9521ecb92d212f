-- ===== src/Evaluator/Coverage/Decision.antt =====
-- Which testcases are kept, and what the cache knows afterwards.
use fluffi.Base.{
  ◌+◌, ◌≤◌, ◌≡◌, ◌↔◌, inl, inr, refl, ap, Bool, true, false, ◌&&◌, ◌||◌, not, Option, none, some,
  List, [], ◌∷◌, arith, if◌then◌else◌, Bool-cases, text_instance, All, contains, insert,
  contains-insert,
}
use fluffi.Evaluator.Blocks.{
  Block, Cache, block_eq, block_eq_iff, block_instance, is_block_in_cache_and_add_it_if_not,
}
use fluffi.Evaluator.Results.{ExitType, clean_exit, TestOutcome}
use fluffi.Evaluator.Coverage.{
  TestEvaluation, keep, discard, Evaluator, Kept, Surroundings, scan_blocks, is_clean,
  generate_parent_rating_delta, reported_result, update_send_timeout, is_special, evaluation,
  build_request, process_test_outcome, timeout_file_transfer,
}

-- Every block is in the cache.
abbrev pub known : List Block → Cache → Bool
known [] c = true
known (b ∷ bs) c = contains b c && known bs c

contains-seen :
    (x b : Block) (c : Cache)
    → contains b (is_block_in_cache_and_add_it_if_not x c).1 ≡ (block_eq x b || contains b c)
unfolding is_block_in_cache_and_add_it_if_not
contains-seen x b c = elim (Bool-cases (contains x c)) [
  | inl e ↦ rw e (ground (arith, block_eq_iff x b))
  | inr e ↦ rw e (contains-insert x b c)
]

contains-scan :
    (bs : List Block) (n : Bool) (c : Cache) (b : Block)
    → contains b (scan_blocks bs n c).1 ≡ (contains b bs || contains b c)
unfolding scan_blocks contains
contains-scan [] n c b = refl
contains-scan (x ∷ xs) n c b =
    let r = is_block_in_cache_and_add_it_if_not x c in
    ground (arith, contains-scan xs (n || not r.0) r.1 b, contains-seen x b c)

known-insert :
    (bs : List Block) (x : Block) (c : Cache) → known bs c ≡ true → known bs (insert x c) ≡ true
known-insert [] x c h = refl
known-insert (b ∷ bs) x c h = ground (arith, known-insert bs x c, contains-insert x b c)

scan-true : (bs : List Block) (c : Cache) → (scan_blocks bs true c).0 ≡ true
unfolding scan_blocks
scan-true [] c = refl
scan-true (x ∷ xs) c = ground (arith, scan-true xs c, scan-true xs (insert x c))

scan-known : (bs : List Block) (c : Cache) → (scan_blocks bs false c).0 ≡ not (known bs c)
unfolding scan_blocks
scan-known [] c = refl
scan-known (x ∷ xs) c = ground (arith, scan-known xs c, scan-true xs (insert x c))

-- The abstract rule: a testcase is dropped when it is no special one, ended cleanly and ran through
-- known blocks alone.
abbrev pub dull : TestOutcome → Cache → Bool
dull t c = not (is_special t) && (is_clean t.test_result.exit_type && known t.test_result.blocks c)

evaluation-dull :
    (t : TestOutcome) (c : Cache)
    → evaluation t (scan_blocks t.test_result.blocks false c).0
      ≡ (if dull t c then discard else keep)
unfolding evaluation
evaluation-dull t c = ground (arith, scan-known t.test_result.blocks c)

build-optional :
    (s : Surroundings) (t : TestOutcome) (h : Bool)
    → ((build_request s t h).optional ≡ none) ↔ (evaluation t h ≡ discard)
unfolding build_request
build-optional s t h = split (evaluation t h)
  where
    split :
        (v : TestEvaluation)
        → (◌≡◌ {A = Option Kept}
            (elim v [
              | discard ↦ none
              | keep ↦ some (record {
                parent_rating_delta =
                    generate_parent_rating_delta t.test_result.exit_type h (is_special t);
                result = reported_result t.test_result;
                is_last_chunk = s.is_last_chunk;
                testcase_first_chunk = s.first_chunk;
                sd_of_evaluator = s.own;
              })
            ])
            none)
          ↔ (v ≡ discard)
    split discard = (λ _. refl, λ _. refl)
    split keep = (λ h. cc, λ h. cc)

update-cache :
    (a : Bool) (v : TestEvaluation) (x : ExitType) (e : Evaluator)
    → (update_send_timeout a v x e).cache ≡ e.cache
unfolding update_send_timeout
update-cache a v x e = ground arith

-- The request says `discard` exactly for a testcase that is not special, ended cleanly and ran
-- through blocks that the cache knew, and has its optional parts exactly when it says `keep`; the
-- cache afterwards knows what it knew and the blocks of the testcase, and nothing else.
pub process-decides :
    (s : Surroundings) (t : TestOutcome) (e : Evaluator)
    → ((process_test_outcome s t e).0.eval ≡ (if dull t e.cache then discard else keep))
      × (((process_test_outcome s t e).0.optional ≡ none) ↔ (dull t e.cache ≡ true))
      × ((b : Block)
          → contains b (process_test_outcome s t e).1.cache
            ≡ (contains b t.test_result.blocks || contains b e.cache))
unfolding process_test_outcome
process-decides s t e =
    let n = (scan_blocks t.test_result.blocks false e.cache).0 in
    let v = evaluation-dull t e.cache in
    let o = build-optional s t n in
    (
      v,
      (λ h. ground (arith, v, o.0 h), λ h. o.1 (ground (arith, v))),
      λ b. rw update-cache (ground (arith, contains-scan t.test_result.blocks false e.cache b)),
    )

known_of_contains :
    (bs : List Block) (c : Cache) → All (λ b. contains b c ≡ true) bs → known bs c ≡ true
known_of_contains [] c h = refl
known_of_contains (b ∷ bs) c h = ground (arith, h.0, known_of_contains bs c h.1)

All-of_list :
    (bs : List Block) (c : Cache)
    → ((b : Block) → contains b bs ≡ true → contains b c ≡ true)
    → All (λ b. contains b c ≡ true) bs
unfolding contains
All-of_list [] c h = tt
All-of_list (b ∷ bs) c h =
    (h b (ground (arith, block_eq_iff b b)), All-of_list bs c (λ x k. h x (ground (arith, k))))

-- Evaluating a testcase a second time finds nothing new: where it is not special and ended cleanly,
-- the request about an outcome with the same blocks says `discard`.
pub process_again-discard :
    (s s' : Surroundings) (t u : TestOutcome) (e : Evaluator)
    → u.test_result.blocks ≡ t.test_result.blocks
    → is_special u ≡ false
    → u.test_result.exit_type ≡ clean_exit
    → (process_test_outcome s' u (process_test_outcome s t e).1).0.eval ≡ discard
unfolding is_clean
process_again-discard s s' t u e same plain clean =
    let known_now = known_of_contains u.test_result.blocks (process_test_outcome s t e).1.cache (
      All-of_list u.test_result.blocks (process_test_outcome s t e).1.cache
        (λ b k. ground (arith, (process-decides s t e).2 b, ap (contains b) same))) in
    ground (
      arith,
      (process-decides s' u (process_test_outcome s t e).1).0,
      known_now,
      plain,
      ap is_clean clean,
    )

-- The time that a request may take stays at least
-- the one for a file transfer: it grows by five seconds exactly when a request has no answer, and
-- falls by one second at most.
pub process-timeout :
    (s : Surroundings) (t : TestOutcome) (e : Evaluator)
    → timeout_file_transfer ≤ e.send_timeout
    → (timeout_file_transfer ≤ (process_test_outcome s t e).1.send_timeout)
      × (((process_test_outcome s t e).1.send_timeout ≡ e.send_timeout + 5000)
          ↔ (s.answered ≡ false))
      × (e.send_timeout ≤ (process_test_outcome s t e).1.send_timeout + 1000)
unfolding process_test_outcome update_send_timeout
process-timeout s t e h = ground arith
