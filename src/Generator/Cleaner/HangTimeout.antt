-- ===== src/Generator/Cleaner/HangTimeout.antt =====
-- How long the cleaner waits for an answer.
use fluffi.Base.{ℕ, ◌*◌, max, ◌≡◌, Option, none, some, arith, Text, codes, pos, stoi, text_instance}
use fluffi.Generator.Cleaner.{
  Cleaner, Settings, setting, goes_on, returns_early, read_hang_timeout, find_waiting_time,
}

-- Where the first request is answered with a number of milliseconds for hangTimeout, the cleaner
-- waits five minutes or twice that time, whichever is longer.
pub find_waiting_time-max :
    (settings : Settings) (c : Cleaner) (v : Text) (h : ℕ)
    → c.intervall_to_wait_for_reinsertion ≡ 0
    → setting (codes "hangTimeout") settings ≡ some v
    → stoi v ≡ some (pos h)
    → find_waiting_time (some settings) c
      ≡ goes_on (record c { intervall_to_wait_for_reinsertion = max 300000 (2 * h) })
unfolding find_waiting_time
find_waiting_time-max settings c v h z e n = ground (arith, z, e, n)

read_hang_timeout_early :
    (resp : Option Settings) (c c' : Cleaner) → read_hang_timeout resp c ≡ returns_early c' → c' ≡ c
unfolding read_hang_timeout
read_hang_timeout_early none c c' e = cc
read_hang_timeout_early (some settings) c c' e = ground arith

-- Where the first request has no answer, or one without hangTimeout, the cleaner waits five minutes
-- from then on: later answers, whatever hangTimeout they carry, change nothing.
pub find_waiting_time-sticks :
    (first : Option Settings) (later : Option Settings) (c c' : Cleaner)
    → c.intervall_to_wait_for_reinsertion ≡ 0
    → find_waiting_time first c ≡ returns_early c'
    → (find_waiting_time later c' ≡ goes_on c') × (c'.intervall_to_wait_for_reinsertion ≡ 300000)
unfolding find_waiting_time
find_waiting_time-sticks first later c c' z e = ground (
  arith,
  read_hang_timeout_early first (record c { intervall_to_wait_for_reinsertion = 300000 }) c',
)
