-- ===== src/SharedMem/Windows/Release.antt =====
-- What the destructor leaves, after a set-up that succeeded or failed.
use fluffi.Base.{ℕ, ◌≡◌, arith, if◌then◌else◌}
use fluffi.SharedMem.Windows.{
  Calls, new_process, initialize_as_server, initialize_as_client, destruct,
}

-- A set-up as server or as client that fails restores the new object, so it may be tried again; and
-- after each set-up, failed or not, the destructor releases all that is held.
pub setup-destruct :
    (size : ℕ) (c d : Calls)
    → let (served, p) = initialize_as_server size c new_process in
      let (joined, q) = initialize_as_client d new_process in
      ((if served then new_process else p) ≡ new_process)
      × ((if joined then new_process else q) ≡ new_process)
      × (destruct p ≡ new_process)
      × (destruct q ≡ new_process)
unfolding initialize_as_server initialize_as_client destruct
setup-destruct size c d = ground arith
