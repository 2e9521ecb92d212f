-- ===== src/SharedMem/Posix/Release.antt =====
-- What a set-up leaves behind when it fails, and what the destructor does with it.
use fluffi.Base.{ℕ, ◌≡◌, Bool, false, ◌&&◌, not, arith, leb}
use fluffi.SharedMem.Posix.{
  Names, Process, State, Calls, new_process, initialize_as_server, initialize_as_client, destruct,
}

-- The process holds neither the memory nor a pipe.
pub record HoldsNothing (p : Process) : Type 0 where
  pub no_memory : p.memory_open ≡ false
  pub no_mapping : p.memory_mapped ≡ false
  pub no_client : p.client_open ≡ false
  pub no_server : p.server_open ≡ false

abbrev pub no_names : Names
no_names = record { memory = false; client_fifo = false; server_fifo = false }

-- A server's set-up that fails, at whichever call, leaves nothing: no name on the machine, and no
-- descriptor or mapping in the process.
pub server_fails-HoldsNothing :
    (size : ℕ) (c : Calls)
    → (initialize_as_server size c (record { names = no_names; process = new_process })).0 ≡ false
    → ((initialize_as_server size c (record { names = no_names; process = new_process })).1.names
        ≡ no_names)
      × HoldsNothing
          (initialize_as_server size c
            (record { names = no_names; process = new_process })).1.process
unfolding initialize_as_server
server_fails-HoldsNothing size c h = ground arith

-- A client's set-up that fails leaves the names on the machine as they were, and nothing in the
-- process.
pub client_fails-HoldsNothing :
    (c : Calls) (n : Names)
    → (initialize_as_client c (record { names = n; process = new_process })).0 ≡ false
    → ((initialize_as_client c (record { names = n; process = new_process })).1.names ≡ n)
      × HoldsNothing
          (initialize_as_client c (record { names = n; process = new_process })).1.process
unfolding initialize_as_client
client_fails-HoldsNothing c n h = ground arith

-- No names on the machine, and a new object.
abbrev pub fresh : State
fresh = record { names = no_names; process = new_process }

-- A server's set-up succeeds exactly when the memory is larger than two headers and every system call
-- of it succeeds.
pub server-succeeds :
    (size : ℕ) (c : Calls)
    → (initialize_as_server size c fresh).0 ≡ (
        not (leb size 538)
        && (c.shm_opens
            && (c.truncates
                && (c.maps
                    && (c.makes_client_fifo
                        && (c.makes_server_fifo
                            && (c.opens_client_fifo && c.opens_server_fifo)))))))
unfolding initialize_as_server
server-succeeds size c = ground arith

-- A new object where a memory of its name is on the machine, or is not.
abbrev pub named : Bool → State
named was_there = record { names = record no_names { memory = was_there }; process = new_process }

-- Whatever the calls of a server's set-up come to, and whether or not a memory of that name was there
-- before, the destructor then leaves neither a name of the memory or of a pipe on the machine nor
-- memory or a pipe in the process. So it removes the name of another server's memory too, where that
-- one made the set-up fail.
pub server-destruct :
    (size : ℕ) (c : Calls) (was_there : Bool)
    → let s' = destruct (initialize_as_server size c (named was_there)).1 in
      (s'.names ≡ no_names) × HoldsNothing s'.process
unfolding initialize_as_server destruct
server-destruct size c was_there = ground arith
