-- ===== src/SharedMem/Posix.antt =====
-- core/SharedMemIPC/SharedMemIPC.cpp on Linux: set-up and tear-down of the shared memory and of the
-- two pipes. The results of the system calls are arguments.
pub mod Release
use fluffi.Base.{ℕ, ◌+◌, ◌*◌, Bool, true, false, not, leb, if◌then◌else◌}
use fluffi.SharedMem.Channel.{max_path}

-- What exists by name on the machine.
pub record Names : Type 0 where
  pub memory : Bool
  pub client_fifo : Bool
  pub server_fifo : Bool

-- The fields of the object, where `true` is a value other than -1, and what the process holds.
pub record Process : Type 0 where
  pub fd_shared_mem : Bool
  pub view : Bool
  pub fd_client : Bool
  pub fd_server : Bool
  pub memory_open : Bool
  pub memory_mapped : Bool
  pub client_open : Bool
  pub server_open : Bool

pub record State : Type 0 where
  pub names : Names
  pub process : Process

-- Which system calls succeed.
pub record Calls : Type 0 where
  pub shm_opens : Bool
  pub truncates : Bool
  pub maps : Bool
  pub makes_client_fifo : Bool
  pub makes_server_fifo : Bool
  pub opens_client_fifo : Bool
  pub opens_server_fifo : Bool

abbrev pub new_process : Process
new_process = record {
  fd_shared_mem = false;
  view = false;
  fd_client = false;
  fd_server = false;
  memory_open = false;
  memory_mapped = false;
  client_open = false;
  server_open = false;
}

-- `close(m_fdSharedMem); m_fdSharedMem = -1`
unfoldable pub close_memory : Process → Process
close_memory p = record p { fd_shared_mem = false; memory_open = false }

-- `munmap(m_pView, …)`, which leaves `m_pView` as it is.
unfoldable pub unmap : Process → Process
unmap p = record p { memory_mapped = false }

unfoldable pub close_client : Process → Process
close_client p = record p { fd_client = false; client_open = false }

unfoldable pub close_server : Process → Process
close_server p = record p { fd_server = false; server_open = false }

-- The object gives the memory back: unmapped, closed and, by the server, unlinked.
unfoldable pub give_back : Bool → State → State
unfolding close_memory unmap
give_back is_server s = record {
  names = if is_server then record (s.names) { memory = false } else s.names;
  process = close_memory (unmap s.process);
}

-- The two `open` calls, which end both set-ups. A server that fails also removes the pipes.
unfoldable pub open_fifos : Bool → Calls → State → Bool × State
unfolding give_back close_client
open_fifos is_server c s =
    if not c.opens_client_fifo
    then (false, give_back is_server (fifos_gone s))
    else if not c.opens_server_fifo
    then (
      false,
      give_back is_server (
          fifos_gone (record s {
            process = close_client (record (s.process) { fd_client = true; client_open = true });
          })),
    )
    else (
      true,
      record s {
        process = record (s.process) {
          fd_client = true;
          client_open = true;
          fd_server = true;
          server_open = true;
        };
      },
    )
  where
    fifos_gone : State → State
    fifos_gone t =
        if is_server
        then record t { names = record (t.names) { client_fifo = false; server_fifo = false } }
        else t

unfoldable pub make_fifos : Calls → State → Bool × State
unfolding give_back open_fifos
make_fifos c s =
    if not c.makes_client_fifo
    then (false, give_back true s)
    else if not c.makes_server_fifo
    then (false, give_back true (record s { names = record (s.names) { client_fifo = false } }))
    else open_fifos true c
        (record s { names = record (s.names) { client_fifo = true; server_fifo = true } })

-- `ftruncate` and `mmap`, and what follows them.
unfoldable pub map_memory : Bool → Calls → (State → Bool × State) → State → Bool × State
unfolding close_memory
map_memory is_server c go s =
    if not c.truncates
    then (false, closed s)
    else if not c.maps
    then (false, closed s)
    else go (record s { process = record (s.process) { view = true; memory_mapped = true } })
  where
    closed : State → State
    closed t = record {
      names = if is_server then record (t.names) { memory = false } else t.names;
      process = close_memory t.process;
    }

unfoldable pub initialize_as_server : ℕ → Calls → State → Bool × State
unfolding map_memory make_fifos
initialize_as_server size c s =
    if leb size (2 * (max_path + 9))
    then (false, s)
    else if not c.shm_opens
    then (false, s)
    else map_memory true c (make_fifos c) (record {
      names = record (s.names) { memory = true };
      process = record (s.process) { fd_shared_mem = true; memory_open = true };
    })

unfoldable pub initialize_as_client : Calls → State → Bool × State
unfolding map_memory open_fifos
initialize_as_client c s =
    if not c.shm_opens
    then (false, s)
    else map_memory false c (open_fifos false c)
        (record s { process = record (s.process) { fd_shared_mem = true; memory_open = true } })

-- `unlink(m_pView + …); unlink(m_pView); munmap(…)`: the names of the pipes stand in the memory.
-- Where it is no longer mapped, `unlink` fails with EFAULT, and `munmap` has nothing to do.
unfoldable pub release_view : State → State
unfolding unmap
release_view s =
    if s.process.view
    then record {
      names =
          if s.process.memory_mapped
          then record (s.names) { client_fifo = false; server_fifo = false }
          else s.names;
      process = unmap s.process;
    }
    else s

-- The descriptor is closed, and the name is unlinked in every case.
unfoldable pub release_memory : State → State
unfolding close_memory
release_memory s = record {
  names = record (s.names) { memory = false };
  process = if s.process.fd_shared_mem then close_memory s.process else s.process;
}

-- The destructor.
unfoldable pub destruct : State → State
unfolding close_client close_server release_view release_memory
destruct s =
    release_memory (release_view (record s { process = client_closed (server_closed s.process) }))
  where
    server_closed : Process → Process
    server_closed p = if p.fd_server then close_server p else p

    client_closed : Process → Process
    client_closed p = if p.fd_client then close_client p else p
