-- ===== src/SharedMem/Windows.antt =====
-- core/SharedMemIPC/SharedMemIPC.cpp on Windows: set-up and tear-down of the file mapping and of the
-- two events. The results of the system calls are arguments.
pub mod Release
use fluffi.Base.{ℕ, ◌+◌, ◌*◌, Bool, true, false, not, leb, if◌then◌else◌}
use fluffi.SharedMem.Channel.{max_path}

-- The fields of the object, where `true` is a value other than NULL, and what the process holds.
pub record Process : Type 0 where
  pub map_file : Bool
  pub view : Bool
  pub event_for_client : Bool
  pub event_for_server : Bool
  pub mapping_held : Bool
  pub view_held : Bool
  pub client_event_held : Bool
  pub server_event_held : Bool

pub record Calls : Type 0 where
  pub opens_mapping : Bool
  pub maps_view : Bool
  pub opens_client_event : Bool
  pub opens_server_event : Bool

abbrev pub new_process : Process
new_process = record {
  map_file = false;
  view = false;
  event_for_client = false;
  event_for_server = false;
  mapping_held = false;
  view_held = false;
  client_event_held = false;
  server_event_held = false;
}

unfoldable pub close_mapping : Process → Process
close_mapping p = record p { map_file = false; mapping_held = false }

unfoldable pub unmap_view : Process → Process
unmap_view p = record p { view = false; view_held = false }

unfoldable pub close_client_event : Process → Process
close_client_event p = record p { event_for_client = false; client_event_held = false }

unfoldable pub close_server_event : Process → Process
close_server_event p = record p { event_for_server = false; server_event_held = false }

-- The view and the events, once the mapping is there.
unfoldable pub open_view_and_events : Calls → Process → Bool × Process
unfolding close_mapping unmap_view close_client_event
open_view_and_events c p =
    let mapped = record p { view = true; view_held = true } in
    let signalled = record mapped { event_for_client = true; client_event_held = true } in
    if not c.maps_view
    then (false, close_mapping p)
    else if not c.opens_client_event
    then (false, close_mapping (unmap_view mapped))
    else if not c.opens_server_event
    then (false, close_mapping (unmap_view (close_client_event signalled)))
    else (true, record signalled { event_for_server = true; server_event_held = true })

-- CreateFileMapping, MapViewOfFile and two calls of CreateEvent.
unfoldable pub initialize_as_server : ℕ → Calls → Process → Bool × Process
unfolding open_view_and_events
initialize_as_server size c p =
    if leb size (2 * (max_path + 9))
    then (false, p)
    else if not c.opens_mapping
    then (false, p)
    else open_view_and_events c (record p { map_file = true; mapping_held = true })

-- OpenFileMapping, MapViewOfFile and two calls of OpenEvent.
unfoldable pub initialize_as_client : Calls → Process → Bool × Process
unfolding open_view_and_events
initialize_as_client c p =
    if not c.opens_mapping
    then (false, p)
    else open_view_and_events c (record p { map_file = true; mapping_held = true })

-- The destructor.
unfoldable pub destruct : Process → Process
unfolding close_mapping unmap_view close_client_event close_server_event
destruct p =
    mapping_closed
      (view_unmapped (client_closed (if p.event_for_server then close_server_event p else p)))
  where
    client_closed : Process → Process
    client_closed q = if q.event_for_client then close_client_event q else q

    view_unmapped : Process → Process
    view_unmapped q = if q.view then unmap_view q else q

    mapping_closed : Process → Process
    mapping_closed q = if q.map_file then close_mapping q else q
