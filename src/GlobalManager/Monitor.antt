-- ===== src/GlobalManager/Monitor.antt =====
-- core/GlobalManager/LMMonitorWorker: the loop that runs the commands of the user and asks every
-- registered local manager for its status.
pub mod Rounds
use fluffi.Base.{
  if◌then◌else◌, ℕ, Bool, true, false, ltb, Option, none, some, List, [], ◌∷◌, ◌++◌, ◌+◌, Text,
  codes, text_eq,
}

-- What comes back for a KillInstanceRequest.
pub data KillReply : Type 0 where
  no_kill_reply other_kill_reply kill_response : KillReply

-- What comes back for a GetStatusRequest: the status and the log messages.
pub data StatusReply : Type 0 where
  no_status_reply other_status_reply : StatusReply
  status_response : Text → List Text → StatusReply

-- The operations of GMDatabaseManager that the worker calls and that change the database; their
-- results are not looked at.
pub data Event : Type 0 where
  set_command_as_done : ℕ → Text → Event
  delete_done_commands_older_than delete_lm_status_older_than delete_workers_not_seen_since :
      ℕ → Event
  delete_log_messages_if_more_than delete_log_messages_older_than : ℕ → Event
  remove_managed_lm : Text → Event
  add_managed_lm_status : Text → Text → Event
  add_managed_lm_log_messages : Text → List Text → Event

-- The network of the worker in one round, in which who is asked the same twice answers the same: local
-- managers are named by host and port.
pub record Peers : Type 0 where
  pub kill : Text → KillReply
  pub status : Text → StatusReply

unfoldable pub kill_succeeds : KillReply → Bool
kill_succeeds no_kill_reply = false
kill_succeeds other_kill_reply = false
kill_succeeds kill_response = true

unfoldable pub command_handler : Peers → Text → Text → Bool
unfolding kill_succeeds
command_handler peers command argument =
    if text_eq command (codes "kill") then kill_succeeds (peers.kill argument) else false

-- A command: its identifier, its name and its argument.
abbrev pub Command : Type 0
Command = ℕ × (Text × Text)

unfoldable pub run_commands : Peers → List Command → List Event
unfolding command_handler
run_commands peers [] = []
run_commands peers ((id, (command, argument)) ∷ commands) =
    set_command_as_done id
      (if command_handler peers command argument then [] else codes "Could not perform command")
    ∷ run_commands peers commands

abbrev pub clean_database : List Event
clean_database =
    delete_done_commands_older_than 1800
    ∷ (delete_lm_status_older_than 180
        ∷ (delete_workers_not_seen_since 60
            ∷ (delete_log_messages_if_more_than 1000
                ∷ (delete_log_messages_older_than 604800 ∷ []))))

unfoldable pub take_status : Text → StatusReply → List Event
take_status guid no_status_reply = remove_managed_lm guid ∷ []
take_status guid other_status_reply = []
take_status guid (status_response status messages) =
    add_managed_lm_status guid status ∷ (add_managed_lm_log_messages guid messages ∷ [])

-- The registered local managers, each with its host and port.
unfoldable pub ask_statuses : Peers → List (Text × Text) → List Event
unfolding take_status
ask_statuses peers [] = []
ask_statuses peers ((guid, hap) ∷ lms) =
    take_status guid (peers.status hap) ++ ask_statuses peers lms

-- A round: the local managers are read after the commands and the cleaning.
unfoldable pub monitor_round : Peers → List Command → (List Event → List (Text × Text)) → List Event
unfolding run_commands ask_statuses
monitor_round peers commands registered =
    let before = run_commands peers commands ++ clean_database in
    before ++ ask_statuses peers (registered before)

-- A turn of the loop: the milliseconds waited then, and the operations of a round that is due.
unfoldable monitor_turn :
    ℕ → ℕ → Peers → List Command → (List Event → List (Text × Text)) → ℕ × List Event
unfolding monitor_round
monitor_turn interval waited peers commands registered =
    if ltb waited interval then (waited + 500, []) else (0, monitor_round peers commands registered)
