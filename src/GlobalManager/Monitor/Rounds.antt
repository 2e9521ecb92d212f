-- ===== src/GlobalManager/Monitor/Rounds.antt =====
-- What a round of the monitor leaves in the database.
use fluffi.Base.{
  ◌≡◌, refl, sym, ap, ◌∙◌, ℕ, Bool, true, false, if◌then◌else◌, List, [], ◌∷◌, ◌++◌, Text, codes,
  ◌&&◌, append_assoc, append-nil, text_eq, Bool-cases, inl, inr,
}
use fluffi.GlobalManager.Monitor.{
  Peers, StatusReply, no_status_reply, other_status_reply, status_response, Event,
  set_command_as_done, delete_done_commands_older_than, delete_lm_status_older_than,
  delete_workers_not_seen_since, delete_log_messages_if_more_than, delete_log_messages_older_than,
  remove_managed_lm, add_managed_lm_status, add_managed_lm_log_messages, Command, command_handler,
  kill_succeeds, run_commands, clean_database, take_status, ask_statuses, monitor_round,
}

-- The local manager that an operation removes.
unfoldable pub removed : Event → List Text
removed (set_command_as_done i t) = []
removed (delete_done_commands_older_than n) = []
removed (delete_lm_status_older_than n) = []
removed (delete_workers_not_seen_since n) = []
removed (delete_log_messages_if_more_than n) = []
removed (delete_log_messages_older_than n) = []
removed (remove_managed_lm g) = g ∷ []
removed (add_managed_lm_status g s) = []
removed (add_managed_lm_log_messages g m) = []

-- The local manager of which an operation stores a status.
unfoldable pub reported : Event → List Text
reported (set_command_as_done i t) = []
reported (delete_done_commands_older_than n) = []
reported (delete_lm_status_older_than n) = []
reported (delete_workers_not_seen_since n) = []
reported (delete_log_messages_if_more_than n) = []
reported (delete_log_messages_older_than n) = []
reported (remove_managed_lm g) = []
reported (add_managed_lm_status g s) = g ∷ []
reported (add_managed_lm_log_messages g m) = []

-- The command that an operation settles, with its error text.
unfoldable pub settled : Event → List (ℕ × Text)
settled (set_command_as_done i t) = (i, t) ∷ []
settled (delete_done_commands_older_than n) = []
settled (delete_lm_status_older_than n) = []
settled (delete_workers_not_seen_since n) = []
settled (delete_log_messages_if_more_than n) = []
settled (delete_log_messages_older_than n) = []
settled (remove_managed_lm g) = []
settled (add_managed_lm_status g s) = []
settled (add_managed_lm_log_messages g m) = []

-- What the operations of a list give together.
unfoldable pub collect : {A : Type 0} → (Event → List A) → List Event → List A
collect f [] = []
collect f (e ∷ events) = f e ++ collect f events

unfoldable pub is_silent : StatusReply → Bool
is_silent no_status_reply = true
is_silent other_status_reply = false
is_silent (status_response s m) = false

unfoldable pub has_status : StatusReply → Bool
has_status no_status_reply = false
has_status other_status_reply = false
has_status (status_response s m) = true

-- The names of the local managers whose reply passes a test, in their order.
unfoldable pub replying : (StatusReply → Bool) → Peers → List (Text × Text) → List Text
replying test peers [] = []
replying test peers ((guid, hap) ∷ lms) =
    let later = replying test peers lms in if test (peers.status hap) then guid ∷ later else later

-- Each command with the text that it is to be settled with.
unfoldable pub verdicts : Peers → List Command → List (ℕ × Text)
verdicts peers [] = []
verdicts peers ((id, (command, argument)) ∷ commands) =
    let later = verdicts peers commands in
    if text_eq command (codes "kill") && kill_succeeds (peers.kill argument)
    then (id, []) ∷ later
    else (id, codes "Could not perform command") ∷ later

collect-append :
    {A : Type 0} (f : Event → List A) (a b : List Event)
    → collect f (a ++ b) ≡ collect f a ++ collect f b
unfolding collect
collect-append f [] b = refl
collect-append f (e ∷ a) b =
    ap (λ l. f e ++ l) (collect-append f a b) ∙ sym (append_assoc (f e) (collect f a) (collect f b))

take_status-removed :
    (guid : Text) (r : StatusReply) (later : List Text)
    → collect removed (take_status guid r) ++ later ≡ (if is_silent r then guid ∷ later else later)
unfolding take_status is_silent collect removed
take_status-removed guid no_status_reply later = refl
take_status-removed guid other_status_reply later = refl
take_status-removed guid (status_response s m) later = refl

take_status-reported :
    (guid : Text) (r : StatusReply) (later : List Text)
    → collect reported (take_status guid r) ++ later
      ≡ (if has_status r then guid ∷ later else later)
unfolding take_status has_status collect reported
take_status-reported guid no_status_reply later = refl
take_status-reported guid other_status_reply later = refl
take_status-reported guid (status_response s m) later = refl

take_status-settled : (guid : Text) (r : StatusReply) → collect settled (take_status guid r) ≡ []
unfolding take_status collect settled
take_status-settled guid no_status_reply = refl
take_status-settled guid other_status_reply = refl
take_status-settled guid (status_response s m) = refl

ask_statuses-replying :
    (peers : Peers) (lms : List (Text × Text)) (f : Event → List Text) (test : StatusReply → Bool)
    → ((guid : Text) (r : StatusReply) (later : List Text)
        → collect f (take_status guid r) ++ later ≡ (if test r then guid ∷ later else later))
    → collect f (ask_statuses peers lms) ≡ replying test peers lms
unfolding ask_statuses replying collect
ask_statuses-replying peers [] f test one = refl
ask_statuses-replying peers ((guid, hap) ∷ lms) f test one =
    collect-append f (take_status guid (peers.status hap)) (ask_statuses peers lms)
    ∙ ap (λ l. collect f (take_status guid (peers.status hap)) ++ l)
        (ask_statuses-replying peers lms f test one)
    ∙ one guid (peers.status hap) (replying test peers lms)

ask_statuses-settled :
    (peers : Peers) (lms : List (Text × Text)) → collect settled (ask_statuses peers lms) ≡ []
unfolding ask_statuses collect
ask_statuses-settled peers [] = refl
ask_statuses-settled peers ((guid, hap) ∷ lms) =
    collect-append settled (take_status guid (peers.status hap)) (ask_statuses peers lms)
    ∙ rw (take_status-settled guid (peers.status hap)) (ask_statuses-settled peers lms)

run_commands-settled :
    (peers : Peers) (commands : List Command)
    → collect settled (run_commands peers commands) ≡ verdicts peers commands
unfolding run_commands command_handler verdicts collect settled
run_commands-settled peers [] = refl
run_commands-settled peers ((id, (command, argument)) ∷ commands) =
    elim (Bool-cases (text_eq command (codes "kill"))) [
      | inl k ↦ elim (Bool-cases (kill_succeeds (peers.kill argument))) [
        | inl e ↦ rw (k, e) (ap (λ l. (id, []) ∷ l) (run_commands-settled peers commands))
        | inr e ↦
            rw (k, e)
              (ap (λ l. (id, codes "Could not perform command") ∷ l)
                (run_commands-settled peers commands))
      ]
      | inr k ↦ rw k (
          ap (λ l. (id, codes "Could not perform command") ∷ l)
            (run_commands-settled peers commands))
    ]

run_commands_else :
    (peers : Peers) (commands : List Command) (f : Event → List Text)
    → ((i : ℕ) (t : Text) → f (set_command_as_done i t) ≡ [])
    → collect f (run_commands peers commands) ≡ []
unfolding run_commands collect
run_commands_else peers [] f none_of = refl
run_commands_else peers ((id, (command, argument)) ∷ commands) f none_of =
    rw (none_of id _) (run_commands_else peers commands f none_of)

-- What stands in the database of the global manager when the local managers are read.
abbrev pub prepared : Peers → List Command → List Event
prepared peers commands = run_commands peers commands ++ clean_database

collect-round :
    {A : Type 0} (f : Event → List A) (peers : Peers) (commands : List Command)
    (registered : List Event → List (Text × Text))
    → collect f clean_database ≡ []
    → collect f (monitor_round peers commands registered)
      ≡ collect f (run_commands peers commands)
        ++ collect f (ask_statuses peers (registered (prepared peers commands)))
unfolding monitor_round
collect-round f peers commands registered clean =
    collect-append f (prepared peers commands)
      (ask_statuses peers (registered (prepared peers commands)))
    ∙ ap (λ l. l ++ collect f (ask_statuses peers (registered (prepared peers commands))))
        (collect-append f (run_commands peers commands) clean_database
          ∙ ap (λ l. collect f (run_commands peers commands) ++ l) clean
          ∙ append-nil (collect f (run_commands peers commands)))

-- A round removes exactly the registered local managers that do not reply, stores a status of exactly
-- those that reply with one, and settles every new command once, in order, without an error text
-- exactly where it is a kill that the receiver acknowledges.
pub monitor_round-settles :
    (peers : Peers) (commands : List Command) (registered : List Event → List (Text × Text))
    → let lms = registered (prepared peers commands) in
      (collect removed (monitor_round peers commands registered) ≡ replying is_silent peers lms)
      × (collect reported (monitor_round peers commands registered) ≡ replying has_status peers lms)
      × (collect settled (monitor_round peers commands registered) ≡ verdicts peers commands)
unfolding collect removed reported settled
monitor_round-settles peers commands registered =
    let lms = registered (prepared peers commands) in
    (
      collect-round removed peers commands registered refl
          ∙ rw (run_commands_else peers commands removed (λ i t. refl))
              (ask_statuses-replying peers lms removed is_silent take_status-removed),
      collect-round reported peers commands registered refl
          ∙ rw (run_commands_else peers commands reported (λ i t. refl))
              (ask_statuses-replying peers lms reported has_status take_status-reported),
      collect-round settled peers commands registered refl
          ∙ rw (ask_statuses-settled peers lms) (
              append-nil (collect settled (run_commands peers commands))
              ∙ run_commands-settled peers commands),
    )
