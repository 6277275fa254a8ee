-- ===== src/ControlPlane/Commands.antt =====
-- services/control-plane/src/state.rs: how a command is issued, polled and acknowledged. Each
-- transaction holds both locks, so it is one function from a state to a state.
pub mod Issue
pub mod Duplicates
pub mod Quiet
pub mod View
pub mod Fifo
use mobile_proxy.Base.{
  ℕ, String, string_eq, nat_eq, Bool, true, false, not, ◌&&◌, ◌||◌, Option, none, some, List, [],
  ◌∷◌, ◌++◌, ◌==◌, leb, length, any, Map, lookup, insert, remove, contains_key, remove_first,
  is_some, is_some_and, if◌then◌else◌, Result, ok, err, ◌>>◌, fail_if,
}
use mobile_proxy.Foundation.Digests.{Blake3}
use mobile_proxy.ProxyCore.Commands.{
  RecoveryIntent, rotate_recovery, recovery_intent_eq, show_recovery_intent, show_desired_state,
  DeviceCommand,
}
use mobile_proxy.ProxyCore.Records.{DeviceRecord}
use mobile_proxy.ControlPlane.Application.{
  IssueCommandInput, IssueCommandOutcome, IssueCommandError, PollCommandOutcome, PollCommandError,
  AcknowledgeCommandInput, AcknowledgeCommandOutcome, AcknowledgeCommandError, classify_existing,
  max_command_queue_per_device, max_pending_commands,
}
use mobile_proxy.ControlPlane.State.{AppState, CommandState, Store, commit}
use mobile_proxy.ControlPlane.Trimming.{
  scope_text, legacy_scope, pending_command_count, trim_idempotency_state,
}
use mobile_proxy.ControlPlane.Normalize.{
  CommandStateMigration, has_changed, Migrating, normalize_command_state,
}

-- What the call draws: a fresh command id and the time.
pub record Fresh : Type 0 where
  pub command_id : ℕ
  pub now : String

abbrev pub Issued : Type 0
Issued = AppState × Result IssueCommandError IssueCommandOutcome

-- A device that runs a job, or has a rotation queued, takes no further rotation.
unfoldable pub rotation_blocked : AppState → CommandState → IssueCommandInput → Bool
rotation_blocked state commands input =
    (input.request.recovery_intent == rotate_recovery)
    && (is_some_and (lookup input.device_id state.devices) (λ device. is_some device.current_job)
        || is_some_and (lookup input.device_id commands.queues)
            (any (λ command. command.recovery_intent == rotate_recovery)))

unfoldable pub queue_full : CommandState → String → Bool
queue_full commands device_id =
    leb max_pending_commands (pending_command_count commands.queues)
    || is_some_and (lookup device_id commands.queues)
        (λ queue. leb max_command_queue_per_device (length queue))

abbrev pub new_command : IssueCommandInput → Fresh → DeviceCommand
new_command input fresh = record {
  command_id = fresh.command_id;
  device_id = input.device_id;
  desired_state = input.request.desired_state;
  recovery_intent = input.request.recovery_intent;
  deadline_secs = input.request.deadline_secs;
  idempotency_key = input.request.idempotency_key;
  issued_at = fresh.now;
}

-- `entry(..).or_default()`.
abbrev queue_or_empty : Option (List DeviceCommand) → List DeviceCommand
queue_or_empty none = []
queue_or_empty (some queue) = queue

abbrev pub queue_of : String → Map String (List DeviceCommand) → List DeviceCommand
queue_of device_id queues = queue_or_empty (lookup device_id queues)

-- The new command at the end of its queue, with its claim and its result.
abbrev pub enqueue : String → String → CommandState → DeviceCommand → CommandState
enqueue scope legacy commands command = record commands {
  queues =
      insert command.device_id (queue_of command.device_id commands.queues ++ command ∷ [])
        commands.queues;
  idempotency = insert legacy command.command_id commands.idempotency;
  idempotency_results = insert scope command commands.idempotency_results;
  idempotency_order = commands.idempotency_order ++ scope ∷ [];
}

-- `get_mut` of a device, and what is done to it.
abbrev pub update_found :
    String
    → (DeviceRecord → DeviceRecord)
    → Map String DeviceRecord
    → Option DeviceRecord
    → Map String DeviceRecord
update_found device_id f devices none = devices
update_found device_id f devices (some device) = insert device_id (f device) devices

unfoldable pub update_device :
    String → (DeviceRecord → DeviceRecord) → Map String DeviceRecord → Map String DeviceRecord
update_device device_id f devices = update_found device_id f devices (lookup device_id devices)

abbrev pub note_issued : DeviceCommand → DeviceRecord → DeviceRecord
note_issued command device = record device {
  desired_state = some (show_desired_state command.desired_state);
  recovery_intent = some (show_recovery_intent command.recovery_intent);
  last_event_at = some command.issued_at;
}

abbrev pub issue_trimmed :
    Store → AppState → DeviceCommand → Result Unit (CommandState × ℕ) → Issued
issue_trimmed store state command (err _) = (state, err IssueCommandError.state_conflict)
issue_trimmed store state command (ok (commands, _)) =
    commit store state
      (record {
        devices = update_device command.device_id (note_issued command) state.devices;
        commands = commands;
      })
      IssueCommandError.persistence (IssueCommandOutcome.created command)

abbrev pub answer_existing :
    Store → AppState → Migrating → Result IssueCommandError DeviceCommand → Issued
answer_existing store state (commands, migration) (err e) = (state, err e)
answer_existing store state (commands, migration) (ok original) =
    if has_changed migration
    then commit store state (record state { commands = commands }) IssueCommandError.persistence
        (IssueCommandOutcome.exact_duplicate original)
    else (state, ok (IssueCommandOutcome.exact_duplicate original))

abbrev pub issue_new : Blake3 → Store → AppState → IssueCommandInput → Fresh → CommandState → Issued
issue_new b store state input fresh commands =
    let scope = scope_text b input.device_id input.request.idempotency_key in
    let legacy = legacy_scope input.device_id input.request.idempotency_key in
    let command = new_command input fresh in
    if contains_key scope commands.idempotency || contains_key legacy commands.idempotency
    then (state, err IssueCommandError.idempotency_conflict)
    else if rotation_blocked state commands input
    then (state, err IssueCommandError.capacity_exceeded)
    else if queue_full commands input.device_id
    then (state, err IssueCommandError.capacity_exceeded)
    else issue_trimmed store state command
        (trim_idempotency_state (enqueue scope legacy commands command))

abbrev pub issue_scoped :
    Blake3
    → Store
    → AppState
    → IssueCommandInput
    → Fresh
    → Migrating
    → Option DeviceCommand
    → Issued
issue_scoped b store state input fresh migrating (some existing) =
    answer_existing store state migrating
      (classify_existing b existing input.device_id input.request)
issue_scoped b store state input fresh migrating none =
    issue_new b store state input fresh migrating.0

abbrev pub issue_normalized :
    Blake3 → Store → AppState → IssueCommandInput → Fresh → Result Unit Migrating → Issued
issue_normalized b store state input fresh (err _) = (state, err IssueCommandError.state_conflict)
issue_normalized b store state input fresh (ok migrating) =
    issue_scoped b store state input fresh migrating (
      lookup (scope_text b input.device_id input.request.idempotency_key)
        migrating.0.idempotency_results)

unfoldable pub issue_command : Blake3 → Store → AppState → IssueCommandInput → Fresh → Issued
issue_command b store state input fresh =
    issue_normalized b store state input fresh (normalize_command_state b state.commands)

abbrev pub poll_queue :
    String → Option (List DeviceCommand) → Result PollCommandError PollCommandOutcome
poll_queue device_id none = ok PollCommandOutcome.empty
poll_queue device_id (some []) = ok PollCommandOutcome.empty
poll_queue device_id (some (command ∷ _)) =
    if not (command.device_id == device_id)
    then err PollCommandError.state_conflict
    else ok (PollCommandOutcome.pending command)

unfoldable pub poll_command : AppState → String → Result PollCommandError PollCommandOutcome
poll_command state device_id = poll_queue device_id (lookup device_id state.commands.queues)

abbrev pub Acknowledged : Type 0
Acknowledged = AppState × Result AcknowledgeCommandError AcknowledgeCommandOutcome

-- An empty queue goes.
abbrev pub shorten_queue :
    String → List DeviceCommand → Map String (List DeviceCommand) → Map String (List DeviceCommand)
shorten_queue device_id [] queues = remove device_id queues
shorten_queue device_id (command ∷ queue) queues = insert device_id (command ∷ queue) queues

abbrev pub note_acknowledged : String → DeviceRecord → DeviceRecord
note_acknowledged now device = record device {
  recovery_intent = some (show_recovery_intent RecoveryIntent.none);
  last_event_at = some now;
}

abbrev pub acknowledge_found :
    Store → AppState → String → String → Option (DeviceCommand × List DeviceCommand) → Acknowledged
acknowledge_found store state device_id now none = (state, ok AcknowledgeCommandOutcome.not_found)
acknowledge_found store state device_id now (some (command, queue)) =
    if not (command.device_id == device_id)
    then (state, err AcknowledgeCommandError.state_conflict)
    else commit store state
        (record {
          devices = update_device device_id (note_acknowledged now) state.devices;
          commands = record state.commands {
            queues = shorten_queue device_id queue state.commands.queues;
          };
        })
        AcknowledgeCommandError.persistence AcknowledgeCommandOutcome.completed

abbrev pub acknowledge_queue :
    Store → AppState → AcknowledgeCommandInput → String → Option (List DeviceCommand) → Acknowledged
acknowledge_queue store state input now none = (state, ok AcknowledgeCommandOutcome.not_found)
acknowledge_queue store state input now (some queue) =
    acknowledge_found store state input.device_id now
      (remove_first (λ command. command.command_id == input.command_id) queue)

unfoldable pub acknowledge_command :
    Store → AppState → AcknowledgeCommandInput → String → Acknowledged
acknowledge_command store state input now =
    if not input.request.ok
    then (state, ok AcknowledgeCommandOutcome.retry_requested)
    else acknowledge_queue store state input now (lookup input.device_id state.commands.queues)
