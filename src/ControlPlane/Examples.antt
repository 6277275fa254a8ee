-- ===== src/ControlPlane/Examples.antt =====
-- The control plane's theorems at concrete data: one device with one pending command.
use Prim.Native.Nat.{◌/◌, ◌%◌}
use Prim.Native.String.{slice, ◌++◌ as ◌++ₛ◌}
use mobile_proxy.Base.{
  ℕ, ◌+◌, String, string_eq, nat_eq, true, none, List, [], ◌∷◌, ◌≡◌, ◌≢◌, ◌↔◌, refl, arith,
  try_fold, filter, any, lookup, insert, remove, ok, err,
}
use mobile_proxy.Foundation.Digests.{Blake3, digest_text, derive, frame, as_bytes, to_be_bytes}
use mobile_proxy.ProxyCore.Commands.{
  healthy_serving, degraded_safe, RecoveryIntent, IssueCommandRequest, DeviceCommand,
}
use mobile_proxy.ProxyCore.Records.{RegisterDeviceRequest}
use mobile_proxy.ControlPlane.Application.{
  IssueCommandInput, IssueCommandOutcome, IssueCommandError, PollCommandOutcome, classify_existing,
  request_for, IsCollisionFree, idempotency_conflict, idempotency_scope_key,
}
use mobile_proxy.ControlPlane.Application.Laws.{IsRequest, classify_existing_iff}
use mobile_proxy.ControlPlane.State.{AppState, CommandState, Store, register_device}
use mobile_proxy.ControlPlane.Trimming.{
  trim_idempotency_state, trim_loop, queued_commands, command_is_pending, legacy_scope,
  pending_command_count,
}
use mobile_proxy.ControlPlane.Trimming.Bounds.{held, trim_idempotency_state-ok}
use mobile_proxy.ControlPlane.Normalize.{
  normalize_command_state, no_migration, has_changed, canonicalize_results, recover_queues,
  recover_results, canonicalize_entry, recover_queued, recover_legacy_claim, recover_result,
  canonicalize_claim, rebuild_order, normalized_order, keep_order, sort, keys, finish_normalization,
}
use mobile_proxy.ControlPlane.Commands.{
  Fresh, issue_command, poll_command, rotation_blocked, queue_full, update_device,
}
use mobile_proxy.ControlPlane.Commands.Duplicates.{IsQueued, issue_command-while_pending}
use mobile_proxy.ControlPlane.Commands.View.{view}
use mobile_proxy.ControlPlane.Commands.Fifo.{queues-refine}
use mobile_proxy.ControlPlane.Invariant.{HasDevices, HasCommands}
use mobile_proxy.ControlPlane.Reach.{IsSound, begins, steps, registers, Reach-IsSound}
use mobile_proxy.ControlPlane.Persisted.{IsPersisted, transactions-IsPersisted}

abbrev hex_digit : ℕ → String
hex_digit n = slice "0123456789abcdef" n (n + 1)

abbrev hex : List ℕ → String
hex [] = ""
hex (byte ∷ bytes) = hex_digit (byte / 16) ++ₛ (hex_digit (byte % 16) ++ₛ hex bytes)

-- A hash that gives back its input, and so does not collide.
abbrev plain_hash : Blake3
plain_hash = record { hash = λ domain bytes. bytes; to_hex = hex; from_hex = λ text. none }

plain_hash-IsCollisionFree : IsCollisionFree plain_hash
unfolding IsCollisionFree
plain_hash-IsCollisionFree domain x y h = h

abbrev accepts : Store
accepts before candidate = true

abbrev first_request : IssueCommandRequest
first_request = record {
  desired_state = healthy_serving;
  recovery_intent = RecoveryIntent.none;
  deadline_secs = 30;
  idempotency_key = "k1";
}

abbrev other_request : IssueCommandRequest
other_request = record first_request { desired_state = degraded_safe }

abbrev first_input : IssueCommandInput
first_input = record { device_id = "d"; request = first_request }

abbrev draws : Fresh
draws = record { command_id = 7; now = "100" }

abbrev registration : RegisterDeviceRequest
registration = record {
  node_id = "d";
  node_name = "device";
  proxy_status = "up";
  tunnel_owner = none;
}

abbrev no_commands : CommandState
no_commands = record {
  queues = [];
  idempotency = [];
  idempotency_results = [];
  idempotency_order = [];
}

abbrev empty_state : AppState
empty_state = record { devices = []; commands = no_commands }

abbrev command : DeviceCommand
command = record {
  command_id = 7;
  device_id = "d";
  desired_state = healthy_serving;
  recovery_intent = RecoveryIntent.none;
  deadline_secs = 30;
  idempotency_key = "k1";
  issued_at = "100";
}

abbrev scope : String
scope = "b3:00000000000000016400000000000000026b31"

abbrev pending_commands : CommandState
pending_commands = record {
  queues = ("d", command ∷ []) ∷ [];
  idempotency = ("d:k1", 7) ∷ [];
  idempotency_results = (scope, command) ∷ [];
  idempotency_order = scope ∷ [];
}

abbrev pending_state : AppState
pending_state = record { devices = []; commands = pending_commands }

first_fits : IsRequest "d" first_request
unfolding IsRequest as_bytes
first_fits = (omega arith, omega arith)

other_fits : IsRequest "d" other_request
unfolding IsRequest as_bytes
other_fits = (omega arith, omega arith)

classify_existing_iff_example :
    ((classify_existing plain_hash command "d" other_request ≡ ok command)
      ↔ ((command.device_id ≡ first_input.device_id) × (request_for command ≡ other_request)))
    × (classify_existing plain_hash command "d" other_request ≢ ok command
        → classify_existing plain_hash command "d" other_request ≡ err idempotency_conflict)
classify_existing_iff_example =
    classify_existing_iff plain_hash command "d" other_request plain_hash-IsCollisionFree first_fits
      other_fits

pending_normal :
    normalize_command_state plain_hash pending_commands ≡ ok (pending_commands, no_migration)
unfolding normalize_command_state canonicalize_results recover_queues recover_results try_fold
    canonicalize_entry recover_queued recover_legacy_claim recover_result canonicalize_claim
    queued_commands rebuild_order normalized_order keep_order sort keys filter any
    finish_normalization trim_idempotency_state trim_loop lookup digest_text idempotency_scope_key
    derive frame as_bytes to_be_bytes legacy_scope
pending_normal = refl

waits : IsQueued pending_state command
unfolding lookup
waits = record { before = []; after = []; queued = refl }

issue_command-while_pending_example :
    issue_command plain_hash accepts pending_state first_input draws
    ≡ (pending_state, ok (IssueCommandOutcome.exact_duplicate command))
unfolding has_changed
issue_command-while_pending_example =
    (issue_command-while_pending plain_hash accepts pending_state first_input draws command
        pending_commands no_migration plain_hash-IsCollisionFree first_fits first_fits waits
        pending_normal refl refl).0
      refl

trim_idempotency_state-ok_example :
    (t : CommandState × ℕ) × (trim_idempotency_state pending_commands ≡ ok t)
unfolding held filter lookup command_is_pending any
trim_idempotency_state-ok_example = (trim_idempotency_state-ok pending_commands).0 (omega arith)

queues-refine_example :
    (poll_command pending_state "d" ≡ ok PollCommandOutcome.empty) ↔ (view pending_state "d" ≡ [])
queues-refine_example = (queues-refine plain_hash accepts pending_state "d").2

empty_state-IsSound : IsSound empty_state
unfolding IsSound HasDevices HasCommands pending_command_count
empty_state-IsSound = ((omega arith, tt), (omega arith, tt, omega arith))

Reach-IsSound_example : IsSound (register_device accepts empty_state registration "99").0
Reach-IsSound_example =
    Reach-IsSound plain_hash empty_state (register_device accepts empty_state registration "99").0
      (steps empty_state _ begins (registers accepts empty_state registration "99"))
      empty_state-IsSound

transactions-IsPersisted_example :
    IsPersisted accepts empty_state (register_device accepts empty_state registration "99")
transactions-IsPersisted_example =
    (transactions-IsPersisted plain_hash accepts empty_state).0 registration "99"

-- A pending command of the device `a` with the key `b:c` makes a first request of the device `a:b` with
-- the key `c` a conflict, since their old scopes are the same text.
abbrev named_state : AppState
named_state =
    (issue_command plain_hash accepts empty_state
      (record { device_id = "a"; request = record first_request { idempotency_key = "b:c" } })
      draws).0

old_scopes_collide :
    (issue_command plain_hash accepts named_state
      (record { device_id = "a:b"; request = record first_request { idempotency_key = "c" } })
      draws).1
    ≡ err IssueCommandError.idempotency_conflict
unfolding issue_command normalize_command_state canonicalize_results recover_queues recover_results
    try_fold canonicalize_entry recover_queued recover_legacy_claim recover_result
    canonicalize_claim queued_commands rebuild_order normalized_order keep_order sort keys filter
    any finish_normalization trim_idempotency_state trim_loop lookup digest_text
    idempotency_scope_key derive frame as_bytes to_be_bytes legacy_scope rotation_blocked queue_full
    update_device pending_command_count insert remove
old_scopes_collide = refl
