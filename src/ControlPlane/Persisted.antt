-- ===== src/ControlPlane/Persisted.antt =====
-- services/control-plane/src/state.rs: no transaction changes the state before the store has it.
use mobile_proxy.Base.{
  ℕ, String, string_eq, nat_eq, Bool, true, false, not, ◌||◌, Option, none, some, List, ◌≡◌, refl,
  lookup, ◌==◌, if◌then◌else◌, leb, length, is_some, Bool-cases, inl, inr, ◌⊎◌, Result, ok, err,
  contains_key,
}
use mobile_proxy.Foundation.Digests.{Blake3}
use mobile_proxy.ProxyCore.Commands.{DeviceCommand}
use mobile_proxy.ProxyCore.Records.{DeviceRecord, RegisterDeviceRequest, HeartbeatRequest}
use mobile_proxy.ControlPlane.Application.{
  PublicProbeInput, IssueCommandInput, IssueCommandError, AcknowledgeCommandInput,
  classify_existing, max_registered_devices,
}
use mobile_proxy.ControlPlane.Projection.{build_registered_device, apply_public_probe}
use mobile_proxy.ControlPlane.State.{
  AppState, CommandState, Store, commit, register_device, heartbeat, public_probe,
  register_existing, heartbeat_existing, record_heartbeat, probe_existing,
}
use mobile_proxy.ControlPlane.Trimming.{scope_text, legacy_scope}
use mobile_proxy.ControlPlane.Normalize.{Migrating, has_changed, normalize_command_state}
use mobile_proxy.ControlPlane.Commands.{
  Fresh, issue_command, issue_scoped, issue_normalized, issue_trimmed, answer_existing,
  rotation_blocked, queue_full, new_command, acknowledge_command, acknowledge_queue,
  acknowledge_found,
}

abbrev is_ok : {E A : Type 0} → Result E A → Bool
is_ok (ok _) = true
is_ok (err _) = false

-- The state stays, or the store has taken the new one in its place and the call succeeds.
unfoldable pub IsPersisted : {E A : Type 0} → Store → AppState → AppState × Result E A → Type 0
IsPersisted store state (after, answer) =
    (after ≡ state) ⊎ ((store state after ≡ true) × (is_ok answer ≡ true))

commit-IsPersisted :
    {E A : Type 0} (store : Store) (state candidate : AppState) (failure : E) (outcome : A)
    → IsPersisted store state (commit store state candidate failure outcome)
unfolding IsPersisted
commit-IsPersisted store state candidate failure outcome =
    elim (Bool-cases (store state candidate)) [
      | inl swapped ↦ rw swapped (inr (swapped, refl))
      | inr stale ↦ rw stale (inl refl)
    ]

-- A test decides between an error and a call that is persisted.
guarded :
    {E A : Type 0} (store : Store) (state : AppState) (test : Bool) (answer : Result E A)
    (other : AppState × Result E A)
    → IsPersisted store state other
    → IsPersisted store state (if test then (state, answer) else other)
unfolding IsPersisted
guarded store state true answer other h = inl refl
guarded store state false answer other h = h

unchanged :
    {E A : Type 0} (store : Store) (state : AppState) (answer : Result E A)
    → IsPersisted store state (state, answer)
unfolding IsPersisted
unchanged store state answer = inl refl

register_existing-IsPersisted :
    (store : Store) (state : AppState) (request : RegisterDeviceRequest) (now : String)
    (found : Option DeviceRecord)
    → IsPersisted store state (register_existing store state request now found)
register_existing-IsPersisted store state request now (some existing) =
    guarded store state (not (existing.node_id == request.node_id)) _ _
      (commit-IsPersisted store state state _ _)
register_existing-IsPersisted store state request now none =
    guarded store state (leb max_registered_devices (length state.devices)) _ _ (
      guarded store state
        (is_some (lookup (build_registered_device request now).node_id state.devices)) _ _
        (commit-IsPersisted store state _ _ _))

record_heartbeat-IsPersisted :
    (store : Store) (state : AppState) (request : HeartbeatRequest) (device : DeviceRecord)
    → IsPersisted store state (record_heartbeat store state request device)
record_heartbeat-IsPersisted store state request device =
    guarded store state (not (device.node_id == request.node_id)) _ _
      (commit-IsPersisted store state _ _ _)

heartbeat_existing-IsPersisted :
    (store : Store) (state : AppState) (request : HeartbeatRequest) (now : String)
    (found : Option DeviceRecord)
    → IsPersisted store state (heartbeat_existing store state request now found)
heartbeat_existing-IsPersisted store state request now (some existing) =
    guarded store state (not (existing.node_id == request.node_id)) _ _
      (record_heartbeat-IsPersisted store state request _)
heartbeat_existing-IsPersisted store state request now none =
    guarded store state (leb max_registered_devices (length state.devices)) _ _
      (record_heartbeat-IsPersisted store state request _)

probe_existing-IsPersisted :
    (store : Store) (state : AppState) (input : PublicProbeInput) (probed now : String)
    (found : Option DeviceRecord)
    → IsPersisted store state (probe_existing store state input probed now found)
probe_existing-IsPersisted store state input probed now none = unchanged store state _
probe_existing-IsPersisted store state input probed now (some existing) =
    let device = apply_public_probe existing input.report probed now in
    guarded store state (not (existing.node_id == input.device_id)) _ _ (
      guarded store state (not (device.node_id == input.device_id)) _ _
        (commit-IsPersisted store state _ _ _))

answer_existing-IsPersisted :
    (store : Store) (state : AppState) (migrating : Migrating)
    (r : Result IssueCommandError DeviceCommand)
    → IsPersisted store state (answer_existing store state migrating r)
answer_existing-IsPersisted store state (commands, migration) (err e) = unchanged store state _
answer_existing-IsPersisted store state (commands, migration) (ok original) =
    elim (Bool-cases (has_changed migration)) [
      | inl changed ↦
          rw changed (commit-IsPersisted store state (record state { commands = commands }) _ _)
      | inr same ↦ rw same (unchanged store state _)
    ]

issue_trimmed-IsPersisted :
    (store : Store) (state : AppState) (new : DeviceCommand) (r : Result Unit (CommandState × ℕ))
    → IsPersisted store state (issue_trimmed store state new r)
issue_trimmed-IsPersisted store state new (err e) = unchanged store state _
issue_trimmed-IsPersisted store state new (ok (trimmed, evicted)) =
    commit-IsPersisted store state _ _ _

issue_scoped-IsPersisted :
    (b : Blake3) (store : Store) (state : AppState) (input : IssueCommandInput) (fresh : Fresh)
    (migrating : Migrating) (found : Option DeviceCommand)
    → IsPersisted store state (issue_scoped b store state input fresh migrating found)
issue_scoped-IsPersisted b store state input fresh migrating (some existing) =
    answer_existing-IsPersisted store state migrating
      (classify_existing b existing input.device_id input.request)
issue_scoped-IsPersisted b store state input fresh (normal, migration) none =
    let scope = scope_text b input.device_id input.request.idempotency_key in
    let legacy = legacy_scope input.device_id input.request.idempotency_key in
    guarded store state
      (contains_key scope normal.idempotency || contains_key legacy normal.idempotency) _ _
      (guarded store state (rotation_blocked state normal input) _ _ (
        guarded store state (queue_full normal input.device_id) _ _
          (issue_trimmed-IsPersisted store state (new_command input fresh) _)))

issue_normalized-IsPersisted :
    (b : Blake3) (store : Store) (state : AppState) (input : IssueCommandInput) (fresh : Fresh)
    (r : Result Unit Migrating)
    → IsPersisted store state (issue_normalized b store state input fresh r)
issue_normalized-IsPersisted b store state input fresh (err e) = unchanged store state _
issue_normalized-IsPersisted b store state input fresh (ok migrating) =
    issue_scoped-IsPersisted b store state input fresh migrating _

acknowledge_found-IsPersisted :
    (store : Store) (state : AppState) (device_id now : String)
    (found : Option (DeviceCommand × List DeviceCommand))
    → IsPersisted store state (acknowledge_found store state device_id now found)
acknowledge_found-IsPersisted store state device_id now none = unchanged store state _
acknowledge_found-IsPersisted store state device_id now (some (command, queue)) =
    guarded store state (not (command.device_id == device_id)) _ _
      (commit-IsPersisted store state _ _ _)

acknowledge_queue-IsPersisted :
    (store : Store) (state : AppState) (input : AcknowledgeCommandInput) (now : String)
    (queue : Option (List DeviceCommand))
    → IsPersisted store state (acknowledge_queue store state input now queue)
acknowledge_queue-IsPersisted store state input now none = unchanged store state _
acknowledge_queue-IsPersisted store state input now (some queue) =
    acknowledge_found-IsPersisted store state input.device_id now _

-- Each of the five transactions leaves the state as it was, or the store has swapped it for the new
-- state and the call succeeds: a call that fails changes nothing, and neither does any call while
-- the store refuses.
pub transactions-IsPersisted :
    (b : Blake3) (store : Store) (state : AppState)
    → ((request : RegisterDeviceRequest) (now : String)
        → IsPersisted store state (register_device store state request now))
      × ((request : HeartbeatRequest) (now : String)
          → IsPersisted store state (heartbeat store state request now))
      × ((input : PublicProbeInput) (probed now : String)
          → IsPersisted store state (public_probe store state input probed now))
      × ((input : IssueCommandInput) (fresh : Fresh)
          → IsPersisted store state (issue_command b store state input fresh))
      × ((input : AcknowledgeCommandInput) (now : String)
          → IsPersisted store state (acknowledge_command store state input now))
unfolding register_device heartbeat public_probe issue_command acknowledge_command
transactions-IsPersisted b store state = (
  λ request now.
      register_existing-IsPersisted store state request now (lookup request.node_id state.devices),
  λ request now.
      heartbeat_existing-IsPersisted store state request now (lookup request.node_id state.devices),
  λ input probed now.
      probe_existing-IsPersisted store state input probed now
        (lookup input.device_id state.devices),
  λ input fresh.
      issue_normalized-IsPersisted b store state input fresh
        (normalize_command_state b state.commands),
  λ input now. guarded store state (not input.request.ok) _ _ (
      acknowledge_queue-IsPersisted store state input now
        (lookup input.device_id state.commands.queues)),
)
