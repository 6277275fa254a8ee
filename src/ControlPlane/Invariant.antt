-- ===== src/ControlPlane/Invariant.antt =====
-- services/control-plane/src/state.rs: what holds of the control plane's state at all times.
use mobile_proxy.Base.{
  ◌≤◌, ◌<◌, String, string_eq, nat_eq, true, false, Option, none, some, List, length, ◌≡◌, refl,
  arith, Map, lookup, insert, ◌==◌, ==→eq, is_some, leb, Bool-cases, Option-cases, inl, inr, ◌⊎◌,
  All, AllEntries, AllEntries-insert, length-insert_known, length-insert-le,
}
use mobile_proxy.ProxyCore.Commands.{DeviceCommand}
use mobile_proxy.ProxyCore.Records.{DeviceRecord, RegisterDeviceRequest, HeartbeatRequest}
use mobile_proxy.ControlPlane.Application.{
  max_registered_devices, max_idempotency_results, max_pending_commands,
  max_command_queue_per_device, PublicProbeInput,
}
use mobile_proxy.ControlPlane.Projection.{build_registered_device, apply_public_probe}
use mobile_proxy.ControlPlane.Projection.Laws.{
  IsProjected, build_registered_device-IsProjected, build_heartbeat_device-IsProjected,
  apply_public_probe-IsProjected,
}
use mobile_proxy.ControlPlane.State.{
  AppState, CommandState, Store, commit, register_existing, heartbeat_existing, record_heartbeat,
  probe_existing,
}
use mobile_proxy.ControlPlane.Trimming.{pending_command_count}

-- A record stands under its own node id, and publishes its own projection.
unfoldable pub IsOwnRecord : String → DeviceRecord → Type 0
IsOwnRecord node_id device = (device.node_id ≡ node_id) × IsProjected device

-- The devices are within their bound, and each is its own record.
unfoldable pub HasDevices : Map String DeviceRecord → Type 0
HasDevices devices = (length devices ≤ max_registered_devices) × AllEntries IsOwnRecord devices

-- A queue is within its bound and holds commands of its device.
unfoldable pub IsOwnQueue : String → List DeviceCommand → Type 0
IsOwnQueue device_id queue =
    (length queue ≤ max_command_queue_per_device)
    × All (λ command. command.device_id ≡ device_id) queue

unfoldable pub HasCommands : CommandState → Type 0
HasCommands commands =
    (pending_command_count commands.queues ≤ max_pending_commands)
    × AllEntries IsOwnQueue commands.queues
    × (length commands.idempotency_order ≤ max_idempotency_results)

-- What a transaction on a device may do to the devices: nothing, or put one in its place.
unfoldable pub PutsDevice : AppState → AppState → Type 0
PutsDevice state after =
    (after ≡ state)
    ⊎ ((node_id : String) × (device : DeviceRecord) × (after
          ≡ record state { devices = insert node_id device state.devices })
        × IsOwnRecord node_id device
        × (is_some (lookup node_id state.devices) ≡ true
            ⊎ (length state.devices < max_registered_devices)))

-- The same of a transaction with its answer.
unfoldable pub Puts : {R : Type 0} → AppState → AppState × R → Type 0
Puts state (after, _) = PutsDevice state after

commit-Puts :
    {E A : Type 0} (store : Store) (state : AppState) (node_id : String) (device : DeviceRecord)
    (failure : E) (outcome : A)
    → IsOwnRecord node_id device
    → ((is_some (lookup node_id state.devices) ≡ true)
        ⊎ (length state.devices < max_registered_devices))
    → Puts state (
        commit store state
          (record state { devices = insert node_id device state.devices })
          failure
          outcome)
unfolding Puts PutsDevice
commit-Puts store state node_id device failure outcome own room =
    elim (Bool-cases
      (store state (record state { devices = insert node_id device state.devices }))) [
        | inl swapped ↦ rw swapped (inr (node_id, device, refl, own, room))
        | inr stale ↦ rw stale (inl refl)
      ]

stays : {R : Type 0} (state : AppState) (answer : R) → Puts state (state, answer)
unfolding Puts PutsDevice
stays state answer = inl refl

pub register_existing-Puts :
    (store : Store) (state : AppState) (request : RegisterDeviceRequest) (now : String)
    (found : Option DeviceRecord)
    → Puts state (register_existing store state request now found)
unfolding IsOwnRecord
register_existing-Puts store state request now (some existing) =
    elim (Bool-cases (existing.node_id == request.node_id)) [
      | inr other ↦ rw other (stays state _)
      | inl own ↦ elim (Bool-cases (store state state)) [
        | inl swapped ↦ rw (own, swapped) (stays state _)
        | inr stale ↦ rw (own, stale) (stays state _)
      ]
    ]
register_existing-Puts store state request now none =
    let device = build_registered_device request now in
    elim (Bool-cases (leb max_registered_devices (length state.devices))) [
      | inl full ↦ rw full (stays state _)
      | inr room ↦ elim (Bool-cases (is_some (lookup device.node_id state.devices))) [
        | inl taken ↦ rw (room, taken) (stays state _)
        | inr free ↦
            rw (room, free)
              (commit-Puts store state device.node_id device _ _
                (refl, build_registered_device-IsProjected request now) (inr (ground arith)))
      ]
    ]

record_heartbeat-Puts :
    (store : Store) (state : AppState) (request : HeartbeatRequest) (device : DeviceRecord)
    → IsProjected device
    → (is_some (lookup request.node_id state.devices) ≡ true)
      ⊎ (length state.devices < max_registered_devices)
    → Puts state (record_heartbeat store state request device)
unfolding IsOwnRecord
record_heartbeat-Puts store state request device own room =
    elim (Bool-cases (device.node_id == request.node_id)) [
      | inr other ↦ rw other (stays state _)
      | inl same ↦ rw same (
          commit-Puts store state request.node_id device _ _
            (==→eq device.node_id request.node_id same, own) room)
    ]

pub heartbeat_existing-Puts :
    (store : Store) (state : AppState) (request : HeartbeatRequest) (now : String)
    (found : Option DeviceRecord)
    → lookup request.node_id state.devices ≡ found
    → Puts state (heartbeat_existing store state request now found)
heartbeat_existing-Puts store state request now (some existing) known =
    elim (Bool-cases (existing.node_id == request.node_id)) [
      | inr other ↦ rw other (stays state _)
      | inl same ↦ rw same (
          record_heartbeat-Puts store state request _
            (build_heartbeat_device-IsProjected request existing.publicly_serving
              existing.public_probe_error existing.public_probe_at now)
            (inl (rw known refl)))
    ]
heartbeat_existing-Puts store state request now none known =
    elim (Bool-cases (leb max_registered_devices (length state.devices))) [
      | inl full ↦ rw full (stays state _)
      | inr room ↦ rw room (
          record_heartbeat-Puts store state request _
            (build_heartbeat_device-IsProjected request false none none now) (inr (ground arith)))
    ]

pub probe_existing-Puts :
    (store : Store) (state : AppState) (input : PublicProbeInput) (probed now : String)
    (found : Option DeviceRecord)
    → lookup input.device_id state.devices ≡ found
    → Puts state (probe_existing store state input probed now found)
unfolding IsOwnRecord
probe_existing-Puts store state input probed now none known = stays state _
probe_existing-Puts store state input probed now (some existing) known =
    let device = apply_public_probe existing input.report probed now in
    elim (Bool-cases (existing.node_id == input.device_id)) [
      | inr other ↦ rw other (stays state _)
      | inl own ↦ elim (Bool-cases (device.node_id == input.device_id)) [
        | inr changed ↦ rw (own, changed) (stays state _)
        | inl same ↦
            rw (own, same)
              (commit-Puts store state input.device_id device _ _
                (
                  ==→eq device.node_id input.device_id same,
                  apply_public_probe-IsProjected existing input.report probed now,
                )
                (inl (rw known refl)))
      ]
    ]

insert_bounded :
    (node_id : String) (device : DeviceRecord) (devices : Map String DeviceRecord)
    → length devices ≤ max_registered_devices
    → (is_some (lookup node_id devices) ≡ true) ⊎ (length devices < max_registered_devices)
    → length (insert node_id device devices) ≤ max_registered_devices
insert_bounded node_id device devices few (inr room) =
    omega (arith, length-insert-le node_id device devices)
insert_bounded node_id device devices few (inl known) =
    elim (Option-cases (lookup node_id devices)) [
      | inl absent ↦ absurd (ground (arith, known, absent))
      | inr (old, present) ↦ omega (arith, length-insert_known node_id device old devices present)
    ]

-- A transaction on a device that is sound leaves the devices sound.
pub PutsDevice-HasDevices :
    (state after : AppState)
    → PutsDevice state after
    → HasDevices state.devices
    → HasDevices after.devices × (after.commands ≡ state.commands)
unfolding PutsDevice HasDevices
PutsDevice-HasDevices state after (inl same) h = rw same (h, refl)
PutsDevice-HasDevices state after (inr (node_id, device, puts, own, room)) (few, all) = rw puts (
  (
    insert_bounded node_id device state.devices few room,
    AllEntries-insert IsOwnRecord node_id device state.devices own all,
  ),
  refl,
)
