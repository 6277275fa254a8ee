-- ===== src/ControlPlane/Reach.antt =====
-- services/control-plane/src/state.rs: the transactions as steps, and what holds in every state that
-- they reach.
use mobile_proxy.Base.{
  String, string_eq, nat_eq, Option, none, some, List, ◌≡◌, refl, sym, subst, arith, Map, lookup,
  ◌==◌, Bool-cases, Option-cases, inl, inr, AllEntries-insert, AllEntries-lookup,
  length-insert_known, remove_first,
}
use mobile_proxy.Foundation.Digests.{Blake3}
use mobile_proxy.ProxyCore.Commands.{DeviceCommand}
use mobile_proxy.ProxyCore.Records.{DeviceRecord, RegisterDeviceRequest, HeartbeatRequest}
use mobile_proxy.ControlPlane.Application.{
  PublicProbeInput, IssueCommandInput, AcknowledgeCommandInput,
}
use mobile_proxy.ControlPlane.Projection.Laws.{IsProjected}
use mobile_proxy.ControlPlane.State.{AppState, Store, register_device, heartbeat, public_probe}
use mobile_proxy.ControlPlane.Commands.{
  Fresh, issue_command, acknowledge_command, acknowledge_found, update_device, note_issued,
  note_acknowledged, shorten_queue,
}
use mobile_proxy.ControlPlane.Commands.Issue.{issue_command-Creates}
use mobile_proxy.ControlPlane.Commands.Quiet.{Quiet, issue_command-Quiet}
use mobile_proxy.ControlPlane.Invariant.{
  IsOwnRecord, HasDevices, HasCommands, PutsDevice, PutsDevice-HasDevices, Puts,
  register_existing-Puts, heartbeat_existing-Puts, probe_existing-Puts,
}
use mobile_proxy.ControlPlane.Queued.{
  normalize_command_state-HasCommands, Creates-HasCommands, shorten_queue-HasCommands,
}

-- The devices and the commands are sound.
unfoldable pub IsSound : AppState → Type 0
IsSound state = HasDevices state.devices × HasCommands state.commands

-- A transaction, whatever the store answers.
pub data Step (b : Blake3) : AppState → AppState → Type 0 where
  registers :
      (store : Store) (state : AppState) (request : RegisterDeviceRequest) (now : String)
      → Step b state (register_device store state request now).0
  beats :
      (store : Store) (state : AppState) (request : HeartbeatRequest) (now : String)
      → Step b state (heartbeat store state request now).0
  probes :
      (store : Store) (state : AppState) (input : PublicProbeInput) (probed now : String)
      → Step b state (public_probe store state input probed now).0
  issues :
      (store : Store) (state : AppState) (input : IssueCommandInput) (fresh : Fresh)
      → Step b state (issue_command b store state input fresh).0
  acknowledges :
      (store : Store) (state : AppState) (input : AcknowledgeCommandInput) (now : String)
      → Step b state (acknowledge_command store state input now).0

pub data Reach (b : Blake3) (start : AppState) : AppState → Type 0 where
  begins : Reach b start start
  steps : (state after : AppState) → Reach b start state → Step b state after → Reach b start after

device_step-IsSound :
    (state after : AppState) → PutsDevice state after → IsSound state → IsSound after
unfolding IsSound
device_step-IsSound state after puts (devices, commands) =
    let (devices', same) = PutsDevice-HasDevices state after puts devices in
    (devices', subst HasCommands (sym same) commands)

-- A change of a device that is about other fields keeps the devices sound.
update_device-HasDevices :
    (device_id : String) (f : DeviceRecord → DeviceRecord) (devices : Map String DeviceRecord)
    → ((node_id : String) (device : DeviceRecord)
        → IsOwnRecord node_id device
        → IsOwnRecord node_id (f device))
    → HasDevices devices
    → HasDevices (update_device device_id f devices)
unfolding update_device HasDevices
update_device-HasDevices device_id f devices keeps (few, own) =
    elim (Option-cases (lookup device_id devices)) [
      | inl absent ↦ rw absent (few, own)
      | inr (device, there) ↦
          let mine = AllEntries-lookup IsOwnRecord device_id device devices there own in
          let same_length = length-insert_known device_id (f device) device devices there in
          rw there (
            omega arith,
            AllEntries-insert IsOwnRecord device_id (f device) devices (keeps device_id device mine)
                own,
          )
    ]

note_issued-IsOwnRecord :
    (command : DeviceCommand) (node_id : String) (device : DeviceRecord)
    → IsOwnRecord node_id device
    → IsOwnRecord node_id (note_issued command device)
unfolding IsOwnRecord IsProjected
note_issued-IsOwnRecord command node_id device own = own

note_acknowledged-IsOwnRecord :
    (now node_id : String) (device : DeviceRecord)
    → IsOwnRecord node_id device
    → IsOwnRecord node_id (note_acknowledged now device)
unfolding IsOwnRecord IsProjected
note_acknowledged-IsOwnRecord now node_id device own = own

issue_command-IsSound :
    (b : Blake3) (store : Store) (state : AppState) (input : IssueCommandInput) (fresh : Fresh)
    → IsSound state
    → IsSound (issue_command b store state input fresh).0
unfolding IsSound Quiet
issue_command-IsSound b store state input fresh (devices, commands) =
    elim (issue_command-Quiet b store state input fresh) [
      | inl (inl same) ↦ rw same (devices, commands)
      | inl (inr (normal, migration, normalizes, same)) ↦ rw same (
        devices,
        normalize_command_state-HasCommands b state.commands (normal, migration) normalizes
            commands,
      )
      | inr (command, made) ↦
          let c = issue_command-Creates b store state input fresh command made in
          (
            rw (c.becomes) (
                update_device-HasDevices input.device_id (note_issued command) state.devices
                  (note_issued-IsOwnRecord command) devices),
            Creates-HasCommands b store state input fresh command c commands,
          )
    ]

acknowledge_found-IsSound :
    (store : Store) (state : AppState) (input : AcknowledgeCommandInput) (now : String)
    (queue : List DeviceCommand) (found : Option (DeviceCommand × List DeviceCommand))
    → lookup input.device_id state.commands.queues ≡ some queue
    → remove_first (λ command. command.command_id == input.command_id) queue ≡ found
    → IsSound state
    → IsSound (acknowledge_found store state input.device_id now found).0
unfolding IsSound
acknowledge_found-IsSound store state input now queue none there taken sound = sound
acknowledge_found-IsSound store state input now queue (some (command, rest)) there taken
      (devices, commands) =
    elim (Bool-cases (command.device_id == input.device_id)) [
      | inr other ↦ rw other (devices, commands)
      | inl own ↦
          let candidate : AppState = record {
            devices = update_device input.device_id (note_acknowledged now) state.devices;
            commands = record state.commands {
              queues = shorten_queue input.device_id rest state.commands.queues;
            };
          } in
          elim (Bool-cases (store state candidate)) [
            | inr stale ↦ rw (own, stale) (devices, commands)
            | inl swapped ↦
                rw (own, swapped)
                  (
                    update_device-HasDevices input.device_id (note_acknowledged now) state.devices
                        (note_acknowledged-IsOwnRecord now) devices,
                    shorten_queue-HasCommands input.device_id queue rest command
                        (λ c. c.command_id == input.command_id) state.commands there taken commands,
                  )
          ]
    ]

acknowledge_command-IsSound :
    (store : Store) (state : AppState) (input : AcknowledgeCommandInput) (now : String)
    → IsSound state
    → IsSound (acknowledge_command store state input now).0
unfolding acknowledge_command
acknowledge_command-IsSound store state input now sound = elim (Bool-cases input.request.ok) [
  | inr retry ↦ rw retry sound
  | inl done ↦ elim (Option-cases (lookup input.device_id state.commands.queues)) [
    | inl absent ↦ rw (done, absent) sound
    | inr (queue, there) ↦
        rw (done, there) (acknowledge_found-IsSound store state input now queue _ there refl sound)
  ]
]

Step-IsSound :
    (b : Blake3) (state after : AppState) → Step b state after → IsSound state → IsSound after
unfolding register_device heartbeat public_probe Puts
Step-IsSound b _ _ (registers store state request now) sound =
    device_step-IsSound state _
      (register_existing-Puts store state request now (lookup request.node_id state.devices)) sound
Step-IsSound b _ _ (beats store state request now) sound =
    device_step-IsSound state _
      (heartbeat_existing-Puts store state request now (lookup request.node_id state.devices) refl)
      sound
Step-IsSound b _ _ (probes store state input probed now) sound =
    device_step-IsSound state _
      (probe_existing-Puts store state input probed now (lookup input.device_id state.devices) refl)
      sound
Step-IsSound b _ _ (issues store state input fresh) sound =
    issue_command-IsSound b store state input fresh sound
Step-IsSound b _ _ (acknowledges store state input now) sound =
    acknowledge_command-IsSound store state input now sound

-- In every state that transactions reach from a sound one, whatever the store answers, at most
-- 10000 devices are kept, each under its own node id and publishing the projection of its own
-- record; every queue holds at most 50 commands, all of its device; at most 1000 commands are
-- pending, and at most 1000 scopes are kept in the order.
pub Reach-IsSound :
    (b : Blake3) (start state : AppState) → Reach b start state → IsSound start → IsSound state
Reach-IsSound b start _ begins sound = sound
Reach-IsSound b start _ (steps state after reached step) sound =
    Step-IsSound b state after step (Reach-IsSound b start state reached sound)
