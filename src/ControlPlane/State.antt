-- ===== src/ControlPlane/State.antt =====
-- services/control-plane/src/state.rs: the control plane's state and its transactions on devices.
-- A transaction holds both locks from its first read to its last write, so it is one function from
-- a state to a state. Whether the candidate is persisted (`compare_and_swap` of the SQLite store)
-- is the answer of `Store` to the expected and the candidate state; the clock's readings and a fresh `Uuid`
-- are arguments.
use mobile_proxy.Base.{
  ℕ, String, string_eq, nat_eq, Bool, false, not, Option, none, some, List, ◌==◌, leb, length, Map,
  lookup, insert, is_some, is_some_and, if◌then◌else◌, Result, ok, err,
}
use mobile_proxy.ProxyCore.Commands.{DeviceCommand}
use mobile_proxy.ProxyCore.Fingerprints.{FingerprintInputValue, is_legacy}
use mobile_proxy.ProxyCore.Records.{DeviceRecord, HeartbeatRequest, RegisterDeviceRequest}
use mobile_proxy.Foundation.Digests.{ContentDigest}
use mobile_proxy.ControlPlane.Application.{
  RegisterDeviceOutcome, RegisterDeviceError, HeartbeatOutcome, HeartbeatError, PublicProbeInput,
  PublicProbeOutcome, PublicProbeError, max_registered_devices,
}
use mobile_proxy.ControlPlane.Projection.{
  build_registered_device, build_heartbeat_device, apply_public_probe,
}

pub record CommandState : Type 0 where
  pub queues : Map String (List DeviceCommand)
  pub idempotency : Map String ℕ
  pub idempotency_results : Map String DeviceCommand
  pub idempotency_order : List String

-- `AppState`, and `StoredState`: what the locks guard.
pub record AppState : Type 0 where
  pub devices : Map String DeviceRecord
  pub commands : CommandState

-- Whether the expected state is swapped for the candidate.
abbrev pub Store : Type 0
Store = AppState → AppState → Bool

-- The end of every transaction: the candidate is persisted, and only then becomes the state.
abbrev pub commit : {E A : Type 0} → Store → AppState → AppState → E → A → AppState × Result E A
commit store state candidate failure outcome =
    if store state candidate then (candidate, ok outcome) else (state, err failure)

abbrev pub insert_registered :
    Store
    → AppState
    → String
    → DeviceRecord
    → AppState × Result RegisterDeviceError RegisterDeviceOutcome
insert_registered store state stored_node_id device =
    if is_some (lookup stored_node_id state.devices)
    then (state, err RegisterDeviceError.state_conflict)
    else commit store state (record state { devices = insert stored_node_id device state.devices })
        RegisterDeviceError.persistence RegisterDeviceOutcome.created

abbrev pub register_existing :
    Store
    → AppState
    → RegisterDeviceRequest
    → String
    → Option DeviceRecord
    → AppState × Result RegisterDeviceError RegisterDeviceOutcome
register_existing store state request now (some existing) =
    if not (existing.node_id == request.node_id)
    then (state, err RegisterDeviceError.state_conflict)
    else commit store state state RegisterDeviceError.persistence
        RegisterDeviceOutcome.already_registered
register_existing store state request now none =
    if leb max_registered_devices (length state.devices)
    then (state, err RegisterDeviceError.capacity_exceeded)
    else let device = build_registered_device request now in
      insert_registered store state device.node_id device

unfoldable pub register_device :
    Store
    → AppState
    → RegisterDeviceRequest
    → String
    → AppState × Result RegisterDeviceError RegisterDeviceOutcome
register_device store state request now =
    register_existing store state request now (lookup request.node_id state.devices)

abbrev pub legacy_fingerprint : Option (FingerprintInputValue ContentDigest) → Bool
legacy_fingerprint value = is_some_and value is_legacy

abbrev pub record_heartbeat :
    Store
    → AppState
    → HeartbeatRequest
    → DeviceRecord
    → AppState × Result HeartbeatError HeartbeatOutcome
record_heartbeat store state request device =
    if not (device.node_id == request.node_id)
    then (state, err HeartbeatError.state_conflict)
    else commit store state (record state { devices = insert request.node_id device state.devices })
        HeartbeatError.persistence
        (record {
          legacy_config_fingerprint = legacy_fingerprint request.config_fingerprint;
          legacy_binary_fingerprint = legacy_fingerprint request.binary_fingerprint;
        })

abbrev pub heartbeat_existing :
    Store
    → AppState
    → HeartbeatRequest
    → String
    → Option DeviceRecord
    → AppState × Result HeartbeatError HeartbeatOutcome
heartbeat_existing store state request now (some existing) =
    if not (existing.node_id == request.node_id)
    then (state, err HeartbeatError.state_conflict)
    else record_heartbeat store state request (
        build_heartbeat_device request existing.publicly_serving existing.public_probe_error
          existing.public_probe_at now)
heartbeat_existing store state request now none =
    if leb max_registered_devices (length state.devices)
    then (state, err HeartbeatError.capacity_exceeded)
    else record_heartbeat store state request (build_heartbeat_device request false none none now)

unfoldable pub heartbeat :
    Store → AppState → HeartbeatRequest → String → AppState × Result HeartbeatError HeartbeatOutcome
heartbeat store state request now =
    heartbeat_existing store state request now (lookup request.node_id state.devices)

abbrev pub probe_existing :
    Store
    → AppState
    → PublicProbeInput
    → String
    → String
    → Option DeviceRecord
    → AppState × Result PublicProbeError PublicProbeOutcome
probe_existing store state input probed now none = (state, ok PublicProbeOutcome.device_not_found)
probe_existing store state input probed now (some existing) =
    if not (existing.node_id == input.device_id)
    then (state, err PublicProbeError.state_conflict)
    else let device = apply_public_probe existing input.report probed now in
      if not (device.node_id == input.device_id)
      then (state, err PublicProbeError.state_conflict)
      else commit store state
          (record state { devices = insert input.device_id device state.devices })
          PublicProbeError.persistence PublicProbeOutcome.updated

unfoldable pub public_probe :
    Store
    → AppState
    → PublicProbeInput
    → String
    → String
    → AppState × Result PublicProbeError PublicProbeOutcome
public_probe store state input probed now =
    probe_existing store state input probed now (lookup input.device_id state.devices)
