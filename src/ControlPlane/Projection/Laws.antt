-- ===== src/ControlPlane/Projection/Laws.antt =====
-- services/control-plane/src/projection.rs: what the records that it builds have in common.
use mobile_proxy.Base.{
  String, Bool, true, false, Option, none, some, ◌≡◌, ◌↔◌, refl, arith, is_some_and, ◌==◌,
  string_eq, List, any, if◌then◌else◌,
}
use mobile_proxy.ProxyCore.Runtime.{
  RuntimeProjectionInput, RuntimeProjection, project_runtime, normalize_serving,
}
use mobile_proxy.ProxyCore.Runtime.Laws.{project_twice}
use mobile_proxy.ProxyCore.Records.{
  DeviceRecord, HeartbeatRequest, PublicProbeReport, RegisterDeviceRequest,
}
use mobile_proxy.ControlPlane.Projection.{
  build_registered_device, build_heartbeat_device, apply_public_probe, heartbeat_input,
  device_input, normalize_tunnel_observability, bounded_tunnel_value, contains, is_true,
  tunnel_active_transports, tunnel_freshness_values,
}

abbrev pub published : DeviceRecord → RuntimeProjection
published device = record {
  readiness_state = device.readiness_state;
  serving = device.serving;
  availability = device.availability;
  degradation_reason_code = device.degradation_reason_code;
  serving_failure_reason = device.serving_failure_reason;
}

-- What is published of a device is the projection of the device itself.
unfoldable pub IsProjected : DeviceRecord → Type 0
IsProjected device =
    project_runtime (device_input device device.publicly_serving) ≡ published device

-- The state and the service of a projection do not depend on the public probe.
project_again :
    (i : RuntimeProjectionInput) (publicly_serving : Bool)
    → let p = project_runtime i in
      project_runtime (record i {
        readiness_state = p.readiness_state;
        serving = p.serving;
        publicly_serving = publicly_serving;
      })
      ≡ project_runtime (record i { publicly_serving = publicly_serving })
unfolding project_runtime normalize_serving
project_again i publicly_serving = project_twice (record i { publicly_serving = publicly_serving })

pub build_registered_device-IsProjected :
    (req : RegisterDeviceRequest) (now : String) → IsProjected (build_registered_device req now)
unfolding IsProjected build_registered_device
build_registered_device-IsProjected req now = project_twice (record {
  readiness_state = "booting";
  serving = false;
  publicly_serving = false;
  current_job = none;
  cellular_route_ready = none;
  proxy_bind_ready = none;
  local_serving_ready = none;
})

pub build_heartbeat_device-IsProjected :
    (req : HeartbeatRequest) (publicly_serving : Bool) (error at : Option String) (now : String)
    → IsProjected (build_heartbeat_device req publicly_serving error at now)
unfolding IsProjected build_heartbeat_device
build_heartbeat_device-IsProjected req publicly_serving error at now =
    project_twice (heartbeat_input req publicly_serving)

pub apply_public_probe-IsProjected :
    (device : DeviceRecord) (req : PublicProbeReport) (probed now : String)
    → IsProjected (apply_public_probe device req probed now)
unfolding IsProjected apply_public_probe
apply_public_probe-IsProjected device req probed now =
    project_twice (device_input device req.publicly_serving)

-- A public probe after a heartbeat gives the record that the heartbeat had given, had the probe's
-- result been there before it, but for the time of the last event.
pub probe-after_heartbeat :
    (req : HeartbeatRequest) (publicly_serving : Bool) (error at : Option String) (now : String)
    (report : PublicProbeReport) (probed later : String)
    → apply_public_probe
        (build_heartbeat_device req publicly_serving error at now)
        report
        probed
        later
      ≡ record (build_heartbeat_device req report.publicly_serving report.public_probe_error
          (some probed)
          now) { last_event_at = some later }
unfolding build_heartbeat_device apply_public_probe
probe-after_heartbeat req publicly_serving error at now report probed later =
    rw (project_again (heartbeat_input req publicly_serving) report.publicly_serving) refl

bounded_tunnel_value_iff :
    (value : Option String) (allowed : List String) (t : String)
    → (bounded_tunnel_value value allowed ≡ some t)
      ↔ ((value ≡ some t) × (contains allowed t ≡ true))
unfolding bounded_tunnel_value
bounded_tunnel_value_iff none allowed t = ground arith
bounded_tunnel_value_iff (some v) allowed t = ground arith

bounded_twice :
    (value : Option String) (allowed : List String)
    → bounded_tunnel_value (bounded_tunnel_value value allowed) allowed
      ≡ bounded_tunnel_value value allowed
unfolding bounded_tunnel_value
bounded_twice none allowed = refl
bounded_twice (some v) allowed = ground arith

is_true_iff : (connected : Option Bool) → (is_true connected ≡ true) ↔ (connected ≡ some true)
is_true_iff connected = ground arith

is_fresh_iff :
    (fresh : Option String)
    → (is_some_and fresh (λ value. value == "fresh") ≡ true) ↔ (fresh ≡ some "fresh")
is_fresh_iff none = ground arith
is_fresh_iff (some f) = ground (arith, string_eq.eq_iff f "fresh")

fresh_known :
    (freshness : Option String)
    → (bounded_tunnel_value freshness tunnel_freshness_values ≡ some "fresh")
      ↔ (freshness ≡ some "fresh")
unfolding any
fresh_known freshness =
    ground (arith, bounded_tunnel_value_iff freshness tunnel_freshness_values "fresh")

gate_twice :
    (test : Bool) (value : Option String) (allowed : List String)
    → (if test
        then bounded_tunnel_value
            (if test then bounded_tunnel_value value allowed else none)
            allowed
        else none)
      ≡ (if test then bounded_tunnel_value value allowed else none)
gate_twice true value allowed = bounded_twice value allowed
gate_twice false value allowed = refl

-- An active transport is published exactly when the device reports its tunnel as connected and
-- fresh over that transport and the transport is one of the three known ones; normalising what is
-- published once more, under the same connection flag, changes nothing.
pub normalize_tunnel_observability-active_iff :
    (connected : Option Bool) (transport freshness reason : Option String) (t : String)
    → let (active, fresh, why) =
        normalize_tunnel_observability connected transport freshness reason in
      ((active ≡ some t) ↔ (
        (connected ≡ some true)
        × (freshness ≡ some "fresh")
        × (transport ≡ some t)
        × (contains tunnel_active_transports t ≡ true)))
      × (normalize_tunnel_observability connected active fresh why ≡ (active, fresh, why))
unfolding normalize_tunnel_observability
normalize_tunnel_observability-active_iff connected transport freshness reason t =
    let fresh = bounded_tunnel_value freshness tunnel_freshness_values in
    (
      ground (
        arith,
        is_true_iff connected,
        is_fresh_iff fresh,
        fresh_known freshness,
        bounded_tunnel_value_iff transport tunnel_active_transports t,
      ),
      simp (bounded_twice, gate_twice) refl,
    )
