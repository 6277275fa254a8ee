-- ===== src/ControlPlane/Projection.antt =====
-- services/control-plane/src/projection.rs: how a registration, a heartbeat and a public probe
-- become the record that is kept of a device. The time of each reading of the clock is an argument.
pub mod Laws
mod Examples
use mobile_proxy.Base.{
  String, string_eq, Bool, true, false, ◌&&◌, Option, none, some, List, [], ◌∷◌, any, ◌==◌,
  if◌then◌else◌, filter_option, is_some_and,
}
use mobile_proxy.Foundation.Digests.{ContentDigest}
use mobile_proxy.ProxyCore.Runtime.{RuntimeProjectionInput, RuntimeProjection, project_runtime}
use mobile_proxy.ProxyCore.Fingerprints.{FingerprintInputValue, current_value}
use mobile_proxy.ProxyCore.Records.{
  DeviceRecord, HeartbeatRequest, PublicProbeReport, RegisterDeviceRequest,
}

abbrev pub tunnel_active_transports : List String
tunnel_active_transports = "tcp" ∷ "quic" ∷ "tls_tcp" ∷ []

abbrev pub tunnel_freshness_values : List String
tunnel_freshness_values = "unknown" ∷ "fresh" ∷ "stale" ∷ []

abbrev pub tunnel_failover_reasons : List String
tunnel_failover_reasons =
    "connect_timeout" ∷ "connect_failed" ∷ "authentication_failed" ∷ "session_closed"
    ∷ "session_error" ∷ []

abbrev pub contains : List String → String → Bool
contains allowed candidate = any (λ value. value == candidate) allowed

unfoldable pub bounded_tunnel_value : Option String → List String → Option String
bounded_tunnel_value value allowed = filter_option value (contains allowed)

-- `== Some(true)`.
abbrev pub is_true : Option Bool → Bool
is_true (some true) = true
is_true _ = false

unfoldable pub normalize_tunnel_observability :
    Option Bool
    → Option String
    → Option String
    → Option String
    → Option String × Option String × Option String
normalize_tunnel_observability connected active_transport freshness failover_reason =
    let freshness' = bounded_tunnel_value freshness tunnel_freshness_values in
    let active_transport' = bounded_tunnel_value active_transport tunnel_active_transports in
    (
      if is_true connected && is_some_and freshness' (λ value. value == "fresh")
          then active_transport'
          else none,
      freshness',
      bounded_tunnel_value failover_reason tunnel_failover_reasons,
    )

abbrev registered_projection : RuntimeProjection
registered_projection = project_runtime (record {
  readiness_state = "booting";
  serving = false;
  publicly_serving = false;
  current_job = none;
  cellular_route_ready = none;
  proxy_bind_ready = none;
  local_serving_ready = none;
})

unfoldable pub build_registered_device : RegisterDeviceRequest → String → DeviceRecord
build_registered_device req now = record {
  node_id = req.node_id;
  node_name = req.node_name;
  readiness_state = registered_projection.readiness_state;
  serving = registered_projection.serving;
  proxy_status = req.proxy_status;
  proxy_pid = none;
  last_public_ip = none;
  current_job = none;
  last_proxy_error = none;
  version = none;
  config_fingerprint = none;
  binary_fingerprint = none;
  active_operator_profile = none;
  active_operator_plmn = none;
  publicly_serving = false;
  public_probe_error = none;
  public_probe_at = none;
  cellular_route_ready = none;
  proxy_bind_ready = none;
  local_serving_ready = none;
  tun0_present = none;
  wg_handshake_recent = none;
  reverse_tunnel_connected = none;
  reverse_tunnel_last_error = none;
  reverse_tunnel_active_transport = none;
  reverse_tunnel_freshness = none;
  reverse_tunnel_failover_reason = none;
  tunnel_owner = req.tunnel_owner;
  last_heartbeat_at = none;
  availability = registered_projection.availability;
  degradation_reason_code = registered_projection.degradation_reason_code;
  serving_failure_reason = registered_projection.serving_failure_reason;
  desired_state = some "degraded_safe";
  recovery_intent = some "none";
  last_event_at = some now;
}

-- `and_then(|value| value.current_value())`.
abbrev pub kept_fingerprint : Option (FingerprintInputValue ContentDigest) → Option ContentDigest
kept_fingerprint none = none
kept_fingerprint (some value) = current_value value

abbrev pub heartbeat_input : HeartbeatRequest → Bool → RuntimeProjectionInput
heartbeat_input req publicly_serving = record {
  readiness_state = req.readiness_state;
  serving = req.serving;
  publicly_serving = publicly_serving;
  current_job = req.current_job;
  cellular_route_ready = req.cellular_route_ready;
  proxy_bind_ready = req.proxy_bind_ready;
  local_serving_ready = req.local_serving_ready;
}

unfoldable pub build_heartbeat_device :
    HeartbeatRequest → Bool → Option String → Option String → String → DeviceRecord
build_heartbeat_device req publicly_serving public_probe_error public_probe_at now =
    let projection = project_runtime (heartbeat_input req publicly_serving) in
    let (active_transport, freshness, failover_reason) =
      normalize_tunnel_observability req.reverse_tunnel_connected
        req.reverse_tunnel_active_transport req.reverse_tunnel_freshness
        req.reverse_tunnel_failover_reason in
    record {
      node_id = req.node_id;
      node_name = req.node_name;
      readiness_state = projection.readiness_state;
      serving = projection.serving;
      proxy_status = req.proxy_status;
      proxy_pid = req.proxy_pid;
      last_public_ip = req.last_public_ip;
      current_job = req.current_job;
      last_proxy_error = req.last_proxy_error;
      version = req.version;
      config_fingerprint = kept_fingerprint req.config_fingerprint;
      binary_fingerprint = kept_fingerprint req.binary_fingerprint;
      active_operator_profile = req.active_operator_profile;
      active_operator_plmn = req.active_operator_plmn;
      publicly_serving = publicly_serving;
      public_probe_error = public_probe_error;
      public_probe_at = public_probe_at;
      cellular_route_ready = req.cellular_route_ready;
      proxy_bind_ready = req.proxy_bind_ready;
      local_serving_ready = req.local_serving_ready;
      tun0_present = req.tun0_present;
      wg_handshake_recent = req.wg_handshake_recent;
      reverse_tunnel_connected = req.reverse_tunnel_connected;
      reverse_tunnel_last_error = req.reverse_tunnel_last_error;
      reverse_tunnel_active_transport = active_transport;
      reverse_tunnel_freshness = freshness;
      reverse_tunnel_failover_reason = failover_reason;
      tunnel_owner = req.tunnel_owner;
      last_heartbeat_at = some now;
      availability = projection.availability;
      degradation_reason_code = projection.degradation_reason_code;
      serving_failure_reason = projection.serving_failure_reason;
      desired_state = some "healthy_serving";
      recovery_intent = some "none";
      last_event_at = some now;
    }

abbrev pub device_input : DeviceRecord → Bool → RuntimeProjectionInput
device_input device publicly_serving = record {
  readiness_state = device.readiness_state;
  serving = device.serving;
  publicly_serving = publicly_serving;
  current_job = device.current_job;
  cellular_route_ready = device.cellular_route_ready;
  proxy_bind_ready = device.proxy_bind_ready;
  local_serving_ready = device.local_serving_ready;
}

-- `probed` and `now` are the two readings of the clock.
unfoldable pub apply_public_probe :
    DeviceRecord → PublicProbeReport → String → String → DeviceRecord
apply_public_probe device req probed now =
    let projection = project_runtime (device_input device req.publicly_serving) in
    record device {
      publicly_serving = req.publicly_serving;
      public_probe_error = req.public_probe_error;
      public_probe_at = some probed;
      readiness_state = projection.readiness_state;
      serving = projection.serving;
      availability = projection.availability;
      degradation_reason_code = projection.degradation_reason_code;
      serving_failure_reason = projection.serving_failure_reason;
      last_event_at = some now;
    }
