-- ===== src/ControlPlane/Projection/Examples.antt =====
-- A heartbeat, a probe and a transport at concrete data.
use mobile_proxy.Base.{
  String, string_eq, nat_eq, Bool, true, false, Option, none, some, ◌≡◌, ◌↔◌, any,
}
use mobile_proxy.ProxyCore.Records.{HeartbeatRequest, PublicProbeReport}
use mobile_proxy.ControlPlane.Projection.{
  build_heartbeat_device, apply_public_probe, normalize_tunnel_observability, bounded_tunnel_value,
  contains, tunnel_active_transports,
}
use mobile_proxy.ControlPlane.Projection.Laws.{
  probe-after_heartbeat, normalize_tunnel_observability-active_iff,
}

abbrev quic : Option String
quic = some "quic"

abbrev fresh_report : Option String
fresh_report = some "fresh"

abbrev connected : Option Bool
connected = some true

normalize_tunnel_observability-active_iff_example :
    ((quic ≡ some "quic") ↔ (
      (connected ≡ some true)
      × (fresh_report ≡ some "fresh")
      × (quic ≡ some "quic")
      × (contains tunnel_active_transports "quic" ≡ true)))
    × (normalize_tunnel_observability connected quic fresh_report none ≡ (quic, fresh_report, none))
unfolding normalize_tunnel_observability bounded_tunnel_value any
normalize_tunnel_observability-active_iff_example =
    normalize_tunnel_observability-active_iff connected quic fresh_report none "quic"

abbrev beat : HeartbeatRequest
beat = record {
  node_id = "d";
  node_name = "device";
  readiness_state = "healthy";
  serving = true;
  proxy_status = "up";
  proxy_pid = some 41;
  last_public_ip = none;
  current_job = none;
  last_proxy_error = none;
  version = none;
  config_fingerprint = none;
  binary_fingerprint = none;
  active_operator_profile = none;
  active_operator_plmn = none;
  cellular_route_ready = some true;
  proxy_bind_ready = some true;
  local_serving_ready = some true;
  tun0_present = none;
  wg_handshake_recent = none;
  reverse_tunnel_connected = some true;
  reverse_tunnel_last_error = none;
  reverse_tunnel_active_transport = some "quic";
  reverse_tunnel_freshness = some "fresh";
  reverse_tunnel_failover_reason = none;
  tunnel_owner = none;
}

abbrev probe : PublicProbeReport
probe = record { publicly_serving = true; public_probe_error = none; public_probe_at = "109" }

probe-after_heartbeat_example :
    apply_public_probe (build_heartbeat_device beat false none none "100") probe "110" "111"
    ≡ record (build_heartbeat_device beat true none (some "110") "100") {
      last_event_at = some "111";
    }
probe-after_heartbeat_example = probe-after_heartbeat beat false none none "100" probe "110" "111"
