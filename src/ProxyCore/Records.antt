-- ===== src/ProxyCore/Records.antt =====
-- crates/proxy-core/src/records.rs: what a device reports and what is kept about it. A `Uuid` is the
-- number of its bits, a fingerprint its digest.
use mobile_proxy.Base.{ℕ, String, Bool, Option}
use mobile_proxy.Foundation.Digests.{ContentDigest}
use mobile_proxy.ProxyCore.Fingerprints.{FingerprintInputValue}

pub record RegisterDeviceRequest : Type 0 where
  pub node_id : String
  pub node_name : String
  pub proxy_status : String
  pub tunnel_owner : Option String

pub record HeartbeatRequest : Type 0 where
  pub node_id : String
  pub node_name : String
  pub readiness_state : String
  pub serving : Bool
  pub proxy_status : String
  pub proxy_pid : Option ℕ
  pub last_public_ip : Option String
  pub current_job : Option ℕ
  pub last_proxy_error : Option String
  pub version : Option String
  pub config_fingerprint : Option (FingerprintInputValue ContentDigest)
  pub binary_fingerprint : Option (FingerprintInputValue ContentDigest)
  pub active_operator_profile : Option String
  pub active_operator_plmn : Option String
  pub cellular_route_ready : Option Bool
  pub proxy_bind_ready : Option Bool
  pub local_serving_ready : Option Bool
  pub tun0_present : Option Bool
  pub wg_handshake_recent : Option Bool
  pub reverse_tunnel_connected : Option Bool
  pub reverse_tunnel_last_error : Option String
  pub reverse_tunnel_active_transport : Option String
  pub reverse_tunnel_freshness : Option String
  pub reverse_tunnel_failover_reason : Option String
  pub tunnel_owner : Option String

pub record PublicProbeReport : Type 0 where
  pub publicly_serving : Bool
  pub public_probe_error : Option String
  pub public_probe_at : String

pub record DeviceRecord : Type 0 where
  pub node_id : String
  pub node_name : String
  pub readiness_state : String
  pub serving : Bool
  pub proxy_status : String
  pub proxy_pid : Option ℕ
  pub last_public_ip : Option String
  pub current_job : Option ℕ
  pub last_proxy_error : Option String
  pub version : Option String
  pub config_fingerprint : Option ContentDigest
  pub binary_fingerprint : Option ContentDigest
  pub active_operator_profile : Option String
  pub active_operator_plmn : Option String
  pub publicly_serving : Bool
  pub public_probe_error : Option String
  pub public_probe_at : Option String
  pub cellular_route_ready : Option Bool
  pub proxy_bind_ready : Option Bool
  pub local_serving_ready : Option Bool
  pub tun0_present : Option Bool
  pub wg_handshake_recent : Option Bool
  pub reverse_tunnel_connected : Option Bool
  pub reverse_tunnel_last_error : Option String
  pub reverse_tunnel_active_transport : Option String
  pub reverse_tunnel_freshness : Option String
  pub reverse_tunnel_failover_reason : Option String
  pub tunnel_owner : Option String
  pub last_heartbeat_at : Option String
  pub availability : String
  pub degradation_reason_code : Option String
  pub serving_failure_reason : Option String
  pub desired_state : Option String
  pub recovery_intent : Option String
  pub last_event_at : Option String
