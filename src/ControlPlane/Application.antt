-- ===== src/ControlPlane/Application.antt =====
-- crates/application: the inputs, outcomes and errors of the control plane's use cases, its limits,
-- and how an earlier command under the same idempotency key is told from a conflict.
pub mod Laws
use mobile_proxy.Base.{
  ℕ, ◌<◌, ◌^◌, String, string_eq, nat_eq, list_eq, Bool, true, false, not, ◌&&◌, ◌||◌, Option, none,
  some, List, [], ◌∷◌, length, ◌==◌, ◌≡◌, ◌≢◌, ◌↔◌, refl, arith, if◌then◌else◌, Result, ok, err,
}
use mobile_proxy.Foundation.Digests.{Blake3, ContentDigest, derive, as_bytes, to_be_bytes}
use mobile_proxy.ProxyCore.Commands.{
  DesiredState, show_desired_state, RecoveryIntent, show_recovery_intent, IssueCommandRequest,
  DeviceCommand, CommandAckRequest,
}
use mobile_proxy.ProxyCore.Records.{RegisterDeviceRequest, HeartbeatRequest, PublicProbeReport}

abbrev pub max_command_queue_per_device : ℕ
max_command_queue_per_device = 50

abbrev pub max_idempotency_results : ℕ
max_idempotency_results = 1000

abbrev pub max_pending_commands : ℕ
max_pending_commands = 1000

abbrev pub max_registered_devices : ℕ
max_registered_devices = 10000

pub record IssueCommandInput : Type 0 where
  pub device_id : String
  pub request : IssueCommandRequest

pub record AcknowledgeCommandInput : Type 0 where
  pub device_id : String
  pub command_id : ℕ
  pub request : CommandAckRequest

pub record PublicProbeInput : Type 0 where
  pub device_id : String
  pub report : PublicProbeReport

pub data IssueCommandOutcome : Type 0 where
  created exact_duplicate : DeviceCommand → IssueCommandOutcome

pub data IssueCommandError : Type 0 where
  idempotency_conflict state_conflict capacity_exceeded persistence : IssueCommandError

pub data PollCommandOutcome : Type 0 where
  pending : DeviceCommand → PollCommandOutcome
  empty : PollCommandOutcome

pub data PollCommandError : Type 0 where
  state_conflict : PollCommandError

pub data AcknowledgeCommandOutcome : Type 0 where
  completed retry_requested not_found : AcknowledgeCommandOutcome

pub data AcknowledgeCommandError : Type 0 where
  state_conflict persistence : AcknowledgeCommandError

pub data RegisterDeviceOutcome : Type 0 where
  created already_registered : RegisterDeviceOutcome

pub data RegisterDeviceError : Type 0 where
  state_conflict capacity_exceeded persistence : RegisterDeviceError

pub record HeartbeatOutcome : Type 0 where
  pub legacy_config_fingerprint : Bool
  pub legacy_binary_fingerprint : Bool

pub data HeartbeatError : Type 0 where
  state_conflict capacity_exceeded persistence : HeartbeatError

pub data PublicProbeOutcome : Type 0 where
  updated device_not_found : PublicProbeOutcome

pub data PublicProbeError : Type 0 where
  state_conflict persistence : PublicProbeError

abbrev command_request_domain : String
command_request_domain = "mobile-proxy/control-plane-command-request/v1"

abbrev idempotency_scope_domain : String
idempotency_scope_domain = "mobile-proxy/control-plane-command-idempotency-scope/v1"

-- The four parts of a request's fingerprint; a deadline window is a `u32`.
abbrev pub request_parts : String → IssueCommandRequest → List (List ℕ)
request_parts device_id request =
    as_bytes device_id
    ∷ as_bytes (show_desired_state request.desired_state)
    ∷ as_bytes (show_recovery_intent request.recovery_intent)
    ∷ to_be_bytes 4 request.deadline_secs
    ∷ []

unfoldable pub request_fingerprint : Blake3 → String → IssueCommandRequest → ContentDigest
request_fingerprint b device_id request =
    derive b command_request_domain (request_parts device_id request)

unfoldable pub idempotency_scope_key : Blake3 → String → String → ContentDigest
idempotency_scope_key b device_id key =
    derive b idempotency_scope_domain (as_bytes device_id ∷ as_bytes key ∷ [])

-- The request that a command was issued for.
abbrev pub request_for : DeviceCommand → IssueCommandRequest
request_for existing = record {
  desired_state = existing.desired_state;
  recovery_intent = existing.recovery_intent;
  deadline_secs = existing.deadline_secs;
  idempotency_key = existing.idempotency_key;
}

unfoldable pub classify_existing :
    Blake3 → DeviceCommand → String → IssueCommandRequest → Result IssueCommandError DeviceCommand
classify_existing b existing device_id request =
    if (existing.idempotency_key == request.idempotency_key)
      && (request_fingerprint b existing.device_id (request_for existing)
          == request_fingerprint b device_id request)
    then ok existing
    else err idempotency_conflict

-- The hash of a domain does not collide on the bytes it is given.
unfoldable pub IsCollisionFree : Blake3 → Type 0
IsCollisionFree b = (domain : String) (x y : List ℕ) → b.hash domain x ≡ b.hash domain y → x ≡ y
