-- ===== src/ProxyCore/Commands.antt =====
-- crates/proxy-core/src/commands.rs: the commands that the control plane issues to a device. A
-- `Uuid` is the number of its bits, a `DeadlineWindow` its seconds, an `IdempotencyKey` its text.
use mobile_proxy.Base.{
  ℕ, String, string_eq, nat_eq, Bool, true, false, ◌&&◌, Option, ◌≡◌, ◌↔◌, arith, ◌==◌, PartialEq,
}

pub data DesiredState : Type 0 where
  healthy_serving degraded_safe : DesiredState

unfoldable pub show_desired_state : DesiredState → String
show_desired_state healthy_serving = "healthy_serving"
show_desired_state degraded_safe = "degraded_safe"

pub data RecoveryIntent : Type 0 where
  none route_repair restart_runtime rotate_recovery : RecoveryIntent

unfoldable pub show_recovery_intent : RecoveryIntent → String
show_recovery_intent none = "none"
show_recovery_intent route_repair = "route_repair"
show_recovery_intent restart_runtime = "restart_runtime"
show_recovery_intent rotate_recovery = "rotate_recovery"

abbrev desired_state_same : DesiredState → DesiredState → Bool
desired_state_same healthy_serving healthy_serving = true
desired_state_same degraded_safe degraded_safe = true
desired_state_same _ _ = false

abbrev recovery_intent_same : RecoveryIntent → RecoveryIntent → Bool
recovery_intent_same none none = true
recovery_intent_same route_repair route_repair = true
recovery_intent_same restart_runtime restart_runtime = true
recovery_intent_same rotate_recovery rotate_recovery = true
recovery_intent_same _ _ = false

pub desired_state_iff : (a b : DesiredState) → (desired_state_same a b ≡ true) ↔ (a ≡ b)
desired_state_iff a b = ground arith

pub recovery_intent_iff : (a b : RecoveryIntent) → (recovery_intent_same a b ≡ true) ↔ (a ≡ b)
recovery_intent_iff a b = ground arith

instance abbrev pub desired_state_eq : PartialEq DesiredState
desired_state_eq = record { eq = desired_state_same; eq_iff = desired_state_iff }

instance abbrev pub recovery_intent_eq : PartialEq RecoveryIntent
recovery_intent_eq = record { eq = recovery_intent_same; eq_iff = recovery_intent_iff }

pub record IssueCommandRequest : Type 0 where
  pub desired_state : DesiredState
  pub recovery_intent : RecoveryIntent
  pub deadline_secs : ℕ
  pub idempotency_key : String

pub record DeviceCommand : Type 0 where
  pub command_id : ℕ
  pub device_id : String
  pub desired_state : DesiredState
  pub recovery_intent : RecoveryIntent
  pub deadline_secs : ℕ
  pub idempotency_key : String
  pub issued_at : String

abbrev command_same : DeviceCommand → DeviceCommand → Bool
command_same a b =
    (a.command_id == b.command_id)
    && (a.device_id == b.device_id)
    && (a.desired_state == b.desired_state)
    && (a.recovery_intent == b.recovery_intent)
    && (a.deadline_secs == b.deadline_secs)
    && (a.idempotency_key == b.idempotency_key)
    && (a.issued_at == b.issued_at)

pub command_iff : (a b : DeviceCommand) → (command_same a b ≡ true) ↔ (a ≡ b)
command_iff a b = ground (
  arith,
  nat_eq.eq_iff a.command_id b.command_id,
  string_eq.eq_iff a.device_id b.device_id,
  desired_state_iff a.desired_state b.desired_state,
  recovery_intent_iff a.recovery_intent b.recovery_intent,
  nat_eq.eq_iff a.deadline_secs b.deadline_secs,
  string_eq.eq_iff a.idempotency_key b.idempotency_key,
  string_eq.eq_iff a.issued_at b.issued_at,
)

instance abbrev pub command_eq : PartialEq DeviceCommand
command_eq = record { eq = command_same; eq_iff = command_iff }

pub record CommandAckRequest : Type 0 where
  pub ok : Bool
  pub message : Option String
