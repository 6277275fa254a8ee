-- ===== src/ControlPlane/Application/Laws.antt =====
-- crates/application/src/command_issue.rs: what an idempotency key protects.
use mobile_proxy.Base.{
  ◌<◌, ◌^◌, String, string_eq, nat_eq, list_eq, true, length, ◌≡◌, ◌≢◌, ◌↔◌, refl, sym, ap, ◌∙◌,
  arith, ◌==◌, ==→eq, ==_refl, if◌then◌else◌, ok, err,
}
use mobile_proxy.Foundation.Digests.{
  Blake3, derive, as_bytes, to_be_bytes, frame-injective, IsFramable, as_bytes-injective,
  to_be_bytes-injective, to_be_bytes-length,
}
use mobile_proxy.ProxyCore.Commands.{
  DesiredState, healthy_serving, degraded_safe, show_desired_state, RecoveryIntent,
  show_recovery_intent, IssueCommandRequest, DeviceCommand,
}
use mobile_proxy.ControlPlane.Application.{
  request_parts, request_fingerprint, request_for, classify_existing, IsCollisionFree,
  idempotency_conflict,
}

-- The texts of the states and intents can be read back.
read_desired_state : String → DesiredState
read_desired_state s = if s == "healthy_serving" then healthy_serving else degraded_safe

read_recovery_intent : String → RecoveryIntent
read_recovery_intent s =
    if s == "none"
    then RecoveryIntent.none
    else if s == "route_repair"
    then RecoveryIntent.route_repair
    else if s == "restart_runtime"
    then RecoveryIntent.restart_runtime
    else RecoveryIntent.rotate_recovery

read-show_desired_state : (a : DesiredState) → read_desired_state (show_desired_state a) ≡ a
unfolding read_desired_state show_desired_state
read-show_desired_state healthy_serving = refl
read-show_desired_state degraded_safe = refl

read-show_recovery_intent : (a : RecoveryIntent) → read_recovery_intent (show_recovery_intent a) ≡ a
unfolding read_recovery_intent show_recovery_intent
read-show_recovery_intent RecoveryIntent.none = refl
read-show_recovery_intent RecoveryIntent.route_repair = refl
read-show_recovery_intent RecoveryIntent.restart_runtime = refl
read-show_recovery_intent RecoveryIntent.rotate_recovery = refl

show_desired_state-injective :
    (a b : DesiredState) → show_desired_state a ≡ show_desired_state b → a ≡ b
show_desired_state-injective a b h =
    sym (read-show_desired_state a) ∙ ap read_desired_state h ∙ read-show_desired_state b

show_recovery_intent-injective :
    (a b : RecoveryIntent) → show_recovery_intent a ≡ show_recovery_intent b → a ≡ b
show_recovery_intent-injective a b h =
    sym (read-show_recovery_intent a) ∙ ap read_recovery_intent h ∙ read-show_recovery_intent b

show_desired_state-short : (a : DesiredState) → length (as_bytes (show_desired_state a)) < 2 ^ 64
unfolding show_desired_state as_bytes
show_desired_state-short healthy_serving = omega arith
show_desired_state-short degraded_safe = omega arith

show_recovery_intent-short :
    (a : RecoveryIntent) → length (as_bytes (show_recovery_intent a)) < 2 ^ 64
unfolding show_recovery_intent as_bytes
show_recovery_intent-short RecoveryIntent.none = omega arith
show_recovery_intent-short RecoveryIntent.route_repair = omega arith
show_recovery_intent-short RecoveryIntent.restart_runtime = omega arith
show_recovery_intent-short RecoveryIntent.rotate_recovery = omega arith

-- A device id fits in memory, and a deadline window is a `u32`.
unfoldable pub IsRequest : String → IssueCommandRequest → Type 0
IsRequest device_id request =
    (length (as_bytes device_id) < 2 ^ 64) × (request.deadline_secs < 2 ^ 32)

request_parts-IsFramable :
    (device_id : String) (request : IssueCommandRequest)
    → IsRequest device_id request
    → IsFramable (request_parts device_id request)
unfolding IsRequest
request_parts-IsFramable device_id request (small, _) = (
  small,
  (
    show_desired_state-short request.desired_state,
    (
      show_recovery_intent-short request.recovery_intent,
      (omega (arith, to_be_bytes-length 4 request.deadline_secs), tt),
    ),
  ),
)

request_fingerprint-injective :
    (b : Blake3) (device other : String) (request asked : IssueCommandRequest)
    → IsCollisionFree b
    → IsRequest device request
    → IsRequest other asked
    → request_fingerprint b device request ≡ request_fingerprint b other asked
    → (device ≡ other)
      × (request.desired_state ≡ asked.desired_state)
      × (request.recovery_intent ≡ asked.recovery_intent)
      × (request.deadline_secs ≡ asked.deadline_secs)
unfolding request_fingerprint derive IsCollisionFree IsRequest
request_fingerprint-injective b device other request asked free fits fits' h =
    let parts =
      frame-injective (request_parts device request) (request_parts other asked)
        (request_parts-IsFramable device request fits) (request_parts-IsFramable other asked fits')
        (free _ _ _ h) in
    let devices : as_bytes device ≡ as_bytes other = cc in
    let states : as_bytes (show_desired_state request.desired_state)
        ≡ as_bytes (show_desired_state asked.desired_state) =
      cc in
    let intents : as_bytes (show_recovery_intent request.recovery_intent)
        ≡ as_bytes (show_recovery_intent asked.recovery_intent) =
      cc in
    let deadlines : to_be_bytes 4 request.deadline_secs ≡ to_be_bytes 4 asked.deadline_secs = cc in
    (
      as_bytes-injective device other devices,
      show_desired_state-injective request.desired_state asked.desired_state
          (as_bytes-injective _ _ states),
      show_recovery_intent-injective request.recovery_intent asked.recovery_intent
          (as_bytes-injective _ _ intents),
      to_be_bytes-injective 4 request.deadline_secs asked.deadline_secs (omega arith) (omega arith)
          deadlines,
    )

-- With a hash that does not collide, a repeated key gives the original command exactly when the
-- device and all parameters are the original ones, and is a conflict in all other cases.
pub classify_existing_iff :
    (b : Blake3) (existing : DeviceCommand) (device_id : String) (request : IssueCommandRequest)
    → IsCollisionFree b
    → IsRequest existing.device_id (request_for existing)
    → IsRequest device_id request
    → ((classify_existing b existing device_id request ≡ ok existing)
        ↔ ((existing.device_id ≡ device_id) × (request_for existing ≡ request)))
      × ((classify_existing b existing device_id request ≢ ok existing)
          → classify_existing b existing device_id request ≡ err idempotency_conflict)
unfolding classify_existing
classify_existing_iff b existing device_id request free fits fits' = (
  (
    λ h.
        let keys : (existing.idempotency_key == request.idempotency_key) ≡ true = ground arith in
        let prints : (request_fingerprint b existing.device_id (request_for existing)
              == request_fingerprint b device_id request)
            ≡ true =
          ground arith in
        let (d, state, intent, deadline) =
          request_fingerprint-injective b existing.device_id device_id (request_for existing)
            request free fits fits' (==→eq _ _ prints) in
        let key = ==→eq existing.idempotency_key request.idempotency_key keys in
        (
          d,
          λ i. record {
            desired_state = state i;
            recovery_intent = intent i;
            deadline_secs = deadline i;
            idempotency_key = key i;
          },
        ),
    λ (d, r).
        rw
          (
            ← d,
            ← r,
            ==_refl existing.idempotency_key,
            ==_refl (request_fingerprint b existing.device_id (request_for existing)),
          )
          refl,
  ),
  ground arith,
)
