-- ===== src/ProxyCore/Runtime.antt =====
-- crates/proxy-core/src/runtime.rs: the projection of a device's reported runtime state to what
-- the control plane publishes. A `Uuid` is the number that its 128 bits stand for.
pub mod Laws
use mathlib.Core.Logic.{ite}
use mathlib.Core.Option
use mobile_proxy.Base.{
  ℕ, String, Bool, true, false, Option, none, some, ◌==◌, ◌&&◌, if◌then◌else◌, is_some, string_eq,
}

pub data RuntimeReadiness : Type 0 where
  booting waiting_wireguard waiting_cellular starting_proxy healthy quarantined unknown :
      RuntimeReadiness

unfoldable pub parse : String → RuntimeReadiness
parse raw =
    if raw == "booting"
    then booting
    else if raw == "waiting_wireguard"
    then waiting_wireguard
    else if raw == "waiting_cellular"
    then waiting_cellular
    else if raw == "starting_proxy"
    then starting_proxy
    else if raw == "healthy"
    then healthy
    else if raw == "quarantined"
    then quarantined
    else unknown

unfoldable pub show_readiness : RuntimeReadiness → String
show_readiness booting = "booting"
show_readiness waiting_wireguard = "waiting_wireguard"
show_readiness waiting_cellular = "waiting_cellular"
show_readiness starting_proxy = "starting_proxy"
show_readiness healthy = "healthy"
show_readiness quarantined = "quarantined"
show_readiness unknown = "unknown"

pub data Availability : Type 0 where
  ready degraded : Availability

unfoldable pub show_availability : Availability → String
show_availability ready = "ready"
show_availability degraded = "degraded"

pub data DegradationReasonCode : Type 0 where
  booting wireguard_path_not_ready cellular_route_missing proxy_starting proxy_bind_failed
        local_probe_failed rotation_in_progress quarantined unknown_state :
      DegradationReasonCode

unfoldable pub show_reason : DegradationReasonCode → String
show_reason booting = "booting"
show_reason wireguard_path_not_ready = "wireguard_path_not_ready"
show_reason cellular_route_missing = "cellular_route_missing"
show_reason proxy_starting = "proxy_starting"
show_reason proxy_bind_failed = "proxy_bind_failed"
show_reason local_probe_failed = "local_probe_failed"
show_reason rotation_in_progress = "rotation_in_progress"
show_reason quarantined = "quarantined"
show_reason unknown_state = "unknown_state"

unfoldable pub degradation_reason_message : DegradationReasonCode → String
degradation_reason_message booting = "runtime is booting"
degradation_reason_message wireguard_path_not_ready = "wireguard path is not ready"
degradation_reason_message cellular_route_missing = "cellular default route is not ready"
degradation_reason_message proxy_starting = "proxy is starting"
degradation_reason_message proxy_bind_failed = "proxy is not bound to the expected listen address"
degradation_reason_message local_probe_failed = "local proxy probe failed"
degradation_reason_message rotation_in_progress = "rotation job is in progress"
degradation_reason_message quarantined = "runtime is quarantined"
degradation_reason_message unknown_state = "runtime reported unknown state"

pub record RuntimeProjectionInput : Type 0 where
  pub readiness_state : String
  pub serving : Bool
  pub publicly_serving : Bool
  pub current_job : Option ℕ
  pub cellular_route_ready : Option Bool
  pub proxy_bind_ready : Option Bool
  pub local_serving_ready : Option Bool

pub record RuntimeProjection : Type 0 where
  pub readiness_state : String
  pub serving : Bool
  pub availability : String
  pub degradation_reason_code : Option String
  pub serving_failure_reason : Option String

abbrev pub is_healthy : RuntimeReadiness → Bool
is_healthy healthy = true
is_healthy _ = false

-- `== Some(false)`.
abbrev pub is_false : Option Bool → Bool
is_false (some false) = true
is_false _ = false

unfoldable pub normalize_serving : RuntimeReadiness → RuntimeProjectionInput → Bool
normalize_serving readiness input =
    if is_healthy readiness
    then if is_some input.current_job
      then false
      else if is_false input.cellular_route_ready
      then false
      else if is_false input.proxy_bind_ready
      then false
      else if is_false input.local_serving_ready
      then false
      else input.serving
    else false

-- The last `match` of `derive_degradation_reason`.
abbrev reason_of_readiness : RuntimeReadiness → Bool → Option DegradationReasonCode
reason_of_readiness booting serving = some booting
reason_of_readiness waiting_wireguard serving = some wireguard_path_not_ready
reason_of_readiness waiting_cellular serving = some cellular_route_missing
reason_of_readiness starting_proxy serving = some proxy_starting
reason_of_readiness quarantined serving = some quarantined
reason_of_readiness unknown serving = some unknown_state
reason_of_readiness healthy serving = if serving then none else some local_probe_failed

-- `if !serving { .. }` and what follows it.
abbrev reason_of_probes :
    RuntimeReadiness → Bool → RuntimeProjectionInput → Option DegradationReasonCode
reason_of_probes readiness true input = reason_of_readiness readiness true
reason_of_probes readiness false input =
    if is_false input.cellular_route_ready
    then some cellular_route_missing
    else if is_false input.proxy_bind_ready
    then some proxy_bind_failed
    else if is_false input.local_serving_ready
    then some local_probe_failed
    else reason_of_readiness readiness false

-- The first `match`, which returns early in the two waiting states.
abbrev reason_of_waiting :
    RuntimeReadiness → Bool → RuntimeProjectionInput → Option DegradationReasonCode
reason_of_waiting waiting_wireguard serving input = some wireguard_path_not_ready
reason_of_waiting waiting_cellular serving input = some cellular_route_missing
reason_of_waiting readiness serving input = reason_of_probes readiness serving input

unfoldable pub derive_degradation_reason :
    RuntimeReadiness → Bool → RuntimeProjectionInput → Option DegradationReasonCode
derive_degradation_reason readiness serving input =
    if is_some input.current_job
    then some rotation_in_progress
    else reason_of_waiting readiness serving input

unfoldable pub project_runtime : RuntimeProjectionInput → RuntimeProjection
project_runtime input =
    let readiness = parse input.readiness_state in
    let serving = normalize_serving readiness input in
    let reason = derive_degradation_reason readiness serving input in
    let availability =
      if is_healthy readiness && serving && input.publicly_serving then ready else degraded in
    record {
      readiness_state = show_readiness readiness;
      serving = serving;
      availability = show_availability availability;
      degradation_reason_code = Option.map show_reason reason;
      serving_failure_reason = Option.map degradation_reason_message reason;
    }
