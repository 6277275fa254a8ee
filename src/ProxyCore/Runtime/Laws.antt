-- ===== src/ProxyCore/Runtime/Laws.antt =====
-- crates/proxy-core/src/runtime.rs: when a projected device is ready, serving or degraded.
use mathlib.Core.Option
use mobile_proxy.Base.{
  Option, [], ◌∷◌, Map, lookup, is_some, is_some_and, sym, Bool, true, false, none, some, String,
  string_eq, ◌≡◌, refl, ◌≢◌, ◌↔◌, arith, ◌==◌, Bool-cases, ==→eq, eq→==, inl, inr, ◌&&◌,
  if◌then◌else◌,
}
use mobile_proxy.ProxyCore.Runtime.{
  RuntimeReadiness, Availability, DegradationReasonCode, show_reason, degradation_reason_message,
  RuntimeProjectionInput, parse, show_readiness, show_availability, normalize_serving,
  derive_degradation_reason, project_runtime, is_healthy,
}

parse-show_readiness : (r : RuntimeReadiness) → parse (show_readiness r) ≡ r
unfolding parse show_readiness
parse-show_readiness RuntimeReadiness.booting = refl
parse-show_readiness _ = refl

-- `parse` has one text for each state that it knows.
parse-healthy : (raw : String) → is_healthy (parse raw) ≡ true → raw ≡ "healthy"
unfolding parse
parse-healthy raw h = elim (Bool-cases (raw == "healthy")) [
  | inl e ↦ ==→eq raw "healthy" e
  | inr n ↦ ground arith
]

-- When the raw state, the job, the probes and the report let a device serve.
pub record Serves (i : RuntimeProjectionInput) : Type 0 where
  pub healthy : i.readiness_state ≡ "healthy"
  pub idle : i.current_job ≡ none
  pub route : i.cellular_route_ready ≢ some false
  pub bind : i.proxy_bind_ready ≢ some false
  pub probe : i.local_serving_ready ≢ some false
  pub reported : i.serving ≡ true

serving_needs :
    (i : RuntimeProjectionInput) → normalize_serving (parse i.readiness_state) i ≡ true → Serves i
unfolding normalize_serving
serving_needs i h = ground (arith, parse-healthy i.readiness_state)

serving_from :
    (i : RuntimeProjectionInput) → Serves i → normalize_serving (parse i.readiness_state) i ≡ true
unfolding normalize_serving parse
serving_from i h = rw h.healthy (ground arith)

-- Serving, and a reason for degradation, exclude one another and leave no third case.
reason_iff :
    (r : RuntimeReadiness) (i : RuntimeProjectionInput)
    → (derive_degradation_reason r (normalize_serving r i) i ≡ none)
      ↔ (normalize_serving r i ≡ true)
unfolding derive_degradation_reason normalize_serving
reason_iff r i = (λ h. ground arith, λ h. ground arith)

show_availability-ready :
    (a : Availability) → show_availability a ≡ "ready" → a ≡ Availability.ready
unfolding show_availability
show_availability-ready Availability.ready h = refl
show_availability-ready Availability.degraded h = cc (eq→== "degraded" "ready" h)

-- A device is published as serving exactly when it reports the state `healthy` and `serving`, has
-- no job, and none of the three readiness probes is known to have failed.
pub serving_iff : (i : RuntimeProjectionInput) → ((project_runtime i).serving ≡ true) ↔ Serves i
unfolding project_runtime
serving_iff i = (serving_needs i, serving_from i)

availability_of : RuntimeProjectionInput → Availability
availability_of i =
    let r = parse i.readiness_state in
    if is_healthy r && normalize_serving r i && i.publicly_serving
    then Availability.ready
    else Availability.degraded

ready_needs :
    (i : RuntimeProjectionInput)
    → availability_of i ≡ Availability.ready
    → Serves i × (i.publicly_serving ≡ true)
unfolding availability_of
ready_needs i h = ground (arith, serving_needs i)

ready_from :
    (i : RuntimeProjectionInput)
    → Serves i
    → i.publicly_serving ≡ true
    → show_availability (availability_of i) ≡ "ready"
unfolding availability_of show_availability parse
ready_from i h p = rw (serving_from i h, h.healthy, p)

-- A device is published as `ready` exactly when it serves by `serving_iff` and was seen to serve
-- publicly.
pub ready_iff :
    (i : RuntimeProjectionInput)
    → ((project_runtime i).availability ≡ "ready") ↔ (Serves i × (i.publicly_serving ≡ true))
unfolding project_runtime availability_of
ready_iff i = (λ h. ready_needs i (show_availability-ready _ h), λ h. ready_from i h.0 h.1)

-- The text that goes with each reason code.
abbrev pub reason_texts : Map String String
reason_texts =
    ("booting", "runtime is booting")
    ∷ ("wireguard_path_not_ready", "wireguard path is not ready")
    ∷ ("cellular_route_missing", "cellular default route is not ready")
    ∷ ("proxy_starting", "proxy is starting")
    ∷ ("proxy_bind_failed", "proxy is not bound to the expected listen address")
    ∷ ("local_probe_failed", "local proxy probe failed")
    ∷ ("rotation_in_progress", "rotation job is in progress")
    ∷ ("quarantined", "runtime is quarantined")
    ∷ ("unknown_state", "runtime reported unknown state")
    ∷ []

shown_text :
    (r : DegradationReasonCode)
    → lookup (show_reason r) reason_texts ≡ some (degradation_reason_message r)
unfolding lookup show_reason degradation_reason_message
shown_text DegradationReasonCode.booting = refl
shown_text _ = refl

reason_text :
    (reason : Option DegradationReasonCode) (code : String)
    → Option.map show_reason reason ≡ some code
    → Option.map degradation_reason_message reason ≡ lookup code reason_texts
reason_text none code h = absurd (ground arith)
reason_text (some r) code h =
    let same : show_reason r ≡ code = ground arith in sym (rw (← same) (shown_text r))

-- Only the code of a rotation has its text.
rotation_only :
    (reason : Option DegradationReasonCode)
    → is_some_and (Option.map show_reason reason) (λ code. code == "rotation_in_progress") ≡ true
    → reason ≡ some DegradationReasonCode.rotation_in_progress
unfolding show_reason
rotation_only (some DegradationReasonCode.rotation_in_progress) h = refl
rotation_only _ h = absurd (ground arith)

rotation_needs_job :
    (r : RuntimeReadiness) (b : Bool) (i : RuntimeProjectionInput)
    → derive_degradation_reason r b i ≡ some DegradationReasonCode.rotation_in_progress
    → is_some i.current_job ≡ true
unfolding derive_degradation_reason
rotation_needs_job r b i h = ground arith

rotation_reason :
    (r : RuntimeReadiness) (b : Bool) (i : RuntimeProjectionInput)
    → (Option.map show_reason (derive_degradation_reason r b i) ≡ some "rotation_in_progress")
      ↔ (is_some i.current_job ≡ true)
unfolding derive_degradation_reason show_reason
rotation_reason r b i =
    (λ h. rotation_needs_job r b i (rotation_only _ (rw h refl)), λ h. rw h refl)

-- A device is published with no reason for degradation exactly when it is serving. A reason code is
-- published with the text that `reason_texts` has for it, and without a code there is no text; the
-- code of a rotation is published exactly while there is a job.
pub reason_iff_not_serving :
    (i : RuntimeProjectionInput)
    → let p = project_runtime i in
      ((p.degradation_reason_code ≡ none) ↔ (p.serving ≡ true))
      × ((p.serving_failure_reason ≡ none) ↔ (p.degradation_reason_code ≡ none))
      × ((code : String)
          → p.degradation_reason_code ≡ some code
          → p.serving_failure_reason ≡ lookup code reason_texts)
      × ((p.degradation_reason_code ≡ some "rotation_in_progress") ↔ (is_some i.current_job ≡ true))
unfolding project_runtime
reason_iff_not_serving i =
    let r = parse i.readiness_state in
    let serving = normalize_serving r i in
    (
      (λ h. (reason_iff r i).0 (ground (arith, h)), λ h. rw ((reason_iff r i).1 h)),
      (λ h. ground (arith, h), λ h. ground (arith, h)),
      λ code h. reason_text (derive_degradation_reason r serving i) code h,
      rotation_reason r serving i,
    )

normalize_serving_twice :
    (r : RuntimeReadiness) (i : RuntimeProjectionInput) (raw : String)
    → normalize_serving r (record i { readiness_state = raw; serving = normalize_serving r i })
      ≡ normalize_serving r i
unfolding normalize_serving
normalize_serving_twice r i raw = ground arith

derive_degradation_reason_again :
    (r : RuntimeReadiness) (b : Bool) (i : RuntimeProjectionInput) (raw : String) (s : Bool)
    → derive_degradation_reason r b (record i { readiness_state = raw; serving = s })
      ≡ derive_degradation_reason r b i
unfolding derive_degradation_reason
derive_degradation_reason_again r b i raw s = ground arith

-- Projecting a published device again, with the report's other fields unchanged, changes nothing.
pub project_twice :
    (i : RuntimeProjectionInput)
    → let p = project_runtime i in
      project_runtime (record i { readiness_state = p.readiness_state; serving = p.serving }) ≡ p
unfolding project_runtime
project_twice i =
    simp (parse-show_readiness, normalize_serving_twice, derive_degradation_reason_again)
