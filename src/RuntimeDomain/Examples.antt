-- ===== src/RuntimeDomain/Examples.antt =====
-- crates/runtime-domain/src/lib.rs: the theorems at concrete events, and runs of the machine.
use mathlib.Core.List.{Sublist}
use mobile_proxy.Base.{◌≡◌, ◌≢◌, ◌↔◌, ◌≤◌, refl, List, [], ◌∷◌, ◌++◌, true, length, arith}
use mobile_proxy.RuntimeDomain.{
  recovering, healthy, quarantined, RuntimeEvent, boot_completed, tunnel_ready, tunnel_lost,
  cellular_ready, proxy_ready, recovery_timed_out, rotation_requested, start_rotation, noop,
  changed, reduce, run,
}
use mobile_proxy.RuntimeDomain.Traces.{
  healthy_needs_readiness, changed-reduce_iff, start_rotation_iff, quarantined_iff, reach_healthy,
}

-- A boot on which the tunnel is lost once, while the runtime waits for the cellular route.
abbrev boot_events : List RuntimeEvent
boot_events =
    boot_completed ∷ tunnel_ready ∷ tunnel_lost ∷ tunnel_ready ∷ cellular_ready ∷ proxy_ready ∷ []

abbrev lost_events : List RuntimeEvent
lost_events = tunnel_lost ∷ recovery_timed_out ∷ tunnel_ready ∷ []

healthy_needs_readiness_example :
    Sublist (boot_completed ∷ tunnel_ready ∷ cellular_ready ∷ proxy_ready ∷ []) boot_events
unfolding run reduce
healthy_needs_readiness_example = healthy_needs_readiness boot_events refl

changed-reduce_iff_example :
    (changed (reduce healthy tunnel_lost) ≡ true) ↔ ((reduce healthy tunnel_lost).action ≢ noop)
changed-reduce_iff_example = changed-reduce_iff healthy tunnel_lost

start_rotation_iff_example :
    ((reduce healthy rotation_requested).action ≡ start_rotation)
    ↔ ((healthy ≡ healthy) × (rotation_requested ≡ rotation_requested))
start_rotation_iff_example = start_rotation_iff healthy rotation_requested

quarantined_iff_example : (run healthy lost_events ≡ quarantined) ↔ (
    (before after : List RuntimeEvent) × (lost_events ≡ before ++ recovery_timed_out ∷ after)
    × (run healthy before ≡ recovering))
quarantined_iff_example = quarantined_iff healthy lost_events (λ e. ground arith)

reach_healthy_example : (es : List RuntimeEvent) × (run recovering es ≡ healthy) × (length es ≤ 4)
reach_healthy_example = reach_healthy recovering (λ e. ground arith)
