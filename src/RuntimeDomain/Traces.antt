-- ===== src/RuntimeDomain/Traces.antt =====
-- crates/runtime-domain/src/lib.rs: what holds of `reduce` and of every sequence of events.
use mobile_proxy.Base.{
  List, [], ◌∷◌, ◌++◌, true, ◌≡◌, refl, ap, ◌≢◌, ◌↔◌, ◌⊎◌, inl, inr, arith, length, ◌≤◌,
}
use mathlib.Core.List.{Sublist, Sublistᴰ}
use mobile_proxy.RuntimeDomain.{
  RuntimeState, booting, waiting_tunnel, waiting_cellular, starting_proxy, healthy, recovering,
  quarantined, RuntimeEvent, boot_completed, tunnel_ready, tunnel_lost, cellular_ready,
  cellular_lost, proxy_ready, proxy_failed, rotation_requested, recovery_timed_out, noop,
  start_rotation, changed, RuntimeState-discrete, reduce, run,
}

Sublistᴰ-tail :
    (x : RuntimeEvent) (xs : List RuntimeEvent) {ys : List RuntimeEvent}
    → Sublistᴰ (x ∷ xs) ys
    → Sublistᴰ xs ys
Sublistᴰ-tail x xs (Sublistᴰ.cons s) = Sublistᴰ.cons (Sublistᴰ-tail x xs s)
Sublistᴰ-tail x xs (Sublistᴰ.cons-cons e s) = Sublistᴰ.cons s

Sublistᴰ-nil : (ys : List RuntimeEvent) → Sublistᴰ [] ys
Sublistᴰ-nil [] = Sublistᴰ.slnil
Sublistᴰ-nil (y ∷ ys) = Sublistᴰ.cons (Sublistᴰ-nil ys)

-- The events that must still come, in order, before the runtime is healthy.
abbrev needs : RuntimeState → List RuntimeEvent
needs booting = boot_completed ∷ tunnel_ready ∷ cellular_ready ∷ proxy_ready ∷ []
needs waiting_tunnel = tunnel_ready ∷ cellular_ready ∷ proxy_ready ∷ []
needs waiting_cellular = cellular_ready ∷ proxy_ready ∷ []
needs starting_proxy = proxy_ready ∷ []
needs healthy = []
needs recovering = cellular_ready ∷ proxy_ready ∷ []
needs quarantined = cellular_ready ∷ proxy_ready ∷ []

needs-step :
    (s : RuntimeState) (e : RuntimeEvent) {es : List RuntimeEvent}
    → Sublistᴰ (needs (reduce s e).state) es
    → Sublistᴰ (needs s) (e ∷ es)
unfolding reduce
needs-step booting boot_completed h = Sublistᴰ.cons-cons refl h
needs-step waiting_tunnel tunnel_ready h = Sublistᴰ.cons-cons refl h
needs-step waiting_cellular cellular_ready h = Sublistᴰ.cons-cons refl h
needs-step starting_proxy proxy_ready h = Sublistᴰ.cons-cons refl h
needs-step recovering cellular_ready h = Sublistᴰ.cons-cons refl h
needs-step starting_proxy tunnel_lost h = Sublistᴰ.cons (Sublistᴰ-tail _ _ h)
needs-step starting_proxy cellular_lost h = Sublistᴰ.cons (Sublistᴰ-tail _ _ h)
needs-step starting_proxy proxy_failed h = Sublistᴰ.cons (Sublistᴰ-tail _ _ h)
needs-step healthy e h = Sublistᴰ-nil _
needs-step _ e h = Sublistᴰ.cons h

needs-run : (s : RuntimeState) (es : List RuntimeEvent) → run s es ≡ healthy → Sublistᴰ (needs s) es
unfolding run
needs-run healthy [] h = Sublistᴰ.slnil
needs-run _ [] h = cc
needs-run s (e ∷ es) h = needs-step s e (needs-run (reduce s e).state es h)

-- A sequence of events that leads a booting runtime to `Healthy` contains, in this order,
-- `BootCompleted`, `TunnelReady`, `CellularReady` and `ProxyReady`.
pub healthy_needs_readiness :
    (es : List RuntimeEvent)
    → run booting es ≡ healthy
    → Sublist (boot_completed ∷ tunnel_ready ∷ cellular_ready ∷ proxy_ready ∷ []) es
healthy_needs_readiness es h = ∣ needs-run booting es h ∣₁

-- For every state and event, `changed` is true of the transition exactly when its action is not
-- `Noop`.
pub changed-reduce_iff :
    (s : RuntimeState) (e : RuntimeEvent)
    → (changed (reduce s e) ≡ true) ↔ ((reduce s e).action ≢ noop)
unfolding changed reduce
changed-reduce_iff s e = (λ h. ground arith, λ h. ground arith)

-- A rotation is started exactly by `RotationRequested` in `Healthy`.
pub start_rotation_iff :
    (s : RuntimeState) (e : RuntimeEvent)
    → ((reduce s e).action ≡ start_rotation) ↔ ((s ≡ healthy) × (e ≡ rotation_requested))
unfolding reduce
start_rotation_iff s e = ground arith

-- `Quarantined` is entered only by `RecoveryTimedOut` in `Recovering`.
entry-quarantined :
    (s : RuntimeState) (e : RuntimeEvent)
    → (reduce s e).state ≡ quarantined
    → (s ≡ quarantined) ⊎ ((s ≡ recovering) × (e ≡ recovery_timed_out))
unfolding reduce
entry-quarantined s e h = ground arith

quarantined_stays : (es : List RuntimeEvent) → run quarantined es ≡ quarantined
unfolding run reduce
quarantined_stays [] = refl
quarantined_stays (e ∷ es) = quarantined_stays es

quarantined_split :
    (s : RuntimeState) (es : List RuntimeEvent)
    → s ≢ quarantined
    → run s es ≡ quarantined
    → (before after : List RuntimeEvent) × (es ≡ before ++ recovery_timed_out ∷ after)
      × (run s before ≡ recovering)
unfolding run
quarantined_split s [] h q = absurd (h q)
quarantined_split s (e ∷ es) h q = elim (RuntimeState-discrete (reduce s e).state quarantined) [
  | yes now ↦ elim (entry-quarantined s e now) [
    | inl already ↦ absurd (h already)
    | inr (was, timed_out) ↦ ([], es, cc, was)
  ]
  | no later ↦
      let (before, after, split, reached) = quarantined_split (reduce s e).state es later q in
      (e ∷ before, after, ap (◌∷◌ e) split, reached)
]

run-append : (s : RuntimeState) (xs ys : List RuntimeEvent) → run s (xs ++ ys) ≡ run (run s xs) ys
unfolding run
run-append s [] ys = refl
run-append s (x ∷ xs) ys = run-append (reduce s x).state xs ys

quarantined_after :
    (s : RuntimeState) (before after : List RuntimeEvent)
    → run s before ≡ recovering
    → run s (before ++ recovery_timed_out ∷ after) ≡ quarantined
unfolding run reduce
quarantined_after s before after h = rw run-append (rw h (quarantined_stays after))

-- A sequence of events leads a state other than `Quarantined` to `Quarantined` exactly when it
-- splits around a `RecoveryTimedOut` that arrives in `Recovering`.
pub quarantined_iff :
    (s : RuntimeState) (es : List RuntimeEvent)
    → s ≢ quarantined
    → (run s es ≡ quarantined) ↔ (
        (before after : List RuntimeEvent) × (es ≡ before ++ recovery_timed_out ∷ after)
        × (run s before ≡ recovering))
quarantined_iff s es h = (quarantined_split s es h, λ p. rw (p.2) (quarantined_after s p.0 p.1 p.3))

-- From every state but `Quarantined` at most four events lead to `Healthy`.
pub reach_healthy :
    (s : RuntimeState)
    → s ≢ quarantined
    → (es : List RuntimeEvent) × (run s es ≡ healthy) × (length es ≤ 4)
unfolding run reduce
reach_healthy booting h =
    (boot_completed ∷ tunnel_ready ∷ cellular_ready ∷ proxy_ready ∷ [], refl, omega arith)
reach_healthy waiting_tunnel h =
    (tunnel_ready ∷ cellular_ready ∷ proxy_ready ∷ [], refl, omega arith)
reach_healthy waiting_cellular h = (cellular_ready ∷ proxy_ready ∷ [], refl, omega arith)
reach_healthy starting_proxy h = (proxy_ready ∷ [], refl, omega arith)
reach_healthy healthy h = ([], refl, omega arith)
reach_healthy recovering h = (cellular_ready ∷ proxy_ready ∷ [], refl, omega arith)
reach_healthy quarantined h = absurd (h refl)
