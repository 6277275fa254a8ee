-- ===== src/ProxyCore/ProviderLifecycle/Present.antt =====
-- crates/proxy-core/src/provider_lifecycle.rs, `plan_present`: when a create, nothing, or a
-- reconfiguration is planned.
use mobile_proxy.Base.{
  string_eq, List, ◌≡◌, refl, ap, sym, ◌≢◌, ◌↔◌, ◌==◌, arith, All, All-map, All-zip, ok, err, eq→==,
  ==_false, inl, inr, Option, none, some, find, filter, filter-nil, filter_absent, length,
  if◌then◌else◌, any, Result, Result-cases, ok-injective, ◌∙◌,
}
use mobile_proxy.ProxyCore.ProviderLifecycle.Values.{
  ObservedVm, VmBinding, VerifiedMutationTarget, Generation, DesiredVm, PlannedCreate,
  initial_generation, intent_eq, intent_beq_iff,
}
use mobile_proxy.ProxyCore.ProviderLifecycle.{
  ReconcilePlan, create, noop, LifecycleError, claims, bound_target, resolve_bound_resource,
  ownership_claims, plan_unbound, plan_bound, plan_present,
}
use mobile_proxy.ProxyCore.ProviderLifecycle.Ownership.{
  Owns, not_claims, claims-false, SoleResource,
}
use mobile_proxy.ProxyCore.ProviderLifecycle.Mutation.{
  authorized_needs, authorized_from, SoleResource-find,
}

-- Nothing observed belongs to the desired intent or has the desired name.
abbrev pub Unclaimed : DesiredVm → List ObservedVm → Type 0
Unclaimed d observed =
    All (λ r. (¬ Owns d.intent r.ownership) × (r.display_name ≢ d.display_name)) observed

abbrev pub planned : DesiredVm → PlannedCreate
planned d = record { intent = d.intent; generation = initial_generation }

unbound-steps :
    (observed : List ObservedVm) (d : DesiredVm) (g : Option Generation) (p : ReconcilePlan)
    → plan_unbound observed d g ≡ ok p
    → (g ≡ none)
      × (length (ownership_claims observed d.intent) ≡ 0)
      × (length (filter (λ r. r.display_name == d.display_name) observed) ≡ 0)
      × (p ≡ create (planned d))
unfolding plan_unbound
unbound-steps observed d g p h = ground arith

unbound_from :
    (observed : List ObservedVm) (d : DesiredVm)
    → Unclaimed d observed
    → plan_unbound observed d none ≡ ok (create (planned d))
unfolding plan_unbound ownership_claims any
unbound_from observed d h = rw (
  filter-nil (λ r. claims d.intent r.ownership) observed
      (All-map observed (λ r n. claims-false d.intent r.ownership n.0) h),
  filter-nil (λ r. r.display_name == d.display_name) observed
      (All-map observed (λ r n. ==_false r.display_name d.display_name n.1) h),
)

unbound_needs :
    (observed : List ObservedVm) (d : DesiredVm) (g : Option Generation) (p : PlannedCreate)
    → plan_unbound observed d g ≡ ok (create p)
    → (g ≡ none) × (p ≡ planned d) × Unclaimed d observed
unfolding ownership_claims
unbound_needs observed d g p h =
    let (fresh, unclaimed, unnamed, plan) = unbound-steps observed d g (create p) h in
    (
      fresh,
      ground arith,
      All-map observed
          (λ r n. (
            not_claims d.intent r.ownership n.0,
            λ e. cc (n.1, eq→== r.display_name d.display_name e),
          ))
          (All-zip _ _ observed (filter_absent _ observed unclaimed)
            (filter_absent _ observed unnamed)),
    )

-- A plan for a binding: the intents agree, the resource is resolved, and the specification of what
-- is found under the target's id decides.
abbrev decide_by_spec :
    Option ObservedVm → DesiredVm → VerifiedMutationTarget → Result LifecycleError ReconcilePlan
decide_by_spec none d t = err LifecycleError.provider_resource_not_found
decide_by_spec (some r) d t =
    ok (if r.spec_fingerprint == d.spec_fingerprint then noop t else ReconcilePlan.reconfigure t)

bound_given :
    (b : VmBinding) (observed : List ObservedVm) (d : DesiredVm) (n : Generation)
    (t : VerifiedMutationTarget)
    → b.intent ≡ d.intent
    → resolve_bound_resource b observed n ≡ ok t
    → plan_bound b observed d (some n)
      ≡ decide_by_spec (find (λ r. r.provider_id == t.provider_id) observed) d t
unfolding plan_bound
bound_given b observed d n t same resolved =
    rw ((intent_beq_iff b.intent d.intent).1 same, resolved) (ground arith)

bound-steps :
    (b : VmBinding) (observed : List ObservedVm) (d : DesiredVm) (g : Option Generation)
    (p : ReconcilePlan)
    → plan_bound b observed d g ≡ ok p
    → (b.intent ≡ d.intent)
      × (n : Generation) × (g ≡ some n)
      × (t : VerifiedMutationTarget) × (resolve_bound_resource b observed n ≡ ok t)
unfolding plan_bound
bound-steps b observed d none p h = absurd (ground arith)
bound-steps b observed d (some n) p h = elim (Result-cases (resolve_bound_resource b observed n)) [
  | inl (t, resolved) ↦ (ground (arith, intent_beq_iff b.intent d.intent), n, refl, t, resolved)
  | inr (e, failed) ↦ absurd (ground arith)
]

-- With the sole resource at hand, its specification decides.
bound_value :
    (b : VmBinding) (observed : List ObservedVm) (d : DesiredVm)
    → b.intent ≡ d.intent
    → (h : SoleResource b observed)
    → plan_bound b observed d (some b.generation)
      ≡ ok (
          if h.resource.spec_fingerprint == d.spec_fingerprint
          then noop (bound_target b)
          else ReconcilePlan.reconfigure (bound_target b))
bound_value b observed d same h =
    rw (bound_given b observed d b.generation (bound_target b) same (authorized_from b observed h))
      (rw (SoleResource-find b observed h))

bound_needs :
    (b : VmBinding) (observed : List ObservedVm) (d : DesiredVm) (g : Option Generation)
    (p : ReconcilePlan)
    → plan_bound b observed d g ≡ ok p
    → (b.intent ≡ d.intent)
      × (g ≡ some b.generation)
      × (h : SoleResource b observed) × (p ≡ (
          if h.resource.spec_fingerprint == d.spec_fingerprint
          then noop (bound_target b)
          else ReconcilePlan.reconfigure (bound_target b)))
bound_needs b observed d g p h =
    let (same, n, expected, t, resolved) = bound-steps b observed d g p h in
    let (current, target, sole) = authorized_needs b observed n t resolved in
    let expected' : g ≡ some b.generation = expected ∙ ap some current in
    (
      same,
      expected',
      sole,
      ok-injective (sym (rw expected' at h) ∙ bound_value b observed d same sole),
    )

-- A create is planned exactly when there is no binding and no expected generation, and no observed
-- resource belongs to the desired intent or has the desired name; it is a create of the desired
-- intent in the initial generation.
pub plan_present-create_iff :
    (b : Option VmBinding) (observed : List ObservedVm) (d : DesiredVm) (g : Option Generation)
    (p : PlannedCreate)
    → (plan_present b observed d g ≡ ok (create p))
      ↔ ((b ≡ none) × (g ≡ none) × (p ≡ planned d) × Unclaimed d observed)
unfolding plan_present
plan_present-create_iff none observed d g p = (
  λ h. let (fresh, plan, free) = unbound_needs observed d g p h in (refl, fresh, plan, free),
  λ h. rw (h.1, h.2) (unbound_from observed d h.3),
)
plan_present-create_iff (some b) observed d g p = (
  λ h. absurd (ground (arith, (bound_needs b observed d g (create p) h).3)),
  λ h. absurd (ground (arith, h.0)),
)

-- With a binding, a plan is made exactly when the binding has the desired intent, the expected
-- generation is the bound one and the binding has its sole resource; the plan is then to do nothing
-- if that resource has the desired specification, and to reconfigure the binding's target if not.
pub plan_present-bound_iff :
    (b : VmBinding) (observed : List ObservedVm) (d : DesiredVm) (g : Option Generation)
    (p : ReconcilePlan)
    → (plan_present (some b) observed d g ≡ ok p) ↔ (
        (b.intent ≡ d.intent)
        × (g ≡ some b.generation)
        × (h : SoleResource b observed) × (p ≡ (
            if h.resource.spec_fingerprint == d.spec_fingerprint
            then noop (bound_target b)
            else ReconcilePlan.reconfigure (bound_target b))))
unfolding plan_present
plan_present-bound_iff b observed d g p =
    (bound_needs b observed d g p, λ h. rw (h.1, h.3) (bound_value b observed d h.0 h.2))
