-- ===== src/ProxyCore/CreateDispatch/Convergence.antt =====
-- crates/proxy-core/src/provider_create_dispatch.rs and provider_lifecycle.rs together: a planned
-- create, its fence, the recovery from the fence and the next plan agree with one another.
use mobile_proxy.Base.{
  List, ◌∷◌, ◌++◌, ◌≡◌, refl, ◌==◌, All, All-map, All-append, ok, eq→==, none, some, filter-nil,
  ◌≢◌, string_eq, any, ==_false,
}
use mobile_proxy.ProxyCore.ProviderLifecycle.Values.{
  exact, ObservedVm, exact_metadata, DesiredVm, PlannedCreate, ProviderResourceId,
  binding_after_create, initial_generation, intent_beq_iff,
}
use mobile_proxy.ProxyCore.ProviderLifecycle.{
  claims, ownership_claims, plan_present, create, noop, bound_target,
}
use mobile_proxy.ProxyCore.ProviderLifecycle.Ownership.{claims-false, SoleResource}
use mobile_proxy.ProxyCore.ProviderLifecycle.Present.{
  Unclaimed, planned, plan_present-create_iff, plan_present-bound_iff,
}
use mobile_proxy.ProxyCore.CreateDispatch.{
  CreateDispatchFence, await_provider, recovered, create_dispatch_fence, recover_dispatched_create,
  recover_claim, fence_ownership,
}
use mobile_proxy.ProxyCore.CreateDispatch.Recovery.{
  Claimant, Namesake, recovered_as, recover_dispatched_create-recovered_iff,
}

-- What the provider lists once it has made the planned machine under a provider id.
abbrev pub created : PlannedCreate → DesiredVm → ProviderResourceId → ObservedVm
created p d id = record {
  provider_id = id;
  display_name = d.display_name;
  ownership = exact (exact_metadata p.intent p.generation);
  spec_fingerprint = d.spec_fingerprint;
}

abbrev fence_of : DesiredVm → CreateDispatchFence
fence_of d = record {
  intent = d.intent;
  generation = initial_generation;
  display_name = d.display_name;
  spec_fingerprint = d.spec_fingerprint;
}

fence_planned : (d : DesiredVm) → create_dispatch_fence (planned d) d ≡ ok (fence_of d)
unfolding create_dispatch_fence
fence_planned d = rw (intent_beq_iff d.intent d.intent).1 refl

awaits :
    (d : DesiredVm) (observed : List ObservedVm)
    → Unclaimed d observed
    → recover_dispatched_create (fence_of d) observed ≡ ok await_provider
unfolding recover_dispatched_create ownership_claims recover_claim any
awaits d observed h = rw (
  filter-nil (λ r. claims d.intent r.ownership) observed
      (All-map observed (λ r n. claims-false d.intent r.ownership n.0) h),
  filter-nil (λ r. r.display_name == d.display_name) observed
      (All-map observed (λ r n. ==_false r.display_name d.display_name n.1) h),
)

module _ (d : DesiredVm) (id : ProviderResourceId) (before after : List ObservedVm)
    (hb : Unclaimed d before) (ha : Unclaimed d after) where
  claimant : Claimant (fence_of d) (before ++ created (planned d) d id ∷ after)
  claimant = record {
    before = before;
    resource = created (planned d) d id;
    after = after;
    split = refl;
    holds = (initial_generation, refl);
    others_before = All-map before (λ r n. n.0) hb;
    others_after = All-map after (λ r n. n.0) ha;
  }

  namesake : Namesake (fence_of d) (before ++ created (planned d) d id ∷ after)
  namesake = record {
    before = before;
    resource = created (planned d) d id;
    after = after;
    split = refl;
    holds = refl;
    others_before = All-map before (λ r n. n.1) hb;
    others_after = All-map after (λ r n. n.1) ha;
  }

  recovers :
      recover_dispatched_create (fence_of d) (before ++ created (planned d) d id ∷ after)
      ≡ ok (recovered (recovered_as (fence_of d) (created (planned d) d id)))
  unfolding fence_ownership claimant namesake
  recovers = (recover_dispatched_create-recovered_iff (fence_of d) _ _).1 (
    claimant,
    namesake,
    refl,
    record { owned = refl; spec = refl; same_id = refl; clear = λ e. cc },
  )

  settles :
      All (λ r. r.provider_id ≢ id) before
      → let binding = binding_after_create (planned d) id in
        plan_present
          (some binding)
          (before ++ created (planned d) d id ∷ after)
          d
          (some binding.generation)
        ≡ ok (noop (bound_target binding))
  unfolding binding_after_create
  settles fresh =
      let sole : SoleResource (binding_after_create (planned d) id)
          (before ++ created (planned d) d id ∷ after) =
        record {
          before = before;
          resource = created (planned d) d id;
          after = after;
          split = refl;
          same_id = refl;
          owned = refl;
          others_before = All-map before (λ r n. n.0) hb;
          others_after = All-map after (λ r n. n.0) ha;
          first_with_id = fresh;
        } in
      (plan_present-bound_iff (binding_after_create (planned d) id) _ d _ _).1
        (refl, refl, sole, rw (eq→== d.spec_fingerprint d.spec_fingerprint refl))

-- Where a create is planned, it is fenced; while the provider does not list the machine, the
-- recovery waits; once it lists the machine among what it listed before, under an id that none of
-- the resources listed before it has, the recovery returns the fence with the binding of the create,
-- and the next plan for that binding is to do nothing.
pub create_converges :
    (d : DesiredVm) (id : ProviderResourceId) (before after : List ObservedVm) (p : PlannedCreate)
    → plan_present none (before ++ after) d none ≡ ok (create p)
    → All (λ r. r.provider_id ≢ id) before
    → let binding = binding_after_create p id in
      let listed = before ++ created p d id ∷ after in
      (f : CreateDispatchFence) × (create_dispatch_fence p d ≡ ok f)
      × (recover_dispatched_create f (before ++ after) ≡ ok await_provider)
      × (recover_dispatched_create f listed
          ≡ ok (recovered (record { fence = f; binding = binding })))
      × (plan_present (some binding) listed d (some binding.generation)
          ≡ ok (noop (bound_target binding)))
unfolding binding_after_create
create_converges d id before after p plan fresh =
    let (_, _, is_planned, free) =
      (plan_present-create_iff none (before ++ after) d none p).0 plan in
    let (hb, ha) = All-append _ before after free in
    rw is_planned (
      fence_of d,
      fence_planned d,
      awaits d (before ++ after) free,
      recovers d id before after hb ha,
      settles d id before after hb ha fresh,
    )
