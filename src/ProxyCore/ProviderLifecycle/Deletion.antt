-- ===== src/ProxyCore/ProviderLifecycle/Deletion.antt =====
-- crates/proxy-core/src/provider_lifecycle.rs, `authorize_mutation`: what it takes to conclude that a
-- machine is gone.
use mobile_proxy.Base.{
  string_eq, List, [], ◌∷◌, ◌≡◌, refl, ap, ◌≢◌, ◌↔◌, ◌==◌, arith, All, All-map, All-zip,
  length-filter_split, filter_absent, ok, err, eq→==, ==_refl, ==_false, nat_eq, inl, inr, Option,
  none, some, Option-cases, find, find-split, find_absent, find-none, filter-nil, length,
}
use mobile_proxy.ProxyCore.ProviderLifecycle.Values.{
  OwnershipMetadata, exact_metadata, OwnershipObservation, exact, missing, conflicting, ObservedVm,
  VmBinding, Generation,
}
use mobile_proxy.ProxyCore.ProviderLifecycle.{
  MutationKind, provider_resource_not_found, claims, check_bound_observation, bound_ownership,
  claimed_ownership, resolve_claims, resolve_bound_resource, authorize_mutation, ownership_claims,
}
use mobile_proxy.ProxyCore.ProviderLifecycle.Ownership.{
  Owns, claims_iff, not_claims, claims-false, check_metadata-not_found,
}
use mobile_proxy.ProxyCore.ProviderLifecycle.Mutation.{bound_ownership-ok}

-- The binding's resource is gone: nothing observed has its id or belongs to its intent.
abbrev pub Absent : VmBinding → List ObservedVm → Type 0
Absent b observed =
    All (λ r. (r.provider_id ≢ b.provider_id) × (¬ Owns b.intent r.ownership)) observed

bound_ownership-not_found :
    (e : OwnershipMetadata) (o : OwnershipObservation)
    → bound_ownership e o ≢ err provider_resource_not_found
bound_ownership-not_found e (exact m) h = check_metadata-not_found e m h
bound_ownership-not_found e missing h = cc
bound_ownership-not_found e conflicting h = cc

claimed_ownership-not_found :
    (e : OwnershipMetadata) (o : OwnershipObservation)
    → claimed_ownership e o ≢ err provider_resource_not_found
claimed_ownership-not_found e (exact m) h = check_metadata-not_found e m h
claimed_ownership-not_found e missing h = cc
claimed_ownership-not_found e conflicting h = cc

check_bound_observation-not_found :
    (e : OwnershipMetadata) (o : Option ObservedVm)
    → check_bound_observation e o ≢ err provider_resource_not_found
unfolding check_bound_observation
check_bound_observation-not_found e none h = cc
check_bound_observation-not_found e (some r) h = bound_ownership-not_found e r.ownership h

resolve_claims-not_found :
    (b : VmBinding) (l : List ObservedVm)
    → resolve_claims b l ≡ err provider_resource_not_found
    → l ≡ []
unfolding resolve_claims
resolve_claims-not_found b [] h = refl
resolve_claims-not_found b (r ∷ []) h =
    let e = exact_metadata b.intent b.generation in
    absurd (ground (arith, claimed_ownership-not_found e r.ownership))
resolve_claims-not_found b (r ∷ q ∷ l) h = absurd (ground arith)

-- What is found under the bound id either refuses with another error, or is a claimant.
unbound_of_gone :
    (b : VmBinding) (observed : List ObservedVm)
    → check_bound_observation
        (exact_metadata b.intent b.generation)
        (find (λ r. r.provider_id == b.provider_id) observed)
      ≡ ok tt
    → ownership_claims observed b.intent ≡ []
    → find (λ r. r.provider_id == b.provider_id) observed ≡ none
unfolding check_bound_observation ownership_claims
unbound_of_gone b observed bound unclaimed =
    elim (Option-cases (find (λ q. q.provider_id == b.provider_id) observed)) [
      | inl absent ↦ absent
      | inr (q, found) ↦
          let (before, after, split, _, _) = find-split _ observed q found in
          let owned = bound_ownership-ok _ q.ownership (rw found at bound) in
          let claiming = (claims_iff b.intent q.ownership).1 (b.generation, owned) in
          let counted =
            length-filter_split (λ r. claims b.intent r.ownership) before q after claiming in
          absurd (omega (arith, counted, ap length (rw split at unclaimed)))
    ]

not_found-steps :
    (b : VmBinding) (observed : List ObservedVm) (g : Generation)
    → resolve_bound_resource b observed g ≡ err provider_resource_not_found
    → (g ≡ b.generation)
      × (check_bound_observation
            (exact_metadata b.intent b.generation)
            (find (λ r. r.provider_id == b.provider_id) observed)
          ≡ ok tt)
      × (resolve_claims b (ownership_claims observed b.intent) ≡ err provider_resource_not_found)
unfolding resolve_bound_resource
not_found-steps b observed g h =
    let e = exact_metadata b.intent b.generation in
    let o = find (λ r. r.provider_id == b.provider_id) observed in
    ground (arith, check_bound_observation-not_found e o)

gone_needs :
    (b : VmBinding) (observed : List ObservedVm) (g : Generation)
    → resolve_bound_resource b observed g ≡ err provider_resource_not_found
    → (g ≡ b.generation) × Absent b observed
unfolding ownership_claims
gone_needs b observed g h =
    let (current, bound, claimed) = not_found-steps b observed g h in
    let unclaimed = resolve_claims-not_found b _ claimed in
    let unbound = find_absent _ observed (unbound_of_gone b observed bound unclaimed) in
    let free = filter_absent (λ r. claims b.intent r.ownership) observed (ap length unclaimed) in
    (
      current,
      All-map observed
          (λ r n. (
            (λ e. cc (n.0, eq→== r.provider_id b.provider_id e)),
            not_claims b.intent r.ownership n.1,
          ))
          (All-zip _ _ observed unbound free),
    )

gone_from :
    (b : VmBinding) (observed : List ObservedVm)
    → Absent b observed
    → resolve_bound_resource b observed b.generation ≡ err provider_resource_not_found
unfolding resolve_bound_resource check_bound_observation resolve_claims ownership_claims
gone_from b observed h =
    let unfound =
      find-none (λ r. r.provider_id == b.provider_id) observed
        (All-map observed (λ r n. ==_false r.provider_id b.provider_id n.0) h) in
    let unclaimed =
      filter-nil (λ r. claims b.intent r.ownership) observed
        (All-map observed (λ r n. claims-false b.intent r.ownership n.1) h) in
    rw (==_refl b.generation, unfound, unclaimed)

-- `authorize_mutation` answers that the resource was not found, which is how a delete is confirmed,
-- exactly when the expected generation is the bound one and no observed resource has the bound
-- provider id or belongs to the binding's intent.
pub authorize_mutation_not_found_iff :
    (b : VmBinding) (observed : List ObservedVm) (g : Generation) (kind : MutationKind)
    → (authorize_mutation b observed g kind ≡ err provider_resource_not_found)
      ↔ ((g ≡ b.generation) × Absent b observed)
unfolding authorize_mutation
authorize_mutation_not_found_iff b observed g kind =
    (gone_needs b observed g, λ h. rw (h.0) (gone_from b observed h.1))
