-- ===== src/ProxyCore/ProviderLifecycle/Mutation.antt =====
-- crates/proxy-core/src/provider_lifecycle.rs, `authorize_mutation`: what it takes to be allowed to
-- change a machine.
use mobile_proxy.Base.{
  string_eq, true, false, List, [], ◌∷◌, ◌++◌, ◌≡◌, refl, ap, sym, subst, ◌≢◌, ◌↔◌, ◌==◌, arith,
  All, All-map, All-filter, ok, ==→eq, eq→==, ==_refl, ==_false, nat_eq, inl, inr, none, some,
  Option-cases, find, find-split, find_absent, find-append, filter-sole, filter-singleton, length,
  ◌≤◌,
}
use mobile_proxy.ProxyCore.ProviderLifecycle.Values.{
  OwnershipMetadata, exact_metadata, OwnershipObservation, exact, missing, conflicting, ObservedVm,
  VmBinding, VerifiedMutationTarget, Generation,
}
use mobile_proxy.ProxyCore.ProviderLifecycle.{
  MutationKind, claims, check_bound_observation, bound_ownership, bound_target, resolve_claims,
  resolve_bound_resource, authorize_mutation, ownership_claims,
}
use mobile_proxy.ProxyCore.ProviderLifecycle.Ownership.{
  claims_iff, not_claims, claims-false, check_metadata-ok, check_metadata_self, SoleResource,
}

resolve-steps :
    (b : VmBinding) (observed : List ObservedVm) (g : Generation) (t : VerifiedMutationTarget)
    → resolve_bound_resource b observed g ≡ ok t
    → (b.generation ≡ g)
      × (check_bound_observation
            (exact_metadata b.intent b.generation)
            (find (λ r. r.provider_id == b.provider_id) observed)
          ≡ ok tt)
      × (resolve_claims b (ownership_claims observed b.intent) ≡ ok t)
unfolding resolve_bound_resource
resolve-steps b observed g t h = ground arith

resolve_claims-ok :
    (b : VmBinding) (l : List ObservedVm) (t : VerifiedMutationTarget)
    → resolve_claims b l ≡ ok t
    → (r : ObservedVm) × (l ≡ r ∷ []) × (r.provider_id ≡ b.provider_id) × (t ≡ bound_target b)
unfolding resolve_claims
resolve_claims-ok b [] t h = absurd (ground arith)
resolve_claims-ok b (r ∷ []) t h =
    (r, refl, ground (arith, string_eq.eq_iff r.provider_id b.provider_id), ground arith)
resolve_claims-ok b (r ∷ q ∷ l) t h = absurd (ground arith)

pub bound_ownership-ok :
    (e : OwnershipMetadata) (o : OwnershipObservation) → bound_ownership e o ≡ ok tt → o ≡ exact e
bound_ownership-ok e (exact m) h = ap exact (check_metadata-ok e m h)
bound_ownership-ok e missing h = cc
bound_ownership-ok e conflicting h = cc

absent_id :
    (b : VmBinding) (observed : List ObservedVm) (r : ObservedVm)
    → find (λ q. q.provider_id == b.provider_id) observed ≡ none
    → ownership_claims observed b.intent ≡ r ∷ []
    → r.provider_id ≢ b.provider_id
unfolding ownership_claims
absent_id b observed r absent sole same =
    let P : ObservedVm → Type 0 = λ q. (q.provider_id == b.provider_id) ≡ false in
    let none_left =
      All-filter P (λ q. claims b.intent q.ownership) observed (find_absent _ observed absent) in
    cc ((rw sole at none_left).0, eq→== r.provider_id b.provider_id same)

sole_at :
    (b : VmBinding) (before : List ObservedVm) (q : ObservedVm) (after : List ObservedVm)
    → length (ownership_claims (before ++ q ∷ after) b.intent) ≤ 1
    → (q.provider_id == b.provider_id) ≡ true
    → q.ownership ≡ exact (exact_metadata b.intent b.generation)
    → All (λ y. (y.provider_id == b.provider_id) ≡ false) before
    → SoleResource b (before ++ q ∷ after)
unfolding ownership_claims
sole_at b before q after few same owned firsts =
    let claiming = (claims_iff b.intent q.ownership).1 (b.generation, owned) in
    let (clean_before, clean_after) =
      filter-sole (λ r. claims b.intent r.ownership) before q after claiming few in
    record {
      before = before;
      resource = q;
      after = after;
      split = refl;
      same_id = ==→eq q.provider_id b.provider_id same;
      owned = owned;
      others_before = All-map before (λ r. not_claims b.intent r.ownership) clean_before;
      others_after = All-map after (λ r. not_claims b.intent r.ownership) clean_after;
      first_with_id = All-map before (λ r n e. cc (n, eq→== r.provider_id b.provider_id e)) firsts;
    }

-- The sole claimant is the first resource under the bound id.
sole_of_claims :
    (b : VmBinding) (observed : List ObservedVm) (r : ObservedVm)
    → check_bound_observation
        (exact_metadata b.intent b.generation)
        (find (λ q. q.provider_id == b.provider_id) observed)
      ≡ ok tt
    → ownership_claims observed b.intent ≡ r ∷ []
    → r.provider_id ≡ b.provider_id
    → SoleResource b observed
unfolding check_bound_observation
sole_of_claims b observed r bound sole same =
    elim (Option-cases (find (λ q. q.provider_id == b.provider_id) observed)) [
      | inl absent ↦ absurd (absent_id b observed r absent sole same)
      | inr (q, found) ↦
          let (before, after, split, same_id, firsts) = find-split _ observed q found in
          let owned = bound_ownership-ok _ q.ownership (rw found at bound) in
          let few : length (ownership_claims (before ++ q ∷ after) b.intent) ≤ 1 =
            rw (← split, sole) (omega arith) in
          subst (SoleResource b) (sym split) (sole_at b before q after few same_id owned firsts)
    ]

pub authorized_needs :
    (b : VmBinding) (observed : List ObservedVm) (g : Generation) (t : VerifiedMutationTarget)
    → resolve_bound_resource b observed g ≡ ok t
    → (g ≡ b.generation) × (t ≡ bound_target b) × SoleResource b observed
authorized_needs b observed g t h =
    let (current, bound, claimed) = resolve-steps b observed g t h in
    let (r, sole, same, target) = resolve_claims-ok b _ t claimed in
    (sym current, target, sole_of_claims b observed r bound sole same)

pub SoleResource-find :
    (b : VmBinding) (observed : List ObservedVm) (h : SoleResource b observed)
    → find (λ q. q.provider_id == b.provider_id) observed ≡ some h.resource
SoleResource-find b observed h = rw (h.split) (
    find-append _ h.before h.resource h.after
      (All-map h.before (λ r n. ==_false r.provider_id b.provider_id n) h.first_with_id)
      (eq→== h.resource.provider_id b.provider_id h.same_id))

SoleResource-claims :
    (b : VmBinding) (observed : List ObservedVm) (h : SoleResource b observed)
    → ownership_claims observed b.intent ≡ h.resource ∷ []
unfolding ownership_claims
SoleResource-claims b observed h = rw (h.split) (
    filter-singleton _ h.before h.resource h.after
      (All-map h.before (λ r. claims-false b.intent r.ownership) h.others_before)
      ((claims_iff b.intent h.resource.ownership).1 (b.generation, h.owned))
      (All-map h.after (λ r. claims-false b.intent r.ownership) h.others_after))

resolve_claims_sole :
    (b : VmBinding) (r : ObservedVm)
    → r.provider_id ≡ b.provider_id
    → r.ownership ≡ exact (exact_metadata b.intent b.generation)
    → resolve_claims b (r ∷ []) ≡ ok (bound_target b)
unfolding resolve_claims
resolve_claims_sole b r same owned =
    rw (eq→== r.provider_id b.provider_id same, owned) (rw check_metadata_self)

pub authorized_from :
    (b : VmBinding) (observed : List ObservedVm)
    → SoleResource b observed
    → resolve_bound_resource b observed b.generation ≡ ok (bound_target b)
unfolding resolve_bound_resource check_bound_observation
authorized_from b observed h =
    rw
      (
        ==_refl b.generation,
        SoleResource-find b observed h,
        SoleResource-claims b observed h,
        resolve_claims_sole b h.resource h.same_id h.owned,
      )
      (rw (h.owned, check_metadata_self))

-- A mutation is authorised, with some target, exactly when the expected generation is the bound
-- one, the target is the binding's, and among the observed resources exactly one belongs to the
-- binding's intent: it has the bound provider id and generation, and is the first with that id.
pub authorize_mutation_iff :
    (b : VmBinding) (observed : List ObservedVm) (g : Generation) (kind : MutationKind)
    (t : VerifiedMutationTarget)
    → (authorize_mutation b observed g kind ≡ ok t)
      ↔ ((g ≡ b.generation) × (t ≡ bound_target b) × SoleResource b observed)
unfolding authorize_mutation
authorize_mutation_iff b observed g kind t =
    (authorized_needs b observed g t, λ h. rw (h.0, h.1) (authorized_from b observed h.2))
