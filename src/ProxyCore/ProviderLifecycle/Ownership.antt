-- ===== src/ProxyCore/ProviderLifecycle/Ownership.antt =====
-- crates/proxy-core/src/provider_lifecycle.rs: what it means that a resource claims an intent, and
-- that a binding has exactly one resource, independently of the tests that the code makes.
use mobile_proxy.Base.{
  string_eq, true, false, List, ◌∷◌, ◌++◌, ◌≡◌, refl, ◌≢◌, ◌↔◌, ◌==◌, arith, All, ok, err, eq→==,
  Bool-cases, inl, inr,
}
use mobile_proxy.ProxyCore.ProviderLifecycle.Values.{
  OwnershipIntent, OwnershipMetadata, metadata_eq, metadata_beq_iff, scope_beq_iff, exact_metadata,
  claims_intent, OwnershipObservation, exact, missing, conflicting, ObservedVm, VmBinding,
  Generation, ownership_project, ownership_manager,
}
use mobile_proxy.ProxyCore.ProviderLifecycle.{provider_resource_not_found, claims, check_metadata}

-- The ownership is the exact metadata of the intent, in some generation.
abbrev pub Owns : OwnershipIntent → OwnershipObservation → Type 0
Owns intent o = (g : Generation) × (o ≡ exact (exact_metadata intent g))

claims→Owns :
    (intent : OwnershipIntent) (o : OwnershipObservation) → claims intent o ≡ true → Owns intent o
unfolding claims_intent exact_metadata
claims→Owns intent (exact m) h = (
  m.generation,
  ground (
    arith,
    string_eq.eq_iff m.project ownership_project,
    string_eq.eq_iff m.managed_by ownership_manager,
    scope_beq_iff m.scope intent.scope,
    string_eq.eq_iff m.intent_id intent.id,
  ),
)
claims→Owns intent missing h = cc
claims→Owns intent conflicting h = cc

pub claims-exact_metadata :
    (intent : OwnershipIntent) (g : Generation)
    → claims_intent (exact_metadata intent g) intent ≡ true
unfolding claims_intent exact_metadata
claims-exact_metadata intent g = ground (
  arith,
  string_eq.eq_iff ownership_project ownership_project,
  string_eq.eq_iff intent.id intent.id,
  scope_beq_iff intent.scope intent.scope,
)

pub claims_iff :
    (intent : OwnershipIntent) (o : OwnershipObservation) → (claims intent o ≡ true) ↔ Owns intent o
claims_iff intent o =
    (claims→Owns intent o, λ owned. rw (owned.1) (claims-exact_metadata intent owned.0))

pub not_claims :
    (intent : OwnershipIntent) (o : OwnershipObservation)
    → claims intent o ≡ false
    → ¬ Owns intent o
not_claims intent o h owned = cc ((claims_iff intent o).1 owned)

pub claims-false :
    (intent : OwnershipIntent) (o : OwnershipObservation)
    → ¬ Owns intent o
    → claims intent o ≡ false
claims-false intent o h = elim (Bool-cases (claims intent o)) [
  | inl yes' ↦ absurd (h ((claims_iff intent o).0 yes'))
  | inr no' ↦ no'
]

pub check_metadata-ok : (e m : OwnershipMetadata) → check_metadata e m ≡ ok tt → m ≡ e
unfolding check_metadata
check_metadata-ok e m h = elim (Bool-cases (m == e)) [
  | inl same ↦ (metadata_beq_iff m e).0 same
  | inr other ↦ absurd (ground arith)
]

pub check_metadata_self : (e : OwnershipMetadata) → check_metadata e e ≡ ok tt
unfolding check_metadata
check_metadata_self e = rw (eq→== e e refl)

pub check_metadata-not_found :
    (e m : OwnershipMetadata) → check_metadata e m ≢ err provider_resource_not_found
unfolding check_metadata
check_metadata-not_found e m h = ground arith

-- Of the observed resources exactly one belongs to the binding's intent; it has the bound provider
-- id and generation, and no resource before it has that id.
pub record SoleResource (binding : VmBinding) (observed : List ObservedVm) : Type 0 where
  pub before : List ObservedVm
  pub resource : ObservedVm
  pub after : List ObservedVm
  pub split : observed ≡ before ++ resource ∷ after
  pub same_id : resource.provider_id ≡ binding.provider_id
  pub owned : resource.ownership ≡ exact (exact_metadata binding.intent binding.generation)
  pub others_before : All (λ r. ¬ Owns binding.intent r.ownership) before
  pub others_after : All (λ r. ¬ Owns binding.intent r.ownership) after
  pub first_with_id : All (λ r. r.provider_id ≢ binding.provider_id) before
