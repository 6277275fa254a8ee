-- ===== src/ProxyCore/ProviderLifecycle.antt =====
-- crates/proxy-core/src/provider_lifecycle.rs: who may create, keep or change a cloud machine.
-- `Values` has the value types, this file the decisions over what the provider reports.
pub mod Values
pub mod Ownership
pub mod Mutation
pub mod Deletion
pub mod Present
pub mod Replacement
use mobile_proxy.Base.{
  ℕ, String, Bool, true, false, not, ◌&&◌, Option, none, some, List, [], ◌∷◌, ◌==◌, nat_eq,
  string_eq, ltb, length, filter, if◌then◌else◌, find, any, is_some, Result, ok, err, ◌>>=◌, ◌>>◌,
  fail_if, ok_or,
}
use mathlib.Core.List.{head?}
use Values.{
  OwnershipIntent, intent_eq, OwnershipMetadata, metadata_eq, exact_metadata, claims_intent,
  matches_except_generation, OwnershipObservation, exact, missing, conflicting, ObservedVm,
  VmBinding, DesiredVm, VerifiedMutationTarget, PlannedCreate, initial_generation, Generation,
}

pub data ReconcilePlan : Type 0 where
  create : PlannedCreate → ReconcilePlan
  noop : VerifiedMutationTarget → ReconcilePlan
  reconfigure : VerifiedMutationTarget → ReconcilePlan

pub data MutationKind : Type 0 where
  stop reconfigure snapshot delete replace : MutationKind

pub data LifecycleError : Type 0 where
  ownership_intent_mismatch expected_generation_required unexpected_generation_for_create
        stale_generation provider_resource_not_found provider_identity_mismatch missing_ownership
        ownership_metadata_mismatch conflicting_ownership_metadata ambiguous_resource_set
        duplicate_ownership_claim neighboring_or_unbound_resource :
      LifecycleError

-- The test of `ownership_claims`: exact metadata that claims the intent.
abbrev pub claims : OwnershipIntent → OwnershipObservation → Bool
claims intent (exact metadata) = claims_intent metadata intent
claims intent missing = false
claims intent conflicting = false

unfoldable pub ownership_claims : List ObservedVm → OwnershipIntent → List ObservedVm
ownership_claims observed intent = filter (λ resource. claims intent resource.ownership) observed

abbrev pub is_conflicting : OwnershipObservation → Bool
is_conflicting conflicting = true
is_conflicting (exact _) = false
is_conflicting missing = false

-- `metadata != &expected_metadata`, and which error that is.
unfoldable pub check_metadata :
    OwnershipMetadata → OwnershipMetadata → Result LifecycleError (Unit {0})
check_metadata expected metadata = do
  let different = not (metadata == expected)
  fail_if (different && matches_except_generation metadata expected) stale_generation
  fail_if different ownership_metadata_mismatch

-- The `match` on the ownership that is observed under the bound provider id.
abbrev bound_ownership : OwnershipMetadata → OwnershipObservation → Result LifecycleError (Unit {0})
bound_ownership expected missing = err missing_ownership
bound_ownership expected conflicting = err conflicting_ownership_metadata
bound_ownership expected (exact metadata) = check_metadata expected metadata

unfoldable pub check_bound_observation :
    OwnershipMetadata → Option ObservedVm → Result LifecycleError (Unit {0})
check_bound_observation expected none = ok tt
check_bound_observation expected (some resource) = bound_ownership expected resource.ownership

-- `let OwnershipObservation::Exact(metadata) = .. else`, and the comparison that follows.
abbrev claimed_ownership :
    OwnershipMetadata → OwnershipObservation → Result LifecycleError (Unit {0})
claimed_ownership expected (exact metadata) = check_metadata expected metadata
claimed_ownership expected missing = err missing_ownership
claimed_ownership expected conflicting = err missing_ownership

abbrev pub bound_target : VmBinding → VerifiedMutationTarget
bound_target binding = record {
  provider_id = binding.provider_id;
  intent = binding.intent;
  generation = binding.generation;
}

-- From the list of claims on: at most one, at least one, the bound one, with the expected metadata.
unfoldable pub resolve_claims :
    VmBinding → List ObservedVm → Result LifecycleError VerifiedMutationTarget
resolve_claims binding claimed = do
  fail_if (ltb 1 (length claimed)) duplicate_ownership_claim
  resource ← ok_or (head? claimed) provider_resource_not_found
  fail_if (not (resource.provider_id == binding.provider_id)) provider_identity_mismatch
  claimed_ownership (exact_metadata binding.intent binding.generation) resource.ownership
  ok (bound_target binding)

unfoldable pub resolve_bound_resource :
    VmBinding → List ObservedVm → Generation → Result LifecycleError VerifiedMutationTarget
resolve_bound_resource binding observed expected_generation = do
  fail_if (not (binding.generation == expected_generation)) stale_generation
  check_bound_observation (exact_metadata binding.intent binding.generation)
      (find (λ resource. resource.provider_id == binding.provider_id) observed)
  resolve_claims binding (ownership_claims observed binding.intent)

unfoldable pub authorize_mutation :
    VmBinding
    → List ObservedVm
    → Generation
    → MutationKind
    → Result LifecycleError VerifiedMutationTarget
authorize_mutation binding observed expected_generation kind =
    resolve_bound_resource binding observed expected_generation

unfoldable pub plan_unbound :
    List ObservedVm → DesiredVm → Option Generation → Result LifecycleError ReconcilePlan
plan_unbound observed desired expected_generation = do
  fail_if (is_some expected_generation) unexpected_generation_for_create
  let claimed = ownership_claims observed desired.intent
  fail_if (ltb 1 (length claimed)) duplicate_ownership_claim
  fail_if (length claimed == 1) neighboring_or_unbound_resource
  let same_name = filter (λ resource. resource.display_name == desired.display_name) observed
  fail_if (any (λ resource. is_conflicting resource.ownership) same_name)
      conflicting_ownership_metadata
  fail_if (ltb 1 (length same_name)) ambiguous_resource_set
  fail_if (length same_name == 1) neighboring_or_unbound_resource
  ok (create (record { intent = desired.intent; generation = initial_generation }))

unfoldable pub plan_bound :
    VmBinding
    → List ObservedVm
    → DesiredVm
    → Option Generation
    → Result LifecycleError ReconcilePlan
plan_bound binding observed desired expected_generation = do
  fail_if (not (binding.intent == desired.intent)) ownership_intent_mismatch
  generation ← ok_or expected_generation expected_generation_required
  target ← resolve_bound_resource binding observed generation
  resource ←
      ok_or (find (λ resource. resource.provider_id == target.provider_id) observed)
        provider_resource_not_found
  ok (
      if resource.spec_fingerprint == desired.spec_fingerprint
      then noop target
      else reconfigure target)

unfoldable pub plan_present :
    Option VmBinding
    → List ObservedVm
    → DesiredVm
    → Option Generation
    → Result LifecycleError ReconcilePlan
plan_present none observed desired expected_generation =
    plan_unbound observed desired expected_generation
plan_present (some binding) observed desired expected_generation =
    plan_bound binding observed desired expected_generation
