-- ===== src/ProxyCore/CreateDispatch.antt =====
-- crates/proxy-core/src/provider_create_dispatch.rs: the fence that a create leaves behind before it
-- is sent to the provider, and the recovery of a create whose answer was lost.
pub mod Recovery
pub mod Convergence
use mathlib.Core.List.{head?}
use mobile_proxy.Base.{
  String, Bool, true, false, not, ◌||◌, Option, none, some, List, [], ◌∷◌, ◌==◌, nat_eq, string_eq,
  ltb, length, filter, any, Result, ok, err, ◌>>=◌, ◌>>◌, fail_if,
}
use mobile_proxy.ProxyCore.ProviderLifecycle.Values.{
  OwnershipIntent, intent_eq, Generation, initial_generation, OwnershipMetadata, metadata_eq,
  exact_metadata, OwnershipObservation, exact, missing, conflicting, ProviderResourceId, ObservedVm,
  VmBinding, DesiredVm, PlannedCreate,
}
use mobile_proxy.ProxyCore.ProviderLifecycle.{ownership_claims, is_conflicting}

pub record CreateDispatchFence : Type 0 where
  pub intent : OwnershipIntent
  pub generation : Generation
  pub display_name : String
  pub spec_fingerprint : String

unfoldable pub fence_ownership : CreateDispatchFence → OwnershipMetadata
fence_ownership fence = exact_metadata fence.intent fence.generation

pub record RecoveredCreate : Type 0 where
  pub fence : CreateDispatchFence
  pub binding : VmBinding

pub data CreateRecovery : Type 0 where
  await_provider : CreateRecovery
  recovered : RecoveredCreate → CreateRecovery

pub data CreateDispatchError : Type 0 where
  ownership_intent_mismatch unexpected_generation duplicate_ownership_claim
        conflicting_ownership_metadata ambiguous_resource_set neighboring_or_unbound_resource
        stale_generation observed_create_mismatch :
      CreateDispatchError

unfoldable pub create_dispatch_fence_for_recovery :
    OwnershipIntent → Generation → DesiredVm → Result CreateDispatchError CreateDispatchFence
create_dispatch_fence_for_recovery intent generation desired = do
  fail_if (not (intent == desired.intent)) ownership_intent_mismatch
  fail_if (not (generation == initial_generation)) unexpected_generation
  ok (record {
    intent = desired.intent;
    generation = generation;
    display_name = desired.display_name;
    spec_fingerprint = desired.spec_fingerprint;
  })

unfoldable pub create_dispatch_fence :
    PlannedCreate → DesiredVm → Result CreateDispatchError CreateDispatchFence
unfolding create_dispatch_fence_for_recovery
create_dispatch_fence plan desired =
    create_dispatch_fence_for_recovery plan.intent plan.generation desired

-- `same_name.len() != 1 || same_name[0].provider_id != resource.provider_id`.
abbrev pub is_named_by : List ObservedVm → ObservedVm → Bool
is_named_by [] resource = false
is_named_by (named ∷ []) resource = named.provider_id == resource.provider_id
is_named_by (named ∷ other ∷ rest) resource = false

-- The metadata of a claim; the filter of the claims lets only exact ownership through.
abbrev pub is_owned_as : OwnershipMetadata → OwnershipObservation → Bool
is_owned_as expected (exact metadata) = metadata == expected
is_owned_as expected missing = false
is_owned_as expected conflicting = false

-- The result for the first claim, or for none.
unfoldable pub recover_claim :
    CreateDispatchFence
    → List ObservedVm
    → Option ObservedVm
    → Result CreateDispatchError CreateRecovery
recover_claim fence same_name none = do
  fail_if (length same_name == 1) neighboring_or_unbound_resource
  ok await_provider
recover_claim fence same_name (some resource) = do
  fail_if (not (is_named_by same_name resource)) observed_create_mismatch
  fail_if (not (is_owned_as (fence_ownership fence) resource.ownership)) stale_generation
  fail_if (not (resource.spec_fingerprint == fence.spec_fingerprint)) observed_create_mismatch
  ok (
      recovered (record {
        fence = fence;
        binding = record {
          intent = fence.intent;
          provider_id = resource.provider_id;
          generation = fence.generation;
        };
      }))

unfoldable pub recover_dispatched_create :
    CreateDispatchFence → List ObservedVm → Result CreateDispatchError CreateRecovery
recover_dispatched_create fence observed = do
  let claimed = ownership_claims observed fence.intent
  fail_if (ltb 1 (length claimed)) duplicate_ownership_claim
  let same_name = filter (λ resource. resource.display_name == fence.display_name) observed
  fail_if (any (λ resource. is_conflicting resource.ownership) same_name)
      conflicting_ownership_metadata
  fail_if (ltb 1 (length same_name)) ambiguous_resource_set
  recover_claim fence same_name (head? claimed)
