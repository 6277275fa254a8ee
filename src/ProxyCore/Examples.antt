-- ===== src/ProxyCore/Examples.antt =====
-- crates/proxy-core/src: the theorems at a concrete device, and at a concrete provider's listing.
use mobile_proxy.Base.{
  lookup, is_some, List, ◌+◌, ◌<◌, ◌^◌, ◌≡◌, ◌↔◌, ◌≢◌, refl, String, true, Option, none, some, [],
  ◌∷◌, ◌++◌, find, filter, any, eq→==, ok, err, ◌==◌, string_eq, if◌then◌else◌, arith, inl, inr,
  sym, not, Bool-cases, ==→eq, nat_eq,
}
use text.Mathlib.Text.{starts_with}
use mobile_proxy.Foundation.Values.{all_chars}
use mobile_proxy.Foundation.Digests.{
  Blake3, ContentDigest, WritesBack, digest_from_str, strip_prefix,
}
use mobile_proxy.ProxyCore.Fingerprints.{
  FingerprintInputValue, current, parse_fingerprint, serialize_fingerprint, is_legacy,
  legacy_opaque_value,
}
use mobile_proxy.ProxyCore.Fingerprints.Laws.{serialize-parse_fingerprint}
use mobile_proxy.ProxyCore.Runtime.{
  parse, show_availability, normalize_serving, RuntimeProjectionInput, project_runtime,
}
use mobile_proxy.ProxyCore.Runtime.Laws.{
  Serves, serving_iff, ready_iff, reason_texts, reason_iff_not_serving, project_twice,
}
use mobile_proxy.ProxyCore.ProviderLifecycle.Values.{
  replacement_binding, next_generation, Generation, claims_intent, production, OwnershipIntent,
  exact_metadata, exact, missing, ObservedVm, VmBinding, DesiredVm, binding_after_create,
}
use mobile_proxy.ProxyCore.ProviderLifecycle.{
  MutationKind, stale_generation, resolve_bound_resource, check_bound_observation, check_metadata,
  resolve_claims, ownership_claims, plan_unbound, ReconcilePlan, create, noop,
  provider_resource_not_found, delete, stop, bound_target, authorize_mutation, plan_present,
}
use mobile_proxy.ProxyCore.ProviderLifecycle.Ownership.{SoleResource}
use mobile_proxy.ProxyCore.ProviderLifecycle.Mutation.{authorize_mutation_iff}
use mobile_proxy.ProxyCore.ProviderLifecycle.Deletion.{Absent, authorize_mutation_not_found_iff}
use mobile_proxy.ProxyCore.ProviderLifecycle.Present.{
  Unclaimed, planned, plan_present-create_iff, plan_present-bound_iff,
}
use mobile_proxy.ProxyCore.ProviderLifecycle.Replacement.{replacement_binding-fences}
use mobile_proxy.ProxyCore.CreateDispatch.{
  CreateDispatchFence, create_dispatch_fence, recover_dispatched_create, recovered, await_provider,
}
use mobile_proxy.ProxyCore.CreateDispatch.Recovery.{
  Claimant, Namesake, Matches, recovered_as, recover_dispatched_create-recovered_iff,
}
use mobile_proxy.ProxyCore.CreateDispatch.Convergence.{created, create_converges}

abbrev device : RuntimeProjectionInput
device = record {
  readiness_state = "healthy";
  serving = true;
  publicly_serving = true;
  current_job = none;
  cellular_route_ready = some true;
  proxy_bind_ready = none;
  local_serving_ready = some true;
}

device_is_ready : (project_runtime device).availability ≡ "ready"
unfolding project_runtime show_availability parse normalize_serving
device_is_ready = refl

serving_iff_example : ((project_runtime device).serving ≡ true) ↔ Serves device
serving_iff_example = serving_iff device

ready_iff_example :
    ((project_runtime device).availability ≡ "ready")
    ↔ (Serves device × (device.publicly_serving ≡ true))
ready_iff_example = ready_iff device

reason_iff_not_serving_example :
    let p = project_runtime device in
    ((p.degradation_reason_code ≡ none) ↔ (p.serving ≡ true))
    × ((p.serving_failure_reason ≡ none) ↔ (p.degradation_reason_code ≡ none))
    × ((code : String)
        → p.degradation_reason_code ≡ some code
        → p.serving_failure_reason ≡ lookup code reason_texts)
    × ((p.degradation_reason_code ≡ some "rotation_in_progress")
        ↔ (is_some device.current_job ≡ true))
reason_iff_not_serving_example = reason_iff_not_serving device

project_twice_example :
    let p = project_runtime device in
    project_runtime (record device { readiness_state = p.readiness_state; serving = p.serving }) ≡ p
project_twice_example = project_twice device

abbrev first : Generation
first = 1

abbrev unexpected : Option Generation
unexpected = none

abbrev unbound : Option VmBinding
unbound = none

abbrev intent : OwnershipIntent
intent = record { scope = production; id = "relay-1" }

abbrev machine : ObservedVm
machine = record {
  provider_id = "vm-7";
  display_name = "relay";
  ownership = exact (exact_metadata intent 1);
  spec_fingerprint = "spec-a";
}

abbrev stranger : ObservedVm
stranger = record {
  provider_id = "vm-3";
  display_name = "other";
  ownership = missing;
  spec_fingerprint = "spec-b";
}

abbrev binding : VmBinding
binding = record { intent = intent; provider_id = "vm-7"; generation = 1 }

abbrev desired : DesiredVm
desired = record { intent = intent; display_name = "relay"; spec_fingerprint = "spec-a" }

abbrev fence : CreateDispatchFence
fence = record {
  intent = intent;
  generation = 1;
  display_name = "relay";
  spec_fingerprint = "spec-a";
}

-- The machine that is bound is found, and a stranger beside it does no harm.
stop_is_authorized :
    authorize_mutation binding (stranger ∷ machine ∷ []) 1 stop ≡ ok (bound_target binding)
unfolding authorize_mutation resolve_bound_resource check_bound_observation find check_metadata
    exact_metadata resolve_claims ownership_claims filter claims_intent
stop_is_authorized = refl

authorize_mutation_iff_example :
    (authorize_mutation binding (stranger ∷ machine ∷ []) 1 stop ≡ ok (bound_target binding)) ↔ (
      (first ≡ first)
      × (bound_target binding ≡ bound_target binding)
      × SoleResource binding (stranger ∷ machine ∷ []))
authorize_mutation_iff_example =
    authorize_mutation_iff binding (stranger ∷ machine ∷ []) 1 stop (bound_target binding)

authorize_mutation_not_found_iff_example :
    (authorize_mutation binding (stranger ∷ []) 1 delete ≡ err provider_resource_not_found)
    ↔ ((first ≡ first) × Absent binding (stranger ∷ []))
authorize_mutation_not_found_iff_example =
    authorize_mutation_not_found_iff binding (stranger ∷ []) 1 delete

plan_present-create_iff_example :
    (plan_present unbound (stranger ∷ []) desired unexpected ≡ ok (create (planned desired))) ↔ (
      (unbound ≡ none)
      × (unexpected ≡ none)
      × (planned desired ≡ planned desired)
      × Unclaimed desired (stranger ∷ []))
plan_present-create_iff_example =
    plan_present-create_iff unbound (stranger ∷ []) desired unexpected (planned desired)

plan_present-bound_iff_example :
    (plan_present (some binding) (stranger ∷ machine ∷ []) desired (some 1)
      ≡ ok (noop (bound_target binding)))
    ↔ ((intent ≡ intent)
        × (some first ≡ some first)
        × (h : SoleResource binding (stranger ∷ machine ∷ [])) × (noop (bound_target binding) ≡ (
            if h.resource.spec_fingerprint == "spec-a"
            then noop (bound_target binding)
            else ReconcilePlan.reconfigure (bound_target binding))))
plan_present-bound_iff_example =
    plan_present-bound_iff binding (stranger ∷ machine ∷ []) desired (some 1)
      (noop (bound_target binding))

recover_dispatched_create-recovered_iff_example :
    (recover_dispatched_create fence (stranger ∷ machine ∷ [])
      ≡ ok (recovered (recovered_as fence machine)))
    ↔ ((claim : Claimant fence (stranger ∷ machine ∷ [])) × (named : Namesake fence
          (stranger ∷ machine ∷ []))
        × (recovered_as fence machine ≡ recovered_as fence claim.resource)
        × Matches fence claim.resource named.resource)
recover_dispatched_create-recovered_iff_example =
    recover_dispatched_create-recovered_iff fence (stranger ∷ machine ∷ [])
      (recovered_as fence machine)

abbrev made_id : String
made_id = "vm-7"

other_id : stranger.provider_id ≢ made_id
other_id e =
    let same : (stranger.provider_id == made_id) ≡ true = eq→== stranger.provider_id made_id e in
    ground arith

create_converges_example :
    let made = binding_after_create (planned desired) "vm-7" in
    let listed = (stranger ∷ []) ++ created (planned desired) desired "vm-7" ∷ [] in
    (f : CreateDispatchFence) × (create_dispatch_fence (planned desired) desired ≡ ok f)
    × (recover_dispatched_create f ((stranger ∷ []) ++ []) ≡ ok await_provider)
    × (recover_dispatched_create f listed ≡ ok (recovered (record { fence = f; binding = made })))
    × (plan_present (some made) listed desired (some made.generation)
        ≡ ok (noop (bound_target made)))
unfolding plan_present plan_unbound ownership_claims filter any
create_converges_example =
    create_converges desired "vm-7" (stranger ∷ []) [] (planned desired) refl (other_id, tt)

abbrev replaced : VmBinding
replaced = record { intent = intent; provider_id = "vm-8"; generation = 2 }

replacement_binding-fences_example :
    (intent ≡ intent)
    × (replaced.provider_id ≡ "vm-8")
    × (replaced.generation ≡ 1 + 1)
    × (1 + 1 < 2 ^ 64)
    × ((observed : List ObservedVm) (kind : MutationKind)
        → authorize_mutation replaced observed 1 kind ≡ err stale_generation)
unfolding replacement_binding next_generation
replacement_binding-fences_example =
    replacement_binding-fences (bound_target binding) "vm-8" replaced refl

abbrev sample_hex : String
sample_hex = "aaaaaaaaaaaaaaaabbbbbbbbbbbbbbbb00000000000000001111111111111111"

-- A hash function of which one text can be read.
abbrev sample_blake3 : Blake3
sample_blake3 = record {
  hash = λ domain bytes. bytes;
  to_hex = λ digest. sample_hex;
  from_hex = λ hex. if hex == sample_hex then some (1 ∷ []) else none;
}

sample_blake3-WritesBack : WritesBack sample_blake3
unfolding WritesBack
sample_blake3-WritesBack hex digest lower long h = elim (Bool-cases (hex == sample_hex)) [
  | inl hit ↦ sym (==→eq hex sample_hex hit)
  | inr miss ↦
      let failed : ◌≡◌ {A = Option ContentDigest} none (some digest) = rw miss at h in
      absurd (ground arith)
]

abbrev sample_fingerprint : String
sample_fingerprint = "b3:aaaaaaaaaaaaaaaabbbbbbbbbbbbbbbb00000000000000001111111111111111"

abbrev sample_value : FingerprintInputValue ContentDigest
sample_value = current (1 ∷ [])

sample_parses : parse_fingerprint sample_blake3 sample_fingerprint ≡ ok sample_value
unfolding parse_fingerprint digest_from_str strip_prefix all_chars
sample_parses = refl

serialize-parse_fingerprint_example :
    (serialize_fingerprint sample_blake3 sample_value ≡ sample_fingerprint)
    × (parse_fingerprint sample_blake3 (serialize_fingerprint sample_blake3 sample_value)
        ≡ ok sample_value)
    × (is_legacy sample_value ≡ not (starts_with sample_fingerprint "b3:"))
    × (is_legacy sample_value ≡ true → legacy_opaque_value sample_fingerprint ≡ true)
serialize-parse_fingerprint_example =
    serialize-parse_fingerprint sample_blake3 sample_fingerprint sample_value
      sample_blake3-WritesBack sample_parses
