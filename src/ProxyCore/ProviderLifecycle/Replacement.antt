-- ===== src/ProxyCore/ProviderLifecycle/Replacement.antt =====
-- crates/proxy-core/src/provider_lifecycle.rs: the binding that replaces another, and the fence that its
-- generation is against callers that still know the old one.
use mobile_proxy.Base.{
  ◌+◌, ◌<◌, ◌^◌, ◌≡◌, refl, ap, sym, ◌∙◌, false, List, ◌==◌, nat_eq, arith, ok, err, ok-injective,
  bind_ok,
}
use mobile_proxy.ProxyCore.ProviderLifecycle.Values.{
  Generation, next_generation, replacement_binding, VerifiedMutationTarget, VmBinding, ObservedVm,
  ProviderResourceId,
}
use mobile_proxy.ProxyCore.ProviderLifecycle.{
  MutationKind, stale_generation, authorize_mutation, resolve_bound_resource,
}

next_generation-ok : (g h : Generation) → next_generation g ≡ ok h → (h ≡ g + 1) × (g + 1 < 2 ^ 64)
unfolding next_generation
next_generation-ok g h e = ground arith

-- A binding of another generation than the expected one refuses before it looks at anything else.
other_generation_is_stale :
    (b : VmBinding) (observed : List ObservedVm) (g : Generation) (kind : MutationKind)
    → (b.generation == g) ≡ false
    → authorize_mutation b observed g kind ≡ err stale_generation
unfolding authorize_mutation resolve_bound_resource
other_generation_is_stale b observed g kind differ = rw differ refl

-- A binding that replaces a target has its intent, the new provider id and the next generation,
-- which fits 64 bits; with it, a mutation that still expects the old generation is refused as stale,
-- whatever is observed.
pub replacement_binding-fences :
    (t : VerifiedMutationTarget) (id : ProviderResourceId) (b : VmBinding)
    → replacement_binding t id ≡ ok b
    → (b.intent ≡ t.intent)
      × (b.provider_id ≡ id)
      × (b.generation ≡ t.generation + 1)
      × (t.generation + 1 < 2 ^ 64)
      × ((observed : List ObservedVm) (kind : MutationKind)
          → authorize_mutation b observed t.generation kind ≡ err stale_generation)
unfolding replacement_binding
replacement_binding-fences t id b e =
    let (g, next, made) = bind_ok (next_generation t.generation) _ b e in
    let (is_next, fits) = next_generation-ok t.generation g next in
    let same : record { intent = t.intent; provider_id = id; generation = g } ≡ b =
      ok-injective made in
    let grown : b.generation ≡ t.generation + 1 =
      ap (λ (x : VmBinding). x.generation) (sym same) ∙ is_next in
    (
      ap (λ (x : VmBinding). x.intent) (sym same),
      ap (λ (x : VmBinding). x.provider_id) (sym same),
      grown,
      fits,
      (λ observed kind. other_generation_is_stale b observed t.generation kind (ground arith)),
    )
