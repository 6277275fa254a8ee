-- ===== src/ProxyCore/CreateDispatch/Recovery.antt =====
-- crates/proxy-core/src/provider_create_dispatch.rs: what a recovered create tells of the provider.
use mathlib.Core.List.{head?}
use mobile_proxy.Base.{
  string_eq, Bool, true, false, List, [], ◌∷◌, ◌++◌, ◌≡◌, refl, ap, ◌==◌, arith, All, All-map, ok,
  ==→eq, eq→==, filter, length, ltb, Result, any, split_of_singleton, filter-singleton, ◌≢◌, ◌↔◌,
  ◌>>◌, fail_if, ==_false,
}
use mobile_proxy.ProxyCore.ProviderLifecycle.Values.{
  OwnershipObservation, exact, missing, conflicting, OwnershipMetadata, metadata_beq_iff,
  ObservedVm,
}
use mobile_proxy.ProxyCore.ProviderLifecycle.{claims, is_conflicting, ownership_claims}
use mobile_proxy.ProxyCore.ProviderLifecycle.Ownership.{Owns, claims_iff, not_claims, claims-false}
use mobile_proxy.ProxyCore.CreateDispatch.{
  CreateDispatchFence, RecoveredCreate, CreateRecovery, CreateDispatchError, recovered,
  recover_claim, recover_dispatched_create, fence_ownership, is_owned_as,
}

-- One resource of the list satisfies the predicate, and no other does.
pub record Sole (P : ObservedVm → Type 0) (observed : List ObservedVm) : Type 0 where
  pub before : List ObservedVm
  pub resource : ObservedVm
  pub after : List ObservedVm
  pub split : observed ≡ before ++ resource ∷ after
  pub holds : P resource
  pub others_before : All (λ r. ¬ P r) before
  pub others_after : All (λ r. ¬ P r) after

pub Sole-filter :
    (P : ObservedVm → Type 0) (p : ObservedVm → Bool)
    → ((r : ObservedVm) → p r ≡ true → P r)
    → ((r : ObservedVm) → p r ≡ false → ¬ P r)
    → (observed : List ObservedVm) (r : ObservedVm) → filter p observed ≡ r ∷ []
    → (sole : Sole P observed) × (sole.resource ≡ r)
Sole-filter P p sound complete observed r h =
    let (before, after, split, hit, hb, ha) = split_of_singleton p observed r h in
    (
      record {
        before = before;
        resource = r;
        after = after;
        split = split;
        holds = sound r hit;
        others_before = All-map before complete hb;
        others_after = All-map after complete ha;
      },
      refl,
    )

pub filter-Sole :
    (P : ObservedVm → Type 0) (p : ObservedVm → Bool)
    → ((r : ObservedVm) → P r → p r ≡ true)
    → ((r : ObservedVm) → ¬ P r → p r ≡ false)
    → (observed : List ObservedVm) (sole : Sole P observed) → filter p observed ≡ sole.resource ∷ []
filter-Sole P p complete sound observed s = rw (s.split) (
    filter-singleton p s.before s.resource s.after (All-map s.before sound s.others_before)
      (complete s.resource s.holds) (All-map s.after sound s.others_after))

-- The resource that claims the fence's intent, and the one that has its name.
abbrev pub Claimant : CreateDispatchFence → List ObservedVm → Type 0
Claimant f = Sole (λ r. Owns f.intent r.ownership)

abbrev pub Namesake : CreateDispatchFence → List ObservedVm → Type 0
Namesake f = Sole (λ r. r.display_name ≡ f.display_name)

abbrev pub recovered_as : CreateDispatchFence → ObservedVm → RecoveredCreate
recovered_as f r = record {
  fence = f;
  binding = record { intent = f.intent; provider_id = r.provider_id; generation = f.generation };
}

claim_of_filter :
    (f : CreateDispatchFence) (observed : List ObservedVm) (r : ObservedVm)
    → filter (λ r. claims f.intent r.ownership) observed ≡ r ∷ []
    → (claim : Claimant f observed) × (claim.resource ≡ r)
claim_of_filter f =
    Sole-filter _ _ (λ r. (claims_iff f.intent r.ownership).0)
      (λ r. not_claims f.intent r.ownership)

named_of_filter :
    (f : CreateDispatchFence) (observed : List ObservedVm) (q : ObservedVm)
    → filter (λ r. r.display_name == f.display_name) observed ≡ q ∷ []
    → (named : Namesake f observed) × (named.resource ≡ q)
named_of_filter f =
    Sole-filter _ _ (λ r. ==→eq r.display_name f.display_name)
      (λ r n e. cc (n, eq→== r.display_name f.display_name e))

pub filter_of_claim :
    (f : CreateDispatchFence) (observed : List ObservedVm) (claim : Claimant f observed)
    → filter (λ r. claims f.intent r.ownership) observed ≡ claim.resource ∷ []
filter_of_claim f =
    filter-Sole _ _ (λ r. (claims_iff f.intent r.ownership).1)
      (λ r. claims-false f.intent r.ownership)

pub filter_of_named :
    (f : CreateDispatchFence) (observed : List ObservedVm) (named : Namesake f observed)
    → filter (λ r. r.display_name == f.display_name) observed ≡ named.resource ∷ []
filter_of_named f =
    filter-Sole _ _ (λ r. eq→== r.display_name f.display_name)
      (λ r. ==_false r.display_name f.display_name)

recover_lists :
    CreateDispatchFence
    → List ObservedVm
    → List ObservedVm
    → Result CreateDispatchError CreateRecovery
recover_lists f claimed same_name = do
  fail_if (ltb 1 (length claimed)) CreateDispatchError.duplicate_ownership_claim
  fail_if (any (λ r. is_conflicting r.ownership) same_name)
      CreateDispatchError.conflicting_ownership_metadata
  fail_if (ltb 1 (length same_name)) CreateDispatchError.ambiguous_resource_set
  recover_claim f same_name (head? claimed)

-- What the claim `r` and the namesake `q` of a recovered create have to do with the fence.
pub record Matches (f : CreateDispatchFence) (r q : ObservedVm) : Type 0 where
  pub owned : r.ownership ≡ exact (fence_ownership f)
  pub spec : r.spec_fingerprint ≡ f.spec_fingerprint
  pub same_id : q.provider_id ≡ r.provider_id
  pub clear : q.ownership ≢ conflicting

is_owned_as-eq :
    (e : OwnershipMetadata) (o : OwnershipObservation) → is_owned_as e o ≡ true → o ≡ exact e
is_owned_as-eq e (exact m) h = ap exact ((metadata_beq_iff m e).0 h)
is_owned_as-eq e missing h = cc
is_owned_as-eq e conflicting h = cc

lists_need :
    (f : CreateDispatchFence) (claimed same_name : List ObservedVm) (rc : RecoveredCreate)
    → recover_lists f claimed same_name ≡ ok (recovered rc)
    → (r q : ObservedVm) × (claimed ≡ r ∷ [])
      × (same_name ≡ q ∷ [])
      × (rc ≡ recovered_as f r)
      × Matches f r q
unfolding recover_lists recover_claim any
lists_need f [] sn rc h = absurd (ground arith)
lists_need f (r ∷ r' ∷ rs) sn rc h = absurd (ground arith)
lists_need f (r ∷ []) [] rc h = absurd (ground arith)
lists_need f (r ∷ []) (q ∷ q' ∷ qs) rc h = absurd (ground arith)
lists_need f (r ∷ []) (q ∷ []) rc h = (
  r,
  q,
  refl,
  refl,
  ground arith,
  record {
    owned = is_owned_as-eq (fence_ownership f) r.ownership (ground arith);
    spec = ==→eq r.spec_fingerprint f.spec_fingerprint (ground arith);
    same_id = ==→eq q.provider_id r.provider_id (ground arith);
    clear = λ e. ground arith;
  },
)

eq→is_owned_as :
    (e : OwnershipMetadata) (o : OwnershipObservation) → o ≡ exact e → is_owned_as e o ≡ true
eq→is_owned_as e o h = rw h ((metadata_beq_iff e e).1 refl)

not_conflicting : (o : OwnershipObservation) → o ≢ conflicting → is_conflicting o ≡ false
not_conflicting (exact m) h = refl
not_conflicting missing h = refl
not_conflicting conflicting h = absurd (h refl)

lists_give :
    (f : CreateDispatchFence) (r q : ObservedVm)
    → Matches f r q
    → recover_lists f (r ∷ []) (q ∷ []) ≡ ok (recovered (recovered_as f r))
unfolding recover_lists recover_claim any
lists_give f r q m = ground (
  arith,
  not_conflicting q.ownership m.clear,
  eq→== q.provider_id r.provider_id m.same_id,
  eq→== r.spec_fingerprint f.spec_fingerprint m.spec,
  eq→is_owned_as (fence_ownership f) r.ownership m.owned,
)

recovered_needs :
    (f : CreateDispatchFence) (observed : List ObservedVm) (rc : RecoveredCreate)
    → recover_dispatched_create f observed ≡ ok (recovered rc)
    → (claim : Claimant f observed) × (named : Namesake f observed) × (rc
        ≡ recovered_as f claim.resource)
      × Matches f claim.resource named.resource
unfolding recover_dispatched_create recover_lists ownership_claims
recovered_needs f observed rc h =
    let (r, q, claimed, same_name, value, m) =
      lists_need f (filter (λ r. claims f.intent r.ownership) observed)
        (filter (λ r. r.display_name == f.display_name) observed) rc h in
    let (claim, is_r) = claim_of_filter f observed r claimed in
    let (named, is_q) = named_of_filter f observed q same_name in
    (claim, named, rw is_r value, rw (is_r, is_q) m)

recovered_from :
    (f : CreateDispatchFence) (observed : List ObservedVm) (claim : Claimant f observed)
    (named : Namesake f observed)
    → Matches f claim.resource named.resource
    → recover_dispatched_create f observed ≡ ok (recovered (recovered_as f claim.resource))
unfolding recover_dispatched_create recover_lists ownership_claims
recovered_from f observed claim named m =
    rw (filter_of_claim f observed claim, filter_of_named f observed named)
      (lists_give f claim.resource named.resource m)

-- A dispatched create is recovered exactly when one observed resource belongs to the fence's intent
-- and one has the fence's name, both with the same provider id, the first owned exactly in the
-- fence's generation and with its specification, the second not in conflict; what is recovered is
-- the fence with a binding to that id.
pub recover_dispatched_create-recovered_iff :
    (f : CreateDispatchFence) (observed : List ObservedVm) (rc : RecoveredCreate)
    → (recover_dispatched_create f observed ≡ ok (recovered rc)) ↔ (
        (claim : Claimant f observed) × (named : Namesake f observed) × (rc
          ≡ recovered_as f claim.resource)
        × Matches f claim.resource named.resource)
recover_dispatched_create-recovered_iff f observed rc =
    (λ h. recovered_needs f observed rc h, λ h. rw (h.2) (recovered_from f observed h.0 h.1 h.3))
