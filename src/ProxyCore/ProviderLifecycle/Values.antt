-- ===== src/ProxyCore/ProviderLifecycle/Values.antt =====
-- crates/proxy-core/src/provider_lifecycle.rs: the value types and their constructors. A `u64` is a
-- native number with its bound written out; a text is a `String`, whose bytes outside ASCII never
-- pass the character test of an intent, so the test by code point is the test by byte.
use Prim.Native.Char.{code}
use Prim.Native.String
use mobile_proxy.Base.{
  ℕ, ◌+◌, ◌^◌, String, Bool, true, false, not, ◌&&◌, ◌||◌, List, [], ◌∷◌, ◌==◌, PartialEq, nat_eq,
  string_eq, ltb, leb, all, any, ◌≡◌, ◌↔◌, arith, Result, ok, err, ◌>>=◌, if◌then◌else◌,
}

abbrev chars : String → List ℕ
chars String.[] = []
chars (String.◌∷◌ first rest) = code first ∷ chars rest

abbrev pub ownership_project : String
ownership_project = "mobile-proxy"

abbrev pub ownership_manager : String
ownership_manager = "mobile-proxy"

pub data LifecycleScope : Type 0 where
  acceptance production : LifecycleScope

abbrev scope_beq : LifecycleScope → LifecycleScope → Bool
scope_beq acceptance acceptance = true
scope_beq production production = true
scope_beq _ _ = false

pub scope_beq_iff : (a b : LifecycleScope) → (scope_beq a b ≡ true) ↔ (a ≡ b)
scope_beq_iff a b = ground arith

instance abbrev pub scope_eq : PartialEq LifecycleScope
scope_eq = record { eq = scope_beq; eq_iff = scope_beq_iff }

pub data LifecycleValueError : Type 0 where
  invalid_ownership_intent invalid_generation generation_overflow invalid_provider_resource_id :
      LifecycleValueError

pub record OwnershipIntent : Type 0 where
  pub scope : LifecycleScope
  pub id : String

abbrev is_ascii_alphanumeric : ℕ → Bool
is_ascii_alphanumeric c =
    (leb b'0' c && leb c b'9') || (leb b'A' c && leb c b'Z') || (leb b'a' c && leb c b'z')

unfoldable pub intent_character : ℕ → Bool
intent_character c = is_ascii_alphanumeric c || c == b'-' || c == b'_' || c == b'.' || c == b':'

unfoldable pub new_ownership_intent :
    LifecycleScope → String → Result LifecycleValueError OwnershipIntent
new_ownership_intent scope id =
    if String.len id == 0 || ltb 160 (String.len id) || not (all intent_character (chars id))
    then err invalid_ownership_intent
    else ok (record { scope = scope; id = id })

abbrev pub Generation : Type 0
Generation = ℕ

abbrev pub initial_generation : Generation
initial_generation = 1

unfoldable pub new_generation : ℕ → Result LifecycleValueError Generation
new_generation value = if value == 0 then err invalid_generation else ok value

unfoldable pub next_generation : Generation → Result LifecycleValueError Generation
next_generation value = if ltb (value + 1) (2 ^ 64) then ok (value + 1) else err generation_overflow

abbrev pub ProviderResourceId : Type 0
ProviderResourceId = String

-- The code points with the property White_Space.
abbrev is_whitespace : ℕ → Bool
is_whitespace c =
    (leb 9 c && leb c 13)
    || c == 32
    || c == 0x85
    || c == 0xa0
    || c == 0x1680
    || (leb 0x2000 c && leb c 0x200a)
    || c == 0x2028
    || c == 0x2029
    || c == 0x202f
    || c == 0x205f
    || c == 0x3000

unfoldable pub new_provider_resource_id : String → Result LifecycleValueError ProviderResourceId
new_provider_resource_id value =
    if String.len value == 0 || ltb 160 (String.len value) || any is_whitespace (chars value)
    then err invalid_provider_resource_id
    else ok value

pub record OwnershipMetadata : Type 0 where
  pub project : String
  pub managed_by : String
  pub scope : LifecycleScope
  pub intent_id : String
  pub generation : Generation

unfoldable pub exact_metadata : OwnershipIntent → Generation → OwnershipMetadata
exact_metadata intent generation = record {
  project = ownership_project;
  managed_by = ownership_manager;
  scope = intent.scope;
  intent_id = intent.id;
  generation = generation;
}

unfoldable pub claims_intent : OwnershipMetadata → OwnershipIntent → Bool
claims_intent m intent =
    m.project == ownership_project
    && m.managed_by == ownership_manager
    && m.scope == intent.scope
    && m.intent_id == intent.id

unfoldable pub matches_except_generation : OwnershipMetadata → OwnershipMetadata → Bool
matches_except_generation m other =
    m.project == other.project
    && m.managed_by == other.managed_by
    && m.scope == other.scope
    && m.intent_id == other.intent_id

-- The derived equalities.
abbrev intent_beq : OwnershipIntent → OwnershipIntent → Bool
intent_beq a b = a.scope == b.scope && a.id == b.id

pub intent_beq_iff : (a b : OwnershipIntent) → (intent_beq a b ≡ true) ↔ (a ≡ b)
intent_beq_iff a b = ground (arith, scope_beq_iff a.scope b.scope, string_eq.eq_iff a.id b.id)

instance abbrev pub intent_eq : PartialEq OwnershipIntent
intent_eq = record { eq = intent_beq; eq_iff = intent_beq_iff }

abbrev metadata_beq : OwnershipMetadata → OwnershipMetadata → Bool
metadata_beq a b =
    a.project == b.project
    && a.managed_by == b.managed_by
    && a.scope == b.scope
    && a.intent_id == b.intent_id
    && a.generation == b.generation

pub metadata_beq_iff : (a b : OwnershipMetadata) → (metadata_beq a b ≡ true) ↔ (a ≡ b)
metadata_beq_iff a b = ground (
  arith,
  string_eq.eq_iff a.project b.project,
  string_eq.eq_iff a.managed_by b.managed_by,
  scope_beq_iff a.scope b.scope,
  string_eq.eq_iff a.intent_id b.intent_id,
)

instance abbrev pub metadata_eq : PartialEq OwnershipMetadata
metadata_eq = record { eq = metadata_beq; eq_iff = metadata_beq_iff }

pub data OwnershipObservation : Type 0 where
  exact : OwnershipMetadata → OwnershipObservation
  missing conflicting : OwnershipObservation

pub record ObservedVm : Type 0 where
  pub provider_id : ProviderResourceId
  pub display_name : String
  pub ownership : OwnershipObservation
  pub spec_fingerprint : String

pub record VmBinding : Type 0 where
  pub intent : OwnershipIntent
  pub provider_id : ProviderResourceId
  pub generation : Generation

pub record DesiredVm : Type 0 where
  pub intent : OwnershipIntent
  pub display_name : String
  pub spec_fingerprint : String

pub record VerifiedMutationTarget : Type 0 where
  pub provider_id : ProviderResourceId
  pub intent : OwnershipIntent
  pub generation : Generation

unfoldable pub expected_ownership : VerifiedMutationTarget → OwnershipMetadata
expected_ownership target = exact_metadata target.intent target.generation

unfoldable pub replacement_binding :
    VerifiedMutationTarget → ProviderResourceId → Result LifecycleValueError VmBinding
replacement_binding target replacement_id = do
  generation ← next_generation target.generation
  ok (record { intent = target.intent; provider_id = replacement_id; generation = generation })

pub record PlannedCreate : Type 0 where
  pub intent : OwnershipIntent
  pub generation : Generation

unfoldable pub binding_after_create : PlannedCreate → ProviderResourceId → VmBinding
binding_after_create plan provider_id = record {
  intent = plan.intent;
  provider_id = provider_id;
  generation = plan.generation;
}
