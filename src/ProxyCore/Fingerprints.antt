-- ===== src/ProxyCore/Fingerprints.antt =====
-- crates/proxy-core/src/fingerprints.rs: what a device may send as a fingerprint. The hash
-- and the reading of its text (blake3) are a parameter.
pub mod Laws
use Prim.Native.Char.{code}
use Prim.Native.String.{[] as empty, ◌∷◌ as ◌∷ₛ◌, len}
use text.Mathlib.Text.{starts_with}
use mobile_proxy.Base.{
  ◌≡◌, refl, sym, arith, ap, ◌∙◌, Bool-cases, inl, inr, ok-injective, String, Bool, true, false,
  not, ◌&&◌, ◌||◌, Option, none, some, leb, nat_beq, if◌then◌else◌, Result, ok, err,
}
use mobile_proxy.Foundation.Values.{FoundationError, all_chars, is_ascii_graphic}
use mobile_proxy.Foundation.Digests.{
  Blake3, ContentDigest, digest_text, digest_from_str, WritesBack, digest_from_str-digest_text,
}

pub data FingerprintInputError : Type 0 where
  unsupported_algorithm_domain_or_version invalid_legacy_value : FingerprintInputError

pub data FingerprintInputValue (T : Type 0) : Type 0 where
  current : T → FingerprintInputValue T
  legacy_opaque : String → FingerprintInputValue T

-- `raw.contains(':')`, by the number of the colon.
unfoldable pub contains_colon : String → Bool
contains_colon empty = false
contains_colon (c ∷ₛ s) = nat_beq (code c) 58 || contains_colon s

unfoldable pub legacy_opaque_value : String → Bool
legacy_opaque_value raw =
    not (nat_beq (len raw) 0)
    && leb (len raw) 256
    && not (contains_colon raw)
    && all_chars is_ascii_graphic raw

abbrev pub FingerprintInput : Type 0
FingerprintInput = Result FingerprintInputError (FingerprintInputValue ContentDigest)

abbrev pub parse_current : Result FoundationError ContentDigest → FingerprintInput
parse_current (err _) = err unsupported_algorithm_domain_or_version
parse_current (ok value) = ok (current value)

-- `parse` of either fingerprint input.
unfoldable pub parse_fingerprint : Blake3 → String → FingerprintInput
parse_fingerprint b raw =
    if starts_with raw "b3:"
    then parse_current (digest_from_str b raw)
    else if contains_colon raw
    then err unsupported_algorithm_domain_or_version
    else if legacy_opaque_value raw
    then ok (legacy_opaque raw)
    else err invalid_legacy_value

-- `serialize`.
unfoldable pub serialize_fingerprint : Blake3 → FingerprintInputValue ContentDigest → String
serialize_fingerprint b (current value) = digest_text b value
serialize_fingerprint b (legacy_opaque value) = value

unfoldable pub current_value : FingerprintInputValue ContentDigest → Option ContentDigest
current_value (current value) = some value
current_value (legacy_opaque _) = none

unfoldable pub is_legacy : FingerprintInputValue ContentDigest → Bool
is_legacy (current _) = false
is_legacy (legacy_opaque _) = true
