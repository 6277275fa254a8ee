-- ===== src/ProxyCore/Fingerprints/Laws.antt =====
-- crates/proxy-core/src/fingerprints.rs: what is read of a fingerprint is written back.
use text.Mathlib.Text.{starts_with}
use mobile_proxy.Base.{
  ◌≡◌, refl, sym, arith, ap, ◌∙◌, Bool-cases, inl, inr, ok-injective, String, true, false, not,
  Result, ok, err,
}
use mobile_proxy.Foundation.Values.{FoundationError}
use mobile_proxy.Foundation.Digests.{
  Blake3, ContentDigest, digest_from_str, WritesBack, digest_from_str-digest_text,
}
use mobile_proxy.ProxyCore.Fingerprints.{
  unsupported_algorithm_domain_or_version, invalid_legacy_value, FingerprintInputValue, current,
  legacy_opaque, contains_colon, legacy_opaque_value, FingerprintInput, parse_current,
  parse_fingerprint, serialize_fingerprint, is_legacy,
}

parse_current-shows :
    (b : Blake3) (raw : String) (r : Result FoundationError ContentDigest)
    (value : FingerprintInputValue ContentDigest)
    → WritesBack b
    → digest_from_str b raw ≡ r
    → parse_current r ≡ ok value
    → (serialize_fingerprint b value ≡ raw) × (is_legacy value ≡ false)
unfolding serialize_fingerprint is_legacy
parse_current-shows b raw (err e) value writes read h = ground arith
parse_current-shows b raw (ok digest) value writes read h =
    let same : current digest ≡ value = ok-injective h in
    rw (← same) (digest_from_str-digest_text b raw digest writes read, refl)

legacy_shows :
    (b : Blake3) (raw : String) (value : FingerprintInputValue ContentDigest)
    → legacy_opaque raw ≡ value
    → starts_with raw "b3:" ≡ false
    → parse_fingerprint b raw ≡ ok value
    → legacy_opaque_value raw ≡ true
    → (serialize_fingerprint b value ≡ raw)
      × (parse_fingerprint b (serialize_fingerprint b value) ≡ ok value)
      × (is_legacy value ≡ not (starts_with raw "b3:"))
      × (is_legacy value ≡ true → legacy_opaque_value raw ≡ true)
unfolding serialize_fingerprint is_legacy
legacy_shows b raw value same plain h valid =
    let shown : serialize_fingerprint b value ≡ raw = ap (serialize_fingerprint b) (sym same) in
    (shown, ap (parse_fingerprint b) shown ∙ h, ap is_legacy (sym same) ∙ rw plain refl, λ _. valid)

-- A fingerprint that a device sends and that is accepted is written as the text it was read from,
-- and reading that text again gives it; it is an old opaque value exactly when its text does not
-- begin with `b3:`, and then the text is not empty, has at most 256 bytes, no colon, and only visible ASCII
-- characters (a hash that was read is written as the text it was read from).
pub serialize-parse_fingerprint :
    (b : Blake3) (raw : String) (value : FingerprintInputValue ContentDigest)
    → WritesBack b
    → parse_fingerprint b raw ≡ ok value
    → (serialize_fingerprint b value ≡ raw)
      × (parse_fingerprint b (serialize_fingerprint b value) ≡ ok value)
      × (is_legacy value ≡ not (starts_with raw "b3:"))
      × (is_legacy value ≡ true → legacy_opaque_value raw ≡ true)
unfolding parse_fingerprint
serialize-parse_fingerprint b raw value writes h = elim (Bool-cases (starts_with raw "b3:")) [
  | inl prefixed ↦
      let (shown, modern) =
        parse_current-shows b raw (digest_from_str b raw) value writes refl (rw prefixed at h) in
      (shown, ap (parse_fingerprint b) shown ∙ h, rw (modern, prefixed) refl, λ old. ground arith)
  | inr plain ↦ elim (Bool-cases (contains_colon raw)) [
    | inl colon ↦
        let failed : ◌≡◌ {A = FingerprintInput} (err unsupported_algorithm_domain_or_version)
            (ok value) =
          rw (plain, colon) at h in
        absurd (ground arith)
    | inr none_such ↦ elim (Bool-cases (legacy_opaque_value raw)) [
      | inr invalid ↦
          let failed : ◌≡◌ {A = FingerprintInput} (err invalid_legacy_value) (ok value) =
            rw (plain, none_such, invalid) at h in
          absurd (ground arith)
      | inl valid ↦
          let same : legacy_opaque raw ≡ value = ok-injective (rw (plain, none_such, valid) at h) in
          legacy_shows b raw value same plain h valid
    ]
  ]
]
