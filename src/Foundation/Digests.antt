-- ===== src/Foundation/Digests.antt =====
-- crates/foundation/src/lib.rs: `ContentDigest::derive` hashes its parts, each behind its length in
-- eight bytes. The hash function (blake3) is a parameter; a digest is the list of its bytes.
use Prim.Native.Nat.{◌/◌, ◌%◌}
use Prim.Native.Char.{Char, code}
use Prim.Native.String.{[] as empty, ◌∷◌ as ◌∷ₛ◌, ◌++◌ as ◌++ₛ◌, len}
use text.Mathlib.TextEquality.{Char-path}
use text.Mathlib.TextLemmas.{nil-append, cons-append}
use mobile_proxy.Foundation.Values.{FoundationError, invalid_digest, all_chars}
use mobile_proxy.Base.{
  Option, none, some, Bool, true, not, ◌&&◌, ◌||◌, leb, ◌==◌, nat_eq, ==→eq, Result, ok, err, ◌>>◌,
  fail_if, ok_or, guard_ok, ok-injective, ◌∙◌, Bool-cases, Option-cases, inl, inr, ℕ, zero, suc,
  ◌+◌, ◌^◌, ◌<◌, String, ◌≡◌, refl, sym, ap, ◌≢◌, arith, ltb, if◌then◌else◌, List, [], ◌∷◌, ◌++◌,
  length, All, length-append,
}

-- blake3 in its key derivation mode, by the domain and the bytes, the hexadecimal text of a hash,
-- and its reading.
pub record Blake3 : Type 0 where
  pub hash : String → List ℕ → List ℕ
  pub to_hex : List ℕ → String
  pub from_hex : String → Option (List ℕ)

-- `to_be_bytes` of a number of `k` bytes.
unfoldable pub to_be_bytes : ℕ → ℕ → List ℕ
to_be_bytes zero n = []
to_be_bytes (suc k) n = to_be_bytes k (n / 256) ++ n % 256 ∷ []

-- The UTF-8 of a text, as `as_bytes` gives it.
abbrev utf8 : ℕ → List ℕ
utf8 n =
    if ltb n 128
    then n ∷ []
    else if ltb n 2048
    then (192 + n / 64) ∷ (128 + n % 64) ∷ []
    else if ltb n 65536
    then (224 + n / 4096) ∷ (128 + n / 64 % 64) ∷ (128 + n % 64) ∷ []
    else (240 + n / 262144) ∷ (128 + n / 4096 % 64) ∷ (128 + n / 64 % 64) ∷ (128 + n % 64) ∷ []

unfoldable pub as_bytes : String → List ℕ
as_bytes empty = []
as_bytes (c ∷ₛ s) = utf8 (code c) ++ as_bytes s

-- The bytes that the hasher is fed.
unfoldable pub frame : List (List ℕ) → List ℕ
frame [] = []
frame (part ∷ parts) = to_be_bytes 8 (length part) ++ (part ++ frame parts)

abbrev pub ContentDigest : Type 0
ContentDigest = List ℕ

unfoldable pub derive : Blake3 → String → List (List ℕ) → ContentDigest
derive b domain parts = b.hash domain (frame parts)

-- `to_string` of a digest.
unfoldable pub digest_text : Blake3 → ContentDigest → String
digest_text b digest = "b3:" ++ₛ b.to_hex digest

-- `strip_prefix`.
unfoldable pub strip_prefix : String → String → Option String
strip_prefix empty s = some s
strip_prefix (c ∷ₛ p) empty = none
strip_prefix (c ∷ₛ p) (d ∷ₛ s) = if code c == code d then strip_prefix p s else none

-- A digit, or one of the letters a to f.
abbrev lower_hex : Char → Bool
lower_hex c = (leb 48 (code c) && leb (code c) 57) || (leb 97 (code c) && leb (code c) 102)

abbrev read_hex : Blake3 → String → Result FoundationError ContentDigest
read_hex b hex =
    fail_if (not (len hex == 64) || not (all_chars lower_hex hex)) invalid_digest
    >> ok_or (b.from_hex hex) invalid_digest

abbrev read_stripped : Blake3 → Option String → Result FoundationError ContentDigest
read_stripped b none = err invalid_digest
read_stripped b (some hex) = read_hex b hex

-- `from_str` of a digest.
unfoldable pub digest_from_str : Blake3 → String → Result FoundationError ContentDigest
digest_from_str b raw = read_stripped b (strip_prefix "b3:" raw)

-- A hash that was read is written as the text it was read from.
unfoldable pub WritesBack : Blake3 → Type 0
WritesBack b =
    (hex : String) (digest : ContentDigest)
    → all_chars lower_hex hex ≡ true
    → len hex ≡ 64
    → b.from_hex hex ≡ some digest
    → b.to_hex digest ≡ hex

strip_prefix-append :
    (prefix s rest : String) → strip_prefix prefix s ≡ some rest → s ≡ prefix ++ₛ rest
unfolding strip_prefix
strip_prefix-append empty s rest h = let same : s ≡ rest = cc in same ∙ sym (nil-append rest)
strip_prefix-append (c ∷ₛ p) empty rest h = ground arith
strip_prefix-append (c ∷ₛ p) (d ∷ₛ s) rest h = elim (Bool-cases (code c == code d)) [
  | inl hit ↦
      let head = Char-path c d (==→eq (code c) (code d) hit) in
      let tail = strip_prefix-append p s rest (rw hit at h) in
      (λ i. sym head i ∷ₛ tail i) ∙ sym (cons-append c p rest)
  | inr miss ↦ let failed : ◌≡◌ {A = Option String} none (some rest) = rw miss at h in ground arith
]

ok_or-some : {E A : Type 0} (o : Option A) (e : E) (a : A) → ok_or o e ≡ ok a → o ≡ some a
ok_or-some none e a h = ground arith
ok_or-some (some x) e a h = ap some (ok-injective h)

-- A digest that was read is written as the text it was read from.
pub digest_from_str-digest_text :
    (b : Blake3) (raw : String) (digest : ContentDigest)
    → WritesBack b
    → digest_from_str b raw ≡ ok digest
    → digest_text b digest ≡ raw
unfolding digest_from_str digest_text WritesBack
digest_from_str-digest_text b raw digest writes h = elim (Option-cases (strip_prefix "b3:" raw)) [
  | inl absent ↦
      let failed : read_stripped b none ≡ ok digest = rw absent at h in absurd (ground arith)
  | inr (hex, stripped) ↦
      let read : read_hex b hex ≡ ok digest = rw stripped at h in
      let (checked, found) =
        guard_ok (not (len hex == 64) || not (all_chars lower_hex hex)) invalid_digest
          (ok_or (b.from_hex hex) invalid_digest) digest read in
      let text =
        writes hex digest (ground arith) (==→eq (len hex) 64 (ground arith))
          (ok_or-some (b.from_hex hex) invalid_digest digest found) in
      ap (λ t. "b3:" ++ₛ t) text ∙ sym (strip_prefix-append "b3:" raw hex stripped)
]

pub to_be_bytes-length : (k n : ℕ) → length (to_be_bytes k n) ≡ k
unfolding to_be_bytes
to_be_bytes-length zero n = refl
to_be_bytes-length (suc k) n =
    omega (
      arith,
      length-append (to_be_bytes k (n / 256)) (n % 256 ∷ []),
      to_be_bytes-length k (n / 256),
    )

-- A list is cut at a known length in one way.
append_cut {ℓ} :
    {A : Type ℓ} (xs ys r q : List A)
    → length xs ≡ length ys
    → xs ++ r ≡ ys ++ q
    → (xs ≡ ys) × (r ≡ q)
append_cut [] [] r q h e = (refl, e)
append_cut [] (y ∷ ys) r q h e = ground arith
append_cut (x ∷ xs) [] r q h e = ground arith
append_cut (x ∷ xs) (y ∷ ys) r q h e = ground (arith, append_cut xs ys r q)

pub to_be_bytes-injective :
    (k n m : ℕ) → n < 256 ^ k → m < 256 ^ k → to_be_bytes k n ≡ to_be_bytes k m → n ≡ m
unfolding to_be_bytes
to_be_bytes-injective zero n m hn hm e = omega arith
to_be_bytes-injective (suc k) n m hn hm e =
    let (high, low) =
      append_cut (to_be_bytes k (n / 256)) (to_be_bytes k (m / 256)) (n % 256 ∷ []) (m % 256 ∷ [])
        (omega (arith, to_be_bytes-length k (n / 256), to_be_bytes-length k (m / 256))) e in
    let same = to_be_bytes-injective k (n / 256) (m / 256) (omega arith) (omega arith) high in
    let same_low : n % 256 ≡ m % 256 = cc in omega arith

-- The bytes of a character say where it ends.
utf8_cut : (n m : ℕ) (r q : List ℕ) → utf8 n ++ r ≡ utf8 m ++ q → (n ≡ m) × (r ≡ q)
utf8_cut n m r q e = ground arith

utf8_nonempty : (n : ℕ) (r : List ℕ) → utf8 n ++ r ≢ []
utf8_nonempty n r e = ground arith

pub as_bytes-injective : (s t : String) → as_bytes s ≡ as_bytes t → s ≡ t
unfolding as_bytes
as_bytes-injective empty empty e = refl
as_bytes-injective empty (d ∷ₛ t) e = absurd (utf8_nonempty (code d) (as_bytes t) (sym e))
as_bytes-injective (c ∷ₛ s) empty e = absurd (utf8_nonempty (code c) (as_bytes s) e)
as_bytes-injective (c ∷ₛ s) (d ∷ₛ t) e =
    let (head, rest) = utf8_cut (code c) (code d) (as_bytes s) (as_bytes t) e in
    let same = Char-path c d head in let tail = as_bytes-injective s t rest in cc

-- Parts that a `u64` can count, one behind the other.
abbrev pub IsFramable : List (List ℕ) → Type 0
IsFramable parts = All (λ part. length part < 2 ^ 64) parts

frame_nonempty : (q : List ℕ) (qs : List (List ℕ)) → frame (q ∷ qs) ≢ []
unfolding frame
frame_nonempty q qs e =
    let none : length (frame (q ∷ qs)) ≡ 0 = ap length e in
    omega (
      arith,
      to_be_bytes-length 8 (length q),
      length-append (to_be_bytes 8 (length q)) (q ++ frame qs),
    )

-- The framing is unambiguous: no two lists of parts, each shorter than 2 ^ 64 bytes, give the
-- hasher the same bytes.
pub frame-injective :
    (parts others : List (List ℕ))
    → IsFramable parts
    → IsFramable others
    → frame parts ≡ frame others
    → parts ≡ others
unfolding frame
frame-injective [] [] h k e = refl
frame-injective [] (q ∷ qs) h k e = absurd (frame_nonempty q qs (sym e))
frame-injective (p ∷ ps) [] h k e = absurd (frame_nonempty p ps e)
frame-injective (p ∷ ps) (q ∷ qs) h k e =
    let (lengths, bodies) =
      append_cut (to_be_bytes 8 (length p)) (to_be_bytes 8 (length q)) (p ++ frame ps)
        (q ++ frame qs)
        (omega (arith, to_be_bytes-length 8 (length p), to_be_bytes-length 8 (length q))) e in
    let same_length =
      to_be_bytes-injective 8 (length p) (length q) (omega (arith, h.0)) (omega (arith, k.0))
        lengths in
    let (first, rest) = append_cut p q (frame ps) (frame qs) same_length bodies in
    let tail = frame-injective ps qs h.1 k.1 rest in cc
