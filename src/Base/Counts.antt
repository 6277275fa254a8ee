-- ===== src/Base/Counts.antt =====
-- How many values of a map pass a test, and what holds of all of them.
use Prim.Native.Nat.{ℕ, ◌+◌, ◌≤◌}
use mathlib.Core.Path.{◌≡◌, subst}
use mathlib.Core.Logic.{inl, inr}
use mathlib.Core.Bool.{Bool, false}
use mathlib.Core.List.{[], ◌∷◌}
use mathlib.Core.Option.{some}
use native.Mathlib.Omega.{arith}
use mobile_proxy.Base.Tests.{PartialEq, ◌==◌, Bool-cases}
use mobile_proxy.Base.Lists.{length, filter, All}
use mobile_proxy.Base.Maps.{Map, values, lookup, insert, remove, retain}

module _ {ℓ} {K V : Type ℓ} (p : V → Bool) where
  abbrev pub counted : Map K V → ℕ
  counted m = length (filter p (values m))

  pub counted-retain : (q : K → V → Bool) (m : Map K V) → counted (retain q m) ≤ counted m
  unfolding retain filter
  counted-retain q [] = omega arith
  counted-retain q ((k, v) ∷ m) = ground (arith, counted-retain q m)

  pub counted-remove : ⦃e : PartialEq K⦄ (k : K) (m : Map K V) → counted (remove k m) ≤ counted m
  unfolding remove filter
  counted-remove k [] = omega arith
  counted-remove k ((j, v) ∷ m) = ground (arith, counted-remove k m)

  pub counted-insert :
      ⦃e : PartialEq K⦄ (k : K) (v : V) (m : Map K V) → counted (insert k v m) ≤ counted m + 1
  unfolding insert filter
  counted-insert k v [] = ground arith
  counted-insert k v ((j, w) ∷ m) = ground (arith, counted-insert k v m)

  pub counted-insert_other :
      ⦃e : PartialEq K⦄ (k : K) (v : V) (m : Map K V)
      → p v ≡ false
      → counted (insert k v m) ≤ counted m
  unfolding insert filter
  counted-insert_other k v [] h = ground arith
  counted-insert_other k v ((j, w) ∷ m) h = ground (arith, counted-insert_other k v m h)

-- A property of all values of a map.
abbrev pub AllValues {ℓ κ} : {K V : Type ℓ} → (V → Type κ) → Map K V → Type κ
AllValues P m = All (λ (k, v). P v) m

module _ {ℓ} {K V : Type ℓ} (P : V → Type 0) where
  pub All-retain : (q : K → V → Bool) (m : Map K V) → AllValues P m → AllValues P (retain q m)
  unfolding retain
  All-retain q [] h = tt
  All-retain q ((k, v) ∷ m) h = elim (Bool-cases (q k v)) [
    | inl stays ↦ rw stays (h.0, All-retain q m h.1)
    | inr goes ↦ rw goes (All-retain q m h.1)
  ]

  pub All-remove :
      ⦃e : PartialEq K⦄ (k : K) (m : Map K V) → AllValues P m → AllValues P (remove k m)
  unfolding remove
  All-remove k [] h = tt
  All-remove k ((j, v) ∷ m) h = elim (Bool-cases (j == k)) [
    | inl same ↦ rw same (All-remove k m h.1)
    | inr other ↦ rw other (h.0, All-remove k m h.1)
  ]

  pub All-insert :
      ⦃e : PartialEq K⦄ (k : K) (v : V) (m : Map K V)
      → P v
      → AllValues P m
      → AllValues P (insert k v m)
  unfolding insert
  All-insert k v [] new h = (new, tt)
  All-insert k v ((j, w) ∷ m) new h = elim (Bool-cases (j == k)) [
    | inl same ↦ rw same (new, h.1)
    | inr other ↦ rw other (h.0, All-insert k v m new h.1)
  ]

  pub All-lookup :
      ⦃e : PartialEq K⦄ (k : K) (m : Map K V) (v : V) → lookup k m ≡ some v → AllValues P m → P v
  unfolding lookup
  All-lookup k [] v found h = ground arith
  All-lookup k ((j, w) ∷ m) v found h = elim (Bool-cases (j == k)) [
    | inl same ↦ let eq : w ≡ v = ground arith in subst P eq h.0
    | inr other ↦ All-lookup k m v (rw other at found) h.1
  ]
