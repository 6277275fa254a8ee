-- ===== src/Base/Entries.antt =====
-- What holds of all entries of a map, and the size of a map that a known key is inserted in.
use mathlib.Core.Path.{◌≡◌, subst, refl}
use mathlib.Core.Logic.{inl, inr}
use mathlib.Core.Bool.{Bool, true}
use mathlib.Core.List.{[], ◌∷◌}
use mathlib.Core.Option.{none, some}
use native.Mathlib.Omega.{arith}
use mobile_proxy.Base.Tests.{PartialEq, ◌==◌, Bool-cases, ==→eq, ==_refl}
use mobile_proxy.Base.Lists.{length, All}
use mobile_proxy.Base.Maps.{Map, lookup, insert, remove, retain}

module _ {ℓ} {K V : Type ℓ} ⦃e : PartialEq K⦄ where
  pub length-insert_known :
      (k : K) (v old : V) (m : Map K V) → lookup k m ≡ some old → length (insert k v m) ≡ length m
  unfolding lookup insert
  length-insert_known k v old [] h = ground arith
  length-insert_known k v old ((j, w) ∷ m) h = ground (arith, length-insert_known k v old m)

module _ {ℓ} {K V : Type ℓ} ⦃e : PartialEq K⦄ (P : K → V → Type 0) where
  -- A property of all entries.
  abbrev pub AllEntries : Map K V → Type 0
  AllEntries m = All (λ (k, v). P k v) m

  pub AllEntries-insert :
      (k : K) (v : V) (m : Map K V) → P k v → AllEntries m → AllEntries (insert k v m)
  unfolding insert
  AllEntries-insert k v [] new h = (new, tt)
  AllEntries-insert k v ((j, w) ∷ m) new h = elim (Bool-cases (j == k)) [
    | inl same ↦ rw same (new, h.1)
    | inr other ↦ rw other (h.0, AllEntries-insert k v m new h.1)
  ]

  pub AllEntries-remove : (k : K) (m : Map K V) → AllEntries m → AllEntries (remove k m)
  unfolding remove
  AllEntries-remove k [] h = tt
  AllEntries-remove k ((j, w) ∷ m) h = elim (Bool-cases (j == k)) [
    | inl same ↦ rw same (AllEntries-remove k m h.1)
    | inr other ↦ rw other (h.0, AllEntries-remove k m h.1)
  ]

  pub AllEntries-lookup : (k : K) (v : V) (m : Map K V) → lookup k m ≡ some v → AllEntries m → P k v
  unfolding lookup
  AllEntries-lookup k v [] found h = ground arith
  AllEntries-lookup k v ((j, w) ∷ m) found h = elim (Bool-cases (j == k)) [
    | inl same ↦
        let value : w ≡ v = ground arith in
        let key = ==→eq j k same in subst (λ x. P k x) value (subst (λ x. P x w) key h.0)
    | inr other ↦ AllEntries-lookup k v m (rw other at found) h.1
  ]

-- What is retained, and that the rest is as it was.
module _ {ℓ} {K V : Type ℓ} (p : K → V → Bool) where
  pub retain-All : (m : Map K V) → All (λ (k, v). p k v ≡ true) (retain p m)
  unfolding retain
  retain-All [] = tt
  retain-All ((k, v) ∷ m) = elim (Bool-cases (p k v)) [
    | inl kept ↦ rw kept (kept, retain-All m)
    | inr gone ↦ rw gone (retain-All m)
  ]

  pub lookup-retain_kept :
      ⦃e : PartialEq K⦄ (k : K) (v : V) (m : Map K V)
      → lookup k m ≡ some v
      → p k v ≡ true
      → lookup k (retain p m) ≡ some v
  unfolding retain lookup
  lookup-retain_kept ⦃e⦄ k v [] found kept = found
  lookup-retain_kept ⦃e⦄ k v ((j, w) ∷ m) found kept = elim (Bool-cases (j == k)) [
    | inl same ↦
        let value : w ≡ v = ground arith in
        let key = ==→eq j k same in rw (key, value) (rw kept (rw ==_refl refl))
    | inr other ↦ ground (arith, lookup-retain_kept k v m (rw other at found) kept)
  ]

  pub lookup-retain_none :
      ⦃e : PartialEq K⦄ (k : K) (m : Map K V) → lookup k m ≡ none → lookup k (retain p m) ≡ none
  unfolding retain lookup
  lookup-retain_none ⦃e⦄ k [] absent = absent
  lookup-retain_none ⦃e⦄ k ((j, w) ∷ m) absent = ground (arith, lookup-retain_none k m)
