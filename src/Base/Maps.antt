-- ===== src/Base/Maps.antt =====
-- `HashMap` and `BTreeMap` as association lists: only keyed access, `len`, `values` and `retain`
-- are used by the code, and no property depends on the order of entries.
use Prim.Native.Nat.{◌+◌, ◌≤◌}
use mathlib.Core.Path.{◌≡◌, refl, ap, sym}
use mathlib.Core.Logic.{inl, inr}
use mathlib.Core.Bool.{Bool, true, false}
use mathlib.Core.List.{List, [], ◌∷◌}
use mathlib.Core.Option.{Option, none, some}
use native.Mathlib.Omega.{arith}
use mobile_proxy.Base.Tests.{PartialEq, ◌==◌, if◌then◌else◌, is_some, Bool-cases, ==→eq}
use mobile_proxy.Base.Lists.{length}

abbrev pub Map {ℓ} : Type ℓ → Type ℓ → Type ℓ
Map K V = List (K × V)

module _ {ℓ} {K V : Type ℓ} where
  abbrev pub values : Map K V → List V
  values [] = []
  values ((_, v) ∷ entries) = v ∷ values entries

  -- `retain(|k, v| p)`.
  unfoldable pub retain : (K → V → Bool) → Map K V → Map K V
  retain p [] = []
  retain p ((k, v) ∷ entries) = let rest = retain p entries in if p k v then (k, v) ∷ rest else rest

  pub length-retain-le :
      (p : K → V → Bool) (entries : Map K V) → length (retain p entries) ≤ length entries
  unfolding retain
  length-retain-le p [] = omega arith
  length-retain-le p ((k, v) ∷ entries) = ground (arith, length-retain-le p entries)

module _ {ℓ} {K V : Type ℓ} ⦃e : PartialEq K⦄ where
  unfoldable pub lookup : K → Map K V → Option V
  lookup k [] = none
  lookup k ((j, v) ∷ entries) = if j == k then some v else lookup k entries

  abbrev pub contains_key : K → Map K V → Bool
  contains_key k entries = is_some (lookup k entries)

  -- `insert` replaces the value of a key that is there.
  unfoldable pub insert : K → V → Map K V → Map K V
  insert k v [] = (k, v) ∷ []
  insert k v ((j, old) ∷ entries) =
      if j == k then (k, v) ∷ entries else (j, old) ∷ insert k v entries

  unfoldable pub remove : K → Map K V → Map K V
  remove k [] = []
  remove k ((j, v) ∷ entries) =
      let rest = remove k entries in if j == k then rest else (j, v) ∷ rest

  pub lookup-insert :
      (k j : K) (v : V) (entries : Map K V)
      → lookup j (insert k v entries) ≡ (if k == j then some v else lookup j entries)
  unfolding lookup insert
  lookup-insert k j v [] = refl
  lookup-insert k j v ((i, old) ∷ entries) =
      ground (arith, e.eq_iff k j, e.eq_iff i k, e.eq_iff i j, lookup-insert k j v entries)

  pub lookup-remove :
      (k j : K) (entries : Map K V)
      → lookup j (remove k entries) ≡ (if k == j then none else lookup j entries)
  unfolding lookup remove
  lookup-remove k j [] = ground arith
  lookup-remove k j ((i, old) ∷ entries) =
      ground (arith, e.eq_iff k j, e.eq_iff i k, e.eq_iff i j, lookup-remove k j entries)

  pub length-insert-le :
      (k : K) (v : V) (entries : Map K V) → length (insert k v entries) ≤ length entries + 1
  unfolding insert
  length-insert-le k v [] = omega arith
  length-insert-le k v ((j, old) ∷ entries) = ground (arith, length-insert-le k v entries)

  pub length-remove-le : (k : K) (entries : Map K V) → length (remove k entries) ≤ length entries
  unfolding remove
  length-remove-le k [] = omega arith
  length-remove-le k ((j, old) ∷ entries) = ground (arith, length-remove-le k entries)

  -- What `retain` leaves under a key was there and passes; what passes stays.
  pub lookup-retain_sound :
      (p : K → V → Bool) (k : K) (entries : Map K V) (v : V)
      → lookup k (retain p entries) ≡ some v
      → p k v ≡ true
  unfolding lookup retain
  lookup-retain_sound p k [] v h = ground arith
  lookup-retain_sound p k ((j, old) ∷ entries) v h =
      ground (arith, e.eq_iff j k, lookup-retain_sound p k entries v)

  pub lookup-retain_keeps :
      (p : K → V → Bool) (k : K) (entries : Map K V) (v : V)
      → lookup k entries ≡ some v
      → p k v ≡ true
      → lookup k (retain p entries) ≡ some v
  unfolding lookup retain
  lookup-retain_keeps p k [] v h q = ground arith
  lookup-retain_keeps p k ((j, old) ∷ entries) v h q =
      ground (arith, e.eq_iff j k, lookup-retain_keeps p k entries v)

module _ {ℓ} {K V : Type ℓ} ⦃e : PartialEq K⦄ where
  pub lookup-remove_if :
      (k j : K) (b : Bool) (entries : Map K V)
      → lookup j (if b then remove k entries else entries)
        ≡ (if k == j then (if b then none else lookup k entries) else lookup j entries)
  lookup-remove_if k j true entries = lookup-remove k j entries
  lookup-remove_if k j false entries = elim (Bool-cases (k == j)) [
    | inl same ↦ rw same (ap (λ i. lookup i entries) (sym (==→eq k j same)))
    | inr other ↦ rw other
  ]

pub ruleset map_laws = (lookup-insert, lookup-remove, lookup-remove_if)
