-- ===== src/ControlPlane/Storage/Rows.antt =====
-- crates/control-plane-sqlite/src/snapshot_compare_and_swap.rs: the difference of two tables.
use mobile_proxy.Base.{
  false, All, String, string_eq, Bool, not, Option, none, some, List, [], ◌∷◌, ◌==◌, ==→eq,
  PartialEq, Map, lookup, contains_key, insert, remove, lookup-insert, lookup-remove, is_some,
  is_some_and, any, if◌then◌else◌, ◌≡◌, refl, ◌∙◌, arith, AllEntries, Bool-cases, inl, inr, ◌&&◌,
}
use mobile_proxy.ControlPlane.Storage.{has, stale_keys, dropped_keys, changed_rows}

abbrev pub among : List String → String → Bool
among keys k = any (λ key. key == k) keys

module _ {V : Type 0} where
  -- The rows with these keys are deleted one by one, and these rows are written one by one.
  unfoldable pub remove_all : List String → Map String V → Map String V
  remove_all [] m = m
  remove_all (key ∷ keys) m = remove_all keys (remove key m)

  unfoldable pub insert_all : Map String V → Map String V → Map String V
  insert_all [] m = m
  insert_all ((key, value) ∷ rows) m = insert_all rows (insert key value m)

  abbrev pub has_row : Map String V → String → Bool
  has_row rows k = any (λ (key, _). key == k) rows

  pub lookup-remove_all :
      (k : String) (keys : List String) (m : Map String V)
      → lookup k (remove_all keys m) ≡ (if among keys k then none else lookup k m)
  unfolding remove_all any
  lookup-remove_all k [] m = refl
  lookup-remove_all k (key ∷ keys) m =
      ground (arith, lookup-remove_all k keys (remove key m), lookup-remove key k m)

  -- The rows of a table that are among another's.
  abbrev pub Within : Map String V → Map String V → Type 0
  Within whole rows = AllEntries (λ key value. lookup key whole ≡ some value) rows

  lookup-insert_all :
      (k : String) (whole rows m : Map String V)
      → Within whole rows
      → lookup k (insert_all rows m) ≡ (if has_row rows k then lookup k whole else lookup k m)
  unfolding insert_all any
  lookup-insert_all k whole [] m h = refl
  lookup-insert_all k whole ((key, value) ∷ rows) m h = ground (
    arith,
    lookup-insert_all k whole rows (insert key value m) h.1,
    lookup-insert key k value m,
    h.0,
    ==→eq key k,
  )

module _ {V : Type 0} ⦃e : PartialEq V⦄ where
  pub any-stale_keys :
      (k : String) (candidate whole rows : Map String V)
      → Within whole rows
      → among (stale_keys candidate rows) k
        ≡ (has_row rows k && not (is_some_and (lookup k whole) (has candidate k)))
  unfolding stale_keys any
  any-stale_keys k candidate whole [] h = refl
  any-stale_keys k candidate whole ((key, value) ∷ rows) h =
      ground (arith, any-stale_keys k candidate whole rows h.1, h.0, ==→eq key k)

  any-dropped_keys :
      (k : String) (candidate rows : Map String V)
      → among (dropped_keys candidate rows) k ≡ (has_row rows k && not (contains_key k candidate))
  unfolding dropped_keys any
  any-dropped_keys k candidate [] = refl
  any-dropped_keys k candidate ((key, value) ∷ rows) =
      ground (arith, any-dropped_keys k candidate rows, ==→eq key k)

  any-changed_rows :
      (k : String) (current whole rows : Map String V)
      → Within whole rows
      → has_row (changed_rows current rows) k
        ≡ (has_row rows k && not (is_some_and (lookup k whole) (has current k)))
  unfolding changed_rows any
  any-changed_rows k current whole [] h = refl
  any-changed_rows k current whole ((key, value) ∷ rows) h =
      ground (arith, any-changed_rows k current whole rows h.1, h.0, ==→eq key k)

  changed_rows-Within :
      (current whole rows : Map String V)
      → Within whole rows
      → Within whole (changed_rows current rows)
  unfolding changed_rows
  changed_rows-Within current whole [] h = tt
  changed_rows-Within current whole ((key, value) ∷ rows) h =
      elim (Bool-cases (has current key value)) [
        | inl same ↦ rw same (changed_rows-Within current whole rows h.1)
        | inr other ↦ rw other (h.0, changed_rows-Within current whole rows h.1)
      ]

  pub has_row-lookup : (k : String) (m : Map String V) → has_row m k ≡ is_some (lookup k m)
  unfolding any lookup
  has_row-lookup k [] = refl
  has_row-lookup k ((key, value) ∷ m) = ground (arith, has_row-lookup k m)

  swapped_row :
      (a b : Option V) (k : String) (current candidate : Map String V)
      → lookup k current ≡ a
      → lookup k candidate ≡ b
      → (if is_some b && not (is_some_and b (has current k))
          then b
          else if is_some a && not (is_some_and a (has candidate k))
          then none
          else a)
        ≡ b
  swapped_row none none k current candidate ha hb = refl
  swapped_row none (some v) k current candidate ha hb = rw ha refl
  swapped_row (some u) none k current candidate ha hb = rw hb refl
  swapped_row (some u) (some v) k current candidate ha hb =
      rw (ha, hb) (ground (arith, e.eq_iff u v, e.eq_iff v u))

  upserted_row :
      (a b : Option V) (k : String) (current : Map String V)
      → lookup k current ≡ a
      → (if is_some b && not (is_some_and b (has current k))
          then b
          else if is_some a && not (is_some b)
          then none
          else a)
        ≡ b
  upserted_row none none k current ha = refl
  upserted_row none (some v) k current ha = rw ha refl
  upserted_row (some u) none k current ha = refl
  upserted_row (some u) (some v) k current ha = rw ha (ground (arith, e.eq_iff u v))

  -- A table whose stale rows are deleted and whose changed rows are then written is the candidate.
  pub table_swapped :
      (k : String) (current candidate : Map String V)
      → Within current current
      → Within candidate candidate
      → lookup k (
          insert_all
            (changed_rows current candidate)
            (remove_all (stale_keys candidate current) current))
        ≡ lookup k candidate
  table_swapped k current candidate own own_candidate =
      let written = changed_rows current candidate in
      let deleted = stale_keys candidate current in
      lookup-insert_all k candidate written (remove_all deleted current)
        (changed_rows-Within current candidate candidate own_candidate)
      ∙ rw
          (
            lookup-remove_all k deleted current,
            any-stale_keys k candidate current current own,
            any-changed_rows k current candidate candidate own_candidate,
            has_row-lookup k current,
            has_row-lookup k candidate,
          )
          (swapped_row (lookup k current) (lookup k candidate) k current candidate refl refl)

  -- The same where only the rows are deleted whose key is dropped, and writing replaces.
  pub table_upserted :
      (k : String) (current candidate : Map String V)
      → Within candidate candidate
      → lookup k (
          insert_all
            (changed_rows current candidate)
            (remove_all (dropped_keys candidate current) current))
        ≡ lookup k candidate
  table_upserted k current candidate own_candidate =
      let written = changed_rows current candidate in
      let deleted = dropped_keys candidate current in
      lookup-insert_all k candidate written (remove_all deleted current)
        (changed_rows-Within current candidate candidate own_candidate)
      ∙ rw
          (
            lookup-remove_all k deleted current,
            any-dropped_keys k candidate current,
            any-changed_rows k current candidate candidate own_candidate,
            has_row-lookup k current,
            has_row-lookup k candidate,
          )
          (upserted_row (lookup k current) (lookup k candidate) k current refl)

  -- A stale key has a row that the candidate does not have.
  pub stale_keys-All :
      (candidate whole rows : Map String V)
      → Within whole rows
      → All
          (λ key. (v : V) × (lookup key whole ≡ some v) × (has candidate key v ≡ false))
          (stale_keys candidate rows)
  unfolding stale_keys
  stale_keys-All candidate whole [] h = tt
  stale_keys-All candidate whole ((key, value) ∷ rows) h =
      elim (Bool-cases (has candidate key value)) [
        | inl same ↦ rw same (stale_keys-All candidate whole rows h.1)
        | inr other ↦ rw other ((value, h.0, other), stale_keys-All candidate whole rows h.1)
      ]
