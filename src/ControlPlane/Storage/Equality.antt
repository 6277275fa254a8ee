-- ===== src/ControlPlane/Storage/Equality.antt =====
-- crates/control-plane-sqlite/src/snapshot_compare_and_swap.rs: `==` of two tables.
use mobile_proxy.Base.{
  String, string_eq, true, some, [], ◌∷◌, ◌==◌, ==→eq, ==_refl, PartialEq, Map, lookup,
  is_some_and-cases, all, ◌≡◌, refl, sym, ◌∙◌, ap, arith, Bool-cases, Option-cases, inl, inr,
}
use mobile_proxy.ControlPlane.Storage.Rows.{Within}
use mobile_proxy.ControlPlane.Storage.{has, table_eq}

module _ {V : Type 0} ⦃e : PartialEq V⦄ where
  all-has :
      (k : String) (v : V) (table rows : Map String V)
      → all (λ (key, value). has table key value) rows ≡ true
      → lookup k rows ≡ some v
      → lookup k table ≡ some v
  unfolding all lookup
  all-has k v table [] h found = ground arith
  all-has k v table ((key, value) ∷ rows) h found = elim (Bool-cases (key == k)) [
    | inl same ↦
        let here : value ≡ v = ground arith in
        let named = ==→eq key k same in
        let holds : has table key value ≡ true = ground arith in
        let (other, found_there, equal) =
          is_some_and-cases (lookup key table) (λ x. x == value) holds in
        rw (← named) (found_there ∙ ap some (==→eq other value equal ∙ here))
    | inr other ↦ all-has k v table rows (ground arith) (rw other at found)
  ]

  has-all :
      (table whole rows : Map String V)
      → ((key : String) → lookup key whole ≡ lookup key table)
      → Within whole rows
      → all (λ (key, value). has table key value) rows ≡ true
  unfolding all
  has-all table whole [] same own = refl
  has-all table whole ((key, value) ∷ rows) same own =
      let found : has table key value ≡ true = rw (sym (same key) ∙ own.0) (==_refl value) in
      rw found (has-all table whole rows same own.1)

  pub table_eq-same :
      (a b : Map String V) → table_eq a b ≡ true → (key : String) → lookup key a ≡ lookup key b
  table_eq-same a b h key =
      let (there, back) : (all (λ (k, v). has b k v) a ≡ true)
          × (all (λ (k, v). has a k v) b ≡ true) =
        ground arith in
      elim (Option-cases (lookup key a)) [
        | inr (v, found) ↦ found ∙ sym (all-has key v b a there found)
        | inl absent ↦ elim (Option-cases (lookup key b)) [
          | inl missing ↦ absent ∙ sym missing
          | inr (w, found) ↦ all-has key w a b back found ∙ sym found
        ]
      ]

  pub same-table_eq :
      (a b : Map String V)
      → ((key : String) → lookup key a ≡ lookup key b)
      → Within a a
      → Within b b
      → table_eq a b ≡ true
  same-table_eq a b same own own_b =
      rw (has-all b a a same own, has-all a b b (λ key. sym (same key)) own_b) refl

  pub all-Within :
      (table rows : Map String V)
      → all (λ (key, value). has table key value) rows ≡ true
      → Within table rows
  unfolding all
  all-Within table [] h = tt
  all-Within table ((key, value) ∷ rows) h =
      let (first, rest) : (has table key value ≡ true)
          × (all (λ (k, v). has table k v) rows ≡ true) =
        ground arith in
      let (other, found, equal) = is_some_and-cases (lookup key table) (λ x. x == value) first in
      (found ∙ ap some (==→eq other value equal), all-Within table rows rest)
