-- ===== src/ControlPlane/Storage/Cascade.antt =====
-- crates/control-plane-sqlite/src/snapshot_compare_and_swap.rs: when the deletion of results takes no
-- claim along.
use mobile_proxy.Base.{
  String, string_eq, nat_eq, pair_eq, true, false, none, some, List, [], ◌∷◌, map, ◌==◌, ==_refl,
  Map, lookup, remove, All, All-map, ◌≡◌, refl, sym, ◌∙◌, ap, arith, Bool-cases, Option-cases, inl,
  inr, is_some_and-cases, ==→eq,
}
use mobile_proxy.ControlPlane.Storage.{RelationalState, delete_result, stale_keys, has}
use mobile_proxy.ControlPlane.Storage.Rows.{
  remove_all, Within, lookup-remove_all, any-stale_keys, has_row-lookup, stale_keys-All,
}
use mobile_proxy.ControlPlane.Storage.Statements.{effect, run_all}

-- Where a claim is kept as it is, the result of its scope is kept as it is, too.
abbrev pub ClaimsFollow : RelationalState → RelationalState → Type 0
ClaimsFollow current candidate =
    (scope : String) (claim : String × String)
    → lookup scope current.idempotency_claims ≡ some claim
    → lookup scope candidate.idempotency_claims ≡ some claim
    → lookup scope current.command_results ≡ lookup scope candidate.command_results

abbrev pub without_stale_claims : RelationalState → RelationalState → Map String (String × String)
without_stale_claims current candidate =
    remove_all (stale_keys candidate.idempotency_claims current.idempotency_claims)
      current.idempotency_claims

claim_gone :
    (current candidate : RelationalState) (key : String) (result : String × String)
    → Within current.idempotency_claims current.idempotency_claims
    → ClaimsFollow current candidate
    → lookup key current.command_results ≡ some result
    → has candidate.command_results key result ≡ false
    → lookup key (without_stale_claims current candidate) ≡ none
claim_gone current candidate key result own follow found changed =
    lookup-remove_all key (stale_keys candidate.idempotency_claims current.idempotency_claims)
      current.idempotency_claims
    ∙ rw
        (
          any-stale_keys key candidate.idempotency_claims current.idempotency_claims
              current.idempotency_claims own,
          has_row-lookup key current.idempotency_claims,
        )
        (elim (Option-cases (lookup key current.idempotency_claims)) [
          | inl absent ↦ rw absent refl
          | inr (claim, present) ↦
              rw present (elim (Bool-cases (has candidate.idempotency_claims key claim)) [
                | inr stale ↦ rw stale refl
                | inl kept ↦
                    let (other, there, equal) =
                      is_some_and-cases (lookup key candidate.idempotency_claims) (λ x. x == claim)
                        kept in
                    let same =
                      follow key claim present (there ∙ ap some (==→eq other claim equal)) in
                    let still : has candidate.command_results key result ≡ true =
                      rw (sym same ∙ found) (==_refl result) in
                    absurd (ground arith)
              ])
        ])

pub stale_claims_gone :
    (current candidate : RelationalState)
    → Within current.command_results current.command_results
    → Within current.idempotency_claims current.idempotency_claims
    → ClaimsFollow current candidate
    → All
        (λ key. lookup key (without_stale_claims current candidate) ≡ none)
        (stale_keys candidate.command_results current.command_results)
stale_claims_gone current candidate own_results own follow =
    All-map (stale_keys candidate.command_results current.command_results)
      (λ key (result, found, changed).
        claim_gone current candidate key result own follow found changed)
      (stale_keys-All candidate.command_results current.command_results current.command_results
        own_results)

-- Results without claims are deleted alone.
pub run_all-delete_result :
    (keys : List String) (state : RelationalState)
    → All (λ key. lookup key state.idempotency_claims ≡ none) keys
    → run_all (map delete_result keys) state
      ≡ (record state { command_results = remove_all keys state.command_results })
unfolding run_all remove_all effect
run_all-delete_result [] state gone = refl
run_all-delete_result (key ∷ keys) state gone =
    let alone : effect (delete_result key) state
        ≡ (record state { command_results = remove key state.command_results }) =
      rw gone.0 refl in
    ap (run_all (map delete_result keys)) alone
    ∙ run_all-delete_result keys
        (record state { command_results = remove key state.command_results }) gone.1
