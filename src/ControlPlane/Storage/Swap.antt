-- ===== src/ControlPlane/Storage/Swap.antt =====
-- crates/control-plane-sqlite/src/snapshot_compare_and_swap.rs: the statements make the candidate of the
-- tables, so that a swap either fails or leaves the candidate.
use Prim.Native.Nat.{suc}
use mobile_proxy.Base.{
  ℕ, String, string_eq, nat_eq, pair_eq, List, [], ◌∷◌, map, length, Map, ok, ok-injective, ◌≡◌,
  refl, ◌∙◌, ap, subst,
}
use mobile_proxy.ControlPlane.Storage.{
  RelationalState, SnapshotRowChanges, delete_pending, delete_claim, delete_result, delete_device,
  upsert_device, insert_result, insert_claim, insert_pending, Sqlite, apply_row_changes, stale_keys,
  dropped_keys, changed_rows,
}
use mobile_proxy.ControlPlane.Storage.Rows.{remove_all, insert_all, table_swapped, table_upserted}
use mobile_proxy.ControlPlane.Storage.Cascade.{
  ClaimsFollow, without_stale_claims, stale_claims_gone, run_all-delete_result,
}
use mobile_proxy.ControlPlane.Storage.Statements.{
  effect, run_all, SameTables, SameTables_trans, IsKeyed, KeepsTables, after_loop, run_all-deletes,
  run_all-inserts,
}

run_all-delete_pending :
    (keys : List String) (state : RelationalState)
    → run_all (map delete_pending keys) state
      ≡ (record state { pending_commands = remove_all keys state.pending_commands })
unfolding effect
run_all-delete_pending keys state =
    run_all-deletes (λ m. record state { pending_commands = m }) delete_pending (λ key m. refl) keys
      state.pending_commands

run_all-delete_claim :
    (keys : List String) (state : RelationalState)
    → run_all (map delete_claim keys) state
      ≡ (record state { idempotency_claims = remove_all keys state.idempotency_claims })
unfolding effect
run_all-delete_claim keys state =
    run_all-deletes (λ m. record state { idempotency_claims = m }) delete_claim (λ key m. refl) keys
      state.idempotency_claims

run_all-delete_device :
    (keys : List String) (state : RelationalState)
    → run_all (map delete_device keys) state
      ≡ (record state { devices = remove_all keys state.devices })
unfolding effect
run_all-delete_device keys state =
    run_all-deletes (λ m. record state { devices = m }) delete_device (λ key m. refl) keys
      state.devices

run_all-upsert_device :
    (rows : Map String (String)) (state : RelationalState)
    → run_all (map upsert_device rows) state
      ≡ (record state { devices = insert_all rows state.devices })
unfolding effect
run_all-upsert_device rows state =
    run_all-inserts (λ m. record state { devices = m }) upsert_device (λ key value m. refl) rows
      state.devices

run_all-insert_result :
    (rows : Map String (String × String)) (state : RelationalState)
    → run_all (map insert_result rows) state
      ≡ (record state { command_results = insert_all rows state.command_results })
unfolding effect
run_all-insert_result rows state =
    run_all-inserts (λ m. record state { command_results = m }) insert_result (λ key value m. refl)
      rows state.command_results

run_all-insert_claim :
    (rows : Map String (String × String)) (state : RelationalState)
    → run_all (map insert_claim rows) state
      ≡ (record state { idempotency_claims = insert_all rows state.idempotency_claims })
unfolding effect
run_all-insert_claim rows state =
    run_all-inserts (λ m. record state { idempotency_claims = m }) insert_claim
      (λ key value m. refl) rows state.idempotency_claims

run_all-insert_pending :
    (rows : Map String (String × (ℕ × String))) (state : RelationalState)
    → run_all (map insert_pending rows) state
      ≡ (record state { pending_commands = insert_all rows state.pending_commands })
unfolding effect
run_all-insert_pending rows state =
    run_all-inserts (λ m. record state { pending_commands = m }) insert_pending
      (λ key value m. refl) rows state.pending_commands

-- The statements of the eight loops, in order.
abbrev deleted_rows : RelationalState → RelationalState → RelationalState
deleted_rows current candidate =
    run_all (map delete_device (dropped_keys candidate.devices current.devices)) (
      run_all (map delete_result (stale_keys candidate.command_results current.command_results)) (
        run_all
          (map delete_claim (stale_keys candidate.idempotency_claims current.idempotency_claims))
          (run_all
            (map delete_pending (stale_keys candidate.pending_commands current.pending_commands))
            current)))

abbrev swapped_rows : RelationalState → RelationalState → RelationalState
swapped_rows current candidate =
    run_all (map insert_pending (changed_rows current.pending_commands candidate.pending_commands))
      (run_all
        (map insert_claim (changed_rows current.idempotency_claims candidate.idempotency_claims))
        (run_all
          (map insert_result (changed_rows current.command_results candidate.command_results))
          (run_all (map upsert_device (changed_rows current.devices candidate.devices))
            (deleted_rows current candidate))))

swapped_rows-SameTables :
    (current candidate : RelationalState)
    → IsKeyed current
    → IsKeyed candidate
    → ClaimsFollow current candidate
    → SameTables (swapped_rows current candidate) candidate
swapped_rows-SameTables current candidate (d, r, c, p) (d2, r2, c2, p2) follow =
    let stale = stale_keys candidate.command_results current.command_results in
    let cleared : RelationalState = record current {
      pending_commands =
          remove_all (stale_keys candidate.pending_commands current.pending_commands)
            current.pending_commands;
      idempotency_claims = without_stale_claims current candidate;
    } in
    rw
      (
        run_all-delete_pending,
        run_all-delete_claim,
        run_all-delete_result stale cleared (stale_claims_gone current candidate r c follow),
        run_all-delete_device,
        run_all-upsert_device,
        run_all-insert_result,
        run_all-insert_claim,
        run_all-insert_pending,
      )
      (
        λ k. table_upserted k current.devices candidate.devices d2,
        λ k. table_swapped k current.command_results candidate.command_results r r2,
        λ k. table_swapped k current.idempotency_claims candidate.idempotency_claims c c2,
        λ k. table_swapped k current.pending_commands candidate.pending_commands p p2,
      )

length-map : {A B : Type 0} (f : A → B) (xs : List A) → length (map f xs) ≡ length xs
length-map f [] = refl
length-map f (x ∷ xs) = ap suc (length-map f xs)

-- Each count is the number of rows that differ.
abbrev pub CountsRows : SnapshotRowChanges → RelationalState → RelationalState → Type 0
CountsRows changes current candidate =
    (changes.devices_upserted ≡ length (changed_rows current.devices candidate.devices))
    × (changes.devices_deleted ≡ length (dropped_keys candidate.devices current.devices))
    × (changes.command_results_inserted
        ≡ length (changed_rows current.command_results candidate.command_results))
    × (changes.command_results_deleted
        ≡ length (stale_keys candidate.command_results current.command_results))
    × (changes.idempotency_claims_inserted
        ≡ length (changed_rows current.idempotency_claims candidate.idempotency_claims))
    × (changes.idempotency_claims_deleted
        ≡ length (stale_keys candidate.idempotency_claims current.idempotency_claims))
    × (changes.pending_commands_inserted
        ≡ length (changed_rows current.pending_commands candidate.pending_commands))
    × (changes.pending_commands_deleted
        ≡ length (stale_keys candidate.pending_commands current.pending_commands))

pub apply_row_changes-ok :
    (sql : Sqlite) (keeps : KeepsTables sql) (current candidate : RelationalState)
    (db : sql.Database) (changes : SnapshotRowChanges) (last : sql.Database)
    → IsKeyed current
    → IsKeyed candidate
    → SameTables (keeps.tables db) current
    → apply_row_changes sql current candidate db ≡ ok (changes, last)
    → CountsRows changes current candidate
      × (ClaimsFollow current candidate → SameTables (keeps.tables last) candidate)
unfolding apply_row_changes
apply_row_changes-ok sql keeps current candidate db changes last keyed keyed_candidate s0 h0 =
    after_loop sql keeps _ db _ _ (changes, last) _ s0 h0
      λ n1 db1 c1 s1 h1.
        after_loop sql keeps _ db1 _ _ (changes, last) _ s1 h1
          λ n2 db2 c2 s2 h2.
            after_loop sql keeps _ db2 _ _ (changes, last) _ s2 h2
              λ n3 db3 c3 s3 h3.
                after_loop sql keeps _ db3 _ _ (changes, last) _ s3 h3
                  λ n4 db4 c4 s4 h4.
                    after_loop sql keeps _ db4 _ _ (changes, last) _ s4 h4
                      λ n5 db5 c5 s5 h5.
                        after_loop sql keeps _ db5 _ _ (changes, last) _ s5 h5
                          λ n6 db6 c6 s6 h6.
                            after_loop sql keeps _ db6 _ _ (changes, last) _ s6 h6
                              λ n7 db7 c7 s7 h7.
                                after_loop sql keeps _ db7 _ _ (changes, last) _ s7 h7
                                  λ n8 db8 c8 s8 h8. (
                                    subst (λ x. CountsRows x current candidate)
                                        (ap (λ r. r.0) (ok-injective h8))
                                        (
                                          c5 ∙ length-map upsert_device _,
                                          c4 ∙ length-map delete_device _,
                                          c6 ∙ length-map insert_result _,
                                          c3 ∙ length-map delete_result _,
                                          c7 ∙ length-map insert_claim _,
                                          c2 ∙ length-map delete_claim _,
                                          c8 ∙ length-map insert_pending _,
                                          c1 ∙ length-map delete_pending _,
                                        ),
                                    λ follow.
                                        SameTables_trans (keeps.tables last)
                                          (swapped_rows current candidate) candidate
                                          (subst
                                            (λ x.
                                              SameTables (keeps.tables x)
                                                (swapped_rows current candidate))
                                            (ap (λ r. r.1) (ok-injective h8)) s8)
                                          (swapped_rows-SameTables current candidate keyed
                                            keyed_candidate follow),
                                  )
