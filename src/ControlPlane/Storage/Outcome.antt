-- ===== src/ControlPlane/Storage/Outcome.antt =====
-- crates/control-plane-sqlite/src/snapshot_compare_and_swap.rs: what the answer of a swap tells.
use mobile_proxy.Base.{
  ◌∙◌, string_eq, nat_eq, pair_eq, Bool, true, false, not, Result, ok, err, fail_if, ◌>>◌, ◌>>=◌,
  ◌≡◌, refl, sym, arith,
}
use mobile_proxy.ControlPlane.Storage.{
  RelationalState, SnapshotRowChanges, Sqlite, apply_row_changes, swap_rows, state_eq, table_eq,
  SnapshotCompareAndSwapError, stale_expected_state, post_write_parity_mismatch, store, or_store,
}
use mobile_proxy.ControlPlane.Storage.Equality.{table_eq-same, same-table_eq}
use mobile_proxy.ControlPlane.Storage.Swap.{CountsRows, apply_row_changes-ok}
use mobile_proxy.ControlPlane.Storage.Cascade.{ClaimsFollow}
use mobile_proxy.ControlPlane.Storage.Statements.{
  SameTables, SameTables_trans, IsKeyed, KeepsTables,
}

-- A call of the database fails with its own failure, or is followed by the rest.
after_call :
    {F A B : Type 0} (m : Result F A) (k : A → Result (SnapshotCompareAndSwapError F) B)
    (P : Result (SnapshotCompareAndSwapError F) B → Type 0)
    → ((failure : F) → P (err (store failure)))
    → ((a : A) → m ≡ ok a → P (k a))
    → P (or_store m >>= k)
after_call (ok a) k P failed rest = rest a refl
after_call (err failure) k P failed rest = failed failure

after_guard :
    {E B : Type 0} (test : Bool) (e : E) (k : Result E B) (P : Result E B → Type 0)
    → (test ≡ true → P (err e))
    → (test ≡ false → P k)
    → P (fail_if test e >> k)
after_guard true e k P stopped rest = stopped refl
after_guard false e k P stopped rest = rest refl

state_eq-same : (a b : RelationalState) → state_eq a b ≡ true → SameTables a b
unfolding state_eq
state_eq-same a b h =
    let (d, r, c, p) : (table_eq a.devices b.devices ≡ true)
        × (table_eq a.command_results b.command_results ≡ true)
        × (table_eq a.idempotency_claims b.idempotency_claims ≡ true)
        × (table_eq a.pending_commands b.pending_commands ≡ true) =
      ground arith in
    (
      table_eq-same a.devices b.devices d,
      table_eq-same a.command_results b.command_results r,
      table_eq-same a.idempotency_claims b.idempotency_claims c,
      table_eq-same a.pending_commands b.pending_commands p,
    )

same-state_eq :
    (a b : RelationalState) → SameTables a b → IsKeyed a → IsKeyed b → state_eq a b ≡ true
unfolding state_eq
same-state_eq a b (d, r, c, p) (da, ra, ca, pa) (db, rb, cb, pb) =
    rw
      (
        same-table_eq a.devices b.devices d da db,
        same-table_eq a.command_results b.command_results r ra rb,
        same-table_eq a.idempotency_claims b.idempotency_claims c ca cb,
        same-table_eq a.pending_commands b.pending_commands p pa pb,
      )
      refl

SameTables_sym : (a b : RelationalState) → SameTables a b → SameTables b a
SameTables_sym a b (d, r, c, p) = (λ k. sym (d k), λ k. sym (r k), λ k. sym (c k), λ k. sym (p k))

not_different :
    (a b : RelationalState) → IsKeyed a → IsKeyed b → SameTables a b → not (state_eq a b) ≡ true → ⊥
not_different a b keyed_a keyed_b same differs =
    let equal = same-state_eq a b same keyed_a keyed_b in ground arith

-- What a transaction loads at its start.
loaded_tables :
    (sql : Sqlite) (keeps : KeepsTables sql) (db started : sql.Database) (current : RelationalState)
    → sql.begin_immediate db ≡ ok started
    → sql.load_relational_state started ≡ ok current
    → IsKeyed current × SameTables current (keeps.tables db)
loaded_tables sql keeps db started current began found =
    rw (← keeps.begins db started began) (keeps.loads started current found)

follow_as :
    (current expected candidate : RelationalState)
    → SameTables current expected
    → ClaimsFollow expected candidate
    → ClaimsFollow current candidate
follow_as current expected candidate (d, r, c, p) follow scope claim present kept =
    r scope ∙ follow scope claim (sym (c scope) ∙ present) kept

-- What an answer of the swap tells, by the tables of the database that it was called with.
abbrev pub IsSwap :
    (sql : Sqlite)
    → KeepsTables sql
    → RelationalState
    → RelationalState
    → sql.Database
    → Result (SnapshotCompareAndSwapError sql.Failure) (SnapshotRowChanges × sql.Database)
    → Type 0
IsSwap sql keeps expected candidate db (ok (changes, kept)) =
    SameTables (keeps.tables db) expected
    × SameTables (keeps.tables kept) candidate
    × ((current : RelationalState) × SameTables current expected
        × CountsRows changes current candidate)
IsSwap sql keeps expected candidate db (err (store failure)) = Unit
IsSwap sql keeps expected candidate db (err stale_expected_state) =
    ¬ SameTables (keeps.tables db) expected
IsSwap sql keeps expected candidate db (err post_write_parity_mismatch) =
    ¬ ClaimsFollow expected candidate

-- Of the rows of two snapshots and a database that keeps its tables. When the swap succeeds, the tables
-- were the expected rows, are the candidate's, and each count is the number of rows that differ. The
-- expected state is called stale only when the tables differ from it. The check after the writes fails
-- only when the candidate keeps some claim as it is and changes or drops the result of its scope, whose
-- deletion takes the claim along.
pub swap_rows-IsSwap :
    (sql : Sqlite) (keeps : KeepsTables sql) (expected candidate : RelationalState)
    (db : sql.Database)
    → IsKeyed expected
    → IsKeyed candidate
    → IsSwap sql keeps expected candidate db (swap_rows sql expected candidate db)
unfolding swap_rows
swap_rows-IsSwap sql keeps expected candidate db keyed keyed_candidate =
    let P = IsSwap sql keeps expected candidate db in
    let fails : (failure : sql.Failure) → P (err (store failure)) = λ failure. tt in
    after_call (sql.begin_immediate db) _ P fails λ started began.
      after_call (sql.load_relational_state started) _ P fails λ current found.
        let (keyed_current, seen) = loaded_tables sql keeps db started current began found in
        after_guard (not (state_eq current expected)) stale_expected_state _ P
          (λ differs same.
            not_different current expected keyed_current keyed
              (SameTables_trans current (keeps.tables db) expected seen same) differs)
          λ equal.
            after_call (apply_row_changes sql current candidate started) _ P fails
              λ (changes, written) applied.
                after_call (sql.load_relational_state written) _ P fails λ loaded read.
                  let (counts, tables) =
                    apply_row_changes-ok sql keeps current candidate started changes written
                      keyed_current keyed_candidate
                      (rw (keeps.begins db started began)
                        (SameTables_sym current (keeps.tables db) seen))
                      applied in
                  let (keyed_loaded, reread) = keeps.loads written loaded read in
                  let as_expected = state_eq-same current expected (ground arith) in
                  after_guard (not (state_eq loaded candidate)) post_write_parity_mismatch _ P
                    (λ differs follow.
                      not_different loaded candidate keyed_loaded keyed_candidate
                        (SameTables_trans loaded (keeps.tables written) candidate reread
                          (tables (follow_as current expected candidate as_expected follow)))
                        differs)
                    λ parity.
                      after_call (sql.commit_transaction written) _ P fails λ kept committed. (
                        SameTables_trans (keeps.tables db) current expected
                            (SameTables_sym current (keeps.tables db) seen) as_expected,
                        rw (keeps.commits written kept committed) (
                            SameTables_trans (keeps.tables written) loaded candidate
                              (SameTables_sym loaded (keeps.tables written) reread)
                              (state_eq-same loaded candidate (ground arith))),
                        (current, as_expected, counts),
                      )
