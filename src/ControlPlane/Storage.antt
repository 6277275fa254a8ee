-- ===== src/ControlPlane/Storage.antt =====
-- crates/control-plane-sqlite/src/snapshot_compare_and_swap.rs: the rows of a snapshot are swapped for
-- those of a candidate, by the statements that their difference needs. SQLite is a parameter: what
-- executing a statement in a transaction makes of the database, and what the tables then hold.
pub mod Rows
pub mod Equality
pub mod Statements
pub mod Cascade
pub mod Swap
pub mod Outcome
mod Examples
use Prim.Native.Nat.{suc}
use mobile_proxy.Base.{
  ℕ, String, string_eq, nat_eq, Bool, true, false, not, Option, none, some, List, [], ◌∷◌, ◌++◌,
  map, length, ◌==◌, PartialEq, pair_eq, Map, lookup, contains_key, insert, remove, is_some_and,
  all, if◌then◌else◌, ◌&&◌, Result, ok, err, ◌>>=◌, ◌>>◌, fail_if, try_fold, ◌≡◌, ◌↔◌, arith,
}

pub record RelationalState : Type 0 where
  pub devices : Map String String
  pub command_results : Map String (String × String)
  pub idempotency_claims : Map String (String × String)
  pub pending_commands : Map String (String × (ℕ × String))

pub record SnapshotRowChanges : Type 0 where
  pub devices_upserted : ℕ
  pub devices_deleted : ℕ
  pub command_results_inserted : ℕ
  pub command_results_deleted : ℕ
  pub idempotency_claims_inserted : ℕ
  pub idempotency_claims_deleted : ℕ
  pub pending_commands_inserted : ℕ
  pub pending_commands_deleted : ℕ

-- The statements that the function prepares, with their parameters.
pub data Statement : Type 0 where
  delete_pending delete_claim delete_result delete_device : String → Statement
  upsert_device : String × String → Statement
  insert_result insert_claim : String × (String × String) → Statement
  insert_pending : String × (String × (ℕ × String)) → Statement

module _ {V : Type 0} ⦃e : PartialEq V⦄ where
  -- `table.get(key) == Some(value)`.
  abbrev pub has : Map String V → String → V → Bool
  has table key value = is_some_and (lookup key table) (λ other. other == value)

  -- The keys of rows that the candidate does not have as they are.
  unfoldable pub stale_keys : Map String V → Map String V → List String
  stale_keys candidate [] = []
  stale_keys candidate ((key, value) ∷ current) =
      let rest = stale_keys candidate current in
      if has candidate key value then rest else key ∷ rest

  -- The keys that the candidate does not have at all.
  unfoldable pub dropped_keys : Map String V → Map String V → List String
  dropped_keys candidate [] = []
  dropped_keys candidate ((key, value) ∷ current) =
      let rest = dropped_keys candidate current in
      if contains_key key candidate then rest else key ∷ rest

  -- The candidate's rows that are not there as they are.
  unfoldable pub changed_rows : Map String V → Map String V → Map String V
  changed_rows current [] = []
  changed_rows current ((key, value) ∷ candidate) =
      let rest = changed_rows current candidate in
      if has current key value then rest else (key, value) ∷ rest

  -- `==` of two ordered maps: each has the entries of the other.
  abbrev pub table_eq : Map String V → Map String V → Bool
  table_eq a b = all (λ (key, value). has b key value) a && all (λ (key, value). has a key value) b

-- `==` of two states.
unfoldable pub state_eq : RelationalState → RelationalState → Bool
state_eq a b =
    table_eq a.devices b.devices
    && table_eq a.command_results b.command_results
    && table_eq a.idempotency_claims b.idempotency_claims
    && table_eq a.pending_commands b.pending_commands

-- The calls of the database that the swap makes: a transaction is begun, changes the database as it
-- sees it, and is committed. A failure, and a transaction that is dropped, leave the database as it was.
pub record Sqlite : Type 1 where
  pub Database : Type 0
  pub Failure : Type 0
  pub begin_immediate : Database → Result Failure Database
  pub execute : Statement → Database → Result Failure Database
  pub load_relational_state : Database → Result Failure RelationalState
  pub commit_transaction : Database → Result Failure Database

pub data SnapshotCompareAndSwapError (F : Type 0) : Type 0 where
  store : F → SnapshotCompareAndSwapError F
  stale_expected_state post_write_parity_mismatch : SnapshotCompareAndSwapError F

-- `From` of a failure of the database.
abbrev pub or_store : {F A : Type 0} → Result F A → Result (SnapshotCompareAndSwapError F) A
or_store (ok a) = ok a
or_store (err failure) = err (store failure)

module _ (sql : Sqlite) where
  -- A loop that executes one statement per row and counts them.
  unfoldable pub execute_each :
      List Statement → sql.Database → Result sql.Failure (ℕ × sql.Database)
  execute_each [] db = ok (0, db)
  execute_each (statement ∷ statements) db = do
    next ← sql.execute statement db
    (count, last) ← execute_each statements next
    ok (suc count, last)

  unfoldable pub apply_row_changes :
      RelationalState
      → RelationalState
      → sql.Database
      → Result sql.Failure (SnapshotRowChanges × sql.Database)
  apply_row_changes current candidate db = do
    (pending_deleted, db1) ←
        execute_each
          (map delete_pending (stale_keys candidate.pending_commands current.pending_commands)) db
    (claims_deleted, db2) ←
        execute_each
          (map delete_claim (stale_keys candidate.idempotency_claims current.idempotency_claims))
          db1
    (results_deleted, db3) ←
        execute_each
          (map delete_result (stale_keys candidate.command_results current.command_results)) db2
    (deleted, db4) ←
        execute_each (map delete_device (dropped_keys candidate.devices current.devices)) db3
    (upserted, db5) ←
        execute_each (map upsert_device (changed_rows current.devices candidate.devices)) db4
    (results_inserted, db6) ←
        execute_each
          (map insert_result (changed_rows current.command_results candidate.command_results)) db5
    (claims_inserted, db7) ←
        execute_each
          (map insert_claim (changed_rows current.idempotency_claims candidate.idempotency_claims))
          db6
    (pending_inserted, db8) ←
        execute_each
          (map insert_pending (changed_rows current.pending_commands candidate.pending_commands))
          db7
    ok (
      record {
        devices_upserted = upserted;
        devices_deleted = deleted;
        command_results_inserted = results_inserted;
        command_results_deleted = results_deleted;
        idempotency_claims_inserted = claims_inserted;
        idempotency_claims_deleted = claims_deleted;
        pending_commands_inserted = pending_inserted;
        pending_commands_deleted = pending_deleted;
      },
      db8,
    )

  -- The rest of `compare_and_swap_snapshot`, of the rows of two valid snapshots.
  unfoldable pub swap_rows :
      RelationalState
      → RelationalState
      → sql.Database
      → Result (SnapshotCompareAndSwapError sql.Failure) (SnapshotRowChanges × sql.Database)
  swap_rows expected candidate db = do
    transaction ← or_store (sql.begin_immediate db)
    current ← or_store (sql.load_relational_state transaction)
    fail_if (not (state_eq current expected)) stale_expected_state
    (changes, written) ← or_store (apply_row_changes current candidate transaction)
    loaded ← or_store (sql.load_relational_state written)
    fail_if (not (state_eq loaded candidate)) post_write_parity_mismatch
    committed ← or_store (sql.commit_transaction written)
    ok (changes, committed)
