-- ===== src/ControlPlane/Storage/Examples.antt =====
-- A concrete database for the swap, whose transactions are its tables, and two runs of it.
use mobile_proxy.Base.{
  String, string_eq, nat_eq, pair_eq, true, not, fail_if, ◌>>◌, guard_ok, arith, all, any, lookup,
  insert, remove, [], ◌∷◌, ok, err, ok-injective, ◌≡◌, refl, sym,
}
use mobile_proxy.ControlPlane.Storage.{
  RelationalState, SnapshotRowChanges, Sqlite, swap_rows, execute_each, apply_row_changes, state_eq,
  stale_keys, dropped_keys, changed_rows, stale_expected_state, post_write_parity_mismatch,
}
use mobile_proxy.ControlPlane.Storage.Equality.{all-Within}
use mobile_proxy.ControlPlane.Storage.Statements.{effect, SameTables, IsKeyed, KeepsTables}
use mobile_proxy.ControlPlane.Storage.Outcome.{IsSwap, swap_rows-IsSwap}

-- A database is its tables, which cannot be loaded when two rows have a key.
abbrev in_memory : Sqlite
in_memory = record {
  Database = RelationalState;
  Failure = String;
  begin_immediate = ok;
  execute = λ statement db. ok (effect statement db);
  load_relational_state = λ db. fail_if (not (state_eq db db)) "two rows with a key" >> ok db;
  commit_transaction = ok;
}

keyed : (rows : RelationalState) → state_eq rows rows ≡ true → IsKeyed rows
unfolding state_eq
keyed rows h = (
  all-Within rows.devices rows.devices (ground arith),
  all-Within rows.command_results rows.command_results (ground arith),
  all-Within rows.idempotency_claims rows.idempotency_claims (ground arith),
  all-Within rows.pending_commands rows.pending_commands (ground arith),
)

abbrev same_rows : (rows : RelationalState) → SameTables rows rows
same_rows rows = (λ k. refl, λ k. refl, λ k. refl, λ k. refl)

in_memory_loads :
    (db rows : RelationalState)
    → in_memory.load_relational_state db ≡ ok rows
    → IsKeyed rows × SameTables rows db
in_memory_loads db rows h =
    let (passes, loaded) = guard_ok (not (state_eq db db)) "two rows with a key" (ok db) rows h in
    rw (← ok-injective loaded) (keyed db (ground arith), same_rows db)

abbrev in_memory_keeps : KeepsTables in_memory
in_memory_keeps = record {
  tables = λ db. db;
  begins = λ db started h. sym (ok-injective h);
  executes = λ statement db changed h. rw (ok-injective h) (same_rows changed);
  loads = in_memory_loads;
  commits = λ db kept h. sym (ok-injective h);
}

abbrev before : RelationalState
before = record {
  devices = ("a", "online") ∷ ("b", "online") ∷ [];
  command_results = [];
  idempotency_claims = [];
  pending_commands = ("c1", ("a", (0, "rotate"))) ∷ ("c2", ("a", (1, "stop"))) ∷ [];
}

abbrev after : RelationalState
after = record {
  devices = ("a", "offline") ∷ [];
  command_results = ("s1", ("c1", "done")) ∷ [];
  idempotency_claims = ("s1", ("c1", "f1")) ∷ [];
  pending_commands = ("c2", ("a", (0, "stop"))) ∷ [];
}

abbrev no_changes : SnapshotRowChanges
no_changes = record {
  devices_upserted = 0;
  devices_deleted = 0;
  command_results_inserted = 0;
  command_results_deleted = 0;
  idempotency_claims_inserted = 0;
  idempotency_claims_deleted = 0;
  pending_commands_inserted = 0;
  pending_commands_deleted = 0;
}

-- A swap writes what differs and counts it, and refuses an expectation that is not met.
swaps :
    swap_rows in_memory before after before
    ≡ ok (
      record {
        devices_upserted = 1;
        devices_deleted = 1;
        command_results_inserted = 1;
        command_results_deleted = 0;
        idempotency_claims_inserted = 1;
        idempotency_claims_deleted = 0;
        pending_commands_inserted = 1;
        pending_commands_deleted = 2;
      },
      after,
    )
unfolding swap_rows apply_row_changes execute_each state_eq stale_keys dropped_keys changed_rows
    effect all any lookup insert remove
swaps = refl

keeps_equal : swap_rows in_memory after after after ≡ ok (no_changes, after)
unfolding swap_rows apply_row_changes execute_each state_eq stale_keys dropped_keys changed_rows
    effect all any lookup insert remove
keeps_equal = refl

refuses : swap_rows in_memory after before before ≡ err stale_expected_state
unfolding swap_rows apply_row_changes execute_each state_eq stale_keys dropped_keys changed_rows
    effect all any lookup insert remove
refuses = refl

-- A candidate that changes a result and keeps its claim is refused.
abbrev redone : RelationalState
redone = record after { command_results = ("s1", ("c1", "redone")) ∷ [] }

refuses_kept_claim : swap_rows in_memory after redone after ≡ err post_write_parity_mismatch
unfolding swap_rows apply_row_changes execute_each state_eq stale_keys dropped_keys changed_rows
    effect all any lookup insert remove
refuses_kept_claim = refl

before_equal : state_eq before before ≡ true
unfolding state_eq all lookup
before_equal = refl

after_equal : state_eq after after ≡ true
unfolding state_eq all lookup
after_equal = refl

swap_rows-IsSwap_example :
    IsSwap in_memory in_memory_keeps before after before (swap_rows in_memory before after before)
swap_rows-IsSwap_example =
    swap_rows-IsSwap in_memory in_memory_keeps before after before (keyed before before_equal)
      (keyed after after_equal)
