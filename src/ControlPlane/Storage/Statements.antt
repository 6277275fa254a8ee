-- ===== src/ControlPlane/Storage/Statements.antt =====
-- crates/control-plane-sqlite/src/snapshot_compare_and_swap.rs: what is relied on of the database, and
-- what a loop of statements makes of its tables.
use Prim.Native.Nat.{suc}
use mobile_proxy.Base.{
  ℕ, String, string_eq, nat_eq, pair_eq, is_some_and, if◌then◌else◌, Bool, Option, Bool-cases, inl,
  inr, ◌==◌, List, [], ◌∷◌, map, length, Map, lookup, insert, remove, lookup-insert, lookup-remove,
  Result, ok, bind_ok, ok-injective, ◌>>=◌, ◌≡◌, refl, sym, ◌∙◌, ap, subst,
}
use mobile_proxy.ControlPlane.Storage.{
  RelationalState, Statement, delete_pending, delete_claim, delete_result, delete_device,
  upsert_device, insert_result, insert_claim, insert_pending, Sqlite, execute_each,
}
use mobile_proxy.ControlPlane.Storage.Rows.{remove_all, insert_all, Within}

-- A claim that refers to a result, by its scope and command, goes with it (`ON DELETE CASCADE`).
abbrev pub refers : Option (String × String) → Option (String × String) → Bool
refers claim result =
    is_some_and claim
      (λ (claimed, _). is_some_and result (λ (command_id, _). command_id == claimed))

abbrev pub cascade :
    String
    → Map String (String × String)
    → Map String (String × String)
    → Map String (String × String)
cascade key results claims =
    if refers (lookup key claims) (lookup key results) then remove key claims else claims

-- What a statement makes of the tables, by the schema of crates/control-plane-sqlite/src/lib.rs.
unfoldable pub effect : Statement → RelationalState → RelationalState
effect (delete_pending key) rows = record rows {
  pending_commands = remove key rows.pending_commands;
}
effect (delete_claim key) rows = record rows {
  idempotency_claims = remove key rows.idempotency_claims;
}
effect (delete_result key) rows = record rows {
  command_results = remove key rows.command_results;
  idempotency_claims = cascade key rows.command_results rows.idempotency_claims;
}
effect (delete_device key) rows = record rows { devices = remove key rows.devices }
effect (upsert_device (key, value)) rows = record rows { devices = insert key value rows.devices }
effect (insert_result (key, value)) rows = record rows {
  command_results = insert key value rows.command_results;
}
effect (insert_claim (key, value)) rows = record rows {
  idempotency_claims = insert key value rows.idempotency_claims;
}
effect (insert_pending (key, value)) rows = record rows {
  pending_commands = insert key value rows.pending_commands;
}

unfoldable pub run_all : List Statement → RelationalState → RelationalState
run_all [] rows = rows
run_all (statement ∷ statements) rows = run_all statements (effect statement rows)

-- Two tables with the same row for every key.
abbrev pub SameTable : {V : Type 0} → Map String V → Map String V → Type 0
SameTable a b = (key : String) → lookup key a ≡ lookup key b

abbrev pub SameTables : RelationalState → RelationalState → Type 0
SameTables a b =
    SameTable a.devices b.devices
    × SameTable a.command_results b.command_results
    × SameTable a.idempotency_claims b.idempotency_claims
    × SameTable a.pending_commands b.pending_commands

-- Every key has one row.
abbrev pub IsKeyed : RelationalState → Type 0
IsKeyed rows =
    Within rows.devices rows.devices
    × Within rows.command_results rows.command_results
    × Within rows.idempotency_claims rows.idempotency_claims
    × Within rows.pending_commands rows.pending_commands

-- The database keeps tables: a transaction starts with them, a statement that succeeds changes them by
-- its keys, loading reads them, and a commit keeps what the transaction sees.
pub record KeepsTables (sql : Sqlite) : Type 1 where
  pub tables : sql.Database → RelationalState
  pub begins :
      (db started : sql.Database) → sql.begin_immediate db ≡ ok started → tables started ≡ tables db
  pub executes :
      (statement : Statement) (db changed : sql.Database)
      → sql.execute statement db ≡ ok changed
      → SameTables (tables changed) (effect statement (tables db))
  pub loads :
      (db : sql.Database) (rows : RelationalState)
      → sql.load_relational_state db ≡ ok rows
      → IsKeyed rows × SameTables rows (tables db)
  pub commits :
      (db kept : sql.Database) → sql.commit_transaction db ≡ ok kept → tables kept ≡ tables db

module _ {V : Type 0} where
  SameTable-remove :
      (key : String) (a b : Map String V) → SameTable a b → SameTable (remove key a) (remove key b)
  SameTable-remove key a b same k =
      lookup-remove key k a ∙ rw (same k) (sym (lookup-remove key k b))

  SameTable-insert :
      (key : String) (value : V) (a b : Map String V)
      → SameTable a b
      → SameTable (insert key value a) (insert key value b)
  SameTable-insert key value a b same k =
      lookup-insert key k value a ∙ rw (same k) (sym (lookup-insert key k value b))

SameTable-cascade :
    (key : String) (results results' claims claims' : Map String (String × String))
    → SameTable results results'
    → SameTable claims claims'
    → SameTable (cascade key results claims) (cascade key results' claims')
SameTable-cascade key results results' claims claims' r c =
    rw (r key, c key)
      (elim (Bool-cases (refers (lookup key claims') (lookup key results'))) [
        | inl goes ↦ rw goes (SameTable-remove key claims claims' c)
        | inr stays ↦ rw stays c
      ])

SameTables-effect :
    (statement : Statement) (a b : RelationalState)
    → SameTables a b
    → SameTables (effect statement a) (effect statement b)
unfolding effect
SameTables-effect (delete_pending key) a b (d, r, c, p) =
    (d, r, c, SameTable-remove key a.pending_commands b.pending_commands p)
SameTables-effect (delete_claim key) a b (d, r, c, p) =
    (d, r, SameTable-remove key a.idempotency_claims b.idempotency_claims c, p)
SameTables-effect (delete_result key) a b (d, r, c, p) = (
  d,
  SameTable-remove key a.command_results b.command_results r,
  SameTable-cascade key a.command_results b.command_results a.idempotency_claims
      b.idempotency_claims r c,
  p,
)
SameTables-effect (delete_device key) a b (d, r, c, p) =
    (SameTable-remove key a.devices b.devices d, r, c, p)
SameTables-effect (upsert_device (key, value)) a b (d, r, c, p) =
    (SameTable-insert key value a.devices b.devices d, r, c, p)
SameTables-effect (insert_result (key, value)) a b (d, r, c, p) =
    (d, SameTable-insert key value a.command_results b.command_results r, c, p)
SameTables-effect (insert_claim (key, value)) a b (d, r, c, p) =
    (d, r, SameTable-insert key value a.idempotency_claims b.idempotency_claims c, p)
SameTables-effect (insert_pending (key, value)) a b (d, r, c, p) =
    (d, r, c, SameTable-insert key value a.pending_commands b.pending_commands p)

SameTables-run_all :
    (statements : List Statement) (a b : RelationalState)
    → SameTables a b
    → SameTables (run_all statements a) (run_all statements b)
unfolding run_all
SameTables-run_all [] a b same = same
SameTables-run_all (statement ∷ statements) a b same =
    SameTables-run_all statements (effect statement a) (effect statement b)
      (SameTables-effect statement a b same)

pub SameTables_trans : (a b c : RelationalState) → SameTables a b → SameTables b c → SameTables a c
SameTables_trans a b c (d, r, l, p) (d2, r2, l2, p2) =
    (λ k. d k ∙ d2 k, λ k. r k ∙ r2 k, λ k. l k ∙ l2 k, λ k. p k ∙ p2 k)

-- What a loop has made of the tables, and how many statements it counted.
pub execute_each-ok :
    (sql : Sqlite) (keeps : KeepsTables sql) (statements : List Statement) (db : sql.Database)
    (count : ℕ) (last : sql.Database)
    → execute_each sql statements db ≡ ok (count, last)
    → (count ≡ length statements)
      × SameTables (keeps.tables last) (run_all statements (keeps.tables db))
unfolding execute_each run_all
execute_each-ok sql keeps [] db count last h =
    let same : ◌≡◌ {A = ℕ × sql.Database} (0, db) (count, last) = ok-injective h in
    let zero_count : count ≡ 0 = cc in
    let still : db ≡ last = cc in
    (zero_count, rw still (λ k. refl, λ k. refl, λ k. refl, λ k. refl))
execute_each-ok sql keeps (statement ∷ statements) db count last h =
    let (next, first, others) = bind_ok (sql.execute statement db) _ (count, last) h in
    let ((n, end), loop, finish) =
      bind_ok (execute_each sql statements next) _ (count, last) others in
    let same : ◌≡◌ {A = ℕ × sql.Database} (suc n, end) (count, last) = ok-injective finish in
    let counted : count ≡ suc n = cc in
    let ended : end ≡ last = cc in
    let (n_length, tables) = execute_each-ok sql keeps statements next n end loop in
    (
      counted ∙ ap suc n_length,
      SameTables_trans (keeps.tables last) (run_all statements (keeps.tables next))
          (run_all statements (effect statement (keeps.tables db)))
          (subst (λ x. SameTables (keeps.tables x) (run_all statements (keeps.tables next))) ended
            tables)
          (SameTables-run_all statements (keeps.tables next) (effect statement (keeps.tables db))
            (keeps.executes statement db next first)),
    )

-- A chain that succeeds with a loop and a rest has gone through the loop, which made this of the tables.
pub after_loop :
    (sql : Sqlite) (keeps : KeepsTables sql) (rows : RelationalState) (db : sql.Database)
    (statements : List Statement) {B : Type 0} (k : ℕ × sql.Database → Result sql.Failure B) (b : B)
    (Goal : Type 0)
    → SameTables (keeps.tables db) rows
    → (execute_each sql statements db >>= k) ≡ ok b
    → ((count : ℕ) (last : sql.Database)
        → count ≡ length statements
        → SameTables (keeps.tables last) (run_all statements rows)
        → k (count, last) ≡ ok b
        → Goal)
    → Goal
after_loop sql keeps rows db statements k b Goal same h next =
    let ((count, last), loop, rest) = bind_ok (execute_each sql statements db) k b h in
    let (counted, tables) = execute_each-ok sql keeps statements db count last loop in
    next count last counted
      (SameTables_trans (keeps.tables last) (run_all statements (keeps.tables db))
        (run_all statements rows) tables
        (SameTables-run_all statements (keeps.tables db) rows same))
      rest

-- A loop over the keys or rows of one table changes that table.
module _ {V : Type 0} (put : Map String V → RelationalState) where
  pub run_all-deletes :
      (make : String → Statement)
      → ((key : String) (m : Map String V) → effect (make key) (put m) ≡ put (remove key m))
      → (keys : List String) (m : Map String V)
      → run_all (map make keys) (put m) ≡ put (remove_all keys m)
  unfolding run_all remove_all
  run_all-deletes make one [] m = refl
  run_all-deletes make one (key ∷ keys) m =
      ap (run_all (map make keys)) (one key m) ∙ run_all-deletes make one keys (remove key m)

  pub run_all-inserts :
      (make : String × V → Statement)
      → ((key : String) (value : V) (m : Map String V)
          → effect (make (key, value)) (put m) ≡ put (insert key value m))
      → (rows m : Map String V) → run_all (map make rows) (put m) ≡ put (insert_all rows m)
  unfolding run_all insert_all
  run_all-inserts make one [] m = refl
  run_all-inserts make one ((key, value) ∷ rows) m =
      ap (run_all (map make rows)) (one key value m)
      ∙ run_all-inserts make one rows (insert key value m)
