-- ===== src/ControlPlane/Normalize.antt =====
-- services/control-plane/src/state.rs: how the command state is brought to its canonical form before
-- a command is issued. A loop over a map runs over its entries in the order of the list.
pub mod Queues
pub mod Pending
use Prim.Native.Nat.{suc}
use Prim.Native.String.{◌++◌ as ◌++ₛ◌, compare}
use text.Mathlib.Text.{is_lt}
use mathlib.Core.Logic.{ite}
use mobile_proxy.Base.{
  ℕ, zero, ◌+◌, ◌*◌, String, string_eq, nat_eq, list_eq, Bool, true, false, not, ◌&&◌, ◌||◌, Option,
  none, some, List, [], ◌∷◌, ◌++◌, map, ◌==◌, ltb, leb, length, any, filter, Map, values, lookup,
  insert, remove, contains_key, remove_first, is_some_and, if◌then◌else◌, PartialEq, Result, ok,
  err, ◌>>=◌, ◌>>◌, fail_if, ok_or, try_fold,
}
use mobile_proxy.Foundation.Digests.{Blake3, digest_text}
use mobile_proxy.ProxyCore.Commands.{DeviceCommand, command_eq}
use mobile_proxy.ControlPlane.Application.{idempotency_scope_key, max_idempotency_results}
use mobile_proxy.ControlPlane.State.{CommandState}
use mobile_proxy.ControlPlane.Trimming.{
  canonical_scope, scope_text, legacy_scope, legacy_scope_for_command, queued_commands,
  pending_command_count, command_is_pending, agrees, evictable, remove_claim, evict_result, evict,
  evict_first, trim_loop, trim_idempotency_state,
}

pub record CommandStateMigration : Type 0 where
  pub recovered_results : ℕ
  pub canonicalized_keys : ℕ
  pub rebuilt_order : ℕ
  pub evicted_entries : ℕ

abbrev pub no_migration : CommandStateMigration
no_migration = record {
  recovered_results = 0;
  canonicalized_keys = 0;
  rebuilt_order = 0;
  evicted_entries = 0;
}

unfoldable pub has_changed : CommandStateMigration → Bool
has_changed m =
    ltb 0 m.recovered_results
    || ltb 0 m.canonicalized_keys
    || ltb 0 m.rebuilt_order
    || ltb 0 m.evicted_entries

-- The state in the loops, with the counters of what they did.
abbrev pub Migrating : Type 0
Migrating = CommandState × CommandStateMigration

abbrev recovered : CommandStateMigration → CommandStateMigration
recovered m = record m { recovered_results = m.recovered_results + 1 }

abbrev canonicalized : CommandStateMigration → CommandStateMigration
canonicalized m = record m { canonicalized_keys = m.canonicalized_keys + 1 }

-- A result that is stored under another scope than its own moves there.
unfoldable pub canonicalize_entry :
    Blake3 → String × DeviceCommand → Migrating → Result Unit Migrating
canonicalize_entry b (stored_key, command) (commands, migration) =
    let canonical = canonical_scope b command in
    let moved = remove stored_key commands.idempotency_results in
    if stored_key == canonical
    then ok (commands, migration)
    else fail_if (not (agrees (lookup canonical moved) command)) tt
      >> ok (
        record commands { idempotency_results = insert canonical command moved },
        canonicalized migration,
      )

abbrev pub claim_or_check :
    String → DeviceCommand → Migrating → Option DeviceCommand → Result Unit Migrating
claim_or_check canonical command (commands, migration) (some existing) =
    fail_if (not (existing == command)) tt >> ok (commands, migration)
claim_or_check canonical command (commands, migration) none = ok (
  record commands { idempotency_results = insert canonical command commands.idempotency_results },
  recovered migration,
)

abbrev pub claim_id_or_check : String → ℕ → Migrating → Option ℕ → Result Unit Migrating
claim_id_or_check legacy id (commands, migration) (some existing_id) =
    fail_if (not (existing_id == id)) tt >> ok (commands, migration)
claim_id_or_check legacy id (commands, migration) none =
    ok
      (record commands { idempotency = insert legacy id commands.idempotency }, recovered migration)

-- The legacy claim of a command.
unfoldable pub recover_legacy_claim : DeviceCommand → Migrating → Result Unit Migrating
recover_legacy_claim command (commands, migration) =
    let legacy = legacy_scope_for_command command in
    claim_id_or_check legacy command.command_id (commands, migration)
      (lookup legacy commands.idempotency)

-- A queued command gets its result and its claim back, or they are its own.
unfoldable pub recover_queued : Blake3 → DeviceCommand → Migrating → Result Unit Migrating
recover_queued b command (commands, migration) =
    let canonical = canonical_scope b command in
    claim_or_check canonical command (commands, migration)
      (lookup canonical commands.idempotency_results)
    >>= recover_legacy_claim command

-- A claim under a canonical scope, which is not the legacy one, goes.
abbrev pub drop_canonical_claim :
    String → DeviceCommand → Migrating → Option ℕ → Result Unit Migrating
drop_canonical_claim canonical command (commands, migration) none = ok (commands, migration)
drop_canonical_claim canonical command (commands, migration) (some existing_id) =
    fail_if (not (existing_id == command.command_id)) tt
    >> ok (
      record commands { idempotency = remove canonical commands.idempotency },
      canonicalized migration,
    )

unfoldable pub canonicalize_claim : String × DeviceCommand → Migrating → Result Unit Migrating
canonicalize_claim (canonical, command) (commands, migration) =
    if canonical == legacy_scope_for_command command
    then ok (commands, migration)
    else drop_canonical_claim canonical command (commands, migration)
        (lookup canonical commands.idempotency)

unfoldable pub recover_result : String × DeviceCommand → Migrating → Result Unit Migrating
recover_result (canonical, command) state =
    recover_legacy_claim command state >>= canonicalize_claim (canonical, command)

abbrev contains_text : List String → String → Bool
contains_text keys key = any (λ other. other == key) keys

-- The scopes that have a result, each once, in the order they had.
unfoldable pub keep_order : Map String DeviceCommand → List String → List String → List String
keep_order results kept [] = kept
keep_order results kept (key ∷ order) =
    keep_order results
      (if contains_key key results && not (contains_text kept key) then kept ++ key ∷ [] else kept)
      order

unfoldable pub insert_sorted : String → List String → List String
insert_sorted key [] = key ∷ []
insert_sorted key (other ∷ keys) =
    if is_lt (compare other key) then other ∷ insert_sorted key keys else key ∷ other ∷ keys

-- `sort` of texts.
unfoldable pub sort : List String → List String
sort [] = []
sort (key ∷ keys) = insert_sorted key (sort keys)

unfoldable pub keys {ℓ} : {K V : Type ℓ} → Map K V → List K
keys [] = []
keys ((k, _) ∷ entries) = k ∷ keys entries

unfoldable pub normalized_order : Map String DeviceCommand → List String → List String
normalized_order results order =
    let kept = keep_order results [] order in
    kept ++ sort (filter (λ key. not (contains_text kept key)) (keys results))

unfoldable pub rebuild_order : Migrating → Migrating
rebuild_order (commands, migration) =
    let order = normalized_order commands.idempotency_results commands.idempotency_order in
    (
      record commands { idempotency_order = order },
      record migration {
        rebuilt_order = if order == commands.idempotency_order then migration.rebuilt_order else 1;
      },
    )

-- The end of `normalize_command_state`: the state is trimmed, and its claims are bounded.
abbrev pub finished : CommandStateMigration → CommandState × ℕ → Result Unit Migrating
finished migration (trimmed, evicted) =
    fail_if (ltb (max_idempotency_results * 2) (length trimmed.idempotency)) tt
    >> ok (trimmed, record migration { evicted_entries = evicted })

unfoldable pub finish_normalization : Migrating → Result Unit Migrating
finish_normalization (commands, migration) = trim_idempotency_state commands >>= finished migration

unfoldable pub canonicalize_results : Blake3 → Migrating → Result Unit Migrating
canonicalize_results b state = try_fold (canonicalize_entry b) (state.0.idempotency_results) state

unfoldable pub recover_queues : Blake3 → Migrating → Result Unit Migrating
recover_queues b state = try_fold (recover_queued b) (queued_commands state.0.queues) state

unfoldable pub recover_results : Migrating → Result Unit Migrating
recover_results state = try_fold recover_result (state.0.idempotency_results) state

unfoldable pub normalize_command_state : Blake3 → CommandState → Result Unit Migrating
normalize_command_state b commands =
    canonicalize_results b (commands, no_migration)
    >>= recover_queues b
    >>= recover_results
    >>= λ state. finish_normalization (rebuild_order state)
