-- ===== src/ControlPlane/Trimming.antt =====
-- services/control-plane/src/state.rs: the scopes of commands, which commands are pending, and the
-- trimming of the scopes that are kept.
pub mod Evict
pub mod Bounds
use Prim.Native.Nat.{suc}
use Prim.Native.String.{◌++◌ as ◌++ₛ◌, compare}
use text.Mathlib.Text.{is_lt}
use mathlib.Core.Logic.{ite}
use mobile_proxy.Base.{
  ℕ, zero, ◌+◌, ◌*◌, String, string_eq, nat_eq, list_eq, Bool, true, false, not, ◌&&◌, ◌||◌, Option,
  none, some, List, [], ◌∷◌, ◌++◌, map, ◌==◌, ltb, leb, length, any, filter, Map, values, lookup,
  insert, remove, contains_key, remove_first, is_some_and, if◌then◌else◌, PartialEq, Result, ok,
  err, ◌>>=◌, ◌>>◌, fail_if, ok_or, try_fold,
}
use mobile_proxy.Foundation.Digests.{Blake3, digest_text}
use mobile_proxy.ProxyCore.Commands.{DeviceCommand, command_eq}
use mobile_proxy.ControlPlane.Application.{idempotency_scope_key, max_idempotency_results}
use mobile_proxy.ControlPlane.State.{CommandState}

-- `idempotency_scope_key(..).to_string()`.
abbrev pub scope_text : Blake3 → String → String → String
scope_text b device_id key = digest_text b (idempotency_scope_key b device_id key)

abbrev pub canonical_scope : Blake3 → DeviceCommand → String
canonical_scope b command = scope_text b command.device_id command.idempotency_key

unfoldable pub legacy_scope : String → String → String
legacy_scope device_id key = device_id ++ₛ (":" ++ₛ key)

abbrev pub legacy_scope_for_command : DeviceCommand → String
legacy_scope_for_command command = legacy_scope command.device_id command.idempotency_key

-- The queued commands of all devices, queue by queue.
unfoldable pub queued_commands : Map String (List DeviceCommand) → List DeviceCommand
queued_commands [] = []
queued_commands ((_, queue) ∷ queues) = queue ++ queued_commands queues

-- The sum of the queues' lengths.
unfoldable pub pending_command_count : Map String (List DeviceCommand) → ℕ
pending_command_count [] = 0
pending_command_count ((_, queue) ∷ queues) = length queue + pending_command_count queues

unfoldable pub command_is_pending : CommandState → ℕ → Bool
command_is_pending commands command_id =
    any (λ queue. any (λ command. command.command_id == command_id) queue) (values commands.queues)

-- The claim of an id that a scope has: the same id, or none yet.
abbrev pub agrees : {A : Type 0} ⦃e : PartialEq A⦄ → Option A → A → Bool
agrees none _ = true
agrees (some existing) a = existing == a

abbrev pub evictable : CommandState → String → Bool
evictable commands key = not (
    is_some_and (lookup key commands.idempotency_results)
      (λ command. command_is_pending commands command.command_id))

abbrev pub remove_claim : String → ℕ → Map String ℕ → Map String ℕ
remove_claim key id claims =
    if is_some_and (lookup key claims) (λ existing. existing == id)
    then remove key claims
    else claims

-- What goes with an evicted scope.
abbrev pub evict_result : CommandState → String → Option DeviceCommand → CommandState
evict_result commands key none = record commands { idempotency = remove key commands.idempotency }
evict_result commands key (some command) = record commands {
  idempotency_results = remove key commands.idempotency_results;
  idempotency =
      remove_claim key command.command_id
        (remove_claim (legacy_scope_for_command command) command.command_id commands.idempotency);
}

abbrev pub evict : CommandState → Option (String × List String) → Result Unit CommandState
evict commands none = err tt
evict commands (some (key, order)) = ok (
    evict_result (record commands { idempotency_order = order }) key
      (lookup key commands.idempotency_results))

unfoldable pub evict_first : CommandState → Result Unit CommandState
evict_first commands = evict commands (remove_first (evictable commands) commands.idempotency_order)

-- The loop of `trim_idempotency_state`, with the number of rounds it may still take and the number
-- of evicted entries.
unfoldable pub trim_loop : ℕ → ℕ → CommandState → Result Unit (CommandState × ℕ)
trim_loop zero evicted commands = ok (commands, evicted)
trim_loop (suc rounds) evicted commands =
    elim (leb (length commands.idempotency_order) max_idempotency_results) [
      | true ↦ ok (commands, evicted)
      | false ↦ evict_first commands >>= trim_loop rounds (evicted + 1)
    ]

unfoldable pub trim_idempotency_state : CommandState → Result Unit (CommandState × ℕ)
trim_idempotency_state commands = trim_loop (length commands.idempotency_order) 0 commands
