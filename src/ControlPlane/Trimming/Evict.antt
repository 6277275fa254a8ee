-- ===== src/ControlPlane/Trimming/Evict.antt =====
-- services/control-plane/src/state.rs: what one eviction does.
use mobile_proxy.Base.{
  ℕ, suc, String, string_eq, nat_eq, Bool, true, false, none, some, List, ◌≡◌, refl, sym, ap, arith,
  length, Bool-cases, ◌∙◌, not, Option-cases, inl, inr, ok, ok-injective, remove_first,
  length-remove_first, remove_first-split, remove, lookup, is_some_and, lookup-remove, ◌==◌,
  if◌then◌else◌, ==→eq, any, values,
}
use mobile_proxy.ProxyCore.Commands.{DeviceCommand}
use mobile_proxy.ControlPlane.State.{CommandState}
use mobile_proxy.ControlPlane.Trimming.{evict_first, evict, evictable, command_is_pending}

-- A round of the loop that succeeds.
pub evict_first-takes :
    (commands commands' : CommandState)
    → evict_first commands ≡ ok commands'
    → (key : String) × (order : List String) × (remove_first
          (evictable commands)
          commands.idempotency_order
        ≡ some (key, order))
      × (evict commands (some (key, order)) ≡ ok commands')
unfolding evict_first
evict_first-takes commands commands' h =
    elim (Option-cases (remove_first (evictable commands) commands.idempotency_order)) [
      | inl nothing ↦
          let failed : evict commands none ≡ ok commands' = rw nothing at h in ground arith
      | inr ((key, order), found) ↦ (key, order, found, rw found at h)
    ]

pub evict-order :
    (commands commands' : CommandState) (key : String) (order : List String)
    → evict commands (some (key, order)) ≡ ok commands'
    → commands'.idempotency_order ≡ order
evict-order commands commands' key order h = ground arith

pub evict_first-length :
    (commands commands' : CommandState)
    → evict_first commands ≡ ok commands'
    → length commands.idempotency_order ≡ suc (length commands'.idempotency_order)
evict_first-length commands commands' h =
    let (key, order, found, rest) = evict_first-takes commands commands' h in
    rw (evict-order commands commands' key order rest)
      (length-remove_first (evictable commands) commands.idempotency_order key order found)

pub evict_first-queues :
    (commands commands' : CommandState)
    → evict_first commands ≡ ok commands'
    → commands'.queues ≡ commands.queues
unfolding evict_first
evict_first-queues commands commands' h = ground arith

-- An eviction takes the result of its scope, and no other.
evict-results :
    (commands commands' : CommandState) (gone key : String) (order : List String)
    → evict commands (some (gone, order)) ≡ ok commands'
    → lookup key commands'.idempotency_results
      ≡ (if gone == key then none else lookup key commands.idempotency_results)
evict-results commands commands' gone key order h =
    elim (Option-cases (lookup gone commands.idempotency_results)) [
      | inl absent ↦
          let same : commands'.idempotency_results ≡ commands.idempotency_results =
            ap (λ c. c.idempotency_results) (sym (ok-injective (rw absent at h))) in
          elim (Bool-cases (gone == key)) [
            | inl hit ↦ rw (same, hit, ← (==→eq gone key hit)) absent
            | inr miss ↦ rw (same, miss) refl
          ]
      | inr (command, present) ↦
          let same : commands'.idempotency_results ≡ remove gone commands.idempotency_results =
            ap (λ c. c.idempotency_results) (sym (ok-injective (rw present at h))) in
          rw same (lookup-remove gone key commands.idempotency_results)
    ]

pub evict_first-result :
    (commands commands' : CommandState) (key : String) (command : DeviceCommand)
    → evict_first commands ≡ ok commands'
    → lookup key commands.idempotency_results ≡ some command
    → command_is_pending commands command.command_id ≡ true
    → lookup key commands'.idempotency_results ≡ some command
evict_first-result commands commands' key command h found pending =
    let (gone, order, taken, rest) = evict_first-takes commands commands' h in
    let (_, _, _, _, may_go, _) =
      remove_first-split (evictable commands) commands.idempotency_order gone order taken in
    elim (Bool-cases (gone == key)) [
      | inl hit ↦
          let stays : evictable commands key ≡ false = rw (found, pending) refl in
          absurd (ground (arith, may_go, stays, ==→eq gone key hit))
      | inr miss ↦ rw (evict-results commands commands' gone key order rest, miss) found
    ]

pub is_pending-queues :
    (commands commands' : CommandState) (id : ℕ)
    → commands'.queues ≡ commands.queues
    → command_is_pending commands' id ≡ command_is_pending commands id
unfolding command_is_pending
is_pending-queues commands commands' id same =
    ap (λ queues. any (λ queue. any (λ command. command.command_id == id) queue) (values queues))
      same

pub evictable_mono :
    (commands commands' : CommandState) (key : String)
    → evict_first commands ≡ ok commands'
    → evictable commands key ≡ true
    → evictable commands' key ≡ true
evictable_mono commands commands' key h may_go =
    let (gone, order, taken, rest) = evict_first-takes commands commands' h in
    let queues = evict_first-queues commands commands' h in
    let test : CommandState → DeviceCommand → Bool =
      λ c command. command_is_pending c command.command_id in
    let same_test : not (is_some_and (lookup key commands.idempotency_results) (test commands'))
        ≡ not (is_some_and (lookup key commands.idempotency_results) (test commands)) =
      λ i. not (
        is_some_and (lookup key commands.idempotency_results)
          (λ command. is_pending-queues commands commands' command.command_id queues i)) in
    elim (Bool-cases (gone == key)) [
      | inl hit ↦ rw (evict-results commands commands' gone key order rest, hit) refl
      | inr miss ↦
          rw (evict-results commands commands' gone key order rest, miss) (same_test ∙ may_go)
    ]
