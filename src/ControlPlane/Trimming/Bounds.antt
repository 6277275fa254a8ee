-- ===== src/ControlPlane/Trimming/Bounds.antt =====
-- services/control-plane/src/state.rs: the loop of `trim_idempotency_state`.
use mobile_proxy.Base.{
  ℕ, zero, suc, ◌+◌, ◌≤◌, ◌<◌, String, string_eq, nat_eq, Bool, true, false, some, ◌≡◌, refl, ap,
  subst, arith, leb, length, Bool-cases, ◌∙◌, not, filter, filter-implies-le,
  filter-remove_first-le, remove_first-none, Option-cases, ◌⊎◌, inl, inr, ok, ◌>>=◌, bind_ok,
  ok-injective, remove_first, lookup,
}
use mobile_proxy.ProxyCore.Commands.{DeviceCommand}
use mobile_proxy.ControlPlane.Application.{max_idempotency_results}
use mobile_proxy.ControlPlane.State.{CommandState}
use mobile_proxy.ControlPlane.Trimming.{
  trim_loop, trim_idempotency_state, evict_first, evictable, evict_result, command_is_pending,
}
use mobile_proxy.ControlPlane.Trimming.Evict.{
  evict_first-takes, evict-order, evict_first-length, evict_first-queues, evict_first-result,
  is_pending-queues, evictable_mono,
}

-- One round: the loop is at its end, or evicts and goes on.
Round : ℕ → ℕ → CommandState → CommandState × ℕ → Bool → Type 0
Round rounds evicted commands t small =
    ((small ≡ true) × ((commands, evicted) ≡ t))
    ⊎ ((next : CommandState) × (evict_first commands ≡ ok next)
        × (trim_loop rounds (evicted + 1) next ≡ ok t))

Round-of :
    (rounds evicted : ℕ) (commands : CommandState) (t : CommandState × ℕ) (small : Bool)
    → (elim small [
      | true ↦ ok (commands, evicted)
      | false ↦ evict_first commands >>= trim_loop rounds (evicted + 1)
    ])
      ≡ ok t
    → Round rounds evicted commands t small
unfolding Round
Round-of rounds evicted commands t true h = inl (refl, ok-injective h)
Round-of rounds evicted commands t false h =
    inr (bind_ok (evict_first commands) (trim_loop rounds (evicted + 1)) t h)

trim_loop-Round :
    (rounds evicted : ℕ) (commands : CommandState) (t : CommandState × ℕ)
    → trim_loop (suc rounds) evicted commands ≡ ok t
    → Round rounds evicted commands t
        (leb (length commands.idempotency_order) max_idempotency_results)
unfolding trim_loop
trim_loop-Round rounds evicted commands t h =
    Round-of rounds evicted commands t
      (leb (length commands.idempotency_order) max_idempotency_results) h

-- What every eviction keeps, the trimming keeps.
pub trim_loop-keeps :
    (P : CommandState → Type 0)
    → ((commands commands' : CommandState)
        → evict_first commands ≡ ok commands'
        → P commands
        → P commands')
    → (rounds evicted : ℕ) (commands : CommandState) (t : CommandState × ℕ)
    → trim_loop rounds evicted commands ≡ ok t
    → P commands
    → P t.0
unfolding trim_loop Round
trim_loop-keeps P step zero evicted commands t h p = subst (λ x. P x.0) (ok-injective h) p
trim_loop-keeps P step (suc rounds) evicted commands t h p =
    elim (trim_loop-Round rounds evicted commands t h) [
      | inl (_, same) ↦ subst (λ x. P x.0) same p
      | inr (next, first, rest) ↦
          trim_loop-keeps P step rounds (evicted + 1) next t rest (step commands next first p)
    ]

-- With as many rounds as there are scopes above the limit, the loop ends at the limit.
trim_loop-ends :
    (rounds evicted : ℕ) (commands : CommandState) (t : CommandState × ℕ)
    → trim_loop rounds evicted commands ≡ ok t
    → length commands.idempotency_order ≤ rounds + max_idempotency_results
    → (length t.0.idempotency_order ≤ max_idempotency_results)
      × (t.1 + length t.0.idempotency_order ≡ evicted + length commands.idempotency_order)
unfolding trim_loop Round
trim_loop-ends zero evicted commands t h enough =
    subst
      (λ x.
        (length x.0.idempotency_order ≤ max_idempotency_results)
        × (x.1 + length x.0.idempotency_order ≡ evicted + length commands.idempotency_order))
      (ok-injective h) (enough, refl)
trim_loop-ends (suc rounds) evicted commands t h enough =
    elim (trim_loop-Round rounds evicted commands t h) [
      | inl (small, same) ↦
          subst
            (λ x.
              (length x.0.idempotency_order ≤ max_idempotency_results)
              × (x.1 + length x.0.idempotency_order ≡ evicted + length commands.idempotency_order))
            same (ground arith, refl)
      | inr (next, first, rest) ↦
          let shorter = evict_first-length commands next first in
          let (small, count) = trim_loop-ends rounds (evicted + 1) next t rest (omega arith) in
          (small, omega arith)
    ]

-- How many scopes cannot be evicted.
unfoldable pub held : CommandState → ℕ
held commands = length (filter (λ key. not (evictable commands key)) commands.idempotency_order)

evict_first-held :
    (commands commands' : CommandState)
    → evict_first commands ≡ ok commands'
    → held commands' ≤ held commands
unfolding held
evict_first-held commands commands' h =
    let (gone, order, taken, rest) = evict_first-takes commands commands' h in
    let fewer =
      filter-implies-le (λ key. not (evictable commands key)) (λ key. not (evictable commands' key))
        (λ key. ground (arith, evictable_mono commands commands' key h))
        commands'.idempotency_order in
    let shorter =
      filter-remove_first-le (evictable commands) (λ key. not (evictable commands key))
        commands.idempotency_order gone order taken in
    let same : length (filter (λ key. not (evictable commands key)) commands'.idempotency_order)
        ≡ length (filter (λ key. not (evictable commands key)) order) =
      ap (λ o. length (filter (λ key. not (evictable commands key)) o))
        (evict-order commands commands' gone order rest) in
    omega arith

-- Above the limit, with at most as many scopes held, an eviction succeeds.
evict_first-ok :
    (commands : CommandState)
    → held commands ≤ max_idempotency_results
    → max_idempotency_results < length commands.idempotency_order
    → (commands' : CommandState) × (evict_first commands ≡ ok commands')
unfolding held evict_first
evict_first-ok commands few many =
    elim (Option-cases (remove_first (evictable commands) commands.idempotency_order)) [
      | inl nothing ↦
          let all_held =
            remove_first-none (evictable commands) (evictable commands) commands.idempotency_order
              nothing in
          absurd (omega arith)
      | inr ((key, order), found) ↦ (
        evict_result (record commands { idempotency_order = order }) key
            (lookup key commands.idempotency_results),
        rw found refl,
      )
    ]

trim_loop-ok :
    (rounds evicted : ℕ) (commands : CommandState)
    → held commands ≤ max_idempotency_results
    → (t : CommandState × ℕ) × (trim_loop rounds evicted commands ≡ ok t)
unfolding trim_loop
trim_loop-ok zero evicted commands few = (_, refl)
trim_loop-ok (suc rounds) evicted commands few =
    elim (Bool-cases (leb (length commands.idempotency_order) max_idempotency_results)) [
      | inl small ↦ ((commands, evicted), rw (small, trim_loop) refl)
      | inr large ↦
          let (next, first) = evict_first-ok commands few (ground arith) in
          let fewer = evict_first-held commands next first in
          let (t, rest) = trim_loop-ok rounds (evicted + 1) next (omega arith) in
          (t, rw (large, first, trim_loop) rest)
    ]

-- The trimming succeeds whenever at most 1000 of the scopes in the order belong to pending
-- commands. Where it succeeds, at most 1000 scopes are left and the count of the evicted ones is
-- right, the queues are as they were, and every pending command that has its result under a scope
-- still has it there.
pub trim_idempotency_state-ok :
    (commands : CommandState)
    → (held commands ≤ max_idempotency_results
        → (t : CommandState × ℕ) × (trim_idempotency_state commands ≡ ok t))
      × ((trimmed : CommandState) (evicted : ℕ)
          → trim_idempotency_state commands ≡ ok (trimmed, evicted)
          → (length trimmed.idempotency_order ≤ max_idempotency_results)
            × (evicted + length trimmed.idempotency_order ≡ length commands.idempotency_order)
            × (trimmed.queues ≡ commands.queues)
            × ((key : String) (command : DeviceCommand)
                → lookup key commands.idempotency_results ≡ some command
                → command_is_pending commands command.command_id ≡ true
                → lookup key trimmed.idempotency_results ≡ some command))
unfolding trim_idempotency_state
trim_idempotency_state-ok commands =
    let rounds = length commands.idempotency_order in
    (
      trim_loop-ok rounds 0 commands,
      λ trimmed evicted h.
          let (small, count) =
            trim_loop-ends rounds 0 commands (trimmed, evicted) h (omega arith) in
          (
            small,
            omega arith,
            trim_loop-keeps (λ c. c.queues ≡ commands.queues)
                (λ c c' first same. evict_first-queues c c' first ∙ same) rounds 0 commands
                (trimmed, evicted) h refl,
            λ key command found pending.
                (trim_loop-keeps
                  (λ c.
                    (lookup key c.idempotency_results ≡ some command)
                    × (command_is_pending c command.command_id ≡ true))
                  (λ c c' first (has, waits). (
                    evict_first-result c c' key command first has waits,
                    is_pending-queues c c' command.command_id (evict_first-queues c c' first)
                        ∙ waits,
                  ))
                  rounds 0 commands (trimmed, evicted) h (found, pending)).0,
          ),
    )
