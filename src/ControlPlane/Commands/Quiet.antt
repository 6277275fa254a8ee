-- ===== src/ControlPlane/Commands/Quiet.antt =====
-- services/control-plane/src/state.rs: what `issue_command` leaves as it is when it makes no command.
use mobile_proxy.Base.{
  ℕ, String, string_eq, nat_eq, ◌≡◌, ◌≢◌, refl, subst, sym, arith, lookup, contains_key, ◌||◌, ◌⊎◌,
  Result, ok, err, Bool-cases, Option-cases, Result-cases, inl, inr,
}
use mobile_proxy.Foundation.Digests.{Blake3}
use mobile_proxy.ProxyCore.Commands.{DeviceCommand}
use mobile_proxy.ControlPlane.Application.{
  classify_existing, IssueCommandInput, IssueCommandOutcome, IssueCommandError,
}
use mobile_proxy.ControlPlane.State.{AppState, CommandState, Store}
use mobile_proxy.ControlPlane.Trimming.{scope_text, legacy_scope, trim_idempotency_state}
use mobile_proxy.ControlPlane.Normalize.{
  CommandStateMigration, has_changed, normalize_command_state,
}
use mobile_proxy.ControlPlane.Commands.{
  Fresh, Issued, issue_command, enqueue, new_command, update_device, note_issued, rotation_blocked,
  queue_full, issue_new, issue_trimmed, answer_existing,
}

-- What an outcome means for the queues.
pub data QueueEvent : Type 0 where
  enqueued : DeviceCommand → QueueEvent
  acknowledged : String → ℕ → QueueEvent
  idle : QueueEvent

abbrev pub issue_event : Result IssueCommandError IssueCommandOutcome → QueueEvent
issue_event (ok (IssueCommandOutcome.created command)) = enqueued command
issue_event _ = idle

-- What an issue leaves behind: the state as it was, or normalised; or it has made a command.
unfoldable pub Quiet : Blake3 → AppState → Issued → Type 0
Quiet b state issued =
    ((issued.0 ≡ state)
      ⊎ ((normal : CommandState) × (migration : CommandStateMigration) × (normalize_command_state b
              state.commands
            ≡ ok (normal, migration))
          × (issued.0 ≡ record state { commands = normal })))
    ⊎ ((command : DeviceCommand) × (issued.1 ≡ ok (IssueCommandOutcome.created command)))

answer_existing-Quiet :
    (b : Blake3) (store : Store) (state : AppState) (normal : CommandState)
    (migration : CommandStateMigration) (r : Result IssueCommandError DeviceCommand)
    → normalize_command_state b state.commands ≡ ok (normal, migration)
    → Quiet b state (answer_existing store state (normal, migration) r)
unfolding Quiet
answer_existing-Quiet b store state normal migration (err e) h = inl (inl refl)
answer_existing-Quiet b store state normal migration (ok original) h =
    elim (Bool-cases (has_changed migration)) [
      | inr same ↦ rw same (inl (inl refl))
      | inl changed ↦ elim (Bool-cases (store state (record state { commands = normal }))) [
        | inl swapped ↦ rw (changed, swapped) (inl (inr (normal, migration, h, refl)))
        | inr stale ↦ rw (changed, stale) (inl (inl refl))
      ]
    ]

issue_trimmed-Quiet :
    (b : Blake3) (store : Store) (state : AppState) (new : DeviceCommand)
    (r : Result Unit (CommandState × ℕ))
    → Quiet b state (issue_trimmed store state new r)
unfolding Quiet
issue_trimmed-Quiet b store state new (err e) = inl (inl refl)
issue_trimmed-Quiet b store state new (ok (trimmed, evicted)) =
    elim (Bool-cases (
      store state (record {
        devices = update_device new.device_id (note_issued new) state.devices;
        commands = trimmed;
      }))) [ inl swapped ↦ inr (new, rw swapped refl) | inr stale ↦ rw stale (inl (inl refl)) ]

issue_new-Quiet :
    (b : Blake3) (store : Store) (state : AppState) (input : IssueCommandInput) (fresh : Fresh)
    (normal : CommandState)
    → Quiet b state (issue_new b store state input fresh normal)
unfolding Quiet
issue_new-Quiet b store state input fresh normal =
    let scope = scope_text b input.device_id input.request.idempotency_key in
    let legacy = legacy_scope input.device_id input.request.idempotency_key in
    let last =
      issue_trimmed-Quiet b store state (new_command input fresh)
        (trim_idempotency_state (enqueue scope legacy normal (new_command input fresh))) in
    elim (Bool-cases
      (contains_key scope normal.idempotency || contains_key legacy normal.idempotency)) [
        | inl claimed ↦ inl (inl (rw claimed refl))
        | inr unclaimed ↦ elim (Bool-cases (rotation_blocked state normal input)) [
          | inl blocked ↦ inl (inl (rw (unclaimed, blocked) refl))
          | inr may_rotate ↦ elim (Bool-cases (queue_full normal input.device_id)) [
            | inl full ↦ inl (inl (rw (unclaimed, may_rotate, full) refl))
            | inr has_room ↦ rw (unclaimed, may_rotate, has_room) last
          ]
        ]
      ]

issue_err-Quiet :
    (b : Blake3) (state : AppState) (e : IssueCommandError) → Quiet b state (state, err e)
unfolding Quiet
issue_err-Quiet b state e = inl (inl refl)

pub issue_command-Quiet :
    (b : Blake3) (store : Store) (state : AppState) (input : IssueCommandInput) (fresh : Fresh)
    → Quiet b state (issue_command b store state input fresh)
unfolding issue_command
issue_command-Quiet b store state input fresh =
    let scope = scope_text b input.device_id input.request.idempotency_key in
    elim (Result-cases (normalize_command_state b state.commands)) [
      | inr (e, failed) ↦
          let same : issue_command b store state input fresh
              ≡ (state, err IssueCommandError.state_conflict) =
            rw failed refl in
          subst (Quiet b state) (sym same) (issue_err-Quiet b state _)
      | inl ((normal, migration), normalizes) ↦
          elim (Option-cases (lookup scope normal.idempotency_results)) [
            | inl absent ↦
                let same : issue_command b store state input fresh
                    ≡ issue_new b store state input fresh normal =
                  rw (normalizes, absent) refl in
                subst (Quiet b state) (sym same) (issue_new-Quiet b store state input fresh normal)
            | inr (existing, present) ↦
                let answer = classify_existing b existing input.device_id input.request in
                let same : issue_command b store state input fresh
                    ≡ answer_existing store state (normal, migration) answer =
                  rw (normalizes, present) refl in
                subst (Quiet b state) (sym same)
                  (answer_existing-Quiet b store state normal migration answer normalizes)
          ]
    ]

pub event-cases :
    (r : Result IssueCommandError IssueCommandOutcome)
    → ((command : DeviceCommand) × (r ≡ ok (IssueCommandOutcome.created command)))
      ⊎ ((issue_event r ≡ idle)
          × ((command : DeviceCommand) → r ≢ ok (IssueCommandOutcome.created command)))
event-cases (ok (IssueCommandOutcome.created command)) = inl (command, refl)
event-cases (ok (IssueCommandOutcome.exact_duplicate command)) = inr (refl, λ other h. ground arith)
event-cases (err e) = inr (refl, λ other h. ground arith)
