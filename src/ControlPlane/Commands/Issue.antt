-- ===== src/ControlPlane/Commands/Issue.antt =====
-- services/control-plane/src/state.rs: when `issue_command` makes a command, and what becomes of the
-- state then.
use mobile_proxy.Base.{
  ℕ, String, string_eq, nat_eq, true, false, ◌||◌, none, ◌≡◌, refl, arith, lookup, contains_key,
  Result, ok, err, Option-cases, Result-cases, inl, inr, ◌≢◌,
}
use mobile_proxy.Foundation.Digests.{Blake3}
use mobile_proxy.ProxyCore.Commands.{DeviceCommand}
use mobile_proxy.ControlPlane.Application.{
  IssueCommandInput, IssueCommandOutcome, IssueCommandError, classify_existing,
}
use mobile_proxy.ControlPlane.State.{AppState, CommandState, Store}
use mobile_proxy.ControlPlane.Trimming.{scope_text, legacy_scope, trim_idempotency_state}
use mobile_proxy.ControlPlane.Normalize.{CommandStateMigration, Migrating, normalize_command_state}
use mobile_proxy.ControlPlane.Commands.{
  Fresh, issue_command, issue_normalized, issue_scoped, issue_new, issue_trimmed, answer_existing,
  enqueue, new_command, rotation_blocked, queue_full, update_device, note_issued,
}

abbrev input_scope : Blake3 → IssueCommandInput → String
input_scope b input = scope_text b input.device_id input.request.idempotency_key

abbrev input_legacy : IssueCommandInput → String
input_legacy input = legacy_scope input.device_id input.request.idempotency_key

-- How a command is made: the state is normalised, the key is unused, nothing stands against the
-- command, and the candidate is persisted.
pub record Creates (b : Blake3) (store : Store) (state : AppState) (input : IssueCommandInput)
    (fresh : Fresh) (command : DeviceCommand) : Type 0 where
  pub normal : CommandState
  pub migration : CommandStateMigration
  pub trimmed : CommandState
  pub evicted : ℕ
  pub normalizes : normalize_command_state b state.commands ≡ ok (normal, migration)
  pub unused : lookup (input_scope b input) normal.idempotency_results ≡ none
  pub unclaimed :
      (contains_key (input_scope b input) normal.idempotency
        || contains_key (input_legacy input) normal.idempotency)
      ≡ false
  pub may_rotate : rotation_blocked state normal input ≡ false
  pub has_room : queue_full normal input.device_id ≡ false
  pub trims :
      trim_idempotency_state
        (enqueue (input_scope b input) (input_legacy input) normal (new_command input fresh))
      ≡ ok (trimmed, evicted)
  pub is_new : command ≡ new_command input fresh
  pub persists :
      store state (record {
        devices = update_device input.device_id (note_issued command) state.devices;
        commands = trimmed;
      })
      ≡ true
  pub becomes : (issue_command b store state input fresh).0 ≡ record {
    devices = update_device input.device_id (note_issued command) state.devices;
    commands = trimmed;
  }

answer_existing-created :
    (store : Store) (state : AppState) (migrating : Migrating)
    (r : Result IssueCommandError DeviceCommand) (command : DeviceCommand)
    → (answer_existing store state migrating r).1 ≢ ok (IssueCommandOutcome.created command)
answer_existing-created store state (commands, migration) (err e) command h = ground arith
answer_existing-created store state (commands, migration) (ok original) command h = ground arith

abbrev issued_state : AppState → IssueCommandInput → DeviceCommand → CommandState → AppState
issued_state state input command trimmed = record {
  devices = update_device input.device_id (note_issued command) state.devices;
  commands = trimmed;
}

issue_trimmed-created :
    (store : Store) (state : AppState) (new command : DeviceCommand)
    (r : Result Unit (CommandState × ℕ))
    → (issue_trimmed store state new r).1 ≡ ok (IssueCommandOutcome.created command)
    → (trimmed : CommandState) × (evicted : ℕ) × (r ≡ ok (trimmed, evicted))
      × (command ≡ new)
      × (store state (record {
        devices = update_device new.device_id (note_issued new) state.devices;
        commands = trimmed;
      })
          ≡ true)
      × ((issue_trimmed store state new r).0 ≡ record {
        devices = update_device new.device_id (note_issued new) state.devices;
        commands = trimmed;
      })
issue_trimmed-created store state new command (err e) h = ground arith
issue_trimmed-created store state new command (ok (trimmed, evicted)) h =
    (trimmed, evicted, refl, ground arith, ground arith, ground arith)

issue_new-created :
    (b : Blake3) (store : Store) (state : AppState) (input : IssueCommandInput) (fresh : Fresh)
    (normal : CommandState) (command : DeviceCommand)
    → (issue_new b store state input fresh normal).1 ≡ ok (IssueCommandOutcome.created command)
    → let r =
        trim_idempotency_state
          (enqueue (input_scope b input) (input_legacy input) normal (new_command input fresh)) in
      ((contains_key (input_scope b input) normal.idempotency
          || contains_key (input_legacy input) normal.idempotency)
        ≡ false)
      × (rotation_blocked state normal input ≡ false)
      × (queue_full normal input.device_id ≡ false)
      × (issue_new b store state input fresh normal
          ≡ issue_trimmed store state (new_command input fresh) r)
issue_new-created b store state input fresh normal command h = ground arith

-- What `issue_command` gives, by the first condition that holds.
pub issue_command-Creates :
    (b : Blake3) (store : Store) (state : AppState) (input : IssueCommandInput) (fresh : Fresh)
    (command : DeviceCommand)
    → (issue_command b store state input fresh).1 ≡ ok (IssueCommandOutcome.created command)
    → Creates b store state input fresh command
unfolding issue_command
issue_command-Creates b store state input fresh command h =
    elim (Result-cases (normalize_command_state b state.commands)) [
      | inr (e, failed) ↦
          let no : (issue_normalized b store state input fresh (err e)).1
              ≡ ok (IssueCommandOutcome.created command) =
            rw failed at h in
          absurd (ground arith)
      | inl ((normal, migration), normalizes) ↦
          let scoped = issue_scoped b store state input fresh (normal, migration) in
          let h₁ : (scoped (lookup (input_scope b input) normal.idempotency_results)).1
              ≡ ok (IssueCommandOutcome.created command) =
            rw normalizes at h in
          elim (Option-cases (lookup (input_scope b input) normal.idempotency_results)) [
            | inr (existing, present) ↦ absurd (
                answer_existing-created store state (normal, migration)
                  (classify_existing b existing input.device_id input.request) command
                  (rw present at h₁))
            | inl absent ↦
                let h₂ : (issue_new b store state input fresh normal).1
                    ≡ ok (IssueCommandOutcome.created command) =
                  rw absent at h₁ in
                let (unclaimed, may_rotate, has_room, same) =
                  issue_new-created b store state input fresh normal command h₂ in
                let (trimmed, evicted, trims, new, persists, becomes) =
                  issue_trimmed-created store state (new_command input fresh) command
                    (trim_idempotency_state (
                      enqueue (input_scope b input) (input_legacy input) normal
                        (new_command input fresh)))
                    (rw same at h₂) in
                record {
                  normal = normal;
                  migration = migration;
                  trimmed = trimmed;
                  evicted = evicted;
                  normalizes = normalizes;
                  unused = absent;
                  unclaimed = unclaimed;
                  may_rotate = may_rotate;
                  has_room = has_room;
                  trims = trims;
                  is_new = new;
                  persists = rw new persists;
                  becomes = rw (normalizes, absent, same, new) becomes;
                }
          ]
    ]
