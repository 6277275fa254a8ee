-- ===== src/ControlPlane/Commands/Duplicates.antt =====
-- services/control-plane/src/state.rs: a key that is used again while its command is pending.
use mobile_proxy.Base.{
  String, string_eq, nat_eq, some, List, [], ◌∷◌, ◌++◌, ◌≡◌, ◌≢◌, refl, sym, ◌∙◌, ap, subst, arith,
  Map, lookup, All, All-append, ◌==◌, if◌then◌else◌, ok, err, Bool-cases, inl, inr,
}
use mobile_proxy.Foundation.Digests.{Blake3}
use mobile_proxy.ProxyCore.Commands.{DeviceCommand}
use mobile_proxy.ControlPlane.Application.{
  IssueCommandInput, IssueCommandOutcome, IssueCommandError, classify_existing, request_for,
  IsCollisionFree,
}
use mobile_proxy.ControlPlane.Application.Laws.{IsRequest, classify_existing_iff}
use mobile_proxy.ControlPlane.State.{AppState, CommandState, Store, commit}
use mobile_proxy.ControlPlane.Trimming.{queued_commands}
use mobile_proxy.ControlPlane.Normalize.{
  CommandStateMigration, has_changed, Migrating, normalize_command_state,
}
use mobile_proxy.ControlPlane.Normalize.Pending.{HasResult, normalize_command_state-HasResult}
use mobile_proxy.ControlPlane.Commands.{Fresh, issue_command, answer_existing}

-- What holds of all queued commands holds of those of one queue.
All-queue :
    (P : DeviceCommand → Type 0) (device_id : String) (queues : Map String (List DeviceCommand))
    (queue : List DeviceCommand)
    → lookup device_id queues ≡ some queue
    → All P (queued_commands queues)
    → All P queue
unfolding lookup queued_commands
All-queue P device_id [] queue found h = ground arith
All-queue P device_id ((k, q) ∷ queues) queue found h =
    let (here, there) = All-append P q (queued_commands queues) h in
    elim (Bool-cases (k == device_id)) [
      | inl hit ↦ let same : q ≡ queue = ground arith in subst (All P) same here
      | inr miss ↦ All-queue P device_id queues queue (rw miss at found) there
    ]

-- A command waits in the queue of its device.
pub record IsQueued (state : AppState) (command : DeviceCommand) : Type 0 where
  pub before : List DeviceCommand
  pub after : List DeviceCommand
  pub queued : lookup command.device_id state.commands.queues ≡ some (before ++ command ∷ after)

IsQueued-HasResult :
    (b : Blake3) (state : AppState) (command : DeviceCommand) (s : Migrating)
    → IsQueued state command
    → normalize_command_state b state.commands ≡ ok s
    → HasResult b command s
IsQueued-HasResult b state command s waits h =
    let all = normalize_command_state-HasResult b state.commands s h in
    let here =
      All-queue (λ c. HasResult b c s) command.device_id state.commands.queues _ waits.queued all in
    (All-append (λ c. HasResult b c s) waits.before (command ∷ waits.after) here).1.0

-- While a command waits in its device's queue and the state can be normalised, a request to the
-- device under the command's key makes no other command. The same request is answered with the
-- command itself, or with a persistence error if a normalised state that has changed is not
-- persisted; a request with other parameters is a conflict that leaves the state as it was (the
-- hash does not collide, and the requests are of a size that exists).
pub issue_command-while_pending :
    (b : Blake3) (store : Store) (state : AppState) (input : IssueCommandInput) (fresh : Fresh)
    (command : DeviceCommand) (normal : CommandState) (migration : CommandStateMigration)
    → IsCollisionFree b
    → IsRequest command.device_id (request_for command)
    → IsRequest input.device_id input.request
    → IsQueued state command
    → normalize_command_state b state.commands ≡ ok (normal, migration)
    → input.device_id ≡ command.device_id
    → input.request.idempotency_key ≡ command.idempotency_key
    → (input.request ≡ request_for command
        → issue_command b store state input fresh ≡ (
            if has_changed migration
            then commit store state
                (record state { commands = normal })
                IssueCommandError.persistence
                (IssueCommandOutcome.exact_duplicate command)
            else (state, ok (IssueCommandOutcome.exact_duplicate command))))
      × (input.request ≢ request_for command
          → issue_command b store state input fresh
            ≡ (state, err IssueCommandError.idempotency_conflict))
unfolding issue_command HasResult
issue_command-while_pending b store state input fresh command normal migration free fits fits' waits
      normalizes device key =
    let has = IsQueued-HasResult b state command (normal, migration) waits normalizes in
    let (exact, conflict) =
      classify_existing_iff b command input.device_id input.request free fits fits' in
    let answer : issue_command b store state input fresh
        ≡ answer_existing store state (normal, migration)
            (classify_existing b command input.device_id input.request) =
      rw (normalizes, device, key, has) refl in
    (
      λ same.
          answer
          ∙ ap (answer_existing store state (normal, migration)) (exact.1 (sym device, sym same)),
      λ other.
          answer
          ∙ ap (answer_existing store state (normal, migration))
              (conflict (λ ok_then. other (sym (exact.0 ok_then).1))),
    )
