-- ===== src/ControlPlane/Commands/Fifo.antt =====
-- services/control-plane/src/state.rs: the queues, as a first-in first-out queue per device.
use mobile_proxy.Base.{
  String, string_eq, nat_eq, Option, none, some, List, [], ◌∷◌, ◌++◌, ◌≡◌, ◌↔◌, refl, ◌∙◌, ap,
  lookup, remove_first, ◌==◌, ==→eq, if◌then◌else◌, ok, Bool-cases, Option-cases, inl, inr,
}
use mobile_proxy.Foundation.Digests.{Blake3}
use mobile_proxy.ProxyCore.Commands.{DeviceCommand}
use mobile_proxy.ControlPlane.Application.{
  IssueCommandInput, AcknowledgeCommandInput, PollCommandOutcome,
}
use mobile_proxy.ControlPlane.State.{AppState, Store}
use mobile_proxy.ControlPlane.Trimming.{scope_text, legacy_scope}
use mobile_proxy.ControlPlane.Trimming.Bounds.{trim_idempotency_state-ok}
use mobile_proxy.ControlPlane.Normalize.Queues.{normalize_command_state-queues}
use mobile_proxy.ControlPlane.Commands.Issue.{Creates, issue_command-Creates}
use mobile_proxy.ControlPlane.Commands.Quiet.{
  enqueued, issue_event, event-cases, Quiet, issue_command-Quiet,
}
use mobile_proxy.ControlPlane.Commands.{
  Fresh, issue_command, poll_command, acknowledge_command, queue_of, shorten_queue, enqueue,
  new_command, acknowledge_found, update_device, note_acknowledged,
}
use mobile_proxy.ControlPlane.Commands.View.{
  view, acknowledge_event, without, fifo, view-insert, shorten_without, poll-empty, poll-pending,
}

created_view :
    (b : Blake3) (store : Store) (state : AppState) (input : IssueCommandInput) (fresh : Fresh)
    (command : DeviceCommand)
    → Creates b store state input fresh command
    → (d : String)
    → view (issue_command b store state input fresh).0 d ≡ fifo (enqueued command) (view state) d
unfolding view fifo
created_view b store state input fresh command c d =
    let scope = scope_text b input.device_id input.request.idempotency_key in
    let legacy = legacy_scope input.device_id input.request.idempotency_key in
    let new = new_command input fresh in
    let (_, _, trimmed, _) =
      (trim_idempotency_state-ok (enqueue scope legacy c.normal new)).1 c.trimmed c.evicted
        c.trims in
    let normal =
      normalize_command_state-queues b state.commands (c.normal, c.migration) c.normalizes in
    let inserted =
      view-insert input.device_id d (queue_of input.device_id c.normal.queues ++ new ∷ [])
        c.normal.queues in
    let after : view (issue_command b store state input fresh).0 d ≡ queue_of d c.trimmed.queues =
      ap (λ s. queue_of d s.commands.queues) c.becomes in
    let step = after ∙ ap (queue_of d) trimmed ∙ inserted in
    elim (Bool-cases (input.device_id == d)) [
      | inl hit ↦
          let here : (if input.device_id == d
                then queue_of input.device_id c.normal.queues ++ new ∷ []
                else queue_of d c.normal.queues)
              ≡ queue_of d state.commands.queues ++ new ∷ [] =
            rw (hit, normal)
              (ap (λ x. queue_of x state.commands.queues ++ new ∷ [])
                (==→eq input.device_id d hit)) in
          rw (c.is_new, hit) (step ∙ here)
      | inr miss ↦
          let there : (if input.device_id == d
                then queue_of input.device_id c.normal.queues ++ new ∷ []
                else queue_of d c.normal.queues)
              ≡ queue_of d state.commands.queues =
            rw (miss, normal) refl in
          rw (c.is_new, miss) (step ∙ there)
    ]

issue_view :
    (b : Blake3) (store : Store) (state : AppState) (input : IssueCommandInput) (fresh : Fresh)
    (d : String)
    → view (issue_command b store state input fresh).0 d
      ≡ fifo (issue_event (issue_command b store state input fresh).1) (view state) d
unfolding view fifo Quiet
issue_view b store state input fresh d =
    elim (event-cases (issue_command b store state input fresh).1) [
      | inl (command, made) ↦ rw made (
          created_view b store state input fresh command
            (issue_command-Creates b store state input fresh command made) d)
      | inr (quiet, never) ↦ elim (issue_command-Quiet b store state input fresh) [
        | inl (inl same) ↦ rw quiet (ap (λ s. queue_of d s.commands.queues) same)
        | inl (inr (normal, migration, normalizes, same)) ↦
            let queues =
              ap (λ s. s.commands.queues) same
              ∙ normalize_command_state-queues b state.commands (normal, migration) normalizes in
            rw quiet (ap (queue_of d) queues)
        | inr (command, made) ↦ absurd (never command made)
      ]
    ]

acknowledge_found-view :
    (store : Store) (state : AppState) (input : AcknowledgeCommandInput) (now d : String)
    (queue : List DeviceCommand) (found : Option (DeviceCommand × List DeviceCommand))
    → lookup input.device_id state.commands.queues ≡ some queue
    → remove_first (λ command. command.command_id == input.command_id) queue ≡ found
    → let r = acknowledge_found store state input.device_id now found in
      view r.0 d ≡ fifo (acknowledge_event input r.1) (view state) d
unfolding view fifo
acknowledge_found-view store state input now d queue none there removed = refl
acknowledge_found-view store state input now d queue (some (command, rest)) there removed =
    elim (Bool-cases (command.device_id == input.device_id)) [
      | inr other ↦ rw other refl
      | inl own ↦
          let candidate : AppState = record {
            devices = update_device input.device_id (note_acknowledged now) state.devices;
            commands = record state.commands {
              queues = shorten_queue input.device_id rest state.commands.queues;
            };
          } in
          let shortened : queue_of d (shorten_queue input.device_id rest state.commands.queues) ≡ (
              if input.device_id == d
              then without input.command_id (queue_of d state.commands.queues)
              else queue_of d state.commands.queues) =
            shorten_without input.device_id d input.command_id state.commands.queues queue command
              rest there removed in
          elim (Bool-cases (store state candidate)) [
            | inr stale ↦ rw (own, stale) refl
            | inl swapped ↦ rw (own, swapped) shortened
          ]
    ]

acknowledge_view :
    (store : Store) (state : AppState) (input : AcknowledgeCommandInput) (now d : String)
    → view (acknowledge_command store state input now).0 d
      ≡ fifo (acknowledge_event input (acknowledge_command store state input now).1) (view state) d
unfolding view fifo acknowledge_command
acknowledge_view store state input now d = elim (Bool-cases input.request.ok) [
  | inr retry ↦ rw retry refl
  | inl done ↦ elim (Option-cases (lookup input.device_id state.commands.queues)) [
    | inl absent ↦ rw (done, absent) refl
    | inr (queue, there) ↦
        rw (done, there) (acknowledge_found-view store state input now d queue _ there refl)
  ]
]

-- The queues refine a first-in first-out queue per device: issuing appends the command to its
-- device's queue exactly when the outcome is that it was created, acknowledging takes the command
-- with the id out of the device's queue exactly when the outcome is `completed`, in all other
-- cases, errors included, no queue changes, and all queues of other devices stay; polling answers
-- `empty` exactly for an empty queue, and a command exactly when it is the first of the queue and
-- belongs to the device.
pub queues-refine :
    (b : Blake3) (store : Store) (state : AppState) (d : String)
    → ((input : IssueCommandInput) (fresh : Fresh)
        → let (after, outcome) = issue_command b store state input fresh in
          view after d ≡ fifo (issue_event outcome) (view state) d)
      × ((input : AcknowledgeCommandInput) (now : String)
          → let (after, outcome) = acknowledge_command store state input now in
            view after d ≡ fifo (acknowledge_event input outcome) (view state) d)
      × ((poll_command state d ≡ ok PollCommandOutcome.empty) ↔ (view state d ≡ []))
      × ((command : DeviceCommand)
          → (poll_command state d ≡ ok (PollCommandOutcome.pending command)) ↔ (
              (command.device_id ≡ d)
              × ((rest : List DeviceCommand) × (view state d ≡ command ∷ rest))))
queues-refine b store state d = (
  λ input fresh. issue_view b store state input fresh d,
  λ input now. acknowledge_view store state input now d,
  poll-empty state d,
  poll-pending state d,
)
