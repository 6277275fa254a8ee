-- ===== src/ControlPlane/Commands/View.antt =====
-- services/control-plane/src/state.rs: the queues as seen per device,
-- and the first-in first-out queue that they implement.
use mobile_proxy.Base.{
  ℕ, String, string_eq, nat_eq, Option, none, some, List, [], ◌∷◌, ◌++◌, ◌≡◌, ◌↔◌, refl, sym, ◌∙◌,
  ap, arith, lookup, insert, lookup-insert, lookup-remove, remove_first, ◌==◌, ==→eq, eq→==,
  if◌then◌else◌, Result, ok, Bool-cases, Option-cases, inl, inr,
}
use mobile_proxy.ProxyCore.Commands.{DeviceCommand}
use mobile_proxy.ControlPlane.Application.{
  AcknowledgeCommandInput, AcknowledgeCommandOutcome, AcknowledgeCommandError, PollCommandOutcome,
  PollCommandError,
}
use mobile_proxy.ControlPlane.State.{AppState}
use mobile_proxy.ControlPlane.Normalize.Queues.{Queues}
use mobile_proxy.ControlPlane.Commands.Quiet.{QueueEvent, enqueued, acknowledged, idle}
use mobile_proxy.ControlPlane.Commands.{poll_command, queue_of, shorten_queue}

-- The abstract view: the commands that wait for each device, in order.
abbrev pub View : Type 0
View = String → List DeviceCommand

unfoldable pub view : AppState → View
view state device_id = queue_of device_id state.commands.queues

abbrev pub acknowledge_event :
    AcknowledgeCommandInput → Result AcknowledgeCommandError AcknowledgeCommandOutcome → QueueEvent
acknowledge_event input (ok AcknowledgeCommandOutcome.completed) =
    acknowledged input.device_id input.command_id
acknowledge_event input _ = idle

abbrev pub rest_or :
    List DeviceCommand → Option (DeviceCommand × List DeviceCommand) → List DeviceCommand
rest_or all none = all
rest_or all (some (_, rest)) = rest

abbrev pub without : ℕ → List DeviceCommand → List DeviceCommand
without id queue = rest_or queue (remove_first (λ command. command.command_id == id) queue)

-- The specification: a new command goes to the end of its device's queue, an acknowledged one
-- leaves it, and nothing else happens.
unfoldable pub fifo : QueueEvent → View → View
fifo (enqueued command) q device_id =
    if command.device_id == device_id then q device_id ++ command ∷ [] else q device_id
fifo (acknowledged device id) q device_id =
    if device == device_id then without id (q device_id) else q device_id
fifo idle q device_id = q device_id

pub view-insert :
    (device_id d : String) (queue : List DeviceCommand) (queues : Queues)
    → queue_of d (insert device_id queue queues)
      ≡ (if device_id == d then queue else queue_of d queues)
view-insert device_id d queue queues = elim (Bool-cases (device_id == d)) [
  | inl hit ↦ rw (lookup-insert device_id d queue queues, hit) refl
  | inr miss ↦ rw (lookup-insert device_id d queue queues, miss) refl
]

view-shorten_queue :
    (device_id d : String) (queue : List DeviceCommand) (queues : Queues)
    → queue_of d (shorten_queue device_id queue queues)
      ≡ (if device_id == d then queue else queue_of d queues)
view-shorten_queue device_id d [] queues = elim (Bool-cases (device_id == d)) [
  | inl hit ↦ rw (lookup-remove device_id d queues, hit) refl
  | inr miss ↦ rw (lookup-remove device_id d queues, miss) refl
]
view-shorten_queue device_id d (command ∷ queue) queues =
    view-insert device_id d (command ∷ queue) queues

pub shorten_without :
    (device_id d : String) (id : ℕ) (queues : Queues) (queue : List DeviceCommand)
    (command : DeviceCommand) (rest : List DeviceCommand)
    → lookup device_id queues ≡ some queue
    → remove_first (λ c. c.command_id == id) queue ≡ some (command, rest)
    → queue_of d (shorten_queue device_id rest queues)
      ≡ (if device_id == d then without id (queue_of d queues) else queue_of d queues)
shorten_without device_id d id queues queue command rest there removed =
    let short = view-shorten_queue device_id d rest queues in
    elim (Bool-cases (device_id == d)) [
      | inr miss ↦ short ∙ rw miss refl
      | inl hit ↦
          let own : queue_of device_id queues ≡ queue = rw there refl in
          let at : queue_of d queues ≡ queue =
            ap (λ x. queue_of x queues) (sym (==→eq device_id d hit)) ∙ own in
          let left : rest ≡ without id (queue_of d queues) = rw (at, removed) refl in
          short ∙ rw hit left
    ]

pub poll-empty :
    (state : AppState) (d : String)
    → (poll_command state d ≡ ok PollCommandOutcome.empty) ↔ (view state d ≡ [])
unfolding poll_command view
poll-empty state d = elim (Option-cases (lookup d state.commands.queues)) [
  | inl absent ↦ rw absent (ground arith)
  | inr ([], present) ↦ rw present (ground arith)
  | inr (first ∷ rest, present) ↦ rw present (ground arith)
]

poll_own :
    (first command : DeviceCommand) (d : String) (rest : List DeviceCommand)
    → first.device_id ≡ d
    → (◌≡◌ {A = Result PollCommandError PollCommandOutcome}
        (ok (PollCommandOutcome.pending first))
        (ok (PollCommandOutcome.pending command)))
      ↔ ((command.device_id ≡ d)
          × ((others : List DeviceCommand) × (first ∷ rest ≡ command ∷ others)))
poll_own first command d rest own = (
  λ h.
      let same : first ≡ command = cc in
      (ap (λ c. c.device_id) (sym same) ∙ own, (rest, ap (λ c. c ∷ rest) same)),
  λ (_, (others, h)).
      let same : first ≡ command = cc in ap (λ c. ok (PollCommandOutcome.pending c)) same,
)

pub poll-pending :
    (state : AppState) (d : String) (command : DeviceCommand)
    → (poll_command state d ≡ ok (PollCommandOutcome.pending command))
      ↔ ((command.device_id ≡ d) × ((rest : List DeviceCommand) × (view state d ≡ command ∷ rest)))
unfolding poll_command view
poll-pending state d command = elim (Option-cases (lookup d state.commands.queues)) [
  | inl absent ↦ rw absent (λ h. ground arith, λ (_, (xs, h)). ground arith)
  | inr ([], present) ↦ rw present (λ h. ground arith, λ (_, (xs, h)). ground arith)
  | inr (first ∷ rest, present) ↦ elim (Bool-cases (first.device_id == d)) [
    | inl own ↦ rw (present, own) (poll_own first command d rest (==→eq first.device_id d own))
    | inr other ↦
        rw (present, other)
          (
            λ h. ground arith,
            λ (same, (xs, h)).
                let heads : first ≡ command = cc in
                absurd (
                  ground
                    (arith, eq→== first.device_id d (ap (λ c. c.device_id) heads ∙ same), other)),
          )
  ]
]
