-- ===== src/ControlPlane/Queued.antt =====
-- services/control-plane/src/state.rs: how issuing and acknowledging keep the queues within their
-- bounds.
use mobile_proxy.Base.{
  ◌+◌, ◌≤◌, ◌<◌, String, string_eq, nat_eq, Bool, false, some, List, [], ◌∷◌, ◌++◌, length,
  length-append, ◌≡◌, refl, sym, ap, subst, arith, lookup, insert, remove, ◌==◌, is_some_and, leb,
  Bool-cases, Option-cases, inl, inr, All, All-append, AllEntries, AllEntries-insert,
  AllEntries-remove, AllEntries-lookup, remove_first, remove_first-split, length-remove_first, ok,
}
use mobile_proxy.Foundation.Digests.{Blake3}
use mobile_proxy.ProxyCore.Commands.{DeviceCommand}
use mobile_proxy.ControlPlane.Application.{
  max_pending_commands, max_command_queue_per_device, IssueCommandInput,
}
use mobile_proxy.ControlPlane.State.{AppState, CommandState, Store}
use mobile_proxy.ControlPlane.Trimming.{pending_command_count, scope_text, legacy_scope}
use mobile_proxy.ControlPlane.Normalize.{Migrating, normalize_command_state, rebuild_order}
use mobile_proxy.ControlPlane.Trimming.Bounds.{trim_idempotency_state-ok}
use mobile_proxy.ControlPlane.Normalize.Queues.{
  Queues, normalize_command_state-queues, normalize_command_state-Stages,
  finish_normalization-trims,
}
use mobile_proxy.ControlPlane.Normalize.Pending.{All-join}
use mobile_proxy.ControlPlane.Commands.{
  Fresh, issue_command, queue_of, queue_full, shorten_queue, enqueue, new_command,
}
use mobile_proxy.ControlPlane.Commands.Issue.{Creates}
use mobile_proxy.ControlPlane.Invariant.{IsOwnQueue, HasCommands}

count-insert :
    (d : String) (queue : List DeviceCommand) (queues : Queues)
    → pending_command_count (insert d queue queues) + length (queue_of d queues)
      ≡ pending_command_count queues + length queue
unfolding insert lookup pending_command_count
count-insert d queue [] = omega arith
count-insert d queue ((k, q) ∷ queues) = elim (Bool-cases (k == d)) [
  | inl same ↦ rw same (omega arith)
  | inr other ↦ rw other (omega (arith, count-insert d queue queues))
]

count-remove-le :
    (d : String) (queues : Queues)
    → pending_command_count (remove d queues) ≤ pending_command_count queues
unfolding remove pending_command_count
count-remove-le d [] = omega arith
count-remove-le d ((k, q) ∷ queues) = ground (arith, count-remove-le d queues)

-- The state after a normalisation is as sound as it was, and its order within its bound.
pub normalize_command_state-HasCommands :
    (b : Blake3) (commands : CommandState) (s : Migrating)
    → normalize_command_state b commands ≡ ok s
    → HasCommands commands
    → HasCommands s.0
unfolding HasCommands rebuild_order
normalize_command_state-HasCommands b commands s h (few, own, _) =
    let queues = normalize_command_state-queues b commands s h in
    let stages = normalize_command_state-Stages b commands s h in
    let ordered = rebuild_order stages.claimed in
    let (evicted, trims, _) = finish_normalization-trims ordered.0 ordered.1 s stages.finishes in
    let (short, _, _, _) = (trim_idempotency_state-ok ordered.0).1 s.0 evicted trims in
    (rw queues few, rw queues own, short)

queue_room_of :
    (d : String) (queues : Queues)
    → AllEntries IsOwnQueue queues
    → is_some_and (lookup d queues) (λ queue. leb max_command_queue_per_device (length queue))
      ≡ false
    → (length (queue_of d queues) < max_command_queue_per_device)
      × All (λ x. x.device_id ≡ d) (queue_of d queues)
unfolding IsOwnQueue
queue_room_of d queues own test = elim (Option-cases (lookup d queues)) [
  | inl absent ↦ rw absent (omega arith, tt)
  | inr (queue, there) ↦
      let small : leb max_command_queue_per_device (length queue) ≡ false = rw there at test in
      let mine = AllEntries-lookup IsOwnQueue d queue queues there own in
      rw there (ground arith, mine.1)
]

pub Creates-HasCommands :
    (b : Blake3) (store : Store) (state : AppState) (input : IssueCommandInput) (fresh : Fresh)
    (command : DeviceCommand)
    → Creates b store state input fresh command
    → HasCommands state.commands
    → HasCommands (issue_command b store state input fresh).0.commands
unfolding HasCommands IsOwnQueue queue_full
Creates-HasCommands b store state input fresh command c (few, own, _) =
    let scope = scope_text b input.device_id input.request.idempotency_key in
    let legacy = legacy_scope input.device_id input.request.idempotency_key in
    let new = new_command input fresh in
    let d = input.device_id in
    let normal =
      normalize_command_state-queues b state.commands (c.normal, c.migration) c.normalizes in
    let (short, _, queues, _) =
      (trim_idempotency_state-ok (enqueue scope legacy c.normal new)).1 c.trimmed c.evicted
        c.trims in
    let own_normal : AllEntries IsOwnQueue c.normal.queues = rw normal own in
    let old = queue_of d c.normal.queues in
    let counted = count-insert d (old ++ new ∷ []) c.normal.queues in
    let longer = length-append old (new ∷ []) in
    let room = c.has_room in
    let total : pending_command_count c.normal.queues < max_pending_commands = ground arith in
    let queue_test : is_some_and (lookup d c.normal.queues)
          (λ queue. leb max_command_queue_per_device (length queue))
        ≡ false =
      ground arith in
    let queue_room : (length old < max_command_queue_per_device) × All (λ x. x.device_id ≡ d) old =
      queue_room_of d c.normal.queues own_normal queue_test in
    let after : (issue_command b store state input fresh).0.commands ≡ c.trimmed =
      ap (λ s. s.commands) c.becomes in
    rw (after, queues)
      (
        omega arith,
        AllEntries-insert IsOwnQueue d (old ++ new ∷ []) c.normal.queues
            (omega arith, All-join (λ x. x.device_id ≡ d) old (new ∷ []) queue_room.1 (refl, tt))
            own_normal,
        short,
      )

-- A command that is taken out of a queue leaves a sound queue.
rest-IsOwnQueue :
    (d : String) (queue rest : List DeviceCommand) (command : DeviceCommand)
    (p : DeviceCommand → Bool)
    → remove_first p queue ≡ some (command, rest)
    → IsOwnQueue d queue
    → IsOwnQueue d rest
unfolding IsOwnQueue
rest-IsOwnQueue d queue rest command p taken (few, own) =
    let shorter = length-remove_first p queue command rest taken in
    let (before, after, split, joined, _, _) = remove_first-split p queue command rest taken in
    let split_own : All (λ x. x.device_id ≡ d) (before ++ command ∷ after) =
      subst (All (λ x. x.device_id ≡ d)) split own in
    let (front, back) = All-append (λ x. x.device_id ≡ d) before (command ∷ after) split_own in
    (
      omega arith,
      subst (All (λ x. x.device_id ≡ d)) (sym joined)
          (All-join (λ x. x.device_id ≡ d) before after front back.1),
    )

pub shorten_queue-HasCommands :
    (d : String) (queue rest : List DeviceCommand) (command : DeviceCommand)
    (p : DeviceCommand → Bool) (commands : CommandState)
    → lookup d commands.queues ≡ some queue
    → remove_first p queue ≡ some (command, rest)
    → HasCommands commands
    → HasCommands (record commands { queues = shorten_queue d rest commands.queues })
unfolding HasCommands
shorten_queue-HasCommands d queue [] command p commands there taken (few, own, short) = (
  omega (arith, count-remove-le d commands.queues),
  AllEntries-remove IsOwnQueue d commands.queues own,
  short,
)
shorten_queue-HasCommands d queue (next ∷ rest) command p commands there taken (few, own, short) =
    let mine = AllEntries-lookup IsOwnQueue d queue commands.queues there own in
    let left = rest-IsOwnQueue d queue (next ∷ rest) command p taken mine in
    let shorter = length-remove_first p queue command (next ∷ rest) taken in
    let held : queue_of d commands.queues ≡ queue = rw there refl in
    let held_length = ap length held in
    (
      omega (arith, count-insert d (next ∷ rest) commands.queues),
      AllEntries-insert IsOwnQueue d (next ∷ rest) commands.queues left own,
      short,
    )
