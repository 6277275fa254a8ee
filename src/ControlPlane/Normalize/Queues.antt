-- ===== src/ControlPlane/Normalize/Queues.antt =====
-- services/control-plane/src/state.rs: normalising leaves the queues as they are.
use mobile_proxy.Base.{
  ℕ, String, string_eq, nat_eq, Option, List, ◌≡◌, refl, ◌∙◌, arith, Map, lookup, ok, ◌>>=◌,
  try_fold-keeps, bind_ok, guard_ok, ok-injective, ap, length, ltb, ◌*◌, ◌≤◌,
}
use mobile_proxy.Foundation.Digests.{Blake3}
use mobile_proxy.ProxyCore.Commands.{DeviceCommand}
use mobile_proxy.ControlPlane.Application.{max_idempotency_results}
use mobile_proxy.ControlPlane.State.{CommandState}
use mobile_proxy.ControlPlane.Trimming.Bounds.{trim_idempotency_state-ok}
use mobile_proxy.ControlPlane.Trimming.{trim_idempotency_state, canonical_scope, queued_commands}
use mobile_proxy.ControlPlane.Normalize.{
  Migrating, canonicalize_entry, recover_legacy_claim, recover_queued, canonicalize_claim,
  recover_result, canonicalize_results, recover_queues, recover_results, rebuild_order,
  finish_normalization, normalize_command_state, no_migration, claim_or_check, finished,
  CommandStateMigration,
}

abbrev pub Queues : Type 0
Queues = Map String (List DeviceCommand)

-- A state of the loops has these queues.
abbrev Has : Queues → Migrating → Type 0
Has queues (commands, _) = commands.queues ≡ queues

canonicalize_entry-Has :
    (b : Blake3) (queues : Queues) (entry : String × DeviceCommand) (s s' : Migrating)
    → canonicalize_entry b entry s ≡ ok s'
    → Has queues s
    → Has queues s'
unfolding canonicalize_entry
canonicalize_entry-Has b queues (key, command) (commands, migration) s' h p = ground arith

recover_legacy_claim-Has :
    (queues : Queues) (command : DeviceCommand) (s s' : Migrating)
    → recover_legacy_claim command s ≡ ok s'
    → Has queues s
    → Has queues s'
unfolding recover_legacy_claim
recover_legacy_claim-Has queues command (commands, migration) s' h p = ground arith

claim_or_check-Has :
    (queues : Queues) (canonical : String) (command : DeviceCommand) (s s' : Migrating)
    (found : Option DeviceCommand)
    → claim_or_check canonical command s found ≡ ok s'
    → Has queues s
    → Has queues s'
claim_or_check-Has queues canonical command (commands, migration) s' found h p = ground arith

recover_queued-Has :
    (b : Blake3) (queues : Queues) (command : DeviceCommand) (s s' : Migrating)
    → recover_queued b command s ≡ ok s'
    → Has queues s
    → Has queues s'
unfolding recover_queued
recover_queued-Has b queues command (commands, migration) s' h p =
    let canonical = canonical_scope b command in
    let found = lookup canonical commands.idempotency_results in
    let (next, first, rest) =
      bind_ok (claim_or_check canonical command (commands, migration) found)
        (recover_legacy_claim command) s' h in
    recover_legacy_claim-Has queues command next s' rest
      (claim_or_check-Has queues canonical command (commands, migration) next found first p)

canonicalize_claim-Has :
    (queues : Queues) (entry : String × DeviceCommand) (s s' : Migrating)
    → canonicalize_claim entry s ≡ ok s'
    → Has queues s
    → Has queues s'
unfolding canonicalize_claim
canonicalize_claim-Has queues (canonical, command) (commands, migration) s' h p = ground arith

recover_result-Has :
    (queues : Queues) (entry : String × DeviceCommand) (s s' : Migrating)
    → recover_result entry s ≡ ok s'
    → Has queues s
    → Has queues s'
unfolding recover_result
recover_result-Has queues (canonical, command) s s' h p =
    let (next, first, rest) =
      bind_ok (recover_legacy_claim command s) (canonicalize_claim (canonical, command)) s' h in
    canonicalize_claim-Has queues (canonical, command) next s' rest
      (recover_legacy_claim-Has queues command s next first p)

-- The end of a normalisation that succeeds is a trimming that does.
pub finish_normalization-trims :
    (commands : CommandState) (migration : CommandStateMigration) (s : Migrating)
    → finish_normalization (commands, migration) ≡ ok s
    → (evicted : ℕ) × (trim_idempotency_state commands ≡ ok (s.0, evicted))
      × (length s.0.idempotency ≤ max_idempotency_results * 2)
unfolding finish_normalization
finish_normalization-trims commands migration s h =
    let ((trimmed, evicted), trims, rest) =
      bind_ok (trim_idempotency_state commands) (finished migration) s h in
    let (small, same) =
      guard_ok (ltb (max_idempotency_results * 2) (length trimmed.idempotency)) tt
        (ok (trimmed, record migration { evicted_entries = evicted })) s rest in
    let state : trimmed ≡ s.0 = ap (λ x. x.0) (ok-injective same) in
    (evicted, rw (← state) trims, rw (← state) (ground arith))

-- The four loops of a normalisation that succeeds.
pub record Stages (b : Blake3) (commands : CommandState) (s : Migrating) : Type 0 where
  pub canonical : Migrating
  pub queued : Migrating
  pub claimed : Migrating
  pub canonicalizes : canonicalize_results b (commands, no_migration) ≡ ok canonical
  pub recovers_queues : recover_queues b canonical ≡ ok queued
  pub recovers_results : recover_results queued ≡ ok claimed
  pub finishes : finish_normalization (rebuild_order claimed) ≡ ok s

pub normalize_command_state-Stages :
    (b : Blake3) (commands : CommandState) (s : Migrating)
    → normalize_command_state b commands ≡ ok s
    → Stages b commands s
unfolding normalize_command_state
normalize_command_state-Stages b commands s h =
    let start = canonicalize_results b (commands, no_migration) in
    let (third, to_third, finishes) =
      bind_ok (start >>= recover_queues b >>= recover_results)
        (λ state. finish_normalization (rebuild_order state)) s h in
    let (second, to_second, thirdly) =
      bind_ok (start >>= recover_queues b) recover_results third to_third in
    let (first, firstly, secondly) = bind_ok start (recover_queues b) second to_second in
    record {
      canonical = first;
      queued = second;
      claimed = third;
      canonicalizes = firstly;
      recovers_queues = secondly;
      recovers_results = thirdly;
      finishes = finishes;
    }

-- None of the loops changes a queue.
pub Stages-queues :
    (b : Blake3) (commands : CommandState) (s : Migrating) (stages : Stages b commands s)
    → (stages.canonical.0.queues ≡ commands.queues) × (stages.claimed.0.queues ≡ commands.queues)
unfolding canonicalize_results recover_queues recover_results
Stages-queues b commands s stages =
    let queues = commands.queues in
    let first =
      try_fold-keeps (Has queues) (canonicalize_entry b) (canonicalize_entry-Has b queues)
        commands.idempotency_results (commands, no_migration) stages.canonical stages.canonicalizes
        refl in
    let second =
      try_fold-keeps (Has queues) (recover_queued b) (recover_queued-Has b queues)
        (queued_commands stages.canonical.0.queues) stages.canonical stages.queued
        stages.recovers_queues first in
    (
      first,
      try_fold-keeps (Has queues) recover_result (recover_result-Has queues)
          stages.queued.0.idempotency_results stages.queued stages.claimed stages.recovers_results
          second,
    )

-- Normalising leaves the queues as they are.
pub normalize_command_state-queues :
    (b : Blake3) (commands : CommandState) (s : Migrating)
    → normalize_command_state b commands ≡ ok s
    → s.0.queues ≡ commands.queues
unfolding rebuild_order
normalize_command_state-queues b commands s h =
    let stages = normalize_command_state-Stages b commands s h in
    let ordered = rebuild_order stages.claimed in
    let (evicted, trims, _) = finish_normalization-trims ordered.0 ordered.1 s stages.finishes in
    let (_, _, same, _) = (trim_idempotency_state-ok ordered.0).1 s.0 evicted trims in
    same ∙ (Stages-queues b commands s stages).1
