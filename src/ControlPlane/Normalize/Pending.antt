-- ===== src/ControlPlane/Normalize/Pending.antt =====
-- services/control-plane/src/state.rs: after normalising, every pending command has its result under
-- its canonical scope.
use mobile_proxy.Base.{
  String, string_eq, nat_eq, Bool, true, none, some, List, [], ◌∷◌, ◌++◌, ◌≡◌, refl, sym, ◌∙◌, ap,
  subst, arith, lookup, insert, lookup-insert, values, any, All, All-map, All-zip, ◌==◌, ==_refl,
  ==→eq, Result, ok, bind_ok, guard_ok, ok-injective, try_fold-keeps, try_fold-All, Bool-cases,
  Option-cases, inl, inr, not,
}
use mobile_proxy.Foundation.Digests.{Blake3}
use mobile_proxy.ProxyCore.Commands.{DeviceCommand, command_eq}
use mobile_proxy.ControlPlane.State.{CommandState}
use mobile_proxy.ControlPlane.Trimming.Bounds.{trim_idempotency_state-ok}
use mobile_proxy.ControlPlane.Normalize.Queues.{
  Queues, Stages-queues, normalize_command_state-Stages, finish_normalization-trims,
}
use mobile_proxy.ControlPlane.Trimming.{canonical_scope, queued_commands, command_is_pending}
use mobile_proxy.ControlPlane.Normalize.{
  Migrating, claim_or_check, recover_legacy_claim, recover_queued, canonicalize_claim,
  recover_result, recover_queues, recover_results, rebuild_order, normalize_command_state,
}

-- A command has its result under its canonical scope.
unfoldable pub HasResult : Blake3 → DeviceCommand → Migrating → Type 0
HasResult b command (commands, _) =
    lookup (canonical_scope b command) commands.idempotency_results ≡ some command

recover_legacy_claim-results :
    (command : DeviceCommand) (s s' : Migrating)
    → recover_legacy_claim command s ≡ ok s'
    → s'.0.idempotency_results ≡ s.0.idempotency_results
unfolding recover_legacy_claim
recover_legacy_claim-results command (commands, migration) s' h = ground arith

recover_result-results :
    (entry : String × DeviceCommand) (s s' : Migrating)
    → recover_result entry s ≡ ok s'
    → s'.0.idempotency_results ≡ s.0.idempotency_results
unfolding recover_result canonicalize_claim
recover_result-results (canonical, command) s s' h =
    let (next, first, rest) =
      bind_ok (recover_legacy_claim command s) (canonicalize_claim (canonical, command)) s' h in
    let same = recover_legacy_claim-results command s next first in ground arith

claim_new :
    (scope : String) (command : DeviceCommand) (s s' : Migrating)
    → claim_or_check scope command s none ≡ ok s'
    → s'.0.idempotency_results ≡ insert scope command s.0.idempotency_results
claim_new scope command (commands, migration) s' h =
    ap (λ x. x.0.idempotency_results) (sym (ok-injective h))

claim_old :
    (scope : String) (command existing : DeviceCommand) (s s' : Migrating)
    → claim_or_check scope command s (some existing) ≡ ok s'
    → (existing ≡ command) × (s'.0.idempotency_results ≡ s.0.idempotency_results)
claim_old scope command existing (commands, migration) s' h =
    let (same, rest) = guard_ok (not (existing == command)) tt (ok (commands, migration)) s' h in
    (
      ==→eq existing command (ground arith),
      ap (λ x. x.0.idempotency_results) (sym (ok-injective rest)),
    )

-- The claim of a command sets its result, and keeps all that there are.
abbrev claim_of : Blake3 → DeviceCommand → Migrating → Result Unit Migrating
claim_of b command s =
    let scope = canonical_scope b command in
    claim_or_check scope command s (lookup scope s.0.idempotency_results)

claim_of-HasResult :
    (b : Blake3) (command : DeviceCommand) (s s' : Migrating)
    → claim_of b command s ≡ ok s'
    → HasResult b command s' × ((kept : DeviceCommand) → HasResult b kept s → HasResult b kept s')
unfolding HasResult
claim_of-HasResult b command s s' h =
    let scope = canonical_scope b command in
    elim (Option-cases (lookup scope s.0.idempotency_results)) [
      | inl absent ↦
          let results = claim_new scope command s s' (rw absent at h) in
          (
            rw (results, lookup-insert scope scope command s.0.idempotency_results, ==_refl scope)
                refl,
            λ kept has. elim (Bool-cases (scope == canonical_scope b kept)) [
              | inl hit ↦
                  let taken : lookup scope s.0.idempotency_results ≡ some kept =
                    rw (==→eq scope (canonical_scope b kept) hit) has in
                  absurd (ground (arith, taken, absent))
              | inr miss ↦
                  rw
                    (
                      results,
                      lookup-insert scope (canonical_scope b kept) command s.0.idempotency_results,
                      miss,
                    )
                    has
            ],
          )
      | inr (existing, present) ↦
          let (same, results) = claim_old scope command existing s s' (rw present at h) in
          (rw (results, present) (ap some same), λ kept has. rw results has)
    ]

recover_queued-HasResult :
    (b : Blake3) (command : DeviceCommand) (s s' : Migrating)
    → recover_queued b command s ≡ ok s'
    → HasResult b command s' × ((kept : DeviceCommand) → HasResult b kept s → HasResult b kept s')
unfolding recover_queued HasResult
recover_queued-HasResult b command (commands, migration) s' h =
    let s : Migrating = (commands, migration) in
    let (next, first, rest) = bind_ok (claim_of b command s) (recover_legacy_claim command) s' h in
    let (sets, keeps) = claim_of-HasResult b command s next first in
    let same = recover_legacy_claim-results command next s' rest in
    (rw same sets, λ kept has. rw same (keeps kept has))

-- Every command of the queues has its result after the second loop.
recover_queues-HasResult :
    (b : Blake3) (s s' : Migrating)
    → recover_queues b s ≡ ok s'
    → All (λ command. HasResult b command s') (queued_commands s.0.queues)
unfolding recover_queues
recover_queues-HasResult b s s' h =
    try_fold-All (λ command. HasResult b command) (recover_queued b)
      (λ command from to first. (recover_queued-HasResult b command from to first).0)
      (λ kept command from to first. (recover_queued-HasResult b command from to first).1 kept)
      (queued_commands s.0.queues) s s' h

-- A queued command is pending.
any_self :
    (xs : List DeviceCommand) → All (λ c. any (λ d. d.command_id == c.command_id) xs ≡ true) xs
unfolding any
any_self [] = tt
any_self (x ∷ xs) =
    (rw (==_refl x.command_id) refl, All-map xs (λ c waits. ground arith) (any_self xs))

pub All-join :
    (P : DeviceCommand → Type 0) (xs ys : List DeviceCommand)
    → All P xs
    → All P ys
    → All P (xs ++ ys)
All-join P [] ys h k = k
All-join P (x ∷ xs) ys h k = (h.0, All-join P xs ys h.1 k)

abbrev waits_in : Queues → DeviceCommand → Bool
waits_in queues c = any (λ queue. any (λ d. d.command_id == c.command_id) queue) (values queues)

queued_commands-pending :
    (queues : Queues) → All (λ c. waits_in queues c ≡ true) (queued_commands queues)
unfolding any queued_commands
queued_commands-pending [] = tt
queued_commands-pending ((_, queue) ∷ queues) =
    All-join (λ c. _) queue (queued_commands queues)
      (All-map queue (λ c waits. rw waits refl) (any_self queue))
      (All-map (queued_commands queues) (λ c waits. ground arith) (queued_commands-pending queues))

-- After a normalisation that succeeds, every command of a queue has its result under its canonical
-- scope.
pub normalize_command_state-HasResult :
    (b : Blake3) (commands : CommandState) (s : Migrating)
    → normalize_command_state b commands ≡ ok s
    → All (λ command. HasResult b command s) (queued_commands commands.queues)
unfolding recover_results rebuild_order HasResult command_is_pending
normalize_command_state-HasResult b commands s h =
    let stages = normalize_command_state-Stages b commands s h in
    let (first, third) = Stages-queues b commands s stages in
    let have = recover_queues-HasResult b stages.canonical stages.queued stages.recovers_queues in
    let results =
      try_fold-keeps (λ state. state.0.idempotency_results ≡ stages.queued.0.idempotency_results)
        recover_result (λ entry from to step same. recover_result-results entry from to step ∙ same)
        stages.queued.0.idempotency_results stages.queued stages.claimed stages.recovers_results
        refl in
    let ordered = rebuild_order stages.claimed in
    let (evicted, trims, _) = finish_normalization-trims ordered.0 ordered.1 s stages.finishes in
    let (_, _, _, kept) = (trim_idempotency_state-ok ordered.0).1 s.0 evicted trims in
    let waiting : All (λ c. waits_in commands.queues c ≡ true) (queued_commands commands.queues) =
      queued_commands-pending commands.queues in
    All-map (queued_commands commands.queues)
      (λ command (has, waits).
        kept (canonical_scope b command) command (rw results has) (rw third waits))
      (All-zip (λ command. HasResult b command stages.queued)
        (λ c. waits_in commands.queues c ≡ true) (queued_commands commands.queues)
        (subst
          (λ queues. All (λ command. HasResult b command stages.queued) (queued_commands queues))
          first have)
        waiting)
