-- ===== src/ReverseTunnel/Server/Heartbeats.antt =====
-- crates/reverse-tunnel/src/tunnel.rs: what `mark_heartbeat` does to the registry after the refresh has
-- let go of the locks.
use mobile_proxy.Base.{
  ℕ, String, string_eq, nat_eq, true, ◌≡◌, refl, Option, none, some, lookup, insert, ◌==◌,
  if◌then◌else◌, Bool-cases, Option-cases, inl, inr, arith, ==_refl, map_laws,
}
use mobile_proxy.ReverseTunnel.Server.Types.{
  Uuid, ServerState, ServerSessionSnapshot, SessionLiveness,
}
use mobile_proxy.ReverseTunnel.Server.View.{view, view_cases, NodeView}
use mobile_proxy.ReverseTunnel.Server.Consistent.{is_consistent, live_agrees}
use mobile_proxy.ReverseTunnel.Server.WellFormed.{IsWellFormed, step-IsWellFormed}

abbrev pub marked : ℕ → ServerSessionSnapshot → ServerSessionSnapshot
marked sequence session = record session {
  connected = true;
  last_heartbeat_sequence = some sequence;
}

abbrev pub mark_found : ServerState → String → Uuid → ℕ → Option ServerSessionSnapshot → ServerState
mark_found s node sid sequence none = s
mark_found s node sid sequence (some session) =
    if session.session_id == sid
    then record s { sessions = insert node (marked sequence session) s.sessions }
    else s

-- The second critical section of `mark_heartbeat`.
unfoldable pub mark_heartbeat : ServerState → String → Uuid → ℕ → ServerState
mark_heartbeat s node sid sequence = mark_found s node sid sequence (lookup node s.sessions)

live_marked :
    (session : ServerSessionSnapshot) (sequence : ℕ) (live : Option SessionLiveness)
    → live_agrees (some session) live ≡ true
    → live_agrees (some (marked sequence session)) live ≡ true
live_marked session sequence none h = refl
live_marked session sequence (some live) h = ground arith

consistent-marked :
    (v : NodeView) (session : ServerSessionSnapshot) (sequence : ℕ)
    → is_consistent v ≡ true
    → v.session ≡ some session
    → is_consistent (record v { session = some (marked sequence session) }) ≡ true
consistent-marked v session sequence h present =
    let agrees : live_agrees (some session) v.live ≡ true = rw (← present) (ground arith) in
    rw (live_marked session sequence v.live agrees) (ground arith)

pub mark_heartbeat-IsWellFormed :
    (s : ServerState) (node : String) (sid : Uuid) (sequence : ℕ)
    → IsWellFormed s
    → IsWellFormed (mark_heartbeat s node sid sequence)
unfolding mark_heartbeat
mark_heartbeat-IsWellFormed s node sid sequence wf = elim (Option-cases (lookup node s.sessions)) [
  | inl absent ↦ rw absent wf
  | inr (session, present) ↦ rw present (elim (Bool-cases (session.session_id == sid)) [
    | inr other ↦ rw other wf
    | inl same ↦ rw same (
        let s' : ServerState = record s {
          sessions = insert node (marked sequence session) s.sessions;
        } in
        let w : NodeView = record (view s node) { session = some (marked sequence session) } in
        step-IsWellFormed s s' node w
          (λ n.
            view_cases s s' node n w (simp (map_laws, ==_refl) refl)
              (λ other. simp (map_laws, other) refl))
          (consistent-marked (view s node) session sequence (wf node) present) wf)
  ])
]
