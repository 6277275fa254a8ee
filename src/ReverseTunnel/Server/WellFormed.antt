-- ===== src/ReverseTunnel/Server/WellFormed.antt =====
-- crates/reverse-tunnel/src/state.rs: the operations on sessions keep the maps consistent at every node.
use mobile_proxy.Base.{
  String, string_eq, true, ◌≡◌, subst, sym, some, is_some_and, lookup, arith, ◌==◌, if◌then◌else◌,
  Bool-cases, Option-cases, insert, inl, inr, nat_eq, ◌||◌,
}
use mobile_proxy.ReverseTunnel.Server.Types.{
  Uuid, Instant, Net, SessionAuthority, ServerState, live_is, session_is,
}
use mobile_proxy.ReverseTunnel.Server.Sessions.{
  replace_session_authority, disconnect_session_authority, disconnect_current, is_current,
  remove_tcp_control_for_authority, remove_quic_connection_for_authority, touch, quic_active,
  tcp_active, refresh_session_heartbeat_for_authority,
}
use mobile_proxy.ReverseTunnel.Server.View.{
  NodeView, view, installed, removed_at, uncontrolled_at, unbound_at, view-replace,
  view-disconnect_current, view-remove_tcp_control, view-remove_quic_connection, view-insert_live,
}
use mobile_proxy.ReverseTunnel.Server.Consistent.{
  is_consistent, consistent-installed, consistent-removed, consistent-uncontrolled,
  consistent-unbound, consistent-touched,
}

abbrev pub IsWellFormed : ServerState → Type 0
IsWellFormed s = (n : String) → is_consistent (view s n) ≡ true

-- A state whose entry at a node changes to a consistent one stays well-formed.
pub step-IsWellFormed :
    (s s' : ServerState) (node : String) (w : NodeView)
    → ((n : String) → view s' n ≡ (if node == n then w else view s n))
    → is_consistent w ≡ true
    → IsWellFormed s
    → IsWellFormed s'
step-IsWellFormed s s' node w changes own wf n =
    subst (λ v. is_consistent v ≡ true) (sym (changes n))
      (elim (Bool-cases (node == n)) [ inl same ↦ rw same own | inr other ↦ rw other (wf n) ])

pub replace_session_authority-IsWellFormed :
    (s : ServerState) (node : String) (sid : Uuid) (authority : SessionAuthority) (aid : Uuid)
    (now : Instant)
    → IsWellFormed s
    → IsWellFormed (replace_session_authority s node sid authority aid now).0
replace_session_authority-IsWellFormed s node sid authority aid now wf =
    step-IsWellFormed s (replace_session_authority s node sid authority aid now).0 node
      (installed node sid authority aid now (view s node))
      (view-replace s node sid authority aid now)
      (consistent-installed node sid authority aid now (view s node)) wf

pub disconnect_session_authority-IsWellFormed :
    (s : ServerState) (node : String) (sid aid : Uuid)
    → IsWellFormed s
    → IsWellFormed (disconnect_session_authority s node sid aid).0
unfolding disconnect_session_authority is_current
disconnect_session_authority-IsWellFormed s node sid aid wf =
    elim (Bool-cases (is_current s node sid aid)) [
      | inl current ↦ rw current (
          step-IsWellFormed s (disconnect_current s node sid aid) node
            (removed_at sid aid (view s node)) (view-disconnect_current s node sid aid)
            (consistent-removed sid aid (view s node) (wf node) (ground arith)) wf)
      | inr stale ↦ rw stale wf
    ]

pub remove_tcp_control-IsWellFormed :
    (s : ServerState) (node : String) (sid aid : Uuid)
    → IsWellFormed s
    → IsWellFormed (remove_tcp_control_for_authority s node sid aid)
remove_tcp_control-IsWellFormed s node sid aid wf =
    step-IsWellFormed s (remove_tcp_control_for_authority s node sid aid) node
      (uncontrolled_at sid aid (view s node)) (view-remove_tcp_control s node sid aid)
      (consistent-uncontrolled sid aid (view s node) (wf node)) wf

pub remove_quic_connection-IsWellFormed :
    (s : ServerState) (node : String) (sid aid : Uuid)
    → IsWellFormed s
    → IsWellFormed (remove_quic_connection_for_authority s node sid aid).0
remove_quic_connection-IsWellFormed s node sid aid wf =
    step-IsWellFormed s (remove_quic_connection_for_authority s node sid aid).0 node
      (unbound_at sid aid (view s node)) (view-remove_quic_connection s node sid aid)
      (consistent-unbound sid aid (view s node) (wf node)) wf

touch-IsWellFormed :
    (s : ServerState) (node : String) (sid aid : Uuid) (now : Instant)
    → IsWellFormed s
    → IsWellFormed (touch node sid aid now s (lookup node s.session_liveness)).0
touch-IsWellFormed s node sid aid now wf = elim (Option-cases (lookup node s.session_liveness)) [
  | inl absent ↦ rw absent wf
  | inr (entry, present) ↦ rw present (elim (Bool-cases (live_is sid aid entry)) [
    | inl live ↦ rw live (
        step-IsWellFormed s
          (record s {
            session_liveness = insert node (record entry { last_seen_at = now }) s.session_liveness;
          })
          node (record (view s node) { live = some (record entry { last_seen_at = now }) })
          (view-insert_live s node (record entry { last_seen_at = now }))
          (consistent-touched (view s node) entry now (wf node) present) wf)
    | inr other ↦ rw other wf
  ])
]

pub refresh-IsWellFormed :
    (s : ServerState) (net : Net) (node : String) (sid aid : Uuid) (now : Instant)
    → IsWellFormed s
    → IsWellFormed (refresh_session_heartbeat_for_authority s net node sid aid now).0
unfolding refresh_session_heartbeat_for_authority
refresh-IsWellFormed s net node sid aid now wf =
    elim (Bool-cases (is_some_and (lookup node s.sessions) (session_is sid))) [
      | inl connected ↦
          rw connected
            (elim (Bool-cases (quic_active s net node sid aid || tcp_active s net node sid aid)) [
              | inl active ↦ rw active (touch-IsWellFormed s node sid aid now wf)
              | inr idle ↦ rw idle wf
            ])
      | inr gone ↦ rw gone wf
    ]
