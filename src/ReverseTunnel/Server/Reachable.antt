-- ===== src/ReverseTunnel/Server/Reachable.antt =====
-- crates/reverse-tunnel/src/state.rs: the operations on streams keep the maps consistent, too, so that
-- they are consistent in every state the server reaches before its shutdown.
use mobile_proxy.Base.{
  ℕ, String, string_eq, nat_eq, true, ◌≡◌, subst, sym, some, lookup, Option-cases, insert, inl, inr,
  ok, guard_ok, leb, length, ok-injective, refl,
}
use mobile_proxy.ReverseTunnel.Server.Types.{
  max_pending_tcp_streams, max_pending_tcp_streams_per_node, max_reserved_tcp_streams_per_node,
  Uuid, Instant, Handle, Net, ServerState, ActiveSessionTarget,
}
use mobile_proxy.ReverseTunnel.Server.Sessions.{cancel_pending_for_authority, shutdown_tcp}
use mobile_proxy.ReverseTunnel.Server.Streams.{
  take_reserved_tcp_stream, admit_reserved, push_reserved, open_pending, drop_pending, pop_matching,
  reserve_capacity_reached, pending_capacity_reached, node_pending_capacity_reached, reserve_of,
  pending_for_node, keepalive_reserved_tcp_streams,
}
use mobile_proxy.ReverseTunnel.Server.Admit.{admit_reserved_ok}
use mobile_proxy.ReverseTunnel.Server.View.{view, view-insert_control}
use mobile_proxy.ReverseTunnel.Server.Consistent.{consistent-capable}
use mobile_proxy.ReverseTunnel.Server.WellFormed.{
  IsWellFormed, step-IsWellFormed, disconnect_session_authority-IsWellFormed,
  remove_tcp_control-IsWellFormed, remove_quic_connection-IsWellFormed,
  replace_session_authority-IsWellFormed, refresh-IsWellFormed,
}
use mobile_proxy.ReverseTunnel.Server.Heartbeats.{mark_heartbeat-IsWellFormed}
use mobile_proxy.ReverseTunnel.Server.Shutdown.{shutdown_tcp-IsWellFormed}
use mobile_proxy.ReverseTunnel.Server.Keeps.{Keeps, serving_keeps}
use mobile_proxy.ReverseTunnel.Server.Steps.{Serving}

take_reserved-IsWellFormed :
    (s : ServerState) (t : ActiveSessionTarget)
    → IsWellFormed s
    → IsWellFormed (take_reserved_tcp_stream s t).0
unfolding take_reserved_tcp_stream lookup
take_reserved-IsWellFormed s t wf = elim (Option-cases (lookup t.node_id s.reserved_tcp)) [
  | inl absent ↦ rw (absent, take_reserved_tcp_stream) wf
  | inr (streams, present) ↦
      rw (present, take_reserved_tcp_stream)
        (elim (Option-cases (pop_matching t.session_id t.authority_id streams)) [
          | inl empty ↦ rw empty wf
          | inr (popped, found) ↦ rw found wf
        ])
]

admit_reserved-IsWellFormed :
    (s : ServerState) (net : Net) (node : String) (sid aid : Uuid) (s' : ServerState)
    → admit_reserved s net node sid ≡ ok (s', aid)
    → IsWellFormed s
    → IsWellFormed s'
admit_reserved-IsWellFormed s net node sid aid s' h wf =
    let (control, present, left) = admit_reserved_ok s net node sid aid s' h in
    let capable = record control { reserve_capable = true } in
    subst IsWellFormed (sym left) (
      step-IsWellFormed s (record s { tcp_controls = insert node capable s.tcp_controls }) node
        (record (view s node) { control = some capable }) (view-insert_control s node capable)
        (consistent-capable (view s node) control (wf node) present) wf)

push_reserved-IsWellFormed :
    (s : ServerState) (node : String) (sid aid : Uuid) (stream : Handle) (s' : ServerState)
    → push_reserved s node sid aid stream ≡ ok s'
    → IsWellFormed s
    → IsWellFormed s'
unfolding push_reserved
push_reserved-IsWellFormed s node sid aid stream s' h wf =
    let (_, h') =
      guard_ok (leb max_reserved_tcp_streams_per_node (length (reserve_of s node)))
        reserve_capacity_reached _ s' h in
    subst IsWellFormed (ok-injective h') wf

open_pending-IsWellFormed :
    (s : ServerState) (t : ActiveSessionTarget) (stream_id : Uuid) (sender : Handle) (now : Instant)
    (wait : ℕ) (s' : ServerState)
    → open_pending s t stream_id sender now wait ≡ ok s'
    → IsWellFormed s
    → IsWellFormed s'
unfolding open_pending
open_pending-IsWellFormed s t stream_id sender now wait s' h wf =
    let (_, h1) =
      guard_ok (leb max_pending_tcp_streams (length s.pending_tcp)) pending_capacity_reached _ s'
        h in
    let (_, h2) =
      guard_ok (leb max_pending_tcp_streams_per_node (pending_for_node s t.node_id))
        node_pending_capacity_reached _ s' h1 in
    subst IsWellFormed (ok-injective h2) wf

keeps-IsWellFormed : Keeps IsWellFormed
unfolding drop_pending cancel_pending_for_authority keepalive_reserved_tcp_streams
keeps-IsWellFormed = record {
  replaces = replace_session_authority-IsWellFormed;
  disconnects = disconnect_session_authority-IsWellFormed;
  refreshes = refresh-IsWellFormed;
  marks = mark_heartbeat-IsWellFormed;
  uncontrols = remove_tcp_control-IsWellFormed;
  unbinds = remove_quic_connection-IsWellFormed;
  cancels = λ s node sid aid wf. wf;
  drops = λ s stream_id wf. wf;
  takes = take_reserved-IsWellFormed;
  keeps_alive = λ s net wf. wf;
  admits = admit_reserved-IsWellFormed;
  pushes = push_reserved-IsWellFormed;
  opens = open_pending-IsWellFormed;
}

-- In a state that is reached from the server's start by steps of `Step`, its critical sections before a
-- shutdown of the control channels begins, the maps agree at every node: a live node has a session that is
-- connected, under the same session id (a session may be marked as connected without its node being
-- live); a bound connection or a control channel carries the ids of the node's live session and
-- authority; and no node has both transports. They agree again after a shutdown that nothing comes
-- between.
pub Serving-IsWellFormed :
    {timeout : ℕ} {s : ServerState}
    → Serving timeout s
    → IsWellFormed s × IsWellFormed (shutdown_tcp s)
unfolding lookup
Serving-IsWellFormed {timeout} {s} serving =
    let wf = serving_keeps IsWellFormed keeps-IsWellFormed (λ n. refl) serving in
    (wf, shutdown_tcp-IsWellFormed s wf)
