-- ===== src/ReverseTunnel/Server/Capacity.antt =====
-- crates/reverse-tunnel/src/state.rs: the limits on the requests that wait and on the streams kept in
-- reserve hold in every state the server reaches.
use mobile_proxy.Base.{
  is_some_and, ℕ, ◌≤◌, ◌+◌, String, string_eq, nat_eq, ◌≡◌, subst, sym, some, List, [], ◌∷◌, lookup,
  Map, counted-insert, counted-insert_other, AllValues, All-retain, All-remove, All-insert,
  All-lookup, ◌==◌, Bool-cases, Option-cases, inl, inr, ==→eq, ok, guard_ok, leb, length, filter,
  ok-injective, arith, length-filter-le, length-insert-le,
}
use mobile_proxy.ReverseTunnel.Server.Types.{
  max_pending_tcp_streams, max_pending_tcp_streams_per_node, max_reserved_tcp_streams_per_node,
  ReservedTcpStream, Uuid, Instant, Handle, Net, ServerState, ActiveSessionTarget,
  PendingTcpProxyRequest,
}
use mobile_proxy.ReverseTunnel.Server.Sessions.{
  retire_session, remove_session_liveness, shutdown_tcp, replace_session_authority,
  remove_quic_connection_for_authority, cancel_pending_for_authority,
}
use mobile_proxy.ReverseTunnel.Server.Heartbeats.{mark_heartbeat}
use mobile_proxy.ReverseTunnel.Server.Streams.{
  take_reserved_tcp_stream, admit_reserved, push_reserved, keepalive_reserved_tcp_streams,
  open_pending, drop_pending, pop_matching, reserve_capacity_reached, pending_capacity_reached,
  node_pending_capacity_reached, reserve_of, pending_for_node, keep_healthy,
}
use mobile_proxy.ReverseTunnel.Server.Bounded.{
  ReserveFits, IsBounded, retain-IsBounded, remove-IsBounded, disconnect-IsBounded,
  refresh-IsBounded, remove_tcp_control-IsBounded,
}
use mobile_proxy.ReverseTunnel.Server.Admit.{admit_reserved_ok}
use mobile_proxy.ReverseTunnel.Server.Steps.{
  Reach, ShutdownStep, controls_drained, requests_cleared, reserves_cleared, session_retired,
  liveness_removed, shut_down,
}
use mobile_proxy.ReverseTunnel.Server.Shutdown.{retire_controls-keeps_streams}
use mobile_proxy.ReverseTunnel.Server.Keeps.{Keeps, reach_keeps}

pop_matching_le :
    (sid aid : Uuid) (streams : List ReservedTcpStream) (popped : Handle × List ReservedTcpStream)
    → pop_matching sid aid streams ≡ some popped
    → length popped.1 ≤ length streams
unfolding pop_matching
pop_matching_le sid aid [] popped h = ground arith
pop_matching_le sid aid (reserved ∷ streams) popped h =
    ground (arith, pop_matching_le sid aid streams popped)

take_reserved-IsBounded :
    (s : ServerState) (t : ActiveSessionTarget)
    → IsBounded s
    → IsBounded (take_reserved_tcp_stream s t).0
unfolding take_reserved_tcp_stream lookup
take_reserved-IsBounded s t (pending, reserve) =
    elim (Option-cases (lookup t.node_id s.reserved_tcp)) [
      | inl absent ↦ rw (absent, take_reserved_tcp_stream) (pending, reserve)
      | inr (streams, present) ↦
          rw (present, take_reserved_tcp_stream)
            (elim (Option-cases (pop_matching t.session_id t.authority_id streams)) [
              | inl empty ↦
                  rw empty (pending, All-remove ReserveFits t.node_id s.reserved_tcp reserve)
              | inr (popped, found) ↦
                  let le = pop_matching_le t.session_id t.authority_id streams popped found in
                  let fits : length streams ≤ 32 =
                    All-lookup ReserveFits t.node_id s.reserved_tcp streams present reserve in
                  rw found (
                    pending,
                    All-insert ReserveFits t.node_id popped.1 s.reserved_tcp (omega arith) reserve,
                  )
            ])
    ]

keep_healthy-ReserveFits :
    (net : Net) (m : Map String (List ReservedTcpStream))
    → AllValues ReserveFits m
    → AllValues ReserveFits (keep_healthy net m)
unfolding keep_healthy
keep_healthy-ReserveFits net [] h = tt
keep_healthy-ReserveFits net ((node, streams) ∷ m) h = (
  let le = length-filter-le (λ reserved. net.write_ok reserved.stream) streams in
      let fits : length streams ≤ 32 = h.0 in omega arith,
  keep_healthy-ReserveFits net m h.1,
)

admit_reserved-IsBounded :
    (s : ServerState) (net : Net) (node : String) (sid aid : Uuid) (s' : ServerState)
    → admit_reserved s net node sid ≡ ok (s', aid)
    → IsBounded s
    → IsBounded s'
admit_reserved-IsBounded s net node sid aid s' e h =
    let (_, _, left) = admit_reserved_ok s net node sid aid s' e in subst IsBounded (sym left) h

push_reserved-IsBounded :
    (s : ServerState) (node : String) (sid aid : Uuid) (stream : Handle) (s' : ServerState)
    → push_reserved s node sid aid stream ≡ ok s'
    → IsBounded s
    → IsBounded s'
unfolding push_reserved
push_reserved-IsBounded s node sid aid stream s' e (pending, reserve) =
    let (room, done) =
      guard_ok (leb max_reserved_tcp_streams_per_node (length (reserve_of s node)))
        reserve_capacity_reached _ s' e in
    subst IsBounded (ok-injective done)
      (pending, All-insert ReserveFits node _ s.reserved_tcp (ground arith) reserve)

open_pending-IsBounded :
    (s : ServerState) (t : ActiveSessionTarget) (stream_id : Uuid) (sender : Handle) (now : Instant)
    (wait : ℕ) (s' : ServerState)
    → open_pending s t stream_id sender now wait ≡ ok s'
    → IsBounded s
    → IsBounded s'
unfolding open_pending
open_pending-IsBounded s t stream_id sender now wait s' e ((total, per_node), reserve) =
    let (room, e1) =
      guard_ok (leb max_pending_tcp_streams (length s.pending_tcp)) pending_capacity_reached _ s'
        e in
    let (node_room, e2) =
      guard_ok (leb max_pending_tcp_streams_per_node (pending_for_node s t.node_id))
        node_pending_capacity_reached _ s' e1 in
    let request : PendingTcpProxyRequest = record {
      stream_id = stream_id;
      expected_node_id = t.node_id;
      expected_session_id = t.session_id;
      expected_authority_id = t.authority_id;
      created_at = now;
      deadline = now + wait;
      response_sender = sender;
    } in
    subst IsBounded (ok-injective e2) (
      (
        let le = length-insert-le stream_id request s.pending_tcp in ground arith,
        (λ n. elim (Bool-cases (t.node_id == n)) [
          | inl same ↦
              let le =
                counted-insert (λ r. r.expected_node_id == n) stream_id request s.pending_tcp in
              let at_node : pending_for_node s n + 1 ≤ 32 =
                rw (← ==→eq t.node_id n same) (ground arith) in
              omega arith
          | inr other ↦
              let le =
                counted-insert_other (λ r. r.expected_node_id == n) stream_id request s.pending_tcp
                  other in
              let le' = per_node n in omega arith
        ]),
      ),
      reserve,
    )

shutdown_tcp-IsBounded : (s : ServerState) → IsBounded (shutdown_tcp s)
unfolding shutdown_tcp filter
shutdown_tcp-IsBounded s =
    let (pending, reserved) =
      retire_controls-keeps_streams
        (record s { tcp_controls = []; pending_tcp = []; reserved_tcp = [] }) s.tcp_controls in
    rw (pending, reserved) ((omega arith, λ n. omega arith), tt)

mark_heartbeat-IsBounded :
    (s : ServerState) (node : String) (sid : Uuid) (sequence : ℕ)
    → IsBounded s
    → IsBounded (mark_heartbeat s node sid sequence)
unfolding mark_heartbeat
mark_heartbeat-IsBounded s node sid sequence h = elim (Option-cases (lookup node s.sessions)) [
  | inl absent ↦ rw absent h
  | inr (session, present) ↦ rw present (elim (Bool-cases (session.session_id == sid)) [
    | inl same ↦ rw same h
    | inr other ↦ rw other h
  ])
]

keeps-IsBounded : Keeps IsBounded
unfolding replace_session_authority remove_quic_connection_for_authority drop_pending
    cancel_pending_for_authority keepalive_reserved_tcp_streams
keeps-IsBounded = record {
  replaces = λ s node sid authority aid now h.
      (retain-IsBounded _ s.pending_tcp h.0, All-remove ReserveFits node s.reserved_tcp h.1);
  disconnects = disconnect-IsBounded;
  refreshes = refresh-IsBounded;
  marks = mark_heartbeat-IsBounded;
  uncontrols = remove_tcp_control-IsBounded;
  unbinds = λ s node sid aid h. h;
  cancels = λ s node sid aid h. (retain-IsBounded _ s.pending_tcp h.0, h.1);
  drops = λ s stream_id h. (remove-IsBounded stream_id s.pending_tcp h.0, h.1);
  takes = take_reserved-IsBounded;
  keeps_alive = λ s net h. (
    h.0,
    All-retain ReserveFits _ (keep_healthy net s.reserved_tcp)
        (keep_healthy-ReserveFits net s.reserved_tcp h.1),
  );
  admits = admit_reserved-IsBounded;
  pushes = push_reserved-IsBounded;
  opens = open_pending-IsBounded;
}

shutdown-IsBounded : (s s' : ServerState) → ShutdownStep s s' → IsBounded s → IsBounded s'
unfolding filter retire_session remove_session_liveness
shutdown-IsBounded s _ controls_drained h = h
shutdown-IsBounded s _ requests_cleared h = ((omega arith, λ n. omega arith), h.1)
shutdown-IsBounded s _ reserves_cleared h = (h.0, tt)
shutdown-IsBounded s _ (session_retired node sid) h =
    elim (Bool-cases
      (is_some_and (lookup node s.sessions) (λ session. session.session_id == sid))) [
        | inl own ↦ rw own h
        | inr other ↦ rw other h
      ]
shutdown-IsBounded s _ (liveness_removed node sid) h =
    elim (Bool-cases
      (is_some_and (lookup node s.session_liveness) (λ entry. entry.session_id == sid))) [
        | inl own ↦ rw own h
        | inr other ↦ rw other h
      ]
shutdown-IsBounded s _ shut_down h = shutdown_tcp-IsBounded s

-- In a state that is reached from the server's start by its critical sections, those of `Step` and those
-- of a shutdown, at most 256 requests wait, at most 32 of them for any one node, and no node has more
-- than 32 streams in reserve.
pub Reach-IsBounded : {timeout : ℕ} {s : ServerState} → Reach timeout s → IsBounded s
unfolding filter
Reach-IsBounded reach =
    reach_keeps IsBounded keeps-IsBounded shutdown-IsBounded ((omega arith, λ n. omega arith), tt)
      reach
