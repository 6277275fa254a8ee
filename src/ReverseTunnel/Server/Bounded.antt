-- ===== src/ReverseTunnel/Server/Bounded.antt =====
-- crates/reverse-tunnel/src/state.rs: the limits on the requests that wait and on the streams kept in
-- reserve, and the operations on sessions, which keep to them.
use mobile_proxy.Base.{
  ◌≤◌, String, string_eq, nat_eq, Bool, Option, none, some, List, lookup, remove, retain, Map,
  counted, counted-retain, counted-remove, AllValues, All-remove, ◌==◌, Bool-cases, inl, inr, ◌||◌,
  is_some_and, length, arith, length-retain-le, length-remove-le,
}
use mobile_proxy.ReverseTunnel.Server.Types.{
  max_pending_tcp_streams, max_pending_tcp_streams_per_node, max_reserved_tcp_streams_per_node,
  ReservedTcpStream, Uuid, Instant, Net, ServerState, PendingTcpProxyRequest, SessionLiveness,
  control_is, session_is, live_is,
}
use mobile_proxy.ReverseTunnel.Server.Sessions.{
  disconnect_session_authority, disconnect_current, is_current,
  refresh_session_heartbeat_for_authority, touch, quic_active, tcp_active,
  remove_tcp_control_for_authority,
}

abbrev pub ReserveFits : List ReservedTcpStream → Type 0
ReserveFits streams = length streams ≤ max_reserved_tcp_streams_per_node

abbrev pub IsBoundedPending : Map Uuid PendingTcpProxyRequest → Type 0
IsBoundedPending m =
    (length m ≤ max_pending_tcp_streams)
    × ((n : String)
        → counted (λ request. request.expected_node_id == n) m ≤ max_pending_tcp_streams_per_node)

abbrev pub IsBounded : ServerState → Type 0
IsBounded s = IsBoundedPending s.pending_tcp × AllValues ReserveFits s.reserved_tcp

pub retain-IsBounded :
    (q : Uuid → PendingTcpProxyRequest → Bool) (m : Map Uuid PendingTcpProxyRequest)
    → IsBoundedPending m
    → IsBoundedPending (retain q m)
retain-IsBounded q m (total, per_node) = (
  let le = length-retain-le q m in omega arith,
  (λ n.
      let le = counted-retain (λ request. request.expected_node_id == n) q m in
      let le' = per_node n in omega arith),
)

pub remove-IsBounded :
    (k : Uuid) (m : Map Uuid PendingTcpProxyRequest)
    → IsBoundedPending m
    → IsBoundedPending (remove k m)
remove-IsBounded k m (total, per_node) = (
  let le = length-remove-le k m in omega arith,
  (λ n.
      let le = counted-remove (λ request. request.expected_node_id == n) k m in
      let le' = per_node n in omega arith),
)

pub disconnect-IsBounded :
    (s : ServerState) (node : String) (sid aid : Uuid)
    → IsBounded s
    → IsBounded (disconnect_session_authority s node sid aid).0
unfolding disconnect_session_authority disconnect_current
disconnect-IsBounded s node sid aid (pending, reserve) =
    elim (Bool-cases (is_current s node sid aid)) [
      | inl current ↦ rw current (
        retain-IsBounded _ s.pending_tcp pending,
        All-remove ReserveFits node s.reserved_tcp reserve,
      )
      | inr stale ↦ rw stale (pending, reserve)
    ]

touch-IsBounded :
    (s : ServerState) (node : String) (sid aid : Uuid) (now : Instant)
    → IsBounded s
    → (live : Option SessionLiveness) → IsBounded (touch node sid aid now s live).0
touch-IsBounded s node sid aid now h none = h
touch-IsBounded s node sid aid now h (some entry) = elim (Bool-cases (live_is sid aid entry)) [
  | inl live ↦ rw live h
  | inr other ↦ rw other h
]

pub refresh-IsBounded :
    (s : ServerState) (net : Net) (node : String) (sid aid : Uuid) (now : Instant)
    → IsBounded s
    → IsBounded (refresh_session_heartbeat_for_authority s net node sid aid now).0
unfolding refresh_session_heartbeat_for_authority
refresh-IsBounded s net node sid aid now h =
    elim (Bool-cases (is_some_and (lookup node s.sessions) (session_is sid))) [
      | inl connected ↦
          rw connected
            (elim (Bool-cases (quic_active s net node sid aid || tcp_active s net node sid aid)) [
              | inl active ↦
                  rw active (touch-IsBounded s node sid aid now h (lookup node s.session_liveness))
              | inr idle ↦ rw idle h
            ])
      | inr gone ↦ rw gone h
    ]

pub remove_tcp_control-IsBounded :
    (s : ServerState) (node : String) (sid aid : Uuid)
    → IsBounded s
    → IsBounded (remove_tcp_control_for_authority s node sid aid)
unfolding remove_tcp_control_for_authority
remove_tcp_control-IsBounded s node sid aid (pending, reserve) =
    elim (Bool-cases (is_some_and (lookup node s.tcp_controls) (control_is sid aid))) [
      | inl matching ↦ rw matching (pending, All-remove ReserveFits node s.reserved_tcp reserve)
      | inr other ↦ rw other (pending, reserve)
    ]
