-- ===== src/ReverseTunnel/Server/Sessions.antt =====
-- crates/reverse-tunnel/src/state.rs: how a session's authority is installed, kept alive and taken
-- away. Each function is one critical section under the locks, and returns the new state; the
-- connections that it closes come back beside it.
use mobile_proxy.Base.{
  ℕ, ◌+◌, ◌-◌, ◌^◌, String, string_eq, nat_eq, Bool, true, false, not, ◌&&◌, ◌||◌, Option, none,
  some, List, [], ◌∷◌, ◌==◌, ltb, is_some_and, Map, lookup, insert, remove, retain, if◌then◌else◌,
}
use mobile_proxy.ReverseTunnel.Server.Types.{
  Uuid, Instant, Handle, Net, SessionLiveness, TcpControlChannel, SessionBound, SessionAuthority,
  quic, tcp, PendingTcpProxyRequest, ServerSessionSnapshot, ServerState, control_is, bound_is,
  live_is, session_is, request_is, remove_session_bound, removed_session_bound,
}

abbrev pub saturating_add_one : ℕ → ℕ
saturating_add_one n = if ltb n (2 ^ 64 - 1) then n + 1 else n

abbrev pub accepted_after : Option ServerSessionSnapshot → ℕ
accepted_after none = 1
accepted_after (some existing) = saturating_add_one existing.accepted_connections

abbrev pub to_close : Option SessionBound → List Handle
to_close none = []
to_close (some connection) = connection.value ∷ []

-- The requests that survive a replacement: all but those of the replaced session and authority.
-- (`is_some_and` of no authority is false, so with a session and no authority all requests of that
-- session go.)
unfoldable pub keeps_request :
    String → Option ServerSessionSnapshot → Option SessionLiveness → PendingTcpProxyRequest → Bool
keeps_request node none previous request = true
keeps_request node (some session) previous request =
    not (request.expected_node_id == node)
    || not (request.expected_session_id == session.session_id)
    || is_some_and previous (λ entry. not (request.expected_authority_id == entry.authority_id))

abbrev pub install_connection :
    SessionAuthority → String → Uuid → Uuid → Map String SessionBound → Map String SessionBound
install_connection (quic connection) node sid aid m =
    insert node (record { session_id = sid; authority_id = aid; value = connection }) m
install_connection (tcp sender) node sid aid m = m

abbrev pub install_control :
    SessionAuthority
    → String
    → Uuid
    → Uuid
    → Map String TcpControlChannel
    → Map String TcpControlChannel
install_control (quic connection) node sid aid m = m
install_control (tcp sender) node sid aid m =
    insert node
      (record { session_id = sid; authority_id = aid; sender = sender; reserve_capable = false }) m

-- `aid` is the `Uuid` that the call draws for the new authority.
unfoldable pub replace_session_authority :
    ServerState → String → Uuid → SessionAuthority → Uuid → Instant → ServerState × List Handle
replace_session_authority s node sid authority aid now = (
  record s {
    sessions =
        insert node
          (record {
            node_id = node;
            session_id = sid;
            connected = true;
            accepted_connections = accepted_after (lookup node s.sessions);
            last_heartbeat_sequence = none;
          })
          s.sessions;
    connections = install_connection authority node sid aid (remove node s.connections);
    tcp_controls = install_control authority node sid aid (remove node s.tcp_controls);
    pending_tcp =
        retain
          (λ _ request.
            keeps_request node (lookup node s.sessions) (lookup node s.session_liveness) request)
          s.pending_tcp;
    reserved_tcp = remove node s.reserved_tcp;
    session_liveness =
        insert node (record { session_id = sid; authority_id = aid; last_seen_at = now })
          (remove node s.session_liveness);
  },
  to_close (lookup node s.connections),
)

abbrev pub set_disconnected : ServerSessionSnapshot → ServerSessionSnapshot
set_disconnected session = record session { connected = false }

abbrev pub mark_disconnected :
    String → Map String ServerSessionSnapshot → Map String ServerSessionSnapshot
mark_disconnected node sessions = elim (lookup node sessions) [
  | none ↦ sessions
  | some session ↦ insert node (set_disconnected session) sessions
]

unfoldable pub cancel_pending_for_authority : ServerState → String → Uuid → Uuid → ServerState
cancel_pending_for_authority s node sid aid = record s {
  pending_tcp = retain (λ _ request. not (request_is node sid aid request)) s.pending_tcp;
}

-- The session and the authority that `disconnect_session_authority` wants to be current.
unfoldable pub is_current : ServerState → String → Uuid → Uuid → Bool
is_current s node sid aid =
    is_some_and (lookup node s.sessions) (session_is sid)
    && is_some_and (lookup node s.session_liveness) (live_is sid aid)

unfoldable pub disconnect_current : ServerState → String → Uuid → Uuid → ServerState
disconnect_current s node sid aid = record s {
  sessions = mark_disconnected node s.sessions;
  connections = remove_session_bound s.connections node sid aid;
  tcp_controls =
      if is_some_and (lookup node s.tcp_controls) (control_is sid aid)
      then remove node s.tcp_controls
      else s.tcp_controls;
  pending_tcp = retain (λ _ request. not (request_is node sid aid request)) s.pending_tcp;
  reserved_tcp = remove node s.reserved_tcp;
  session_liveness = remove node s.session_liveness;
}

unfoldable pub disconnect_session_authority :
    ServerState → String → Uuid → Uuid → ServerState × List Handle × Bool
disconnect_session_authority s node sid aid =
    if is_current s node sid aid
    then (
      disconnect_current s node sid aid,
      to_close (removed_session_bound s.connections node sid aid),
      true,
    )
    else (s, [], false)

unfoldable pub expire_session : ServerState → String → Uuid → Uuid → ServerState × List Handle
expire_session s node sid aid =
    let (s', closed, _) = disconnect_session_authority s node sid aid in (s', closed)

unfoldable pub remove_tcp_control_for_authority : ServerState → String → Uuid → Uuid → ServerState
remove_tcp_control_for_authority s node sid aid =
    if is_some_and (lookup node s.tcp_controls) (control_is sid aid)
    then record s {
      tcp_controls = remove node s.tcp_controls;
      reserved_tcp = remove node s.reserved_tcp;
    }
    else s

unfoldable pub remove_quic_connection_for_authority :
    ServerState → String → Uuid → Uuid → ServerState × List Handle
remove_quic_connection_for_authority s node sid aid = (
  record s { connections = remove_session_bound s.connections node sid aid },
  to_close (removed_session_bound s.connections node sid aid),
)

-- Whether a transport of the authority is open.
unfoldable pub quic_active : ServerState → Net → String → Uuid → Uuid → Bool
quic_active s net node sid aid =
    is_some_and (lookup node s.connections)
      (λ connection. bound_is sid aid connection && not (net.connection_closed connection.value))

unfoldable pub tcp_active : ServerState → Net → String → Uuid → Uuid → Bool
tcp_active s net node sid aid =
    is_some_and (lookup node s.tcp_controls)
      (λ control. control_is sid aid control && not (net.sender_closed control.sender))

abbrev pub touch :
    String → Uuid → Uuid → Instant → ServerState → Option SessionLiveness → ServerState × Bool
touch node sid aid now s none = (s, false)
touch node sid aid now s (some entry) =
    if live_is sid aid entry
    then (
      record s {
        session_liveness = insert node (record entry { last_seen_at = now }) s.session_liveness;
      },
      true,
    )
    else (s, false)

unfoldable pub refresh_session_heartbeat_for_authority :
    ServerState → Net → String → Uuid → Uuid → Instant → ServerState × Bool
refresh_session_heartbeat_for_authority s net node sid aid now =
    if is_some_and (lookup node s.sessions) (session_is sid)
    then if quic_active s net node sid aid || tcp_active s net node sid aid
      then touch node sid aid now s (lookup node s.session_liveness)
      else (s, false)
    else (s, false)

unfoldable pub remove_session_liveness : ServerState → String → Uuid → ServerState
remove_session_liveness s node sid =
    if is_some_and (lookup node s.session_liveness) (λ entry. entry.session_id == sid)
    then record s { session_liveness = remove node s.session_liveness }
    else s

-- What the loop of `shutdown_tcp` does to the session of a drained control.
unfoldable pub retire_session : ServerState → String → Uuid → ServerState
retire_session s node sid =
    if is_some_and (lookup node s.sessions) (λ session. session.session_id == sid)
    then record s { sessions = mark_disconnected node s.sessions }
    else s

-- One round of the loop of `shutdown_tcp` over the drained controls.
unfoldable pub retire_control : ServerState → String → Uuid → ServerState
retire_control s node sid = remove_session_liveness (retire_session s node sid) node sid

unfoldable pub retire_controls : ServerState → Map String TcpControlChannel → ServerState
retire_controls s [] = s
retire_controls s ((node, control) ∷ controls) =
    retire_controls (retire_control s node control.session_id) controls

unfoldable pub shutdown_tcp : ServerState → ServerState
shutdown_tcp s =
    retire_controls (record s { tcp_controls = []; pending_tcp = []; reserved_tcp = [] })
      s.tcp_controls
