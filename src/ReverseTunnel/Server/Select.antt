-- ===== src/ReverseTunnel/Server/Select.antt =====
-- crates/reverse-tunnel/src/state.rs: which session a public client is routed to.
use mathlib.Core.List.{head?}
use mathlib.Core.Option
use mobile_proxy.Base.{
  ◌-◌, String, string_eq, nat_eq, Bool, not, ◌&&◌, ◌||◌, Option, none, some, is_some, List, [], ◌∷◌,
  ◌++◌, ◌==◌, leb, is_some_and, filter_option, values, lookup, if◌then◌else◌,
}
use mobile_proxy.ReverseTunnel.Server.Types.{
  Uuid, Instant, Handle, Net, SessionLiveness, ActiveSessionTarget, ServerSessionSnapshot,
  ServerState, bound_is, session_is, session_is_fresh,
}
use mobile_proxy.ReverseTunnel.Server.Sessions.{
  expire_session, remove_quic_connection_for_authority, quic_active, tcp_active,
}

-- The three lists that the loop of `select_active_target` fills.
pub record Scan : Type 0 where
  pub candidates : List ActiveSessionTarget
  pub inactive : List ActiveSessionTarget
  pub closed_connections : List ActiveSessionTarget

abbrev pub empty_scan : Scan
empty_scan = record { candidates = []; inactive = []; closed_connections = [] }

abbrev pub is_closed_connection : ServerState → Net → String → Uuid → Uuid → Bool
is_closed_connection s net node sid aid =
    is_some_and (lookup node s.connections)
      (λ connection. bound_is sid aid connection && net.connection_closed connection.value)

-- A session that is live: its target goes to the candidates or to the inactive ones, and perhaps to
-- the closed connections. The rest of the loop has filled `rest`.
abbrev pub scan_live : ServerState → Net → ServerSessionSnapshot → SessionLiveness → Scan → Scan
scan_live s net session live rest =
    let t : ActiveSessionTarget = record {
      node_id = session.node_id;
      session_id = session.session_id;
      authority_id = live.authority_id;
    } in
    let node = session.node_id in
    let sid = session.session_id in
    let aid = live.authority_id in
    let closed =
      if is_closed_connection s net node sid aid
      then t ∷ rest.closed_connections
      else rest.closed_connections in
    if quic_active s net node sid aid || tcp_active s net node sid aid
    then record rest { candidates = t ∷ rest.candidates; closed_connections = closed }
    else record rest { inactive = t ∷ rest.inactive; closed_connections = closed }

-- `liveness.get(..).filter(..)`, and the `else` branch of `let Some(live)`.
abbrev pub scan_session :
    ServerState → Net → Instant → ServerSessionSnapshot → Option SessionLiveness → Scan → Scan
scan_session s net now session none rest = rest
scan_session s net now session (some live) rest =
    if live.session_id == session.session_id && leb (now - live.last_seen_at) s.heartbeat_timeout
    then scan_live s net session live rest
    else record rest {
      inactive =
          record {
            node_id = session.node_id;
            session_id = live.session_id;
            authority_id = live.authority_id;
          }
          ∷ rest.inactive;
    }

-- `node_id.is_some_and(|expected| session.node_id != expected)`.
abbrev pub is_other : Option String → ServerSessionSnapshot → Bool
is_other expected session = is_some_and expected (λ node. not (session.node_id == node))

unfoldable pub scan_sessions :
    ServerState → Net → Instant → Option String → List ServerSessionSnapshot → Scan
scan_sessions s net now expected [] = empty_scan
scan_sessions s net now expected (session ∷ sessions) =
    let rest = scan_sessions s net now expected sessions in
    if not session.connected || is_other expected session
    then rest
    else scan_session s net now session (lookup session.node_id s.session_liveness) rest

-- With a node asked for, the first candidate; without, the only one.
unfoldable pub choose : Option String → List ActiveSessionTarget → Option ActiveSessionTarget
choose (some node) candidates = head? candidates
choose none [] = none
choose none (t ∷ []) = some t
choose none (t ∷ u ∷ rest) = none

unfoldable pub close_connections :
    ServerState → List ActiveSessionTarget → ServerState × List Handle
close_connections s [] = (s, [])
close_connections s (t ∷ ts) =
    let (s', closed) =
      remove_quic_connection_for_authority s t.node_id t.session_id t.authority_id in
    let (s'', more) = close_connections s' ts in (s'', closed ++ more)

unfoldable pub expire_sessions : ServerState → List ActiveSessionTarget → ServerState × List Handle
expire_sessions s [] = (s, [])
expire_sessions s (t ∷ ts) =
    let (s', closed) = expire_session s t.node_id t.session_id t.authority_id in
    let (s'', more) = expire_sessions s' ts in (s'', closed ++ more)

-- The new state with what was found closed or inactive cleared away, the connections that this
-- closes, and the target.
unfoldable pub select_active_target :
    ServerState
    → Net
    → Instant
    → Option String
    → (ServerState × List Handle) × Option ActiveSessionTarget
select_active_target s net now expected =
    let scan = scan_sessions s net now expected (values s.sessions) in
    let (s', closed) = close_connections s scan.closed_connections in
    let (s'', more) = expire_sessions s' scan.inactive in
    ((s'', closed ++ more), choose expected scan.candidates)

unfoldable pub has_active_session : ServerState → Net → Instant → Option String → Bool
has_active_session s net now expected = is_some ((select_active_target s net now expected).1)

-- The new state and the connections closed, and the connection for the target.
unfoldable pub active_connection_for_target :
    ServerState → Net → ActiveSessionTarget → Instant → (ServerState × List Handle) × Option Handle
active_connection_for_target s net t now =
    let node = t.node_id in
    let sid = t.session_id in
    let aid = t.authority_id in
    let current = is_some_and (lookup node s.sessions) (session_is sid) in
    let fresh =
      current && session_is_fresh s.session_liveness node sid aid now s.heartbeat_timeout in
    let connection =
      if fresh
      then Option.map (λ connection. connection.value)
          (filter_option (lookup node s.connections) (λ connection.
            bound_is sid aid connection && not (net.connection_closed connection.value)))
      else none in
    let (s', closed) =
      if is_closed_connection s net node sid aid
      then remove_quic_connection_for_authority s node sid aid
      else (s, []) in
    let (s'', more) =
      if current && (not fresh || (not (is_some connection) && not (tcp_active s net node sid aid)))
      then expire_session s' node sid aid
      else (s', []) in
    ((s'', closed ++ more), connection)
