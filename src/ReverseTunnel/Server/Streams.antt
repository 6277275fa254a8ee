-- ===== src/ReverseTunnel/Server/Streams.antt =====
-- crates/reverse-tunnel/src/state.rs: the streams that carry proxied traffic. A stream is taken from
-- a session's reserve, or asked of the device and awaited under a stream id.
use mobile_proxy.Base.{
  ℕ, ◌+◌, String, string_eq, nat_eq, Bool, true, false, not, ◌&&◌, Option, none, some, List, [],
  ◌∷◌, ◌==◌, leb, length, filter, is_some_and, filter_option, Map, values, lookup, insert, remove,
  retain, if◌then◌else◌, Result, ok, err, ◌>>=◌, ◌>>◌, fail_if, ok_or,
}
use mathlib.Core.Option
use mobile_proxy.ReverseTunnel.Server.Types.{
  Uuid, Instant, Handle, Net, max_pending_tcp_streams, max_pending_tcp_streams_per_node,
  max_reserved_tcp_streams_per_node, ReservedTcpStream, ActiveSessionTarget, PendingTcpProxyRequest,
  TcpProxyStreamRejection, unexpected_stream_id, node_mismatch, session_mismatch, session_inactive,
  request_expired, requester_closed, ServerState, control_is, live_is, session_is, session_is_fresh,
  is_expired,
}
use mobile_proxy.ReverseTunnel.Server.Sessions.{
  expire_session, tcp_active, remove_tcp_control_for_authority, cancel_pending_for_authority,
}

-- The messages of `bail!` and `context` on these paths.
pub data StreamError : Type 0 where
  session_not_active authority_not_active control_not_active reserve_capacity_reached
        pending_capacity_reached node_pending_capacity_reached :
      StreamError

unfoldable pub target_supports_reserved_tcp : ServerState → ActiveSessionTarget → Bool
target_supports_reserved_tcp s t =
    is_some_and (lookup t.node_id s.tcp_controls)
      (λ control. control_is t.session_id t.authority_id control && control.reserve_capable)

-- `streams.pop()` until a stream of the session and authority comes: `push` and `pop` work at the
-- head of the list here. The streams that are left come back with it.
unfoldable pub pop_matching :
    Uuid → Uuid → List ReservedTcpStream → Option (Handle × List ReservedTcpStream)
pop_matching sid aid [] = none
pop_matching sid aid (reserved ∷ streams) =
    if reserved.session_id == sid && reserved.authority_id == aid
    then some (reserved.stream, streams)
    else pop_matching sid aid streams

abbrev pub taken :
    ServerState → String → Option (Handle × List ReservedTcpStream) → ServerState × Option Handle
taken s node none = (record s { reserved_tcp = remove node s.reserved_tcp }, none)
taken s node (some (stream, rest)) =
    (record s { reserved_tcp = insert node rest s.reserved_tcp }, some stream)

unfoldable pub take_reserved_tcp_stream :
    ServerState → ActiveSessionTarget → ServerState × Option Handle
take_reserved_tcp_stream s t = elim (lookup t.node_id s.reserved_tcp) [
  | none ↦ (s, none)
  | some streams ↦ taken s t.node_id (pop_matching t.session_id t.authority_id streams)
]

-- The first critical section of `register_reserved_tcp_stream`: the current authority, whose control
-- is marked as able to keep a reserve.
unfoldable pub admit_reserved :
    ServerState → Net → String → Uuid → Result StreamError (ServerState × Uuid)
admit_reserved s net node sid = do
  session ← ok_or (filter_option (lookup node s.sessions) (session_is sid)) session_not_active
  live ←
      ok_or
        (filter_option (lookup node s.session_liveness)
          (λ live. live.session_id == session.session_id))
        authority_not_active
  control ←
      ok_or
        (filter_option (lookup node s.tcp_controls) (λ control.
          control_is sid live.authority_id control && not (net.sender_closed control.sender)))
        control_not_active
  ok (
    record s {
      tcp_controls = insert node (record control { reserve_capable = true }) s.tcp_controls;
    },
    live.authority_id,
  )

abbrev pub reserve_of : ServerState → String → List ReservedTcpStream
reserve_of s node = Option.get_or (lookup node s.reserved_tcp) []

-- The second: the stream goes to the node's reserve, unless that is full.
unfoldable pub push_reserved :
    ServerState → String → Uuid → Uuid → Handle → Result StreamError ServerState
push_reserved s node sid aid stream = do
  let streams = reserve_of s node
  fail_if (leb max_reserved_tcp_streams_per_node (length streams)) reserve_capacity_reached
  ok (record s {
    reserved_tcp =
        insert node (record { session_id = sid; authority_id = aid; stream = stream } ∷ streams)
          s.reserved_tcp;
  })

unfoldable pub register_reserved_tcp_stream :
    ServerState → Net → String → Uuid → Handle → Result StreamError ServerState
register_reserved_tcp_stream s net node sid stream = do
  (s', aid) ← admit_reserved s net node sid
  push_reserved s' node sid aid stream

abbrev pub healthy_streams : Net → List ReservedTcpStream → List ReservedTcpStream
healthy_streams net streams = filter (λ reserved. net.write_ok reserved.stream) streams

-- `*streams = healthy` for each node, and `retain` of the reserves that are not empty.
unfoldable pub keep_healthy :
    Net → Map String (List ReservedTcpStream) → Map String (List ReservedTcpStream)
keep_healthy net [] = []
keep_healthy net ((node, streams) ∷ reserves) =
    (node, healthy_streams net streams) ∷ keep_healthy net reserves

abbrev is_filled : List ReservedTcpStream → Bool
is_filled [] = false
is_filled (_ ∷ _) = true

unfoldable pub count_streams : Map String (List ReservedTcpStream) → ℕ
count_streams [] = 0
count_streams ((node, streams) ∷ reserves) = length streams + count_streams reserves

unfoldable pub keepalive_reserved_tcp_streams : ServerState → Net → ServerState × ℕ
keepalive_reserved_tcp_streams s net =
    let healthy = keep_healthy net s.reserved_tcp in
    (
      record s { reserved_tcp = retain (λ _ streams. is_filled streams) healthy },
      count_streams healthy,
    )

-- The state after the lookup, with a session that is no longer fresh expired, the connections that
-- this closes, and the sender.
unfoldable pub select_tcp_control_for_target :
    ServerState → Net → ActiveSessionTarget → Instant → (ServerState × List Handle) × Option Handle
select_tcp_control_for_target s net t now =
    let current = is_some_and (lookup t.node_id s.sessions) (session_is t.session_id) in
    let fresh =
      current
      && session_is_fresh s.session_liveness t.node_id t.session_id t.authority_id now
          s.heartbeat_timeout in
    let selected =
      if fresh
      then Option.map (λ control. control.sender)
          (filter_option (lookup t.node_id s.tcp_controls) (λ control.
            control_is t.session_id t.authority_id control
            && not (net.sender_closed control.sender)))
      else none in
    (
      if current && not fresh
          then expire_session s t.node_id t.session_id t.authority_id
          else (s, []),
      selected,
    )

abbrev pub pending_for_node : ServerState → String → ℕ
pending_for_node s node =
    length (filter (λ request. request.expected_node_id == node) (values s.pending_tcp))

-- The critical section of `open_tcp_proxy_for_target_with_timeout` that records the request.
-- `stream_id` is the `Uuid` drawn for it, and `wait` the time until its deadline.
unfoldable pub open_pending :
    ServerState → ActiveSessionTarget → Uuid → Handle → Instant → ℕ → Result StreamError ServerState
open_pending s t stream_id sender now wait = do
  fail_if (leb max_pending_tcp_streams (length s.pending_tcp)) pending_capacity_reached
  fail_if (leb max_pending_tcp_streams_per_node (pending_for_node s t.node_id))
      node_pending_capacity_reached
  ok (record s {
    pending_tcp =
        insert stream_id
          (record {
            stream_id = stream_id;
            expected_node_id = t.node_id;
            expected_session_id = t.session_id;
            expected_authority_id = t.authority_id;
            created_at = now;
            deadline = now + wait;
            response_sender = sender;
          })
          s.pending_tcp;
  })

-- The drop of `PendingTcpCleanupGuard`, when the caller returns for whatever reason.
unfoldable pub drop_pending : ServerState → Uuid → ServerState
drop_pending s stream_id = record s { pending_tcp = remove stream_id s.pending_tcp }

-- What the caller does when the control channel turns out to be closed.
unfoldable pub abandon_control : ServerState → ActiveSessionTarget → ServerState
abandon_control s t =
    cancel_pending_for_authority
      (remove_tcp_control_for_authority s t.node_id t.session_id t.authority_id) t.node_id
      t.session_id t.authority_id

abbrev pub AcceptOutcome : Type 0
AcceptOutcome = (ServerState × List Handle) × Result TcpProxyStreamRejection Handle

-- The end of the critical section, for a request that matches: it is removed on every path. The
-- result is the requester to which the stream is handed.
unfoldable pub settle_request : ServerState → Net → PendingTcpProxyRequest → Instant → AcceptOutcome
settle_request s net request now =
    let node = request.expected_node_id in
    let sid = request.expected_session_id in
    let aid = request.expected_authority_id in
    let s' = drop_pending s request.stream_id in
    let session_current = is_some_and (lookup node s.sessions) (session_is sid) in
    let authority_current =
      session_current && is_some_and (lookup node s.session_liveness) (live_is sid aid) in
    let session_fresh =
      authority_current
      && session_is_fresh s.session_liveness node sid aid now s.heartbeat_timeout in
    if session_fresh && tcp_active s net node sid aid
    then (
      (s', []),
      if net.requester_waits request.response_sender
          then ok request.response_sender
          else err requester_closed,
    )
    else (
      if authority_current then expire_session s' node sid aid else (s', []),
      err session_inactive,
    )

abbrev pub accept_request :
    ServerState
    → Net
    → String
    → Uuid
    → Uuid
    → Instant
    → Option PendingTcpProxyRequest
    → AcceptOutcome
accept_request s net node sid stream_id now none = ((s, []), err unexpected_stream_id)
accept_request s net node sid stream_id now (some request) =
    if not (request.stream_id == stream_id)
    then ((s, []), err unexpected_stream_id)
    else if not (request.expected_node_id == node)
    then ((s, []), err node_mismatch)
    else if not (request.expected_session_id == sid)
    then ((s, []), err session_mismatch)
    else if is_expired request now
    then ((drop_pending s stream_id, []), err request_expired)
    else settle_request s net request now

unfoldable pub accept_tcp_proxy_stream :
    ServerState → Net → String → Uuid → Uuid → Instant → AcceptOutcome
accept_tcp_proxy_stream s net node sid stream_id now =
    accept_request s net node sid stream_id now (lookup stream_id s.pending_tcp)
