-- ===== src/ReverseTunnel/Server/Accept.antt =====
-- crates/reverse-tunnel/src/state.rs: the stream that a device opens is handed to the request that
-- waits for it, once.
use mobile_proxy.Base.{
  String, string_eq, nat_eq, true, false, ◌≡◌, ◌↔◌, refl, ◌∙◌, ap, none, some, [], is_some_and,
  lookup, arith, ◌==◌, Option-cases, inl, inr, ==_refl, ==→eq, ok, err, lookup-remove, ◌⊎◌,
}
use mobile_proxy.ReverseTunnel.Server.Types.{
  Uuid, Instant, Handle, Net, ServerState, PendingTcpProxyRequest, TcpProxyStreamRejection,
  unexpected_stream_id, node_mismatch, session_mismatch, session_is, session_is_fresh, is_expired,
}
use mobile_proxy.ReverseTunnel.Server.Sessions.{tcp_active}
use mobile_proxy.ReverseTunnel.Server.Streams.{
  accept_tcp_proxy_stream, accept_request, settle_request, drop_pending,
}

-- What the code promises of an accepted stream.
pub record Serves (s : ServerState) (net : Net) (node : String) (sid stream_id : Uuid)
    (now : Instant) (requester : Handle) (request : PendingTcpProxyRequest) : Type 0 where
  pub awaited : lookup stream_id s.pending_tcp ≡ some request
  pub same_stream : (request.stream_id == stream_id) ≡ true
  pub same_node : (request.expected_node_id == node) ≡ true
  pub same_session : (request.expected_session_id == sid) ≡ true
  pub in_time : is_expired request now ≡ false
  pub connected :
      is_some_and
        (lookup request.expected_node_id s.sessions)
        (session_is request.expected_session_id)
      ≡ true
  pub fresh :
      session_is_fresh s.session_liveness request.expected_node_id request.expected_session_id
        request.expected_authority_id now s.heartbeat_timeout
      ≡ true
  pub reachable :
      tcp_active s net request.expected_node_id request.expected_session_id
        request.expected_authority_id
      ≡ true
  pub waiting : net.requester_waits request.response_sender ≡ true
  pub handed : request.response_sender ≡ requester

settle_ok :
    (s : ServerState) (net : Net) (request : PendingTcpProxyRequest) (now : Instant)
    (requester : Handle)
    → (settle_request s net request now).1 ≡ ok requester
    → (is_some_and
          (lookup request.expected_node_id s.sessions)
          (session_is request.expected_session_id)
        ≡ true)
      × (session_is_fresh s.session_liveness request.expected_node_id request.expected_session_id
            request.expected_authority_id now s.heartbeat_timeout
          ≡ true)
      × (tcp_active s net request.expected_node_id request.expected_session_id
            request.expected_authority_id
          ≡ true)
      × (net.requester_waits request.response_sender ≡ true)
      × (request.response_sender ≡ requester)
      × ((settle_request s net request now).0.0 ≡ drop_pending s request.stream_id)
unfolding settle_request
settle_ok s net request now requester h = ground arith

accept_request_ok :
    (s : ServerState) (net : Net) (node : String) (sid stream_id : Uuid) (now : Instant)
    (request : PendingTcpProxyRequest) (requester : Handle)
    → (accept_request s net node sid stream_id now (some request)).1 ≡ ok requester
    → ((request.stream_id == stream_id) ≡ true)
      × ((request.expected_node_id == node) ≡ true)
      × ((request.expected_session_id == sid) ≡ true)
      × (is_expired request now ≡ false)
      × ((settle_request s net request now).1 ≡ ok requester)
      × ((accept_request s net node sid stream_id now (some request)).0.0
          ≡ (settle_request s net request now).0.0)
accept_request_ok s net node sid stream_id now request requester h = ground arith

-- An accepted stream's request, which the state holds under its id.
accept_found :
    (s : ServerState) (net : Net) (node : String) (sid stream_id : Uuid) (now : Instant)
    (requester : Handle)
    → (accept_tcp_proxy_stream s net node sid stream_id now).1 ≡ ok requester
    → (request : PendingTcpProxyRequest) × (lookup stream_id s.pending_tcp ≡ some request)
      × (accept_tcp_proxy_stream s net node sid stream_id now
          ≡ accept_request s net node sid stream_id now (some request))
unfolding accept_tcp_proxy_stream
accept_found s net node sid stream_id now requester h =
    elim (Option-cases (lookup stream_id s.pending_tcp)) [
      | inl missing ↦ ground arith
      | inr (request, awaited) ↦
          (request, awaited, ap (accept_request s net node sid stream_id now) awaited)
    ]

settle_served :
    (s : ServerState) (net : Net) (request : PendingTcpProxyRequest) (now : Instant)
    → is_some_and
        (lookup request.expected_node_id s.sessions)
        (session_is request.expected_session_id)
      ≡ true
    → session_is_fresh s.session_liveness request.expected_node_id request.expected_session_id
        request.expected_authority_id now s.heartbeat_timeout
      ≡ true
    → tcp_active s net request.expected_node_id request.expected_session_id
        request.expected_authority_id
      ≡ true
    → net.requester_waits request.response_sender ≡ true
    → (settle_request s net request now).1 ≡ ok request.response_sender
unfolding settle_request session_is_fresh
settle_served s net request now connected fresh reachable waiting = ground arith

-- A stream is handed to a requester exactly when a request waits under its id that names the
-- device's node and session, is not past its deadline, belongs to a session that is connected and an
-- authority that is fresh and whose control channel is open, and whose requester, this one, waits.
pub accept_tcp_proxy_stream-ok_iff :
    (s : ServerState) (net : Net) (node : String) (sid stream_id : Uuid) (now : Instant)
    (requester : Handle)
    → ((accept_tcp_proxy_stream s net node sid stream_id now).1 ≡ ok requester)
      ↔ ((request : PendingTcpProxyRequest) × Serves s net node sid stream_id now requester request)
unfolding accept_tcp_proxy_stream
accept_tcp_proxy_stream-ok_iff s net node sid stream_id now requester = (
  (λ h.
      let (request, awaited, same) = accept_found s net node sid stream_id now requester h in
      let (same_stream, same_node, same_session, in_time, settled, _) =
        accept_request_ok s net node sid stream_id now request requester (rw same at h) in
      let (connected, fresh, reachable, waiting, handed, _) =
        settle_ok s net request now requester settled in
      (
        request,
        record {
          awaited = awaited;
          same_stream = same_stream;
          same_node = same_node;
          same_session = same_session;
          in_time = in_time;
          connected = connected;
          fresh = fresh;
          reachable = reachable;
          waiting = waiting;
          handed = handed;
        },
      )),
  (λ (request, serves).
      rw (serves.awaited, serves.same_stream, serves.same_node, serves.same_session, serves.in_time)
        (settle_served s net request now serves.connected serves.fresh serves.reachable
            serves.waiting
          ∙ ap ok serves.handed)),
)

accept_missing :
    (s : ServerState) (net : Net) (node : String) (sid stream_id : Uuid) (now : Instant)
    → lookup stream_id s.pending_tcp ≡ none
    → accept_tcp_proxy_stream s net node sid stream_id now ≡ ((s, []), err unexpected_stream_id)
unfolding accept_tcp_proxy_stream
accept_missing s net node sid stream_id now h = rw h refl

-- A stream id serves once: after a stream was handed over, the next one under its id is refused as
-- unexpected, whoever brings it and whenever.
pub accept_once :
    (s : ServerState) (net net' : Net) (node node' : String) (sid sid' stream_id : Uuid)
    (now now' : Instant) (requester : Handle)
    → (accept_tcp_proxy_stream s net node sid stream_id now).1 ≡ ok requester
    → accept_tcp_proxy_stream
        (accept_tcp_proxy_stream s net node sid stream_id now).0.0
        net'
        node'
        sid'
        stream_id
        now'
      ≡ (((accept_tcp_proxy_stream s net node sid stream_id now).0.0, []), err unexpected_stream_id)
unfolding drop_pending
accept_once s net net' node node' sid sid' stream_id now now' requester h =
    let (request, awaited, same) = accept_found s net node sid stream_id now requester h in
    let (same_stream, same_node, same_session, in_time, settled, settles) =
      accept_request_ok s net node sid stream_id now request requester (rw same at h) in
    let (_, _, _, _, _, dropped) = settle_ok s net request now requester settled in
    let s' : ServerState = (accept_tcp_proxy_stream s net node sid stream_id now).0.0 in
    let left : s' ≡ drop_pending s stream_id =
      ap (λ r. r.0.0) same
      ∙ settles
      ∙ dropped
      ∙ ap (drop_pending s) (==→eq request.stream_id stream_id same_stream) in
    accept_missing s' net' node' sid' stream_id now' (
      ap (λ (x : ServerState). lookup stream_id x.pending_tcp) left
      ∙ lookup-remove stream_id stream_id s.pending_tcp
      ∙ rw ==_refl refl)

-- A stream that comes under an unknown id, or from another node or session than its request names,
-- changes nothing and closes nothing: the request keeps waiting.
pub mismatch_keeps_state :
    (s : ServerState) (net : Net) (node : String) (sid stream_id : Uuid) (now : Instant)
    (rejection : TcpProxyStreamRejection)
    → (accept_tcp_proxy_stream s net node sid stream_id now).1 ≡ err rejection
    → (rejection ≡ unexpected_stream_id)
      ⊎ (rejection ≡ node_mismatch)
      ⊎ (rejection ≡ session_mismatch)
    → (accept_tcp_proxy_stream s net node sid stream_id now).0 ≡ (s, [])
unfolding accept_tcp_proxy_stream settle_request
mismatch_keeps_state s net node sid stream_id now rejection h kind = ground arith
