-- ===== src/ReverseTunnel/Server/Examples.antt =====
-- crates/reverse-tunnel/src/state.rs: the theorems at a registry with one device, which a client waits
-- to reach.
use mobile_proxy.Base.{
  not, ◌&&◌, contains_key, is_some_and, leb, ◌-◌, ◌||◌, ◌≡◌, ◌↔◌, inl, inr, refl, String, true,
  false, Option, none, some, List, [], ◌∷◌, ◌++◌, All, ok, err, ◌==◌, string_eq, nat_eq,
  if◌then◌else◌, arith, lookup, insert, remove, retain, filter,
}
use mobile_proxy.ReverseTunnel.Server.Types.{
  session_is, Uuid, Net, quic, tcp, ServerState, remove_session_bound, ActiveSessionTarget,
  PendingTcpProxyRequest, unexpected_stream_id, node_mismatch, empty_state, session_is_fresh,
  is_expired, ReservedTcpStream,
}
use mobile_proxy.ReverseTunnel.Server.Sessions.{
  refresh_session_heartbeat_for_authority, replace_session_authority, disconnect_session_authority,
  shutdown_tcp, disconnect_current, is_current, tcp_active, quic_active,
}
use mobile_proxy.ReverseTunnel.Server.Heartbeats.{mark_heartbeat}
use mobile_proxy.ReverseTunnel.Server.Streams.{
  accept_tcp_proxy_stream, open_pending, take_reserved_tcp_stream, settle_request, pop_matching,
}
use mobile_proxy.ReverseTunnel.Server.Select.{select_active_target, scan_sessions, choose}
use mobile_proxy.ReverseTunnel.Server.View.{view}
use mobile_proxy.ReverseTunnel.Server.WellFormed.{IsWellFormed}
use mobile_proxy.ReverseTunnel.Server.Consistent.{cleared}
use mobile_proxy.ReverseTunnel.Server.Steps.{
  Reach, Serving, start, next, starts, steps, replaced, opened,
}
use mobile_proxy.ReverseTunnel.Server.Reachable.{Serving-IsWellFormed}
use mobile_proxy.ReverseTunnel.Server.Bounded.{IsBounded}
use mobile_proxy.ReverseTunnel.Server.Capacity.{Reach-IsBounded}
use mobile_proxy.ReverseTunnel.Server.Disconnect.{IsCancelled, disconnect-clears}
use mobile_proxy.ReverseTunnel.Server.Fencing.{IsFenced, replaced_authority-IsFenced}
use mobile_proxy.ReverseTunnel.Server.Accept.{
  Serves, accept_tcp_proxy_stream-ok_iff, accept_once, mismatch_keeps_state,
}
use mobile_proxy.ReverseTunnel.Server.Heartbeat.{refresh_session_heartbeat-fresh}
use mobile_proxy.ReverseTunnel.Server.Candidates.{can_serve}
use mobile_proxy.ReverseTunnel.Server.Routing.{
  is_of, select_active_target-can_serve, take_reserved_tcp_stream-some,
}

-- A network on which everything is open.
abbrev calm : Net
calm = record {
  connection_closed = λ _. false;
  sender_closed = λ _. false;
  requester_waits = λ _. true;
  write_ok = λ _. true;
}

-- The device `a`, which came as session 11 under the authority 21 at the time 100.
abbrev connected_state : ServerState
connected_state = (replace_session_authority (empty_state 30) "a" 11 (tcp 5) 21 100).0

abbrev device : ActiveSessionTarget
device = record { node_id = "a"; session_id = 11; authority_id = 21 }

abbrev request : PendingTcpProxyRequest
request = record {
  stream_id = 77;
  expected_node_id = "a";
  expected_session_id = 11;
  expected_authority_id = 21;
  created_at = 101;
  deadline = 113;
  response_sender = 9;
}

abbrev waiting_state : ServerState
waiting_state = record connected_state { pending_tcp = (77, request) ∷ [] }

connected_runs : Serving 30 connected_state
connected_runs = next start (replaced "a" 11 (tcp 5) 21 100)

waiting_runs : Serving 30 waiting_state
unfolding open_pending insert filter replace_session_authority retain
waiting_runs = next connected_runs (opened device 77 9 101 12 waiting_state refl)

waiting_reached : Reach 30 waiting_state
unfolding open_pending insert filter replace_session_authority retain
waiting_reached =
    steps (steps starts (replaced "a" 11 (tcp 5) 21 100))
      (opened device 77 9 101 12 waiting_state refl)

-- A stream that the device opens in time reaches the requester 9.
stream_is_accepted : (accept_tcp_proxy_stream waiting_state calm "a" 11 77 105).1 ≡ ok 9
unfolding accept_tcp_proxy_stream settle_request lookup insert remove retain
    replace_session_authority is_expired session_is_fresh tcp_active
stream_is_accepted = refl

Serving-IsWellFormed_example :
    IsWellFormed waiting_state × IsWellFormed (shutdown_tcp waiting_state)
Serving-IsWellFormed_example = Serving-IsWellFormed waiting_runs

Reach-IsBounded_example : IsBounded waiting_state
Reach-IsBounded_example = Reach-IsBounded waiting_reached

replaced_authority-IsFenced_example :
    IsFenced (replace_session_authority connected_state "a" 12 (quic 6) 22 140).0 "a" 11 21
replaced_authority-IsFenced_example =
    replaced_authority-IsFenced connected_state "a" 12 (quic 6) 22 140 11 21 (λ e. ground arith)

disconnect-clears_example :
    ((n : String)
      → view (disconnect_session_authority waiting_state "a" 11 21).0 n
        ≡ (if "a" == n then cleared (view waiting_state "a") else view waiting_state n))
    × ((any_sid any_aid : Uuid)
        → IsFenced (disconnect_session_authority waiting_state "a" 11 21).0 "a" any_sid any_aid)
    × IsCancelled waiting_state (disconnect_session_authority waiting_state "a" 11 21).0 "a" 11 21
unfolding disconnect_session_authority is_current lookup insert remove replace_session_authority
disconnect-clears_example =
    disconnect-clears waiting_state "a" 11 21 (Serving-IsWellFormed waiting_runs).0 refl

accept_tcp_proxy_stream-ok_iff_example :
    ((accept_tcp_proxy_stream waiting_state calm "a" 11 77 105).1 ≡ ok 9)
    ↔ ((r : PendingTcpProxyRequest) × Serves waiting_state calm "a" 11 77 105 9 r)
accept_tcp_proxy_stream-ok_iff_example =
    accept_tcp_proxy_stream-ok_iff waiting_state calm "a" 11 77 105 9

accept_once_example :
    accept_tcp_proxy_stream
      (accept_tcp_proxy_stream waiting_state calm "a" 11 77 105).0.0
      calm
      "a"
      11
      77
      106
    ≡ (
      ((accept_tcp_proxy_stream waiting_state calm "a" 11 77 105).0.0, []),
      err unexpected_stream_id,
    )
accept_once_example =
    accept_once waiting_state calm calm "a" "a" 11 11 77 105 106 9 stream_is_accepted

stranger_is_rejected :
    (accept_tcp_proxy_stream waiting_state calm "b" 11 77 105).1 ≡ err node_mismatch
unfolding accept_tcp_proxy_stream lookup
stranger_is_rejected = refl

mismatch_keeps_state_example :
    (accept_tcp_proxy_stream waiting_state calm "b" 11 77 105).0 ≡ (waiting_state, [])
mismatch_keeps_state_example =
    mismatch_keeps_state waiting_state calm "b" 11 77 105 node_mismatch stranger_is_rejected
      (inr (inl refl))

device_is_selected : (select_active_target connected_state calm 110 none).1 ≡ some device
unfolding select_active_target scan_sessions choose lookup insert remove replace_session_authority
    quic_active tcp_active
device_is_selected = refl

select_active_target-can_serve_example :
    ((t : ActiveSessionTarget)
      → (select_active_target connected_state calm 110 none).1 ≡ some t
      → (can_serve connected_state calm 110 none t ≡ true)
        × (◌≡◌ {A = Option String} none none
            → (u : ActiveSessionTarget) → can_serve connected_state calm 110 none u ≡ true
            → t ≡ u))
    × ((node : String)
        → ◌≡◌ {A = Option String} none (some node)
        → (select_active_target connected_state calm 110 none).1 ≡ none
        → (u : ActiveSessionTarget) → can_serve connected_state calm 110 none u ≡ false)
select_active_target-can_serve_example =
    select_active_target-can_serve connected_state calm 110 none

abbrev old_stream : ReservedTcpStream
old_stream = record { session_id = 10; authority_id = 20; stream = 3 }

abbrev own_stream : ReservedTcpStream
own_stream = record { session_id = 11; authority_id = 21; stream = 4 }

-- A stream of the session before lies above the device's own.
abbrev stocked_state : ServerState
stocked_state = record connected_state { reserved_tcp = ("a", old_stream ∷ own_stream ∷ []) ∷ [] }

own_stream_is_taken : (take_reserved_tcp_stream stocked_state device).1 ≡ some 4
unfolding take_reserved_tcp_stream pop_matching lookup
own_stream_is_taken = refl

take_reserved_tcp_stream-some_example :
    (above below : List ReservedTcpStream) × (r : ReservedTcpStream) × (lookup "a"
        stocked_state.reserved_tcp
      ≡ some (above ++ r ∷ below))
    × All (λ x. is_of device x ≡ false) above
    × (is_of device r ≡ true)
    × (r.stream ≡ 4)
    × ((take_reserved_tcp_stream stocked_state device).0
        ≡ record stocked_state { reserved_tcp = insert "a" below stocked_state.reserved_tcp })
take_reserved_tcp_stream-some_example =
    take_reserved_tcp_stream-some stocked_state device 4 own_stream_is_taken

heartbeat_is_accepted :
    (refresh_session_heartbeat_for_authority connected_state calm "a" 11 21 110).1 ≡ true
unfolding refresh_session_heartbeat_for_authority lookup insert remove replace_session_authority
    quic_active tcp_active
heartbeat_is_accepted = refl

refresh_session_heartbeat-fresh_example :
    (is_some_and (lookup "a" connected_state.sessions) (session_is 11) ≡ true)
    × ((quic_active connected_state calm "a" 11 21 || tcp_active connected_state calm "a" 11 21)
        ≡ true)
    × (session_is_fresh
          (refresh_session_heartbeat_for_authority connected_state calm "a" 11 21
            110).0.session_liveness
          "a"
          11
          21
          135
          connected_state.heartbeat_timeout
        ≡ leb (135 - 110) connected_state.heartbeat_timeout)
refresh_session_heartbeat-fresh_example =
    refresh_session_heartbeat-fresh connected_state calm "a" 11 21 110 135 heartbeat_is_accepted

-- A heartbeat that is marked after a disconnect leaves a connected session at a node that is not live.
abbrev marked_state : ServerState
marked_state = mark_heartbeat (disconnect_session_authority connected_state "a" 11 21).0 "a" 11 3

marked_after_disconnect :
    is_some_and
      (lookup "a" marked_state.sessions)
      (λ session. session.connected && not (contains_key "a" marked_state.session_liveness))
    ≡ true
unfolding mark_heartbeat disconnect_session_authority is_current disconnect_current lookup insert
    remove replace_session_authority remove_session_bound retain
marked_after_disconnect = refl
