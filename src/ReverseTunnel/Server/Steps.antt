-- ===== src/ReverseTunnel/Server/Steps.antt =====
-- crates/reverse-tunnel/src/state.rs and tunnel.rs: the registry's life as a sequence of critical sections, each
-- of which is one step, in any order and with any arguments.
use mobile_proxy.Base.{ℕ, String, string_eq, nat_eq, ◌≡◌, Option, ok, []}
use mobile_proxy.ReverseTunnel.Server.Types.{
  Uuid, Instant, Handle, Net, ServerState, ActiveSessionTarget, SessionAuthority, empty_state,
}
use mobile_proxy.ReverseTunnel.Server.Sessions.{
  shutdown_tcp, retire_session, remove_session_liveness, remove_tcp_control_for_authority,
  cancel_pending_for_authority, remove_quic_connection_for_authority, replace_session_authority,
  disconnect_session_authority, refresh_session_heartbeat_for_authority,
}
use mobile_proxy.ReverseTunnel.Server.Heartbeats.{mark_heartbeat}
use mobile_proxy.ReverseTunnel.Server.Streams.{
  take_reserved_tcp_stream, admit_reserved, push_reserved, select_tcp_control_for_target,
  open_pending, drop_pending, abandon_control, accept_tcp_proxy_stream,
  keepalive_reserved_tcp_streams,
}
use mobile_proxy.ReverseTunnel.Server.Select.{select_active_target, active_connection_for_target}

-- One critical section. The streams that are registered come in two steps, since the code lets go of
-- the locks in between.
pub data Step (s : ServerState) : ServerState → Type 0 where
  replaced :
      (node : String) (sid : Uuid) (authority : SessionAuthority) (aid : Uuid) (now : Instant)
      → Step s (replace_session_authority s node sid authority aid now).0
  disconnected :
      (node : String) (sid aid : Uuid) → Step s (disconnect_session_authority s node sid aid).0
  refreshed :
      (net : Net) (node : String) (sid aid : Uuid) (now : Instant)
      → Step s (refresh_session_heartbeat_for_authority s net node sid aid now).0
  heartbeat_marked :
      (node : String) (sid : Uuid) (sequence : ℕ) → Step s (mark_heartbeat s node sid sequence)
  control_removed :
      (node : String) (sid aid : Uuid) → Step s (remove_tcp_control_for_authority s node sid aid)
  requests_cancelled :
      (node : String) (sid aid : Uuid) → Step s (cancel_pending_for_authority s node sid aid)
  control_abandoned : (t : ActiveSessionTarget) → Step s (abandon_control s t)
  connection_removed :
      (node : String) (sid aid : Uuid)
      → Step s (remove_quic_connection_for_authority s node sid aid).0
  admitted :
      (net : Net) (node : String) (sid aid : Uuid) (s' : ServerState)
      → admit_reserved s net node sid ≡ ok (s', aid)
      → Step s s'
  pushed :
      (node : String) (sid aid : Uuid) (stream : Handle) (s' : ServerState)
      → push_reserved s node sid aid stream ≡ ok s'
      → Step s s'
  reserved_taken : (t : ActiveSessionTarget) → Step s (take_reserved_tcp_stream s t).0
  kept_alive : (net : Net) → Step s (keepalive_reserved_tcp_streams s net).0
  control_selected :
      (net : Net) (t : ActiveSessionTarget) (now : Instant)
      → Step s (select_tcp_control_for_target s net t now).0.0
  opened :
      (t : ActiveSessionTarget) (stream_id : Uuid) (sender : Handle) (now : Instant) (wait : ℕ)
      (s' : ServerState)
      → open_pending s t stream_id sender now wait ≡ ok s'
      → Step s s'
  dropped : (stream_id : Uuid) → Step s (drop_pending s stream_id)
  accepted :
      (net : Net) (node : String) (sid stream_id : Uuid) (now : Instant)
      → Step s (accept_tcp_proxy_stream s net node sid stream_id now).0.0
  target_selected :
      (net : Net) (now : Instant) (expected : Option String)
      → Step s (select_active_target s net now expected).0.0
  connection_selected :
      (net : Net) (t : ActiveSessionTarget) (now : Instant)
      → Step s (active_connection_for_target s net t now).0.0

-- A critical section of the shutdown of the control channels, or the whole shutdown when nothing comes
-- between them.
pub data ShutdownStep (s : ServerState) : ServerState → Type 0 where
  controls_drained : ShutdownStep s (record s { tcp_controls = [] })
  requests_cleared : ShutdownStep s (record s { pending_tcp = [] })
  reserves_cleared : ShutdownStep s (record s { reserved_tcp = [] })
  session_retired : (node : String) (sid : Uuid) → ShutdownStep s (retire_session s node sid)
  liveness_removed :
      (node : String) (sid : Uuid) → ShutdownStep s (remove_session_liveness s node sid)
  shut_down : ShutdownStep s (shutdown_tcp s)

-- The states that are reached before a shutdown begins.
pub data Serving (timeout : ℕ) : ServerState → Type 0 where
  start : Serving timeout (empty_state timeout)
  next : {s s' : ServerState} → Serving timeout s → Step s s' → Serving timeout s'

-- All states that are reached.
pub data Reach (timeout : ℕ) : ServerState → Type 0 where
  starts : Reach timeout (empty_state timeout)
  steps : {s s' : ServerState} → Reach timeout s → Step s s' → Reach timeout s'
  shuts : {s s' : ServerState} → Reach timeout s → ShutdownStep s s' → Reach timeout s'
