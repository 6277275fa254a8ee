-- ===== src/ReverseTunnel/Server/Keeps.antt =====
-- crates/reverse-tunnel/src/state.rs: what a property of the registry has to bear to hold after any
-- steps. The longer critical sections are made of the shorter ones, and keep what these keep.
use mobile_proxy.Base.{
  ℕ, String, string_eq, nat_eq, Bool, true, false, ◌≡◌, Option, none, some, List, [], ◌∷◌, lookup,
  ◌==◌, if◌then◌else◌, Bool-cases, inl, inr, ok,
}
use mobile_proxy.ReverseTunnel.Server.Types.{
  Uuid, Instant, Handle, Net, ServerState, ActiveSessionTarget, PendingTcpProxyRequest, is_expired,
  SessionAuthority, empty_state,
}
use mobile_proxy.ReverseTunnel.Server.Sessions.{
  expire_session, remove_quic_connection_for_authority, cancel_pending_for_authority,
  replace_session_authority, disconnect_session_authority, refresh_session_heartbeat_for_authority,
  remove_tcp_control_for_authority,
}
use mobile_proxy.ReverseTunnel.Server.Heartbeats.{mark_heartbeat}
use mobile_proxy.ReverseTunnel.Server.Streams.{
  take_reserved_tcp_stream, admit_reserved, push_reserved, select_tcp_control_for_target,
  open_pending, drop_pending, abandon_control, accept_request, settle_request,
  accept_tcp_proxy_stream, AcceptOutcome, keepalive_reserved_tcp_streams,
}
use mobile_proxy.ReverseTunnel.Server.Select.{
  close_connections, expire_sessions, select_active_target, active_connection_for_target,
}
use mobile_proxy.ReverseTunnel.Server.Steps.{
  Step, Reach, Serving, ShutdownStep, control_removed, requests_cancelled, starts, steps, shuts,
  replaced, disconnected, refreshed, heartbeat_marked, control_abandoned, connection_removed,
  admitted, pushed, reserved_taken, kept_alive, control_selected, opened, dropped, accepted,
  target_selected, connection_selected, start, next,
}

-- What a property of the state has to bear for every critical section to keep it. The sections that
-- are made of these keep it, too.
pub record Keeps (P : ServerState → Type 0) : Type 0 where
  pub replaces :
      (s : ServerState) (node : String) (sid : Uuid) (authority : SessionAuthority) (aid : Uuid)
      (now : Instant)
      → P s
      → P (replace_session_authority s node sid authority aid now).0
  pub disconnects :
      (s : ServerState) (node : String) (sid aid : Uuid)
      → P s
      → P (disconnect_session_authority s node sid aid).0
  pub refreshes :
      (s : ServerState) (net : Net) (node : String) (sid aid : Uuid) (now : Instant)
      → P s
      → P (refresh_session_heartbeat_for_authority s net node sid aid now).0
  pub marks :
      (s : ServerState) (node : String) (sid : Uuid) (sequence : ℕ)
      → P s
      → P (mark_heartbeat s node sid sequence)
  pub uncontrols :
      (s : ServerState) (node : String) (sid aid : Uuid)
      → P s
      → P (remove_tcp_control_for_authority s node sid aid)
  pub unbinds :
      (s : ServerState) (node : String) (sid aid : Uuid)
      → P s
      → P (remove_quic_connection_for_authority s node sid aid).0
  pub cancels :
      (s : ServerState) (node : String) (sid aid : Uuid)
      → P s
      → P (cancel_pending_for_authority s node sid aid)
  pub drops : (s : ServerState) (stream_id : Uuid) → P s → P (drop_pending s stream_id)
  pub takes : (s : ServerState) (t : ActiveSessionTarget) → P s → P (take_reserved_tcp_stream s t).0
  pub keeps_alive : (s : ServerState) (net : Net) → P s → P (keepalive_reserved_tcp_streams s net).0
  pub admits :
      (s : ServerState) (net : Net) (node : String) (sid aid : Uuid) (s' : ServerState)
      → admit_reserved s net node sid ≡ ok (s', aid)
      → P s
      → P s'
  pub pushes :
      (s : ServerState) (node : String) (sid aid : Uuid) (stream : Handle) (s' : ServerState)
      → push_reserved s node sid aid stream ≡ ok s'
      → P s
      → P s'
  pub opens :
      (s : ServerState) (t : ActiveSessionTarget) (stream_id : Uuid) (sender : Handle)
      (now : Instant) (wait : ℕ) (s' : ServerState)
      → open_pending s t stream_id sender now wait ≡ ok s'
      → P s
      → P s'

module _ (P : ServerState → Type 0) (keeps : Keeps P) where
  expire_session_keeps :
      (s : ServerState) (node : String) (sid aid : Uuid) → P s → P (expire_session s node sid aid).0
  unfolding expire_session
  expire_session_keeps s node sid aid h = keeps.disconnects s node sid aid h

  close_connections_keeps :
      (s : ServerState) (ts : List ActiveSessionTarget) → P s → P (close_connections s ts).0
  unfolding close_connections
  close_connections_keeps s [] h = h
  close_connections_keeps s (t ∷ ts) h =
      close_connections_keeps
        (remove_quic_connection_for_authority s t.node_id t.session_id t.authority_id).0 ts
        (keeps.unbinds s t.node_id t.session_id t.authority_id h)

  expire_sessions_keeps :
      (s : ServerState) (ts : List ActiveSessionTarget) → P s → P (expire_sessions s ts).0
  unfolding expire_sessions
  expire_sessions_keeps s [] h = h
  expire_sessions_keeps s (t ∷ ts) h =
      expire_sessions_keeps (expire_session s t.node_id t.session_id t.authority_id).0 ts
        (expire_session_keeps s t.node_id t.session_id t.authority_id h)

  -- Of two outcomes whose states have the property, the one that a test takes has it.
  if_keeps {ℓ} :
      {A : Type ℓ} (state : A → ServerState) (b : Bool) (x y : A)
      → P (state x)
      → P (state y)
      → P (state (if b then x else y))
  if_keeps state true x y hx hy = hx
  if_keeps state false x y hx hy = hy

  select_active_target_keeps :
      (s : ServerState) (net : Net) (now : Instant) (expected : Option String)
      → P s
      → P (select_active_target s net now expected).0.0
  unfolding select_active_target
  select_active_target_keeps s net now expected h =
      expire_sessions_keeps _ _ (close_connections_keeps s _ h)

  active_connection_keeps :
      (s : ServerState) (net : Net) (t : ActiveSessionTarget) (now : Instant)
      → P s
      → P (active_connection_for_target s net t now).0.0
  unfolding active_connection_for_target
  active_connection_keeps s net t now h =
      let closed =
        if_keeps (λ (r : ServerState × List Handle). r.0) _
          (remove_quic_connection_for_authority s t.node_id t.session_id t.authority_id) (s, [])
          (keeps.unbinds s t.node_id t.session_id t.authority_id h) h in
      if_keeps (λ (r : ServerState × List Handle). r.0) _ _ _
        (expire_session_keeps _ t.node_id t.session_id t.authority_id closed) closed

  select_tcp_control_keeps :
      (s : ServerState) (net : Net) (t : ActiveSessionTarget) (now : Instant)
      → P s
      → P (select_tcp_control_for_target s net t now).0.0
  unfolding select_tcp_control_for_target
  select_tcp_control_keeps s net t now h =
      if_keeps (λ (r : ServerState × List Handle). r.0) _ _ _
        (expire_session_keeps s t.node_id t.session_id t.authority_id h) h

  abandon_control_keeps :
      (s : ServerState) (t : ActiveSessionTarget) → P s → P (abandon_control s t)
  unfolding abandon_control cancel_pending_for_authority
  abandon_control_keeps s t h =
      keeps.cancels (remove_tcp_control_for_authority s t.node_id t.session_id t.authority_id)
        t.node_id t.session_id t.authority_id
        (keeps.uncontrols s t.node_id t.session_id t.authority_id h)

  settle_request_keeps :
      (s : ServerState) (net : Net) (request : PendingTcpProxyRequest) (now : Instant)
      → P s
      → P (settle_request s net request now).0.0
  unfolding settle_request drop_pending
  settle_request_keeps s net request now h =
      let dropped = keeps.drops s request.stream_id h in
      let expired =
        expire_session_keeps (drop_pending s request.stream_id) request.expected_node_id
          request.expected_session_id request.expected_authority_id dropped in
      if_keeps (λ (r : AcceptOutcome). r.0.0) _ _ _ dropped
        (if_keeps (λ (r : ServerState × List Handle). r.0) _ _ _ expired dropped)

  accept_request_keeps :
      (s : ServerState) (net : Net) (node : String) (sid stream_id : Uuid) (now : Instant)
      (found : Option PendingTcpProxyRequest)
      → P s
      → P (accept_request s net node sid stream_id now found).0.0
  unfolding drop_pending
  accept_request_keeps s net node sid stream_id now none h = h
  accept_request_keeps s net node sid stream_id now (some request) h =
      elim (Bool-cases (request.stream_id == stream_id)) [
        | inr other ↦ rw other h
        | inl same ↦ rw same (elim (Bool-cases (request.expected_node_id == node)) [
          | inr other ↦ rw other h
          | inl here ↦ rw here (elim (Bool-cases (request.expected_session_id == sid)) [
            | inr other ↦ rw other h
            | inl own ↦ rw own (elim (Bool-cases (is_expired request now)) [
              | inl late ↦ rw late (keeps.drops s stream_id h)
              | inr timely ↦ rw timely (settle_request_keeps s net request now h)
            ])
          ])
        ])
      ]

  accept_keeps :
      (s : ServerState) (net : Net) (node : String) (sid stream_id : Uuid) (now : Instant)
      → P s
      → P (accept_tcp_proxy_stream s net node sid stream_id now).0.0
  unfolding accept_tcp_proxy_stream
  accept_keeps s net node sid stream_id now h =
      accept_request_keeps s net node sid stream_id now (lookup stream_id s.pending_tcp) h

  step_keeps : (s s' : ServerState) → Step s s' → P s → P s'
  unfolding drop_pending keepalive_reserved_tcp_streams
  step_keeps s _ (replaced node sid authority aid now) h =
      keeps.replaces s node sid authority aid now h
  step_keeps s _ (disconnected node sid aid) h = keeps.disconnects s node sid aid h
  step_keeps s _ (refreshed net node sid aid now) h = keeps.refreshes s net node sid aid now h
  step_keeps s _ (heartbeat_marked node sid sequence) h = keeps.marks s node sid sequence h
  step_keeps s _ (control_removed node sid aid) h = keeps.uncontrols s node sid aid h
  step_keeps s _ (requests_cancelled node sid aid) h = keeps.cancels s node sid aid h
  step_keeps s _ (control_abandoned t) h = abandon_control_keeps s t h
  step_keeps s _ (connection_removed node sid aid) h = keeps.unbinds s node sid aid h
  step_keeps s s' (admitted net node sid aid _ e) h = keeps.admits s net node sid aid s' e h
  step_keeps s s' (pushed node sid aid stream _ e) h = keeps.pushes s node sid aid stream s' e h
  step_keeps s _ (reserved_taken t) h = keeps.takes s t h
  step_keeps s _ (kept_alive net) h = keeps.keeps_alive s net h
  step_keeps s _ (control_selected net t now) h = select_tcp_control_keeps s net t now h
  step_keeps s s' (opened t stream_id sender now wait _ e) h =
      keeps.opens s t stream_id sender now wait s' e h
  step_keeps s _ (dropped stream_id) h = keeps.drops s stream_id h
  step_keeps s _ (accepted net node sid stream_id now) h =
      accept_keeps s net node sid stream_id now h
  step_keeps s _ (target_selected net now expected) h =
      select_active_target_keeps s net now expected h
  step_keeps s _ (connection_selected net t now) h = active_connection_keeps s net t now h

  pub serving_keeps :
      {timeout : ℕ} {s : ServerState} → P (empty_state timeout) → Serving timeout s → P s
  serving_keeps first start = first
  serving_keeps first (next {s} {s'} serving step) =
      step_keeps s s' step (serving_keeps first serving)

  pub reach_keeps :
      {timeout : ℕ} {s : ServerState}
      → ((a b : ServerState) → ShutdownStep a b → P a → P b)
      → P (empty_state timeout)
      → Reach timeout s
      → P s
  reach_keeps shutdown first starts = first
  reach_keeps shutdown first (steps {s} {s'} reach step) =
      step_keeps s s' step (reach_keeps shutdown first reach)
  reach_keeps shutdown first (shuts {s} {s'} reach step) =
      shutdown s s' step (reach_keeps shutdown first reach)
