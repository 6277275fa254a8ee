-- ===== src/ReverseTunnel/Server/Fencing.antt =====
-- crates/reverse-tunnel/src/state.rs: an authority that is no longer a node's current one can not
-- touch what its successor has installed.
use mobile_proxy.Base.{
  String, string_eq, nat_eq, Bool, true, false, ◌≡◌, ◌≢◌, refl, subst, sym, Option, none, some, [],
  is_some_and, lookup, arith, ◌||◌, ==_refl, if_same,
}
use mobile_proxy.ReverseTunnel.Server.Types.{
  Uuid, Instant, Net, SessionAuthority, quic, tcp, ServerState, SessionBound, TcpControlChannel,
  SessionLiveness, live_is, session_is, control_is, bound_is, remove_session_bound,
  removed_session_bound,
}
use mobile_proxy.ReverseTunnel.Server.Sessions.{
  replace_session_authority, disconnect_session_authority, is_current, touch, quic_active,
  tcp_active, remove_tcp_control_for_authority, remove_quic_connection_for_authority,
  refresh_session_heartbeat_for_authority,
}
use mobile_proxy.ReverseTunnel.Server.View.{view, view-replace, NodeView, installed}
use mobile_proxy.ReverseTunnel.Server.Consistent.{
  is_consistent, consistent-installed, bound_agrees, control_agrees,
}

abbrev pub is_live : ServerState → String → Uuid → Uuid → Bool
is_live s node sid aid = is_some_and (lookup node s.session_liveness) (live_is sid aid)

-- Every operation by which the connection of an authority acts on the registry leaves it as it is,
-- and tells its caller so.
abbrev pub IsFenced : ServerState → String → Uuid → Uuid → Type 0
IsFenced s node sid aid =
    (disconnect_session_authority s node sid aid ≡ (s, [], false))
    × ((net : Net) (now : Instant)
        → refresh_session_heartbeat_for_authority s net node sid aid now ≡ (s, false))
    × (remove_tcp_control_for_authority s node sid aid ≡ s)
    × (remove_quic_connection_for_authority s node sid aid ≡ (s, []))

bound_stale :
    (live : Option SessionLiveness) (bound : Option SessionBound) (sid aid : Uuid)
    → bound_agrees live bound ≡ true
    → is_some_and live (live_is sid aid) ≡ false
    → is_some_and bound (bound_is sid aid) ≡ false
bound_stale live none sid aid h q = refl
bound_stale none (some bound) sid aid h q = ground arith
bound_stale (some live) (some bound) sid aid h q = ground arith

control_stale :
    (live : Option SessionLiveness) (control : Option TcpControlChannel) (sid aid : Uuid)
    → control_agrees live control ≡ true
    → is_some_and live (live_is sid aid) ≡ false
    → is_some_and control (control_is sid aid) ≡ false
control_stale live none sid aid h q = refl
control_stale none (some control) sid aid h q = ground arith
control_stale (some live) (some control) sid aid h q = ground arith

touch_stale :
    (node : String) (sid aid : Uuid) (now : Instant) (s : ServerState)
    (live : Option SessionLiveness)
    → is_some_and live (live_is sid aid) ≡ false
    → touch node sid aid now s live ≡ (s, false)
touch_stale node sid aid now s none h = refl
touch_stale node sid aid now s (some entry) h = rw h refl

refresh_stale :
    (s : ServerState) (net : Net) (node : String) (sid aid : Uuid) (now : Instant)
    → is_live s node sid aid ≡ false
    → refresh_session_heartbeat_for_authority s net node sid aid now ≡ (s, false)
unfolding refresh_session_heartbeat_for_authority
refresh_stale s net node sid aid now h =
    rw
      (
        touch_stale node sid aid now s (lookup node s.session_liveness) h,
        if_same {A = ServerState × Bool}
            (quic_active s net node sid aid || tcp_active s net node sid aid) (s, false),
        if_same {A = ServerState × Bool} (is_some_and (lookup node s.sessions) (session_is sid))
            (s, false),
      )
      refl

disconnect_stale :
    (s : ServerState) (node : String) (sid aid : Uuid)
    → is_live s node sid aid ≡ false
    → disconnect_session_authority s node sid aid ≡ (s, [], false)
unfolding disconnect_session_authority is_current
disconnect_stale s node sid aid h = ground arith

-- At a node whose entries are consistent, an authority that is not live under its session id is
-- fenced off.
pub stale_authority-IsFenced :
    (s : ServerState) (node : String) (sid aid : Uuid)
    → is_consistent (view s node) ≡ true
    → is_live s node sid aid ≡ false
    → IsFenced s node sid aid
unfolding remove_tcp_control_for_authority remove_quic_connection_for_authority remove_session_bound
    removed_session_bound
stale_authority-IsFenced s node sid aid w h = (
  disconnect_stale s node sid aid h,
  (λ net now. refresh_stale s net node sid aid now h),
  rw
      (control_stale (lookup node s.session_liveness) (lookup node s.tcp_controls) sid aid
        (ground arith) h)
      refl,
  rw
      (bound_stale (lookup node s.session_liveness) (lookup node s.connections) sid aid
        (ground arith) h)
      refl,
)

installed_stale :
    (node : String) (sid : Uuid) (authority : SessionAuthority) (aid : Uuid) (now : Instant)
    (v : NodeView) (old_sid old_aid : Uuid)
    → aid ≢ old_aid
    → is_some_and (installed node sid authority aid now v).live (live_is old_sid old_aid) ≡ false
installed_stale node sid (quic connection) aid now v old_sid old_aid differ = ground arith
installed_stale node sid (tcp sender) aid now v old_sid old_aid differ = ground arith

-- Once an authority is installed at a node, all others are fenced off there, whatever session id
-- they come with and whatever the state was: to disconnect, to refresh the heartbeat, and to remove
-- the control channel or the connection change nothing, and the calls that have a result say so.
pub replaced_authority-IsFenced :
    (s : ServerState) (node : String) (sid : Uuid) (authority : SessionAuthority) (aid : Uuid)
    (now : Instant) (old_sid old_aid : Uuid)
    → aid ≢ old_aid
    → IsFenced (replace_session_authority s node sid authority aid now).0 node old_sid old_aid
replaced_authority-IsFenced s node sid authority aid now old_sid old_aid differ =
    let s' : ServerState = (replace_session_authority s node sid authority aid now).0 in
    let here : view s' node ≡ installed node sid authority aid now (view s node) =
      rw ==_refl at (view-replace s node sid authority aid now node) in
    stale_authority-IsFenced s' node old_sid old_aid
      (subst (λ v. is_consistent v ≡ true) (sym here)
        (consistent-installed node sid authority aid now (view s node)))
      (subst (λ v. is_some_and v.live (live_is old_sid old_aid) ≡ false) (sym here)
        (installed_stale node sid authority aid now (view s node) old_sid old_aid differ))
