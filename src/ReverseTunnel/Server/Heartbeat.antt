-- ===== src/ReverseTunnel/Server/Heartbeat.antt =====
-- crates/reverse-tunnel/src/state.rs: what a heartbeat does for its session.
use mobile_proxy.Base.{
  ◌-◌, String, string_eq, nat_eq, true, ◌≡◌, refl, Option, none, some, is_some_and, lookup, arith,
  leb, ==_refl, ◌||◌, Bool-cases, inl, inr, map_laws,
}
use mobile_proxy.ReverseTunnel.Server.Types.{
  Uuid, Instant, Net, ServerState, SessionLiveness, session_is, live_is, session_is_fresh,
}
use mobile_proxy.ReverseTunnel.Server.Sessions.{
  refresh_session_heartbeat_for_authority, touch, quic_active, tcp_active,
}

touch-fresh :
    (s : ServerState) (node : String) (sid aid : Uuid) (now later : Instant)
    (found : Option SessionLiveness)
    → (touch node sid aid now s found).1 ≡ true
    → session_is_fresh
        (touch node sid aid now s found).0.session_liveness
        node
        sid
        aid
        later
        s.heartbeat_timeout
      ≡ leb (later - now) s.heartbeat_timeout
unfolding session_is_fresh
touch-fresh s node sid aid now later none h = ground arith
touch-fresh s node sid aid now later (some entry) h = elim (Bool-cases (live_is sid aid entry)) [
  | inl live ↦ rw live (simp (map_laws, ==_refl, live) refl)
  | inr stale ↦ ground arith
]

-- A heartbeat that is accepted comes from a connected session with an open transport, and from then
-- on the session counts as fresh exactly until the timeout has passed since the heartbeat.
pub refresh_session_heartbeat-fresh :
    (s : ServerState) (net : Net) (node : String) (sid aid : Uuid) (now later : Instant)
    → (refresh_session_heartbeat_for_authority s net node sid aid now).1 ≡ true
    → (is_some_and (lookup node s.sessions) (session_is sid) ≡ true)
      × ((quic_active s net node sid aid || tcp_active s net node sid aid) ≡ true)
      × (session_is_fresh
            (refresh_session_heartbeat_for_authority s net node sid aid now).0.session_liveness
            node
            sid
            aid
            later
            s.heartbeat_timeout
          ≡ leb (later - now) s.heartbeat_timeout)
unfolding refresh_session_heartbeat_for_authority
refresh_session_heartbeat-fresh s net node sid aid now later h =
    elim (Bool-cases (is_some_and (lookup node s.sessions) (session_is sid))) [
      | inl connected ↦
          elim (Bool-cases (quic_active s net node sid aid || tcp_active s net node sid aid)) [
            | inl active ↦ (
              connected,
              active,
              rw (connected, active)
                  (touch-fresh s node sid aid now later (lookup node s.session_liveness)
                    (rw (connected, active) at h)),
            )
            | inr idle ↦ absurd (ground arith)
          ]
      | inr gone ↦ absurd (ground arith)
    ]
