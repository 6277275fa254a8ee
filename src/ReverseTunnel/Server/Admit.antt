-- ===== src/ReverseTunnel/Server/Admit.antt =====
-- crates/reverse-tunnel/src/state.rs: what the first section of `register_reserved_tcp_stream` leaves.
use mobile_proxy.Base.{
  String, string_eq, nat_eq, Bool, true, not, ◌≡◌, sym, ap, some, lookup, ◌==◌, insert, ◌&&◌, ok,
  bind_ok, ok_or, filter_option, ok_or-filter, ok-injective,
}
use mobile_proxy.ReverseTunnel.Server.Types.{
  Uuid, Net, ServerState, TcpControlChannel, session_is, control_is,
}
use mobile_proxy.ReverseTunnel.Server.Streams.{
  admit_reserved, session_not_active, authority_not_active, control_not_active,
}

-- A stream that is admitted has marked its node's control channel, and changed nothing else.
pub admit_reserved_ok :
    (s : ServerState) (net : Net) (node : String) (sid aid : Uuid) (s' : ServerState)
    → admit_reserved s net node sid ≡ ok (s', aid)
    → (control : TcpControlChannel) × (lookup node s.tcp_controls ≡ some control)
      × (s' ≡ record s {
        tcp_controls = insert node (record control { reserve_capable = true }) s.tcp_controls;
      })
unfolding admit_reserved
admit_reserved_ok s net node sid aid s' h =
    let (session, _, h1) =
      bind_ok (ok_or (filter_option (lookup node s.sessions) (session_is sid)) session_not_active) _
        (s', aid) h in
    let (live, _, h2) =
      bind_ok
        (ok_or
          (filter_option (lookup node s.session_liveness)
            (λ live. live.session_id == session.session_id))
          authority_not_active)
        _ (s', aid) h1 in
    let can_serve : TcpControlChannel → Bool = λ control.
      control_is sid live.authority_id control && not (net.sender_closed control.sender) in
    let (control, found, h3) =
      bind_ok (ok_or (filter_option (lookup node s.tcp_controls) can_serve) control_not_active) _
        (s', aid) h2 in
    let (present, _) =
      ok_or-filter (lookup node s.tcp_controls) can_serve control_not_active control found in
    (control, present, sym (ap (λ p. p.0) (ok-injective h3)))
