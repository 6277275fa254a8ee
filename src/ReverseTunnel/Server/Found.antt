-- ===== src/ReverseTunnel/Server/Found.antt =====
-- crates/reverse-tunnel/src/state.rs: a scan of the sessions finds every target that can serve.
use mobile_proxy.Base.{
  ◌-◌, String, string_eq, nat_eq, true, false, not, ◌≡◌, refl, subst, sym, ==→eq, Option, none,
  some, List, [], ◌∷◌, lookup, values, ◌==◌, Bool-cases, inl, inr, any, is_some_and,
  is_some_and-cases, ◌⊎◌, ◌&&◌, ◌||◌, arith, leb,
}
use mobile_proxy.ReverseTunnel.Server.Types.{
  Uuid, Instant, Net, ServerState, ActiveSessionTarget, ServerSessionSnapshot, SessionLiveness,
  session_is_fresh, session_is, live_is,
}
use mobile_proxy.ReverseTunnel.Server.Sessions.{quic_active, tcp_active}
use mobile_proxy.ReverseTunnel.Server.Select.{Scan, scan_sessions, scan_session, is_other}
use mobile_proxy.ReverseTunnel.Server.Candidates.{hosts, is_wanted, is_ready, can_serve}

abbrev pub Among : ActiveSessionTarget → List ActiveSessionTarget → Type 0
Among u [] = ⊥
Among u (t ∷ ts) = (t ≡ u) ⊎ Among u ts

scan_session-keeps :
    (s : ServerState) (net : Net) (now : Instant) (session : ServerSessionSnapshot)
    (found : Option SessionLiveness) (rest : Scan) (u : ActiveSessionTarget)
    → Among u rest.candidates
    → Among u (scan_session s net now session found rest).candidates
scan_session-keeps s net now session none rest u h = h
scan_session-keeps s net now session (some live) rest u h =
    elim (Bool-cases (
      live.session_id == session.session_id && leb (now - live.last_seen_at) s.heartbeat_timeout)) [
        | inr stale ↦ rw stale h
        | inl fresh ↦
            rw fresh
              (elim (Bool-cases (
                quic_active s net session.node_id session.session_id live.authority_id
                || tcp_active s net session.node_id session.session_id live.authority_id)) [
                  | inl active ↦ rw active (inr h)
                  | inr idle ↦ rw idle h
                ])
      ]

scan_session-finds :
    (s : ServerState) (net : Net) (now : Instant) (expected : Option String)
    (session : ServerSessionSnapshot) (rest : Scan) (aid : Uuid)
    → is_ready s net now expected
        (record { node_id = session.node_id; session_id = session.session_id; authority_id = aid })
      ≡ true
    → Among
        (record { node_id = session.node_id; session_id = session.session_id; authority_id = aid })
        (scan_session s net now session (lookup session.node_id s.session_liveness) rest).candidates
unfolding session_is_fresh
scan_session-finds s net now expected session rest aid h =
    let fresh_here : is_some_and (lookup session.node_id s.session_liveness) (λ entry.
      live_is session.session_id aid entry && leb (now - entry.last_seen_at) s.heartbeat_timeout)
        ≡ true =
      ground arith in
    let (live, present, matching) =
      is_some_and-cases (lookup session.node_id s.session_liveness) _ fresh_here in
    let same : live.authority_id ≡ aid = ground arith in
    let fresh : (live.session_id == session.session_id
          && leb (now - live.last_seen_at) s.heartbeat_timeout)
        ≡ true =
      ground arith in
    let active : (quic_active s net session.node_id session.session_id aid
          || tcp_active s net session.node_id session.session_id aid)
        ≡ true =
      ground arith in
    rw present (rw fresh (rw same (rw active (inl refl))))

wanted_not_other :
    (expected : Option String) (session : ServerSessionSnapshot) (u : ActiveSessionTarget)
    → is_wanted expected u ≡ true
    → session.node_id ≡ u.node_id
    → is_other expected session ≡ false
wanted_not_other none session u h same = refl
wanted_not_other (some node) session u h same = rw same (rw h refl)

scan_sessions-finds :
    (s : ServerState) (net : Net) (now : Instant) (expected : Option String)
    (sessions : List ServerSessionSnapshot) (u : ActiveSessionTarget)
    → hosts sessions u ≡ true
    → is_ready s net now expected u ≡ true
    → Among u (scan_sessions s net now expected sessions).candidates
unfolding scan_sessions any
scan_sessions-finds s net now expected [] u here ready = absurd (ground arith)
scan_sessions-finds s net now expected (session ∷ sessions) u here ready =
    let rest = scan_sessions s net now expected sessions in
    let found = lookup session.node_id s.session_liveness in
    elim (Bool-cases (session.node_id == u.node_id && session_is u.session_id session)) [
      | inl this ↦
          let node : session.node_id ≡ u.node_id = ==→eq session.node_id u.node_id (ground arith) in
          let sid : session.session_id ≡ u.session_id =
            ==→eq session.session_id u.session_id (ground arith) in
          let own : ActiveSessionTarget = record {
            node_id = session.node_id;
            session_id = session.session_id;
            authority_id = u.authority_id;
          } in
          let same : own ≡ u =
            λ i. record { node_id = node i; session_id = sid i; authority_id = u.authority_id } in
          let other = wanted_not_other expected session u (ground arith) node in
          let connected : session.connected ≡ true = ground arith in
          rw (connected, other)
            (subst (λ x. Among x (scan_session s net now session found rest).candidates) same
              (scan_session-finds s net now expected session rest u.authority_id
                (subst (λ x. is_ready s net now expected x ≡ true) (sym same) ready)))
      | inr other ↦
          let below = scan_sessions-finds s net now expected sessions u (ground arith) ready in
          elim (Bool-cases (not session.connected || is_other expected session)) [
            | inl skipped ↦ rw skipped below
            | inr kept ↦ rw kept (scan_session-keeps s net now session found rest u below)
          ]
    ]

pub serving-found :
    (s : ServerState) (net : Net) (now : Instant) (expected : Option String)
    (u : ActiveSessionTarget)
    → can_serve s net now expected u ≡ true
    → Among u (scan_sessions s net now expected (values s.sessions)).candidates
serving-found s net now expected u h =
    scan_sessions-finds s net now expected (values s.sessions) u (ground arith) (ground arith)
