-- ===== src/ReverseTunnel/Server/Candidates.antt =====
-- crates/reverse-tunnel/src/state.rs: the candidates of a scan are the targets that can serve.
use mobile_proxy.Base.{
  ◌-◌, String, string_eq, nat_eq, Bool, true, false, not, ◌≡◌, refl, Option, none, some, List, [],
  ◌∷◌, lookup, values, ◌==◌, Bool-cases, inl, inr, any, All-map, ==_refl, ◌&&◌, ◌||◌, arith, All,
  leb,
}
use mobile_proxy.ReverseTunnel.Server.Types.{
  Uuid, Instant, Net, ServerState, ActiveSessionTarget, ServerSessionSnapshot, SessionLiveness,
  session_is_fresh, session_is,
}
use mobile_proxy.ReverseTunnel.Server.Sessions.{quic_active, tcp_active}
use mobile_proxy.ReverseTunnel.Server.Select.{
  Scan, scan_sessions, scan_session, scan_live, is_other,
}

abbrev pub is_wanted : Option String → ActiveSessionTarget → Bool
is_wanted none t = true
is_wanted (some node) t = t.node_id == node

-- Some session is connected at the target's node under its session id.
abbrev pub hosts : List ServerSessionSnapshot → ActiveSessionTarget → Bool
hosts sessions t =
    any (λ session. session.node_id == t.node_id && session_is t.session_id session) sessions

-- The target's authority is live and fresh, one of its transports is open, and it is of the node that
-- was asked for.
abbrev pub is_ready : ServerState → Net → Instant → Option String → ActiveSessionTarget → Bool
is_ready s net now expected t =
    session_is_fresh s.session_liveness t.node_id t.session_id t.authority_id now
      s.heartbeat_timeout
    && (quic_active s net t.node_id t.session_id t.authority_id
        || tcp_active s net t.node_id t.session_id t.authority_id)
    && is_wanted expected t

-- A target that can serve: it is ready, and its session is connected.
abbrev pub can_serve : ServerState → Net → Instant → Option String → ActiveSessionTarget → Bool
can_serve s net now expected t = hosts (values s.sessions) t && is_ready s net now expected t

abbrev AllServe : ServerState → Net → Instant → Option String → List ActiveSessionTarget → Type 0
AllServe s net now expected ts = All (λ t. is_ready s net now expected t ≡ true) ts

live_session_is_fresh :
    (s : ServerState) (now : Instant) (session : ServerSessionSnapshot) (live : SessionLiveness)
    → lookup session.node_id s.session_liveness ≡ some live
    → (live.session_id == session.session_id && leb (now - live.last_seen_at) s.heartbeat_timeout)
      ≡ true
    → session_is_fresh s.session_liveness session.node_id session.session_id live.authority_id now
        s.heartbeat_timeout
      ≡ true
unfolding session_is_fresh
live_session_is_fresh s now session live present fresh = rw present (ground arith)

not_other_is_wanted :
    (expected : Option String) (session : ServerSessionSnapshot) (sid aid : Uuid)
    → is_other expected session ≡ false
    → is_wanted expected
        (record { node_id = session.node_id; session_id = sid; authority_id = aid })
      ≡ true
not_other_is_wanted none session sid aid h = refl
not_other_is_wanted (some node) session sid aid h = ground arith

scan_live-serves :
    (s : ServerState) (net : Net) (now : Instant) (expected : Option String)
    (session : ServerSessionSnapshot) (live : SessionLiveness) (rest : Scan)
    → lookup session.node_id s.session_liveness ≡ some live
    → (live.session_id == session.session_id && leb (now - live.last_seen_at) s.heartbeat_timeout)
      ≡ true
    → is_other expected session ≡ false
    → AllServe s net now expected rest.candidates
    → AllServe s net now expected (scan_live s net session live rest).candidates
scan_live-serves s net now expected session live rest present fresh wanted h =
    elim (Bool-cases (
      quic_active s net session.node_id session.session_id live.authority_id
      || tcp_active s net session.node_id session.session_id live.authority_id)) [
        | inl active ↦ rw active (
          rw
              (
                live_session_is_fresh s now session live present fresh,
                active,
                not_other_is_wanted expected session session.session_id live.authority_id wanted,
              )
              refl,
          h,
        )
        | inr idle ↦ rw idle h
      ]

scan_session-serves :
    (s : ServerState) (net : Net) (now : Instant) (expected : Option String)
    (session : ServerSessionSnapshot) (found : Option SessionLiveness) (rest : Scan)
    → lookup session.node_id s.session_liveness ≡ found
    → is_other expected session ≡ false
    → AllServe s net now expected rest.candidates
    → AllServe s net now expected (scan_session s net now session found rest).candidates
scan_session-serves s net now expected session none rest present wanted h = h
scan_session-serves s net now expected session (some live) rest present wanted h =
    elim (Bool-cases (
      live.session_id == session.session_id && leb (now - live.last_seen_at) s.heartbeat_timeout)) [
        | inl fresh ↦
            rw fresh (scan_live-serves s net now expected session live rest present fresh wanted h)
        | inr stale ↦ rw stale h
      ]

scan_sessions-serves :
    (s : ServerState) (net : Net) (now : Instant) (expected : Option String)
    (sessions : List ServerSessionSnapshot)
    → AllServe s net now expected (scan_sessions s net now expected sessions).candidates
unfolding scan_sessions
scan_sessions-serves s net now expected [] = tt
scan_sessions-serves s net now expected (session ∷ sessions) =
    elim (Bool-cases (not session.connected || is_other expected session)) [
      | inl skipped ↦ rw skipped (scan_sessions-serves s net now expected sessions)
      | inr kept ↦ rw kept (
          scan_session-serves s net now expected session (lookup session.node_id s.session_liveness)
            (scan_sessions s net now expected sessions) refl (ground arith)
            (scan_sessions-serves s net now expected sessions))
    ]

All-both :
    {A : Type 0} (p q : A → Bool) (xs : List A)
    → All (λ x. p x ≡ true) xs
    → All (λ x. q x ≡ true) xs
    → All (λ x. (p x && q x) ≡ true) xs
All-both p q [] hp hq = tt
All-both p q (x ∷ xs) hp hq = (rw (hp.0, hq.0) refl, All-both p q xs hp.1 hq.1)

still_hosts :
    (session : ServerSessionSnapshot) (sessions : List ServerSessionSnapshot)
    (t : ActiveSessionTarget)
    → hosts sessions t ≡ true
    → hosts (session ∷ sessions) t ≡ true
unfolding any
still_hosts session sessions t h = ground arith

scan_session-hosted :
    (s : ServerState) (net : Net) (now : Instant) (session : ServerSessionSnapshot)
    (sessions : List ServerSessionSnapshot) (found : Option SessionLiveness) (rest : Scan)
    → session.connected ≡ true
    → All (λ t. hosts (session ∷ sessions) t ≡ true) rest.candidates
    → All
        (λ t. hosts (session ∷ sessions) t ≡ true)
        (scan_session s net now session found rest).candidates
unfolding any
scan_session-hosted s net now session sessions none rest connected h = h
scan_session-hosted s net now session sessions (some live) rest connected h =
    let own : hosts (session ∷ sessions) (record {
      node_id = session.node_id;
      session_id = session.session_id;
      authority_id = live.authority_id;
    })
        ≡ true =
      rw (==_refl session.node_id, ==_refl session.session_id, connected) refl in
    elim (Bool-cases (
      live.session_id == session.session_id && leb (now - live.last_seen_at) s.heartbeat_timeout)) [
        | inr stale ↦ rw stale h
        | inl fresh ↦
            rw fresh
              (elim (Bool-cases (
                quic_active s net session.node_id session.session_id live.authority_id
                || tcp_active s net session.node_id session.session_id live.authority_id)) [
                  | inl active ↦ rw active (own, h)
                  | inr idle ↦ rw idle h
                ])
      ]

scan_sessions-hosted :
    (s : ServerState) (net : Net) (now : Instant) (expected : Option String)
    (sessions : List ServerSessionSnapshot)
    → All (λ t. hosts sessions t ≡ true) (scan_sessions s net now expected sessions).candidates
unfolding scan_sessions any
scan_sessions-hosted s net now expected [] = tt
scan_sessions-hosted s net now expected (session ∷ sessions) =
    let below =
      All-map (scan_sessions s net now expected sessions).candidates
        (λ t h. still_hosts session sessions t h)
        (scan_sessions-hosted s net now expected sessions) in
    elim (Bool-cases (not session.connected || is_other expected session)) [
      | inl skipped ↦ rw skipped below
      | inr kept ↦ rw kept (
          scan_session-hosted s net now session sessions (lookup session.node_id s.session_liveness)
            (scan_sessions s net now expected sessions) (ground arith) below)
    ]

pub candidates_serve :
    (s : ServerState) (net : Net) (now : Instant) (expected : Option String)
    → All
        (λ t. can_serve s net now expected t ≡ true)
        (scan_sessions s net now expected (values s.sessions)).candidates
candidates_serve s net now expected =
    let scanned = (scan_sessions s net now expected (values s.sessions)).candidates in
    All-both (λ t. hosts (values s.sessions) t) (λ t. is_ready s net now expected t) scanned
      (scan_sessions-hosted s net now expected (values s.sessions))
      (scan_sessions-serves s net now expected (values s.sessions))
