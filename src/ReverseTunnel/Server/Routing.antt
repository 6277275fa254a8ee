-- ===== src/ReverseTunnel/Server/Routing.antt =====
-- crates/reverse-tunnel/src/state.rs: the session that a public client is routed to is one that can
-- serve it, and a stream from the reserve is one of that session's.
use mobile_proxy.Base.{
  String, string_eq, nat_eq, Bool, true, false, ◌≡◌, refl, subst, ap, ◌∙◌, Option, none, some, List,
  [], ◌∷◌, ◌++◌, lookup, insert, values, ◌==◌, Bool-cases, Option-cases, inl, inr, ◌&&◌, arith, All,
}
use mobile_proxy.ReverseTunnel.Server.Types.{
  Instant, Handle, Net, ServerState, ActiveSessionTarget, ReservedTcpStream,
}
use mobile_proxy.ReverseTunnel.Server.Streams.{take_reserved_tcp_stream, pop_matching}
use mobile_proxy.ReverseTunnel.Server.Select.{scan_sessions, choose, select_active_target}
use mobile_proxy.ReverseTunnel.Server.Candidates.{can_serve, candidates_serve}
use mobile_proxy.ReverseTunnel.Server.Found.{Among, serving-found}

chosen_serves :
    (s : ServerState) (net : Net) (now : Instant) (expected : Option String)
    (candidates : List ActiveSessionTarget) (t : ActiveSessionTarget)
    → All (λ u. can_serve s net now expected u ≡ true) candidates
    → choose expected candidates ≡ some t
    → (can_serve s net now expected t ≡ true) × (expected ≡ none → candidates ≡ t ∷ [])
unfolding choose
chosen_serves s net now none [] t h e = ground arith
chosen_serves s net now none (u ∷ []) t h e =
    let same : u ≡ t = ground arith in
    (subst (λ x. can_serve s net now none x ≡ true) same h.0, λ _. ap (λ x. x ∷ []) same)
chosen_serves s net now none (u ∷ v ∷ rest) t h e = ground arith
chosen_serves s net now (some node) [] t h e = ground arith
chosen_serves s net now (some node) (u ∷ rest) t h e =
    let same : u ≡ t = ground arith in
    (subst (λ x. can_serve s net now (some node) x ≡ true) same h.0, λ no. ground arith)

only_one :
    (t u : ActiveSessionTarget) (candidates : List ActiveSessionTarget)
    → candidates ≡ t ∷ []
    → Among u candidates
    → t ≡ u
only_one t u candidates sole among = elim (subst (Among u) sole among) [
  | inl same ↦ same
  | inr never ↦ absurd never
]

none_serve :
    (u : ActiveSessionTarget) (candidates : List ActiveSessionTarget) (node : String)
    → choose (some node) candidates ≡ none
    → (serves : Bool) → (serves ≡ true → Among u candidates)
    → serves ≡ false
unfolding choose
none_serve u candidates node nothing false among = refl
none_serve u [] node nothing true among = absurd (among refl)
none_serve u (t ∷ ts) node nothing true among = absurd (ground arith)

-- A target that is selected has a connected session with a fresh authority and an open transport, at the
-- node that was asked for; and when no node was asked for, there is no other such target, so that no
-- client is routed to one of several devices at random. When a node was asked for and no target is
-- selected, no target at that node is such.
pub select_active_target-can_serve :
    (s : ServerState) (net : Net) (now : Instant) (expected : Option String)
    → ((t : ActiveSessionTarget)
        → (select_active_target s net now expected).1 ≡ some t
        → (can_serve s net now expected t ≡ true)
          × (expected ≡ none
              → (u : ActiveSessionTarget) → can_serve s net now expected u ≡ true
              → t ≡ u))
      × ((node : String)
          → expected ≡ some node
          → (select_active_target s net now expected).1 ≡ none
          → (u : ActiveSessionTarget) → can_serve s net now expected u ≡ false)
unfolding select_active_target
select_active_target-can_serve s net now expected =
    let candidates = (scan_sessions s net now expected (values s.sessions)).candidates in
    (
      λ t h.
          let (serves, sole) =
            chosen_serves s net now expected candidates t (candidates_serve s net now expected) h in
          (
            serves,
            λ anywhere u other.
                only_one t u candidates (sole anywhere) (serving-found s net now expected u other),
          ),
      λ node asked nothing u.
          none_serve u candidates node (subst (λ e. choose e candidates ≡ none) asked nothing)
            (can_serve s net now expected u) (serving-found s net now expected u),
    )

abbrev pub is_of : ActiveSessionTarget → ReservedTcpStream → Bool
is_of t r = r.session_id == t.session_id && r.authority_id == t.authority_id

pop_matching-some :
    (t : ActiveSessionTarget) (streams below : List ReservedTcpStream) (stream : Handle)
    → pop_matching t.session_id t.authority_id streams ≡ some (stream, below)
    → (above : List ReservedTcpStream) × (r : ReservedTcpStream) × (streams ≡ above ++ r ∷ below)
      × All (λ x. is_of t x ≡ false) above
      × (is_of t r ≡ true)
      × (r.stream ≡ stream)
unfolding pop_matching
pop_matching-some t [] below stream h = absurd (ground arith)
pop_matching-some t (r ∷ streams) below stream h = elim (Bool-cases (is_of t r)) [
  | inl own ↦ ([], r, ap (◌∷◌ r) (ground arith), tt, own, ground arith)
  | inr other ↦
      let (above, r', split, foreign, own, same) =
        pop_matching-some t streams below stream (rw other at h) in
      (r ∷ above, r', ap (◌∷◌ r) split, (other, foreign), own, same)
]

take_found :
    (s : ServerState) (t : ActiveSessionTarget) (stream : Handle)
    → (take_reserved_tcp_stream s t).1 ≡ some stream
    → (streams below : List ReservedTcpStream) × (lookup t.node_id s.reserved_tcp ≡ some streams)
      × (pop_matching t.session_id t.authority_id streams ≡ some (stream, below))
      × ((take_reserved_tcp_stream s t).0
          ≡ record s { reserved_tcp = insert t.node_id below s.reserved_tcp })
unfolding take_reserved_tcp_stream lookup
take_found s t stream h = elim (Option-cases (lookup t.node_id s.reserved_tcp)) [
  | inl missing ↦ absurd (ground arith)
  | inr (streams, present) ↦
      elim (Option-cases (pop_matching t.session_id t.authority_id streams)) [
        | inl empty ↦ absurd (ground arith)
        | inr ((popped, below), found) ↦
            let same : popped ≡ stream = ground arith in
            (
              streams,
              below,
              present,
              found ∙ ap (λ x. some (x, below)) same,
              rw (present, take_reserved_tcp_stream) (rw found refl),
            )
      ]
]

-- The reserve hands out, from its top, the first stream of the target's session and authority: what
-- lies above it is of others and is dropped, and what lies below stays for the node.
pub take_reserved_tcp_stream-some :
    (s : ServerState) (t : ActiveSessionTarget) (stream : Handle)
    → (take_reserved_tcp_stream s t).1 ≡ some stream
    → (above below : List ReservedTcpStream) × (r : ReservedTcpStream) × (lookup t.node_id
          s.reserved_tcp
        ≡ some (above ++ r ∷ below))
      × All (λ x. is_of t x ≡ false) above
      × (is_of t r ≡ true)
      × (r.stream ≡ stream)
      × ((take_reserved_tcp_stream s t).0
          ≡ record s { reserved_tcp = insert t.node_id below s.reserved_tcp })
take_reserved_tcp_stream-some s t stream h =
    let (streams, below, present, popped, left) = take_found s t stream h in
    let (above, r, split, foreign, own, same) = pop_matching-some t streams below stream popped in
    (above, below, r, present ∙ ap some split, foreign, own, same, left)
