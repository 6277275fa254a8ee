-- ===== src/ReverseTunnel/Server/Shutdown.antt =====
-- crates/reverse-tunnel/src/state.rs: the shutdown of the control channels, which takes one node after
-- the other off the registry.
use mobile_proxy.Base.{
  String, string_eq, nat_eq, Bool, true, not, ◌≡◌, refl, subst, sym, ap, Option, none, some, [],
  ◌∷◌, is_some, is_some_and, lookup, remove, arith, ◌==◌, if◌then◌else◌, ◌&&◌, Map, All, All-map,
  PartialEq, Bool-cases, Option-cases, inl, inr, ==→eq, ==_refl, lookup-insert, lookup-remove_if,
  ◌∙◌,
}
use mobile_proxy.ReverseTunnel.Server.Types.{
  Uuid, ServerState, ServerSessionSnapshot, SessionLiveness, TcpControlChannel,
}
use mobile_proxy.ReverseTunnel.Server.Sessions.{
  set_disconnected, mark_disconnected, remove_session_liveness, retire_session, retire_control,
  retire_controls, shutdown_tcp,
}
use mobile_proxy.ReverseTunnel.Server.View.{NodeView, view, view_cases, keep_unless}
use mobile_proxy.ReverseTunnel.Server.Consistent.{is_consistent, live_agrees}
use mobile_proxy.ReverseTunnel.Server.WellFormed.{IsWellFormed, step-IsWellFormed}

abbrev retired_session : Uuid → Option ServerSessionSnapshot → Option ServerSessionSnapshot
retired_session sid none = none
retired_session sid (some session) =
    if session.session_id == sid then some (set_disconnected session) else some session

abbrev retired_at : Uuid → NodeView → NodeView
retired_at sid v = record v {
  session = retired_session sid v.session;
  live = keep_unless (λ entry. entry.session_id == sid) v.live;
}

same_lookup :
    (node n : String) (m : Map String ServerSessionSnapshot) (o : Option ServerSessionSnapshot)
    → lookup node m ≡ o
    → lookup n m ≡ (if node == n then o else lookup n m)
same_lookup node n m o h = elim (Bool-cases (node == n)) [
  | inl same ↦ rw same (ap (λ i. lookup i m) (sym (==→eq node n same)) ∙ h)
  | inr other ↦ rw other refl
]

lookup-retired_sessions :
    (node : String) (sid : Uuid) (m : Map String ServerSessionSnapshot) (n : String)
    → lookup n (
        if is_some_and (lookup node m) (λ session. session.session_id == sid)
        then mark_disconnected node m
        else m)
      ≡ (if node == n then retired_session sid (lookup node m) else lookup n m)
lookup-retired_sessions node sid m n = elim (Option-cases (lookup node m)) [
  | inl absent ↦ rw absent (same_lookup node n m none absent)
  | inr (session, present) ↦
      rw (present, mark_disconnected)
        (elim (Bool-cases (session.session_id == sid)) [
          | inl own ↦ rw own (lookup-insert node n (set_disconnected session) m)
          | inr other ↦ rw other (same_lookup node n m (some session) present)
        ])
]

live_retired :
    (sid : Uuid) (session : Option ServerSessionSnapshot) (live : Option SessionLiveness)
    → live_agrees session live ≡ true
    → live_agrees
        (retired_session sid session)
        (keep_unless (λ entry. entry.session_id == sid) live)
      ≡ true
live_retired sid none none h = refl
live_retired sid none (some live) h = ground arith
live_retired sid (some session) none h = ground arith
live_retired sid (some session) (some live) h = ground arith

consistent-retired :
    (sid : Uuid) (v : NodeView)
    → v.bound ≡ none
    → v.control ≡ none
    → is_consistent v ≡ true
    → is_consistent (retired_at sid v) ≡ true
consistent-retired sid v unbound uncontrolled h =
    rw (unbound, uncontrolled, live_retired sid v.session v.live (ground arith)) refl

keys_present {ℓ} :
    {K V : Type ℓ} ⦃e : PartialEq K⦄ (m : Map K V) → All (λ (k, v). is_some (lookup k m) ≡ true) m
unfolding lookup
keys_present [] = tt
keys_present ((j, w) ∷ m) = (rw ==_refl refl, All-map m (λ (k, v) h. ground arith) (keys_present m))

abbrev retired_state : ServerState → String → Uuid → ServerState
retired_state s node sid = record s {
  sessions =
      if is_some_and (lookup node s.sessions) (λ session. session.session_id == sid)
      then mark_disconnected node s.sessions
      else s.sessions;
  session_liveness =
      if is_some_and (lookup node s.session_liveness) (λ entry. entry.session_id == sid)
      then remove node s.session_liveness
      else s.session_liveness;
}

retire_control_lem :
    (s : ServerState) (node : String) (sid : Uuid)
    → retire_control s node sid ≡ retired_state s node sid
unfolding retire_control retire_session remove_session_liveness
retire_control_lem s node sid =
    elim (Bool-cases
      (is_some_and (lookup node s.session_liveness) (λ entry. entry.session_id == sid))) [
        | inl live ↦
            elim (Bool-cases
              (is_some_and (lookup node s.sessions) (λ session. session.session_id == sid))) [
                | inl own ↦ rw (own, live) refl
                | inr other ↦ rw (other, live) refl
              ]
        | inr gone ↦
            elim (Bool-cases
              (is_some_and (lookup node s.sessions) (λ session. session.session_id == sid))) [
                | inl own ↦ rw (own, gone) refl
                | inr other ↦ rw (other, gone) refl
              ]
      ]

if-keep_unless {ℓ} :
    {A : Type ℓ} (p : A → Bool) (o : Option A)
    → (if is_some_and o p then none else o) ≡ keep_unless p o
if-keep_unless p none = refl
if-keep_unless p (some a) = refl

view-retired_state :
    (s : ServerState) (node : String) (sid : Uuid) (n : String)
    → view (retired_state s node sid) n
      ≡ (if node == n then retired_at sid (view s node) else view s n)
view-retired_state s node sid n =
    view_cases s (retired_state s node sid) node n (retired_at sid (view s node))
      (simp (lookup-retired_sessions, lookup-remove_if, if-keep_unless, ==_refl) refl)
      (λ other. simp (lookup-retired_sessions, lookup-remove_if, other) refl)

-- Each round keeps the maps consistent, when its node has neither transport left.
retire_control-IsWellFormed :
    (s : ServerState) (node : String) (sid : Uuid)
    → lookup node s.connections ≡ none
    → lookup node s.tcp_controls ≡ none
    → IsWellFormed s
    → IsWellFormed (retire_control s node sid)
retire_control-IsWellFormed s node sid unbound uncontrolled wf =
    subst IsWellFormed (sym (retire_control_lem s node sid)) (
      step-IsWellFormed s (retired_state s node sid) node (retired_at sid (view s node))
        (view-retired_state s node sid)
        (consistent-retired sid (view s node) unbound uncontrolled (wf node)) wf)

retire_controls-IsWellFormed :
    (s : ServerState) (controls : Map String TcpControlChannel)
    → All (λ (node, control). lookup node s.connections ≡ none) controls
    → s.tcp_controls ≡ []
    → IsWellFormed s
    → IsWellFormed (retire_controls s controls)
unfolding retire_controls lookup
retire_controls-IsWellFormed s [] unbound drained wf = wf
retire_controls-IsWellFormed s ((node, control) ∷ controls) unbound drained wf =
    let same = retire_control_lem s node control.session_id in
    retire_controls-IsWellFormed (retire_control s node control.session_id) controls
      (subst (λ (x : ServerState). All (λ (k, c). lookup k x.connections ≡ none) controls)
        (sym same) unbound.1)
      (ap (λ (x : ServerState). x.tcp_controls) same ∙ drained)
      (retire_control-IsWellFormed s node control.session_id unbound.0 (rw drained refl) wf)

consistent-drained :
    (v : NodeView)
    → is_consistent v ≡ true
    → is_consistent (record v { control = none; reserve = none }) ≡ true
consistent-drained v h = ground arith

not_both :
    {A B : Type 0} (a : Option A) (b : Option B)
    → not (is_some a && is_some b) ≡ true
    → is_some b ≡ true
    → a ≡ none
not_both none b h present = refl
not_both (some a) b h present = ground arith

drained-IsWellFormed :
    (s : ServerState)
    → IsWellFormed s
    → IsWellFormed (record s { tcp_controls = []; pending_tcp = []; reserved_tcp = [] })
unfolding lookup
drained-IsWellFormed s wf n = consistent-drained (view s n) (wf n)

controlled_unbound :
    (s : ServerState) (node : String)
    → is_consistent (view s node) ≡ true
    → is_some (lookup node s.tcp_controls) ≡ true
    → lookup node s.connections ≡ none
controlled_unbound s node h present =
    not_both (lookup node s.connections) (lookup node s.tcp_controls) (ground arith) present

pub shutdown_tcp-IsWellFormed : (s : ServerState) → IsWellFormed s → IsWellFormed (shutdown_tcp s)
unfolding shutdown_tcp
shutdown_tcp-IsWellFormed s wf =
    retire_controls-IsWellFormed
      (record s { tcp_controls = []; pending_tcp = []; reserved_tcp = [] }) s.tcp_controls
      (All-map s.tcp_controls
        (λ (node, control) present. controlled_unbound s node (wf node) present)
        (keys_present s.tcp_controls))
      refl (drained-IsWellFormed s wf)

-- The rounds touch neither the requests nor the reserves, which are empty by then.
pub retire_controls-keeps_streams :
    (s : ServerState) (controls : Map String TcpControlChannel)
    → ((retire_controls s controls).pending_tcp ≡ s.pending_tcp)
      × ((retire_controls s controls).reserved_tcp ≡ s.reserved_tcp)
unfolding retire_controls
retire_controls-keeps_streams s [] = (refl, refl)
retire_controls-keeps_streams s ((node, control) ∷ controls) =
    let same = retire_control_lem s node control.session_id in
    let (pending, reserved) =
      retire_controls-keeps_streams (retire_control s node control.session_id) controls in
    (
      pending ∙ ap (λ (x : ServerState). x.pending_tcp) same,
      reserved ∙ ap (λ (x : ServerState). x.reserved_tcp) same,
    )
