-- ===== src/ReverseTunnel/Server/Consistent.antt =====
-- crates/reverse-tunnel/src/state.rs: what the maps of the registry have in common. The session of a
-- live node is connected, and a transport belongs to the live session and authority.
use mathlib.Core.Option
use mobile_proxy.Base.{
  String, string_eq, Bool, true, false, not, ◌≡◌, refl, Option, none, some, is_some, is_some_and,
  is_some_and-cases, arith, ==_refl, nat_eq, ◌&&◌,
}
use mobile_proxy.ReverseTunnel.Server.Types.{
  Uuid, Instant, SessionAuthority, quic, tcp, SessionLiveness, TcpControlChannel, SessionBound,
  ServerSessionSnapshot, live_is, session_is, bound_is, control_is,
}
use mobile_proxy.ReverseTunnel.Server.Sessions.{set_disconnected}
use mobile_proxy.ReverseTunnel.Server.View.{
  NodeView, keep_unless, installed, removed_at, uncontrolled_at, unbound_at,
}

abbrev pub live_agrees : Option ServerSessionSnapshot → Option SessionLiveness → Bool
live_agrees none none = true
live_agrees none (some live) = false
live_agrees (some session) none = true
live_agrees (some session) (some live) = session_is live.session_id session

abbrev pub bound_agrees : Option SessionLiveness → Option SessionBound → Bool
bound_agrees live none = true
bound_agrees live (some bound) = is_some_and live (live_is bound.session_id bound.authority_id)

abbrev pub control_agrees : Option SessionLiveness → Option TcpControlChannel → Bool
control_agrees live none = true
control_agrees live (some control) =
    is_some_and live (live_is control.session_id control.authority_id)

abbrev pub is_consistent : NodeView → Bool
is_consistent v =
    live_agrees v.session v.live
    && bound_agrees v.live v.bound
    && control_agrees v.live v.control
    && not (is_some v.bound && is_some v.control)

pub consistent-installed :
    (node : String) (sid : Uuid) (authority : SessionAuthority) (aid : Uuid) (now : Instant)
    (v : NodeView)
    → is_consistent (installed node sid authority aid now v) ≡ true
consistent-installed node sid (quic connection) aid now v = simp ==_refl refl
consistent-installed node sid (tcp sender) aid now v = simp ==_refl refl

-- Nothing of a live authority's transport is left when what carries its ids is taken away.
bound_gone :
    (sid aid : Uuid) (live : SessionLiveness) (bound : Option SessionBound)
    → bound_agrees (some live) bound ≡ true
    → live_is sid aid live ≡ true
    → keep_unless (bound_is sid aid) bound ≡ none
bound_gone sid aid live none h q = refl
bound_gone sid aid live (some bound) h q = ground arith

control_gone :
    (sid aid : Uuid) (live : SessionLiveness) (control : Option TcpControlChannel)
    → control_agrees (some live) control ≡ true
    → live_is sid aid live ≡ true
    → keep_unless (control_is sid aid) control ≡ none
control_gone sid aid live none h q = refl
control_gone sid aid live (some control) h q = ground arith

disconnected_agrees :
    (session : Option ServerSessionSnapshot)
    → live_agrees (Option.map set_disconnected session) none ≡ true
disconnected_agrees none = refl
disconnected_agrees (some session) = refl

pub consistent-removed :
    (sid aid : Uuid) (v : NodeView)
    → is_consistent v ≡ true
    → is_some_and v.live (live_is sid aid) ≡ true
    → is_consistent (removed_at sid aid v) ≡ true
consistent-removed sid aid v h current =
    let (live, present, matching) = is_some_and-cases v.live (live_is sid aid) current in
    let h' : (live_agrees v.session (some live)
          && bound_agrees (some live) v.bound
          && control_agrees (some live) v.control
          && not (is_some v.bound && is_some v.control))
        ≡ true =
      rw (← present) h in
    rw
      (
        bound_gone sid aid live v.bound (ground arith) matching,
        control_gone sid aid live v.control (ground arith) matching,
        disconnected_agrees v.session,
      )
      refl

pub consistent-uncontrolled :
    (sid aid : Uuid) (v : NodeView)
    → is_consistent v ≡ true
    → is_consistent (uncontrolled_at sid aid v) ≡ true
consistent-uncontrolled sid aid v h = ground arith

pub consistent-unbound :
    (sid aid : Uuid) (v : NodeView)
    → is_consistent v ≡ true
    → is_consistent (unbound_at sid aid v) ≡ true
consistent-unbound sid aid v h = ground arith

abbrev touched_at : Instant → SessionLiveness → SessionLiveness
touched_at now entry = record entry { last_seen_at = now }

live_touched :
    (entry : SessionLiveness) (now : Instant) (session : Option ServerSessionSnapshot)
    → live_agrees session (some (touched_at now entry)) ≡ live_agrees session (some entry)
live_touched entry now none = refl
live_touched entry now (some session) = refl

bound_touched :
    (entry : SessionLiveness) (now : Instant) (bound : Option SessionBound)
    → bound_agrees (some (touched_at now entry)) bound ≡ bound_agrees (some entry) bound
bound_touched entry now none = refl
bound_touched entry now (some bound) = refl

control_touched :
    (entry : SessionLiveness) (now : Instant) (control : Option TcpControlChannel)
    → control_agrees (some (touched_at now entry)) control ≡ control_agrees (some entry) control
control_touched entry now none = refl
control_touched entry now (some control) = refl

pub consistent-touched :
    (v : NodeView) (entry : SessionLiveness) (now : Instant)
    → is_consistent v ≡ true
    → v.live ≡ some entry
    → is_consistent (record v { live = some (record entry { last_seen_at = now }) }) ≡ true
consistent-touched v entry now h present =
    rw
      (
        live_touched entry now v.session,
        bound_touched entry now v.bound,
        control_touched entry now v.control,
      )
      (rw (← present) h)

pub consistent-capable :
    (v : NodeView) (control : TcpControlChannel)
    → is_consistent v ≡ true
    → v.control ≡ some control
    → is_consistent (record v { control = some (record control { reserve_capable = true }) }) ≡ true
consistent-capable v control h present = rw present at h

abbrev pub cleared : NodeView → NodeView
cleared v = record {
  session = Option.map set_disconnected v.session;
  live = none;
  bound = none;
  control = none;
  reserve = none;
}

pub removed_cleared :
    (sid aid : Uuid) (v : NodeView)
    → is_consistent v ≡ true
    → is_some_and v.live (live_is sid aid) ≡ true
    → removed_at sid aid v ≡ cleared v
removed_cleared sid aid v h current =
    let (live, present, matching) = is_some_and-cases v.live (live_is sid aid) current in
    let h' : (live_agrees v.session (some live)
          && bound_agrees (some live) v.bound
          && control_agrees (some live) v.control
          && not (is_some v.bound && is_some v.control))
        ≡ true =
      rw (← present) h in
    rw
      (
        bound_gone sid aid live v.bound (ground arith) matching,
        control_gone sid aid live v.control (ground arith) matching,
      )
      refl

pub consistent-cleared : (v : NodeView) → is_consistent (cleared v) ≡ true
consistent-cleared v = rw (disconnected_agrees v.session) refl
