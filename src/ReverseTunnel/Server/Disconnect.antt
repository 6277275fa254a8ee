-- ===== src/ReverseTunnel/Server/Disconnect.antt =====
-- crates/reverse-tunnel/src/state.rs: what a disconnect leaves.
use mobile_proxy.Base.{
  String, string_eq, nat_eq, Bool, true, false, ◌≡◌, refl, ◌∙◌, subst, sym, none, some, is_some_and,
  lookup, arith, ◌==◌, if◌then◌else◌, Bool-cases, inl, inr, ==_refl, All, not, retain-All,
  lookup-retain_kept, lookup-retain_none,
}
use mobile_proxy.ReverseTunnel.Server.Types.{
  Uuid, ServerState, PendingTcpProxyRequest, request_is, live_is,
}
use mobile_proxy.ReverseTunnel.Server.Sessions.{
  disconnect_session_authority, disconnect_current, is_current,
}
use mobile_proxy.ReverseTunnel.Server.View.{view, view-disconnect_current, removed_at}
use mobile_proxy.ReverseTunnel.Server.Consistent.{
  is_consistent, cleared, removed_cleared, consistent-cleared,
}
use mobile_proxy.ReverseTunnel.Server.WellFormed.{IsWellFormed}
use mobile_proxy.ReverseTunnel.Server.Fencing.{is_live, IsFenced, stale_authority-IsFenced}

-- A disconnect that reports success has found the authority live, and done its work.
disconnect_succeeds :
    (s : ServerState) (node : String) (sid aid : Uuid)
    → (disconnect_session_authority s node sid aid).2 ≡ true
    → ((disconnect_session_authority s node sid aid).0 ≡ disconnect_current s node sid aid)
      × (is_live s node sid aid ≡ true)
unfolding disconnect_session_authority is_current
disconnect_succeeds s node sid aid success = elim (Bool-cases (is_current s node sid aid)) [
  | inl current ↦ (rw current refl, ground arith)
  | inr stale ↦ ground arith
]

disconnect_current-clears :
    (s : ServerState) (node : String) (sid aid : Uuid)
    → IsWellFormed s
    → is_live s node sid aid ≡ true
    → ((n : String)
        → view (disconnect_current s node sid aid) n
          ≡ (if node == n then cleared (view s node) else view s n))
      × ((any_sid any_aid : Uuid)
          → IsFenced (disconnect_current s node sid aid) node any_sid any_aid)
disconnect_current-clears s node sid aid wf live =
    let s' : ServerState = disconnect_current s node sid aid in
    let gone : removed_at sid aid (view s node) ≡ cleared (view s node) =
      removed_cleared sid aid (view s node) (wf node) live in
    let here : view s' node ≡ cleared (view s node) =
      (rw ==_refl at (view-disconnect_current s node sid aid node)) ∙ gone in
    (
      (λ n.
          subst (λ v. view s' n ≡ (if node == n then v else view s n)) gone
            (view-disconnect_current s node sid aid n)),
      (λ any_sid any_aid.
          stale_authority-IsFenced s' node any_sid any_aid
            (subst (λ v. is_consistent v ≡ true) (sym here) (consistent-cleared (view s node)))
            (subst (λ v. is_some_and v.live (live_is any_sid any_aid) ≡ false) (sym here) refl)),
    )

-- Of the requests that wait for a stream, those of the session and authority are gone, and the others
-- wait as they did.
abbrev pub IsCancelled : ServerState → ServerState → String → Uuid → Uuid → Type 0
IsCancelled s s' node sid aid =
    All (λ (_, request). not (request_is node sid aid request) ≡ true) s'.pending_tcp
    × ((stream_id : Uuid) (request : PendingTcpProxyRequest)
        → lookup stream_id s.pending_tcp ≡ some request
        → not (request_is node sid aid request) ≡ true
        → lookup stream_id s'.pending_tcp ≡ some request)
    × ((stream_id : Uuid)
        → lookup stream_id s.pending_tcp ≡ none
        → lookup stream_id s'.pending_tcp ≡ none)

disconnect_current-IsCancelled :
    (s : ServerState) (node : String) (sid aid : Uuid)
    → IsCancelled s (disconnect_current s node sid aid) node sid aid
unfolding disconnect_current
disconnect_current-IsCancelled s node sid aid =
    let stays : Uuid → PendingTcpProxyRequest → Bool =
      λ _ request. not (request_is node sid aid request) in
    (
      retain-All stays s.pending_tcp,
      λ stream_id request found other.
          lookup-retain_kept stays stream_id request s.pending_tcp found other,
      λ stream_id absent. lookup-retain_none stays stream_id s.pending_tcp absent,
    )

-- In a well-formed state, a disconnect that reports success has left of its node only the session, as
-- disconnected, and the sessions, authorities, transports and reserves of all other nodes as they were;
-- the requests that wait for a stream of the session and authority are gone, and the others wait as they
-- did; from then on every authority is fenced off at the node, so that a second disconnect reports that
-- there is nothing to do.
pub disconnect-clears :
    (s : ServerState) (node : String) (sid aid : Uuid)
    → IsWellFormed s
    → (disconnect_session_authority s node sid aid).2 ≡ true
    → ((n : String)
        → view (disconnect_session_authority s node sid aid).0 n
          ≡ (if node == n then cleared (view s node) else view s n))
      × ((any_sid any_aid : Uuid)
          → IsFenced (disconnect_session_authority s node sid aid).0 node any_sid any_aid)
      × IsCancelled s (disconnect_session_authority s node sid aid).0 node sid aid
disconnect-clears s node sid aid wf success =
    let (done, live) = disconnect_succeeds s node sid aid success in
    subst
      (λ (s' : ServerState).
        ((n : String) → view s' n ≡ (if node == n then cleared (view s node) else view s n))
        × ((any_sid any_aid : Uuid) → IsFenced s' node any_sid any_aid)
        × IsCancelled s s' node sid aid)
      (sym done)
      (
        (disconnect_current-clears s node sid aid wf live).0,
        (disconnect_current-clears s node sid aid wf live).1,
        disconnect_current-IsCancelled s node sid aid,
      )
