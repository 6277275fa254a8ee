-- ===== src/ReverseTunnel/Server/View.antt =====
-- crates/reverse-tunnel/src/state.rs: the registry seen from one node. The maps of the state are one
-- map from a node to all that is kept for it, and an operation on a session changes one node's entry.
use mathlib.Core.Option
use mobile_proxy.Base.{
  String, string_eq, Bool, true, false, ◌≡◌, refl, Option, none, some, List, is_some_and, lookup,
  insert, remove, Map, lookup-insert, map_laws, arith, ◌==◌, if◌then◌else◌, Bool-cases, inl, inr,
  ==→eq, ==_refl, Option-cases, ap, sym, nat_eq,
}
use mobile_proxy.ReverseTunnel.Server.Types.{
  Uuid, Instant, SessionAuthority, quic, tcp, SessionLiveness, TcpControlChannel, SessionBound,
  ReservedTcpStream, ServerSessionSnapshot, ServerState, bound_is, control_is, remove_session_bound,
}
use mobile_proxy.ReverseTunnel.Server.Sessions.{
  accepted_after, set_disconnected, mark_disconnected, replace_session_authority,
  disconnect_current, remove_tcp_control_for_authority, remove_quic_connection_for_authority,
}

pub record NodeView : Type 0 where
  pub session : Option ServerSessionSnapshot
  pub live : Option SessionLiveness
  pub bound : Option SessionBound
  pub control : Option TcpControlChannel
  pub reserve : Option (List ReservedTcpStream)

abbrev pub view : ServerState → String → NodeView
view s n = record {
  session = lookup n s.sessions;
  live = lookup n s.session_liveness;
  bound = lookup n s.connections;
  control = lookup n s.tcp_controls;
  reserve = lookup n s.reserved_tcp;
}

abbrev pub keep_unless {ℓ} : {A : Type ℓ} → (A → Bool) → Option A → Option A
keep_unless p none = none
keep_unless p (some a) = if p a then none else some a

abbrev pub installed : String → Uuid → SessionAuthority → Uuid → Instant → NodeView → NodeView
installed node sid (quic connection) aid now v = record {
  session = some (record {
    node_id = node;
    session_id = sid;
    connected = true;
    accepted_connections = accepted_after v.session;
    last_heartbeat_sequence = none;
  });
  live = some (record { session_id = sid; authority_id = aid; last_seen_at = now });
  bound = some (record { session_id = sid; authority_id = aid; value = connection });
  control = none;
  reserve = none;
}
installed node sid (tcp sender) aid now v = record {
  session = some (record {
    node_id = node;
    session_id = sid;
    connected = true;
    accepted_connections = accepted_after v.session;
    last_heartbeat_sequence = none;
  });
  live = some (record { session_id = sid; authority_id = aid; last_seen_at = now });
  bound = none;
  control =
      some
        (record { session_id = sid; authority_id = aid; sender = sender; reserve_capable = false });
  reserve = none;
}

-- Installing an authority gives its node the entry above, and leaves all other nodes as they are.
pub view-replace :
    (s : ServerState) (node : String) (sid : Uuid) (authority : SessionAuthority) (aid : Uuid)
    (now : Instant) (n : String)
    → view (replace_session_authority s node sid authority aid now).0 n
      ≡ (if node == n then installed node sid authority aid now (view s node) else view s n)
unfolding replace_session_authority
view-replace s node sid (quic connection) aid now n = simp map_laws (ground arith)
view-replace s node sid (tcp sender) aid now n = simp map_laws (ground arith)

pub lookup-mark_disconnected :
    (node n : String) (m : Map String ServerSessionSnapshot)
    → lookup n (mark_disconnected node m)
      ≡ (if node == n then Option.map set_disconnected (lookup node m) else lookup n m)
lookup-mark_disconnected node n m = elim (Option-cases (lookup node m)) [
  | inl absent ↦
      rw (absent, mark_disconnected)
        (elim (Bool-cases (node == n)) [
          | inl same ↦ rw same (rw (← ==→eq node n same) absent)
          | inr other ↦ rw other
        ])
  | inr (session, present) ↦
      rw (present, mark_disconnected) (lookup-insert node n (set_disconnected session) m)
]

abbrev pub removed_at : Uuid → Uuid → NodeView → NodeView
removed_at sid aid v = record {
  session = Option.map set_disconnected v.session;
  live = none;
  bound = keep_unless (bound_is sid aid) v.bound;
  control = keep_unless (control_is sid aid) v.control;
  reserve = none;
}

pub view-disconnect_current :
    (s : ServerState) (node : String) (sid aid : Uuid) (n : String)
    → view (disconnect_current s node sid aid) n
      ≡ (if node == n then removed_at sid aid (view s node) else view s n)
unfolding disconnect_current remove_session_bound
view-disconnect_current s node sid aid n = simp (map_laws, lookup-mark_disconnected) (ground arith)

same_view :
    (s : ServerState) (node n : String) → view s n ≡ (if node == n then view s node else view s n)
same_view s node n = elim (Bool-cases (node == n)) [
  | inl same ↦ rw same (ap (view s) (sym (==→eq node n same)))
  | inr other ↦ rw other
]

abbrev pub uncontrolled_at : Uuid → Uuid → NodeView → NodeView
uncontrolled_at sid aid v =
    if is_some_and v.control (control_is sid aid)
    then record v { control = none; reserve = none }
    else v

abbrev pub unbound_at : Uuid → Uuid → NodeView → NodeView
unbound_at sid aid v = record v { bound = keep_unless (bound_is sid aid) v.bound }

if-none {ℓ} :
    {A : Type ℓ} (p : A → Bool) (o : Option A)
    → (if is_some_and o p then none else o) ≡ keep_unless p o
if-none p none = refl
if-none p (some a) = refl

-- An operation that changes one node's entry, by what it does to that node and to another.
pub view_cases :
    (s s' : ServerState) (node n : String) (w : NodeView)
    → view s' node ≡ w
    → ((node == n) ≡ false → view s' n ≡ view s n)
    → view s' n ≡ (if node == n then w else view s n)
view_cases s s' node n w own others = elim (Bool-cases (node == n)) [
  | inl same ↦ rw same (rw (← ==→eq node n same) own)
  | inr other ↦ rw other (others other)
]

pub view-remove_tcp_control :
    (s : ServerState) (node : String) (sid aid : Uuid) (n : String)
    → view (remove_tcp_control_for_authority s node sid aid) n
      ≡ (if node == n then uncontrolled_at sid aid (view s node) else view s n)
unfolding remove_tcp_control_for_authority
view-remove_tcp_control s node sid aid n =
    elim (Bool-cases (is_some_and (lookup node s.tcp_controls) (control_is sid aid))) [
      | inl matching ↦ rw matching (
          view_cases s
            (record s {
              tcp_controls = remove node s.tcp_controls;
              reserved_tcp = remove node s.reserved_tcp;
            })
            node n (record (view s node) { control = none; reserve = none })
            (simp (map_laws, ==_refl) refl) (λ other. simp (map_laws, other) refl))
      | inr other ↦ rw other (same_view s node n)
    ]

pub view-remove_quic_connection :
    (s : ServerState) (node : String) (sid aid : Uuid) (n : String)
    → view (remove_quic_connection_for_authority s node sid aid).0 n
      ≡ (if node == n then unbound_at sid aid (view s node) else view s n)
unfolding remove_quic_connection_for_authority remove_session_bound
view-remove_quic_connection s node sid aid n =
    view_cases s (remove_quic_connection_for_authority s node sid aid).0 node n _
      (simp (map_laws, ==_refl) (rw (if-none (bound_is sid aid) (lookup node s.connections)) refl))
      (λ other. simp (map_laws, other) refl)

pub view-insert_live :
    (s : ServerState) (node : String) (entry : SessionLiveness) (n : String)
    → view (record s { session_liveness = insert node entry s.session_liveness }) n
      ≡ (if node == n then record (view s node) { live = some entry } else view s n)
view-insert_live s node entry n =
    view_cases s (record s { session_liveness = insert node entry s.session_liveness }) node n
      (record (view s node) { live = some entry }) (simp (map_laws, ==_refl) refl)
      (λ other. simp (map_laws, other) refl)

pub view-insert_control :
    (s : ServerState) (node : String) (control : TcpControlChannel) (n : String)
    → view (record s { tcp_controls = insert node control s.tcp_controls }) n
      ≡ (if node == n then record (view s node) { control = some control } else view s n)
view-insert_control s node control n =
    view_cases s (record s { tcp_controls = insert node control s.tcp_controls }) node n
      (record (view s node) { control = some control }) (simp (map_laws, ==_refl) refl)
      (λ other. simp (map_laws, other) refl)
