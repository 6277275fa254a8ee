-- ===== src/ReverseTunnel/Server/Types.antt =====
-- crates/reverse-tunnel/src/state.rs: the registry's data. An `Instant` and a `Duration` are numbers
-- of one unit, a `Uuid` the number of its bits. A QUIC connection, a channel's sender, a TCP stream
-- and a waiting requester are handles: what the transport libraries answer about them at the time of
-- an operation is the argument `Net`.
use mobile_proxy.Base.{
  ℕ, ◌-◌, String, string_eq, nat_eq, Bool, ◌&&◌, Option, none, List, [], ◌==◌, leb, is_some_and,
  Map, lookup, remove, if◌then◌else◌,
}

abbrev pub Uuid : Type 0
Uuid = ℕ

abbrev pub Instant : Type 0
Instant = ℕ

abbrev pub Handle : Type 0
Handle = ℕ

abbrev pub max_pending_tcp_streams : ℕ
max_pending_tcp_streams = 256

abbrev pub max_pending_tcp_streams_per_node : ℕ
max_pending_tcp_streams_per_node = 32

abbrev pub max_reserved_tcp_streams_per_node : ℕ
max_reserved_tcp_streams_per_node = 32

-- What the transports answer: `close_reason().is_some()`, `is_closed()`, whether the requester of a
-- pending stream still waits, and whether a frame can be written to a stream.
pub record Net : Type 0 where
  pub connection_closed : Handle → Bool
  pub sender_closed : Handle → Bool
  pub requester_waits : Handle → Bool
  pub write_ok : Handle → Bool

pub record SessionLiveness : Type 0 where
  pub session_id : Uuid
  pub authority_id : Uuid
  pub last_seen_at : Instant

pub record TcpControlChannel : Type 0 where
  pub session_id : Uuid
  pub authority_id : Uuid
  pub sender : Handle
  pub reserve_capable : Bool

pub record ReservedTcpStream : Type 0 where
  pub session_id : Uuid
  pub authority_id : Uuid
  pub stream : Handle

pub record SessionBound : Type 0 where
  pub session_id : Uuid
  pub authority_id : Uuid
  pub value : Handle

pub data SessionAuthority : Type 0 where
  quic tcp : Handle → SessionAuthority

pub record ActiveSessionTarget : Type 0 where
  pub node_id : String
  pub session_id : Uuid
  pub authority_id : Uuid

pub record PendingTcpProxyRequest : Type 0 where
  pub stream_id : Uuid
  pub expected_node_id : String
  pub expected_session_id : Uuid
  pub expected_authority_id : Uuid
  pub created_at : Instant
  pub deadline : Instant
  pub response_sender : Handle

pub data TcpProxyStreamRejection : Type 0 where
  unexpected_stream_id node_mismatch session_mismatch session_inactive request_expired
        requester_closed :
      TcpProxyStreamRejection

-- crates/reverse-tunnel/src/model.rs.
pub record ServerSessionSnapshot : Type 0 where
  pub node_id : String
  pub session_id : Uuid
  pub connected : Bool
  pub accepted_connections : ℕ
  pub last_heartbeat_sequence : Option ℕ

pub record ServerState : Type 0 where
  pub sessions : Map String ServerSessionSnapshot
  pub connections : Map String SessionBound
  pub tcp_controls : Map String TcpControlChannel
  pub pending_tcp : Map Uuid PendingTcpProxyRequest
  pub reserved_tcp : Map String (List ReservedTcpStream)
  pub session_liveness : Map String SessionLiveness
  pub heartbeat_timeout : ℕ

-- `ReverseTunnelServerState::default()`, with the timeout of 30 seconds in the model's unit.
abbrev pub empty_state : ℕ → ServerState
empty_state timeout = record {
  sessions = [];
  connections = [];
  tcp_controls = [];
  pending_tcp = [];
  reserved_tcp = [];
  session_liveness = [];
  heartbeat_timeout = timeout;
}

-- The comparisons that the code repeats on entries that carry a session and an authority.
abbrev pub control_is : Uuid → Uuid → TcpControlChannel → Bool
control_is sid aid control = control.session_id == sid && control.authority_id == aid

abbrev pub bound_is : Uuid → Uuid → SessionBound → Bool
bound_is sid aid bound = bound.session_id == sid && bound.authority_id == aid

abbrev pub live_is : Uuid → Uuid → SessionLiveness → Bool
live_is sid aid live = live.session_id == sid && live.authority_id == aid

abbrev pub session_is : Uuid → ServerSessionSnapshot → Bool
session_is sid session = session.connected && session.session_id == sid

abbrev pub request_is : String → Uuid → Uuid → PendingTcpProxyRequest → Bool
request_is node sid aid request =
    request.expected_node_id == node
    && request.expected_session_id == sid
    && request.expected_authority_id == aid

-- `saturating_duration_since` stops at 0, as `-` does.
unfoldable pub session_is_fresh :
    Map String SessionLiveness → String → Uuid → Uuid → Instant → ℕ → Bool
session_is_fresh liveness node sid aid now timeout =
    is_some_and (lookup node liveness)
      (λ entry. live_is sid aid entry && leb (now - entry.last_seen_at) timeout)

-- The map that is left; what is removed is the entry that was there.
unfoldable pub remove_session_bound :
    Map String SessionBound → String → Uuid → Uuid → Map String SessionBound
remove_session_bound entries node sid aid =
    if is_some_and (lookup node entries) (bound_is sid aid) then remove node entries else entries

-- The connection that `remove_session_bound` hands back, to be closed.
unfoldable pub removed_session_bound :
    Map String SessionBound → String → Uuid → Uuid → Option SessionBound
removed_session_bound entries node sid aid =
    if is_some_and (lookup node entries) (bound_is sid aid) then lookup node entries else none

unfoldable pub is_expired : PendingTcpProxyRequest → Instant → Bool
is_expired request now = leb request.deadline now
