-- ===== src/ReverseTunnel/Events.antt =====
-- crates/reverse-tunnel/src/model.rs: the counters of a tunnel client's connection events. An array
-- is the function from an index to what is there, and its indices are those of `index`.
pub mod Counts
pub mod Attempts
mod Examples
use mobile_proxy.Base.{
  ℕ, ◌+◌, ◌-◌, ◌^◌, String, Bool, true, false, not, ◌||◌, Option, none, some, List, [], ◌∷◌, ◌==◌,
  nat_eq, ltb, if◌then◌else◌,
}

pub data TunnelActiveTransport : Type 0 where
  tcp quic tls_tcp : TunnelActiveTransport

abbrev pub as_str : TunnelActiveTransport → String
as_str tcp = "tcp"
as_str quic = "quic"
as_str tls_tcp = "tls_tcp"

abbrev pub transport_index : TunnelActiveTransport → ℕ
transport_index tcp = 0
transport_index quic = 1
transport_index tls_tcp = 2

pub data TunnelFailoverReason : Type 0 where
  connect_timeout connect_failed authentication_failed session_closed session_error :
      TunnelFailoverReason

abbrev pub failover_index : TunnelFailoverReason → ℕ
failover_index connect_timeout = 0
failover_index connect_failed = 1
failover_index authentication_failed = 2
failover_index session_closed = 3
failover_index session_error = 4

pub data TunnelDisconnectReason : Type 0 where
  shutdown session_closed session_error : TunnelDisconnectReason

abbrev pub disconnect_index : TunnelDisconnectReason → ℕ
disconnect_index shutdown = 0
disconnect_index session_closed = 1
disconnect_index session_error = 2

pub data TunnelTransportTransition : Type 0 where
  none_to_tcp none_to_quic none_to_tls_tcp tcp_to_quic tcp_to_tls_tcp quic_to_tcp quic_to_tls_tcp
        tls_tcp_to_tcp tls_tcp_to_quic :
      TunnelTransportTransition

abbrev pub from_str : TunnelTransportTransition → String
from_str none_to_tcp = "none"
from_str none_to_quic = "none"
from_str none_to_tls_tcp = "none"
from_str tcp_to_quic = "tcp"
from_str tcp_to_tls_tcp = "tcp"
from_str quic_to_tcp = "quic"
from_str quic_to_tls_tcp = "quic"
from_str tls_tcp_to_tcp = "tls_tcp"
from_str tls_tcp_to_quic = "tls_tcp"

abbrev pub to_str : TunnelTransportTransition → String
to_str none_to_tcp = "tcp"
to_str quic_to_tcp = "tcp"
to_str tls_tcp_to_tcp = "tcp"
to_str none_to_quic = "quic"
to_str tcp_to_quic = "quic"
to_str tls_tcp_to_quic = "quic"
to_str none_to_tls_tcp = "tls_tcp"
to_str tcp_to_tls_tcp = "tls_tcp"
to_str quic_to_tls_tcp = "tls_tcp"

abbrev pub transition_index : TunnelTransportTransition → ℕ
transition_index none_to_tcp = 0
transition_index none_to_quic = 1
transition_index none_to_tls_tcp = 2
transition_index tcp_to_quic = 3
transition_index tcp_to_tls_tcp = 4
transition_index quic_to_tcp = 5
transition_index quic_to_tls_tcp = 6
transition_index tls_tcp_to_tcp = 7
transition_index tls_tcp_to_quic = 8

unfoldable pub from_pair :
    Option TunnelActiveTransport → TunnelActiveTransport → Option TunnelTransportTransition
from_pair none tcp = some none_to_tcp
from_pair none quic = some none_to_quic
from_pair none tls_tcp = some none_to_tls_tcp
from_pair (some tcp) quic = some tcp_to_quic
from_pair (some tcp) tls_tcp = some tcp_to_tls_tcp
from_pair (some quic) tcp = some quic_to_tcp
from_pair (some quic) tls_tcp = some quic_to_tls_tcp
from_pair (some tls_tcp) tcp = some tls_tcp_to_tcp
from_pair (some tls_tcp) quic = some tls_tcp_to_quic
from_pair _ _ = none

abbrev pub Counts : Type 0
Counts = ℕ → ℕ

pub record TunnelEventCounters : Type 0 where
  pub connection_counts : Counts
  pub transition_counts : Counts
  pub failover_counts : Counts
  pub disconnect_counts : Counts
  pub reconnect_attempts : ℕ
  pub reconnect_successes : ℕ
  pub ever_connected : Bool
  pub last_successful_transport : Option TunnelActiveTransport
  pub current_attempt_is_reconnect : Bool
  pub connection_recorded_in_attempt : Bool
  pub failover_recorded_in_attempt : Bool
  pub disconnect_recorded_in_attempt : Bool

-- `TunnelEventCounters::default()`.
abbrev pub no_events : TunnelEventCounters
no_events = record {
  connection_counts = λ _. 0;
  transition_counts = λ _. 0;
  failover_counts = λ _. 0;
  disconnect_counts = λ _. 0;
  reconnect_attempts = 0;
  reconnect_successes = 0;
  ever_connected = false;
  last_successful_transport = none;
  current_attempt_is_reconnect = false;
  connection_recorded_in_attempt = false;
  failover_recorded_in_attempt = false;
  disconnect_recorded_in_attempt = false;
}

-- `saturating_add(1)` on a `u64`.
abbrev pub increment : ℕ → ℕ
increment n = if ltb n (2 ^ 64 - 1) then n + 1 else n

abbrev pub increment_at : ℕ → Counts → Counts
increment_at i counts = λ j. if j == i then increment (counts j) else counts j

abbrev pub increment_transition : Option TunnelTransportTransition → Counts → Counts
increment_transition none counts = counts
increment_transition (some transition) counts = increment_at (transition_index transition) counts

unfoldable pub begin_attempt : TunnelEventCounters → TunnelEventCounters
begin_attempt c = record c {
  reconnect_attempts =
      if c.ever_connected then increment c.reconnect_attempts else c.reconnect_attempts;
  current_attempt_is_reconnect = c.ever_connected;
  connection_recorded_in_attempt = false;
  failover_recorded_in_attempt = false;
  disconnect_recorded_in_attempt = false;
}

unfoldable pub record_connection : TunnelActiveTransport → TunnelEventCounters → TunnelEventCounters
record_connection transport c = if c.connection_recorded_in_attempt then c else record c {
  connection_counts = increment_at (transport_index transport) c.connection_counts;
  transition_counts =
      increment_transition (from_pair c.last_successful_transport transport) c.transition_counts;
  reconnect_successes =
      if c.current_attempt_is_reconnect
      then increment c.reconnect_successes
      else c.reconnect_successes;
  ever_connected = true;
  last_successful_transport = some transport;
  connection_recorded_in_attempt = true;
}

unfoldable pub record_failover : TunnelFailoverReason → TunnelEventCounters → TunnelEventCounters
record_failover reason c = if c.failover_recorded_in_attempt then c else record c {
  failover_counts = increment_at (failover_index reason) c.failover_counts;
  failover_recorded_in_attempt = true;
}

unfoldable pub record_disconnect :
    TunnelDisconnectReason → TunnelEventCounters → TunnelEventCounters
record_disconnect reason c =
    if not c.connection_recorded_in_attempt || c.disconnect_recorded_in_attempt
    then c
    else record c {
      disconnect_counts = increment_at (disconnect_index reason) c.disconnect_counts;
      disconnect_recorded_in_attempt = true;
    }
