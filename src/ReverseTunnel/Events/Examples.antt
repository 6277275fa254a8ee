-- ===== src/ReverseTunnel/Events/Examples.antt =====
-- crates/reverse-tunnel/src/model.rs: the theorems at a client that falls back from QUIC.
use mobile_proxy.Base.{◌≤◌, ◌≡◌, refl, List, [], ◌∷◌, ◌-◌, ◌^◌}
use mobile_proxy.ReverseTunnel.Events.{
  tcp, quic, tls_tcp, connect_failed, connect_timeout, shutdown, TunnelDisconnectReason,
  TunnelEventCounters, no_events, begin_attempt, record_connection, record_failover,
  record_disconnect,
}
use mobile_proxy.ReverseTunnel.Events.Counts.{
  Event, began, connected, failed_over, disconnected, after, successes_le_attempts,
}
use mobile_proxy.ReverseTunnel.Events.Attempts.{Report, connects, fails_over, disconnects}

abbrev fallback_events : List Event
fallback_events =
    began
    ∷ connected quic
    ∷ disconnected shutdown
    ∷ began
    ∷ failed_over connect_failed
    ∷ connected tls_tcp
    ∷ []

fallback_is_one_reconnect : (after fallback_events no_events).reconnect_successes ≡ 1
unfolding begin_attempt record_connection record_failover record_disconnect
fallback_is_one_reconnect = refl

successes_le_attempts_example :
    ((after fallback_events no_events).reconnect_successes
      ≤ (after fallback_events no_events).reconnect_attempts)
    × ((after fallback_events no_events).reconnect_attempts ≤ 2 ^ 64 - 1)
successes_le_attempts_example = successes_le_attempts fallback_events

abbrev fallback_reports : List Report
fallback_reports =
    fails_over connect_failed
    ∷ disconnects TunnelDisconnectReason.session_error
    ∷ connects tls_tcp
    ∷ fails_over connect_timeout
    ∷ connects tcp
    ∷ disconnects shutdown
    ∷ disconnects TunnelDisconnectReason.session_error
    ∷ []

abbrev after_quic : TunnelEventCounters
after_quic = begin_attempt (record_connection quic no_events)
