-- ===== src/ReverseTunnel/Events/Counts.antt =====
-- crates/reverse-tunnel/src/model.rs: what the counters say of the attempts that were made.
use mobile_proxy.Base.{◌≤◌, ◌<◌, ◌≡◌, ◌⊎◌, true, false, List, [], ◌∷◌, ◌-◌, ◌^◌, arith}
use mobile_proxy.ReverseTunnel.Events.{
  TunnelActiveTransport, TunnelFailoverReason, TunnelDisconnectReason, TunnelEventCounters,
  no_events, begin_attempt, record_connection, record_failover, record_disconnect,
}

-- What a client reports, in the order in which it does.
pub data Event : Type 0 where
  began : Event
  connected : TunnelActiveTransport → Event
  failed_over : TunnelFailoverReason → Event
  disconnected : TunnelDisconnectReason → Event

abbrev pub apply : Event → TunnelEventCounters → TunnelEventCounters
apply began c = begin_attempt c
apply (connected transport) c = record_connection transport c
apply (failed_over reason) c = record_failover reason c
apply (disconnected reason) c = record_disconnect reason c

abbrev pub after : List Event → TunnelEventCounters → TunnelEventCounters
after [] c = c
after (e ∷ es) c = after es (apply e c)

-- The attempts cover the successes, and an attempt to reconnect that has not succeeded is one more,
-- unless the counter is full.
record IsCovered (c : TunnelEventCounters) : Type 0 where
  covered : c.reconnect_successes ≤ c.reconnect_attempts
  bounded : c.reconnect_attempts ≤ 2 ^ 64 - 1
  ahead :
      c.current_attempt_is_reconnect ≡ true
      → c.connection_recorded_in_attempt ≡ false
      → (c.reconnect_successes < c.reconnect_attempts) ⊎ (c.reconnect_attempts ≡ 2 ^ 64 - 1)

apply-IsCovered : (e : Event) (c : TunnelEventCounters) → IsCovered c → IsCovered (apply e c)
unfolding begin_attempt record_connection record_failover record_disconnect
apply-IsCovered began c h = record {
  covered = ground (arith, h.covered, h.bounded, h.ahead);
  bounded = ground (arith, h.covered, h.bounded);
  ahead = λ p q. ground (arith, h.covered, h.bounded, h.ahead);
}
apply-IsCovered (connected transport) c h = record {
  covered = ground (arith, h.covered, h.bounded, h.ahead);
  bounded = ground (arith, h.covered, h.bounded);
  ahead = λ p q. ground (arith, h.covered, h.bounded, h.ahead);
}
apply-IsCovered (failed_over reason) c h = record {
  covered = ground (arith, h.covered, h.bounded, h.ahead);
  bounded = ground (arith, h.covered, h.bounded);
  ahead = λ p q. ground (arith, h.covered, h.bounded, h.ahead);
}
apply-IsCovered (disconnected reason) c h = record {
  covered = ground (arith, h.covered, h.bounded, h.ahead);
  bounded = ground (arith, h.covered, h.bounded);
  ahead = λ p q. ground (arith, h.covered, h.bounded, h.ahead);
}

after-IsCovered : (es : List Event) (c : TunnelEventCounters) → IsCovered c → IsCovered (after es c)
after-IsCovered [] c h = h
after-IsCovered (e ∷ es) c h = after-IsCovered es (apply e c) (apply-IsCovered e c h)

-- After any events from the start, a client has not reconnected more often than it has tried to,
-- and its count of tries fits 64 bits.
pub successes_le_attempts :
    (es : List Event)
    → ((after es no_events).reconnect_successes ≤ (after es no_events).reconnect_attempts)
      × ((after es no_events).reconnect_attempts ≤ 2 ^ 64 - 1)
successes_le_attempts es =
    let h : IsCovered (after es no_events) =
      after-IsCovered es no_events
        (record { covered = omega arith; bounded = omega arith; ahead = λ p q. ground arith }) in
    (h.covered, h.bounded)
