-- ===== src/ReverseTunnel/Events/Attempts.antt =====
-- crates/reverse-tunnel/src/model.rs: what one attempt adds to the counters.
use mathlib.Core.Option
use mobile_proxy.Base.{ℕ, Bool, true, false, ◌≡◌, Option, none, some, List, [], ◌∷◌}
use mobile_proxy.ReverseTunnel.Events.{
  TunnelActiveTransport, TunnelFailoverReason, TunnelDisconnectReason, TunnelTransportTransition,
  as_str, from_str, to_str, TunnelEventCounters, Counts, record_connection, record_failover,
  record_disconnect, increment_at,
}

-- What is reported within an attempt.
pub data Report : Type 0 where
  connects : TunnelActiveTransport → Report
  fails_over : TunnelFailoverReason → Report
  disconnects : TunnelDisconnectReason → Report

abbrev pub reported : List Report → TunnelEventCounters → TunnelEventCounters
reported [] c = c
reported (connects transport ∷ rest) c = reported rest (record_connection transport c)
reported (fails_over reason ∷ rest) c = reported rest (record_failover reason c)
reported (disconnects reason ∷ rest) c = reported rest (record_disconnect reason c)

-- The first connection, the first failover, and the first disconnect that follows a connection.
abbrev pub first_connection : List Report → Option TunnelActiveTransport
first_connection [] = none
first_connection (connects transport ∷ rest) = some transport
first_connection (fails_over reason ∷ rest) = first_connection rest
first_connection (disconnects reason ∷ rest) = first_connection rest

abbrev pub first_failover : List Report → Option TunnelFailoverReason
first_failover [] = none
first_failover (connects transport ∷ rest) = first_failover rest
first_failover (fails_over reason ∷ rest) = some reason
first_failover (disconnects reason ∷ rest) = first_failover rest

abbrev pub first_disconnect : Bool → List Report → Option TunnelDisconnectReason
first_disconnect was_connected [] = none
first_disconnect was_connected (connects transport ∷ rest) = first_disconnect true rest
first_disconnect was_connected (fails_over reason ∷ rest) = first_disconnect was_connected rest
first_disconnect true (disconnects reason ∷ rest) = some reason
first_disconnect false (disconnects reason ∷ rest) = first_disconnect false rest

-- A count of what there is, if there is any.
abbrev pub counted : {A : Type 0} → (A → ℕ) → Option A → Counts → Counts
counted index none counts = counts
counted index (some a) counts = increment_at (index a) counts

-- How the transition from the last transport to another is named.
abbrev pub IsNamed :
    Option TunnelActiveTransport → TunnelActiveTransport → TunnelTransportTransition → Type 0
IsNamed last transport transition =
    (to_str transition ≡ as_str transport)
    × (from_str transition ≡ Option.get_or (Option.map as_str last) "none")
