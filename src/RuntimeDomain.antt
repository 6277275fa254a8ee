-- ===== src/RuntimeDomain.antt =====
-- crates/runtime-domain/src/lib.rs: the transport-neutral lifecycle state machine of the runtime.
-- `reduce` is one function by clauses, an arm of the `match` each, with the arm `_` last.
pub mod Traces
mod Examples
use mobile_proxy.Base.{List, [], ◌∷◌, Bool, true, false}
use mathlib.Core.Logic.{ite}

pub data RuntimeState : Type 0 where
  booting waiting_tunnel waiting_cellular starting_proxy healthy recovering quarantined :
      RuntimeState

pub data RuntimeEvent : Type 0 where
  boot_completed tunnel_ready tunnel_lost cellular_ready cellular_lost proxy_ready proxy_failed
        rotation_requested recovery_timed_out :
      RuntimeEvent

pub data RuntimeAction : Type 0 where
  wait_for_tunnel wait_for_cellular start_proxy mark_healthy recover_tunnel repair_cellular
        restart_proxy start_rotation quarantine noop :
      RuntimeAction

pub record Transition : Type 0 where
  pub previous_state : RuntimeState
  pub state : RuntimeState
  pub action : RuntimeAction

pub RuntimeState-discrete : Discrete RuntimeState
RuntimeState-discrete = hlevel

unfoldable pub changed : Transition → Bool
changed t = ite (RuntimeState-discrete t.previous_state t.state) false true

abbrev go : RuntimeState → RuntimeState → RuntimeAction → Transition
go from to action = record { previous_state = from; state = to; action = action }

unfoldable pub reduce : RuntimeState → RuntimeEvent → Transition
reduce booting boot_completed = go booting waiting_tunnel wait_for_tunnel
reduce waiting_tunnel tunnel_ready = go waiting_tunnel waiting_cellular wait_for_cellular
reduce waiting_cellular cellular_ready = go waiting_cellular starting_proxy start_proxy
reduce starting_proxy proxy_ready = go starting_proxy healthy mark_healthy
reduce healthy tunnel_lost = go healthy recovering recover_tunnel
reduce starting_proxy tunnel_lost = go starting_proxy recovering recover_tunnel
reduce waiting_cellular tunnel_lost = go waiting_cellular recovering recover_tunnel
reduce healthy cellular_lost = go healthy recovering repair_cellular
reduce starting_proxy cellular_lost = go starting_proxy recovering repair_cellular
reduce healthy proxy_failed = go healthy recovering restart_proxy
reduce starting_proxy proxy_failed = go starting_proxy recovering restart_proxy
reduce healthy rotation_requested = go healthy recovering start_rotation
reduce recovering tunnel_ready = go recovering waiting_cellular wait_for_cellular
reduce recovering cellular_ready = go recovering starting_proxy start_proxy
reduce recovering recovery_timed_out = go recovering quarantined quarantine
reduce state _ = go state state noop

-- The state that a list of events leads to, for the properties: the callers of `reduce` keep its `state`.
unfoldable pub run : RuntimeState → List RuntimeEvent → RuntimeState
run s [] = s
run s (e ∷ es) = run (reduce s e).state es
