-- ===== src/Foundation/Examples.antt =====
-- The foundation's theorems at concrete data.
use mobile_proxy.Base.{◌+◌, ◌≤◌, false, true, ◌≡◌, ◌↔◌, refl, ok}
use mobile_proxy.Foundation.Values.{
  deadline_window, deadline_from_now, deadline_is_expired, remaining_secs, max_deadline_window_secs,
  deadline_from_now-expires,
}

window_30 : deadline_window 30 ≡ ok 30
unfolding deadline_window
window_30 = refl

deadline_from_now-expires_example :
    ((deadline_is_expired 130 130 ≡ true) ↔ (100 + 30 ≤ 130))
    × ((deadline_is_expired 130 130 ≡ true) ↔ (remaining_secs 130 130 ≡ 0))
    × (deadline_is_expired 130 100 ≡ false)
    × (100 ≤ 130 → remaining_secs 130 130 ≤ max_deadline_window_secs)
unfolding deadline_from_now
deadline_from_now-expires_example = (deadline_from_now-expires 100 30 130 window_30).1 refl 130
