-- ===== src/FlowControl/Window.antt =====
-- What src/connection/flowcontrol.rs promises of the limit and of the window.
use tquic.Base.{ℕ, ◌+◌, ◌-◌, ◌*◌, ◌^◌, ◌≤◌, ◌<◌, ◌≡◌, true, some, arith}
use tquic.FlowControl.{
  FlowControl, should_send_max_data, max_data_next, update_max_data, autotune_window,
  increase_read_off, ensure_window_lower_bound,
}

-- What is read was allowed, the credit that is left fits the window, and no sum wraps.
pub record IsValid (s : FlowControl) : Type 0 where
  pub read : s.read_off ≤ s.max_data
  pub credit : s.max_data ≤ s.read_off + s.window
  pub within : s.window ≤ s.max_window
  pub small_window : s.max_window ≤ 2 ^ 62
  pub small : s.max_data ≤ 2 ^ 62 + 2 ^ 62

-- When the code decides to send a new limit, less than half of the window is left, and the new
-- limit is above the old one by more than half of the window.
pub should_send_grows :
    (s : FlowControl)
    → IsValid s
    → s.read_off ≤ 2 ^ 62
    → should_send_max_data s ≡ true
    → ((s.max_data - s.read_off) * 2 < s.window) × (2 * s.max_data + s.window < 2 * max_data_next s)
unfolding should_send_max_data max_data_next
should_send_grows s v small e = ground arith

pub update_max_data-IsValid :
    (s : FlowControl) (now : ℕ) → IsValid s → s.read_off ≤ 2 ^ 62 → IsValid (update_max_data s now)
unfolding update_max_data
update_max_data-IsValid s now v small = ground arith

pub autotune-IsValid :
    (s : FlowControl) (now srtt : ℕ) → IsValid s → IsValid (autotune_window s now srtt)
unfolding autotune_window
autotune-IsValid s now srtt v = ground arith

-- Autotuning doubles the window or leaves it, and never lets it pass `max_window`; it does not
-- shrink a window that is within `max_window`.
pub autotune_bounds :
    (s : FlowControl) (now srtt : ℕ)
    → IsValid s
    → let w = (autotune_window s now srtt).window in
      (s.window ≤ w) × (w ≤ s.max_window) × (w ≤ 2 * s.window)
unfolding autotune_window
autotune_bounds s now srtt v = ground arith

-- A window above `max_window` is cut down to it when the last update is recent: autotuning can
-- make the window smaller.
pub autotune_shrinks :
    (s : FlowControl) (now srtt last : ℕ)
    → s.last_updated ≡ some last
    → now - last < srtt * 2
    → s.max_window < s.window
    → s.window < 2 ^ 63
    → (autotune_window s now srtt).window < s.window
unfolding autotune_window
autotune_shrinks s now srtt last e near over small = ground arith

-- A lower bound `w` above `max_window` makes the window pass `max_window`. A limit is sent, `delta`
-- bytes are read, less than what `w` is above `max_window`, and a new limit, which is above the first
-- one, becomes due. Autotuning, within two round-trip times, cuts the window down before it is sent,
-- and the limit sent is below the first one: what the peer was told is taken back.
pub limit_taken_back :
    (s : FlowControl) (w delta now later srtt : ℕ)
    → IsValid s
    → s.max_window + delta < w
    → 0 < delta
    → s.read_off ≤ 2 ^ 62
    → w ≤ 2 ^ 62
    → later - now < srtt * 2
    → let told = update_max_data (ensure_window_lower_bound s w) now in
      let read = increase_read_off told delta in
      (told.max_data < max_data_next read)
      × ((update_max_data (autotune_window read later srtt) later).max_data < told.max_data)
unfolding update_max_data max_data_next autotune_window increase_read_off ensure_window_lower_bound
limit_taken_back s w delta now later srtt v over pos small wide near = (ground arith, ground arith)
