-- ===== src/FlowControl/Runs.antt =====
-- Runs of src/connection/flowcontrol.rs.
use tquic.Base.{◌≤◌, ◌<◌, some, arith}
use tquic.FlowControl.{
  FlowControl, update_max_data, max_data_next, autotune_window, increase_read_off,
  ensure_window_lower_bound,
}
use tquic.FlowControl.Window.{IsValid, limit_taken_back}
use tquic.FlowControl.Trace.{here, next, send, tune, Reach-max_data}

-- 51 of 100 bytes read, with a window that may grow to 200.
abbrev half_read : FlowControl
half_read = record {
  read_off = 51;
  recv_off = 60;
  max_data = 100;
  window = 100;
  max_window = 200;
  last_updated = some 7;
}

abbrev later : FlowControl
later = update_max_data (autotune_window half_read 9 5) 9

small : (autotune_window half_read 9 5).read_off ≤ 100
unfolding autotune_window
small = omega arith

Reach-max_data_example : IsValid later × (100 ≤ later.max_data) × (100 ≤ later.window)
Reach-max_data_example = Reach-max_data {s = half_read} {t = later} (omega arith) (
    next (next here (tune half_read 9 5))
      (send (autotune_window half_read 9 5) 9 (omega (arith, small))))

-- The window is raised to 1000, though it may grow to 200 only, and ten bytes are read.
limit_taken_back_example :
    let told = update_max_data (ensure_window_lower_bound half_read 1000) 8 in
    let read = increase_read_off told 10 in
    (told.max_data < max_data_next read)
    × ((update_max_data (autotune_window read 9 5) 9).max_data < told.max_data)
limit_taken_back_example =
    limit_taken_back half_read 1000 10 8 9 5 (omega arith) (omega arith) (omega arith) (omega arith)
      (omega arith) (omega arith)
