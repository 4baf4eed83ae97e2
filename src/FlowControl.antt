-- ===== src/FlowControl.antt =====
-- src/connection/flowcontrol.rs: the receive window of a stream or a connection.
-- An `Instant` and a `Duration` are numbers of nanoseconds; the difference of two instants stops
-- at 0, as it does in the standard library.
pub mod Window
pub mod Trace
mod Runs
use tquic.Base.{ℕ, ◌+◌, ◌-◌, ◌*◌, ◌%◌, ◌^◌, min, max, Bool, Option, none, some}
use tquic.Base.{ltb, if◌then◌else◌, add64, sub64}

pub record FlowControl : Type 0 where
  pub read_off : ℕ
  pub recv_off : ℕ
  pub max_data : ℕ
  pub window : ℕ
  pub max_window : ℕ
  pub last_updated : Option ℕ

-- `FlowControl::new`.
unfoldable pub create : ℕ → ℕ → FlowControl
create window max_window = record {
  read_off = 0;
  recv_off = 0;
  max_data = window;
  window = window;
  max_window = max_window;
  last_updated = none;
}

unfoldable pub increase_recv_off : FlowControl → ℕ → FlowControl
increase_recv_off s delta = record s { recv_off = add64 s.recv_off delta }

unfoldable pub increase_read_off : FlowControl → ℕ → FlowControl
increase_read_off s delta = record s { read_off = add64 s.read_off delta }

unfoldable pub should_send_max_data : FlowControl → Bool
should_send_max_data s = ltb (sub64 s.max_data s.read_off * 2 % 2 ^ 64) s.window

unfoldable pub max_data_next : FlowControl → ℕ
max_data_next s = add64 s.read_off s.window

unfoldable pub update_max_data : FlowControl → ℕ → FlowControl
unfolding max_data_next
update_max_data s now = record s { max_data = max_data_next s; last_updated = some now }

-- The window of `autotune_window`, by `last_updated`.
abbrev tuned : Option ℕ → ℕ → ℕ → ℕ → ℕ → ℕ
tuned none now srtt window max_window = window
tuned (some last_updated) now srtt window max_window =
    if ltb (now - last_updated) (srtt * 2) then min (window * 2 % 2 ^ 64) max_window else window

unfoldable pub autotune_window : FlowControl → ℕ → ℕ → FlowControl
autotune_window s now srtt = record s {
  window = tuned s.last_updated now srtt s.window s.max_window;
}

unfoldable pub ensure_window_lower_bound : FlowControl → ℕ → FlowControl
ensure_window_lower_bound s min_window = record s { window = max s.window min_window }
