-- ===== src/FlowControl/Trace.antt =====
-- The life of a flow controller: a sequence of calls that keep its window within `max_window`.
use tquic.Base.{ℕ, ◌+◌, ◌^◌, ◌≤◌, arith}
use native.Mathlib.Nat.{le_refl, le_trans}
use tquic.FlowControl.{
  FlowControl, create, increase_read_off, update_max_data, autotune_window,
  ensure_window_lower_bound, increase_recv_off,
}
use tquic.FlowControl.Window.{IsValid, update_max_data-IsValid, autotune-IsValid}

-- Data is read after it was allowed; a limit is sent at any time, whether or not the code's own tests
-- ask for it, after autotuning or not; a lower bound for the window stays within `max_window`. Offsets
-- stay below 2^62 (RFC 9000, section 19.8).
pub data Step : FlowControl → FlowControl → Type 0 where
  receive : (s : FlowControl) (delta : ℕ) → Step s (increase_recv_off s delta)
  read :
      (s : FlowControl) (delta : ℕ)
      → s.read_off + delta ≤ s.max_data
      → s.read_off + delta ≤ 2 ^ 62
      → Step s (increase_read_off s delta)
  send : (s : FlowControl) (now : ℕ) → s.read_off ≤ 2 ^ 62 → Step s (update_max_data s now)
  tune : (s : FlowControl) (now srtt : ℕ) → Step s (autotune_window s now srtt)
  raise :
      (s : FlowControl) (min_window : ℕ)
      → min_window ≤ s.max_window
      → Step s (ensure_window_lower_bound s min_window)

pub data Reach (s : FlowControl) : FlowControl → Type 0 where
  here : Reach s s
  next : {t u : FlowControl} → Reach s t → Step t u → Reach s u

-- One call keeps the invariant, and never takes credit or window back.
record Kept (s t : FlowControl) : Type 0 where
  valid : IsValid t
  limit : s.max_data ≤ t.max_data
  grown : s.window ≤ t.window

Step-Kept : {s t : FlowControl} → Step s t → IsValid s → Kept s t
unfolding increase_recv_off increase_read_off update_max_data autotune_window
    ensure_window_lower_bound
Step-Kept (receive s delta) v = ground arith
Step-Kept (read s delta h p) v = ground arith
Step-Kept (send s now h) v = ground (arith, update_max_data-IsValid s now v h)
Step-Kept (tune s now srtt) v = ground (arith, autotune-IsValid s now srtt v)
Step-Kept (raise s m h) v = ground arith

-- From a valid state, in which the window is within `max_window`, in any sequence of calls that read no
-- more than was allowed and raise the window to no more than `max_window`, with limits sent at any time:
-- the state stays valid, the limit that the peer was told is never taken back, and the window never
-- shrinks.
pub Reach-max_data :
    {s t : FlowControl}
    → IsValid s
    → Reach s t
    → IsValid t × (s.max_data ≤ t.max_data) × (s.window ≤ t.window)
Reach-max_data {s} v here = (v, le_refl _, le_refl _)
Reach-max_data {s} v (next r st) =
    let w = Reach-max_data v r in
    let k = Step-Kept st w.0 in (k.valid, le_trans w.1 k.limit, le_trans w.2 k.grown)

-- A new controller is valid, if its window is within `max_window` and that is a varint.
pub create-IsValid :
    (window max_window : ℕ)
    → window ≤ max_window
    → max_window ≤ 2 ^ 62
    → IsValid (create window max_window)
unfolding create
create-IsValid w m h p = ground arith
