-- ===== src/Rtt/Bounds.antt =====
-- Bounds that the estimator of src/connection/rtt.rs keeps.
use tquic.Base.{ℕ, zero, suc, ◌/◌, ◌+◌, ◌-◌, ◌*◌, ◌≤◌, ◌<◌, ◌≡◌, min, max, some, arith}
use tquic.Rtt.{
  RttEstimator, create, smoothed_rtt, pto_base, try_set_init_rtt, update, timer_granularity,
}

-- The latest sample lies between the extremes, and no estimate passes the largest sample.
pub record IsValid (e : RttEstimator) : Type 0 where
  pub low : e.min_rtt ≤ e.latest_rtt
  pub high : e.latest_rtt ≤ e.max_rtt
  pub smooth : smoothed_rtt e ≤ e.max_rtt
  pub vary : e.rttvar ≤ e.max_rtt

pub create-IsValid : (r : ℕ) → IsValid (create r)
unfolding create smoothed_rtt
create-IsValid r = ground arith

pub try_set_init_rtt-IsValid :
    (e : RttEstimator) (r : ℕ) → IsValid e → IsValid (try_set_init_rtt e r)
unfolding try_set_init_rtt smoothed_rtt
try_set_init_rtt-IsValid e r v = ground arith

-- A sample, with whatever ack delay, keeps the bounds of the estimator.
pub update-IsValid :
    (e : RttEstimator) (ack_delay rtt : ℕ) → IsValid e → IsValid (update e ack_delay rtt)
unfolding update smoothed_rtt
update-IsValid e d r v = ground arith

-- After a first sample, the smoothed value stays between the old one and the adjusted sample, up
-- to the rounding of the division, and moves by an eighth of their distance at most.
pub update_smoothed :
    (e : RttEstimator) (ack_delay rtt m : ℕ)
    → e.smoothed ≡ some m
    → (min m (rtt - ack_delay) ≤ smoothed_rtt (update e ack_delay rtt))
      × (smoothed_rtt (update e ack_delay rtt) ≤ max m (rtt - ack_delay))
      × (8 * smoothed_rtt (update e ack_delay rtt) ≤ 7 * m + (rtt - ack_delay))
      × (7 * m + (rtt - ack_delay) < 8 * smoothed_rtt (update e ack_delay rtt) + 8)
unfolding update smoothed_rtt
update_smoothed e d r m s = ground arith

-- The ack delay is taken off whatever the smallest sample is: a sample equal to the smoothed and
-- the smallest value, with an ack delay of 8 ns or more, takes the smoothed value below the
-- smallest sample ever seen.
pub update_below_min :
    (e : RttEstimator) (ack_delay m : ℕ)
    → e.smoothed ≡ some m
    → e.min_rtt ≡ m
    → 8 ≤ m
    → 8 ≤ ack_delay
    → smoothed_rtt (update e ack_delay m) < (update e ack_delay m).min_rtt
unfolding update smoothed_rtt
update_below_min e d m s low h p = ground arith

-- The timeout exceeds the smoothed value by the timer granularity or more.
pub pto_base-le : (e : RttEstimator) → smoothed_rtt e + timer_granularity ≤ pto_base e
unfolding pto_base
pto_base-le e = omega arith

-- `n` samples on a path of `r` ns, each with an ack delay of `d` ns.
unfoldable pub steady : ℕ → RttEstimator → ℕ → ℕ → RttEstimator
steady zero e d r = e
steady (suc n) e d r = update (steady n e d r) d (r + d)

-- The distance that is left after `n` samples.
unfoldable left_of : ℕ → ℕ → ℕ
left_of zero x = x
left_of (suc n) x = 7 * left_of n x / 8
