-- ===== src/Rtt.antt =====
-- src/connection/rtt.rs: the estimator of the round-trip time. A `Duration` is in nanoseconds.
pub mod Bounds
mod Runs
use tquic.Base.{ℕ, ◌+◌, ◌-◌, ◌*◌, ◌/◌, min, max, Option, none, some, ltb, if◌then◌else◌}

pub record RttEstimator : Type 0 where
  pub latest_rtt : ℕ
  pub smoothed : Option ℕ
  pub rttvar : ℕ
  pub min_rtt : ℕ
  pub max_rtt : ℕ

-- `TIMER_GRANULARITY` of src/lib.rs, 1 ms.
abbrev pub timer_granularity : ℕ
timer_granularity = 1_000_000

-- `RttEstimator::new`.
unfoldable pub create : ℕ → RttEstimator
create initial_rtt = record {
  latest_rtt = initial_rtt;
  smoothed = none;
  rttvar = initial_rtt / 2;
  min_rtt = initial_rtt;
  max_rtt = initial_rtt;
}

abbrev or_latest : Option ℕ → ℕ → ℕ
or_latest none latest = latest
or_latest (some x) latest = x

unfoldable pub smoothed_rtt : RttEstimator → ℕ
smoothed_rtt e = or_latest e.smoothed e.latest_rtt

unfoldable pub pto_base : RttEstimator → ℕ
unfolding smoothed_rtt
pto_base e = smoothed_rtt e + max (4 * e.rttvar) timer_granularity

abbrev set_init : Option ℕ → RttEstimator → ℕ → RttEstimator
set_init (some x) e init_rtt = e
set_init none e init_rtt = record {
  latest_rtt = init_rtt;
  smoothed = none;
  rttvar = init_rtt / 2;
  min_rtt = init_rtt;
  max_rtt = init_rtt;
}

unfoldable pub try_set_init_rtt : RttEstimator → ℕ → RttEstimator
try_set_init_rtt e init_rtt = set_init e.smoothed e init_rtt

-- The first sample is taken as it is; a later one less its ack delay.
abbrev sampled : Option ℕ → RttEstimator → ℕ → ℕ → RttEstimator
sampled none e ack_delay rtt = record {
  latest_rtt = rtt;
  smoothed = some rtt;
  rttvar = rtt / 2;
  min_rtt = rtt;
  max_rtt = rtt;
}
sampled (some smoothed_rtt) e ack_delay rtt =
    let adjusted_rtt = rtt - ack_delay in
    let var_sample =
      if ltb adjusted_rtt smoothed_rtt
      then smoothed_rtt - adjusted_rtt
      else adjusted_rtt - smoothed_rtt in
    record {
      latest_rtt = rtt;
      smoothed = some ((7 * smoothed_rtt + adjusted_rtt) / 8);
      rttvar = (3 * e.rttvar + var_sample) / 4;
      min_rtt = min e.min_rtt rtt;
      max_rtt = max e.max_rtt rtt;
    }

unfoldable pub update : RttEstimator → ℕ → ℕ → RttEstimator
update e ack_delay rtt = sampled e.smoothed e ack_delay rtt
