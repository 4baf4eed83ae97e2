-- ===== src/Rtt/Runs.antt =====
-- Runs of src/connection/rtt.rs, in nanoseconds.
use tquic.Base.{◌≡◌, refl, some}
use tquic.Rtt.{RttEstimator, smoothed_rtt, update}

-- After a first sample of 80 ms.
abbrev first_sample : RttEstimator
first_sample = record {
  latest_rtt = 80_000_000;
  smoothed = some 80_000_000;
  rttvar = 40_000_000;
  min_rtt = 80_000_000;
  max_rtt = 80_000_000;
}

-- The second sample of the example in the source: 120 ms with an ack delay of 25 ms.
second_sample : smoothed_rtt (update first_sample 25_000_000 120_000_000) ≡ 81_875_000
unfolding update smoothed_rtt
second_sample = refl
