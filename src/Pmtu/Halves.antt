-- ===== src/Pmtu/Halves.antt =====
-- The second phase of the search of src/connection/pmtu.rs halves the gap.
use tquic.Base.{
  ℕ, zero, suc, ◌+◌, ◌-◌, ◌*◌, ◌/◌, ◌^◌, ◌≤◌, ◌<◌, ◌≡◌, refl, arith, true, false, not, none, some,
}
use tquic.Base.{max, min, Bool-cases, ◌⊎◌, inl, inr}
use tquic.Pmtu.{Dplpmtud, cal_mtu_ceiling, cal_probe_size, check_finish}
use tquic.Pmtu.Attempts.{search, search-acked, search-lost, search-stop, lost_for_good, passed}

-- The state between two rounds of probes; what was lost for good is above the MTU.
pub record Between (m peer_max mtu : ℕ) (d : Dplpmtud) : Type 0 where
  pub same : d.max_pmtu ≡ m
  pub low : 1200 ≤ d.current_size
  pub passes : d.current_size ≤ max 1200 mtu
  pub fails : (d.failed_size ≡ 0) ⊎ (mtu < d.failed_size)
  pub fresh : d.probe_count ≡ 0
  pub probe : (d.probe_size ≡ none) ⊎ (d.probe_size ≡ some (cal_probe_size d peer_max))

-- The end of the search: the size passes, and is at least 99 % of the best one.
pub record IsFound (m peer_max mtu : ℕ) (d : Dplpmtud) : Type 0 where
  pub done : d.should_probe ≡ false
  pub low : 1200 ≤ d.current_size
  pub passes : d.current_size ≤ max 1200 mtu
  pub near : 99 * min (min m peer_max) (mtu + 1) ≤ 100 * d.current_size

abbrev pub IsDue : ℕ → Dplpmtud → Type 0
IsDue peer_max d = d.should_probe ≡ not (check_finish d peer_max)

module _ (m peer_max mtu : ℕ) (d : Dplpmtud) (b : Between m peer_max mtu d) where
  pub passed-Between : (p : ℕ) → p ≤ mtu → Between m peer_max mtu (passed d peer_max p)
  unfolding passed cal_probe_size cal_mtu_ceiling
  passed-Between p le = record {
    same = b.same;
    low = ground (arith, b.low);
    passes = ground (arith, b.passes, le);
    fails = b.fails;
    fresh = refl;
    probe = inr refl;
  }

  pub lost-Between : (p : ℕ) → mtu < p → Between m peer_max mtu (lost_for_good d peer_max p)
  unfolding lost_for_good cal_probe_size cal_mtu_ceiling
  lost-Between p lt = record {
    same = b.same;
    low = b.low;
    passes = b.passes;
    fails = inr lt;
    fresh = refl;
    probe = inr refl;
  }

  best : min (min m peer_max) (mtu + 1) ≤ cal_mtu_ceiling d peer_max
  unfolding cal_mtu_ceiling
  best = ground (arith, b.fails, b.same)

  pub stop : IsDue peer_max d → d.should_probe ≡ false → IsFound m peer_max mtu d
  unfolding check_finish
  stop due off = record {
    done = off;
    low = b.low;
    passes = b.passes;
    near = ground (arith, best, due, off);
  }

pub passed-IsDue : (peer_max p : ℕ) (d : Dplpmtud) → IsDue peer_max (passed d peer_max p)
unfolding passed check_finish cal_mtu_ceiling
passed-IsDue peer_max p d = refl

pub lost-IsDue : (peer_max p : ℕ) (d : Dplpmtud) → IsDue peer_max (lost_for_good d peer_max p)
unfolding lost_for_good check_finish cal_mtu_ceiling
lost-IsDue peer_max p d = refl

-- What a round of probes of a state with a gap of at most `2 * gap` leaves in the second phase of the search.
module _ (m peer_max mtu gap : ℕ) (d : Dplpmtud) (b : Between m peer_max mtu d)
    (below : cal_mtu_ceiling d peer_max ≤ d.current_size + 2 * gap) where
  passed-gap :
      (p : ℕ)
      → d.current_size < cal_mtu_ceiling d peer_max
      → p ≡ (d.current_size + cal_mtu_ceiling d peer_max) / 2
      → cal_mtu_ceiling (passed d peer_max p) peer_max ≤ (passed d peer_max p).current_size + gap
  unfolding passed cal_mtu_ceiling
  passed-gap p wide e = ground (arith, below)

  lost-gap :
      (p : ℕ)
      → 0 < p
      → d.current_size < cal_mtu_ceiling d peer_max
      → p ≡ (d.current_size + cal_mtu_ceiling d peer_max) / 2
      → cal_mtu_ceiling (lost_for_good d peer_max p) peer_max
        ≤ (lost_for_good d peer_max p).current_size + gap
  unfolding lost_for_good cal_mtu_ceiling
  lost-gap p pos wide e = ground (arith, below)

-- The second phase: the search is by halves.
abbrev pub ByHalves : ℕ → Dplpmtud → Type 0
ByHalves peer_max d = (0 < d.failed_size) ⊎ (1500 ≤ cal_mtu_ceiling d peer_max)

by_halves :
    (peer_max : ℕ) (d : Dplpmtud)
    → ByHalves peer_max d
    → cal_probe_size d peer_max ≡ (d.current_size + cal_mtu_ceiling d peer_max) / 2
unfolding cal_probe_size
by_halves peer_max d h = ground (arith, h)

passed-ByHalves :
    (peer_max p : ℕ) (d : Dplpmtud) → ByHalves peer_max d → ByHalves peer_max (passed d peer_max p)
unfolding passed cal_mtu_ceiling
passed-ByHalves peer_max p d h = h

pub lost-ByHalves :
    (peer_max p : ℕ) (d : Dplpmtud) → 0 < p → ByHalves peer_max (lost_for_good d peer_max p)
unfolding lost_for_good
lost-ByHalves peer_max p d pos = inl pos

is_wide :
    (peer_max : ℕ) (d : Dplpmtud)
    → IsDue peer_max d
    → d.should_probe ≡ true
    → 100 * d.current_size < 99 * cal_mtu_ceiling d peer_max
unfolding check_finish
is_wide peer_max d due on = ground (arith, due, on)

pub three : (n : ℕ) → 3 ≤ n → n ≡ suc (suc (suc (n - 3)))
three n le = ground arith

pub order : (a b : ℕ) → (a ≤ b) ⊎ (b < a)
order a b = ground arith

pub search_halves :
    (m peer_max mtu k n : ℕ) (d : Dplpmtud)
    → Between m peer_max mtu d
    → IsDue peer_max d
    → ByHalves peer_max d
    → cal_mtu_ceiling d peer_max ≤ d.current_size + 12 * 2 ^ k
    → 3 * k ≤ n
    → IsFound m peer_max mtu (search n d peer_max mtu)
search_halves m peer_max mtu zero n d b due h below le = elim (Bool-cases d.should_probe) [
  | inr off ↦ rw (search-stop n d peer_max mtu off) (stop m peer_max mtu d b due off)
  | inl on ↦ absurd (ground (arith, is_wide peer_max d due on, below, b.low))
]
search_halves m peer_max mtu (suc k) n d b due h below le = elim (Bool-cases d.should_probe) [
  | inr off ↦ rw (search-stop n d peer_max mtu off) (stop m peer_max mtu d b due off)
  | inl on ↦ elim (order (cal_probe_size d peer_max) mtu) [
    | inl passes ↦
        rw
          (
            three n (omega (arith, le)),
            search-acked d peer_max mtu _ refl b.probe on (suc (suc (n - 3))) passes,
          )
          (search_halves m peer_max mtu k (suc (suc (n - 3)))
            (passed d peer_max (cal_probe_size d peer_max))
            (passed-Between m peer_max mtu d b _ passes) (passed-IsDue peer_max _ d)
            (passed-ByHalves peer_max _ d h)
            (passed-gap m peer_max mtu (12 * 2 ^ k) d b (omega (arith, below)) _
              (omega (arith, is_wide peer_max d due on)) (by_halves peer_max d h))
            (omega (arith, le)))
    | inr fails ↦
        rw
          (
            three n (omega (arith, le)),
            search-lost d peer_max mtu _ refl b.probe on (n - 3) fails b.fresh,
          )
          (search_halves m peer_max mtu k (n - 3)
            (lost_for_good d peer_max (cal_probe_size d peer_max))
            (lost-Between m peer_max mtu d b _ fails) (lost-IsDue peer_max _ d)
            (lost-ByHalves peer_max _ d (omega (arith, fails)))
            (lost-gap m peer_max mtu (12 * 2 ^ k) d b (omega (arith, below)) _
              (omega (arith, fails)) (omega (arith, is_wide peer_max d due on))
              (by_halves peer_max d h))
            (omega (arith, le)))
  ]
]
