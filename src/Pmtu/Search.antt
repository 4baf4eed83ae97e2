-- ===== src/Pmtu/Search.antt =====
-- The search of src/connection/pmtu.rs on a path of a given MTU comes to an end.
use tquic.Base.{
  ℕ, suc, ◌+◌, ◌-◌, ◌*◌, ◌^◌, ◌≤◌, ◌<◌, ◌≡◌, refl, arith, Bool, true, false, none, some,
}
use tquic.Base.{min, ◌⊎◌, inl, inr}
use tquic.Pmtu.{Dplpmtud, create, cal_mtu_ceiling, cal_probe_size, check_finish}
use tquic.Pmtu.Attempts.{search, search-acked, search-lost, search-stop, lost_for_good, passed}
use tquic.Pmtu.Halves.{
  Between, IsFound, IsDue, passed-Between, lost-Between, stop, passed-IsDue, lost-IsDue,
  lost-ByHalves, three, order, search_halves,
}

-- A new state: the first probe is the ceiling, where this is that of an Ethernet frame at most.
module _ (max_pmtu peer_max mtu : ℕ) (v6 : Bool) (roomy : 1200 ≤ max_pmtu)
    (takes : 1200 ≤ peer_max) where
  abbrev start : Dplpmtud
  unfolding create
  start = create true max_pmtu v6

  abbrev goal : ℕ
  unfolding create
  goal = start.max_pmtu

  start-ceiling : cal_mtu_ceiling start peer_max ≡ min goal peer_max
  unfolding cal_mtu_ceiling create start goal
  start-ceiling = ground arith

  start-enough : 1200 ≤ min goal peer_max
  unfolding create start goal
  start-enough = ground (arith, roomy, takes)

  start-Between : Between goal peer_max mtu start
  unfolding create start goal
  start-Between = record {
    same = refl;
    low = omega arith;
    passes = ground arith;
    fails = inl refl;
    fresh = refl;
    probe = inl refl;
  }

  large : 1500 ≤ min goal peer_max → IsDue peer_max start
  unfolding create check_finish start goal
  large le = ground (arith, start-ceiling, le)

  small : min goal peer_max < 1500 → cal_probe_size start peer_max ≡ min goal peer_max
  unfolding create cal_probe_size start goal
  small lt = ground (arith, start-ceiling, lt)

  start-on : start.should_probe ≡ true
  unfolding create start
  start-on = refl

  start-fresh : (start.probe_size ≡ none) ⊎ (start.probe_size ≡ some (min goal peer_max))
  unfolding create start
  start-fresh = inl refl

  passed-stops : (passed start peer_max (min goal peer_max)).should_probe ≡ false
  unfolding create passed check_finish cal_mtu_ceiling start goal
  passed-stops = ground (arith, start-enough)

  met :
      (n : ℕ)
      → min goal peer_max ≤ mtu
      → IsFound goal peer_max mtu
          (search n (passed start peer_max (min goal peer_max)) peer_max mtu)
  met n le =
      rw (search-stop n (passed start peer_max (min goal peer_max)) peer_max mtu passed-stops) (
        stop goal peer_max mtu _
          (passed-Between goal peer_max mtu start start-Between (min goal peer_max) le)
          (passed-IsDue peer_max (min goal peer_max) start) passed-stops)

  missed-gap :
      cal_mtu_ceiling (lost_for_good start peer_max (min goal peer_max)) peer_max
      ≤ (lost_for_good start peer_max (min goal peer_max)).current_size + (min goal peer_max - 1200)
  unfolding create lost_for_good cal_mtu_ceiling start goal
  missed-gap = ground (arith, start-enough)

  missed :
      (k n : ℕ)
      → mtu < min goal peer_max
      → min goal peer_max ≤ 1200 + 12 * 2 ^ k
      → 3 * k ≤ n
      → IsFound goal peer_max mtu
          (search n (lost_for_good start peer_max (min goal peer_max)) peer_max mtu)
  missed k n lt bound le =
      search_halves goal peer_max mtu k n (lost_for_good start peer_max (min goal peer_max))
        (lost-Between goal peer_max mtu start start-Between _ lt) (lost-IsDue peer_max _ start)
        (lost-ByHalves peer_max _ start (omega (arith, lt))) (omega (arith, missed-gap, bound)) le

  start-bound :
      (k : ℕ)
      → min goal peer_max ≤ 1200 + 12 * 2 ^ k
      → min goal peer_max ≤ start.current_size + 12 * 2 ^ k
  unfolding create start goal
  start-bound k bound = bound

  found :
      (k n : ℕ)
      → min goal peer_max ≤ 1200 + 12 * 2 ^ k
      → 3 * k + 3 ≤ n
      → IsFound goal peer_max mtu (search n start peer_max mtu)
  found k n bound le = elim (order 1500 (min goal peer_max)) [
    | inl wide ↦
        search_halves goal peer_max mtu k n start start-Between (large wide)
          (inr (rw start-ceiling wide)) (rw start-ceiling (start-bound k bound)) (omega (arith, le))
    | inr narrow ↦ elim (order (min goal peer_max) mtu) [
      | inl passes ↦
          rw
            (
              three n (omega (arith, le)),
              search-acked start peer_max mtu (min goal peer_max) (small narrow) start-fresh
                  start-on (suc (suc (n - 3))) passes,
            )
            (met (suc (suc (n - 3))) passes)
      | inr fails ↦
          rw
            (
              three n (omega (arith, le)),
              search-lost start peer_max mtu (min goal peer_max) (small narrow) start-fresh start-on
                  (n - 3) fails start-Between.fresh,
            )
            (missed k (n - 3) fails bound (omega (arith, le)))
    ]
  ]

-- Where the configured size and the limit of the peer are at least 1200, and the smaller of the two is
-- at most 1200 + 12 * 2^k, a search of a path ends after 3 * k + 3 probes: the size found passes the
-- path or is the minimum of 1200 bytes, and is at least 99 % of the smallest of the configured size,
-- the limit of the peer and the MTU plus one.
pub search-IsFound :
    (max_pmtu peer_max mtu : ℕ) (v6 : Bool) (k n : ℕ)
    → 1200 ≤ max_pmtu
    → 1200 ≤ peer_max
    → min (create true max_pmtu v6).max_pmtu peer_max ≤ 1200 + 12 * 2 ^ k
    → 3 * k + 3 ≤ n
    → IsFound
        (create true max_pmtu v6).max_pmtu
        peer_max
        mtu
        (search n (create true max_pmtu v6) peer_max mtu)
unfolding start goal
search-IsFound max_pmtu peer_max mtu v6 k n roomy takes bound le =
    found max_pmtu peer_max mtu v6 roomy takes k n bound le
