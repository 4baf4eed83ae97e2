-- ===== src/Pmtu/Runs.antt =====
-- Tests and examples of src/connection/pmtu.rs.
use tquic.Base.{◌+◌, ◌*◌, ◌^◌, ◌≤◌, ◌≡◌, refl, arith, min, true, false}
use tquic.Pmtu.{Dplpmtud, create}
use tquic.Pmtu.Attempts.{attempt, search}
use tquic.Pmtu.Halves.{IsFound}
use tquic.Pmtu.Search.{search-IsFound}

-- A path of 1400 bytes: 1395 are found, after eighteen probes at most.
abbrev found : Dplpmtud
found = search 18 (create true 1200 false) 65527 1400

found_size : found.current_size ≡ 1395
unfolding search attempt create
found_size = refl

-- A path with the MTU of Ethernet takes one probe.
ethernet : (search 1 (create true 1200 false) 60000 1500).current_size ≡ 1472
unfolding search attempt create
ethernet = refl

bound : min (create true 1200 false).max_pmtu 65527 ≤ 1200 + 12 * 2 ^ 5
unfolding create
bound = ground arith

search-IsFound_example : IsFound (create true 1200 false).max_pmtu 65527 1400 found
search-IsFound_example =
    search-IsFound 1200 65527 1400 false 5 18 (omega arith) (omega arith) bound (omega arith)
