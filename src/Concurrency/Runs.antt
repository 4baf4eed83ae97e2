-- ===== src/Concurrency/Runs.antt =====
-- Runs of src/connection/stream/concurrency.rs.
use tquic.Base.{◌≤◌, ◌≡◌, true, not, ◌&&◌, ◌==◌, arith}
use tquic.Concurrency.{
  ConcurrencyControl, create, update_peer_max_streams, check_concurrency_limits, is_available,
  remove_avail_id, limit_of,
}
use tquic.Concurrency.Invariant.{IsValid, create-IsValid, update_peer-IsValid}
use tquic.Concurrency.Limits.{
  Checked, check_concurrency_limits-Checked, is_available-remove_avail_id,
  update_peer_max_streams-avail,
}
use tquic.Concurrency.Trace.{here, next, peer_max, check, Grows, Reach-Grows}
use tquic.StreamId.{is_local, is_bidi}

abbrev fresh : ConcurrencyControl
fresh = create 4 2

fresh-IsValid : IsValid fresh
fresh-IsValid = create-IsValid 4 2 (omega arith) (omega arith)

-- A server, which the peer lets open three bidirectional streams.
abbrev raised : ConcurrencyControl
raised = update_peer_max_streams fresh true 3

raised-IsValid : IsValid raised
raised-IsValid = update_peer-IsValid fresh true 3 fresh-IsValid

fresh_limit : limit_of fresh true true ≤ 2
unfolding create
fresh_limit = omega arith

-- Stream 9 is the third bidirectional stream of a server; 13 would be the fourth.
third_available : is_available raised 9 true ≡ true
unfolding is_available is_local is_bidi
third_available =
    (update_peer_max_streams-avail fresh true 3 2 fresh-IsValid fresh_limit (omega arith)).1

check_concurrency_limits-Checked_example :
    Checked raised 4 true true (check_concurrency_limits raised 13 true)
check_concurrency_limits-Checked_example =
    check_concurrency_limits-Checked raised 13 true raised-IsValid

is_available-remove_avail_id_example :
    is_available (remove_avail_id raised 9 true) 5 true
    ≡ (is_available raised 5 true && not (5 == 9))
is_available-remove_avail_id_example =
    is_available-remove_avail_id raised 9 5 true raised-IsValid (omega arith)

Reach-Grows_example :
    IsValid (check_concurrency_limits raised 13 true).1
    × Grows fresh (check_concurrency_limits raised 13 true).1
Reach-Grows_example =
    Reach-Grows {c = fresh} fresh-IsValid (next (next here (peer_max true 3)) (check 13 true))
