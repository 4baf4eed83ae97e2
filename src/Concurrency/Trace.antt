-- ===== src/Concurrency/Trace.antt =====
-- Any sequence of the operations of src/connection/stream/concurrency.rs.
use tquic.Base.{ℕ, ◌/◌, ◌≤◌, ◌^◌, Bool, true, false, Option, arith}
use tquic.Concurrency.{
  ConcurrencyControl, update_peer_max_streams, update_local_max_streams,
  increase_max_streams_credits, update_streams_blocked_at, check_limits, check_concurrency_limits,
  remove_avail, remove_avail_id, sequence,
}
use tquic.Concurrency.Invariant.{
  IsValid, update_peer-IsValid, update_local-IsValid, increase-IsValid, blocked-IsValid,
  check-IsValid, remove_avail_id-IsValid,
}
use tquic.StreamId.{is_local, is_bidi}

pub data Step (c : ConcurrencyControl) : ConcurrencyControl → Type 0 where
  peer_max : (bidi : Bool) (n : ℕ) → Step c (update_peer_max_streams c bidi n)
  local_max : (bidi : Bool) → Step c (update_local_max_streams c bidi)
  credit : (bidi : Bool) (delta : ℕ) → Step c (increase_max_streams_credits c bidi delta)
  blocked : (bidi : Bool) (at : Option ℕ) → Step c (update_streams_blocked_at c bidi at)
  check : (id : ℕ) (is_server : Bool) → Step c (check_concurrency_limits c id is_server).1
  taken : (id : ℕ) (is_server : Bool) → Step c (remove_avail_id c id is_server)

pub data Reach (c : ConcurrencyControl) : ConcurrencyControl → Type 0 where
  here : Reach c c
  next : {d e : ConcurrencyControl} → Reach c d → Step d e → Reach c e

-- No limit is taken back and no count falls.
pub record Grows (c d : ConcurrencyControl) : Type 0 where
  pub peer_max_bidi : c.peer_max_streams_bidi ≤ d.peer_max_streams_bidi
  pub peer_max_uni : c.peer_max_streams_uni ≤ d.peer_max_streams_uni
  pub local_max_bidi : c.local_max_streams_bidi ≤ d.local_max_streams_bidi
  pub local_max_uni : c.local_max_streams_uni ≤ d.local_max_streams_uni
  pub local_opened_bidi : c.local_opened_streams_bidi ≤ d.local_opened_streams_bidi
  pub local_opened_uni : c.local_opened_streams_uni ≤ d.local_opened_streams_uni
  pub peer_opened_bidi : c.peer_opened_streams_bidi ≤ d.peer_opened_streams_bidi
  pub peer_opened_uni : c.peer_opened_streams_uni ≤ d.peer_opened_streams_uni

peer_max-Grows :
    (c : ConcurrencyControl) (bidi : Bool) (n : ℕ) → Grows c (update_peer_max_streams c bidi n)
unfolding update_peer_max_streams
peer_max-Grows c true n = ground arith
peer_max-Grows c false n = ground arith

local_max-Grows :
    (c : ConcurrencyControl) (bidi : Bool) → IsValid c → Grows c (update_local_max_streams c bidi)
unfolding update_local_max_streams
local_max-Grows c true v = ground arith
local_max-Grows c false v = ground arith

credit-Grows :
    (c : ConcurrencyControl) (bidi : Bool) (n : ℕ) → Grows c (increase_max_streams_credits c bidi n)
unfolding increase_max_streams_credits
credit-Grows c true n = ground arith
credit-Grows c false n = ground arith

blocked-Grows :
    (c : ConcurrencyControl) (bidi : Bool) (at : Option ℕ)
    → Grows c (update_streams_blocked_at c bidi at)
unfolding update_streams_blocked_at
blocked-Grows c true at = ground arith
blocked-Grows c false at = ground arith

check-Grows :
    (c : ConcurrencyControl) (seq : ℕ) (local bidi : Bool)
    → Grows c (check_limits c seq local bidi).1
unfolding check_limits
check-Grows c seq true true = ground arith
check-Grows c seq true false = ground arith
check-Grows c seq false true = ground arith
check-Grows c seq false false = ground arith

taken-Grows :
    (c : ConcurrencyControl) (id : ℕ) (local bidi : Bool) → Grows c (remove_avail c id local bidi)
unfolding remove_avail
taken-Grows c id true true = ground arith
taken-Grows c id true false = ground arith
taken-Grows c id false true = ground arith
taken-Grows c id false false = ground arith

Step-IsValid : {c d : ConcurrencyControl} → Step c d → IsValid c → IsValid d
Step-IsValid {c} (peer_max bidi n) v = update_peer-IsValid c bidi n v
Step-IsValid {c} (local_max bidi) v = update_local-IsValid c bidi v
Step-IsValid {c} (credit bidi n) v = increase-IsValid c bidi n v
Step-IsValid {c} (blocked bidi at) v = blocked-IsValid c bidi at v
Step-IsValid {c} (check id s) v = check-IsValid c id s v
Step-IsValid {c} (taken id s) v = remove_avail_id-IsValid c id s v

Step-Grows : {c d : ConcurrencyControl} → Step c d → IsValid c → Grows c d
unfolding check_concurrency_limits remove_avail_id
Step-Grows {c} (peer_max bidi n) v = peer_max-Grows c bidi n
Step-Grows {c} (local_max bidi) v = local_max-Grows c bidi v
Step-Grows {c} (credit bidi n) v = credit-Grows c bidi n
Step-Grows {c} (blocked bidi at) v = blocked-Grows c bidi at
Step-Grows {c} (check id s) v = check-Grows c (sequence id) (is_local id s) (is_bidi id)
Step-Grows {c} (taken id s) v = taken-Grows c (id / 2 ^ 2) (is_local id s) (is_bidi id)

Grows-trans : {c d e : ConcurrencyControl} → Grows c d → Grows d e → Grows c e
Grows-trans g h = omega arith

-- From a valid state, whatever operations follow: the state stays valid (no side has opened more
-- streams of a kind than its limit allows, and every available id is under its limit), no limit
-- is taken back, and no count of opened streams falls.
pub Reach-Grows : {c d : ConcurrencyControl} → IsValid c → Reach c d → IsValid d × Grows c d
Reach-Grows v here = (v, omega arith)
Reach-Grows v (next r st) =
    let w = Reach-Grows v r in (Step-IsValid st w.0, Grows-trans w.1 (Step-Grows st w.0))
