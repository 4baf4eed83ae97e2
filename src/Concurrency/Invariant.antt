-- ===== src/Concurrency/Invariant.antt =====
-- The invariant of src/connection/stream/concurrency.rs, and that every operation keeps it.
use tquic.Base.{ℕ, ◌/◌, ◌^◌, ◌≤◌, ◌<◌, ◌≡◌, Bool, true, false, arith}
use tquic.Base.{Option}
use tquic.Ranges.{RangeSet, insert, remove_elem}
use tquic.Ranges.Order.{IsSorted, covers}
use tquic.Ranges.Insert.{Added, insert-Added}
use tquic.Ranges.Remove.{remove_elem-Removed}
use tquic.Concurrency.{
  ConcurrencyControl, create, no_ids, update_peer_max_streams, update_local_max_streams,
  increase_max_streams_credits, update_streams_blocked_at, check_limits, check_concurrency_limits,
  remove_avail, remove_avail_id, sequence,
}
use tquic.StreamId.{is_local, is_bidi}

-- Every id of the set is below the limit.
unfoldable pub IsPool : RangeSet → ℕ → Type 0
IsPool r limit = IsSorted 0 r.set × ((k : ℕ) → covers r.set k ≡ true → k < limit)

insert-IsPool : (r : RangeSet) (a b : ℕ) → IsPool r a → a ≤ b → IsPool (insert r a b) b
unfolding IsPool
insert-IsPool r a b v h =
    let w : Added r.capacity r.set (insert r a b).set a b = insert-Added r a b v.0 in
    (w.sorted, λ k e. ground (arith, w.only k, v.1 k))

remove_elem-IsPool : (r : RangeSet) (k l : ℕ) → IsPool r l → IsPool (remove_elem r k) l
unfolding IsPool
remove_elem-IsPool r k l v =
    let w = remove_elem-Removed r k v.0 in (w.sorted, λ j e. ground (arith, w.exact j, v.1 j))

pub record IsValid (c : ConcurrencyControl) : Type 0 where
  pub local_bidi : IsPool c.local_bidi_avail_ids c.peer_max_streams_bidi
  pub local_uni : IsPool c.local_uni_avail_ids c.peer_max_streams_uni
  pub peer_bidi : IsPool c.peer_bidi_avail_ids c.local_max_streams_bidi
  pub peer_uni : IsPool c.peer_uni_avail_ids c.local_max_streams_uni
  pub local_opened_bidi : c.local_opened_streams_bidi ≤ c.peer_max_streams_bidi
  pub local_opened_uni : c.local_opened_streams_uni ≤ c.peer_max_streams_uni
  pub peer_opened_bidi : c.peer_opened_streams_bidi ≤ c.local_max_streams_bidi
  pub peer_opened_uni : c.peer_opened_streams_uni ≤ c.local_max_streams_uni
  pub next_bidi : c.local_max_streams_bidi ≤ c.local_max_streams_bidi_next
  pub next_uni : c.local_max_streams_uni ≤ c.local_max_streams_uni_next
  pub small_bidi : c.local_max_streams_bidi_next < 2 ^ 64
  pub small_uni : c.local_max_streams_uni_next < 2 ^ 64

no_ids-IsPool : IsPool no_ids 0
unfolding IsPool covers
no_ids-IsPool = (tt, λ k e. cc)

pub create-IsValid : (bidi uni : ℕ) → bidi < 2 ^ 64 → uni < 2 ^ 64 → IsValid (create bidi uni)
unfolding create
create-IsValid bidi uni h p = record {
  local_bidi = no_ids-IsPool;
  local_uni = no_ids-IsPool;
  peer_bidi = insert-IsPool no_ids 0 bidi no_ids-IsPool (omega arith);
  peer_uni = insert-IsPool no_ids 0 uni no_ids-IsPool (omega arith);
  local_opened_bidi = omega arith;
  local_opened_uni = omega arith;
  peer_opened_bidi = omega arith;
  peer_opened_uni = omega arith;
  next_bidi = omega arith;
  next_uni = omega arith;
  small_bidi = h;
  small_uni = p;
}

pub update_peer-IsValid :
    (c : ConcurrencyControl) (bidi : Bool) (n : ℕ)
    → IsValid c
    → IsValid (update_peer_max_streams c bidi n)
unfolding update_peer_max_streams
update_peer-IsValid c true n v =
    ground (arith, insert-IsPool c.local_bidi_avail_ids c.peer_max_streams_bidi n v.local_bidi)
update_peer-IsValid c false n v =
    ground (arith, insert-IsPool c.local_uni_avail_ids c.peer_max_streams_uni n v.local_uni)

pub update_local-IsValid :
    (c : ConcurrencyControl) (bidi : Bool) → IsValid c → IsValid (update_local_max_streams c bidi)
unfolding update_local_max_streams
update_local-IsValid c true v = ground (
  arith,
  insert-IsPool c.peer_bidi_avail_ids c.local_max_streams_bidi c.local_max_streams_bidi_next
      v.peer_bidi v.next_bidi,
)
update_local-IsValid c false v = ground (
  arith,
  insert-IsPool c.peer_uni_avail_ids c.local_max_streams_uni c.local_max_streams_uni_next v.peer_uni
      v.next_uni,
)

pub increase-IsValid :
    (c : ConcurrencyControl) (bidi : Bool) (delta : ℕ)
    → IsValid c
    → IsValid (increase_max_streams_credits c bidi delta)
unfolding increase_max_streams_credits
increase-IsValid c true delta v = ground arith
increase-IsValid c false delta v = ground arith

pub blocked-IsValid :
    (c : ConcurrencyControl) (bidi : Bool) (at : Option ℕ)
    → IsValid c
    → IsValid (update_streams_blocked_at c bidi at)
unfolding update_streams_blocked_at
blocked-IsValid c true at v = ground arith
blocked-IsValid c false at v = ground arith

check_limits-IsValid :
    (c : ConcurrencyControl) (seq : ℕ) (local bidi : Bool)
    → IsValid c
    → IsValid (check_limits c seq local bidi).1
unfolding check_limits
check_limits-IsValid c seq true true v = ground arith
check_limits-IsValid c seq true false v = ground arith
check_limits-IsValid c seq false true v = ground arith
check_limits-IsValid c seq false false v = ground arith

pub check-IsValid :
    (c : ConcurrencyControl) (id : ℕ) (is_server : Bool)
    → IsValid c
    → IsValid (check_concurrency_limits c id is_server).1
check-IsValid c id s v =
    unfold check_concurrency_limits in
    check_limits-IsValid c (sequence id) (is_local id s) (is_bidi id) v

remove_avail-IsValid :
    (c : ConcurrencyControl) (id : ℕ) (local bidi : Bool)
    → IsValid c
    → IsValid (remove_avail c id local bidi)
unfolding remove_avail
remove_avail-IsValid c id true true v =
    ground
      (arith, remove_elem-IsPool c.local_bidi_avail_ids id c.peer_max_streams_bidi v.local_bidi)
remove_avail-IsValid c id true false v =
    ground (arith, remove_elem-IsPool c.local_uni_avail_ids id c.peer_max_streams_uni v.local_uni)
remove_avail-IsValid c id false true v =
    ground (arith, remove_elem-IsPool c.peer_bidi_avail_ids id c.local_max_streams_bidi v.peer_bidi)
remove_avail-IsValid c id false false v =
    ground (arith, remove_elem-IsPool c.peer_uni_avail_ids id c.local_max_streams_uni v.peer_uni)

pub remove_avail_id-IsValid :
    (c : ConcurrencyControl) (id : ℕ) (is_server : Bool)
    → IsValid c
    → IsValid (remove_avail_id c id is_server)
remove_avail_id-IsValid c id s v =
    unfold remove_avail_id in remove_avail-IsValid c (id / 2 ^ 2) (is_local id s) (is_bidi id) v
