-- ===== src/Cid/Valid.antt =====
-- The invariant of ConnectionIdMgr in src/connection/cid.rs, and the changes that keep it.
use tquic.Base.{ℕ, ◌+◌, ◌*◌, ◌^◌, ◌≤◌, ◌<◌, ◌≡◌, refl, ap, sym, arith, Bool, true, false, Option}
use tquic.Base.{List, length, ◌==◌, if◌then◌else◌}
use mathlib.Core.Path.{subst}
use tquic.Error.{Result, ok, err, panic, internal_error}
use tquic.Cid.{ConnectionIdItem, ConnectionIdMgr, push, is_empty_cid}
use tquic.Cid.Mgr.{has, set_initial_dcid, set_scid_limit}
use tquic.Cid.Seqs.{seqs, IsAscending, IsDistinct, length-seqs}

-- The scids are in the order of their numbers, which were all handed out, and never run out; both
-- queues keep to their capacity; no dcid stands twice.
pub record IsValid (m : ConnectionIdMgr) : Type 0 where
  pub ascending : IsAscending 0 m.next_scid_seq (seqs m.scids.queue)
  pub some_scid : 0 < length m.scids.queue
  pub scid_room : length m.scids.queue ≤ m.scids.capacity
  pub limit : (2 ≤ m.scid_limit) × (2 * m.scid_limit ≤ m.scids.capacity + 1)
  pub retired : m.retire_prior_to ≤ m.next_scid_seq
  pub small : m.next_scid_seq < 2 ^ 64
  pub distinct : IsDistinct (seqs m.dcids.queue)
  pub dcid_room : length m.dcids.queue ≤ m.dcids.capacity
  pub dcid_some : 0 < m.dcids.capacity

-- What is only ever raised.
pub record Grows (m n : ConnectionIdMgr) : Type 0 where
  pub next : m.next_scid_seq ≤ n.next_scid_seq
  pub retire : m.retire_prior_to ≤ n.retire_prior_to
  pub peer_retire : m.largest_peer_retire_prior_to ≤ n.largest_peer_retire_prior_to

pub record Kept (m n : ConnectionIdMgr) : Type 0 where
  pub valid : IsValid n
  pub grows : Grows m n

pub Kept-trans : (m n o : ConnectionIdMgr) → Kept m n → Kept n o → Kept m o
Kept-trans m n o a b = record {
  valid = b.valid;
  grows = record {
    next = omega (arith, a.grows.next, b.grows.next);
    retire = omega (arith, a.grows.retire, b.grows.retire);
    peer_retire = omega (arith, a.grows.peer_retire, b.grows.peer_retire);
  };
}

pub Grows-refl : (m : ConnectionIdMgr) → Grows m m
Grows-refl m = record { next = omega arith; retire = omega arith; peer_retire = omega arith }

pub set_scid_limit-Kept : (m : ConnectionIdMgr) (n : ℕ) → IsValid m → Kept m (set_scid_limit m n)
unfolding set_scid_limit
set_scid_limit-Kept m n v = record {
  valid = record {
    ascending = v.ascending;
    some_scid = v.some_scid;
    scid_room = omega (arith, v.scid_room);
    limit = omega (arith, v.limit);
    retired = v.retired;
    small = v.small;
    distinct = v.distinct;
    dcid_room = v.dcid_room;
    dcid_some = v.dcid_some;
  };
  grows = record { next = omega arith; retire = omega arith; peer_retire = omega arith };
}

pub if-Kept :
    {A : Type 0}
    → (m : ConnectionIdMgr) (c : Bool) (x y : Result A × ConnectionIdMgr) → (c ≡ true → Kept m x.1)
    → (c ≡ false → Kept m y.1)
    → Kept m (if c then x else y).1
if-Kept m true x y h k = h refl
if-Kept m false x y h k = k refl

pub ok_ok : (m n : ConnectionIdMgr) → ◌≡◌ {A = Result ConnectionIdMgr} (ok m) (ok n) → m ≡ n
ok_ok m n e = ap value e
  where
    value : Result ConnectionIdMgr → ConnectionIdMgr
    value (ok k) = k
    value (err x) = m
    value panic = m

pub ok_err :
    (n : ConnectionIdMgr) → ◌≡◌ {A = Result ConnectionIdMgr} (err internal_error) (ok n) → ⊥
ok_err n e = cc

-- A change of the scids.
pub scids_changed :
    (m : ConnectionIdMgr) (q : List ConnectionIdItem) (next retire : ℕ) (a : List ℕ)
    → IsAscending 0 next (seqs q)
    → 0 < length q
    → length q ≤ m.scids.capacity
    → (m.next_scid_seq ≤ next) × (next < 2 ^ 64)
    → (m.retire_prior_to ≤ retire) × (retire ≤ next)
    → IsValid m
    → Kept m (record m {
      scids = record m.scids { queue = q };
      next_scid_seq = next;
      retire_prior_to = retire;
      scids_to_advertise = a;
    })
scids_changed m q next retire a asc filled room n r v = record {
  valid = record {
    ascending = asc;
    some_scid = filled;
    scid_room = room;
    limit = v.limit;
    retired = r.1;
    small = n.1;
    distinct = v.distinct;
    dcid_room = v.dcid_room;
    dcid_some = v.dcid_some;
  };
  grows = record { next = n.0; retire = r.0; peer_retire = omega arith };
}

-- The paths of the ids do not matter.
pub scids_same :
    (m : ConnectionIdMgr) (q : List ConnectionIdItem)
    → seqs q ≡ seqs m.scids.queue
    → IsValid m
    → Kept m (record m { scids = record m.scids { queue = q } })
scids_same m q e v =
    let l : length q ≡ length m.scids.queue =
      omega (arith, length-seqs q, length-seqs m.scids.queue, ap length e) in
    scids_changed m q m.next_scid_seq m.retire_prior_to m.scids_to_advertise
      (subst (IsAscending 0 m.next_scid_seq) (sym e) v.ascending) (omega (arith, l, v.some_scid))
      (omega (arith, l, v.scid_room)) (omega (arith, v.small)) (omega (arith, v.retired)) v

pub same-Kept : (m : ConnectionIdMgr) → IsValid m → Kept m m
same-Kept m v = record { valid = v; grows = Grows-refl m }

-- A change of the dcids that keeps them apart and within their room.
pub dcids_changed :
    (m : ConnectionIdMgr) (z : Bool) (q : List ConnectionIdItem) (r : List ℕ) (n : ℕ)
    → IsDistinct (seqs q)
    → length q ≤ m.dcids.capacity
    → m.largest_peer_retire_prior_to ≤ n
    → IsValid m
    → Kept m (record m {
      zero_length_dcid = z;
      dcids = record m.dcids { queue = q };
      dcids_to_retire = r;
      largest_peer_retire_prior_to = n;
    })
dcids_changed m z q r n d l h v = record {
  valid = record {
    ascending = v.ascending;
    some_scid = v.some_scid;
    scid_room = v.scid_room;
    limit = v.limit;
    retired = v.retired;
    small = v.small;
    distinct = d;
    dcid_room = l;
    dcid_some = v.dcid_some;
  };
  grows = record { next = omega arith; retire = omega arith; peer_retire = h };
}

pub set_initial_dcid-Kept :
    (m : ConnectionIdMgr) (cid : List ℕ) (t p : Option ℕ)
    → IsValid m
    → Kept m (set_initial_dcid m cid t p)
unfolding set_initial_dcid seqs has push
set_initial_dcid-Kept m cid t p v =
    let e : (0 == m.dcids.capacity) ≡ false = ground (arith, v.dcid_some) in
    rw e (
      dcids_changed m (is_empty_cid cid) _ m.dcids_to_retire m.largest_peer_retire_prior_to
        (refl, tt) (omega (arith, v.dcid_some)) (omega arith) v)

pub dcids_same :
    (m : ConnectionIdMgr) (q : List ConnectionIdItem)
    → seqs q ≡ seqs m.dcids.queue
    → IsValid m
    → Kept m (record m { dcids = record m.dcids { queue = q } })
dcids_same m q e v =
    dcids_changed m m.zero_length_dcid q m.dcids_to_retire m.largest_peer_retire_prior_to
      (subst IsDistinct (sym e) v.distinct)
      (omega (arith, length-seqs q, length-seqs m.dcids.queue, ap length e, v.dcid_room))
      (omega arith) v
