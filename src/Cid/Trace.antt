-- ===== src/Cid/Trace.antt =====
-- Any sequence of the operations of ConnectionIdMgr in src/connection/cid.rs.
use tquic.Base.{ℕ, ◌+◌, ◌^◌, ◌<◌, ◌≡◌, arith, Bool, Option, none, some, List}
use mathlib.Core.Path.{subst}
use tquic.Error.{Result, ok, err, internal_error}
use tquic.Cid.{ConnectionIdItem, ConnectionIdMgr, get, set_path}
use tquic.Cid.Mgr.{
  has, create, set_initial_dcid, set_scid_limit, mark_scid_used, mark_dcid_used,
  mark_scid_to_advertise, mark_dcid_to_retire, add_scid, add_dcid, retire_scid,
}
use tquic.Cid.Seqs.{seqs, seqs-set_path}
use tquic.Cid.Valid.{
  IsValid, Kept, Kept-trans, ok_ok, ok_err, same-Kept, set_initial_dcid-Kept, set_scid_limit-Kept,
  scids_changed, dcids_same,
}
use tquic.Cid.Added.{mark_scid_used-Kept, add_scid-Kept, add_dcid-Kept, to_retire-Kept}
use tquic.Cid.Removed.{retire_scid-Kept}

-- A new connection.
pub create-IsValid :
    (dcid_limit : ℕ) (scid : List ℕ) (path : ℕ) (token : Option ℕ)
    → 0 < dcid_limit
    → IsValid (create dcid_limit scid path token)
unfolding create seqs has
create-IsValid dcid_limit scid path token h = record {
  ascending = omega arith;
  some_scid = omega arith;
  scid_room = omega arith;
  limit = omega arith;
  retired = omega arith;
  small = omega arith;
  distinct = tt;
  dcid_room = omega arith;
  dcid_some = omega arith;
}

mark_dcid_used-Kept :
    (m n : ConnectionIdMgr) (s p : ℕ) → mark_dcid_used m s p ≡ ok n → IsValid m → Kept m n
unfolding mark_dcid_used
mark_dcid_used-Kept m n s p e v = by (get m.dcids.queue s) e
  where
    t : ConnectionIdMgr
    t = record m { dcids = record m.dcids { queue = set_path m.dcids.queue s p } }

    by :
        (o : Option ConnectionIdItem)
        → ◌≡◌ {A = Result ConnectionIdMgr}
            (elim o [ none ↦ err internal_error | some c ↦ ok t ])
            (ok n)
        → Kept m n
    by none e = absurd (ok_err n e)
    by (some c) e =
        subst (Kept m) (ok_ok t n e)
          (dcids_same m (set_path m.dcids.queue s p) (seqs-set_path m.dcids.queue s p) v)

-- An operation that fails leaves the state that stands beside the error.
pub data Step (m : ConnectionIdMgr) : ConnectionIdMgr → Type 0 where
  initial : (cid : List ℕ) (token path : Option ℕ) → Step m (set_initial_dcid m cid token path)
  limited : (limit : ℕ) → Step m (set_scid_limit m limit)
  scid_used : {n : ConnectionIdMgr} → (seq path : ℕ) → mark_scid_used m seq path ≡ ok n → Step m n
  dcid_used : {n : ConnectionIdMgr} → (seq path : ℕ) → mark_dcid_used m seq path ≡ ok n → Step m n
  added :
      (cid : List ℕ) (token : Option ℕ) (advertise : Bool) (path : Option ℕ) (retire : Bool)
      → m.next_scid_seq + 1 < 2 ^ 64
      → Step m (add_scid m cid token advertise path retire).1
  received :
      (cid : List ℕ) (seq token retire_prior_to : ℕ)
      → Step m (add_dcid m cid seq token retire_prior_to).1
  retired : (seq : ℕ) (pkt_dcid : List ℕ) → Step m (retire_scid m seq pkt_dcid).1
  advertised : (seq : ℕ) (advertise : Bool) → Step m (mark_scid_to_advertise m seq advertise)
  to_retire : (seq : ℕ) (retire : Bool) → Step m (mark_dcid_to_retire m seq retire)

pub data Reach (m : ConnectionIdMgr) : ConnectionIdMgr → Type 0 where
  here : Reach m m
  next : {n o : ConnectionIdMgr} → Reach m n → Step n o → Reach m o

step-Kept : (m n : ConnectionIdMgr) → IsValid m → Step m n → Kept m n
unfolding mark_scid_to_advertise mark_dcid_to_retire
step-Kept m n v (initial cid token path) = set_initial_dcid-Kept m cid token path v
step-Kept m n v (limited limit) = set_scid_limit-Kept m limit v
step-Kept m n v (scid_used seq path e) = mark_scid_used-Kept m n seq path e v
step-Kept m n v (dcid_used seq path e) = mark_dcid_used-Kept m n seq path e v
step-Kept m n v (added cid token advertise path retire h) =
    add_scid-Kept m cid token advertise path retire h v
step-Kept m n v (received cid seq token retire_prior_to) =
    add_dcid-Kept m cid seq token retire_prior_to v
step-Kept m n v (retired seq pkt_dcid) = retire_scid-Kept m seq pkt_dcid v
step-Kept m n v (advertised seq advertise) =
    scids_changed m m.scids.queue m.next_scid_seq m.retire_prior_to _ v.ascending v.some_scid
      v.scid_room (omega (arith, v.small)) (omega (arith, v.retired)) v
step-Kept m n v (to_retire seq retire) = to_retire-Kept m _ v

-- From a valid state, whatever operations follow, failing ones included: the state stays valid (the
-- scids stand in the order of their numbers, all of which were handed out, and at least one stays; no
-- queue passes its capacity, and no dcid stands twice), and the next number, the `retire_prior_to`
-- that is sent and the largest one received never fall.
pub Reach-Kept : (m n : ConnectionIdMgr) → IsValid m → Reach m n → Kept m n
Reach-Kept m n v here = same-Kept m v
Reach-Kept m o v (next {n = n} r s) =
    let k = Reach-Kept m n v r in Kept-trans m n o k (step-Kept n o k.valid s)
