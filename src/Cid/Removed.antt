-- ===== src/Cid/Removed.antt =====
-- The retirement of a source connection id keeps the invariant of src/connection/cid.rs.
use tquic.Base.{ℕ, ◌≡◌, refl, arith, false, ◌&&◌, Option, none, some}
use tquic.Base.{List, length, leb, ◌==◌, Bool-cases, inl, inr}
use tquic.Error.{Result, ok, err, internal_error}
use tquic.Cid.{ConnectionIdItem, ConnectionIdMgr, get, take_out, remove, is_some, same_cid}
use tquic.Cid.Mgr.{retire_found, retire_sent, retire_scid, lowest_active_scid_seq}
use tquic.Cid.Seqs.{take_out-IsAscending, length-take_out}
use tquic.Cid.Valid.{IsValid, Kept, Kept-trans, if-Kept, scids_changed, same-Kept}
use tquic.Cid.Added.{lowest_from-below}

-- What `remove` of the queue leaves.
remove-Kept :
    (m : ConnectionIdMgr) (s : ℕ)
    → (length m.scids.queue == 0) ≡ false
    → ((length m.scids.queue == 1) && is_some (get m.scids.queue s)) ≡ false
    → IsValid m
    → Kept m (record m { scids = record m.scids { queue = take_out m.scids.queue s } })
remove-Kept m s e f v =
    let l = length-take_out s m.scids.queue in
    scids_changed m (take_out m.scids.queue s) m.next_scid_seq m.retire_prior_to
      m.scids_to_advertise (take_out-IsAscending s 0 m.next_scid_seq m.scids.queue v.ascending)
      (ground (arith, e, f, l)) (ground (arith, l, v.scid_room)) (omega (arith, v.small))
      (omega (arith, v.retired)) v

retire_found-Kept :
    (o : Option ConnectionIdItem) (m : ConnectionIdMgr) (d : List ℕ)
    → IsValid m
    → Kept m (retire_found o m d).1
unfolding retire_found
retire_found-Kept none m d v = same-Kept m v
retire_found-Kept (some c) m d v =
    if-Kept m (same_cid c.cid d) _ _ (λ e. same-Kept m v) (λ e. by (lowest_active_scid_seq m) refl)
  where
    by :
        (o : Option ℕ)
        → lowest_active_scid_seq m ≡ o
        → Kept m
            (elim o as (λ _. Result (Option ℕ) × ConnectionIdMgr) [
              | none ↦ (err internal_error, m)
              | some s ↦ (ok c.path_id, record m { retire_prior_to = s })
            ]).1
    by none q = same-Kept m v
    by (some s) q =
        let b =
          lowest_from-below m.retire_prior_to m.next_scid_seq m.scids.queue 0 s v.ascending q in
        scids_changed m m.scids.queue m.next_scid_seq s m.scids_to_advertise v.ascending v.some_scid
          v.scid_room (omega (arith, v.small)) (omega (arith, b)) v

retire_sent-Kept :
    (m : ConnectionIdMgr) (s : ℕ) (d : List ℕ) → IsValid m → Kept m (retire_sent m s d).1
unfolding retire_sent remove
retire_sent-Kept m s d v = elim (Bool-cases (length m.scids.queue == 0)) [
  | inl e ↦ rw (e, retire_sent) (same-Kept m v)
  | inr e ↦ elim (Bool-cases ((length m.scids.queue == 1) && is_some (get m.scids.queue s))) [
    | inl f ↦ rw (e, f, retire_sent) (same-Kept m v)
    | inr f ↦
        rw (e, f, retire_sent)
          (let k = remove-Kept m s e f v in
            Kept-trans m _ _ k (retire_found-Kept (get m.scids.queue s) _ d k.valid))
  ]
]

pub retire_scid-Kept :
    (m : ConnectionIdMgr) (s : ℕ) (d : List ℕ) → IsValid m → Kept m (retire_scid m s d).1
unfolding retire_scid
retire_scid-Kept m s d v =
    if-Kept m (leb m.next_scid_seq s) _ _ (λ e. same-Kept m v) (λ e. retire_sent-Kept m s d v)
