-- ===== src/Cid/Added.antt =====
-- New connection ids keep the invariant of src/connection/cid.rs.
use tquic.Base.{
  ℕ, ◌+◌, ◌^◌, ◌≤◌, ◌<◌, ◌≡◌, refl, sym, arith, Bool, false, not, ◌&&◌, ◌||◌, Option, none, some,
}
use tquic.Base.{
  List, [], ◌∷◌, ◌++◌, length, length-append, ltb, ltb→lt, leb, ◌==◌, if◌then◌else◌, Bool-cases,
  inl, inr, add64,
}
use mathlib.Core.Path.{subst}
use tquic.Error.{Result, ok, err, internal_error, protocol_violation}
use tquic.Cid.{
  ConnectionIdItem, ConnectionIdMgr, get, set_path, keep_from, lower_seqs, push, is_none, same_cid,
  same_token,
}
use tquic.Cid.Mgr.{
  has, find_dcid, mark_scid_used, mark_scid_to_advertise, add_fresh, add_scid, admit, retire_lower,
  add_new_dcid, add_dcid, lowest_from, lowest_active_scid_seq, too_many_to_retire,
}
use tquic.Cid.Seqs.{
  seqs, IsAscending, IsDistinct, seqs-append, seqs-set_path, has-find_dcid, has-keep_from,
  append-IsAscending, append-IsDistinct, keep_from-IsDistinct, length-keep_from,
}
use tquic.Cid.Valid.{
  IsValid, Kept, Kept-trans, if-Kept, ok_ok, ok_err, scids_changed, scids_same, same-Kept,
  dcids_changed,
}

pub mark_scid_used-Kept :
    (m n : ConnectionIdMgr) (s p : ℕ) → mark_scid_used m s p ≡ ok n → IsValid m → Kept m n
unfolding mark_scid_used
mark_scid_used-Kept m n s p e v = by (get m.scids.queue s) e
  where
    t : ConnectionIdMgr
    t = record m { scids = record m.scids { queue = set_path m.scids.queue s p } }

    by :
        (o : Option ConnectionIdItem)
        → ◌≡◌ {A = Result ConnectionIdMgr}
            (elim o [ none ↦ err internal_error | some c ↦ ok t ])
            (ok n)
        → Kept m n
    by none e = absurd (ok_err n e)
    by (some c) e =
        subst (Kept m) (ok_ok t n e)
          (scids_same m (set_path m.scids.queue s p) (seqs-set_path m.scids.queue s p) v)

-- A new number is above all others.
pub lowest_from-below :
    (n hi : ℕ) (q : List ConnectionIdItem) (lo s : ℕ)
    → IsAscending lo hi (seqs q)
    → lowest_from n q ≡ some s
    → (n ≤ s) × (s < hi)
unfolding lowest_from seqs
lowest_from-below n hi [] lo s v e = absurd (ground arith)
lowest_from-below n hi (c ∷ r) lo s v e =
    ground (arith, v, e, lowest_from-below n hi r (c.seq + 1) s v.2)

add_fresh-Kept :
    (m : ConnectionIdMgr) (cid : List ℕ) (t : Option ℕ) (advertise : Bool) (p : Option ℕ)
    → m.next_scid_seq + 1 < 2 ^ 64
    → IsValid m
    → Kept m (add_fresh m cid t advertise p).1
unfolding add_fresh push mark_scid_to_advertise
add_fresh-Kept m cid t advertise p h v =
    let item : ConnectionIdItem = record {
      cid = cid;
      seq = m.next_scid_seq;
      reset_token = t;
      path_id = p;
    } in
    let up : add64 m.next_scid_seq 1 ≡ m.next_scid_seq + 1 = omega (arith, h) in
    let asc : IsAscending 0 (m.next_scid_seq + 1) (seqs (m.scids.queue ++ (item ∷ []))) =
      subst (IsAscending 0 (m.next_scid_seq + 1)) (sym (seqs-append m.scids.queue item))
        (append-IsAscending 0 m.next_scid_seq (seqs m.scids.queue) (omega arith) v.ascending) in
    elim (Bool-cases (not (m.next_scid_seq == 0) && is_none t)) [
      | inl e ↦ rw e (same-Kept m v)
      | inr e ↦ elim (Bool-cases (length m.scids.queue == m.scids.capacity)) [
        | inl f ↦ rw (e, f) (same-Kept m v)
        | inr f ↦
            rw (e, f, up)
              (scids_changed m (m.scids.queue ++ (item ∷ [])) (m.next_scid_seq + 1)
                m.retire_prior_to _ asc (omega (arith, length-append m.scids.queue (item ∷ [])))
                (ground (arith, f, v.scid_room, length-append m.scids.queue (item ∷ [])))
                (omega (arith, h)) (omega (arith, v.retired)) v)
      ]
    ]

pub add_scid-Kept :
    (m : ConnectionIdMgr) (cid : List ℕ) (t : Option ℕ) (advertise : Bool) (p : Option ℕ)
    (retire : Bool)
    → m.next_scid_seq + 1 < 2 ^ 64
    → IsValid m
    → Kept m (add_scid m cid t advertise p retire).1
unfolding add_scid
add_scid-Kept m cid t advertise p retire h v =
    if-Kept m m.zero_length_scid _ _ (λ e. same-Kept m v)
      (λ e.
        if-Kept m (leb m.scid_limit (length m.scids.queue)) _ _
          (λ f. if-Kept m retire _ _ (λ g. by (lowest_active_scid_seq m) refl) (λ g. same-Kept m v))
          (λ f. add_fresh-Kept m cid t advertise p h v))
  where
    by :
        (o : Option ℕ)
        → lowest_active_scid_seq m ≡ o
        → Kept m
            (elim o as (λ _. Result ℕ × ConnectionIdMgr) [
              | none ↦ (err internal_error, m)
              | some s ↦ add_fresh (record m { retire_prior_to = add64 s 1 }) cid t advertise p
            ]).1
    by none q = same-Kept m v
    by (some s) q =
        let b =
          lowest_from-below m.retire_prior_to m.next_scid_seq m.scids.queue 0 s v.ascending q in
        let k =
          scids_changed m m.scids.queue m.next_scid_seq (add64 s 1) m.scids_to_advertise v.ascending
            v.some_scid v.scid_room (omega (arith, v.small)) (omega (arith, b, h)) v in
        Kept-trans _ _ _ k
          (add_fresh-Kept (record m { retire_prior_to = add64 s 1 }) cid t advertise p h k.valid)

admit-Kept :
    (m n : ConnectionIdMgr) (c : ConnectionIdItem) (paths : List (ℕ × ℕ))
    → Kept m n
    → has c.seq (seqs n.dcids.queue) ≡ false
    → Kept m (admit n c paths).1
unfolding admit push
admit-Kept m n c paths k e = elim (Bool-cases (length n.dcids.queue == n.dcids.capacity)) [
  | inl f ↦ rw (f, admit) k
  | inr f ↦
      rw (f, admit)
        (Kept-trans m n _ k (
          dcids_changed n n.zero_length_dcid (n.dcids.queue ++ (c ∷ [])) n.dcids_to_retire
            n.largest_peer_retire_prior_to
            (subst IsDistinct (sym (seqs-append n.dcids.queue c))
              (append-IsDistinct c.seq (seqs n.dcids.queue) e k.valid.distinct))
            (ground (arith, f, k.valid.dcid_room, length-append n.dcids.queue (c ∷ [])))
            (omega arith) k.valid))
]

retire_lower-Kept :
    (m : ConnectionIdMgr) (n : ℕ)
    → m.largest_peer_retire_prior_to < n
    → IsValid m
    → Kept m (retire_lower m n)
unfolding retire_lower
retire_lower-Kept m n h v =
    dcids_changed m m.zero_length_dcid (keep_from n m.dcids.queue)
      (m.dcids_to_retire ++ lower_seqs n m.dcids.queue) n
      (keep_from-IsDistinct n m.dcids.queue v.distinct)
      (omega (arith, length-keep_from n m.dcids.queue, v.dcid_room)) (omega arith) v

pub to_retire-Kept :
    (m : ConnectionIdMgr) (r : List ℕ) → IsValid m → Kept m (record m { dcids_to_retire = r })
to_retire-Kept m r v =
    dcids_changed m m.zero_length_dcid m.dcids.queue r m.largest_peer_retire_prior_to v.distinct
      v.dcid_room (omega arith) v

add_new_dcid-Kept :
    (m : ConnectionIdMgr) (cid : List ℕ) (s t n : ℕ)
    → has s (seqs m.dcids.queue) ≡ false
    → IsValid m
    → Kept m (add_new_dcid m cid s t n).1
unfolding add_new_dcid
add_new_dcid-Kept m cid s t n e v =
    if-Kept m (ltb s n) _ _ (λ f. same-Kept m v)
      (λ f.
        if-Kept m (ltb s m.largest_peer_retire_prior_to && not (has s m.dcids_to_retire)) _ _
          (λ g.
            if-Kept m
              (too_many_to_retire (record m { dcids_to_retire = m.dcids_to_retire ++ (s ∷ []) })) _
              _ (λ i. to_retire-Kept m _ v) (λ i. to_retire-Kept m _ v))
          (λ g.
            if-Kept m (ltb m.largest_peer_retire_prior_to n) _ _
              (λ i.
                let k = retire_lower-Kept m n (ltb→lt m.largest_peer_retire_prior_to n i) v in
                if-Kept m (too_many_to_retire (retire_lower m n)) _ _ (λ j. k)
                  (λ j.
                    admit-Kept m (retire_lower m n) _ _ k
                      (unfold retire_lower in ground (arith, has-keep_from s n m.dcids.queue, e))))
              (λ i. admit-Kept m m _ [] (same-Kept m v) e)))

pub add_dcid-Kept :
    (m : ConnectionIdMgr) (cid : List ℕ) (s t n : ℕ) → IsValid m → Kept m (add_dcid m cid s t n).1
unfolding add_dcid
add_dcid-Kept m cid s t n v =
    if-Kept m m.zero_length_dcid _ _ (λ e. same-Kept m v)
      (λ e. by (find_dcid m.dcids.queue cid s) refl)
  where
    by :
        (o : Option ConnectionIdItem)
        → find_dcid m.dcids.queue cid s ≡ o
        → Kept m
            (elim o as (λ _. Result (List (ℕ × ℕ)) × ConnectionIdMgr) [
              | none ↦ add_new_dcid m cid s t n
              | some c ↦
                  if not (same_cid c.cid cid)
                    || (not (c.seq == s) || not (same_token c.reset_token (some t)))
                  then (err protocol_violation, m)
                  else (ok [], m)
            ]).1
    by none q = add_new_dcid-Kept m cid s t n (has-find_dcid m.dcids.queue cid s q) v
    by (some c) q =
        if-Kept m
          (not (same_cid c.cid cid)
            || (not (c.seq == s) || not (same_token c.reset_token (some t))))
          _ _ (λ _. same-Kept m v) (λ _. same-Kept m v)
