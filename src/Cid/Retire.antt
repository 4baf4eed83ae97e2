-- ===== src/Cid/Retire.antt =====
-- `retire_scid` of src/connection/cid.rs: the peer gives an id back.
use tquic.Base.{
  ℕ, ◌≢◌, ◌≤◌, ◌<◌, ◌≡◌, refl, ap, sym, ◌∙◌, arith, true, false, not, ◌&&◌, Option, none, some,
}
use tquic.Base.{List, [], ◌∷◌, length, leb, ◌==◌, Bool-cases, ◌⊎◌, inl, inr}
use mathlib.Core.Path.{subst}
use tquic.Error.{Error, Result, ok, err, panic, protocol_violation, internal_error}
use tquic.Cid.{ConnectionIdItem, ConnectionIdMgr, get, take_out, remove, is_some, same_cid}
use tquic.Cid.Mgr.{
  has, lowest_from, retire_scid, retire_sent, retire_found, lowest_active_scid_seq,
  mark_scid_to_advertise, create_new_connection_id_frame,
}
use tquic.Cid.Seqs.{seqs, has-append, has-take_out}
use tquic.Cid.Valid.{IsValid}

abbrev pub path_of : Option ConnectionIdItem → Option ℕ
path_of none = none
path_of (some c) = c.path_id

-- The lowest number from `n` on that is left in place of `seq`.
pub record IsLowest (m : ConnectionIdMgr) (seq s : ℕ) : Type 0 where
  pub stays : (has s (seqs m.scids.queue) && not (s == seq)) ≡ true
  pub active : m.retire_prior_to ≤ s
  pub least :
      (k : ℕ)
      → (has k (seqs m.scids.queue) && not (k == seq)) ≡ true
      → m.retire_prior_to ≤ k
      → s ≤ k

-- What becomes of `retire_prior_to`, whether or not the id is there.
abbrev pub Raised : ConnectionIdMgr → ℕ → List ℕ → Option ConnectionIdItem → ℕ → Type 0
Raised m seq d none s = s ≡ m.retire_prior_to
Raised m seq d (some c) s = (c.cid ≢ d) × IsLowest m seq s

-- What the retirement of `seq` makes of `m`; `p` is the path that used the id, `d` the id of the packet.
pub record Retired (m n : ConnectionIdMgr) (seq : ℕ) (d : List ℕ) (p : Option ℕ) : Type 0 where
  pub left : (k : ℕ) → has k (seqs n.scids.queue) ≡ (has k (seqs m.scids.queue) && not (k == seq))
  pub path : p ≡ path_of (get m.scids.queue seq)
  pub raised : Raised m seq d (get m.scids.queue seq) n.retire_prior_to
  pub given : seq < m.next_scid_seq
  pub kept : n ≡ record m { scids = n.scids; retire_prior_to = n.retire_prior_to }

abbrev pub IsOwn : Option ConnectionIdItem → List ℕ → Type 0
IsOwn none d = ⊥
IsOwn (some c) d = c.cid ≡ d

-- Why it is refused: the number was not handed out, the packet came with the id itself, or no other
-- id is left from `retire_prior_to` on.
abbrev pub IsRefusal : ConnectionIdMgr → ℕ → List ℕ → Error → Type 0
IsRefusal m seq d e =
    ((e ≡ protocol_violation) × ((m.next_scid_seq ≤ seq) ⊎ IsOwn (get m.scids.queue seq) d))
    ⊎ ((e ≡ internal_error)
        × ((k : ℕ) → (has k (seqs m.scids.queue) && not (k == seq)) ≡ true → k < m.retire_prior_to))

abbrev pub Answered : ConnectionIdMgr → ℕ → List ℕ → Result (Option ℕ) × ConnectionIdMgr → Type 0
Answered m seq d (ok p, n) = Retired m n seq d p
Answered m seq d (err e, n) = IsRefusal m seq d e
Answered m seq d (panic, n) = ⊥

-- `same_cid` decides equality.
same_cid-equal : (x y : List ℕ) → same_cid x y ≡ true → x ≡ y
unfolding same_cid
same_cid-equal [] [] e = refl
same_cid-equal [] (b ∷ y) e = absurd (ground arith)
same_cid-equal (a ∷ x) [] e = absurd (ground arith)
same_cid-equal (a ∷ x) (b ∷ y) e =
    let h : a ≡ b = ground (arith, e) in rw (h, same_cid-equal x y (ground (arith, e))) refl

same_cid_refl : (x : List ℕ) → same_cid x x ≡ true
unfolding same_cid
same_cid_refl [] = refl
same_cid_refl (a ∷ x) = ground (arith, same_cid_refl x)

same_cid-differs : (x y : List ℕ) → same_cid x y ≡ false → x ≢ y
same_cid-differs x y e h =
    let t : same_cid x y ≡ true = subst (λ z. same_cid x z ≡ true) h (same_cid_refl x) in
    absurd (ground (arith, e, t))

lowest_from-none :
    (n k : ℕ) (q : List ConnectionIdItem) → lowest_from n q ≡ none → has k (seqs q) ≡ true → k < n
unfolding lowest_from has seqs
lowest_from-none n k [] e h = absurd (ground arith)
lowest_from-none n k (c ∷ r) e h = ground (arith, e, h, lowest_from-none n k r)

lowest_from-has :
    (n s : ℕ) (q : List ConnectionIdItem)
    → lowest_from n q ≡ some s
    → (has s (seqs q) ≡ true) × (n ≤ s)
unfolding lowest_from has seqs
lowest_from-has n s [] e = absurd (ground arith)
lowest_from-has n s (c ∷ r) e = ground (arith, e, lowest_from-has n s r, lowest_from-has n c.seq r)

lowest_from-least :
    (n s k : ℕ) (q : List ConnectionIdItem)
    → lowest_from n q ≡ some s
    → has k (seqs q) ≡ true
    → n ≤ k
    → s ≤ k
unfolding lowest_from has seqs
lowest_from-least n s k [] e h i = absurd (ground arith)
lowest_from-least n s k (c ∷ r) e h i =
    by (λ t q. lowest_from-least n t k r q) (lowest_from n r) refl
  where
    by :
        ((t : ℕ) → lowest_from n r ≡ some t → has k (seqs r) ≡ true → n ≤ k → t ≤ k)
        → (o : Option ℕ) → lowest_from n r ≡ o
        → s ≤ k
    by rec none q = ground (arith, e, h, i, q, lowest_from-none n k r q)
    by rec (some t) q = ground (arith, e, h, i, q, rec t q)

module _ (m : ConnectionIdMgr) (seq : ℕ) (d : List ℕ) (v : IsValid m)
    (given : seq < m.next_scid_seq) where
  abbrev removed : ConnectionIdMgr
  removed = record m { scids = record m.scids { queue = take_out m.scids.queue seq } }

  out :
      (k : ℕ)
      → has k (seqs (take_out m.scids.queue seq)) ≡ (has k (seqs m.scids.queue) && not (k == seq))
  out k = has-take_out k seq 0 m.next_scid_seq m.scids.queue v.ascending

  found_answer :
      (o : Option ConnectionIdItem)
      → get m.scids.queue seq ≡ o
      → Answered m seq d (retire_found o removed d)
  unfolding retire_found
  found_answer none e = record {
    left = out;
    path = ap path_of (sym e);
    raised = rw e refl;
    given = given;
    kept = refl;
  }
  found_answer (some c) e = elim (Bool-cases (same_cid c.cid d)) [
    | inl f ↦ rw f (inl (refl, inr (rw e (same_cid-equal c.cid d f))))
    | inr f ↦ rw f (by f (lowest_active_scid_seq removed) refl)
  ]
    where
      by :
          same_cid c.cid d ≡ false
          → (o : Option ℕ) → lowest_active_scid_seq removed ≡ o
          → Answered m seq d (elim o as (λ _. Result (Option ℕ) × ConnectionIdMgr) [
            | none ↦ (err internal_error, removed)
            | some s ↦ (ok c.path_id, record removed { retire_prior_to = s })
          ])
      by f none q = inr (
        refl,
        λ k h. lowest_from-none m.retire_prior_to k (take_out m.scids.queue seq) q (out k ∙ h),
      )
      by f (some s) q =
          let w = lowest_from-has m.retire_prior_to s (take_out m.scids.queue seq) q in
          record {
            left = out;
            path = ap path_of (sym e);
            raised = rw e (
              same_cid-differs c.cid d f,
              record {
                stays = sym (out s) ∙ w.0;
                active = w.1;
                least = λ k h i.
                    lowest_from-least m.retire_prior_to s k (take_out m.scids.queue seq) q
                      (out k ∙ h) i;
              },
            );
            given = given;
            kept = refl;
          }

  -- In a queue of one nothing is left besides.
  lone :
      (k : ℕ) (q : List ConnectionIdItem)
      → (length q == 1) && is_some (get q seq) ≡ true
      → (has k (seqs q) && not (k == seq)) ≡ true
      → k < m.retire_prior_to
  unfolding has seqs get
  lone k [] e h = absurd (ground arith)
  lone k (c ∷ []) e h = absurd (ground (arith, e, h))
  lone k (c ∷ b ∷ r) e h = absurd (ground (arith, e))

  empty :
      (k : ℕ) (q : List ConnectionIdItem)
      → (length q == 0) ≡ true
      → (has k (seqs q) && not (k == seq)) ≡ true
      → k < m.retire_prior_to
  unfolding has seqs
  empty k [] e h = absurd (ground arith)
  empty k (c ∷ r) e h = absurd (ground (arith, e))

  sent_answer : Answered m seq d (retire_sent m seq d)
  unfolding retire_sent remove
  sent_answer = elim (Bool-cases (length m.scids.queue == 0)) [
    | inl e ↦ rw (e, retire_sent) (inr (refl, λ k h. empty k m.scids.queue e h))
    | inr e ↦ elim (Bool-cases ((length m.scids.queue == 1) && is_some (get m.scids.queue seq))) [
      | inl f ↦ rw (e, f, retire_sent) (inr (refl, λ k h. lone k m.scids.queue f h))
      | inr f ↦ rw (e, f, retire_sent) (found_answer (get m.scids.queue seq) refl)
    ]
  ]

pub retire_scid-Answered :
    (m : ConnectionIdMgr) (seq : ℕ) (d : List ℕ)
    → IsValid m
    → Answered m seq d (retire_scid m seq d)
unfolding retire_scid
retire_scid-Answered m seq d v = elim (Bool-cases (leb m.next_scid_seq seq)) [
  | inl e ↦ rw (e, retire_scid) (inl (refl, inl (ground (arith, e))))
  | inr e ↦ rw (e, retire_scid) (sent_answer m seq d v (ground (arith, e)))
]

get-none : (q : List ConnectionIdItem) (s : ℕ) → has s (seqs q) ≡ false → get q s ≡ none
unfolding has seqs get
get-none [] s e = refl
get-none (c ∷ r) s e = ground (arith, e, get-none r s)

-- Once the retirement of a scid has succeeded, its frame cannot be made any more; where the number is
-- marked to be sent again, as the loss of the frame does, it waits all the same.
pub retire_scid-stuck :
    (m n : ConnectionIdMgr) (seq : ℕ) (p : Option ℕ) (d : List ℕ)
    → IsValid m
    → retire_scid m seq d ≡ (ok p, n)
    → let o = mark_scid_to_advertise n seq true in
      (has seq o.scids_to_advertise ≡ true)
      × (create_new_connection_id_frame o seq ≡ err internal_error)
unfolding mark_scid_to_advertise create_new_connection_id_frame
retire_scid-stuck m n seq p d v e =
    let r : Retired m n seq d p = subst (Answered m seq d) e (retire_scid-Answered m seq d v) in
    let gone : get n.scids.queue seq ≡ none =
      get-none n.scids.queue seq (ground (arith, r.left seq)) in
    (
      ground (arith, has-append seq seq n.scids_to_advertise),
      rw (gone, create_new_connection_id_frame) refl,
    )
