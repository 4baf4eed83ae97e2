-- ===== src/Cid/Seqs.antt =====
-- The sequence numbers of a queue of src/connection/cid.rs.
use tquic.Base.{
  ℕ, suc, ◌+◌, ◌-◌, ◌≤◌, ◌<◌, ◌≡◌, refl, ap, arith, Bool, true, false, not, ◌&&◌, ◌||◌, none,
}
use tquic.Base.{List, [], ◌∷◌, ◌++◌, length, ltb, leb, ◌==◌, if◌then◌else◌, Bool-cases, inl, inr}
use tquic.Cid.{ConnectionIdItem, get, set_path, take_out, keep_from, lower_seqs, is_some}
use tquic.Cid.Mgr.{has, find_dcid}

unfoldable pub seqs : List ConnectionIdItem → List ℕ
seqs [] = []
seqs (c ∷ r) = c.seq ∷ seqs r

-- Ascending numbers of `[lo, hi)`.
abbrev pub IsAscending : ℕ → ℕ → List ℕ → Type 0
IsAscending lo hi [] = Unit {0}
IsAscending lo hi (s ∷ r) = (lo ≤ s) × (s < hi) × IsAscending (s + 1) hi r

-- No number stands twice.
abbrev pub IsDistinct : List ℕ → Type 0
IsDistinct [] = Unit {0}
IsDistinct (s ∷ r) = (has s r ≡ false) × IsDistinct r

pub length-seqs : (q : List ConnectionIdItem) → length (seqs q) ≡ length q
unfolding seqs
length-seqs [] = refl
length-seqs (c ∷ r) = ap suc (length-seqs r)

pub seqs-append :
    (q : List ConnectionIdItem) (c : ConnectionIdItem)
    → seqs (q ++ (c ∷ [])) ≡ seqs q ++ (c.seq ∷ [])
unfolding seqs
seqs-append [] c = refl
seqs-append (d ∷ r) c = ap (λ z. d.seq ∷ z) (seqs-append r c)

pub seqs-set_path : (q : List ConnectionIdItem) (s p : ℕ) → seqs (set_path q s p) ≡ seqs q
unfolding seqs set_path
seqs-set_path [] s p = refl
seqs-set_path (c ∷ r) s p = elim (Bool-cases (c.seq == s)) [
  | inl e ↦ rw e refl
  | inr e ↦ rw e (ap (λ z. c.seq ∷ z) (seqs-set_path r s p))
]

pub has-append : (s t : ℕ) (q : List ℕ) → has s (q ++ (t ∷ [])) ≡ (has s q || (t == s))
unfolding has
has-append s t [] = ground arith
has-append s t (x ∷ r) = ground (arith, has-append s t r)

pub has-append_two : (s : ℕ) (q r : List ℕ) → has s (q ++ r) ≡ (has s q || has s r)
unfolding has
has-append_two s [] r = refl
has-append_two s (x ∷ q) r = ground (arith, has-append_two s q r)

pub has-keep_from :
    (s n : ℕ) (q : List ConnectionIdItem)
    → has s (seqs (keep_from n q)) ≡ (has s (seqs q) && leb n s)
unfolding has seqs keep_from
has-keep_from s n [] = refl
has-keep_from s n (c ∷ r) = ground (arith, has-keep_from s n r)

pub has-lower_seqs :
    (s n : ℕ) (q : List ConnectionIdItem) → has s (lower_seqs n q) ≡ (has s (seqs q) && ltb s n)
unfolding has seqs lower_seqs
has-lower_seqs s n [] = refl
has-lower_seqs s n (c ∷ r) = ground (arith, has-lower_seqs s n r)

pub has-find_dcid :
    (q : List ConnectionIdItem) (cid : List ℕ) (s : ℕ)
    → find_dcid q cid s ≡ none
    → has s (seqs q) ≡ false
unfolding has seqs find_dcid
has-find_dcid [] cid s e = refl
has-find_dcid (c ∷ r) cid s e = ground (arith, has-find_dcid r cid s)

pub has-above :
    (s lo hi : ℕ) (q : List ℕ) → IsAscending lo hi q → has s q ≡ true → (lo ≤ s) × (s < hi)
unfolding has
has-above s lo hi [] v e = absurd (ground arith)
has-above s lo hi (x ∷ r) v e = ground (arith, v, has-above s (x + 1) hi r)

-- `take_out` of what is there takes it away, and nothing else.
pub has-take_out :
    (s t lo hi : ℕ) (q : List ConnectionIdItem)
    → IsAscending lo hi (seqs q)
    → has s (seqs (take_out q t)) ≡ (has s (seqs q) && not (s == t))
unfolding has seqs take_out
has-take_out s t lo hi [] v = refl
has-take_out s t lo hi (c ∷ r) v =
    ground (arith, v, has-take_out s t (c.seq + 1) hi r, has-above s (c.seq + 1) hi (seqs r))

IsAscending-lower :
    (lo lo' hi : ℕ) (q : List ℕ) → lo ≤ lo' → IsAscending lo' hi q → IsAscending lo hi q
IsAscending-lower lo lo' hi [] h v = tt
IsAscending-lower lo lo' hi (s ∷ r) h v = (omega (arith, v.0), v.1, v.2)

pub take_out-IsAscending :
    (t lo hi : ℕ) (q : List ConnectionIdItem)
    → IsAscending lo hi (seqs q)
    → IsAscending lo hi (seqs (take_out q t))
unfolding seqs take_out
take_out-IsAscending t lo hi [] v = tt
take_out-IsAscending t lo hi (c ∷ r) v = elim (Bool-cases (c.seq == t)) [
  | inl e ↦ rw e (IsAscending-lower lo (c.seq + 1) hi (seqs r) (omega (arith, v.0)) v.2)
  | inr e ↦ rw e (v.0, v.1, take_out-IsAscending t (c.seq + 1) hi r v.2)
]

pub length-take_out :
    (t : ℕ) (q : List ConnectionIdItem)
    → length (take_out q t) ≡ (if is_some (get q t) then length q - 1 else length q)
unfolding get take_out
length-take_out t [] = refl
length-take_out t (c ∷ r) = elim (Bool-cases (c.seq == t)) [
  | inl e ↦ rw e (omega arith)
  | inr e ↦ rw e (by (is_some (get r t)) (length-take_out t r) (λ h. some_length r h))
]
  where
    some_length : (q : List ConnectionIdItem) → is_some (get q t) ≡ true → 0 < length q
    some_length [] h = absurd (ground arith)
    some_length (d ∷ q) h = omega arith

    by :
        (b : Bool)
        → length (take_out r t) ≡ (if b then length r - 1 else length r)
        → (b ≡ true → 0 < length r)
        → suc (length (take_out r t)) ≡ (if b then suc (length r) - 1 else suc (length r))
    by true h k = omega (arith, h, k refl)
    by false h k = ap suc h

pub append-IsAscending :
    (lo hi : ℕ) (q : List ℕ)
    → lo ≤ hi
    → IsAscending lo hi q
    → IsAscending lo (hi + 1) (q ++ (hi ∷ []))
append-IsAscending lo hi [] h v = (h, omega arith, tt)
append-IsAscending lo hi (s ∷ r) h v =
    (v.0, omega (arith, v.1), append-IsAscending (s + 1) hi r (omega (arith, v.1)) v.2)

pub append-IsDistinct :
    (s : ℕ) (q : List ℕ) → has s q ≡ false → IsDistinct q → IsDistinct (q ++ (s ∷ []))
unfolding has
append-IsDistinct s [] e v = (refl, tt)
append-IsDistinct s (x ∷ r) e v =
    (ground (arith, e, v.0, has-append x s r), append-IsDistinct s r (ground (arith, e)) v.1)

pub keep_from-IsDistinct :
    (n : ℕ) (q : List ConnectionIdItem) → IsDistinct (seqs q) → IsDistinct (seqs (keep_from n q))
unfolding has seqs keep_from
keep_from-IsDistinct n [] v = tt
keep_from-IsDistinct n (c ∷ r) v = elim (Bool-cases (ltb c.seq n)) [
  | inl e ↦ rw e (keep_from-IsDistinct n r v.1)
  | inr e ↦ rw e (ground (arith, v.0, has-keep_from c.seq n r), keep_from-IsDistinct n r v.1)
]

pub length-keep_from :
    (n : ℕ) (q : List ConnectionIdItem)
    → length (keep_from n q) + length (lower_seqs n q) ≡ length q
unfolding keep_from lower_seqs
length-keep_from n [] = refl
length-keep_from n (c ∷ r) = ground (arith, length-keep_from n r)
