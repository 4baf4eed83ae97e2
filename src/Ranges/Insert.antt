-- ===== src/Ranges/Insert.antt =====
-- `RangeSet::insert` of src/ranges.rs: the order is kept, the range joins the set, the size is bounded.
use tquic.Base.{ℕ, ◌+◌, ◌-◌, ◌≤◌, ◌<◌, ◌≡◌, refl, true, false, ◌&&◌, ◌||◌, arith, max}
use tquic.Base.{[], ◌∷◌, leb, if◌then◌else◌, length, none, some}
use tquic.Base.{not, Option, le→leb, lt→leb}
use native.Mathlib.Decide.{dec_lt, dec_le}
use tquic.Ranges.{RangeSet, insert, insert_next, insert_from, place}
use tquic.Ranges.Map.{Entries, bt_remove, pop_first, prev_to}
use tquic.Ranges.Order.{IsSorted, inside, covers, Apart, LeftClear}
use tquic.Ranges.Order.{bt_insert-IsSorted, covers-bt_insert, length-bt_insert, covers-pop_first}
use tquic.Ranges.Order.{pop_first-IsSorted, pop_first-Apart}
use tquic.Ranges.Prev.{Prev, prev_to-Prev, prev_to-none, LeftClear-above}
use tquic.Ranges.Absorb.{
  absorb_all, absorb-eq-absorb_all, absorb_all-IsSorted, absorb_all-le, absorb_all-length,
  absorb_all-Apart, absorb_all-covers,
}

-- The entries are in order, disjoint, and do not touch.
abbrev pub IsValid : RangeSet → Type 0
IsValid s = IsSorted 0 s.set

-- What adding `[x, y)` to `old` under a capacity makes of it.
pub record Added (cap : ℕ) (old new : Entries) (x y : ℕ) : Type 0 where
  pub sorted : IsSorted 0 new
  pub all : (k : ℕ) → inside x y k ≡ true → covers new k ≡ true
  pub only : (k : ℕ) → covers new k ≡ true → (inside x y k || covers old k) ≡ true
  pub exact : (k : ℕ) → length old < cap → covers new k ≡ (inside x y k || covers old k)
  pub size : length old ≤ max cap 1 → length new ≤ max cap 1
  pub grows : length new ≤ length old + 1

module _ (cap : ℕ) (set : Entries) (x y : ℕ) (v : IsSorted 0 set) (apart : Apart set x y)
    (h : x < y) where
  place-IsSorted : IsSorted 0 (place cap (set, y) x)
  unfolding place
  place-IsSorted = ground (
    arith,
    bt_insert-IsSorted 0 set x y v apart (omega arith) h,
    bt_insert-IsSorted 0 (pop_first set) x y (pop_first-IsSorted 0 set v)
        (pop_first-Apart set x y apart) (omega arith) h,
  )

  covers-place :
      (k : ℕ)
      → covers (place cap (set, y) x) k
        ≡ (inside x y k || covers (if leb cap (length set) then pop_first set else set) k)
  unfolding place
  covers-place k = ground (
    arith,
    covers-bt_insert 0 set x y k v apart h,
    covers-bt_insert 0 (pop_first set) x y k (pop_first-IsSorted 0 set v)
        (pop_first-Apart set x y apart) h,
  )

length-pop_first : (s : Entries) → length (pop_first s) ≡ length s - 1
length-pop_first [] = omega arith
length-pop_first (p ∷ r) = omega arith

length-place :
    (cap : ℕ) (set : Entries) (x y : ℕ)
    → length set ≤ max cap 1
    → length (place cap (set, y) x) ≤ max cap 1
unfolding place
length-place cap set x y h =
    ground
      (arith, length-bt_insert set x y, length-bt_insert (pop_first set) x y, length-pop_first set)

length-place_le :
    (cap : ℕ) (set : Entries) (x y : ℕ) → length (place cap (set, y) x) ≤ length set + 1
unfolding place
length-place_le cap set x y =
    ground
      (arith, length-bt_insert set x y, length-bt_insert (pop_first set) x y, length-pop_first set)

insert_from-Added :
    (s : RangeSet) (set : Entries) (x y : ℕ)
    → IsSorted 0 set
    → LeftClear set x
    → x < y
    → Added s.capacity set (insert_from s set x y).set x y
unfolding insert_from
insert_from-Added s set x y v c h =
    let set' : Entries = (absorb_all set x y).0 in
    let y' : ℕ = (absorb_all set x y).1 in
    let v' : IsSorted 0 set' = absorb_all-IsSorted 0 set x y v in
    let apart : Apart set' x y' = absorb_all-Apart 0 set x y v c in
    let h' : x < y' = omega (arith, absorb_all-le set x y) in
    rw (absorb-eq-absorb_all (length set) set x y (omega arith)) record {
      sorted = place-IsSorted s.capacity set' x y' v' apart h';
      all = λ k e.
          ground (arith, covers-place s.capacity set' x y' v' apart h' k, absorb_all-le set x y);
      only = λ k e. ground (
        arith,
        covers-place s.capacity set' x y' v' apart h' k,
        absorb_all-covers 0 set x y k v h,
        covers-pop_first set' k,
      );
      exact = λ k room. ground (
        arith,
        covers-place s.capacity set' x y' v' apart h' k,
        absorb_all-covers 0 set x y k v h,
        absorb_all-length set x y,
      );
      size = λ n. length-place s.capacity set' x y' (omega (arith, absorb_all-length set x y));
      grows = omega (arith, absorb_all-length set x y, length-place_le s.capacity set' x y');
    }

-- A range that the preceding one covers changes nothing.
kept-Added :
    (s : RangeSet) (x y : ℕ)
    → IsSorted 0 s.set
    → ((k : ℕ) → inside x y k ≡ true → covers s.set k ≡ true)
    → Added s.capacity s.set s.set x y
kept-Added s x y v sub = record {
  sorted = v;
  all = sub;
  only = λ k e. ground arith;
  exact = λ k room. ground (arith, sub k);
  size = λ n. n;
  grows = omega arith;
}

-- Widening to the left by a preceding range that touches.
joined-Added :
    (cap : ℕ) (old gone new : Entries) (x y a b : ℕ)
    → Added cap gone new a y
    → ((k : ℕ) → covers old k ≡ (inside a b k || covers gone k))
    → length old ≡ length gone + 1
    → a ≤ x
    → x ≤ b
    → b < y
    → Added cap old new x y
joined-Added cap old gone new x y a b g parts n p q h = record {
  sorted = g.sorted;
  all = λ k e. ground (arith, g.all k);
  only = λ k e. ground (arith, g.only k, parts k);
  exact = λ k room. ground (arith, g.exact k, parts k);
  size = λ m. g.size (omega arith);
  grows = omega (arith, g.grows);
}

insert_next-Added :
    (s : RangeSet) (p : Option (ℕ × ℕ)) (x y : ℕ)
    → IsValid s
    → x < y
    → prev_to s.set x ≡ p
    → Added s.capacity s.set (insert_next s p x y).set x y
insert_next-Added s none x y v h e =
    unfold insert_next in
    insert_from-Added s s.set x y v
      (LeftClear-above (x + 1) s.set x (prev_to-none 0 s.set x v e) (omega arith)) h
insert_next-Added s (some (a, b)) x y v h e = split (dec_le y b) (dec_le x b)
  where
    p : Prev 0 s.set x a b
    p = prev_to-Prev 0 s.set x v e

    split :
        Dec (y ≤ b) → Dec (x ≤ b) → Added s.capacity s.set (insert_next s (some (a, b)) x y).set x y
    split (yes q) w =
        unfold insert_next in
        rw (le→leb y b q) (kept-Added s x y v (λ k m. p.covered k (ground (arith, p.starts))))
    split (no q) (yes w) =
        unfold insert_next in
        rw (lt→leb y b (omega arith), le→leb x b w)
          (joined-Added s.capacity s.set (bt_remove s.set a) _ x y a b
            (insert_from-Added s (bt_remove s.set a) a y p.rest_sorted p.rest_clear
              (omega (arith, p.filled)))
            p.rest_covers p.shorter p.starts w (omega arith))
    split (no q) (no w) =
        unfold insert_next in
        rw (lt→leb y b (omega arith), lt→leb x b (omega arith))
          (insert_from-Added s s.set x y v (p.free_before (omega arith)) h)

insert_next-capacity :
    (s : RangeSet) (p : Option (ℕ × ℕ)) (x y : ℕ) → (insert_next s p x y).capacity ≡ s.capacity
unfolding insert_next insert_from
insert_next-capacity s none x y = refl
insert_next-capacity s (some (a, b)) x y = ground arith

pub insert-Added :
    (s : RangeSet) (x y : ℕ) → IsValid s → Added s.capacity s.set (insert s x y).set x y
insert-Added s x y v = split (dec_lt x y)
  where
    split : Dec (x < y) → Added s.capacity s.set (insert s x y).set x y
    split (yes p) =
        unfold insert in rw (lt→leb y x p) (insert_next-Added s (prev_to s.set x) x y v p refl)
    split (no p) =
        unfold insert in
        rw (le→leb y x (omega arith)) (kept-Added s x y v (λ k q. absurd (ground arith)))

pub insert-capacity : (s : RangeSet) (x y : ℕ) → (insert s x y).capacity ≡ s.capacity
unfolding insert
insert-capacity s x y = ground (arith, insert_next-capacity s (prev_to s.set x) x y)

-- For a valid set that is not full, `insert` of `[x, y)` keeps the set valid, and the result covers
-- exactly the values of `[x, y)` and those covered before.
pub covers-insert :
    (s : RangeSet) (x y k : ℕ)
    → IsValid s
    → length s.set < s.capacity
    → IsValid (insert s x y) × (covers (insert s x y).set k ≡ (inside x y k || covers s.set k))
covers-insert s x y k v room = let w = insert-Added s x y v in (w.sorted, w.exact k room)

-- For a valid set, full or not, `insert` of `[x, y)` keeps the set valid; the result covers every
-- value of `[x, y)`, and no value that is neither in `[x, y)` nor covered before.
pub covers-insert_full :
    (s : RangeSet) (x y k : ℕ)
    → IsValid s
    → IsValid (insert s x y)
      × ((inside x y k || covers (insert s x y).set k) ≡ covers (insert s x y).set k)
      × ((covers (insert s x y).set k && not (inside x y k || covers s.set k)) ≡ false)
covers-insert_full s x y k v =
    let w = insert-Added s x y v in (w.sorted, ground (arith, w.all k), ground (arith, w.only k))

-- `insert` keeps a valid set within its capacity, if it was (a capacity of 0 holds one range).
pub length-insert :
    (s : RangeSet) (x y : ℕ)
    → IsValid s
    → length s.set ≤ max s.capacity 1
    → length (insert s x y).set ≤ max s.capacity 1
length-insert s x y v h = (insert-Added s x y v).size h
