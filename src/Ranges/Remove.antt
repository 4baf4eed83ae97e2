-- ===== src/Ranges/Remove.antt =====
-- `RangeSet::remove` and `remove_until` of src/ranges.rs.
use tquic.Base.{ℕ, ◌+◌, ◌≤◌, ◌<◌, ◌≡◌, refl, true, false, ◌&&◌, ◌||◌, not, arith}
use tquic.Base.{[], ◌∷◌, ltb, Bool-cases, ◌⊎◌, if◌then◌else◌, length, Option, none, some, inl, inr}
use tquic.Base.{le→leb, lt→leb, lt→ltb, le→ltb, add64}
use native.Mathlib.Decide.{dec_lt, dec_le}
use tquic.Ranges.{RangeSet, remove_elem, carve, cut_prev, remove_next, remove, is_empty}
use tquic.Ranges.Map.{Entries, bt_insert, bt_remove, prev_to}
use tquic.Ranges.Order.{IsSorted, inside, covers, LeftCut, LeftCut-above, Apart, Apart-shrink}
use tquic.Ranges.Order.{Apart-bt_insert, Apart→LeftCut, LeftCut-bt_insert, bt_insert-IsSorted}
use tquic.Ranges.Order.{covers-empty, covers-bt_insert, length-bt_insert, length-bt_insert_new}
use tquic.Ranges.Prev.{Prev, prev_to-Prev, prev_to-none}
use tquic.Ranges.Carve.{carve-eq-carve_all, carve_all-IsSorted, carve_all-covers, carve_all-length}
use tquic.Ranges.Insert.{IsValid}

-- What taking `[x, y)` out of `old` leaves.
pub record Removed (old new : Entries) (x y : ℕ) : Type 0 where
  pub sorted : IsSorted 0 new
  pub exact : (k : ℕ) → covers new k ≡ (covers old k && not (inside x y k))
  pub size : length new ≤ length old + 1

empty_covers :
    (s : RangeSet) (x y k : ℕ)
    → is_empty s ≡ true
    → covers s.set k ≡ (covers s.set k && not (inside x y k))
unfolding is_empty
empty_covers s x y k e = rw (covers-empty s.set k e)

Apart-covers : (s : Entries) (x y k : ℕ) → Apart s x y → covers s k ≡ true → (k < x) ⊎ (y < k)
unfolding covers
Apart-covers [] x y k h e = cc
Apart-covers ((a, b) ∷ r) x y k h e = ground (arith, Apart-covers r x y k h.1)

carve-Removed :
    (set : Entries) (x y : ℕ)
    → IsSorted 0 set
    → LeftCut set x
    → x < y
    → Removed set (carve (length set) set x y) x y
carve-Removed set x y v c h = rw (carve-eq-carve_all (length set) set x y (omega arith) h) record {
  sorted = carve_all-IsSorted 0 set x y v;
  exact = λ k. carve_all-covers 0 set x y k v c h;
  size = omega (arith, carve_all-length 0 set x y v);
}

module _ (set : Entries) (x y a b : ℕ) (p : Prev 0 set x a b) (h : x < y) (into : x < b) where
  -- What is left of the preceding range before `x`.
  left : Entries
  left = if ltb a x then bt_insert (bt_remove set a) a x else bt_remove set a

  Apart-left : Apart (bt_remove set a) a x
  Apart-left = Apart-shrink (bt_remove set a) a b a x p.rest_apart (omega arith) (omega arith)

  left-IsSorted : IsSorted 0 left
  unfolding left
  left-IsSorted = ground (
    arith,
    p.rest_sorted,
    bt_insert-IsSorted 0 (bt_remove set a) a x p.rest_sorted Apart-left (omega arith),
  )

  covers-left : (k : ℕ) → covers left k ≡ (inside a x k || covers (bt_remove set a) k)
  unfolding left
  covers-left k =
      ground (arith, p.starts, covers-bt_insert 0 (bt_remove set a) a x k p.rest_sorted Apart-left)

  left-Apart : Apart left y b
  unfolding left
  left-Apart = ground (
    arith,
    p.starts,
    Apart-shrink (bt_remove set a) a b y b p.rest_apart (omega (arith, p.starts)) (omega arith),
    Apart-bt_insert (bt_remove set a) y b a x,
  )

  left-LeftCut : LeftCut left x
  unfolding left
  left-LeftCut = ground (
    arith,
    Apart→LeftCut (bt_remove set a) a b x p.rest_apart p.starts (omega arith),
    LeftCut-bt_insert (bt_remove set a) x a x,
  )

  left-length : length left ≤ length set
  unfolding left
  left-length = ground (arith, p.shorter, length-bt_insert (bt_remove set a) a x)

  cut_prev_lem : cut_prev set a b x y ≡ (if ltb y b then bt_insert left y b else left)
  unfolding cut_prev left
  cut_prev_lem = refl

  -- The preceding range reaches to `y` or past it: nothing follows.
  cut-Removed : y ≤ b → Removed set (cut_prev set a b x y) x y
  cut-Removed past = rw cut_prev_lem record {
    sorted = ground (
      arith,
      left-IsSorted,
      bt_insert-IsSorted 0 left y b left-IsSorted left-Apart (omega arith),
    );
    exact = λ k. ground (
      arith,
      covers-left k,
      covers-bt_insert 0 left y b k left-IsSorted left-Apart,
      p.rest_covers k,
      outside k,
      p.starts,
    );
    size = ground (arith, left-length, length-bt_insert left y b);
  }
    where
      outside : (k : ℕ) → covers (bt_remove set a) k ≡ true → (k < a) ⊎ (b < k)
      outside k e = Apart-covers (bt_remove set a) a b k p.rest_apart e

  -- It ends inside the range: the loop goes on.
  cut_carve-Removed :
      b < y → Removed set (carve (length (cut_prev set a b x y)) (cut_prev set a b x y) x y) x y
  cut_carve-Removed short =
      rw (cut_prev_lem, le→ltb y b (omega arith))
        record {
          sorted = c.sorted;
          exact = λ k. ground (arith, c.exact k, covers-left k, p.rest_covers k, p.starts);
          size = omega (arith, left-length, c.size);
        }
    where
      c : Removed left (carve (length left) left x y) x y
      c = carve-Removed left x y left-IsSorted left-LeftCut h

  -- Both ends of the preceding range stay.
  length-cut_prev : a < x → y < b → length (cut_prev set a b x y) ≡ length set + 1
  unfolding left
  length-cut_prev before past =
      rw (cut_prev_lem, lt→ltb y b past)
        (ground (
          arith,
          p.shorter,
          length-bt_insert_new 0 (bt_remove set a) a x p.rest_sorted Apart-left before,
          length-bt_insert_new 0 left y b left-IsSorted left-Apart past,
        ))

remove_next-Removed :
    (set : Entries) (q : Option (ℕ × ℕ)) (x y : ℕ)
    → IsSorted 0 set
    → x < y
    → prev_to set x ≡ q
    → Removed set (remove_next set q x y) x y
remove_next-Removed set none x y v h e =
    unfold remove_next in
    carve-Removed set x y v (LeftCut-above (x + 1) set x (prev_to-none 0 set x v e) (omega arith)) h
remove_next-Removed set (some (a, b)) x y v h e = split (dec_lt x b) (dec_le y b)
  where
    p : Prev 0 set x a b
    p = prev_to-Prev 0 set x v e

    split : Dec (x < b) → Dec (y ≤ b) → Removed set (remove_next set (some (a, b)) x y) x y
    split (yes i) (yes past) =
        unfold remove_next in
        rw (lt→ltb x b i, le→leb y b past) (cut-Removed set x y a b p h i past)
    split (yes i) (no past) =
        unfold remove_next in
        rw (lt→ltb x b i, lt→leb y b (omega arith))
          (cut_carve-Removed set x y a b p h i (omega arith))
    split (no i) past =
        unfold remove_next in
        rw (le→ltb x b (omega arith)) (carve-Removed set x y v (p.cut (omega arith)) h)

-- For a valid set, `remove` of `[x, y)` keeps the order and leaves exactly the values outside
-- `[x, y)`; the number of ranges grows by one at most.
pub remove-Removed : (s : RangeSet) (x y : ℕ) → IsValid s → Removed s.set (remove s x y).set x y
remove-Removed s x y v = split (Bool-cases (is_empty s)) (dec_lt x y)
  where
    same :
        ((k : ℕ) → covers s.set k ≡ (covers s.set k && not (inside x y k)))
        → Removed s.set s.set x y
    same e = record { sorted = v; exact = e; size = omega arith }

    split :
        (is_empty s ≡ true) ⊎ (is_empty s ≡ false)
        → Dec (x < y)
        → Removed s.set (remove s x y).set x y
    split (inl e) d = unfold remove in rw e (same (λ k. empty_covers s x y k e))
    split (inr e) (no d) =
        unfold remove in rw (e, le→leb y x (omega arith)) (same (λ k. ground arith))
    split (inr e) (yes d) =
        unfold remove in
        rw (e, lt→leb y x d) (remove_next-Removed s.set (prev_to s.set x) x y v d refl)

-- The capacity bounds `insert` only: a valid set that holds as many ranges as its capacity allows
-- holds one more after `remove` of a range that lies strictly inside one of them.
pub remove_splits :
    (s : RangeSet) (x y a b : ℕ)
    → IsValid s
    → length s.set ≡ s.capacity
    → prev_to s.set x ≡ some (a, b)
    → a < x
    → x < y
    → y < b
    → s.capacity < length (remove s x y).set
unfolding remove is_empty remove_next
remove_splits s x y a b v full e h p q =
    ground (arith, e, found.shorter, length-cut_prev s.set x y a b found p (omega arith) h q)
  where
    found : Prev 0 s.set x a b
    found = prev_to-Prev 0 s.set x v e

pub remove_elem-Removed :
    (s : RangeSet) (k : ℕ) → IsValid s → Removed s.set (remove_elem s k).set k (add64 k 1)
unfolding remove_elem
remove_elem-Removed s k v = remove-Removed s k (add64 k 1) v
