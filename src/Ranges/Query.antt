-- ===== src/Ranges/Query.antt =====
-- The queries of src/ranges.rs: `contains`, `filter` and `pop_min`.
use tquic.Base.{ℕ, ◌+◌, ◌≤◌, ◌<◌, ◌≡◌, refl, true, false, ◌&&◌, ◌||◌, arith}
use tquic.Base.{[], ◌∷◌, leb, Option, none, some, Option-cases}
use tquic.Base.{not, inl, inr, ◌⊎◌, le→leb, lt→leb, lt→ltb, le→ltb, Bool-cases}
use native.Mathlib.Decide.{dec_le, dec_lt}
use tquic.Ranges.{
  RangeSet, holds, contains, filter, filter_by, filter_end, is_empty, peek_min, pop_min,
}
use tquic.Ranges.Map.{Entries, prev_to, next_to, next_after, bt_remove}
use tquic.Ranges.Order.{IsSorted, IsSorted-weaken, inside, covers, covers-below, covers-empty}
use tquic.Ranges.Prev.{Prev, prev_to-Prev}
use tquic.Ranges.Insert.{IsValid}

holds_either :
    (lo : ℕ) (s : Entries) (x : ℕ)
    → IsSorted lo s
    → (holds (prev_to s x) x || holds (next_to s x) x) ≡ covers s x
unfolding prev_to next_to covers
holds_either lo [] x v = refl
holds_either lo ((a, b) ∷ r) x v = elim (Option-cases (prev_to r x)) [
  | inl n ↦ ground (arith, n, holds_either (b + 1) r x v.2, covers-below (b + 1) r x v.2)
  | inr ((c, d), n) ↦
      let q : Prev (b + 1) r x c d = prev_to-Prev (b + 1) r x v.2 n in
      ground (arith, n, q.low, q.starts, holds_either (b + 1) r x v.2)
]

-- On a valid set `contains` answers exactly whether some range of the set covers the value.
pub contains-covers : (s : RangeSet) (x : ℕ) → IsValid s → contains s x ≡ covers s.set x
unfolding contains
contains-covers s x v = holds_either 0 s.set x v

abbrev EndsBy : Option (ℕ × ℕ) → ℕ → Type 0
EndsBy none k = Unit {0}
EndsBy (some (a, b)) k = b ≤ k

abbrev BeginsAfter : Option (ℕ × ℕ) → ℕ → Type 0
BeginsAfter none k = Unit {0}
BeginsAfter (some (a, b)) k = k < a

-- Between the preceding range and the one after it nothing is covered.
covers-gap :
    (lo : ℕ) (s : Entries) (x k : ℕ)
    → IsSorted lo s
    → x ≤ k
    → EndsBy (prev_to s x) k
    → BeginsAfter (next_after s x) k
    → covers s k ≡ false
unfolding prev_to next_after covers
covers-gap lo [] x k v h p q = refl
covers-gap lo ((a, b) ∷ r) x k v h p q = elim (Option-cases (prev_to r x)) [
  | inl n ↦ ground (arith, n, covers-below (b + 1) r k v.2, covers-gap (b + 1) r x k v.2 h)
  | inr ((c, d), n) ↦
      let w : Prev (b + 1) r x c d = prev_to-Prev (b + 1) r x v.2 n in
      ground (arith, n, w.low, w.starts, covers-gap (b + 1) r x k v.2 h)
]

next_after-covers :
    (lo : ℕ) (s : Entries) (x : ℕ) {a b : ℕ}
    → IsSorted lo s
    → next_after s x ≡ some (a, b)
    → (x < a) × (lo ≤ a) × (covers s a ≡ true)
unfolding next_after covers
next_after-covers lo [] x v e = cc
next_after-covers lo ((c, d) ∷ r) x {a = a} {b = b} v e =
    ground (arith, next_after-covers (d + 1) r x {a = a} {b = b} v.2)

-- The range after `x` begins past the end of the one before it.
next_after-past :
    (lo : ℕ) (s : Entries) (x : ℕ) {a b c d : ℕ}
    → IsSorted lo s
    → prev_to s x ≡ some (a, b)
    → next_after s x ≡ some (c, d)
    → b < c
unfolding prev_to next_after
next_after-past lo [] x v e f = cc
next_after-past lo ((a', b') ∷ r) x {a = a} {b = b} {c = c} {d = d} v e f =
    elim (Option-cases (prev_to r x)) [
      | inl n ↦ ground (arith, n, next_after-covers (b' + 1) r x {a = c} {b = d} v.2)
      | inr ((i, j), n) ↦ ground (
        arith,
        n,
        next_after-past (b' + 1) r x {a = i} {b = j} {c = c} {d = d} v.2 n,
        next_after-covers (b' + 1) r x {a = c} {b = d} v.2,
      )
    ]

-- The end that `filter` takes.
record Limit (s : Entries) (q : Option (ℕ × ℕ)) (x y : ℕ) : Type 0 where
  past : x < filter_end q y
  within : filter_end q y ≤ y
  free : (k : ℕ) → k < filter_end q y → BeginsAfter q k
  stop : filter_end q y < y → covers s (filter_end q y) ≡ true

filter_end-Limit :
    (s : Entries) (q : Option (ℕ × ℕ)) (x y : ℕ)
    → IsSorted 0 s
    → x < y
    → next_after s x ≡ q
    → Limit s q x y
filter_end-Limit s none x y v h e = record {
  past = h;
  within = omega arith;
  free = λ k p. tt;
  stop = λ p. absurd (omega arith);
}
filter_end-Limit s (some (a, b)) x y v h e =
    let w : (x < a) × (0 ≤ a) × (covers s a ≡ true) = next_after-covers 0 s x v e in
    record {
      past = ground arith;
      within = ground arith;
      free = λ k p. ground arith;
      stop = λ p. ground arith;
    }

-- What `filter` finds in `[x, y)`.
abbrev pub Found : Entries → ℕ → ℕ → Option (ℕ × ℕ) → Type 0
Found s x y none = (k : ℕ) → inside x y k ≡ true → covers s k ≡ true
Found s x y (some (c, d)) =
    (x ≤ c)
    × (c < d)
    × (d ≤ y)
    × ((k : ℕ) → inside c d k ≡ true → covers s k ≡ false)
    × ((k : ℕ) → inside x c k ≡ true → covers s k ≡ true)
    × (d < y → covers s d ≡ true)

filter_end-past :
    (s : Entries) (q : Option (ℕ × ℕ)) (x y : ℕ) {a b : ℕ}
    → IsSorted 0 s
    → prev_to s x ≡ some (a, b)
    → next_after s x ≡ q
    → b < y
    → b < filter_end q y
filter_end-past s none x y v ep eq h = h
filter_end-past s (some (c, d)) x y v ep eq h =
    let w = next_after-past 0 s x v ep eq in ground arith

filter_by-Found :
    (s : Entries) (p q : Option (ℕ × ℕ)) (x y : ℕ)
    → IsSorted 0 s
    → x < y
    → prev_to s x ≡ p
    → next_after s x ≡ q
    → Found s x y (filter_by p x y (filter_end q y))
filter_by-Found s none q x y v h ep eq =
    let w : Limit s q x y = filter_end-Limit s q x y v h eq in
    (
      omega arith,
      w.past,
      w.within,
      (λ k i. covers-gap 0 s x k v (ground arith) (rw ep tt) (rw eq (w.free k (ground arith)))),
      (λ k i. absurd (ground arith)),
      w.stop,
    )
filter_by-Found s (some (a, b)) q x y v h ep eq = split (dec_le y b) (dec_lt x b)
  where
    p : Prev 0 s x a b
    p = prev_to-Prev 0 s x v ep

    w : Limit s q x y
    w = filter_end-Limit s q x y v h eq

    gap : (k : ℕ) → x ≤ k → b ≤ k → k < filter_end q y → covers s k ≡ false
    gap k i j l = covers-gap 0 s x k v i (rw ep j) (rw eq (w.free k l))

    split : Dec (y ≤ b) → Dec (x < b) → Found s x y (filter_by (some (a, b)) x y (filter_end q y))
    split (yes i) j = rw (le→leb y b i) (λ k l. p.covered k (ground (arith, p.starts)))
    split (no i) (yes j) =
        rw (lt→leb y b (omega arith), lt→ltb x b j)
          (
            omega arith,
            room,
            w.within,
            (λ k l. gap k (ground arith) (ground arith) (ground arith)),
            (λ k l. p.covered k (ground (arith, p.starts))),
            w.stop,
          )
      where
        room : b < filter_end q y
        room = filter_end-past s q x y v ep eq (omega arith)
    split (no i) (no j) =
        rw (lt→leb y b (omega arith), le→ltb x b (omega arith))
          (
            omega arith,
            w.past,
            w.within,
            (λ k l. gap k (ground arith) (ground arith) (ground arith)),
            (λ k l. absurd (ground arith)),
            w.stop,
          )

filter-Found : (s : RangeSet) (x y : ℕ) → IsValid s → x < y → Found s.set x y (filter s x y)
filter-Found s x y v h = split (Bool-cases (is_empty s))
  where
    split : (is_empty s ≡ true) ⊎ (is_empty s ≡ false) → Found s.set x y (filter s x y)
    split (inl e) =
        unfold filter in
        rw e (
          omega arith,
          h,
          omega arith,
          (λ k i. covers-empty s.set k (unfold is_empty in e)),
          (λ k i. absurd (ground arith)),
          (λ i. absurd (omega arith)),
        )
    split (inr e) =
        unfold filter in
        rw e (filter_by-Found s.set (prev_to s.set x) (next_after s.set x) x y v h refl refl)

-- What `filter` promises of `[x, y)` and of a value `k`: the subrange found is not covered, what
-- precedes it is, and it ends at `y` or at a covered value; with none found all is covered.
abbrev pub Filtered : Entries → ℕ → ℕ → ℕ → Option (ℕ × ℕ) → Type 0
Filtered s x y k none = (inside x y k && not (covers s k)) ≡ false
Filtered s x y k (some (c, d)) =
    (x ≤ c)
    × (c < d)
    × (d ≤ y)
    × ((inside c d k && covers s k) ≡ false)
    × ((inside x c k && not (covers s k)) ≡ false)
    × ((d ≡ y) ⊎ (covers s d ≡ true))

Found→Filtered : (s : Entries) (x y k : ℕ) (r : Option (ℕ × ℕ)) → Found s x y r → Filtered s x y k r
Found→Filtered s x y k none f = ground (arith, f k)
Found→Filtered s x y k (some (c, d)) f = (
  f.0,
  f.1,
  f.2,
  ground (arith, f.3 k),
  ground (arith, f.4 k),
  elim (dec_lt d y) [ yes h ↦ inr (f.5 h) | no h ↦ inl (omega (arith, f.2)) ],
)

-- `filter` on a valid set and a range `[x, y)` that is not empty returns the first subrange that
-- is not covered: it is not empty and lies in `[x, y)`, none of its values is covered, all before it
-- are, and it ends at `y` or at a covered value; it returns none only if all of `[x, y)` is covered.
pub filter-Filtered :
    (s : RangeSet) (x y k : ℕ) → IsValid s → x < y → Filtered s.set x y k (filter s x y)
filter-Filtered s x y k v h = Found→Filtered s.set x y k (filter s x y) (filter-Found s x y v h)

abbrev with_set : Entries → ℕ → RangeSet
with_set set cap = record { set = set; capacity = cap }

pop_entries :
    (set : Entries) (cap k a b : ℕ)
    → IsSorted 0 set
    → (pop_min (with_set set cap)).0 ≡ some (a, b)
    → IsValid (pop_min (with_set set cap)).1
      × (covers set k ≡ (inside a b k || covers (pop_min (with_set set cap)).1.set k))
      × (covers (pop_min (with_set set cap)).1.set k ≡ true → b < k)
unfolding pop_min peek_min bt_remove covers
pop_entries [] cap k a b v e = cc
pop_entries ((c, d) ∷ r) cap k a b v e =
    ground (arith, IsSorted-weaken (d + 1) 0 r (omega arith) v.2, covers-below (d + 1) r k v.2)

-- `pop_min` on a valid set takes the first range out: its values are those that leave the set, and
-- they are below all that stay.
pub pop_min-covers :
    (s : RangeSet) (k : ℕ) {a b : ℕ}
    → IsValid s
    → (pop_min s).0 ≡ some (a, b)
    → IsValid (pop_min s).1
      × (covers s.set k ≡ (inside a b k || covers (pop_min s).1.set k))
      × ((leb k b && covers (pop_min s).1.set k) ≡ false)
pop_min-covers s k {a = a} {b = b} v e =
    let w = pop_entries s.set s.capacity k a b v e in (w.0, w.1, ground (arith, w.2))
