-- ===== src/Ranges.antt =====
-- src/ranges.rs: a set of u64 values kept as disjoint ranges.
-- The `BTreeMap<u64, u64>` from start to end is the list of its entries, in the order of the keys.
pub mod Map
pub mod Order
mod Prev
mod Absorb
mod Carve
pub mod Insert
pub mod Remove
pub mod Until
pub mod Query
mod Runs
use tquic.Base.{ℕ, zero, suc, ◌+◌, ◌-◌, ◌≤◌, ◌<◌, Bool, true, false, ◌&&◌, ◌||◌, max}
use tquic.Base.{List, [], ◌∷◌, Option, none, some, ltb, leb, ◌==◌, if◌then◌else◌, length}
use tquic.Base.{add64, sub64}
use Map.{Entries, bt_insert, bt_remove, pop_first, prev_to, next_to, next_after, up_to}

pub record RangeSet : Type 0 where
  pub set : Entries
  pub capacity : ℕ

-- `Range::is_empty`.
abbrev pub is_empty_range : ℕ → ℕ → Bool
is_empty_range start end = leb end start

-- The loop of `insert`: drops the entries from `start` on that touch the range, and widens it.
unfoldable pub absorb : ℕ → Entries → ℕ → ℕ → Entries × ℕ
absorb zero set start end = (set, end)
absorb (suc fuel) set start end = elim (next_to set start) [
  | none ↦ (set, end)
  | some (a, b) ↦
      let rest = absorb fuel (bt_remove set a) start (max b end) in
      if ltb end a then (set, end) else rest
]

-- The end of `insert`: the first range makes room in a full set.
unfoldable pub place : ℕ → Entries × ℕ → ℕ → Entries
place capacity (set, end) start =
    bt_insert (if leb capacity (length set) then pop_first set else set) start end

-- `insert` after the look at the preceding range. Each round of the loop removes an entry.
unfoldable pub insert_from : RangeSet → Entries → ℕ → ℕ → RangeSet
insert_from s set start end = record s {
  set = place s.capacity (absorb (length set) set start end) start;
}

-- `insert` by what `prev_to(range.start)` finds.
unfoldable pub insert_next : RangeSet → Option (ℕ × ℕ) → ℕ → ℕ → RangeSet
insert_next s none start end = insert_from s s.set start end
insert_next s (some (a, b)) start end =
    if leb end b
    then s
    else if leb start b
    then insert_from s (bt_remove s.set a) a end
    else insert_from s s.set start end

unfoldable pub insert : RangeSet → ℕ → ℕ → RangeSet
insert s start end =
    if is_empty_range start end then s else insert_next s (prev_to s.set start) start end

pub add_elem : RangeSet → ℕ → RangeSet
add_elem s e = insert s e (add64 e 1)

-- The loop of `remove` over the following ranges.
unfoldable pub carve : ℕ → Entries → ℕ → ℕ → Entries
carve zero set start end = set
carve (suc fuel) set start end = elim (next_to set start) [
  | none ↦ set
  | some (a, b) ↦
      let rest = carve fuel (bt_remove set a) start end in
      if ltb end a then set else if ltb end b then bt_insert (bt_remove set a) end b else rest
]

-- What `remove` leaves of a preceding range `[a, b)` that reaches into `[start, end)`.
unfoldable pub cut_prev : Entries → ℕ → ℕ → ℕ → ℕ → Entries
cut_prev set a b start end =
    let gone = bt_remove set a in
    let left = if ltb a start then bt_insert gone a start else gone in
    if ltb end b then bt_insert left end b else left

-- `remove` by what `prev_to(range.start)` finds.
unfoldable pub remove_next : Entries → Option (ℕ × ℕ) → ℕ → ℕ → Entries
remove_next set none start end = carve (length set) set start end
remove_next set (some (a, b)) start end =
    let set' = cut_prev set a b start end in
    if ltb start b
    then if leb end b then set' else carve (length set') set' start end
    else carve (length set) set start end

unfoldable pub is_empty : RangeSet → Bool
is_empty s = length s.set == 0

unfoldable pub remove : RangeSet → ℕ → ℕ → RangeSet
remove s start end =
    if is_empty s || is_empty_range start end
    then s
    else record s { set = remove_next s.set (prev_to s.set start) start end }

pub remove_elem : RangeSet → ℕ → RangeSet
remove_elem s e = remove s e (add64 e 1)

-- The body of the loop of `remove_until`.
pub remove_until_step : ℕ → RangeSet → ℕ × ℕ → RangeSet
remove_until_step e s (a, b) =
    let gone = record s { set = bt_remove s.set a } in
    if ltb (add64 e 1) b then insert gone (add64 e 1) b else gone

pub remove_until_loop : ℕ → RangeSet → Entries → RangeSet
remove_until_loop e s [] = s
remove_until_loop e s (r ∷ rs) = remove_until_loop e (remove_until_step e s r) rs

pub remove_until : RangeSet → ℕ → RangeSet
remove_until s e = remove_until_loop e s (up_to s.set e)

pub clear : RangeSet → RangeSet
clear s = record s { set = [] }

-- `filter` by what `prev_to` and `next_after` find.
abbrev pub filter_end : Option (ℕ × ℕ) → ℕ → ℕ
filter_end none end = end
filter_end (some (a, b)) end = if ltb a end then a else end

abbrev pub filter_by : Option (ℕ × ℕ) → ℕ → ℕ → ℕ → Option (ℕ × ℕ)
filter_by none start end new_end = some (start, new_end)
filter_by (some (a, b)) start end new_end =
    if leb end b then none else some ((if ltb start b then b else start), new_end)

-- The first subrange of `[start, end)` outside the set.
pub filter : RangeSet → ℕ → ℕ → Option (ℕ × ℕ)
filter s start end =
    if is_empty s
    then some (start, end)
    else filter_by (prev_to s.set start) start end (filter_end (next_after s.set start) end)

pub len : RangeSet → ℕ
len s = length s.set

-- `min`, `max`, `peek_min` and `pop_min`.
unfoldable pub peek_min : RangeSet → Option (ℕ × ℕ)
peek_min s = elim s.set [ [] ↦ none | r ∷ rs ↦ some r ]

unfoldable pub min : RangeSet → Option ℕ
min s = elim s.set [ [] ↦ none | (a, b) ∷ rs ↦ some a ]

pub last : Entries → Option (ℕ × ℕ)
last [] = none
last (r ∷ rs) = elim (last rs) [ none ↦ some r | some p ↦ some p ]

pub max_elem : RangeSet → Option ℕ
max_elem s = elim (last s.set) [ none ↦ none | some (a, b) ↦ some (sub64 b 1) ]

unfoldable pub pop_min : RangeSet → Option (ℕ × ℕ) × RangeSet
pop_min s = elim (peek_min s) [
  | none ↦ (none, s)
  | some (a, b) ↦ (some (a, b), record s { set = bt_remove s.set a })
]

-- `Range::contains`.
abbrev pub in_range : ℕ → ℕ → ℕ → Bool
in_range a b x = leb a x && ltb x b

-- Whether the range that was found, if any, contains the value.
abbrev pub holds : Option (ℕ × ℕ) → ℕ → Bool
holds none x = false
holds (some (a, b)) x = in_range a b x

pub contains : RangeSet → ℕ → Bool
contains s x = holds (prev_to s.set x) x || holds (next_to s.set x) x
