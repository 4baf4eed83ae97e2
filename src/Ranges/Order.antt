-- ===== src/Ranges/Order.antt =====
-- The order of the entries, and the values that they cover.
use tquic.Base.{ℕ, ◌+◌, ◌≤◌, ◌<◌, ◌≡◌, refl, Bool, true, false, ◌&&◌, ◌||◌, arith, ltb, leb}
use tquic.Base.{[], ◌∷◌, ◌==◌, ◌⊎◌, inl, inr, length}
use tquic.Ranges.Map.{Entries, bt_insert, pop_first}

-- Ascending, not empty, and with a gap between any two; `lo` is below every start.
abbrev pub IsSorted : ℕ → Entries → Type 0
IsSorted lo [] = Unit {0}
IsSorted lo ((a, b) ∷ r) = (lo ≤ a) × (a < b) × IsSorted (b + 1) r

abbrev pub inside : ℕ → ℕ → ℕ → Bool
inside a b x = leb a x && ltb x b

-- The set of values that the entries stand for.
unfoldable pub covers : Entries → ℕ → Bool
covers [] x = false
covers ((a, b) ∷ r) x = inside a b x || covers r x

-- No entry touches `[start, end)`.
abbrev pub Apart : Entries → ℕ → ℕ → Type 0
Apart [] start end = Unit {0}
Apart ((a, b) ∷ r) start end = ((b < start) ⊎ (end < a)) × Apart r start end

-- An entry that begins before `start` ends before it.
abbrev pub LeftClear : Entries → ℕ → Type 0
LeftClear [] start = Unit {0}
LeftClear ((a, b) ∷ r) start = ((start ≤ a) ⊎ (b < start)) × LeftClear r start

-- An entry that begins before `start` ends there at the latest.
abbrev pub LeftCut : Entries → ℕ → Type 0
LeftCut [] start = Unit {0}
LeftCut ((a, b) ∷ r) start = ((start ≤ a) ⊎ (b ≤ start)) × LeftCut r start

pub LeftCut-above : (lo : ℕ) (s : Entries) (x : ℕ) → IsSorted lo s → x ≤ lo → LeftCut s x
LeftCut-above lo [] x v h = tt
LeftCut-above lo ((a, b) ∷ r) x v h =
    (inl (omega arith), LeftCut-above (b + 1) r x v.2 (omega arith))

pub Apart-above : (lo : ℕ) (s : Entries) (x y : ℕ) → IsSorted lo s → y < lo → Apart s x y
Apart-above lo [] x y v h = tt
Apart-above lo ((a, b) ∷ r) x y v h =
    (inr (omega arith), Apart-above (b + 1) r x y v.2 (omega arith))

pub Apart-shrink : (s : Entries) (x y x' y' : ℕ) → Apart s x y → x ≤ x' → y' ≤ y → Apart s x' y'
Apart-shrink [] x y x' y' h p q = tt
Apart-shrink ((a, b) ∷ r) x y x' y' h p q = ground (arith, Apart-shrink r x y x' y' h.1 p q)

pub Apart-bt_insert :
    (s : Entries) (x y a b : ℕ) → Apart s x y → (b < x) ⊎ (y < a) → Apart (bt_insert s a b) x y
unfolding bt_insert
Apart-bt_insert [] x y a b h p = (p, tt)
Apart-bt_insert ((c, d) ∷ r) x y a b h p = ground (arith, Apart-bt_insert r x y a b h.1 p)

pub Apart→LeftCut : (s : Entries) (a b x : ℕ) → Apart s a b → a ≤ x → x ≤ b → LeftCut s x
Apart→LeftCut [] a b x h p q = tt
Apart→LeftCut ((c, d) ∷ r) a b x h p q = ground (arith, Apart→LeftCut r a b x h.1 p q)

pub LeftCut-bt_insert :
    (s : Entries) (x a b : ℕ) → LeftCut s x → (x ≤ a) ⊎ (b ≤ x) → LeftCut (bt_insert s a b) x
unfolding bt_insert
LeftCut-bt_insert [] x a b h p = (p, tt)
LeftCut-bt_insert ((c, d) ∷ r) x a b h p = ground (arith, LeftCut-bt_insert r x a b h.1 p)

pub bt_insert-front :
    (lo : ℕ) (s : Entries) (x y : ℕ) → IsSorted lo s → x < lo → bt_insert s x y ≡ (x, y) ∷ s
unfolding bt_insert
bt_insert-front lo [] x y v h = refl
bt_insert-front lo ((a, b) ∷ r) x y v h = ground arith

pub IsSorted-weaken : (lo lo' : ℕ) (s : Entries) → lo' ≤ lo → IsSorted lo s → IsSorted lo' s
IsSorted-weaken lo lo' [] h v = tt
IsSorted-weaken lo lo' ((a, b) ∷ r) h v = (omega arith, v.1, v.2)

pub covers-below : (lo : ℕ) (s : Entries) (x : ℕ) → IsSorted lo s → x < lo → covers s x ≡ false
unfolding covers
covers-below lo [] x v h = refl
covers-below lo ((a, b) ∷ r) x v h = ground (arith, covers-below (b + 1) r x v.2)

pub pop_first-IsSorted : (lo : ℕ) (s : Entries) → IsSorted lo s → IsSorted lo (pop_first s)
pop_first-IsSorted lo [] v = tt
pop_first-IsSorted lo ((a, b) ∷ r) v = IsSorted-weaken (b + 1) lo r (omega arith) v.2

pub pop_first-Apart : (s : Entries) (x y : ℕ) → Apart s x y → Apart (pop_first s) x y
pop_first-Apart [] x y h = tt
pop_first-Apart (p ∷ r) x y h = h.1

pub bt_insert-IsSorted :
    (lo : ℕ) (s : Entries) (x y : ℕ)
    → IsSorted lo s
    → Apart s x y
    → lo ≤ x
    → x < y
    → IsSorted lo (bt_insert s x y)
unfolding bt_insert
bt_insert-IsSorted lo [] x y v h p q = (p, q, tt)
bt_insert-IsSorted lo ((a, b) ∷ r) x y v h p q =
    ground (arith, bt_insert-IsSorted (b + 1) r x y v.2 h.1)

pub covers-bt_insert :
    (lo : ℕ) (s : Entries) (x y k : ℕ)
    → IsSorted lo s
    → Apart s x y
    → x < y
    → covers (bt_insert s x y) k ≡ (inside x y k || covers s k)
unfolding bt_insert covers
covers-bt_insert lo [] x y k v h p = refl
covers-bt_insert lo ((a, b) ∷ r) x y k v h p =
    ground (arith, covers-bt_insert (b + 1) r x y k v.2 h.1)

pub length-bt_insert : (s : Entries) (x y : ℕ) → length (bt_insert s x y) ≤ length s + 1
unfolding bt_insert
length-bt_insert [] x y = omega arith
length-bt_insert ((a, b) ∷ r) x y = ground (arith, length-bt_insert r x y)

pub length-bt_insert_new :
    (lo : ℕ) (s : Entries) (x y : ℕ)
    → IsSorted lo s
    → Apart s x y
    → x < y
    → length (bt_insert s x y) ≡ length s + 1
unfolding bt_insert
length-bt_insert_new lo [] x y v h p = refl
length-bt_insert_new lo ((a, b) ∷ r) x y v h p =
    ground (arith, length-bt_insert_new (b + 1) r x y v.2 h.1)

pub covers-pop_first : (s : Entries) (k : ℕ) → covers (pop_first s) k ≡ true → covers s k ≡ true
unfolding covers
covers-pop_first [] k h = h
covers-pop_first ((a, b) ∷ r) k h = ground arith

pub covers-empty : (s : Entries) (k : ℕ) → (length s == 0) ≡ true → covers s k ≡ false
unfolding covers
covers-empty [] k e = refl
covers-empty (p ∷ r) k e = absurd (ground arith)
