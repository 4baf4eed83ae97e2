-- ===== src/Ranges/Map.antt =====
-- What src/ranges.rs uses of `BTreeMap<u64, u64>`: a list of entries in the order of the keys.
use tquic.Base.{ℕ, List, [], ◌∷◌, Option, none, some, ltb, leb, ◌==◌, if◌then◌else◌}

abbrev pub Entries : Type 0
Entries = List (ℕ × ℕ)

unfoldable pub bt_insert : Entries → ℕ → ℕ → Entries
bt_insert [] k v = (k, v) ∷ []
bt_insert ((a, b) ∷ r) k v =
    if ltb k a then (k, v) ∷ (a, b) ∷ r else if k == a then (k, v) ∷ r else (a, b) ∷ bt_insert r k v

unfoldable pub bt_remove : Entries → ℕ → Entries
bt_remove [] k = []
bt_remove ((a, b) ∷ r) k = if k == a then r else (a, b) ∷ bt_remove r k

abbrev pub pop_first : Entries → Entries
pop_first [] = []
pop_first (p ∷ r) = r

abbrev pub or_else : Option (ℕ × ℕ) → Option (ℕ × ℕ) → Option (ℕ × ℕ)
or_else none q = q
or_else (some p) q = some p

-- `range(..=k).next_back()`.
unfoldable pub prev_to : Entries → ℕ → Option (ℕ × ℕ)
prev_to [] k = none
prev_to ((a, b) ∷ r) k = if leb a k then or_else (prev_to r k) (some (a, b)) else none

-- `range(k..).next()`.
unfoldable pub next_to : Entries → ℕ → Option (ℕ × ℕ)
next_to [] k = none
next_to ((a, b) ∷ r) k = if leb k a then some (a, b) else next_to r k

-- `range((Excluded(k), Unbounded)).next()`.
unfoldable pub next_after : Entries → ℕ → Option (ℕ × ℕ)
next_after [] k = none
next_after ((a, b) ∷ r) k = if ltb k a then some (a, b) else next_after r k

-- `range(..=k)`, collected.
unfoldable pub up_to : Entries → ℕ → Entries
up_to [] k = []
up_to ((a, b) ∷ r) k = if leb a k then (a, b) ∷ up_to r k else []
