-- ===== src/Ranges/Absorb.antt =====
-- The loop of src/ranges.rs `insert`, against a recursion on the entries.
use tquic.Base.{ℕ, zero, suc, ◌+◌, ◌≤◌, ◌<◌, ◌≡◌, refl, true, false, ◌||◌, arith, max}
use tquic.Base.{[], ◌∷◌, inl, inr, ltb, if◌then◌else◌, length, some}
use native.Mathlib.Decide.{dec_lt}
use tquic.Base.{Option-cases}
use tquic.Ranges.{absorb}
use tquic.Ranges.Map.{Entries, bt_remove, next_to}
use tquic.Ranges.Order.{IsSorted, IsSorted-weaken, inside, covers, Apart, LeftClear, Apart-above}

pub absorb_all : Entries → ℕ → ℕ → Entries × ℕ
absorb_all [] x y = ([], y)
absorb_all ((a, b) ∷ r) x y = elim (ltb a x) [
  | true ↦ ((a, b) ∷ (absorb_all r x y).0, (absorb_all r x y).1)
  | false ↦ elim (ltb y a) [ true ↦ ((a, b) ∷ r, y) | false ↦ absorb_all r x (max b y) ]
]

pub next_to-ge : (s : Entries) (x : ℕ) {c d : ℕ} → next_to s x ≡ some (c, d) → x ≤ c
unfolding next_to
next_to-ge [] x e = cc
next_to-ge ((a, b) ∷ r) x {c = c} {d = d} e = ground (arith, next_to-ge r x {c = c} {d = d})

-- An entry that begins before the range is left where it is.
absorb-skip :
    (fuel a b : ℕ) (r : Entries) (x y : ℕ)
    → a < x
    → absorb fuel ((a, b) ∷ r) x y ≡ ((a, b) ∷ (absorb fuel r x y).0, (absorb fuel r x y).1)
unfolding absorb next_to bt_remove
absorb-skip zero a b r x y h = refl
absorb-skip (suc fuel) a b r x y h = elim (Option-cases (next_to r x)) [
  | inl n ↦ ground (arith, n)
  | inr ((c, d), n) ↦
      ground (arith, n, next_to-ge r x n, absorb-skip fuel a b (bt_remove r c) x (max d y) h)
]

absorb_meets :
    (fuel a b : ℕ) (r : Entries) (x y : ℕ)
    → x ≤ a
    → absorb (suc fuel) ((a, b) ∷ r) x y
      ≡ (if ltb y a then ((a, b) ∷ r, y) else absorb fuel r x (max b y))
unfolding absorb next_to bt_remove
absorb_meets fuel a b r x y h = ground arith

pub absorb-eq-absorb_all :
    (fuel : ℕ) (s : Entries) (x y : ℕ) → length s ≤ fuel → absorb fuel s x y ≡ absorb_all s x y
unfolding absorb_all
absorb-eq-absorb_all zero [] x y h = unfold absorb in refl
absorb-eq-absorb_all (suc fuel) [] x y h = unfold absorb next_to in refl
absorb-eq-absorb_all zero (p ∷ r) x y h = absurd (omega arith)
absorb-eq-absorb_all (suc fuel) ((a, b) ∷ r) x y h = elim (dec_lt a x) [
  | yes p ↦ ground (
    arith,
    absorb-skip (suc fuel) a b r x y p,
    absorb-eq-absorb_all (suc fuel) r x y (omega arith),
  )
  | no p ↦ ground (
    arith,
    absorb_meets fuel a b r x y (omega arith),
    absorb-eq-absorb_all fuel r x (max b y) (omega arith),
  )
]

pub absorb_all-IsSorted :
    (lo : ℕ) (s : Entries) (x y : ℕ) → IsSorted lo s → IsSorted lo (absorb_all s x y).0
unfolding absorb_all
absorb_all-IsSorted lo [] x y v = tt
absorb_all-IsSorted lo ((a, b) ∷ r) x y v = ground (
  arith,
  absorb_all-IsSorted (b + 1) r x y v.2,
  absorb_all-IsSorted lo r x (max b y) (IsSorted-weaken (b + 1) lo r (omega arith) v.2),
)

pub absorb_all-le : (s : Entries) (x y : ℕ) → y ≤ (absorb_all s x y).1
unfolding absorb_all
absorb_all-le [] x y = omega arith
absorb_all-le ((a, b) ∷ r) x y = ground (arith, absorb_all-le r x y, absorb_all-le r x (max b y))

pub absorb_all-length : (s : Entries) (x y : ℕ) → length (absorb_all s x y).0 ≤ length s
unfolding absorb_all
absorb_all-length [] x y = omega arith
absorb_all-length ((a, b) ∷ r) x y =
    ground (arith, absorb_all-length r x y, absorb_all-length r x (max b y))

pub absorb_all-Apart :
    (lo : ℕ) (s : Entries) (x y : ℕ)
    → IsSorted lo s
    → LeftClear s x
    → Apart (absorb_all s x y).0 x (absorb_all s x y).1
unfolding absorb_all
absorb_all-Apart lo [] x y v c = tt
absorb_all-Apart lo ((a, b) ∷ r) x y v c = ground (
  arith,
  absorb_all-le r x y,
  absorb_all-le r x (max b y),
  absorb_all-Apart (b + 1) r x y v.2 c.1,
  absorb_all-Apart (b + 1) r x (max b y) v.2 c.1,
  Apart-above (b + 1) r x y v.2,
)

pub absorb_all-covers :
    (lo : ℕ) (s : Entries) (x y k : ℕ)
    → IsSorted lo s
    → x < y
    → (inside x (absorb_all s x y).1 k || covers (absorb_all s x y).0 k)
      ≡ (inside x y k || covers s k)
unfolding absorb_all covers
absorb_all-covers lo [] x y k v h = refl
absorb_all-covers lo ((a, b) ∷ r) x y k v h =
    ground (
      arith,
      absorb_all-covers (b + 1) r x y k v.2 h,
      absorb_all-covers (b + 1) r x (max b y) k v.2,
    )
