-- ===== src/Ranges/Carve.antt =====
-- The loop of src/ranges.rs `remove` over the following ranges, against a recursion on the entries.
use tquic.Base.{ℕ, zero, suc, ◌+◌, ◌≤◌, ◌<◌, ◌≡◌, refl, true, false, ◌&&◌, not, arith}
use tquic.Base.{[], ◌∷◌, ltb, if◌then◌else◌, length, Option-cases, inl, inr}
use native.Mathlib.Decide.{dec_lt}
use tquic.Ranges.{carve}
use tquic.Ranges.Map.{Entries, bt_insert, bt_remove, next_to}
use tquic.Ranges.Order.{IsSorted, IsSorted-weaken, inside, covers, covers-below, LeftCut}
use tquic.Ranges.Order.{bt_insert-front}
use tquic.Ranges.Absorb.{next_to-ge}

pub carve_all : Entries → ℕ → ℕ → Entries
carve_all [] x y = []
carve_all ((a, b) ∷ r) x y = elim (ltb a x) [
  | true ↦ (a, b) ∷ carve_all r x y
  | false ↦ elim (ltb y a) [
    | true ↦ (a, b) ∷ r
    | false ↦ elim (ltb y b) [ true ↦ bt_insert r y b | false ↦ carve_all r x y ]
  ]
]

carve-skip :
    (fuel a b : ℕ) (r : Entries) (x y : ℕ)
    → a < x
    → x < y
    → carve fuel ((a, b) ∷ r) x y ≡ (a, b) ∷ carve fuel r x y
unfolding carve next_to bt_remove bt_insert
carve-skip zero a b r x y h p = refl
carve-skip (suc fuel) a b r x y h p = elim (Option-cases (next_to r x)) [
  | inl n ↦ ground (arith, n)
  | inr ((c, d), n) ↦
      ground (arith, n, next_to-ge r x n, carve-skip fuel a b (bt_remove r c) x y h p)
]

carve_meets :
    (fuel a b : ℕ) (r : Entries) (x y : ℕ)
    → x ≤ a
    → carve (suc fuel) ((a, b) ∷ r) x y
      ≡ (if ltb y a then (a, b) ∷ r else if ltb y b then bt_insert r y b else carve fuel r x y)
unfolding carve next_to bt_remove
carve_meets fuel a b r x y h = ground arith

pub carve-eq-carve_all :
    (fuel : ℕ) (s : Entries) (x y : ℕ)
    → length s ≤ fuel
    → x < y
    → carve fuel s x y ≡ carve_all s x y
unfolding carve_all
carve-eq-carve_all zero [] x y h q = unfold carve in refl
carve-eq-carve_all (suc fuel) [] x y h q = unfold carve next_to in refl
carve-eq-carve_all zero (p ∷ r) x y h q = absurd (omega arith)
carve-eq-carve_all (suc fuel) ((a, b) ∷ r) x y h q = elim (dec_lt a x) [
  | yes p ↦ ground (
    arith,
    carve-skip (suc fuel) a b r x y p q,
    carve-eq-carve_all (suc fuel) r x y (omega arith) q,
  )
  | no p ↦ ground (
    arith,
    carve_meets fuel a b r x y (omega arith),
    carve-eq-carve_all fuel r x y (omega arith) q,
  )
]

pub carve_all-IsSorted :
    (lo : ℕ) (s : Entries) (x y : ℕ) → IsSorted lo s → IsSorted lo (carve_all s x y)
unfolding carve_all
carve_all-IsSorted lo [] x y v = tt
carve_all-IsSorted lo ((a, b) ∷ r) x y v = ground (
  arith,
  carve_all-IsSorted (b + 1) r x y v.2,
  IsSorted-weaken (b + 1) lo (carve_all r x y) (omega arith),
  bt_insert-front (b + 1) r y b v.2,
)

pub carve_all-covers :
    (lo : ℕ) (s : Entries) (x y k : ℕ)
    → IsSorted lo s
    → LeftCut s x
    → x < y
    → covers (carve_all s x y) k ≡ (covers s k && not (inside x y k))
unfolding carve_all covers
carve_all-covers lo [] x y k v c h = refl
carve_all-covers lo ((a, b) ∷ r) x y k v c h = ground (
  arith,
  carve_all-covers (b + 1) r x y k v.2 c.1 h,
  bt_insert-front (b + 1) r y b v.2,
  covers-below (b + 1) r k v.2,
)

pub carve_all-length :
    (lo : ℕ) (s : Entries) (x y : ℕ) → IsSorted lo s → length (carve_all s x y) ≤ length s
unfolding carve_all
carve_all-length lo [] x y v = omega arith
carve_all-length lo ((a, b) ∷ r) x y v =
    ground (arith, carve_all-length (b + 1) r x y v.2, bt_insert-front (b + 1) r y b v.2)
