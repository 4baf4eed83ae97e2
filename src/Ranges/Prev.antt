-- ===== src/Ranges/Prev.antt =====
-- The range that begins at or before a value: what src/ranges.rs `prev_to` finds.
use tquic.Base.{ℕ, ◌+◌, ◌≤◌, ◌<◌, ◌≡◌, refl, true, ◌||◌, arith}
use tquic.Base.{[], ◌∷◌, inl, inr, length, none, some, Option-cases}
use tquic.Base.{ap, ◌∙◌}
use mathlib.Core.Path.{subst}
use tquic.Ranges.Map.{Entries, bt_remove, prev_to}
use tquic.Ranges.Order.{IsSorted, IsSorted-weaken, inside, covers, LeftClear}
use tquic.Ranges.Order.{Apart, LeftCut, LeftCut-above, Apart-above}

pub LeftClear-above : (lo : ℕ) (s : Entries) (x : ℕ) → IsSorted lo s → x ≤ lo → LeftClear s x
LeftClear-above lo [] x v h = tt
LeftClear-above lo ((a, b) ∷ r) x v h =
    (inl (omega arith), LeftClear-above (b + 1) r x v.2 (omega arith))

prev_to-above : (lo : ℕ) (s : Entries) (x : ℕ) → IsSorted lo s → x < lo → prev_to s x ≡ none
unfolding prev_to
prev_to-above lo [] x v h = refl
prev_to-above lo ((a, b) ∷ r) x v h = ground arith

pub prev_to-none :
    (lo : ℕ) (s : Entries) (x : ℕ) → IsSorted lo s → prev_to s x ≡ none → IsSorted (x + 1) s
unfolding prev_to
prev_to-none lo [] x v e = tt
prev_to-none lo ((a, b) ∷ r) x v e = elim (Option-cases (prev_to r x)) [
  | inl n ↦ ground (arith, n)
  | inr (p, q) ↦ ground (arith, q)
]

-- The range found begins at or before `x`, is not empty, is covered, and what stands before `x`
-- ends with it.
pub record Prev (lo : ℕ) (s : Entries) (x a b : ℕ) : Type 0 where
  pub low : lo ≤ a
  pub starts : a ≤ x
  pub filled : a < b
  pub covered : (k : ℕ) → inside a b k ≡ true → covers s k ≡ true
  pub free_before : b < x → LeftClear s x
  pub cut : b ≤ x → LeftCut s x
  pub rest_apart : Apart (bt_remove s a) a b
  pub rest_sorted : IsSorted lo (bt_remove s a)
  pub rest_clear : LeftClear (bt_remove s a) a
  pub rest_covers : (k : ℕ) → covers s k ≡ (inside a b k || covers (bt_remove s a) k)
  pub shorter : length s ≡ length (bt_remove s a) + 1

Prev-here :
    (lo a b : ℕ) (r : Entries) (x : ℕ)
    → IsSorted lo ((a, b) ∷ r)
    → a ≤ x
    → IsSorted (x + 1) r
    → Prev lo ((a, b) ∷ r) x a b
unfolding covers bt_remove
Prev-here lo a b r x v h above = record {
  low = v.0;
  starts = h;
  filled = v.1;
  covered = λ k e. ground arith;
  free_before = λ p. (inr p, LeftClear-above (x + 1) r x above (omega arith));
  cut = λ p. (inr p, LeftCut-above (x + 1) r x above (omega arith));
  rest_apart = ground (arith, Apart-above (b + 1) r a b v.2 (omega arith));
  rest_sorted = ground (arith, IsSorted-weaken (b + 1) lo r (omega arith) v.2);
  rest_clear = ground (arith, LeftClear-above (b + 1) r a v.2 (omega arith));
  rest_covers = λ k. ground arith;
  shorter = ground arith;
}

Prev-step :
    (lo a b : ℕ) (r : Entries) (x : ℕ) {a' b' : ℕ}
    → IsSorted lo ((a, b) ∷ r)
    → Prev (b + 1) r x a' b'
    → Prev lo ((a, b) ∷ r) x a' b'
unfolding covers bt_remove
Prev-step lo a b r x {a' = a'} {b' = b'} v q = record {
  low = omega (arith, q.low);
  starts = q.starts;
  filled = q.filled;
  covered = λ k e. ground (arith, q.covered k e);
  free_before = λ p. (inr (omega (arith, q.low)), q.free_before p);
  cut = λ p. (inr (omega (arith, q.low)), q.cut p);
  rest_apart = ground (arith, q.low, q.rest_apart);
  rest_sorted = ground (arith, q.low, q.rest_sorted);
  rest_clear = ground (arith, q.low, q.rest_clear);
  rest_covers = λ k. ground (arith, q.low, q.rest_covers k);
  shorter = ground (arith, q.low, q.shorter);
}

pub prev_to-Prev :
    (lo : ℕ) (s : Entries) (x : ℕ) {a b : ℕ}
    → IsSorted lo s
    → prev_to s x ≡ some (a, b)
    → Prev lo s x a b
unfolding prev_to
prev_to-Prev lo [] x v e = cc
prev_to-Prev lo ((c, d) ∷ r) x {a = a} {b = b} v e = elim (Option-cases (prev_to r x)) [
  | inl n ↦
      let found : ℕ × ℕ = (c, d) in
      let wanted : ℕ × ℕ = (a, b) in
      let same : found ≡ wanted = ground (arith, n) in
      let start : c ≤ x = ground (arith, n) in
      subst (λ p. Prev lo ((c, d) ∷ r) x p.0 p.1) same
        (Prev-here lo c d r x v start (prev_to-none (d + 1) r x v.2 n))
  | inr (p, q) ↦
      let wanted : ℕ × ℕ = (a, b) in
      let same : p ≡ wanted = ground (arith, q) in
      Prev-step lo c d r x v (prev_to-Prev (d + 1) r x v.2 (q ∙ ap some same))
]
