-- ===== src/Ranges/Until.antt =====
-- `RangeSet::remove_until` of src/ranges.rs.
use tquic.Base.{ℕ, ◌+◌, ◌≤◌, ◌<◌, ◌^◌, ◌≡◌, refl, ◌&&◌, arith}
use tquic.Base.{[], ◌∷◌, ltb, length, ap, lt→leb, le→leb}
use native.Mathlib.Decide.{dec_le, dec_lt}
use tquic.Ranges.{RangeSet, insert, remove_until, remove_until_loop, remove_until_step}
use tquic.Ranges.Map.{Entries, bt_remove, up_to}
use tquic.Ranges.Order.{IsSorted, IsSorted-weaken, covers, covers-below}
use tquic.Ranges.Insert.{IsValid, Added, insert-Added}

abbrev with_set : Entries → ℕ → RangeSet
with_set set room = record { set = set; capacity = room }

-- What is left of `old` above `e`.
pub record Above (old : Entries) (e : ℕ) (new : Entries) : Type 0 where
  pub sorted : IsSorted 0 new
  pub exact : (k : ℕ) → covers new k ≡ (covers old k && ltb e k)

up_to-above : (lo : ℕ) (s : Entries) (e : ℕ) → IsSorted lo s → e < lo → up_to s e ≡ []
unfolding up_to
up_to-above lo [] e v h = refl
up_to-above lo ((a, b) ∷ r) e v h = ground arith

step_drops :
    (a b : ℕ) (r : Entries) (room e : ℕ)
    → b ≤ e + 1
    → e + 1 < 2 ^ 64
    → remove_until_step e (with_set ((a, b) ∷ r) room) (a, b) ≡ with_set r room
unfolding remove_until_step bt_remove
step_drops a b r room e h p = ground arith

step_trims :
    (a b : ℕ) (r : Entries) (room e : ℕ)
    → e + 1 < b
    → e + 1 < 2 ^ 64
    → remove_until_step e (with_set ((a, b) ∷ r) room) (a, b) ≡ insert (with_set r room) (e + 1) b
unfolding remove_until_step bt_remove
step_trims a b r room e h p = ground arith

loop_drops :
    (a b : ℕ) (r : Entries) (room e : ℕ)
    → a ≤ e
    → b ≤ e + 1
    → e + 1 < 2 ^ 64
    → remove_until_loop e (with_set ((a, b) ∷ r) room) (up_to ((a, b) ∷ r) e)
      ≡ remove_until_loop e (with_set r room) (up_to r e)
unfolding remove_until_loop up_to
loop_drops a b r room e q h p =
    rw (le→leb a e q) (ap (λ t. remove_until_loop e t (up_to r e)) (step_drops a b r room e h p))

loop_trims :
    (a b : ℕ) (r : Entries) (room e : ℕ)
    → IsSorted (b + 1) r
    → a ≤ e
    → e + 1 < b
    → e + 1 < 2 ^ 64
    → remove_until_loop e (with_set ((a, b) ∷ r) room) (up_to ((a, b) ∷ r) e)
      ≡ insert (with_set r room) (e + 1) b
unfolding remove_until_loop up_to
loop_trims a b r room e v q h p =
    rw (le→leb a e q, up_to-above (b + 1) r e v (omega arith)) (step_trims a b r room e h p)

remove_until_loop-Above :
    (lo : ℕ) (s : Entries) (room e : ℕ)
    → IsSorted lo s
    → length s ≤ room
    → e + 1 < 2 ^ 64
    → Above s e (remove_until_loop e (with_set s room) (up_to s e)).set
unfolding remove_until_loop up_to covers
remove_until_loop-Above lo [] room e v n p = record { sorted = tt; exact = λ k. refl }
remove_until_loop-Above lo ((a, b) ∷ r) room e v n p =
    split (dec_lt e a) (dec_le b (e + 1))
      (remove_until_loop-Above (b + 1) r room e v.2 (omega arith) p)
  where
    loop_stays :
        e < a
        → remove_until_loop e (with_set ((a, b) ∷ r) room) (up_to ((a, b) ∷ r) e)
          ≡ with_set ((a, b) ∷ r) room
    loop_stays h = rw (lt→leb a e h)

    dropped :
        (t : Entries)
        → Above r e t
        → b ≤ e + 1
        → IsSorted 0 t
        → (k : ℕ) → covers t k ≡ (covers ((a, b) ∷ r) k && ltb e k)
    dropped t w h q k = ground (arith, w.exact k)

    split :
        Dec (e < a)
        → Dec (b ≤ e + 1)
        → Above r e (remove_until_loop e (with_set r room) (up_to r e)).set
        → Above
            ((a, b) ∷ r)
            e
            (remove_until_loop e (with_set ((a, b) ∷ r) room) (up_to ((a, b) ∷ r) e)).set
    split (yes h) q ih = rw (loop_stays h) record {
      sorted = (omega arith, v.1, v.2);
      exact = λ k. ground (arith, covers-below (b + 1) r k v.2);
    }
    split (no h) (yes q) ih =
        rw (loop_drops a b r room e (omega arith) q p)
          record { sorted = ih.sorted; exact = dropped _ ih q ih.sorted }
    split (no h) (no q) ih =
        let w : Added room r (insert (with_set r room) (e + 1) b).set (e + 1) b =
          insert-Added (with_set r room) (e + 1) b
            (IsSorted-weaken (b + 1) 0 r (omega arith) v.2) in
        rw (loop_trims a b r room e v.2 (omega arith) (omega arith) p) record {
          sorted = w.sorted;
          exact = λ k. ground (arith, w.exact k (omega arith), covers-below (b + 1) r k v.2);
        }

-- For a valid set within its capacity and `e` below the largest u64, `remove_until` keeps the order
-- and leaves exactly the values above `e`.
pub remove_until-Above :
    (s : RangeSet) (e : ℕ)
    → IsValid s
    → length s.set ≤ s.capacity
    → e + 1 < 2 ^ 64
    → Above s.set e (remove_until s e).set
unfolding remove_until
remove_until-Above s e v n p = remove_until_loop-Above 0 s.set s.capacity e v n p
