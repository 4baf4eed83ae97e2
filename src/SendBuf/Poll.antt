-- ===== src/SendBuf/Poll.antt =====
-- `poll_transmit` of src/connection/stream/send_buf.rs: what is left to send, and what is taken.
use tquic.Base.{
  ℕ, ◌+◌, ◌≤◌, ◌<◌, ◌^◌, ◌≡◌, refl, true, false, ◌&&◌, ◌||◌, arith, [], ◌∷◌, length, min,
}
use tquic.Base.{Bool, saturating_add64, sym, ◌-◌, if◌then◌else◌, ◌==◌}
use tquic.Ranges.{RangeSet, insert, pop_min, peek_min}
use tquic.Ranges.Map.{Entries, bt_remove}
use tquic.Ranges.Order.{IsSorted, inside, covers, covers-below, IsSorted-weaken}
use tquic.Ranges.Insert.{IsValid, insert-Added, insert-capacity}
use mathlib.Core.Path.{subst}
use tquic.Ranges as R
use native.Mathlib.Decide.{dec_lt}
use tquic.SendBuf.{SendBuf, send_off, poll_transmit, poll_by, poll_lost, poll_new}

-- The offsets left to send: the lost ones, and those never sent.
abbrev pub pending : SendBuf → ℕ → Bool
pending s k = covers s.retransmits.set k || inside s.unsent_off s.write_off k

-- Only what was sent can be lost, and what was sent was written.
pub record IsSound (s : SendBuf) : Type 0 where
  pub lost : IsValid s.retransmits
  pub room : length s.retransmits.set ≤ s.retransmits.capacity
  pub below : (k : ℕ) → covers s.retransmits.set k ≡ true → k < s.unsent_off
  pub sent : s.unsent_off ≤ s.write_off
  pub small : s.write_off < 2 ^ 64

-- What `poll_transmit` promises of the range `[x, y)` that it takes.
pub record Polled (s t : SendBuf) (x y max_len : ℕ) : Type 0 where
  pub sound : IsSound t
  pub lowest : x ≡ send_off s
  pub bounded : y ≤ x + max_len
  pub moves : 0 < max_len → x < s.write_off → x < y
  pub taken : (k : ℕ) → pending s k ≡ (inside x y k || pending t k)
  pub once : (k : ℕ) → (inside x y k && pending t k) ≡ false

new-Polled :
    (s : SendBuf) (n : ℕ)
    → IsSound s
    → s.retransmits.set ≡ []
    → Polled s (poll_new s n).1 s.unsent_off (min s.write_off (saturating_add64 s.unsent_off n)) n
unfolding poll_new
new-Polled s n v e =
    let none_lost : (k : ℕ) → covers s.retransmits.set k ≡ false =
      λ k. rw e (unfold covers in refl) in
    let first : send_off s ≡ s.unsent_off = unfold R.min in rw e refl in
    record {
      sound = record {
        lost = v.lost;
        room = v.room;
        below = λ k h. ground (arith, none_lost k);
        sent = omega arith;
        small = v.small;
      };
      lowest = sym first;
      bounded = omega arith;
      moves = λ p q. omega (arith, v.small);
      taken = λ k. ground (arith, none_lost k, v.sent);
      once = λ k. ground (arith, none_lost k);
    }

-- With the first lost range `[a, b)` taken out, `[e, b)` of it goes back.
module _ (s : SendBuf) (n a b : ℕ) (r : Entries) (v : IsSound s)
    (q : s.retransmits.set ≡ (a, b) ∷ r) where
  abbrev others : RangeSet
  others = record s.retransmits { set = r }

  abbrev cut : ℕ
  cut = min b (saturating_add64 a n)

  sorted : (a < b) × IsSorted (b + 1) r
  sorted = let w : IsSorted 0 ((a, b) ∷ r) = subst (λ t. IsSorted 0 t) q v.lost in (w.1, w.2)

  parts : (k : ℕ) → covers s.retransmits.set k ≡ (inside a b k || covers r k)
  parts k = rw q (unfold covers in refl)

  sized : length s.retransmits.set ≡ length r + 1
  sized = rw q (omega arith)

  first : send_off s ≡ a
  first = unfold R.min in rw q refl

  b-le : b ≤ s.unsent_off
  b-le = omega (arith, v.below (b - 1) (ground (arith, parts (b - 1), sorted)), sorted)

  past : (k : ℕ) → covers r k ≡ true → b < k
  past k h = ground (arith, covers-below (b + 1) r k sorted.1)

  -- What is kept for later.
  Kept : RangeSet → Type 0
  Kept t =
      IsValid t
      × (length t.set ≤ t.capacity)
      × ((k : ℕ) → covers t.set k ≡ (inside cut b k || covers r k))

  polled : (t : RangeSet) → Kept t → Polled s (record s { retransmits = t }) a cut n
  unfolding Kept
  polled t (tv, tr, tc) = record {
    sound = record {
      lost = tv;
      room = tr;
      below = λ k h. ground (arith, tc k, b-le, parts k, v.below k);
      sent = v.sent;
      small = v.small;
    };
    lowest = sym first;
    bounded = omega arith;
    moves = λ p w. omega (arith, sorted, v.small);
    taken = λ k. ground (arith, tc k, parts k, sorted, b-le);
    once = λ k. ground (arith, tc k, past k, b-le);
  }

  lost-Kept : Kept (if cut == b then others else insert others cut b)
  unfolding Kept
  lost-Kept = elim (dec_lt cut b) [
    | yes h ↦
        let w = insert-Added others cut b (IsSorted-weaken (b + 1) 0 r (omega arith) sorted.1) in
        ground (arith, w.sorted, w.exact, w.grows, insert-capacity others cut b, sized, v.room)
    | no h ↦ ground (arith, sorted, sized, v.room, IsSorted-weaken (b + 1) 0 r)
  ]

polls_new : (s : SendBuf) (n : ℕ) → s.retransmits.set ≡ [] → poll_transmit s n ≡ poll_new s n
unfolding poll_transmit pop_min peek_min poll_by
polls_new s n e = rw e refl

polls_lost :
    (s : SendBuf) (n a b : ℕ) (r : Entries)
    → s.retransmits.set ≡ (a, b) ∷ r
    → poll_transmit s n ≡ poll_lost s (record s.retransmits { set = r }) a b n
unfolding poll_transmit pop_min peek_min poll_by bt_remove
polls_lost s n a b r e = let same : (a == a) ≡ true = ground arith in rw (e, same) refl

-- In a sound state the range that `poll_transmit` takes begins at `send_off`, is no longer than
-- `max_len`, and is not empty when there is room and something is left below `write_off`; what was
-- left to send is the range and what is left afterwards, and the two have nothing in common.
pub poll_transmit-Polled :
    (s : SendBuf) (max_len : ℕ)
    → IsSound s
    → let (r, t) = poll_transmit s max_len in Polled s t r.0 r.1 max_len
poll_transmit-Polled s max_len v = by_set s.retransmits.set refl
  where
    by_set :
        (set : Entries)
        → s.retransmits.set ≡ set
        → let (r, t) = poll_transmit s max_len in Polled s t r.0 r.1 max_len
    by_set [] e = rw (polls_new s max_len e) (unfold poll_new in new-Polled s max_len v e)
    by_set ((a, b) ∷ r) e =
        rw (polls_lost s max_len a b r e)
          (unfold poll_lost in polled s max_len a b r v e _ (lost-Kept s max_len a b r v e))
