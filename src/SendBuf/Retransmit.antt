-- ===== src/SendBuf/Retransmit.antt =====
-- `retransmit` of src/connection/stream/send_buf.rs: what the loss of a range queues.
use tquic.Base.{
  ℕ, ◌+◌, ◌≤◌, ◌<◌, ◌^◌, ◌≡◌, refl, true, false, ◌&&◌, ◌||◌, not, arith, [], ◌∷◌, length,
}
use tquic.Base.{◌∙◌, ◌==◌, if◌then◌else◌}
use native.Mathlib.Decide.{dec_le, dec_lt}
use tquic.Ranges.{RangeSet, insert}
use tquic.Ranges.Map.{Entries}
use tquic.Ranges.Order.{IsSorted, inside, covers, covers-below}
use tquic.Ranges.Insert.{IsValid, Added, insert-Added, insert-capacity}
use tquic.SendBuf.{SendBuf, retransmit, trim_acked, trim_step, ack_off, is_none, Flow, stop, go_on}

-- The lost ranges after the loss of `[start, end)`, less what is acknowledged.
-- What a round leads to.
abbrev resume : Entries → Flow → RangeSet
resume r (stop lost start end) = insert lost start end
resume r (go_on lost start end) = trim_acked r lost start end

record Requeued (acked : Entries) (lost lost' : RangeSet) (start end : ℕ) : Type 0 where
  sorted : IsValid lost'
  exact :
      (k : ℕ)
      → covers lost'.set k ≡ (covers lost.set k || (inside start end k && not (covers acked k)))
  same_capacity : lost'.capacity ≡ lost.capacity

insert-Requeued :
    (acked : Entries) (lost : RangeSet) (x y start end : ℕ)
    → IsValid lost
    → length lost.set < lost.capacity
    → ((k : ℕ) → inside x y k ≡ (inside start end k && not (covers acked k)))
    → Requeued acked lost (insert lost x y) start end
insert-Requeued acked lost x y start end v room same =
    let w = insert-Added lost x y v in
    record {
      sorted = w.sorted;
      exact = λ k. ground (arith, w.exact k room, same k);
      same_capacity = insert-capacity lost x y;
    }

-- A round on `[a, b)`, where `ih` is about the rounds that follow.
module _ (a b : ℕ) (r : Entries) (lost : RangeSet) (start end : ℕ)
    (va : (a < b) × IsSorted (b + 1) r) (vl : IsValid lost)
    (room : length lost.set + length r + 1 < lost.capacity)
    (ih : (lost' : RangeSet) (start' : ℕ)
      → IsValid lost'
      → length lost'.set + length r < lost'.capacity
      → Requeued r lost' (trim_acked r lost' start' end) start' end) where
  below : (k : ℕ) → k < b + 1 → covers r k ≡ false
  below k h = covers-below (b + 1) r k va.1 h

  abbrev whole : RangeSet
  whole = resume r (trim_step a b lost start end)

  abbrev After : RangeSet → Type 0
  After t = Requeued ((a, b) ∷ r) lost t start end

  -- The rounds that follow do the rest.
  later :
      (lost' : RangeSet) (start' : ℕ)
      → IsValid lost'
      → length lost'.set + length r < lost'.capacity
      → lost'.capacity ≡ lost.capacity
      → ((k : ℕ)
          → (covers lost'.set k || (inside start' end k && not (covers r k)))
            ≡ (covers lost.set k || (inside start end k && not (covers ((a, b) ∷ r) k))))
      → After (trim_acked r lost' start' end)
  later lost' start' v h e same =
      let w = ih lost' start' v h in
      record {
        sorted = w.sorted;
        exact = λ k. w.exact k ∙ same k;
        same_capacity = w.same_capacity ∙ e;
      }

  first : Added lost.capacity lost.set (insert lost start a).set start a
  first = insert-Added lost start a vl

  decided : (f : Flow) → trim_step a b lost start end ≡ f → After (resume r f) → After whole
  decided f e t = rw e t

  rounds : Dec (end ≤ a) → Dec (b ≤ start) → Dec (start < a) → Dec (end ≤ b) → After whole
  rounds (yes p) q u w = decided (stop lost start end) (unfold trim_step in ground arith) (
      insert-Requeued _ lost start end start end vl (omega arith)
        (λ k. unfold covers in ground (arith, below k)))
  rounds (no p) (yes q) u w =
      decided (go_on lost start end) (unfold trim_step in ground arith)
        (later lost start vl (omega arith) refl (λ k. unfold covers in ground arith))
  rounds (no p) (no q) (yes u) (yes w) =
      decided (stop lost start a) (unfold trim_step in ground arith) (
        insert-Requeued _ lost start a start end vl (omega arith)
          (λ k. unfold covers in ground (arith, below k)))
  rounds (no p) (no q) (yes u) (no w) =
      decided (go_on (insert lost start a) b end) (unfold trim_step in ground arith) (
        later (insert lost start a) b first.sorted
          (omega (arith, first.grows, insert-capacity lost start a)) (insert-capacity lost start a)
          (λ k. unfold covers in ground (arith, below k, first.exact k (omega arith))))
  rounds (no p) (no q) (no u) (yes w) =
      decided (stop lost start start) (unfold trim_step in ground arith) (
        insert-Requeued _ lost start start start end vl (omega arith)
          (λ k. unfold covers in ground (arith, below k)))
  rounds (no p) (no q) (no u) (no w) =
      decided (go_on lost b end) (unfold trim_step in ground arith)
        (later lost b vl (omega arith) refl (λ k. unfold covers in ground arith))

trim_acked-Requeued :
    (lo : ℕ) (acked : Entries) (lost : RangeSet) (start end : ℕ)
    → IsSorted lo acked
    → IsValid lost
    → length lost.set + length acked < lost.capacity
    → Requeued acked lost (trim_acked acked lost start end) start end
unfolding trim_acked
trim_acked-Requeued lo [] lost start end va vl room =
    insert-Requeued [] lost start end start end vl (omega arith)
      (λ k. unfold covers in ground arith)
trim_acked-Requeued lo ((a, b) ∷ r) lost start end va vl room =
    rounds a b r lost start end (va.1, va.2) vl (omega arith)
      (λ lost' start' v h. trim_acked-Requeued (b + 1) r lost' start' end va.2 v h) (dec_le end a)
      (dec_le b start) (dec_lt start a) (dec_le end b)

ack_off_entries :
    (acked : Entries) (k : ℕ)
    → k < (elim acked [ [] ↦ 0 | (a, b) ∷ r ↦ if a == 0 then b else 0 ])
    → covers acked k ≡ true
unfolding covers
ack_off_entries [] k h = absurd (omega arith)
ack_off_entries ((a, b) ∷ r) k h = ground arith

-- What lies below `ack_off` is acknowledged.
pub ack_off-covers : (s : SendBuf) (k : ℕ) → k < ack_off s → covers s.acked.set k ≡ true
unfolding ack_off covers
ack_off-covers s k h = ack_off_entries s.acked.set k h

-- For data that is queued, valid sets of ranges with room, and a range that does not wrap, the loss of
-- `[off, off + len)` leaves to be sent again what was to be sent again before and what of the range
-- is not acknowledged, and nothing else.
pub retransmit-covers :
    (s : SendBuf) (off len k : ℕ)
    → is_none s.chunks ≡ false
    → IsValid s.acked
    → IsValid s.retransmits
    → length s.retransmits.set + length s.acked.set < s.retransmits.capacity
    → off + len < 2 ^ 64
    → IsValid (retransmit s off len).retransmits
      × (covers (retransmit s off len).retransmits.set k ≡ (
          covers s.retransmits.set k || (inside off (off + len) k && not (covers s.acked.set k))))
unfolding retransmit
retransmit-covers s off len k q va vr room h =
    let w : Requeued s.acked.set s.retransmits _ off (off + len) =
      trim_acked-Requeued 0 s.acked.set s.retransmits off (off + len) va vr room in
    let low = ack_off-covers s k in ground (arith, q, h, w.sorted, w.exact k, low, vr)
