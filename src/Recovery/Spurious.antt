-- ===== src/Recovery/Spurious.antt =====
-- A late acknowledgement of a lost packet, in src/connection/recovery.rs.
use tquic.Base.{ℕ, ◌+◌, ◌-◌, ◌<◌, ◌≡◌, refl, ap, ◌∙◌, arith, true, false, not, ◌||◌, none, some}
use tquic.Base.{List, [], ◌∷◌, ◌++◌, ltb, leb, Bool-cases, inl, inr}
use tquic.Recovery.{
  SentPacket, Flight, Acking, AckedPacket, CongestionController, is_none, declare_acked, ack_range,
  ack_ranges, detect_acked_packets,
}
use tquic.Recovery.InFlight.{total, size, IsCounted}
use tquic.Recovery.Short.{doubled_size, Short, done}
use tquic.Recovery.Acked.{acked-Short}

-- The numbers are above `n`.
abbrev pub IsAbove : ℕ → List SentPacket → Type 0
IsAbove n [] = Unit {0}
IsAbove n (q ∷ r) = (n < q.pkt_num) × IsAbove n r

-- No packet is in the range.
idle :
    {C : Type 0}
    → (controller : CongestionController C) (now n : ℕ) (r : List SentPacket) (x : Acking C)
    → IsAbove n r
    → let run = ack_range controller now n (n + 1) r x in (run.0 ++ run.1 ≡ r) × (run.2 ≡ x)
unfolding ack_range
idle controller now n [] x h = (refl, refl)
idle controller now n (q ∷ r) x h =
    let ih = idle controller now n r x h.1 in
    elim (Bool-cases (ltb q.pkt_num n || not (is_none q.time_acked))) [
      | inl e ↦ rw e (ap (λ l. q ∷ l) ih.0, ih.1)
      | inr e ↦ let f : leb (n + 1) q.pkt_num ≡ true = ground (arith, h.0) in rw (e, f) (refl, refl)
    ]

module _ {C : Type 0} (controller : CongestionController C) (now : ℕ) (p : SentPacket)
    (r : List SentPacket) (above : IsAbove p.pkt_num r) (new : is_none p.time_acked ≡ true)
    (x : Acking C) where
  abbrev alone : List SentPacket × List SentPacket × Acking C
  alone = ack_range controller now p.pkt_num (p.pkt_num + 1) (p ∷ r) x

  abbrev behind : List SentPacket × List SentPacket × Acking C
  behind = ack_range controller now p.pkt_num (p.pkt_num + 1) r (declare_acked controller now p x).1

  first_acked : alone ≡ (done now p ∷ behind.0, behind.1, behind.2)
  unfolding ack_range declare_acked
  first_acked =
      let e : (ltb p.pkt_num p.pkt_num || not (is_none p.time_acked)) ≡ false =
        ground (arith, new) in
      let f : leb (p.pkt_num + 1) p.pkt_num ≡ false = ground arith in rw (e, f) refl

  alone-sent : alone.0 ++ alone.1 ≡ done now p ∷ r
  alone-sent =
      ap (λ q. q.0 ++ q.1) first_acked
      ∙ ap (λ l. done now p ∷ l)
          (idle controller now p.pkt_num r (declare_acked controller now p x).1 above).0

  alone-state : alone.2 ≡ (declare_acked controller now p x).1
  alone-state =
      ap (λ q. q.2) first_acked
      ∙ (idle controller now p.pkt_num r (declare_acked controller now p x).1 above).1

  alone-counts :
      (b e : ℕ)
      → (p.in_flight ≡ true) × (is_none p.time_lost ≡ false)
      → Short 0 0 b e 0 0 (p ∷ r) x.flight
      → (total size (alone.0 ++ alone.1) ≡ total size r)
        × (alone.2.flight.space.bytes_in_flight ≡ total size r - p.sent_size)
        × (alone.2.flight.recovery.bytes_in_flight ≡ (b + total size r) - p.sent_size)
  unfolding total size doubled_size
  alone-counts b e g h =
      let told = acked-Short controller now 0 0 b e 0 0 p r x new h in
      (
        ap (λ l. total size l) alone-sent ∙ ground (arith, new),
        ap (λ y. y.flight.space.bytes_in_flight) alone-state ∙ ground (arith, told.space_bytes, g),
        ap (λ y. y.flight.recovery.bytes_in_flight) alone-state ∙ ground (arith, told.bytes, g),
      )

-- The state with these packets.
abbrev pub keeping : {C : Type 0} → Flight C → List SentPacket → Flight C
keeping f ps = record f { space = record f.space { sent = ps } }

-- The first packet that is kept was declared lost, and its bytes were taken off then. When an ACK with
-- its number alone comes after all, and the other numbers are above it, its size is taken off a second
-- time: what is counted as in flight falls below what is, by that size, wherever there is as much.
pub detect_acked_packets-twice :
    {C : Type 0}
    → (controller : CongestionController C) (b e : ℕ) (f : Flight C) (p : SentPacket)
      (r : List SentPacket)
    → (acks : List AckedPacket) (now t : ℕ) → IsCounted b e (keeping f (p ∷ r))
    → IsAbove p.pkt_num r
    → (p.in_flight ≡ true) × (p.time_lost ≡ some t) × (p.time_acked ≡ none)
    → let o =
        (detect_acked_packets controller
          ((p.pkt_num, p.pkt_num + 1) ∷ [])
          (keeping f (p ∷ r))
          acks
          now).2 in
      (total size o.space.sent ≡ total size r)
      × (o.space.bytes_in_flight ≡ total size r - p.sent_size)
      × (o.recovery.bytes_in_flight ≡ (b + total size r) - p.sent_size)
unfolding detect_acked_packets ack_ranges
detect_acked_packets-twice controller b e f p r acks now t h above g =
    let begin : Acking _ = record {
      flight = keeping f (p ∷ r);
      newly_acked = acks;
      largest_newly_acked_pkt_num = 0;
      largest_newly_acked_sent_time = now;
      newly_ack_eliciting_pkt_acked = false;
    } in
    let started : Short 0 0 b e 0 0 (p ∷ r) (keeping f (p ∷ r)) = record {
      space_bytes = (omega (arith, h.space_bytes));
      space_eliciting = (omega (arith, h.space_eliciting));
      bytes = (omega (arith, h.bytes));
      elicits = (omega (arith, h.elicits));
    } in
    (alone-counts controller now p r above (rw (g.2) refl) begin b e (g.0, rw g.1 refl) started)
