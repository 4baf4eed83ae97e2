-- ===== src/Recovery/InFlight.antt =====
-- The counts of what is in flight, of src/connection/recovery.rs, against the packets that are sent.
use tquic.Base.{ℕ, ◌+◌, ◌≡◌, refl, ap, sym, ◌∙◌, arith, Bool, true, false, ◌&&◌, none, some}
use tquic.Base.{List, [], ◌∷◌, ◌++◌, ltb, if◌then◌else◌, Bool-cases, inl, inr}
use tquic.Recovery.{
  SentPacket, Recovery, Flight, Losing, CongestionController, is_unacked, leave, declare_lost,
  keep_sent, is_late, lose, tell_lost, detect_lost_packets, drain_front, drain_sent_packets,
  discard_all, remove_from_bytes_in_flight, loss_delay,
}

-- The sum of a weight over the packets.
unfoldable pub total : (SentPacket → ℕ) → List SentPacket → ℕ
total w [] = 0
total w (p ∷ r) = w p + total w r

abbrev pub is_counted : SentPacket → Bool
is_counted p = p.in_flight && is_unacked p

-- The bytes of a packet in flight, and whether it asks for an acknowledgement.
unfoldable pub size : SentPacket → ℕ
size p = if is_counted p then p.sent_size else 0

unfoldable pub eliciting : SentPacket → ℕ
eliciting p = if is_counted p && p.ack_eliciting then 1 else 0

-- The counts are those of the packets `ps`, and of others.
pub record Ahead {C : Type 0} (a b c d : ℕ) (ps : List SentPacket) (f : Flight C) : Type 0 where
  pub space_bytes : f.space.bytes_in_flight ≡ a + total size ps
  pub space_eliciting : f.space.ack_eliciting_in_flight ≡ b + total eliciting ps
  pub bytes : f.recovery.bytes_in_flight ≡ c + total size ps
  pub elicits : f.recovery.ack_eliciting_in_flight ≡ d + total eliciting ps

-- The counts of the space are those of its packets; those of the path have `b` and `e` in other spaces.
abbrev pub IsCounted : {C : Type 0} → ℕ → ℕ → Flight C → Type 0
IsCounted b e f = Ahead 0 0 b e f.space.sent f

module _ {C : Type 0} (a b c d : ℕ) (p : SentPacket) (r : List SentPacket) where
  -- A packet that stays is counted among the others.
  aside :
      (f : Flight C)
      → Ahead a b c d (p ∷ r) f
      → Ahead (a + size p) (b + eliciting p) (c + size p) (d + eliciting p) r f
  unfolding total
  aside f h = record {
    space_bytes = omega (arith, h.space_bytes);
    space_eliciting = omega (arith, h.space_eliciting);
    bytes = omega (arith, h.bytes);
    elicits = omega (arith, h.elicits);
  }

  back :
      (f : Flight C)
      → Ahead (a + size p) (b + eliciting p) (c + size p) (d + eliciting p) r f
      → Ahead a b c d (p ∷ r) f
  unfolding total
  back f h = record {
    space_bytes = omega (arith, h.space_bytes);
    space_eliciting = omega (arith, h.space_eliciting);
    bytes = omega (arith, h.bytes);
    elicits = omega (arith, h.elicits);
  }

  -- A packet that is in flight leaves it.
  leave-Ahead :
      (f : Flight C) → is_unacked p ≡ true → Ahead a b c d (p ∷ r) f → Ahead a b c d r (leave p f)
  unfolding total size eliciting leave
  leave-Ahead f e h = record {
    space_bytes = ground (arith, e, h.space_bytes);
    space_eliciting = ground (arith, e, h.space_eliciting);
    bytes = ground (arith, e, h.bytes);
    elicits = ground (arith, e, h.elicits);
  }

-- A packet that is no longer in flight weighs nothing.
skip-Ahead :
    {C : Type 0}
    → (a b c d : ℕ) (p : SentPacket) (r : List SentPacket) (f : Flight C) → is_unacked p ≡ false
    → Ahead a b c d r f
    → Ahead a b c d (p ∷ r) f
unfolding total size eliciting
skip-Ahead a b c d p r f e h = record {
  space_bytes = ground (arith, e, h.space_bytes);
  space_eliciting = ground (arith, e, h.space_eliciting);
  bytes = ground (arith, e, h.bytes);
  elicits = ground (arith, e, h.elicits);
}

unskip-Ahead :
    {C : Type 0}
    → (a b c d : ℕ) (p : SentPacket) (r : List SentPacket) (f : Flight C) → is_unacked p ≡ false
    → Ahead a b c d (p ∷ r) f
    → Ahead a b c d r f
unfolding total size eliciting
unskip-Ahead a b c d p r f e h = record {
  space_bytes = ground (arith, e, h.space_bytes);
  space_eliciting = ground (arith, e, h.space_eliciting);
  bytes = ground (arith, e, h.bytes);
  elicits = ground (arith, e, h.elicits);
}

gone_unacked :
    (p : SentPacket) (now : ℕ) → is_unacked (record p { frames = []; time_lost = some now }) ≡ false
gone_unacked p now = ground arith

module _ {C : Type 0} (now delay thresh largest : ℕ) where
  lost-Ahead :
      (a b c d : ℕ) (p : SentPacket) (r : List SentPacket) (l : Losing C)
      → is_unacked p ≡ true
      → Ahead a b c d (p ∷ r) l.flight
      → Ahead a b c d r (declare_lost now p l).1.flight
  unfolding declare_lost
  lost-Ahead a b c d p r l e h =
      leave-Ahead a b c d p r
        (record l.flight {
          space = record l.flight.space { lost = l.flight.space.lost ++ p.frames };
        })
        e
        (record {
          space_bytes = h.space_bytes;
          space_eliciting = h.space_eliciting;
          bytes = h.bytes;
          elicits = h.elicits;
        })

  kept-Ahead :
      (a b c d : ℕ) (p : SentPacket) (r : List SentPacket) (l : Losing C)
      → Ahead a b c d (p ∷ r) l.flight
      → Ahead
          (a + size p)
          (b + eliciting p)
          (c + size p)
          (d + eliciting p)
          r
          (keep_sent delay p l).1.flight
  kept-Ahead a b c d p r l h =
      let k = aside a b c d p r l.flight h in
      record {
        space_bytes = k.space_bytes;
        space_eliciting = k.space_eliciting;
        bytes = k.bytes;
        elicits = k.elicits;
      }

  lose-Ahead :
      (a b c d : ℕ) (ps : List SentPacket) (l : Losing C)
      → Ahead a b c d ps l.flight
      → Ahead a b c d
          (lose now delay thresh largest ps l).0
          (lose now delay thresh largest ps l).1.flight
  unfolding lose
  lose-Ahead a b c d [] l h = h
  lose-Ahead a b c d (p ∷ r) l h = elim (Bool-cases (ltb largest p.pkt_num)) [
    | inl e ↦ rw e h
    | inr e ↦ rw e (elim (Bool-cases (is_unacked p)) [
      | inr f ↦ rw f (
          skip-Ahead a b c d p _ _ f
            (lose-Ahead a b c d r l (unskip-Ahead a b c d p r l.flight f h)))
      | inl f ↦ elim (Bool-cases (is_late now delay thresh largest p)) [
        | inl g ↦
            rw (f, g)
              (skip-Ahead a b c d (record p { frames = []; time_lost = some now }) _ _
                (gone_unacked p now)
                (lose-Ahead a b c d r (declare_lost now p l).1 (lost-Ahead a b c d p r l f h)))
        | inr g ↦
            rw (f, g)
              (back a b c d p _ _ (
                lose-Ahead (a + size p) (b + eliciting p) (c + size p) (d + eliciting p) r
                  (keep_sent delay p l).1 (kept-Ahead a b c d p r l h)))
      ]
    ])
  ]

tell_lost-counts :
    {C : Type 0}
    → (c : CongestionController C) (now : ℕ) (l : Losing C)
    → ((tell_lost c now l).bytes_in_flight ≡ l.flight.recovery.bytes_in_flight)
      × ((tell_lost c now l).ack_eliciting_in_flight ≡ l.flight.recovery.ack_eliciting_in_flight)
tell_lost-counts c now l = (ground arith, ground arith)

-- `detect_lost_packets` keeps the counts exact: what is declared lost leaves the flight, once.
pub detect_lost_packets-IsCounted :
    {C : Type 0}
    → (controller : CongestionController C) (mul : ℕ → ℕ) (b e : ℕ) (f : Flight C) (now : ℕ)
    → IsCounted b e f
    → IsCounted b e (detect_lost_packets controller mul f now).1
unfolding detect_lost_packets
detect_lost_packets-IsCounted controller mul b e f now h =
    let begin : Losing _ = record {
      flight = record f { space = record f.space { loss_time = none } };
      lost_packets = 0;
      lost_bytes = 0;
      latest_lost_packet = none;
    } in
    let delay = loss_delay controller mul f.recovery in
    let started : Ahead 0 0 b e f.space.sent begin.flight = record {
      space_bytes = h.space_bytes;
      space_eliciting = h.space_eliciting;
      bytes = h.bytes;
      elicits = h.elicits;
    } in
    let k =
      lose-Ahead now delay f.recovery.pkt_thresh f.space.largest_acked_pkt 0 0 b e f.space.sent
        begin started in
    let l = (lose now delay f.recovery.pkt_thresh f.space.largest_acked_pkt f.space.sent begin).1 in
    record {
      space_bytes = k.space_bytes;
      space_eliciting = k.space_eliciting;
      bytes = (tell_lost-counts controller now l).0 ∙ k.bytes;
      elicits = (tell_lost-counts controller now l).1 ∙ k.elicits;
    }

drain_front-total :
    (ps : List SentPacket) (now rtt : ℕ)
    → (total size (drain_front ps now rtt) ≡ total size ps)
      × (total eliciting (drain_front ps now rtt) ≡ total eliciting ps)
unfolding drain_front total size eliciting
drain_front-total [] now rtt = (refl, refl)
drain_front-total (p ∷ r) now rtt =
    let ih = drain_front-total r now rtt in (ground (arith, ih.0), ground (arith, ih.1))

-- `drain_sent_packets` keeps the counts exact: no packet that it drops is in flight.
pub drain_sent_packets-IsCounted :
    {C : Type 0}
    → (b e : ℕ) (f : Flight C) (now rtt : ℕ) → IsCounted b e f
    → IsCounted b e (record f { space = drain_sent_packets f.space now rtt })
unfolding drain_sent_packets
drain_sent_packets-IsCounted b e f now rtt h =
    let t = drain_front-total f.space.sent now rtt in
    record {
      space_bytes = h.space_bytes ∙ ap (λ n. 0 + n) (sym t.0);
      space_eliciting = h.space_eliciting ∙ ap (λ n. 0 + n) (sym t.1);
      bytes = h.bytes ∙ ap (λ n. b + n) (sym t.0);
      elicits = h.elicits ∙ ap (λ n. e + n) (sym t.1);
    }

discard_all-counts :
    {C : Type 0}
    → (b e : ℕ) (ps : List SentPacket) (r : Recovery C) → r.bytes_in_flight ≡ b + total size ps
    → r.ack_eliciting_in_flight ≡ e + total eliciting ps
    → ((discard_all ps r).bytes_in_flight ≡ b) × ((discard_all ps r).ack_eliciting_in_flight ≡ e)
unfolding discard_all total size eliciting
discard_all-counts b e [] r h k = (omega (arith, h), omega (arith, k))
discard_all-counts b e (p ∷ ps) r h k =
    discard_all-counts b e ps _ (ground (arith, h)) (ground (arith, k))

-- Where the counts are exact, a space that is discarded leaves the counts of the other spaces.
pub remove_from_bytes_in_flight-IsCounted :
    {C : Type 0}
    → (b e : ℕ) (f : Flight C) → IsCounted b e f
    → ((remove_from_bytes_in_flight f.recovery f.space).bytes_in_flight ≡ b)
      × ((remove_from_bytes_in_flight f.recovery f.space).ack_eliciting_in_flight ≡ e)
unfolding remove_from_bytes_in_flight
remove_from_bytes_in_flight-IsCounted b e f h =
    discard_all-counts b e f.space.sent f.recovery h.bytes h.elicits
