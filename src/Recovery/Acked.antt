-- ===== src/Recovery/Acked.antt =====
-- What an acknowledgement does to the counts of what is in flight, in src/connection/recovery.rs.
use tquic.Base.{ℕ, ◌+◌, ◌-◌, ◌≡◌, arith, true, false, not, ◌||◌, some}
use tquic.Base.{List, [], ◌∷◌, ◌++◌, ltb, leb, Bool-cases, inl, inr}
use tquic.Recovery.{
  SentPacket, Flight, Acking, AckedPacket, CongestionController, is_none, leave, spurious,
  declare_acked, ack_range, ack_ranges, detect_acked_packets,
}
use tquic.Recovery.InFlight.{total, size, eliciting, IsCounted}
use tquic.Recovery.Short.{
  doubled_size, doubled_eliciting, Short, Went, done, aside, passed, leave-Short, done-Went,
  Same-Short, tell_acked-Same, spurious-Same,
}

total-append :
    (w : SentPacket → ℕ) (p q : List SentPacket) → total w (p ++ q) ≡ total w p + total w q
unfolding total
total-append w [] q = omega arith
total-append w (x ∷ p) q = omega (arith, total-append w p q)

module _ {C : Type 0} (controller : CongestionController C) (now : ℕ) where
  pub acked-Short :
      (a b c d k m : ℕ) (p : SentPacket) (r : List SentPacket) (x : Acking C)
      → is_none p.time_acked ≡ true
      → Short a b c d k m (p ∷ r) x.flight
      → Short a b c d
          (k + doubled_size (done now p))
          (m + doubled_eliciting (done now p))
          r
          (declare_acked controller now p x).1.flight
  unfolding declare_acked
  acked-Short a b c d k m p r x new h =
      let f = record x.flight { recovery = spurious p x.flight.recovery } in
      let started = Same-Short a b c d k m (p ∷ r) x.flight f (spurious-Same p x.flight) h in
      let left = leave-Short a b c d k m p r now new f started in
      let told =
        Same-Short a b c d _ _ r (leave p f) _
          (tell_acked-Same controller now (record p { time_acked = some now }) (leave p f)) left in
      record {
        space_bytes = told.space_bytes;
        space_eliciting = told.space_eliciting;
        bytes = told.bytes;
        elicits = told.elicits;
      }

  -- Nothing is passed.
  stays :
      (a b c d k m : ℕ) (ps : List SentPacket) (x : Flight C)
      → Short a b c d k m ps x
      → Went a b c d k m ps [] ps x
  unfolding total
  stays a b c d k m ps x h = record {
    less = k;
    fewer = m;
    lessens = omega arith;
    lowers = omega arith;
    short = record {
      space_bytes = omega (arith, h.space_bytes);
      space_eliciting = omega (arith, h.space_eliciting);
      bytes = omega (arith, h.bytes);
      elicits = omega (arith, h.elicits);
    };
  }

  ack_range-Went :
      (start end a b c d k m : ℕ) (ps : List SentPacket) (x : Acking C)
      → Short a b c d k m ps x.flight
      → let run = ack_range controller now start end ps x in
        Went a b c d k m ps run.0 run.1 run.2.flight
  unfolding ack_range
  ack_range-Went start end a b c d k m [] x h = stays a b c d k m [] x.flight h
  ack_range-Went start end a b c d k m (p ∷ r) x h =
      elim (Bool-cases (ltb p.pkt_num start || not (is_none p.time_acked))) [
        | inl e ↦ rw e (
            passed a b c d k m p r _ _ _ (
              ack_range-Went start end (a + size p) (b + eliciting p) (c + size p) (d + eliciting p)
                k m r x (aside a b c d k m p r x.flight h)))
        | inr e ↦ elim (Bool-cases (leb end p.pkt_num)) [
          | inl f ↦ rw (e, f) (stays a b c d k m (p ∷ r) x.flight h)
          | inr f ↦
              rw (e, f)
                (done-Went a b c d k m p r now (ground (arith, e)) _ _ _ (
                  ack_range-Went start end a b c d _ _ r _
                    (acked-Short a b c d k m p r x (ground (arith, e)) h)))
        ]
      ]

  -- All is passed as it is.
  whole :
      (a b c d k m : ℕ) (ps : List SentPacket) (x : Flight C)
      → Short a b c d k m ps x
      → Went a b c d k m ps ps [] x
  unfolding total
  whole a b c d k m ps x h = record {
    less = k;
    fewer = m;
    lessens = omega arith;
    lowers = omega arith;
    short = record {
      space_bytes = omega (arith, h.space_bytes);
      space_eliciting = omega (arith, h.space_eliciting);
      bytes = omega (arith, h.bytes);
      elicits = omega (arith, h.elicits);
    };
  }

  -- One loop behind another.
  joins :
      (a b c d k m : ℕ) (ps front rest more : List SentPacket) (x y : Flight C)
      (w : Went a b c d k m ps front rest x)
      → Went
          (a + total size front)
          (b + total eliciting front)
          (c + total size front)
          (d + total eliciting front)
          w.less
          w.fewer
          rest
          more
          []
          y
      → Went a b c d k m ps (front ++ more) [] y
  joins a b c d k m ps front rest more x y w v = record {
    less = v.less;
    fewer = v.fewer;
    lessens = omega (arith, w.lessens, v.lessens, total-append doubled_size front more);
    lowers = omega (arith, w.lowers, v.lowers, total-append doubled_eliciting front more);
    short = record {
      space_bytes = omega (arith, v.short.space_bytes, total-append size front more);
      space_eliciting = omega (arith, v.short.space_eliciting, total-append eliciting front more);
      bytes = omega (arith, v.short.bytes, total-append size front more);
      elicits = omega (arith, v.short.elicits, total-append eliciting front more);
    };
  }

  ack_ranges-Went :
      (ranges : List (ℕ × ℕ)) (a b c d k m : ℕ) (ps : List SentPacket) (x : Acking C)
      → Short a b c d k m ps x.flight
      → let run = ack_ranges controller now ranges ps x in Went a b c d k m ps run.0 [] run.1.flight
  unfolding ack_ranges
  ack_ranges-Went [] a b c d k m ps x h = whole a b c d k m ps x.flight h
  ack_ranges-Went ((start, end) ∷ rs) a b c d k m ps x h =
      let run = ack_range controller now start end ps x in
      let w = ack_range-Went start end a b c d k m ps x h in
      joins a b c d k m ps run.0 run.1 _ run.2.flight _ w
        (ack_ranges-Went rs _ _ _ _ w.less w.fewer run.1 run.2 w.short)

-- What an acknowledgement leaves of the counts: those of the packets that are still in flight, less the
-- bytes and the packets that were declared lost before and are acknowledged now.
pub record Settled {C : Type 0} (b e : ℕ) (before after : Flight C) : Type 0 where
  pub less : ℕ
  pub fewer : ℕ
  pub lessens : total doubled_size after.space.sent ≡ total doubled_size before.space.sent + less
  pub lowers :
      total doubled_eliciting after.space.sent ≡ total doubled_eliciting before.space.sent + fewer
  pub space_bytes : after.space.bytes_in_flight ≡ total size after.space.sent - less
  pub space_eliciting :
      after.space.ack_eliciting_in_flight ≡ total eliciting after.space.sent - fewer
  pub bytes : after.recovery.bytes_in_flight ≡ (b + total size after.space.sent) - less
  pub elicits :
      after.recovery.ack_eliciting_in_flight ≡ (e + total eliciting after.space.sent) - fewer

-- Where the counts are exact, after `detect_acked_packets` of any ranges they are those of the packets
-- still in flight, less what was declared lost before and is acknowledged now; so they stay exact as
-- long as no lost packet is acknowledged.
pub detect_acked_packets-Settled :
    {C : Type 0}
    → (controller : CongestionController C) (ranges : List (ℕ × ℕ)) (b e : ℕ) (f : Flight C)
    → (acks : List AckedPacket) (now : ℕ) → IsCounted b e f
    → Settled b e f (detect_acked_packets controller ranges f acks now).2
unfolding detect_acked_packets total
detect_acked_packets-Settled controller ranges b e f acks now h =
    let begin : Acking _ = record {
      flight = f;
      newly_acked = acks;
      largest_newly_acked_pkt_num = 0;
      largest_newly_acked_sent_time = now;
      newly_ack_eliciting_pkt_acked = false;
    } in
    let started : Short 0 0 b e 0 0 f.space.sent f = record {
      space_bytes = omega (arith, h.space_bytes);
      space_eliciting = omega (arith, h.space_eliciting);
      bytes = omega (arith, h.bytes);
      elicits = omega (arith, h.elicits);
    } in
    let w = ack_ranges-Went controller now ranges 0 0 b e 0 0 f.space.sent begin started in
    record {
      less = w.less;
      fewer = w.fewer;
      lessens = omega (arith, w.lessens);
      lowers = omega (arith, w.lowers);
      space_bytes = omega (arith, w.short.space_bytes);
      space_eliciting = omega (arith, w.short.space_eliciting);
      bytes = omega (arith, w.short.bytes);
      elicits = omega (arith, w.short.elicits);
    }
