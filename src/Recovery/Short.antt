-- ===== src/Recovery/Short.antt =====
-- The counts of src/connection/recovery.rs along the packets that an acknowledgement passes.
use tquic.Base.{ℕ, ◌+◌, ◌-◌, ◌≡◌, refl, ◌∙◌, arith, Bool, true, not, ◌&&◌, some}
use tquic.Base.{List, [], ◌∷◌, if◌then◌else◌}
use tquic.Recovery.{SentPacket, Flight, CongestionController, is_none, leave, spurious, tell_acked}
use tquic.Recovery.InFlight.{total, size, eliciting}

-- The packet is acknowledged, and was declared lost.
abbrev pub is_doubled : SentPacket → Bool
is_doubled p = p.in_flight && (not (is_none p.time_acked) && not (is_none p.time_lost))

unfoldable pub doubled_size : SentPacket → ℕ
doubled_size p = if is_doubled p then p.sent_size else 0

unfoldable pub doubled_eliciting : SentPacket → ℕ
doubled_eliciting p = if is_doubled p && p.ack_eliciting then 1 else 0

-- The counts are those of the packets `ps` and of others, less `k` and `m`.
pub record Short {C : Type 0} (a b c d k m : ℕ) (ps : List SentPacket) (f : Flight C) : Type 0 where
  pub space_bytes : f.space.bytes_in_flight ≡ (a + total size ps) - k
  pub space_eliciting : f.space.ack_eliciting_in_flight ≡ (b + total eliciting ps) - m
  pub bytes : f.recovery.bytes_in_flight ≡ (c + total size ps) - k
  pub elicits : f.recovery.ack_eliciting_in_flight ≡ (d + total eliciting ps) - m

-- A loop along the packets `ps` has passed `front` and left `rest`.
pub record Went {C : Type 0} (a b c d k m : ℕ) (ps front rest : List SentPacket) (f : Flight C)
    : Type 0 where
  pub less : ℕ
  pub fewer : ℕ
  pub lessens :
      less + total doubled_size ps ≡ k + (total doubled_size front + total doubled_size rest)
  pub lowers :
      fewer + total doubled_eliciting ps
      ≡ m + (total doubled_eliciting front + total doubled_eliciting rest)
  pub short :
      Short
        (a + total size front)
        (b + total eliciting front)
        (c + total size front)
        (d + total eliciting front)
        less
        fewer
        rest
        f

abbrev pub done : ℕ → SentPacket → SentPacket
done now p = record p { time_acked = some now; frames = [] }

module _ {C : Type 0} (a b c d k m : ℕ) (p : SentPacket) (r : List SentPacket) where
  pub aside :
      (f : Flight C)
      → Short a b c d k m (p ∷ r) f
      → Short (a + size p) (b + eliciting p) (c + size p) (d + eliciting p) k m r f
  unfolding total
  aside f h = record {
    space_bytes = omega (arith, h.space_bytes);
    space_eliciting = omega (arith, h.space_eliciting);
    bytes = omega (arith, h.bytes);
    elicits = omega (arith, h.elicits);
  }

  -- A packet that is passed as it is.
  pub passed :
      (front rest : List SentPacket) (f : Flight C)
      → Went (a + size p) (b + eliciting p) (c + size p) (d + eliciting p) k m r front rest f
      → Went a b c d k m (p ∷ r) (p ∷ front) rest f
  unfolding total
  passed front rest f w = record {
    less = w.less;
    fewer = w.fewer;
    lessens = omega (arith, w.lessens);
    lowers = omega (arith, w.lowers);
    short = record {
      space_bytes = omega (arith, w.short.space_bytes);
      space_eliciting = omega (arith, w.short.space_eliciting);
      bytes = omega (arith, w.short.bytes);
      elicits = omega (arith, w.short.elicits);
    };
  }

  -- A packet that is acknowledged.
  module _ (now : ℕ) (new : is_none p.time_acked ≡ true) where
    pub leave-Short :
        (f : Flight C)
        → Short a b c d k m (p ∷ r) f
        → Short a b c d
            (k + doubled_size (done now p))
            (m + doubled_eliciting (done now p))
            r
            (leave p f)
    unfolding total size eliciting leave doubled_size doubled_eliciting
    leave-Short f h = record {
      space_bytes = ground (arith, new, h.space_bytes);
      space_eliciting = ground (arith, new, h.space_eliciting);
      bytes = ground (arith, new, h.bytes);
      elicits = ground (arith, new, h.elicits);
    }

    pub done-Went :
        (front rest : List SentPacket) (f : Flight C)
        → Went a b c d
            (k + doubled_size (done now p))
            (m + doubled_eliciting (done now p))
            r
            front
            rest
            f
        → Went a b c d k m (p ∷ r) (done now p ∷ front) rest f
    unfolding total size eliciting doubled_size doubled_eliciting
    done-Went front rest f w = record {
      less = w.less;
      fewer = w.fewer;
      lessens = ground (arith, new, w.lessens);
      lowers = ground (arith, new, w.lowers);
      short = record {
        space_bytes = ground (arith, w.short.space_bytes);
        space_eliciting = ground (arith, w.short.space_eliciting);
        bytes = ground (arith, w.short.bytes);
        elicits = ground (arith, w.short.elicits);
      };
    }

-- Two states with the same counts.
pub record Same {C : Type 0} (f g : Flight C) : Type 0 where
  pub space_bytes : g.space.bytes_in_flight ≡ f.space.bytes_in_flight
  pub space_eliciting : g.space.ack_eliciting_in_flight ≡ f.space.ack_eliciting_in_flight
  pub bytes : g.recovery.bytes_in_flight ≡ f.recovery.bytes_in_flight
  pub elicits : g.recovery.ack_eliciting_in_flight ≡ f.recovery.ack_eliciting_in_flight

pub Same-Short :
    {C : Type 0}
    → (a b c d k m : ℕ) (r : List SentPacket) (f g : Flight C) → Same f g
    → Short a b c d k m r f
    → Short a b c d k m r g
Same-Short a b c d k m r f g e h = record {
  space_bytes = e.space_bytes ∙ h.space_bytes;
  space_eliciting = e.space_eliciting ∙ h.space_eliciting;
  bytes = e.bytes ∙ h.bytes;
  elicits = e.elicits ∙ h.elicits;
}

pub tell_acked-Same :
    {C : Type 0}
    → (controller : CongestionController C) (now : ℕ) (p : SentPacket) (f : Flight C)
    → Same f (tell_acked controller now p f)
tell_acked-Same controller now p f = record {
  space_bytes = ground arith;
  space_eliciting = ground arith;
  bytes = ground arith;
  elicits = ground arith;
}

pub spurious-Same :
    {C : Type 0}
    → (p : SentPacket) (f : Flight C) → Same f (record f { recovery = spurious p f.recovery })
unfolding spurious
spurious-Same p f = record {
  space_bytes = refl;
  space_eliciting = refl;
  bytes = ground arith;
  elicits = ground arith;
}
