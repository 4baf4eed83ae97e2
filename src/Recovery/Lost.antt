-- ===== src/Recovery/Lost.antt =====
-- Which packets `detect_lost_packets` of src/connection/recovery.rs declares lost.
use tquic.Base.{
  ℕ, ◌+◌, ◌≤◌, ◌≡◌, refl, ap, sym, ◌∙◌, arith, Bool, true, false, not, ◌&&◌, ◌||◌, Option, none,
  some,
}
use tquic.Base.{
  List, [], ◌∷◌, ◌++◌, length, leb, min, max, add64, ltb, if◌then◌else◌, Bool-cases, inl, inr,
}
use tquic.Frame.{Frame}
use tquic.Recovery.{
  SentPacket, Flight, Losing, CongestionController, is_unacked, leave, declare_lost, keep_sent,
  is_late, lose, detect_lost_packets, loss_delay, earlier,
}
use tquic.Rtt.{RttEstimator, smoothed_rtt}
use mathlib.Core.List.{append_assoc, append-nil}
use tquic.Recovery.Spurious.{IsAbove}

-- The numbers ascend, as they are sent.
abbrev pub IsAscending : List SentPacket → Type 0
IsAscending [] = Unit {0}
IsAscending (q ∷ r) = IsAbove q.pkt_num r × IsAscending r

unfoldable pub those : (SentPacket → Bool) → List SentPacket → List SentPacket
those t [] = []
those t (p ∷ r) = let rest = those t r in if t p then p ∷ rest else rest

-- The frames of the packets, in order.
unfoldable pub frames_of : List SentPacket → List Frame
frames_of [] = []
frames_of (p ∷ r) = p.frames ++ frames_of r

-- The bytes of those that are in flight.
unfoldable pub bytes_of : List SentPacket → ℕ
bytes_of [] = 0
bytes_of (p ∷ r) = (if p.in_flight then p.sent_size else 0) + bytes_of r

-- The earliest time, where there is one.
unfoldable pub earliest : Option ℕ → ℕ → List SentPacket → Option ℕ
earliest t delay [] = t
earliest t delay (p ∷ r) = earliest (earlier t (p.time_sent + delay)) delay r

-- The lower of two times that may be missing.
abbrev pub sooner : Option ℕ → Option ℕ → Option ℕ
sooner none t = t
sooner (some s) none = some s
sooner (some s) (some t) = some (min s t)

-- The earliest time at which one of the packets is late.
unfoldable pub soonest : ℕ → List SentPacket → Option ℕ
soonest delay [] = none
soonest delay (p ∷ r) = sooner (some (p.time_sent + delay)) (soonest delay r)

sooner-earlier : (t o : Option ℕ) (x : ℕ) → sooner (earlier t x) o ≡ sooner t (sooner (some x) o)
sooner-earlier none o x = refl
sooner-earlier (some s) none x = refl
sooner-earlier (some s) (some y) x = ap some (omega arith)

earliest-soonest :
    (t : Option ℕ) (delay : ℕ) (ps : List SentPacket)
    → earliest t delay ps ≡ sooner t (soonest delay ps)
unfolding earliest soonest
earliest-soonest none delay [] = refl
earliest-soonest (some s) delay [] = refl
earliest-soonest t delay (p ∷ r) =
    earliest-soonest (earlier t (p.time_sent + delay)) delay r
    ∙ sooner-earlier t (soonest delay r) (p.time_sent + delay)

-- The larger of the latest and the smoothed round-trip time, at the threshold `mul`, 1 ms at least.
abbrev or_latest : Option ℕ → ℕ → ℕ
or_latest none latest = latest
or_latest (some x) latest = x

abbrev pub time_limit : (ℕ → ℕ) → RttEstimator → ℕ
time_limit mul rtt =
    max (mul (max rtt.latest_rtt (or_latest rtt.smoothed rtt.latest_rtt))) 1_000_000

-- A packet that is neither acknowledged nor lost, up to the largest acknowledged number.
abbrev pub is_open : ℕ → SentPacket → Bool
is_open largest p = not (ltb largest p.pkt_num) && is_unacked p

-- Sent `delay` ago, or `thresh` numbers before the largest acknowledged one.
abbrev pub is_old : ℕ → ℕ → ℕ → ℕ → SentPacket → Bool
is_old now delay thresh largest p =
    leb (p.time_sent + delay) now || leb (add64 p.pkt_num thresh) largest

abbrev pub falls : ℕ → ℕ → ℕ → ℕ → SentPacket → Bool
falls now delay thresh largest p = is_open largest p && is_old now delay thresh largest p

abbrev pub waits : ℕ → ℕ → ℕ → ℕ → SentPacket → Bool
waits now delay thresh largest p = is_open largest p && not (is_old now delay thresh largest p)

unfoldable pub mark : ℕ → ℕ → ℕ → ℕ → SentPacket → SentPacket
mark now delay thresh largest p =
    if falls now delay thresh largest p then record p { frames = []; time_lost = some now } else p

unfoldable pub marked : ℕ → ℕ → ℕ → ℕ → List SentPacket → List SentPacket
marked now delay thresh largest [] = []
marked now delay thresh largest (p ∷ r) =
    mark now delay thresh largest p ∷ marked now delay thresh largest r

those-yes :
    (t : SentPacket → Bool) (p : SentPacket) (r : List SentPacket)
    → t p ≡ true
    → those t (p ∷ r) ≡ p ∷ those t r
unfolding those
those-yes t p r e = rw e refl

those-no :
    (t : SentPacket → Bool) (p : SentPacket) (r : List SentPacket)
    → t p ≡ false
    → those t (p ∷ r) ≡ those t r
unfolding those
those-no t p r e = rw e refl

abbrev pub fallen : ℕ → ℕ → ℕ → ℕ → List SentPacket → List SentPacket
fallen now delay thresh largest ps = those (falls now delay thresh largest) ps

abbrev pub waiting : ℕ → ℕ → ℕ → ℕ → List SentPacket → List SentPacket
waiting now delay thresh largest ps = those (waits now delay thresh largest) ps

leave-kept :
    {C : Type 0}
    → (p : SentPacket) (f : Flight C)
    → ((leave p f).space.lost ≡ f.space.lost) × ((leave p f).space.loss_time ≡ f.space.loss_time)
unfolding leave
leave-kept p f = elim (Bool-cases p.in_flight) [
  | inl e ↦ rw e (refl, refl)
  | inr e ↦ rw e (refl, refl)
]

IsAbove-le : (n k : ℕ) (r : List SentPacket) → n ≤ k → IsAbove k r → IsAbove n r
IsAbove-le n k [] le h = tt
IsAbove-le n k (q ∷ r) le h = (omega (arith, le, h.0), IsAbove-le n k r le h.1)

module _ {C : Type 0} (now delay thresh largest : ℕ) where
  -- What the loop does, along the packets `ps`.
  record Fell (ps : List SentPacket) (l : Losing C) (out : List SentPacket) (m : Losing C)
      : Type 0 where
    sent : out ≡ marked now delay thresh largest ps
    lost :
        m.flight.space.lost ≡ l.flight.space.lost ++ frames_of (fallen now delay thresh largest ps)
    count : m.lost_packets ≡ l.lost_packets + length (fallen now delay thresh largest ps)
    bytes : m.lost_bytes ≡ l.lost_bytes + bytes_of (fallen now delay thresh largest ps)
    time :
        m.flight.space.loss_time
        ≡ earliest l.flight.space.loss_time delay (waiting now delay thresh largest ps)

  -- A packet that is passed as it is.
  pass :
      (p : SentPacket) (r : List SentPacket) (l : Losing C) (out : List SentPacket) (m : Losing C)
      → is_open largest p ≡ false
      → Fell r l out m
      → Fell (p ∷ r) l (p ∷ out) m
  unfolding marked mark
  pass p r l out m e h =
      let f : falls now delay thresh largest p ≡ false = ground (arith, e) in
      let w : waits now delay thresh largest p ≡ false = ground (arith, e) in
      record {
        sent = rw f (ap (λ x. p ∷ x) h.sent);
        lost = rw (those-no _ p r f) h.lost;
        count = rw (those-no _ p r f) h.count;
        bytes = rw (those-no _ p r f) h.bytes;
        time = rw (those-no _ p r w) h.time;
      }

  fall :
      (p : SentPacket) (r : List SentPacket) (l : Losing C) (out : List SentPacket) (m : Losing C)
      → falls now delay thresh largest p ≡ true
      → Fell r (declare_lost now p l).1 out m
      → Fell (p ∷ r) l (record p { frames = []; time_lost = some now } ∷ out) m
  unfolding marked mark declare_lost leave frames_of bytes_of
  fall p r l out m f h =
      let w : waits now delay thresh largest p ≡ false = ground (arith, f) in
      let kept = leave-kept p (record l.flight {
        space = record l.flight.space { lost = l.flight.space.lost ++ p.frames };
      }) in
      record {
        sent = rw f (ap (λ x. record p { frames = []; time_lost = some now } ∷ x) h.sent);
        lost = rw (those-yes _ p r f) (
            h.lost
            ∙ ap (λ x. x ++ frames_of (fallen now delay thresh largest r)) kept.0
            ∙ append_assoc l.flight.space.lost p.frames _);
        count = rw (those-yes _ p r f) (h.count ∙ omega arith);
        bytes = rw (those-yes _ p r f) (h.bytes ∙ ground arith);
        time =
            rw (those-no _ p r w)
              (h.time ∙ ap (λ x. earliest x delay (waiting now delay thresh largest r)) kept.1);
      }

  wait :
      (p : SentPacket) (r : List SentPacket) (l : Losing C) (out : List SentPacket) (m : Losing C)
      → waits now delay thresh largest p ≡ true
      → Fell r (keep_sent delay p l).1 out m
      → Fell (p ∷ r) l (p ∷ out) m
  unfolding marked mark earliest
  wait p r l out m w h =
      let f : falls now delay thresh largest p ≡ false = ground (arith, w) in
      record {
        sent = rw f (ap (λ x. p ∷ x) h.sent);
        lost = rw (those-no _ p r f) h.lost;
        count = rw (those-no _ p r f) h.count;
        bytes = rw (those-no _ p r f) h.bytes;
        time = rw (those-yes _ p r w) h.time;
      }

  -- Nothing falls above the largest acknowledged number.
  beyond : (ps : List SentPacket) (l : Losing C) → IsAbove largest ps → Fell ps l ps l
  unfolding those frames_of bytes_of earliest marked
  beyond [] l h = record {
    sent = refl;
    lost = sym (append-nil l.flight.space.lost);
    count = omega arith;
    bytes = omega arith;
    time = refl;
  }
  beyond (p ∷ r) l h = pass p r l r l (ground (arith, h.0)) (beyond r l h.1)

  lose-Fell :
      (ps : List SentPacket) (l : Losing C)
      → IsAscending ps
      → Fell ps l (lose now delay thresh largest ps l).0 (lose now delay thresh largest ps l).1
  unfolding lose declare_lost
  lose-Fell [] l h = beyond [] l tt
  lose-Fell (p ∷ r) l h = elim (Bool-cases (ltb largest p.pkt_num)) [
    | inl e ↦ rw e (
        beyond (p ∷ r) l
          (ground (arith, e), IsAbove-le largest p.pkt_num r (ground (arith, e)) h.0))
    | inr e ↦ elim (Bool-cases (is_unacked p)) [
      | inr f ↦ rw (e, f) (pass p r l _ _ (ground (arith, f)) (lose-Fell r l h.1))
      | inl f ↦ elim (Bool-cases (is_late now delay thresh largest p)) [
        | inl g ↦
            rw (e, f, g)
              (fall p r l _ _ (ground (arith, e, f, g)) (lose-Fell r (declare_lost now p l).1 h.1))
        | inr g ↦
            rw (e, f, g)
              (wait p r l _ _ (ground (arith, e, f, g)) (lose-Fell r (keep_sent delay p l).1 h.1))
      ]
    ]
  ]

-- What `detect_lost_packets` did, with the loss delay `delay`.
pub record Detected {C : Type 0} (delay now : ℕ) (f : Flight C) (out : (ℕ × ℕ) × Flight C)
    : Type 0 where
  pub sent :
      out.1.space.sent
      ≡ marked now delay f.recovery.pkt_thresh f.space.largest_acked_pkt f.space.sent
  pub lost :
      out.1.space.lost
      ≡ f.space.lost
        ++ frames_of (fallen now delay f.recovery.pkt_thresh f.space.largest_acked_pkt f.space.sent)
  pub count :
      out.0.0
      ≡ length (fallen now delay f.recovery.pkt_thresh f.space.largest_acked_pkt f.space.sent)
  pub bytes :
      out.0.1
      ≡ bytes_of (fallen now delay f.recovery.pkt_thresh f.space.largest_acked_pkt f.space.sent)
  pub time :
      out.1.space.loss_time
      ≡ soonest delay
          (waiting now delay f.recovery.pkt_thresh f.space.largest_acked_pkt f.space.sent)

-- Among packets whose numbers ascend, `detect_lost_packets` declares lost exactly those, in flight or
-- not, that are neither acknowledged nor lost, have a number up to the largest one acknowledged, and
-- were sent the loss delay ago or `pkt_thresh` numbers before it, where the loss delay is the larger of
-- the latest and the smoothed round-trip time, at the time threshold, and 1 ms at least. Their frames
-- are queued in order, their number and their bytes in flight are the result, and the loss time is the
-- earliest time at which one of the others up to that number is late; where there is none, there is no
-- loss time.
pub detect_lost_packets-Detected :
    {C : Type 0}
    → (controller : CongestionController C) (mul : ℕ → ℕ) (f : Flight C) (now : ℕ)
    → IsAscending f.space.sent
    → Detected (time_limit mul f.recovery.rtt) now f (detect_lost_packets controller mul f now)
unfolding detect_lost_packets smoothed_rtt
detect_lost_packets-Detected controller mul f now h =
    let begin : Losing _ = record {
      flight = record f { space = record f.space { loss_time = none } };
      lost_packets = 0;
      lost_bytes = 0;
      latest_lost_packet = none;
    } in
    let k =
      lose-Fell now (loss_delay controller mul f.recovery) f.recovery.pkt_thresh
        f.space.largest_acked_pkt f.space.sent begin h in
    record {
      sent = k.sent;
      lost = k.lost;
      count = omega (arith, k.count);
      bytes = omega (arith, k.bytes);
      time = k.time ∙ earliest-soonest none _ _;
    }
