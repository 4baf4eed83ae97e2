-- ===== src/Recovery.antt =====
-- src/connection/recovery.rs and the records of src/connection/space.rs that it keeps: the detection of
-- acknowledged and of lost packets.
-- A time is in nanoseconds. Sizes of packets in flight sum up far below 2^64. What a controller keeps
-- in a packet (`rate_sample_state`) counts as a part of its own state.
pub mod InFlight
pub mod Short
pub mod Acked
pub mod Spurious
pub mod Lost
mod Runs
use tquic.Base.{ℕ, zero, suc, ◌+◌, ◌-◌, Bool, true, false, not, ◌&&◌, ◌||◌, Option, none, some}
use tquic.Base.{List, [], ◌∷◌, ◌++◌, length, drop, min, max, ltb, leb, ◌==◌, if◌then◌else◌, add64}
use tquic.Frame.{Frame}
use tquic.Rtt.{RttEstimator, smoothed_rtt, timer_granularity}

pub data SpaceId : Type 0 where
  initial : SpaceId
  handshake : SpaceId
  data_space : SpaceId
  data_ext : ℕ → SpaceId

-- The fields from `pkt_num` to `sent_size`.
pub record SentPacket : Type 0 where
  pub pkt_num : ℕ
  pub frames : List Frame
  pub time_sent : ℕ
  pub time_acked : Option ℕ
  pub time_lost : Option ℕ
  pub ack_eliciting : Bool
  pub in_flight : Bool
  pub has_data : Bool
  pub pmtu_probe : Bool
  pub pacing : Bool
  pub sent_size : ℕ

pub record AckedPacket : Type 0 where
  pub pkt_num : ℕ
  pub time_sent : ℕ
  pub rtt : ℕ

-- The fields that stand for what was sent, and the kind of the space.
pub record PacketNumSpace : Type 0 where
  pub id : SpaceId
  pub sent : List SentPacket
  pub lost : List Frame
  pub acked : List Frame
  pub time_of_last_sent_ack_eliciting_pkt : Option ℕ
  pub loss_time : Option ℕ
  pub largest_acked_pkt : ℕ
  pub loss_probes : ℕ
  pub bytes_in_flight : ℕ
  pub ack_eliciting_in_flight : ℕ

pub record PathStats : Type 0 where
  pub acked_count : ℕ
  pub acked_bytes : ℕ
  pub lost_count : ℕ
  pub lost_bytes : ℕ
  pub spurious_loss_count : ℕ

-- The calls of `CongestionController` of src/congestion_control that the detection makes.
pub record CongestionController (C : Type 0) : Type 0 where
  pub on_ack : C → SentPacket → ℕ → Bool → RttEstimator → ℕ → C
  pub on_congestion_event : C → ℕ → SentPacket → Bool → ℕ → ℕ → C

pub record Recovery (C : Type 0) : Type 0 where
  pub pkt_thresh : ℕ
  pub bytes_in_flight : ℕ
  pub ack_eliciting_in_flight : ℕ
  pub rtt : RttEstimator
  pub congestion : C
  pub stats : PathStats

abbrev pub is_none : Option ℕ → Bool
is_none none = true
is_none (some x) = false

abbrev pub is_early : SpaceId → Bool
is_early initial = true
is_early handshake = true
is_early data_space = false
is_early (data_ext n) = false

-- `u64::saturating_add`.
abbrev pub sat_add : ℕ → ℕ → ℕ
sat_add a b = min (a + b) 0xffff_ffff_ffff_ffff

-- Both counts of a packet that leaves the flight.
pub record Flight (C : Type 0) : Type 0 where
  pub space : PacketNumSpace
  pub recovery : Recovery C

unfoldable pub leave : {C : Type 0} → SentPacket → Flight C → Flight C
leave p f =
    let eliciting = if p.ack_eliciting then 1 else 0 in
    if p.in_flight
    then record {
      space = record f.space {
        bytes_in_flight = f.space.bytes_in_flight - p.sent_size;
        ack_eliciting_in_flight = f.space.ack_eliciting_in_flight - eliciting;
      };
      recovery = record f.recovery {
        bytes_in_flight = f.recovery.bytes_in_flight - p.sent_size;
        ack_eliciting_in_flight = f.recovery.ack_eliciting_in_flight - eliciting;
      };
    }
    else f

abbrev stat_lost : {C : Type 0} → Recovery C → ℕ → ℕ → Recovery C
stat_lost r pkts bytes = record r {
  stats = record r.stats {
    lost_count = sat_add r.stats.lost_count pkts;
    lost_bytes = sat_add r.stats.lost_bytes bytes;
  };
}

abbrev stat_acked : {C : Type 0} → Recovery C → ℕ → ℕ → Recovery C
stat_acked r pkts bytes = record r {
  stats = record r.stats {
    acked_count = sat_add r.stats.acked_count pkts;
    acked_bytes = sat_add r.stats.acked_bytes bytes;
  };
}

-- The state along the loop of `detect_lost_packets`.
pub record Losing (C : Type 0) : Type 0 where
  pub flight : Flight C
  pub lost_packets : ℕ
  pub lost_bytes : ℕ
  pub latest_lost_packet : Option SentPacket

abbrev pub is_unacked : SentPacket → Bool
is_unacked p = is_none p.time_acked && is_none p.time_lost

-- A packet is declared lost.
unfoldable pub declare_lost : {C : Type 0} → ℕ → SentPacket → Losing C → SentPacket × Losing C
unfolding leave
declare_lost now p l =
    let gone = record p { frames = []; time_lost = some now } in
    let f : Flight _ = record l.flight {
      space = record l.flight.space { lost = l.flight.space.lost ++ p.frames };
    } in
    (
      gone,
      record {
        flight = leave p f;
        lost_packets = l.lost_packets + 1;
        lost_bytes = if p.in_flight then l.lost_bytes + p.sent_size else l.lost_bytes;
        latest_lost_packet = if p.pmtu_probe then l.latest_lost_packet else some gone;
      },
    )

abbrev pub earlier : Option ℕ → ℕ → Option ℕ
earlier none t = some t
earlier (some s) t = some (min s t)

abbrev pub keep_sent : {C : Type 0} → ℕ → SentPacket → Losing C → SentPacket × Losing C
keep_sent loss_delay p l = (
  p,
  record l {
    flight = record l.flight {
      space = record l.flight.space {
        loss_time = earlier l.flight.space.loss_time (p.time_sent + loss_delay);
      };
    };
  },
)

-- A packet was sent long enough ago, or far enough before an acknowledged one. `now - loss_delay`,
-- which panics where it lies before the first time that the clock can tell, is on the other side.
abbrev pub is_late : ℕ → ℕ → ℕ → ℕ → SentPacket → Bool
is_late now loss_delay pkt_thresh largest p =
    leb (p.time_sent + loss_delay) now || leb (add64 p.pkt_num pkt_thresh) largest

-- The loop of `detect_lost_packets`.
unfoldable pub lose :
    {C : Type 0} → ℕ → ℕ → ℕ → ℕ → List SentPacket → Losing C → List SentPacket × Losing C
unfolding declare_lost
lose now loss_delay pkt_thresh largest [] l = ([], l)
lose now loss_delay pkt_thresh largest (p ∷ r) l =
    let next =
      if not (is_unacked p)
      then (p, l)
      else if is_late now loss_delay pkt_thresh largest p
      then declare_lost now p l
      else keep_sent loss_delay p l in
    let rest = lose now loss_delay pkt_thresh largest r next.1 in
    if ltb largest p.pkt_num then (p ∷ r, l) else (next.0 ∷ rest.0, rest.1)

-- The controller hears of the loss of a packet that is no probe of the path MTU.
abbrev pub tell_lost : {C : Type 0} → CongestionController C → ℕ → Losing C → Recovery C
tell_lost c now l = elim l.latest_lost_packet [
  | none ↦ l.flight.recovery
  | some p ↦ if is_early l.flight.space.id then l.flight.recovery else record l.flight.recovery {
    congestion =
        c.on_congestion_event l.flight.recovery.congestion now p false l.lost_bytes
          l.flight.recovery.bytes_in_flight;
  }
]

-- `mul_time_thresh` is the product of a duration with the field `time_thresh`, an f64.
module _ {C : Type 0} (controller : CongestionController C) (mul_time_thresh : ℕ → ℕ) where
  abbrev pub loss_delay : Recovery C → ℕ
  loss_delay r = max (mul_time_thresh (max r.rtt.latest_rtt (smoothed_rtt r.rtt))) timer_granularity

  unfoldable pub detect_lost_packets : Flight C → ℕ → (ℕ × ℕ) × Flight C
  unfolding lose
  detect_lost_packets f now =
      let begin : Losing C = record {
        flight = record f { space = record f.space { loss_time = none } };
        lost_packets = 0;
        lost_bytes = 0;
        latest_lost_packet = none;
      } in
      let run =
        lose now (loss_delay f.recovery) f.recovery.pkt_thresh f.space.largest_acked_pkt
          f.space.sent begin in
      let l = run.1 in
      (
        (l.lost_packets, l.lost_bytes),
        record {
          space = record l.flight.space { sent = run.0 };
          recovery = stat_lost (tell_lost controller now l) l.lost_packets l.lost_bytes;
        },
      )

-- The state along the loops of `detect_acked_packets`.
pub record Acking (C : Type 0) : Type 0 where
  pub flight : Flight C
  pub newly_acked : List AckedPacket
  pub largest_newly_acked_pkt_num : ℕ
  pub largest_newly_acked_sent_time : ℕ
  pub newly_ack_eliciting_pkt_acked : Bool

-- An acknowledged packet that was declared lost makes the threshold grow.
unfoldable pub spurious : {C : Type 0} → SentPacket → Recovery C → Recovery C
spurious p r = if is_none p.time_lost then r else record r {
  pkt_thresh = sat_add r.pkt_thresh 1;
  stats = record r.stats { spurious_loss_count = sat_add r.stats.spurious_loss_count 1 };
}

abbrev pub tell_acked : {C : Type 0} → CongestionController C → ℕ → SentPacket → Flight C → Flight C
tell_acked c now p f = if is_early f.space.id then f else record f {
  recovery = record f.recovery {
    congestion =
        c.on_ack f.recovery.congestion p now false f.recovery.rtt f.recovery.bytes_in_flight;
  };
}

-- A packet is acknowledged.
unfoldable pub declare_acked :
    {C : Type 0} → CongestionController C → ℕ → SentPacket → Acking C → SentPacket × Acking C
unfolding leave spurious
declare_acked c now p a =
    let done = record p { time_acked = some now } in
    let f = leave p (record a.flight { recovery = spurious p a.flight.recovery }) in
    let g = tell_acked c now done f in
    (
      record done { frames = [] },
      record {
        flight = record {
          space = record g.space { acked = g.space.acked ++ p.frames };
          recovery = stat_acked g.recovery 1 p.sent_size;
        };
        newly_acked =
            a.newly_acked
            ++ (record { pkt_num = p.pkt_num; time_sent = p.time_sent; rtt = now - p.time_sent }
                ∷ []);
        largest_newly_acked_pkt_num = p.pkt_num;
        largest_newly_acked_sent_time = p.time_sent;
        newly_ack_eliciting_pkt_acked = p.ack_eliciting || a.newly_ack_eliciting_pkt_acked;
      },
    )

-- The inner loop, along the packets from `idx` on: those passed, those left for the next range.
unfoldable pub ack_range :
    {C : Type 0}
    → CongestionController C
    → ℕ
    → ℕ
    → ℕ
    → List SentPacket
    → Acking C
    → List SentPacket × List SentPacket × Acking C
unfolding declare_acked
ack_range c now start end [] a = ([], [], a)
ack_range c now start end (p ∷ r) a =
    let skipped = ltb p.pkt_num start || not (is_none p.time_acked) in
    let next = if skipped then (p, a) else declare_acked c now p a in
    let rest = ack_range c now start end r next.1 in
    if not skipped && leb end p.pkt_num then ([], p ∷ r, a) else (next.0 ∷ rest.0, rest.1, rest.2)

-- The outer loop; where no packet is left, the inner one does nothing more.
unfoldable pub ack_ranges :
    {C : Type 0}
    → CongestionController C
    → ℕ
    → List (ℕ × ℕ)
    → List SentPacket
    → Acking C
    → List SentPacket × Acking C
unfolding ack_range
ack_ranges c now [] ps a = (ps, a)
ack_ranges c now ((start, end) ∷ rs) ps a =
    let run = ack_range c now start end ps a in
    let rest = ack_ranges c now rs run.1 run.2 in (run.0 ++ rest.0, rest.1)

-- The sample of the round-trip time, the packets newly acknowledged, and the state.
unfoldable pub detect_acked_packets :
    {C : Type 0}
    → CongestionController C
    → List (ℕ × ℕ)
    → Flight C
    → List AckedPacket
    → ℕ
    → Option ℕ × List AckedPacket × Flight C
unfolding ack_ranges
detect_acked_packets c ranges f newly_acked now =
    let begin : Acking _ = record {
      flight = f;
      newly_acked = newly_acked;
      largest_newly_acked_pkt_num = 0;
      largest_newly_acked_sent_time = now;
      newly_ack_eliciting_pkt_acked = false;
    } in
    let run = ack_ranges c now ranges f.space.sent begin in
    let a = run.1 in
    (
      if (a.largest_newly_acked_pkt_num == a.flight.space.largest_acked_pkt)
            && a.newly_ack_eliciting_pkt_acked
          then some (now - a.largest_newly_acked_sent_time)
          else none,
      a.newly_acked,
      record a.flight { space = record a.flight.space { sent = run.0 } },
    )

-- A lost packet is kept for a round-trip time.
abbrev pub is_kept : ℕ → ℕ → Option ℕ → Bool
is_kept now rtt none = false
is_kept now rtt (some t) = ltb now (t + rtt)

unfoldable pub drain_front : List SentPacket → ℕ → ℕ → List SentPacket
drain_front [] now rtt = []
drain_front (p ∷ r) now rtt =
    let rest = drain_front r now rtt in
    if is_unacked p || is_kept now rtt p.time_lost then p ∷ r else rest

unfoldable pub drain_sent_packets : PacketNumSpace → ℕ → ℕ → PacketNumSpace
unfolding drain_front
drain_sent_packets s now rtt = record s { sent = drain_front s.sent now rtt }

unfoldable pub discard_all : {C : Type 0} → List SentPacket → Recovery C → Recovery C
discard_all [] r = r
discard_all (p ∷ ps) r =
    let eliciting = if p.ack_eliciting then 1 else 0 in
    discard_all ps (
      if not p.in_flight || not (is_unacked p) then r else record r {
        bytes_in_flight = r.bytes_in_flight - p.sent_size;
        ack_eliciting_in_flight = r.ack_eliciting_in_flight - eliciting;
      })

unfoldable pub remove_from_bytes_in_flight : {C : Type 0} → Recovery C → PacketNumSpace → Recovery C
unfolding discard_all
remove_from_bytes_in_flight r s = discard_all s.sent r
