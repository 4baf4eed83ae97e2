-- ===== src/Recovery/Runs.antt =====
-- Tests and examples of the detection of src/connection/recovery.rs.
use tquic.Base.{ℕ, ◌+◌, ◌*◌, ◌/◌, ◌≡◌, refl, arith, true, false, Option, none, some, List, [], ◌∷◌}
use tquic.Rtt.{smoothed_rtt}
use tquic.Frame.{handshake_done}
use tquic.Recovery.{
  data_space, SentPacket, CongestionController, Flight, leave, declare_lost, lose,
  detect_lost_packets, detect_acked_packets, drain_sent_packets, remove_from_bytes_in_flight,
}
use tquic.Recovery.InFlight.{
  total, size, eliciting, IsCounted, detect_lost_packets-IsCounted, drain_sent_packets-IsCounted,
  remove_from_bytes_in_flight-IsCounted,
}
use tquic.Recovery.Acked.{Settled, detect_acked_packets-Settled}
use tquic.Recovery.Spurious.{detect_acked_packets-twice}
use tquic.Recovery.Lost.{IsAscending, time_limit, Detected, detect_lost_packets-Detected}

-- A controller that counts its calls.
abbrev counting : CongestionController ℕ
counting = record {
  on_ack = λ n p now limited rtt bytes. n + 1;
  on_congestion_event = λ n now p persistent lost bytes. n + 1;
}

abbrev packet : ℕ → ℕ → Option ℕ → Option ℕ → SentPacket
packet n t acked lost = record {
  pkt_num = n;
  frames = handshake_done ∷ [];
  time_sent = t;
  time_acked = acked;
  time_lost = lost;
  ack_eliciting = true;
  in_flight = true;
  has_data = false;
  pmtu_probe = false;
  pacing = true;
  sent_size = 1200;
}

-- Packets 1 to 6: number 5 is acknowledged, number 1 was lost.
abbrev six : List SentPacket
six =
    packet 1 0 none (some 5)
    ∷ packet 2 10 none none
    ∷ packet 3 20 none none
    ∷ packet 4 90_000_000 none none
    ∷ packet 5 90_000_000 (some 95_000_000) none
    ∷ packet 6 90_000_000 none none
    ∷ []

abbrev path : Flight ℕ
path = record {
  space = record {
    id = data_space;
    sent = six;
    lost = [];
    acked = [];
    time_of_last_sent_ack_eliciting_pkt = some 90_000_000;
    loss_time = none;
    largest_acked_pkt = 5;
    loss_probes = 0;
    bytes_in_flight = 4800;
    ack_eliciting_in_flight = 4;
  };
  recovery = record {
    pkt_thresh = 3;
    bytes_in_flight = 5000;
    ack_eliciting_in_flight = 5;
    rtt = record {
      latest_rtt = 40_000_000;
      smoothed = none;
      rttvar = 0;
      min_rtt = 40_000_000;
      max_rtt = 40_000_000;
    };
    congestion = 0;
    stats = record {
      acked_count = 0;
      acked_bytes = 0;
      lost_count = 0;
      lost_bytes = 0;
      spurious_loss_count = 0;
    };
  };
}

abbrev mul : ℕ → ℕ
mul n = n * 9 / 8

path-IsCounted : IsCounted 200 1 path
unfolding total size eliciting
path-IsCounted = record {
  space_bytes = ground arith;
  space_eliciting = ground arith;
  bytes = ground arith;
  elicits = ground arith;
}

six-IsAscending : IsAscending six
six-IsAscending = ground arith

-- Two packets fall: by the threshold and by the time.
two_fall : (detect_lost_packets counting mul path 100_000_000).0 ≡ (2, 2400)
unfolding detect_lost_packets lose declare_lost leave smoothed_rtt
two_fall = refl

one_told : (detect_lost_packets counting mul path 100_000_000).1.recovery.congestion ≡ 1
unfolding detect_lost_packets lose declare_lost leave smoothed_rtt
one_told = refl

-- Number 4 is the next one to be late.
next_late : (detect_lost_packets counting mul path 100_000_000).1.space.loss_time ≡ some 135_000_000
unfolding detect_lost_packets lose declare_lost leave smoothed_rtt
next_late = refl

detect_lost_packets-IsCounted_example :
    IsCounted 200 1 (detect_lost_packets counting mul path 100_000_000).1
detect_lost_packets-IsCounted_example =
    detect_lost_packets-IsCounted counting mul 200 1 path 100_000_000 path-IsCounted

detect_lost_packets-Detected_example :
    Detected
      (time_limit mul path.recovery.rtt)
      100_000_000
      path
      (detect_lost_packets counting mul path 100_000_000)
detect_lost_packets-Detected_example =
    detect_lost_packets-Detected counting mul path 100_000_000 six-IsAscending

drain_sent_packets-IsCounted_example :
    IsCounted 200 1 (record path { space = drain_sent_packets path.space 100_000_000 40_000_000 })
drain_sent_packets-IsCounted_example =
    drain_sent_packets-IsCounted 200 1 path 100_000_000 40_000_000 path-IsCounted

remove_from_bytes_in_flight-IsCounted_example :
    ((remove_from_bytes_in_flight path.recovery path.space).bytes_in_flight ≡ 200)
    × ((remove_from_bytes_in_flight path.recovery path.space).ack_eliciting_in_flight ≡ 1)
remove_from_bytes_in_flight-IsCounted_example =
    remove_from_bytes_in_flight-IsCounted 200 1 path path-IsCounted

detect_acked_packets-Settled_example :
    Settled 200 1 path (detect_acked_packets counting ((1, 3) ∷ (4, 5) ∷ []) path [] 100_000_000).2
detect_acked_packets-Settled_example =
    detect_acked_packets-Settled counting ((1, 3) ∷ (4, 5) ∷ []) 200 1 path [] 100_000_000
      path-IsCounted

detect_acked_packets-twice_example :
    let o = (detect_acked_packets counting ((1, 2) ∷ []) path [] 100_000_000).2 in
    (total size o.space.sent ≡ 4800)
    × (o.space.bytes_in_flight ≡ 3600)
    × (o.recovery.bytes_in_flight ≡ 3800)
unfolding total size
detect_acked_packets-twice_example =
    detect_acked_packets-twice counting 200 1 path (packet 1 0 none (some 5)) _ [] 100_000_000 5
      path-IsCounted (ground arith) (refl, refl, refl)
