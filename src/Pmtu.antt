-- ===== src/Pmtu.antt =====
-- src/connection/pmtu.rs: discovery of the path MTU (RFC 8899).
-- The quotient of two sizes as f64 is compared with 0.99 as a fraction: for sizes of datagrams the
-- rounding does not reach the difference.
pub mod Attempts
pub mod Halves
pub mod Search
mod Runs
use tquic.Base.{ℕ, zero, suc, ◌+◌, ◌*◌, ◌/◌, Bool, true, false, not, ◌&&◌, ◌||◌, Option, none, some}
use tquic.Base.{ltb, leb, ◌==◌, if◌then◌else◌, max}

abbrev pub max_packet_size_ipv4 : ℕ
max_packet_size_ipv4 = 1472

abbrev pub max_packet_size_ipv6 : ℕ
max_packet_size_ipv6 = 1452

abbrev pub max_probe_count : ℕ
max_probe_count = 3

abbrev pub default_send_udp_payload_size : ℕ
default_send_udp_payload_size = 1200

pub record Dplpmtud : Type 0 where
  pub should_probe : Bool
  pub current_size : ℕ
  pub probe_size : Option ℕ
  pub probe_count : ℕ
  pub failed_size : ℕ
  pub max_pmtu : ℕ
  pub is_ipv6 : Bool

-- `Dplpmtud::new`.
unfoldable pub create : Bool → ℕ → Bool → Dplpmtud
create enable max_pmtu is_ipv6 = record {
  should_probe = enable;
  current_size = default_send_udp_payload_size;
  probe_size = none;
  probe_count = 0;
  failed_size = 0;
  max_pmtu =
      if max_pmtu == default_send_udp_payload_size
      then (if is_ipv6 then max_packet_size_ipv6 else max_packet_size_ipv4)
      else max_pmtu;
  is_ipv6 = is_ipv6;
}

unfoldable pub cal_mtu_ceiling : Dplpmtud → ℕ → ℕ
cal_mtu_ceiling d peer_max =
    let mtu_ceiling = if ltb 0 d.failed_size then d.failed_size else d.max_pmtu in
    if ltb peer_max mtu_ceiling then peer_max else mtu_ceiling

unfoldable pub cal_probe_size : Dplpmtud → ℕ → ℕ
unfolding cal_mtu_ceiling
cal_probe_size d peer_max =
    let mtu_ceiling = cal_mtu_ceiling d peer_max in
    if (d.failed_size == 0) && ltb mtu_ceiling 1500
    then mtu_ceiling
    else (d.current_size + mtu_ceiling) / 2

unfoldable pub check_finish : Dplpmtud → ℕ → Bool
unfolding cal_mtu_ceiling
check_finish d peer_max =
    let mtu_ceiling = cal_mtu_ceiling d peer_max in
    leb mtu_ceiling d.current_size || leb (99 * mtu_ceiling) (100 * d.current_size)

-- The size of the probe, and the state.
unfoldable pub get_probe_size : Dplpmtud → ℕ → ℕ × Dplpmtud
unfolding cal_probe_size
get_probe_size d peer_max = elim d.probe_size [
  | some n ↦ (n, d)
  | none ↦ (cal_probe_size d peer_max, record d { probe_size = some (cal_probe_size d peer_max) })
]

unfoldable pub on_pmtu_probe_sent : Dplpmtud → ℕ → Dplpmtud
on_pmtu_probe_sent d pkt_size = record d { should_probe = false }

unfoldable pub on_pmtu_probe_acked : Dplpmtud → ℕ → ℕ → Dplpmtud
unfolding cal_probe_size check_finish
on_pmtu_probe_acked d pkt_size peer_max =
    let t = record d { current_size = max d.current_size pkt_size; probe_count = 0 } in
    record t {
      probe_size = some (cal_probe_size t peer_max);
      should_probe = not (check_finish t peer_max);
    }

abbrev pub is_probe : Option ℕ → ℕ → Bool
is_probe none n = false
is_probe (some k) n = k == n

unfoldable pub on_pmtu_probe_lost : Dplpmtud → ℕ → ℕ → Dplpmtud
unfolding cal_probe_size check_finish
on_pmtu_probe_lost d pkt_size peer_max =
    let t = record d { failed_size = pkt_size } in
    if not (is_probe d.probe_size pkt_size)
    then d
    else if ltb (d.probe_count + 1) max_probe_count
    then record d { probe_count = d.probe_count + 1; should_probe = true }
    else record t {
      probe_size = some (cal_probe_size t peer_max);
      probe_count = 0;
      should_probe = not (check_finish t peer_max);
    }
