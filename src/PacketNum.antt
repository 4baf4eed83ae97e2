-- ===== src/PacketNum.antt =====
-- src/packet.rs: the truncated packet numbers of RFC 9000, appendix A.
pub mod Decode
pub mod Encode
mod Runs
use tquic.Base.{ℕ, zero, suc, ◌+◌, ◌-◌, ◌*◌, ◌/◌, ◌%◌, ◌^◌, Bool, ◌&&◌, List, Option, none, some}
use tquic.Base.{ltb, leb, ◌==◌, if◌then◌else◌, bit_and, bit_or, add64, saturating_add64}
use tquic.Error.{Result, ok, err, invalid_packet, ◌>>=◌}
use tquic.Codec.{Writer, write_u8, write_u16, write_u24, write_u32}
use tquic.Codec.{read_u8, read_u16, read_u24, read_u32}

-- `!x` on u64.
abbrev not64 : ℕ → ℕ
not64 x = 2 ^ 64 - 1 - x

pub candidate : ℕ → ℕ → ℕ → ℕ
candidate expected truncated win = bit_or (bit_and expected (not64 (win - 1))) truncated

pub decode_packet_num : ℕ → ℕ → ℕ → ℕ
decode_packet_num largest_pn truncated_pn pkt_num_len =
    let expected_pn = add64 largest_pn 1 in
    let pn_win = 2 ^ (pkt_num_len * 8) in
    let pn_hwin = pn_win / 2 in
    let candidate_pn = candidate expected_pn truncated_pn pn_win in
    if leb (add64 candidate_pn pn_hwin) expected_pn && ltb candidate_pn (2 ^ 62 - pn_win)
    then add64 candidate_pn pn_win
    else if ltb (add64 expected_pn pn_hwin) candidate_pn && leb pn_win candidate_pn
    then candidate_pn - pn_win
    else candidate_pn

pub encode_packet_num : ℕ → ℕ → Writer → Result (ℕ × Writer)
encode_packet_num pkt_num len w =
    if len == 1
    then write_u8 (pkt_num % 2 ^ 8) w
    else if len == 2
    then write_u16 (pkt_num % 2 ^ 16) w
    else if len == 3
    then write_u24 (pkt_num % 2 ^ 32) w
    else if len == 4
    then write_u32 (pkt_num % 2 ^ 32) w
    else err invalid_packet

-- The part of `decrypt_header` that reads the field.
pub read_packet_num : ℕ → List ℕ → Result (ℕ × List ℕ)
read_packet_num len b =
    if len == 1
    then read_u8 b
    else if len == 2
    then read_u16 b
    else if len == 3
    then read_u24 b
    else if len == 4
    then read_u32 b
    else err invalid_packet

-- `u64::BITS - n.leading_zeros()`, for a number of at most `digits` binary digits.
pub bit_length : ℕ → ℕ → ℕ
bit_length zero n = 0
bit_length (suc digits) n = let rest = bit_length digits (n / 2) in if n == 0 then 0 else rest + 1

abbrev pub num_unacked : ℕ → Option ℕ → ℕ
num_unacked pkt_num none = saturating_add64 pkt_num 1
num_unacked pkt_num (some largest_acked) = pkt_num - largest_acked

pub packet_num_len : ℕ → Option ℕ → ℕ
packet_num_len pkt_num largest_acked =
    let min_bits = bit_length 64 (num_unacked pkt_num largest_acked) + 1 in (min_bits + 7) / 8
