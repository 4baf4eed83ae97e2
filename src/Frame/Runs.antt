-- ===== src/Frame/Runs.antt =====
-- Runs of src/frame.rs at concrete frames.
use tquic.Base.{ℕ, ◌≡◌, refl, arith, none, List, [], ◌∷◌, ◌++◌, length}
use tquic.Error.{ok, err, invalid_packet}
use tquic.Codec.{skip, encode_varint_len, Writer, put, read_varint, write_varint}
use tquic.Ranges as R
use tquic.Ranges.Map.{bt_insert, bt_remove, prev_to, next_to, next_after}
use tquic.Frame.{
  ack_blocks, run_writes, validate_frame, Frame, crypto, ack, one_rtt, zero_rtt, to_bytes, wire_len,
  writes, run_write,
}
use tquic.Frame.Parse.{from_bytes, parse, parse_ack, parse_ack_frame, parse_blocks, parse_ecn}
use tquic.Frame.Image.{size}
use tquic.Frame.RoundTrip.{wire_len-size, from_bytes-to_bytes}
use tquic.Frame.Safe.{IsAnswer, from_bytes-IsAnswer}

-- An ACK frame of the packets 7 to 9 and 2 to 3, after a delay of 5.
abbrev some_ack : List ℕ
some_ack = 2 ∷ 9 ∷ 5 ∷ 1 ∷ 2 ∷ 2 ∷ 1 ∷ []

abbrev its_ranges : R.RangeSet
its_ranges = record { set = (2, 4) ∷ (7, 10) ∷ []; capacity = 0xffff_ffff_ffff_ffff }

read_ack : from_bytes some_ack one_rtt ≡ ok (ack 5 its_ranges none, 7)
unfolding from_bytes parse parse_ack parse_ack_frame parse_blocks parse_ecn read_varint skip
    R.insert R.insert_next R.insert_from R.place R.absorb bt_insert bt_remove prev_to next_to
    next_after validate_frame
read_ack = refl

write_ack :
    to_bytes (ack 5 its_ranges none) (record { written = []; room = 9 })
    ≡ ok (7, record { written = some_ack; room = 2 })
unfolding to_bytes writes run_writes run_write write_varint ack_blocks
write_ack = refl

-- An ACK frame may not stand in a 0-RTT packet.
refused_ack : from_bytes some_ack zero_rtt ≡ err invalid_packet
unfolding from_bytes parse parse_ack parse_ack_frame parse_blocks parse_ecn read_varint skip
    R.insert R.insert_next R.insert_from R.place R.absorb bt_insert bt_remove prev_to next_to
    next_after validate_frame
refused_ack = refl

abbrev hello : Frame
hello = crypto 70 3 (1 ∷ 2 ∷ 3 ∷ [])

-- The round trip of the ACK frame, in the numbers of `some_ack`.
ack_len_is : wire_len (ack 5 its_ranges none) ≡ ok (size (writes (ack 5 its_ranges none)))
ack_len_is =
    wire_len-size (ack 5 its_ranges none)
      (omega arith, omega arith, omega arith, omega arith, omega arith, omega arith, tt)

abbrev ten : Writer
ten = record { written = []; room = 10 }

hello_len : wire_len hello ≡ ok 8
unfolding wire_len encode_varint_len
hello_len = refl

from_bytes-to_bytes_example :
    (bytes : List ℕ) × (to_bytes hello ten ≡ ok (8, put ten bytes))
    × (length bytes ≡ 8)
    × (from_bytes (bytes ++ (9 ∷ [])) one_rtt ≡ ok (hello, 8))
from_bytes-to_bytes_example =
    from_bytes-to_bytes hello ten 8 (9 ∷ []) (omega arith, refl, omega arith) hello_len
      (omega arith) tt

from_bytes-IsAnswer_example : IsAnswer zero_rtt some_ack (from_bytes some_ack zero_rtt)
from_bytes-IsAnswer_example = from_bytes-IsAnswer some_ack zero_rtt (omega arith)
