-- ===== src/Frame/Parse.antt =====
-- `Frame::from_bytes` of src/frame.rs.
use tquic.Base.{ℕ, zero, suc, ◌+◌, ◌-◌, ◌%◌, ◌^◌, true, false, ◌&&◌, not, Option, none, some}
use tquic.Base.{List, [], ◌∷◌, length, take, drop, ltb, leb, ◌==◌, if◌then◌else◌, bit_and}
use tquic.Error.{Result, ok, err, ◌>>=◌, buffer_too_short, frame_encoding_error, invalid_packet}
use tquic.Ranges.{RangeSet}
use tquic.Ranges as R
use tquic.Codec.{read, read_varint, read_with_varint_length, read_with_u8_length, skip}
use tquic.SendBuf.{no_ranges}
use tquic.Frame.{
  Frame, EcnCounts, PacketType, validate_frame, paddings, ping, ack, reset_stream, stop_sending,
  crypto, new_token, stream, max_data, max_stream_data, max_streams, data_blocked,
  stream_data_blocked, streams_blocked, new_connection_id, retire_connection_id, path_challenge,
  path_response, connection_close, application_close, handshake_done, path_abandon, path_status,
  datagram,
}

abbrev pub max_stream_size : ℕ
max_stream_size = 2 ^ 62

-- `ConnectionId::new`.
abbrev pub connection_id : List ℕ → List ℕ
connection_id bytes = take 20 bytes

-- The loop over the zero bytes behind the first one.
unfoldable pub skip_padding : ℕ → List ℕ → ℕ × List ℕ
skip_padding len [] = (len, [])
skip_padding len (x ∷ r) =
    let rest = skip_padding (len + 1) r in if x == 0 then rest else (len, x ∷ r)

-- The bytes of a field that comes with its length, taken out of the buffer.
unfoldable pub take_data : ℕ → List ℕ → Result (List ℕ × List ℕ)
take_data len b = if ltb (length b) len then err buffer_too_short else ok (take len b, drop len b)

-- The loop over `range_count` in `parse_ack_frame`.
unfoldable pub parse_blocks : ℕ → ℕ → RangeSet → List ℕ → Result (RangeSet × List ℕ)
parse_blocks zero smallest_ack set b = ok (set, b)
parse_blocks (suc count) smallest_ack set b = do
  (gap, b) ← read_varint b
  (if ltb smallest_ack (2 + gap) then err frame_encoding_error else do
    (ack_range_len, b) ← read_varint b
    let largest_ack = smallest_ack - gap - 2
    let smallest = largest_ack - ack_range_len
    (if ltb largest_ack ack_range_len
        then err frame_encoding_error
        else parse_blocks count smallest (R.insert set smallest (largest_ack + 1)) b))

unfoldable pub parse_ecn : ℕ → List ℕ → Result (Option EcnCounts × List ℕ)
parse_ecn first b = if bit_and first 0x01 == 0 then ok (none, b) else do
  (x, b) ← read_varint b
  (y, b) ← read_varint b
  (z, b) ← read_varint b
  ok (some (record { ect0_count = x; ect1_count = y; ecn_ce_count = z }), b)

-- The frame, with the number of bytes read.
unfoldable pub parse_ack_frame : ℕ → List ℕ → Result (Frame × ℕ)
parse_ack_frame frame_type buf = do
  (largest_ack, b) ← read_varint buf
  (ack_delay, b) ← read_varint b
  (range_count, b) ← read_varint b
  (ack_range_len, b) ← read_varint b
  let smallest_ack = largest_ack - ack_range_len
  (if ltb largest_ack ack_range_len then err frame_encoding_error else do
    (set, b) ←
        parse_blocks range_count smallest_ack (R.insert no_ranges smallest_ack (largest_ack + 1)) b
    (ecn, b) ← parse_ecn (frame_type % 2 ^ 8) b
    ok (ack ack_delay set ecn, length buf - length b))

unfoldable pub parse_ack : ℕ → List ℕ → Result (Frame × List ℕ)
parse_ack frame_type b = do
  (frame, len) ← parse_ack_frame frame_type b
  (u, b) ← skip len b
  ok (frame, b)

-- An arm of one, two or three numbers.
abbrev pub one_num : (ℕ → Frame) → List ℕ → Result (Frame × List ℕ)
one_num f b = do (x, b) ← read_varint b; ok (f x, b)

abbrev pub two_nums : (ℕ → ℕ → Frame) → List ℕ → Result (Frame × List ℕ)
two_nums f b = do (x, b) ← read_varint b; (y, b) ← read_varint b; ok (f x y, b)

abbrev pub three_nums : (ℕ → ℕ → ℕ → Frame) → List ℕ → Result (Frame × List ℕ)
three_nums f b = do
  (x, b) ← read_varint b
  (y, b) ← read_varint b
  (z, b) ← read_varint b
  ok (f x y z, b)

unfoldable pub parse_crypto : List ℕ → Result (Frame × List ℕ)
parse_crypto b = do
  (offset, b) ← read_varint b
  (len, b) ← read_varint b
  (bytes, b) ← take_data len b
  ok (crypto offset len bytes, b)

unfoldable pub parse_stream : ℕ → List ℕ → Result (Frame × List ℕ)
parse_stream first b = do
  (stream_id, b) ← read_varint b
  (offset, b) ← if bit_and first 0x04 == 0 then ok (0, b) else read_varint b
  (len, b) ← if bit_and first 0x02 == 0 then ok (length b, b) else read_varint b
  (if leb max_stream_size (offset + len) then err frame_encoding_error else do
    (bytes, b) ← take_data len b
    ok (stream stream_id offset len (not (bit_and first 0x01 == 0)) bytes, b))

unfoldable pub parse_new_connection_id : List ℕ → Result (Frame × List ℕ)
parse_new_connection_id b = do
  (seq_num, b) ← read_varint b
  (retire_prior_to, b) ← read_varint b
  (cid, b) ← read_with_u8_length b
  (token, b) ← read 16 b
  ok (new_connection_id seq_num retire_prior_to (connection_id cid) token, b)

abbrev pub parse_bytes : (List ℕ → Frame) → List ℕ → Result (Frame × List ℕ)
parse_bytes f b = do (bytes, b) ← read_with_varint_length b; ok (f bytes, b)

abbrev pub parse_path : (List ℕ → Frame) → List ℕ → Result (Frame × List ℕ)
parse_path f b = do (bytes, b) ← read 8 b; ok (f bytes, b)

unfoldable pub parse_datagram : List ℕ → Result (Frame × List ℕ)
parse_datagram b = do (len, b) ← read_varint b; (bytes, b) ← take_data len b; ok (datagram bytes, b)

-- The match on the frame type: the frame, and the bytes left.
unfoldable pub parse : ℕ → List ℕ → Result (Frame × List ℕ)
parse t b =
    if t == 0x00
    then (let skipped = skip_padding 1 b in ok (paddings skipped.0, skipped.1))
    else if t == 0x01
    then ok (ping none, b)
    else if leb 0x02 t && leb t 0x03
    then parse_ack t b
    else if t == 0x04
    then three_nums (λ x y z. reset_stream x y z) b
    else if t == 0x05
    then two_nums (λ x y. stop_sending x y) b
    else if t == 0x06
    then parse_crypto b
    else if t == 0x07
    then parse_bytes (λ x. new_token x) b
    else if leb 0x08 t && leb t 0x0f
    then parse_stream (t % 2 ^ 8) b
    else if t == 0x10
    then one_num (λ x. max_data x) b
    else if t == 0x11
    then two_nums (λ x y. max_stream_data x y) b
    else if t == 0x12
    then one_num (λ x. max_streams true x) b
    else if t == 0x13
    then one_num (λ x. max_streams false x) b
    else if t == 0x14
    then one_num (λ x. data_blocked x) b
    else if t == 0x15
    then two_nums (λ x y. stream_data_blocked x y) b
    else if t == 0x16
    then one_num (λ x. streams_blocked true x) b
    else if t == 0x17
    then one_num (λ x. streams_blocked false x) b
    else if t == 0x18
    then parse_new_connection_id b
    else if t == 0x19
    then one_num (λ x. retire_connection_id x) b
    else if t == 0x1a
    then parse_path (λ x. path_challenge x) b
    else if t == 0x1b
    then parse_path (λ x. path_response x) b
    else if t == 0x1c
    then (do
      (x, b) ← read_varint b
      (y, b) ← read_varint b
      parse_bytes (λ z. connection_close x y z) b)
    else if t == 0x1d
    then (do (x, b) ← read_varint b; parse_bytes (λ y. application_close x y) b)
    else if t == 0x1e
    then ok (handshake_done, b)
    else if t == 0x1522_8c05
    then (do
      (x, b) ← read_varint b
      (y, b) ← read_varint b
      parse_bytes (λ z. path_abandon x y z) b)
    else if t == 0x1522_8c06
    then three_nums (λ x y z. path_status x y z) b
    else if t == 0x30
    then ok (datagram b, [])
    else if t == 0x31
    then parse_datagram b
    else err frame_encoding_error

-- The frame type, and the frame behind it.
abbrev pub parse_frame : List ℕ → Result (Frame × List ℕ)
parse_frame buf = do (t, b) ← read_varint buf; parse t b

-- The frame, and the number of bytes read.
unfoldable pub from_bytes : List ℕ → PacketType → Result (Frame × ℕ)
from_bytes buf pkt = do
  (frame, b) ← parse_frame buf
  (if validate_frame pkt frame then ok (frame, length buf - length b) else err invalid_packet)
