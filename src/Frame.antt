-- ===== src/Frame.antt =====
-- src/frame.rs: the frames and their coding.
-- A field of bytes is a list. `to_qlog` and Debug are left out.
pub mod Image
pub mod Parse
pub mod Kinds
pub mod Fields
pub mod Arms
pub mod SafeArms
pub mod Safe
pub mod AckRanges
pub mod Ack
pub mod AckSize
pub mod RoundTrip
mod Runs
use tquic.Base.{
  ℕ, zero, suc, ◌+◌, ◌-◌, ◌%◌, ◌^◌, Bool, true, false, ◌&&◌, ◌||◌, not, Option, none, some,
}
use tquic.Base.{
  List, [], ◌∷◌, ◌++◌, length, take, drop, ltb, leb, ◌==◌, if◌then◌else◌, bit_and, sub64,
}
use tquic.Error.{
  Result, ok, err, panic, ◌>>=◌, buffer_too_short, frame_encoding_error, invalid_packet,
}
use tquic.Ranges.{RangeSet}
use tquic.Ranges as R
use tquic.Ranges.Map.{Entries}
use tquic.Codec.{
  Writer, write, write_u8, write_varint, write_varint_with_len, encode_varint_len, read,
  read_varint, read_with_varint_length, read_with_u8_length, skip,
}
use tquic.SendBuf.{no_ranges}

pub record EcnCounts : Type 0 where
  pub ect0_count : ℕ
  pub ect1_count : ℕ
  pub ecn_ce_count : ℕ

pub data Frame : Type 0 where
  paddings : (len : ℕ) → Frame
  ping : (pmtu_probe : Option (ℕ × ℕ)) → Frame
  ack : (ack_delay : ℕ) (ack_ranges : RangeSet) (ecn_counts : Option EcnCounts) → Frame
  reset_stream : (stream_id error_code final_size : ℕ) → Frame
  stop_sending : (stream_id error_code : ℕ) → Frame
  crypto : (offset len : ℕ) (bytes : List ℕ) → Frame
  new_token : (token : List ℕ) → Frame
  stream : (stream_id offset len : ℕ) (fin : Bool) (bytes : List ℕ) → Frame
  max_data : (limit : ℕ) → Frame
  max_stream_data : (stream_id limit : ℕ) → Frame
  max_streams : (bidi : Bool) (limit : ℕ) → Frame
  data_blocked : (limit : ℕ) → Frame
  stream_data_blocked : (stream_id limit : ℕ) → Frame
  streams_blocked : (bidi : Bool) (limit : ℕ) → Frame
  new_connection_id : (seq_num retire_prior_to : ℕ) (conn_id reset_token : List ℕ) → Frame
  retire_connection_id : (seq_num : ℕ) → Frame
  path_challenge : (bytes : List ℕ) → Frame
  path_response : (bytes : List ℕ) → Frame
  connection_close : (error_code frame_type : ℕ) (reason : List ℕ) → Frame
  application_close : (error_code : ℕ) (reason : List ℕ) → Frame
  handshake_done : Frame
  path_abandon : (dcid_seq_num error_code : ℕ) (reason : List ℕ) → Frame
  path_status : (dcid_seq_num seq_num status : ℕ) → Frame
  datagram : (bytes : List ℕ) → Frame

-- The kinds of packets of src/packet.rs.
pub data PacketType : Type 0 where
  version_negotiation initial zero_rtt handshake retry one_rtt : PacketType

unfoldable pub validate_frame : PacketType → Frame → Bool
validate_frame _ (paddings _) = true
validate_frame _ (ping _) = true
validate_frame zero_rtt (ack _ _ _) = false
validate_frame zero_rtt (crypto _ _ _) = false
validate_frame zero_rtt handshake_done = false
validate_frame zero_rtt (new_token _) = false
validate_frame zero_rtt (path_response _) = false
validate_frame zero_rtt (retire_connection_id _) = false
validate_frame zero_rtt (connection_close _ _ _) = false
validate_frame _ (ack _ _ _) = true
validate_frame _ (crypto _ _ _) = true
validate_frame _ (connection_close _ _ _) = true
validate_frame one_rtt _ = true
validate_frame zero_rtt _ = true
validate_frame _ _ = false

-- The calls of the encoder that `to_bytes` makes; `unwrapped` is the `unwrap` of a missing range.
pub data Write : Type 0 where
  varint : ℕ → Write
  varint_with_len : ℕ → ℕ → Write
  octet : ℕ → Write
  slice : List ℕ → Write
  unwrapped : Write

unfoldable pub run_write : Write → Writer → Result (ℕ × Writer)
run_write (varint n) w = write_varint n w
run_write (varint_with_len n len) w = write_varint_with_len n len w
run_write (octet n) w = write_u8 n w
run_write (slice bytes) w = write bytes w
run_write unwrapped w = panic

-- The calls one after the other, each with `?`.
pub run_writes : List Write → Writer → Result Writer
run_writes [] w = ok w
run_writes (c ∷ cs) w = do (n, w') ← run_write c w; run_writes cs w'

abbrev pub crypto_header : ℕ → ℕ → List Write
crypto_header offset len = varint 0x06 ∷ varint offset ∷ varint_with_len len 2 ∷ []

abbrev pub stream_header : ℕ → ℕ → ℕ → Bool → List Write
stream_header stream_id offset len fin =
    varint (if fin then 0x0f else 0x0e)
    ∷ varint stream_id
    ∷ varint offset
    ∷ varint_with_len len 2
    ∷ []

unfoldable pub padding : ℕ → List Write
padding zero = []
padding (suc n) = varint 0x00 ∷ padding n

-- Ranges from the last one down.
unfoldable pub backwards : Entries → Entries → Entries
backwards [] done = done
backwards (r ∷ rs) done = backwards rs (r ∷ done)

unfoldable pub ack_blocks : ℕ → Entries → List Write
ack_blocks smallest_ack [] = []
ack_blocks smallest_ack ((start, end) ∷ rs) =
    varint (sub64 (sub64 smallest_ack end) 1)
    ∷ varint (sub64 (sub64 end 1) start)
    ∷ ack_blocks start rs

abbrev pub ecn_writes : Option EcnCounts → List Write
ecn_writes none = []
ecn_writes (some c) = varint c.ect0_count ∷ varint c.ect1_count ∷ varint c.ecn_ce_count ∷ []

unfoldable pub ack_writes : ℕ → Entries → Option EcnCounts → List Write
ack_writes ack_delay [] ecn = unwrapped ∷ []
ack_writes ack_delay ((start, end) ∷ rs) ecn =
    varint (sub64 end 1)
    ∷ varint ack_delay
    ∷ varint (length rs)
    ∷ varint (sub64 (sub64 end 1) start)
    ∷ (ack_blocks start rs ++ ecn_writes ecn)

abbrev pub is_some : Option EcnCounts → Bool
is_some none = false
is_some (some c) = true

-- A reason or a token, with its length.
abbrev pub with_length : List ℕ → List Write
with_length bytes = varint (length bytes) ∷ slice bytes ∷ []

-- What `to_bytes` writes, call by call.
unfoldable pub writes : Frame → List Write
unfolding padding ack_writes backwards
writes (paddings len) = padding len
writes (ping pmtu_probe) = varint 0x01 ∷ []
writes (ack ack_delay ack_ranges ecn) =
    varint (if is_some ecn then 0x03 else 0x02)
    ∷ ack_writes ack_delay (backwards ack_ranges.set []) ecn
writes (reset_stream stream_id error_code final_size) =
    varint 0x04 ∷ varint stream_id ∷ varint error_code ∷ varint final_size ∷ []
writes (stop_sending stream_id error_code) = varint 0x05 ∷ varint stream_id ∷ varint error_code ∷ []
writes (crypto offset len bytes) = crypto_header offset len ++ (slice bytes ∷ [])
writes (new_token token) = varint 0x07 ∷ with_length token
writes (stream stream_id offset len fin bytes) =
    stream_header stream_id offset len fin ++ (slice bytes ∷ [])
writes (max_data limit) = varint 0x10 ∷ varint limit ∷ []
writes (max_stream_data stream_id limit) = varint 0x11 ∷ varint stream_id ∷ varint limit ∷ []
writes (max_streams bidi limit) = varint (if bidi then 0x12 else 0x13) ∷ varint limit ∷ []
writes (data_blocked limit) = varint 0x14 ∷ varint limit ∷ []
writes (stream_data_blocked stream_id limit) = varint 0x15 ∷ varint stream_id ∷ varint limit ∷ []
writes (streams_blocked bidi limit) = varint (if bidi then 0x16 else 0x17) ∷ varint limit ∷ []
writes (new_connection_id seq_num retire_prior_to conn_id reset_token) =
    varint 0x18
    ∷ varint seq_num
    ∷ varint retire_prior_to
    ∷ octet (length conn_id % 2 ^ 8)
    ∷ slice conn_id
    ∷ slice reset_token
    ∷ []
writes (retire_connection_id seq_num) = varint 0x19 ∷ varint seq_num ∷ []
writes (path_challenge bytes) = varint 0x1a ∷ slice bytes ∷ []
writes (path_response bytes) = varint 0x1b ∷ slice bytes ∷ []
writes (connection_close error_code frame_type reason) =
    varint 0x1c ∷ varint error_code ∷ varint frame_type ∷ with_length reason
writes (application_close error_code reason) = varint 0x1d ∷ varint error_code ∷ with_length reason
writes handshake_done = varint 0x1e ∷ []
writes (path_abandon dcid_seq_num error_code reason) =
    varint 0x1522_8c05 ∷ varint dcid_seq_num ∷ varint error_code ∷ with_length reason
writes (path_status dcid_seq_num seq_num status) =
    varint 0x1522_8c06 ∷ varint dcid_seq_num ∷ varint seq_num ∷ varint status ∷ []
writes (datagram bytes) = varint 0x31 ∷ with_length bytes

unfoldable pub to_bytes : Frame → Writer → Result (ℕ × Writer)
to_bytes f w = do w' ← run_writes (writes f) w; ok (w.room - w'.room, w')

-- A sum of varint lengths on top of `n`.
unfoldable pub lens : ℕ → List ℕ → Result ℕ
lens n [] = ok n
lens n (x ∷ xs) = do len ← encode_varint_len x; lens (n + len) xs

unfoldable pub block_lens : ℕ → Entries → List ℕ
block_lens smallest_ack [] = []
block_lens smallest_ack ((start, end) ∷ rs) =
    sub64 (sub64 smallest_ack end) 1 ∷ sub64 (sub64 end 1) start ∷ block_lens start rs

abbrev pub ecn_lens : Option EcnCounts → List ℕ
ecn_lens none = []
ecn_lens (some c) = c.ect0_count ∷ c.ect1_count ∷ c.ecn_ce_count ∷ []

unfoldable pub ack_len : ℕ → Entries → Option EcnCounts → Result ℕ
ack_len ack_delay [] ecn = panic
ack_len ack_delay ((start, end) ∷ rs) ecn = lens 1 (
    sub64 end 1
    ∷ ack_delay
    ∷ length rs
    ∷ sub64 (sub64 end 1) start
    ∷ (block_lens start rs ++ ecn_lens ecn))

unfoldable pub wire_len : Frame → Result ℕ
unfolding lens
wire_len (paddings len) = ok len
wire_len (ping pmtu_probe) = ok 1
wire_len (ack ack_delay ack_ranges ecn) = ack_len ack_delay (backwards ack_ranges.set []) ecn
wire_len (reset_stream stream_id error_code final_size) =
    lens 1 (stream_id ∷ error_code ∷ final_size ∷ [])
wire_len (stop_sending stream_id error_code) = lens 1 (stream_id ∷ error_code ∷ [])
wire_len (crypto offset len bytes) = lens (1 + 2 + length bytes) (offset ∷ [])
wire_len (new_token token) = lens (1 + length token) (length token ∷ [])
wire_len (stream stream_id offset len fin bytes) =
    lens (1 + 2 + length bytes) (stream_id ∷ offset ∷ [])
wire_len (max_data limit) = lens 1 (limit ∷ [])
wire_len (max_stream_data stream_id limit) = lens 1 (stream_id ∷ limit ∷ [])
wire_len (max_streams bidi limit) = lens 1 (limit ∷ [])
wire_len (data_blocked limit) = lens 1 (limit ∷ [])
wire_len (stream_data_blocked stream_id limit) = lens 1 (stream_id ∷ limit ∷ [])
wire_len (streams_blocked bidi limit) = lens 1 (limit ∷ [])
wire_len (new_connection_id seq_num retire_prior_to conn_id reset_token) =
    lens (1 + 1 + length conn_id + length reset_token) (seq_num ∷ retire_prior_to ∷ [])
wire_len (retire_connection_id seq_num) = lens 1 (seq_num ∷ [])
wire_len (path_challenge bytes) = ok (1 + 8)
wire_len (path_response bytes) = ok (1 + 8)
wire_len (connection_close error_code frame_type reason) =
    lens (1 + length reason) (error_code ∷ frame_type ∷ length reason ∷ [])
wire_len (application_close error_code reason) =
    lens (1 + length reason) (error_code ∷ length reason ∷ [])
wire_len handshake_done = ok 1
wire_len (path_abandon dcid_seq_num error_code reason) =
    lens (4 + length reason) (dcid_seq_num ∷ error_code ∷ length reason ∷ [])
wire_len (path_status dcid_seq_num seq_num status) = lens 4 (dcid_seq_num ∷ seq_num ∷ status ∷ [])
wire_len (datagram bytes) = lens (1 + length bytes) (length bytes ∷ [])
