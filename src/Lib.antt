-- ===== src/Lib.antt =====
-- tquic: an implementation of QUIC (RFC 9000 and its companions) in Rust, under src/, and a
-- verification library for the parts of it that keep the protocol's own logic.
--
-- An endpoint (src/endpoint) owns connections (src/connection). A connection parses packets
-- (src/packet.rs) into frames (src/frame.rs) by the codec (src/codec.rs), drops duplicates with a
-- window of packet numbers (src/window.rs), keeps what was acknowledged in range sets
-- (src/ranges.rs), and hands stream data to stream buffers (src/connection/stream) under flow
-- control (src/connection/flowcontrol.rs) and limits on the number of streams
-- (src/connection/stream/concurrency.rs). The round-trip time of a path is estimated by
-- src/connection/rtt.rs.
--
-- The modules, and the code that each models:
--   Base          shared names, list functions over the native numbers, machine words, and laws of
--                 `|`, `&` and shifts digit by digit (Base/Bits, Base/Fields)
--   Error         src/error.rs: Error, to_wire, to_errno; the Result of the fallible operations
--   Codec         src/codec.rs: the traits Encoder and Decoder on byte slices. A reader is the list
--                 of the bytes left; a writer is what was written with the room left. `panic` is the
--                 result of unreachable!()
--   PacketNum     src/packet.rs: encode_packet_num, packet_num_len, decode_packet_num, and the part
--                 of decrypt_header that reads the field
--   Window        src/window.rs: SeqNumWindow; the u128 field is a number below 2^128
--   Ranges        src/ranges.rs: RangeSet; the BTreeMap is the list of its entries in key order
--                 (Ranges/Map), a set is read through the values that it covers (Ranges/Order)
--   FlowControl   src/connection/flowcontrol.rs; Trace is any sequence of its calls that raise the
--                 window to no more than `max_window`
--   RangeBuf      src/connection/stream/range_buf.rs: RangeBuf, without the time of arrival
--   SendBuf       src/connection/stream/send_buf.rs: SendBuf over the range sets; `chunks` is its
--                 field `data`, `stop_sending` its method `stop`, `shut` its method `shutdown`
--   RecvBuf       src/connection/stream/recv_buf.rs: RecvBuf; the BTreeMap of chunks is the list of its
--                 entries in key order, `chunks` is its field `data`, `shut` its method `shutdown`
--   Frame         src/frame.rs: Frame over the codec. `writes` is the row of encoder calls that
--                 `to_bytes` makes, Frame/Parse the match of `from_bytes`; `limit` is the field `max`,
--                 `len` and `bytes` are the fields `length` and `data`
--   Cid           src/connection/cid.rs: ConnectionIdDeque (Cid) and ConnectionIdMgr (Cid/Mgr); an
--                 operation returns the state beside its result, since an error keeps what was changed
--                 before it. `push` is the method `insert`; Frames has the part of
--                 src/connection/recv.rs that takes a NEW_CONNECTION_ID frame; Trace is any sequence of
--                 the operations
--   Pmtu          src/connection/pmtu.rs: Dplpmtud; Search runs it on a path of a given MTU
--   Recovery      src/connection/recovery.rs, and the records of src/connection/space.rs: the detection of
--                 acknowledged and lost packets. The trait CongestionController is a record of the two
--                 calls that are made, over a state `C` of its own; the field `time_thresh`, an f64,
--                 stands as the product with it, a parameter
--   Rtt           src/connection/rtt.rs; durations are in nanoseconds
--   StreamId      the two low bits of a stream id, of src/connection/stream/stream_state.rs
--   Concurrency   src/connection/stream/concurrency.rs: ConcurrencyControl over the range sets;
--                 Trace is any sequence of its operations
--
-- A u64 is a number, and its sums and differences are written with their wrap-around (add64, sub64
-- of Base/Words), as a release build computes them. The loops of RangeSet take fuel, the number of
-- entries: each round removes one, and the theorems about insert and remove cover the whole run.
-- The loop of SendBuf::write takes the length of the data as fuel, of which each round takes a chunk.
-- The loops of SendBuf::read have the room and the length of the range as fuel; there `none` stands
-- for a loop that makes no progress, and read-ReadOut shows that this does not happen.
-- The queue of RecvBuf::write takes the number of chunks and one more as fuel, since each round leaves
-- fewer of them ahead; the loop of RecvBuf::read goes along the chunks.
-- `search` of Pmtu/Search takes the number of probes as fuel; search-IsFound shows how many are enough.
-- The loop of parse_ack_frame counts `range_count` down; it ends with an error where the bytes end.
--
-- Not modelled: cryptography and TLS (bindings of BoringSSL), qlog, the C interface, the Tokio
-- adapter and the tools (input and output), congestion control, and the parts of the connection
-- that are not named above.
pub mod Base
pub mod Cid
pub mod Codec
pub mod Concurrency
pub mod Error
pub mod FlowControl
pub mod Frame
pub mod PacketNum
pub mod Pmtu
pub mod RangeBuf
pub mod Ranges
pub mod Recovery
pub mod RecvBuf
pub mod Rtt
pub mod SendBuf
pub mod StreamId
pub mod Window
