-- ===== src/Frame/Fields.antt =====
-- The fields of a frame, as `from_bytes` of src/frame.rs reads them back.
use tquic.Base.{
  ◌-◌, not, ℕ, ◌+◌, ◌%◌, ◌^◌, ◌≤◌, ◌<◌, ◌≡◌, ◌≢◌, refl, ap, sym, ◌∙◌, arith, Bool, false, none,
}
use tquic.Base.{List, [], ◌∷◌, ◌++◌, length, ◌==◌, bit_or, bit_and, lt→leb}
use tquic.Error.{Result, ok, ◌>>=◌}
use tquic.Codec.{be16, read, read_u8, read_varint, read_with_varint_length, read_with_u8_length}
use tquic.Codec.Bytes.{read-append}
use tquic.Codec.Varint.{back2}
use tquic.SendBuf.Fetch.{take_all}
use tquic.Frame.{
  Frame, paddings, ping, ack, reset_stream, stop_sending, crypto, new_token, stream, max_data,
  max_stream_data, max_streams, data_blocked, stream_data_blocked, streams_blocked,
  new_connection_id, retire_connection_id, path_challenge, path_response, connection_close,
  application_close, handshake_done, path_abandon, path_status, datagram,
}
use tquic.Frame.Parse.{
  parse, parse_frame, one_num, two_nums, three_nums, parse_bytes, take_data, parse_crypto,
  parse_stream, parse_new_connection_id, parse_datagram,
}
use tquic.Ranges.Order.{IsSorted}
use tquic.Frame.Ack.{IsSoundEcn}
use tquic.Frame.AckRanges.{IsUnder}
use tquic.Frame.Image.{bytes_of, read_varint-bytes_of}

-- The frames that a sender makes: numbers are varints, a length field is the length of its data, and
-- fields of fixed size have it; an ACK frame has ranges, in order and apart, of numbers below 2^62, in a
-- set of the default capacity.
abbrev pub IsSound : Frame → Type 0
IsSound (paddings len) = 0 < len
IsSound (ping pmtu_probe) = pmtu_probe ≡ none
IsSound (ack ack_delay ack_ranges ecn) =
    (ack_delay < 2 ^ 62)
    × (ack_ranges.capacity ≡ 2 ^ 64 - 1)
    × IsSorted 0 ack_ranges.set
    × IsUnder (2 ^ 62) ack_ranges.set
    × (0 < length ack_ranges.set)
    × (length ack_ranges.set < 2 ^ 62)
    × IsSoundEcn ecn
IsSound (reset_stream x y z) = (x < 2 ^ 62) × (y < 2 ^ 62) × (z < 2 ^ 62)
IsSound (stop_sending x y) = (x < 2 ^ 62) × (y < 2 ^ 62)
IsSound (crypto offset len bytes) = (offset < 2 ^ 62) × (len ≡ length bytes) × (len < 2 ^ 14)
IsSound (new_token token) = length token < 2 ^ 62
IsSound (stream stream_id offset len fin bytes) =
    (stream_id < 2 ^ 62) × (offset + len < 2 ^ 62) × (len ≡ length bytes) × (len < 2 ^ 14)
IsSound (max_data x) = x < 2 ^ 62
IsSound (max_stream_data x y) = (x < 2 ^ 62) × (y < 2 ^ 62)
IsSound (max_streams bidi x) = x < 2 ^ 62
IsSound (data_blocked x) = x < 2 ^ 62
IsSound (stream_data_blocked x y) = (x < 2 ^ 62) × (y < 2 ^ 62)
IsSound (streams_blocked bidi x) = x < 2 ^ 62
IsSound (new_connection_id x y conn_id reset_token) =
    (x < 2 ^ 62) × (y < 2 ^ 62) × (length conn_id ≤ 20) × (length reset_token ≡ 16)
IsSound (retire_connection_id x) = x < 2 ^ 62
IsSound (path_challenge bytes) = length bytes ≡ 8
IsSound (path_response bytes) = length bytes ≡ 8
IsSound (connection_close x y reason) = (x < 2 ^ 62) × (y < 2 ^ 62) × (length reason < 2 ^ 62)
IsSound (application_close x reason) = (x < 2 ^ 62) × (length reason < 2 ^ 62)
IsSound handshake_done = Unit {0}
IsSound (path_abandon x y reason) = (x < 2 ^ 62) × (y < 2 ^ 62) × (length reason < 2 ^ 62)
IsSound (path_status x y z) = (x < 2 ^ 62) × (y < 2 ^ 62) × (z < 2 ^ 62)
IsSound (datagram bytes) = length bytes < 2 ^ 62

-- What may follow a frame: a row of paddings ends where another byte begins.
abbrev pub IsOther : List ℕ → Type 0
IsOther [] = Unit {0}
IsOther (x ∷ r) = x ≢ 0

abbrev pub IsEnd : Frame → List ℕ → Type 0
IsEnd (paddings len) rest = IsOther rest
IsEnd f rest = Unit {0}

pub typed : (t : ℕ) (b : List ℕ) → t < 2 ^ 62 → parse_frame (bytes_of t ++ b) ≡ parse t b
typed t b h = ap (λ z. z >>= λ x. parse x.0 x.1) (read_varint-bytes_of t b h)

-- A number in front of more.
pub next :
    {A : Type 0}
    → (n : ℕ) (b : List ℕ) (k : ℕ × List ℕ → Result A) → n < 2 ^ 62
    → (read_varint (bytes_of n ++ b) >>= k) ≡ k (n, b)
next n b k h = ap (λ z. z >>= k) (read_varint-bytes_of n b h)

pub one :
    (f : ℕ → Frame) (x : ℕ) (b : List ℕ) → x < 2 ^ 62 → one_num f (bytes_of x ++ b) ≡ ok (f x, b)
one f x b h = next x b (λ z. ok (f z.0, z.1)) h

pub two :
    (f : ℕ → ℕ → Frame) (x y : ℕ) (b : List ℕ)
    → x < 2 ^ 62
    → y < 2 ^ 62
    → two_nums f (bytes_of x ++ (bytes_of y ++ b)) ≡ ok (f x y, b)
two f x y b h k = next x (bytes_of y ++ b) (λ z. one_num (f z.0) z.1) h ∙ one (f x) y b k

pub three :
    (f : ℕ → ℕ → ℕ → Frame) (x y z : ℕ) (b : List ℕ)
    → x < 2 ^ 62
    → y < 2 ^ 62
    → z < 2 ^ 62
    → three_nums f (bytes_of x ++ (bytes_of y ++ (bytes_of z ++ b))) ≡ ok (f x y z, b)
three f x y z b h k l =
    next x (bytes_of y ++ (bytes_of z ++ b)) (λ u. two_nums (f u.0) u.1) h ∙ two (f x) y z b k l

pub read_field :
    {A : Type 0}
    → (xs b : List ℕ) (n : ℕ) (k : List ℕ × List ℕ → Result A) → length xs ≡ n
    → (read n (xs ++ b) >>= k) ≡ k (xs, b)
read_field xs b n k e =
    ap (λ m. read m (xs ++ b) >>= k) (sym e) ∙ ap (λ z. z >>= k) (read-append xs b)

pub data_of :
    (f : List ℕ → Frame) (xs b : List ℕ)
    → length xs < 2 ^ 62
    → parse_bytes f (bytes_of (length xs) ++ (xs ++ b)) ≡ ok (f xs, b)
unfolding read_with_varint_length
data_of f xs b h =
    ap (λ z. z >>= λ x. ok (f x.0, x.1))
      (next (length xs) (xs ++ b) (λ z. read z.0 z.1) h ∙ read-append xs b)

-- The same bytes, as `take_data` finds them.
pub taken : (xs b : List ℕ) → take_data (length xs) (xs ++ b) ≡ ok (xs, b)
unfolding take_data read
taken xs b = read-append xs b

pub crypto_back :
    (offset : ℕ) (xs b : List ℕ)
    → offset < 2 ^ 62
    → length xs < 2 ^ 14
    → parse_crypto (bytes_of offset ++ (be16 (bit_or (length xs % 2 ^ 16) 0x4000) ++ (xs ++ b)))
      ≡ ok (crypto offset (length xs) xs, b)
unfolding parse_crypto
crypto_back offset xs b h k =
    next offset (be16 (bit_or (length xs % 2 ^ 16) 0x4000) ++ (xs ++ b))
      (λ u. read_varint u.1 >>= λ v. take_data v.0 v.1 >>= λ w. ok (crypto u.0 v.0 w.0, w.1)) h
    ∙ ap (λ z. z >>= λ v. take_data v.0 v.1 >>= λ w. ok (crypto offset v.0 w.0, w.1))
        (back2 (length xs) (xs ++ b) k)
    ∙ ap (λ z. z >>= λ w. ok (crypto offset (length xs) w.0, w.1)) (taken xs b)

pub stream_back :
    (stream_id offset : ℕ) (xs b : List ℕ) (first : ℕ) (fin : Bool)
    → (bit_and first 0x04 == 0) ≡ false
    → (bit_and first 0x02 == 0) ≡ false
    → not (bit_and first 0x01 == 0) ≡ fin
    → stream_id < 2 ^ 62
    → offset + length xs < 2 ^ 62
    → length xs < 2 ^ 14
    → parse_stream first (
        bytes_of stream_id
        ++ (bytes_of offset ++ (be16 (bit_or (length xs % 2 ^ 16) 0x4000) ++ (xs ++ b))))
      ≡ ok (stream stream_id offset (length xs) fin xs, b)
unfolding parse_stream
stream_back stream_id offset xs b first fin e1 e2 e3 h1 h2 h3 =
    rw
      (
        e1,
        e2,
        read_varint-bytes_of stream_id
            (bytes_of offset ++ (be16 (bit_or (length xs % 2 ^ 16) 0x4000) ++ (xs ++ b))) h1,
        read_varint-bytes_of offset (be16 (bit_or (length xs % 2 ^ 16) 0x4000) ++ (xs ++ b))
            (omega arith),
        back2 (length xs) (xs ++ b) h3,
        lt→leb (2 ^ 62) (offset + length xs) h2,
        taken xs b,
        e3,
      )
      refl

pub cid_back :
    (x y : ℕ) (cid token b : List ℕ)
    → x < 2 ^ 62
    → y < 2 ^ 62
    → length cid ≤ 20
    → length token ≡ 16
    → parse_new_connection_id
        (bytes_of x ++ (bytes_of y ++ ((length cid % 2 ^ 8) ∷ (cid ++ (token ++ b)))))
      ≡ ok (new_connection_id x y cid token, b)
unfolding parse_new_connection_id read_with_u8_length read_u8
cid_back x y cid token b h1 h2 h3 h4 =
    let small : length cid % 2 ^ 8 ≡ length cid = omega arith in
    let e : read 16 (token ++ b) ≡ ok (token, b) =
      ap (λ n. read n (token ++ b)) (sym h4) ∙ read-append token b in
    rw
      (
        read_varint-bytes_of x (bytes_of y ++ ((length cid % 2 ^ 8) ∷ (cid ++ (token ++ b)))) h1,
        read_varint-bytes_of y ((length cid % 2 ^ 8) ∷ (cid ++ (token ++ b))) h2,
        small,
        read-append cid (token ++ b),
        e,
      )
      (ap (λ z. ok (new_connection_id x y z token, b)) (take_all cid 20 h3))

pub datagram_back :
    (xs b : List ℕ)
    → length xs < 2 ^ 62
    → parse_datagram (bytes_of (length xs) ++ (xs ++ b)) ≡ ok (datagram xs, b)
unfolding parse_datagram
datagram_back xs b h = rw (read_varint-bytes_of (length xs) (xs ++ b) h, taken xs b) refl
