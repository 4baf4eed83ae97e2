-- ===== src/Frame/RoundTrip.antt =====
-- What `to_bytes` of src/frame.rs writes is what `from_bytes` reads, and as long as `wire_len` says.
use tquic.Base.{
  none, some, ℕ, zero, suc, ◌+◌, ◌-◌, ◌^◌, ◌≤◌, ◌<◌, ◌≡◌, refl, ap, sym, ◌∙◌, arith, true, false,
}
use tquic.Base.{List, [], ◌∷◌, ◌++◌, length, if◌then◌else◌, length-append, le→leb}
use tquic.Error.{Result, ok, err, panic, ◌>>=◌, invalid_packet}
use tquic.Codec.{Writer, put}
use tquic.Frame.{
  Frame, paddings, ping, ack, reset_stream, stop_sending, crypto, new_token, stream, max_data,
  max_stream_data, max_streams, data_blocked, stream_data_blocked, streams_blocked,
  new_connection_id, retire_connection_id, path_challenge, path_response, connection_close,
  application_close, handshake_done, path_abandon, path_status, datagram, writes, padding, to_bytes,
  wire_len, lens, one_rtt, validate_frame,
}
use tquic.Frame.Parse.{parse_frame, from_bytes}
use tquic.Frame.Arms.{parses}
use tquic.Frame.Fields.{IsSound, IsEnd}
use tquic.Frame.AckSize.{ack_sized}
use tquic.Frame.Image.{
  bytes_of, encode_varint_len-bytes_of, image_of, IsWritable, AreWritable, image, image-append,
  size, length-image, run_writes-image,
}

writable_padding : (n : ℕ) → AreWritable (padding n)
unfolding padding AreWritable IsWritable
writable_padding zero = tt
writable_padding (suc n) = (omega arith, writable_padding n)

writable : (f : Frame) → IsSound f → AreWritable (writes f)
unfolding writes AreWritable IsWritable
writable (paddings n) h = writable_padding n
writable (ping x) h = (omega arith, tt)
writable (ack x s none) h = (omega arith, (ack_sized x s.set none h.0 h.2 h.3 h.4 h.5 h.6).0)
writable (ack x s (some c)) h =
    (omega arith, (ack_sized x s.set (some c) h.0 h.2 h.3 h.4 h.5 h.6).0)
writable (reset_stream x y z) h = (omega arith, (h.0, (h.1, (h.2, tt))))
writable (stop_sending x y) h = (omega arith, (h.0, (h.1, tt)))
writable (crypto offset len bytes) h = (omega arith, (h.0, ((h.2, refl), (tt, tt))))
writable (new_token token) h = (omega arith, (h, (tt, tt)))
writable (stream x y len true bytes) h =
    (omega arith, (h.0, (omega (arith, h.1), ((h.3, refl), (tt, tt)))))
writable (stream x y len false bytes) h =
    (omega arith, (h.0, (omega (arith, h.1), ((h.3, refl), (tt, tt)))))
writable (max_data x) h = (omega arith, (h, tt))
writable (max_stream_data x y) h = (omega arith, (h.0, (h.1, tt)))
writable (max_streams true x) h = (omega arith, (h, tt))
writable (max_streams false x) h = (omega arith, (h, tt))
writable (data_blocked x) h = (omega arith, (h, tt))
writable (stream_data_blocked x y) h = (omega arith, (h.0, (h.1, tt)))
writable (streams_blocked true x) h = (omega arith, (h, tt))
writable (streams_blocked false x) h = (omega arith, (h, tt))
writable (new_connection_id x y cid token) h =
    (omega arith, (h.0, (h.1, (omega arith, (tt, (tt, tt))))))
writable (retire_connection_id x) h = (omega arith, (h, tt))
writable (path_challenge bytes) h = (omega arith, (tt, tt))
writable (path_response bytes) h = (omega arith, (tt, tt))
writable (connection_close x y reason) h = (omega arith, (h.0, (h.1, (h.2, (tt, tt)))))
writable (application_close x reason) h = (omega arith, (h.0, (h.1, (tt, tt))))
writable handshake_done h = (omega arith, tt)
writable (path_abandon x y reason) h = (omega arith, (h.0, (h.1, (h.2, (tt, tt)))))
writable (path_status x y z) h = (omega arith, (h.0, (h.1, (h.2, tt))))
writable (datagram bytes) h = (omega arith, (h, (tt, tt)))

-- The lengths of one, two or three numbers.
sum1 : (n x : ℕ) → x < 2 ^ 62 → lens n (x ∷ []) ≡ ok (n + length (bytes_of x))
unfolding lens
sum1 n x h = ap (λ z. z >>= λ len. ok (n + len)) (encode_varint_len-bytes_of x h)

sum2 :
    (n x y : ℕ)
    → x < 2 ^ 62
    → y < 2 ^ 62
    → lens n (x ∷ y ∷ []) ≡ ok (n + length (bytes_of x) + length (bytes_of y))
unfolding lens
sum2 n x y h k =
    ap (λ z. z >>= λ len. lens (n + len) (y ∷ [])) (encode_varint_len-bytes_of x h)
    ∙ sum1 (n + length (bytes_of x)) y k

sum3 :
    (n x y z : ℕ)
    → x < 2 ^ 62
    → y < 2 ^ 62
    → z < 2 ^ 62
    → lens n (x ∷ y ∷ z ∷ [])
      ≡ ok (n + length (bytes_of x) + length (bytes_of y) + length (bytes_of z))
unfolding lens
sum3 n x y z h k l =
    ap (λ u. u >>= λ len. lens (n + len) (y ∷ z ∷ [])) (encode_varint_len-bytes_of x h)
    ∙ sum2 (n + length (bytes_of x)) y z k l

size-padding : (n : ℕ) → size (padding n) ≡ n
unfolding padding size image_of bytes_of
size-padding zero = refl
size-padding (suc n) = omega (arith, size-padding n)

by_size : (n m : ℕ) → n ≡ m → ◌≡◌ {A = Result ℕ} (ok n) (ok m)
by_size n m e = ap (λ z. ok z) e

short : (t : ℕ) → t ≤ 63 → length (bytes_of t) ≡ 1
unfolding bytes_of
short t h = rw (le→leb t 63 h) refl

four : length (bytes_of 0x1522_8c05) ≡ 4
unfolding bytes_of
four = refl

four' : length (bytes_of 0x1522_8c06) ≡ 4
unfolding bytes_of
four' = refl

-- For a frame of any kind whose numbers fit, `wire_len` does not panic, and gives the number of bytes
-- that the calls of `to_bytes` append.
pub wire_len-size : (f : Frame) → IsSound f → wire_len f ≡ ok (size (writes f))
unfolding writes wire_len size image_of
wire_len-size (paddings n) h = by_size _ _ (sym (size-padding n))
wire_len-size (ping x) h = by_size _ _ (omega (arith, short 1 (omega arith)))
wire_len-size (ack x s none) h =
    (ack_sized x s.set none h.0 h.2 h.3 h.4 h.5 h.6).1
    ∙ by_size _ _ (omega (arith, short 2 (omega arith)))
wire_len-size (ack x s (some c)) h =
    (ack_sized x s.set (some c) h.0 h.2 h.3 h.4 h.5 h.6).1
    ∙ by_size _ _ (omega (arith, short 3 (omega arith)))
wire_len-size (reset_stream x y z) h =
    sum3 1 x y z h.0 h.1 h.2 ∙ by_size _ _ (omega (arith, short 4 (omega arith)))
wire_len-size (stop_sending x y) h =
    sum2 1 x y h.0 h.1 ∙ by_size _ _ (omega (arith, short 5 (omega arith)))
wire_len-size (crypto offset len bytes) h =
    sum1 (1 + 2 + length bytes) offset h.0 ∙ by_size _ _ (omega (arith, short 6 (omega arith)))
wire_len-size (new_token token) h =
    sum1 (1 + length token) (length token) h ∙ by_size _ _ (omega (arith, short 7 (omega arith)))
wire_len-size (stream x y len true bytes) h =
    sum2 (1 + 2 + length bytes) x y h.0 (omega (arith, h.1))
    ∙ by_size _ _ (omega (arith, short 0x0f (omega arith)))
wire_len-size (stream x y len false bytes) h =
    sum2 (1 + 2 + length bytes) x y h.0 (omega (arith, h.1))
    ∙ by_size _ _ (omega (arith, short 0x0e (omega arith)))
wire_len-size (max_data x) h = sum1 1 x h ∙ by_size _ _ (omega (arith, short 0x10 (omega arith)))
wire_len-size (max_streams true x) h =
    sum1 1 x h ∙ by_size _ _ (omega (arith, short 0x12 (omega arith)))
wire_len-size (max_streams false x) h =
    sum1 1 x h ∙ by_size _ _ (omega (arith, short 0x13 (omega arith)))
wire_len-size (data_blocked x) h =
    sum1 1 x h ∙ by_size _ _ (omega (arith, short 0x14 (omega arith)))
wire_len-size (streams_blocked true x) h =
    sum1 1 x h ∙ by_size _ _ (omega (arith, short 0x16 (omega arith)))
wire_len-size (streams_blocked false x) h =
    sum1 1 x h ∙ by_size _ _ (omega (arith, short 0x17 (omega arith)))
wire_len-size (retire_connection_id x) h =
    sum1 1 x h ∙ by_size _ _ (omega (arith, short 0x19 (omega arith)))
wire_len-size (max_stream_data x y) h =
    sum2 1 x y h.0 h.1 ∙ by_size _ _ (omega (arith, short 0x11 (omega arith)))
wire_len-size (stream_data_blocked x y) h =
    sum2 1 x y h.0 h.1 ∙ by_size _ _ (omega (arith, short 0x15 (omega arith)))
wire_len-size (new_connection_id x y cid token) h =
    sum2 (1 + 1 + length cid + length token) x y h.0 h.1
    ∙ by_size _ _ (omega (arith, short 0x18 (omega arith)))
wire_len-size (path_challenge bytes) h = by_size _ _ (omega (arith, short 0x1a (omega arith)))
wire_len-size (path_response bytes) h = by_size _ _ (omega (arith, short 0x1b (omega arith)))
wire_len-size (connection_close x y reason) h =
    sum3 (1 + length reason) x y (length reason) h.0 h.1 h.2
    ∙ by_size _ _ (omega (arith, short 0x1c (omega arith)))
wire_len-size (application_close x reason) h =
    sum2 (1 + length reason) x (length reason) h.0 h.1
    ∙ by_size _ _ (omega (arith, short 0x1d (omega arith)))
wire_len-size handshake_done h = by_size _ _ (omega (arith, short 0x1e (omega arith)))
wire_len-size (path_abandon x y reason) h =
    sum3 (4 + length reason) x y (length reason) h.0 h.1 h.2 ∙ by_size _ _ (omega (arith, four))
wire_len-size (path_status x y z) h = sum3 4 x y z h.0 h.1 h.2 ∙ by_size _ _ (omega (arith, four'))
wire_len-size (datagram bytes) h =
    sum1 (1 + length bytes) (length bytes) h ∙ by_size _ _ (omega (arith, short 0x31 (omega arith)))

validated : (f : Frame) → validate_frame one_rtt f ≡ true
unfolding validate_frame
validated (paddings x) = refl
validated (ping x) = refl
validated (ack x y z) = refl
validated (reset_stream x y z) = refl
validated (stop_sending x y) = refl
validated (crypto x y z) = refl
validated (new_token x) = refl
validated (stream x y z u v) = refl
validated (max_data x) = refl
validated (max_stream_data x y) = refl
validated (max_streams x y) = refl
validated (data_blocked x) = refl
validated (stream_data_blocked x y) = refl
validated (streams_blocked x y) = refl
validated (new_connection_id x y z u) = refl
validated (retire_connection_id x) = refl
validated (path_challenge x) = refl
validated (path_response x) = refl
validated (connection_close x y z) = refl
validated (application_close x y) = refl
validated handshake_done = refl
validated (path_abandon x y z) = refl
validated (path_status x y z) = refl
validated (datagram x) = refl

ok-injective : (a b : ℕ) → ◌≡◌ {A = Result ℕ} (ok a) (ok b) → a ≡ b
ok-injective a b e = ap (λ z. got z) e
  where
    got : Result ℕ → ℕ
    got (ok n) = n
    got (err x) = 0
    got panic = 0

-- A frame of any kind whose numbers fit (the ranges of an ACK frame in order and apart), and that is
-- given the room of `wire_len`, is written in as many bytes as `wire_len` says, and from these
-- `from_bytes` of a 1-RTT packet gets the frame back and counts them, whatever follows; only behind
-- paddings no zero byte may follow.
pub from_bytes-to_bytes :
    (f : Frame) (w : Writer) (n : ℕ) (rest : List ℕ)
    → IsSound f
    → wire_len f ≡ ok n
    → n ≤ w.room
    → IsEnd f rest
    → (bytes : List ℕ) × (to_bytes f w ≡ ok (n, put w bytes))
      × (length bytes ≡ n)
      × (from_bytes (bytes ++ rest) one_rtt ≡ ok (f, n))
unfolding to_bytes from_bytes
from_bytes-to_bytes f w n rest h e room last =
    let bytes = image (writes f) [] in
    let l : length bytes ≡ n =
      let i = length-image (writes f) [] in
      let j : size (writes f) ≡ n = ok-injective _ _ (sym (wire_len-size f h) ∙ e) in
      omega (arith, i, j) in
    let same : bytes ++ rest ≡ image (writes f) rest = sym (image-append (writes f) rest) in
    let all : length (bytes ++ rest) - length rest ≡ n =
      omega (arith, l, length-append bytes rest) in
    let used : w.room - (w.room - length bytes) ≡ n = omega (arith, l) in
    (
      bytes,
      ap (λ z. z >>= λ w'. ok (w.room - w'.room, w'))
            (run_writes-image (writes f) w (writable f h) (omega (arith, l)))
          ∙ ap (λ z. ok (z, put w bytes)) used,
      l,
      ap (λ z. z >>= finish (bytes ++ rest)) (ap (λ z. parse_frame z) same ∙ parses f rest h last)
          ∙ ap (λ b. if b then ok (f, length (bytes ++ rest) - length rest) else err invalid_packet)
              (validated f)
          ∙ ap (λ z. ok (f, z)) all,
    )
  where
    finish : List ℕ → Frame × List ℕ → Result (Frame × ℕ)
    finish buf x =
        if validate_frame one_rtt x.0 then ok (x.0, length buf - length x.1) else err invalid_packet
