-- ===== src/Frame/Safe.antt =====
-- `from_bytes` of src/frame.rs on any bytes.
use tquic.Base.{ℕ, ◌-◌, ◌%◌, ◌^◌, ◌≤◌, ◌≡◌, refl, arith, true, false}
use tquic.Base.{List, length, leb, ◌==◌, ◌&&◌, if◌then◌else◌, inl, inr, ◌⊎◌, Bool-cases}
use tquic.Error.{Result, ok, err, panic, ◌>>=◌, invalid_packet}
use tquic.Codec.Safe.{AreBytes, IsDecoding, encoding, Safe, Left, Rest}
use tquic.Frame.{
  Frame, PacketType, validate_frame, reset_stream, stop_sending, max_data, max_stream_data,
  max_streams, data_blocked, stream_data_blocked, streams_blocked, retire_connection_id,
  path_challenge, path_response, connection_close, application_close, path_abandon, path_status,
  new_token,
}
use tquic.Frame.Parse.{parse, parse_frame, from_bytes}
use tquic.Frame.SafeArms.{
  if-Safe, num, one-Safe, two-Safe, three-Safe, bytes-Safe, num_bytes-Safe, nums_bytes-Safe,
  path-Safe, crypto-Safe, datagram-Safe, stream-Safe, cid-Safe, padding-Safe, ack-Safe,
}

parse-Safe : (t : ℕ) (buf b : List ℕ) → Left buf b → Safe (Rest buf) (parse t b)
unfolding parse
parse-Safe t buf b h = if-Safe (Rest buf) (t == 0x00) _ _ (padding-Safe 1 buf b h) (
    if-Safe (Rest buf) (t == 0x01) _ _ h (
      if-Safe (Rest buf) (leb 0x02 t && leb t 0x03) _ _ (ack-Safe t buf b h) (
        if-Safe (Rest buf) (t == 0x04) _ _ (three-Safe (λ x y z. reset_stream x y z) buf b h) (
          if-Safe (Rest buf) (t == 0x05) _ _ (two-Safe (λ x y. stop_sending x y) buf b h) (
            if-Safe (Rest buf) (t == 0x06) _ _ (crypto-Safe buf b h) (
              if-Safe (Rest buf) (t == 0x07) _ _ (bytes-Safe (λ x. new_token x) buf b h) (
                if-Safe (Rest buf) (leb 0x08 t && leb t 0x0f) _ _ (stream-Safe (t % 2 ^ 8) buf b h)
                  (if-Safe (Rest buf) (t == 0x10) _ _ (one-Safe (λ x. max_data x) buf b h) (
                    if-Safe (Rest buf) (t == 0x11) _ _
                      (two-Safe (λ x y. max_stream_data x y) buf b h)
                      (if-Safe (Rest buf) (t == 0x12) _ _
                        (one-Safe (λ x. max_streams true x) buf b h)
                        (if-Safe (Rest buf) (t == 0x13) _ _
                          (one-Safe (λ x. max_streams false x) buf b h)
                          (if-Safe (Rest buf) (t == 0x14) _ _
                            (one-Safe (λ x. data_blocked x) buf b h)
                            (if-Safe (Rest buf) (t == 0x15) _ _
                              (two-Safe (λ x y. stream_data_blocked x y) buf b h)
                              (if-Safe (Rest buf) (t == 0x16) _ _
                                (one-Safe (λ x. streams_blocked true x) buf b h)
                                (if-Safe (Rest buf) (t == 0x17) _ _
                                  (one-Safe (λ x. streams_blocked false x) buf b h)
                                  (if-Safe (Rest buf) (t == 0x18) _ _ (cid-Safe buf b h) (
                                    if-Safe (Rest buf) (t == 0x19) _ _
                                      (one-Safe (λ x. retire_connection_id x) buf b h)
                                      (if-Safe (Rest buf) (t == 0x1a) _ _
                                        (path-Safe (λ x. path_challenge x) buf b h)
                                        (if-Safe (Rest buf) (t == 0x1b) _ _
                                          (path-Safe (λ x. path_response x) buf b h)
                                          (if-Safe (Rest buf) (t == 0x1c) _ _
                                            (nums_bytes-Safe (λ x y z. connection_close x y z) buf b
                                              h)
                                            (if-Safe (Rest buf) (t == 0x1d) _ _
                                              (num_bytes-Safe (λ x y. application_close x y) buf b
                                                h)
                                              (if-Safe (Rest buf) (t == 0x1e) _ _ h (
                                                if-Safe (Rest buf) (t == 0x1522_8c05) _ _
                                                  (nums_bytes-Safe (λ x y z. path_abandon x y z) buf
                                                    b h)
                                                  (if-Safe (Rest buf) (t == 0x1522_8c06) _ _
                                                    (three-Safe (λ x y z. path_status x y z) buf b
                                                      h)
                                                    (if-Safe (Rest buf) (t == 0x30) _ _
                                                      (tt, omega arith)
                                                      (if-Safe (Rest buf) (t == 0x31) _ _
                                                        (datagram-Safe buf b h)
                                                        (encoding)))))))))))))))))))))))))))

-- What `from_bytes` may answer to a packet of `pkt` that holds `buf`.
abbrev pub IsAnswer : PacketType → List ℕ → Result (Frame × ℕ) → Type 0
IsAnswer pkt buf (ok (f, n)) = (n ≤ length buf) × (validate_frame pkt f ≡ true)
IsAnswer pkt buf (err e) = IsDecoding e ⊎ (e ≡ invalid_packet)
IsAnswer pkt buf panic = ⊥

-- On any bytes, of whatever kind of packet, `from_bytes` does not panic: it answers with a frame that
-- may stand in such a packet and has read no more than there is, or with one of the errors
-- BufferTooShort, FrameEncodingError and InvalidPacket.
pub from_bytes-IsAnswer :
    (buf : List ℕ) (pkt : PacketType) → AreBytes buf → IsAnswer pkt buf (from_bytes buf pkt)
unfolding from_bytes
from_bytes-IsAnswer buf pkt h =
    by (parse_frame buf) (
      num (Rest buf) buf buf (λ z. parse z.0 z.1) (h, omega arith)
        (λ z l. parse-Safe z.0 buf z.1 l))
  where
    by :
        (o : Result (Frame × List ℕ))
        → Safe (Rest buf) o
        → IsAnswer pkt buf (
            o >>= λ x.
            if validate_frame pkt x.0
            then ok (x.0, length buf - length x.1)
            else err invalid_packet)
    by (ok (f, r)) l = elim (Bool-cases (validate_frame pkt f)) [
      | inl e ↦ rw e (omega arith, e)
      | inr e ↦ rw e (inr refl)
    ]
    by (err e) l = inl l
    by panic l = l
