-- ===== src/Frame/Arms.antt =====
-- `from_bytes` of src/frame.rs on the bytes of a frame, arm by arm.
use tquic.Base.{some, ℕ, zero, suc, ◌+◌, ◌≡◌, refl, ap, sym, ◌∙◌, arith, true, false, none}
use tquic.Base.{List, [], ◌∷◌, ◌==◌}
use tquic.Error.{ok, ◌>>=◌}
use tquic.Codec.{read_varint}
use tquic.Frame.{
  Frame, paddings, ping, ack, reset_stream, stop_sending, crypto, new_token, stream, max_data,
  max_stream_data, max_streams, data_blocked, stream_data_blocked, streams_blocked,
  new_connection_id, retire_connection_id, path_challenge, path_response, connection_close,
  application_close, handshake_done, path_abandon, path_status, datagram, writes, padding,
}
use tquic.Frame.Parse.{parse, parse_frame, parse_bytes, skip_padding}
use tquic.Frame.Ack.{ack_back}
use tquic.Frame.Image.{bytes_of, image_of, image}
use tquic.Frame.Fields.{
  IsSound, IsOther, IsEnd, typed, next, one, two, three, read_field, data_of, crypto_back,
  stream_back, cid_back, datagram_back,
}

-- The paddings behind the first `m` are counted up to the end.
padded :
    (n m : ℕ) (rest : List ℕ)
    → IsOther rest
    → skip_padding m (image (padding n) rest) ≡ (m + n, rest)
unfolding skip_padding padding image image_of bytes_of
padded zero m [] e = ap (λ z. (z, [])) (omega arith)
padded zero m (x ∷ r) e =
    let q : (x == 0) ≡ false = ground arith in rw q (ap (λ z. (z, x ∷ r)) (omega arith))
padded (suc n) m rest e = padded n (m + 1) rest e ∙ ap (λ z. (z, rest)) (omega arith)

-- A frame is read back from its bytes.
pub parses :
    (f : Frame) (rest : List ℕ)
    → IsSound f
    → IsEnd f rest
    → parse_frame (image (writes f) rest) ≡ ok (f, rest)
unfolding writes image image_of parse
parses (paddings (suc n)) rest h e =
    typed 0 (image (padding n) rest) (omega arith)
    ∙ ap (λ z. ok (paddings z.0, z.1)) (padded n 1 rest e)
    ∙ ap (λ z. ok (paddings z, rest)) (omega arith)
parses (paddings zero) rest h e = absurd (omega arith)
parses (ping pmtu) rest h e = typed 1 rest (omega arith) ∙ ap (λ z. ok (ping z, rest)) (sym h)
parses (ack x s none) rest h e =
    typed 2 _ (omega arith)
    ∙ ack_back x s.set none rest h.0 h.2 h.3 h.4 h.5 h.6
    ∙ ap (λ n. ok (ack x (record { set = s.set; capacity = n }) none, rest)) (sym h.1)
parses (ack x s (some c)) rest h e =
    typed 3 _ (omega arith)
    ∙ ack_back x s.set (some c) rest h.0 h.2 h.3 h.4 h.5 h.6
    ∙ ap (λ n. ok (ack x (record { set = s.set; capacity = n }) (some c), rest)) (sym h.1)
parses (reset_stream x y z) rest h e =
    typed 4 _ (omega arith) ∙ three (λ x y z. reset_stream x y z) x y z rest h.0 h.1 h.2
parses (stop_sending x y) rest h e =
    typed 5 _ (omega arith) ∙ two (λ x y. stop_sending x y) x y rest h.0 h.1
parses (crypto offset len bytes) rest h e =
    let l = h.1 in
    ap (λ n. parse_frame (image (writes (crypto offset n bytes)) rest)) l
    ∙ typed 6 _ (omega arith)
    ∙ crypto_back offset bytes rest h.0 (omega (arith, l))
    ∙ ap (λ n. ok (crypto offset n bytes, rest)) (sym l)
parses (new_token token) rest h e =
    typed 7 _ (omega arith) ∙ data_of (λ x. new_token x) token rest h
parses (stream x y len true bytes) rest h e =
    let l = h.2 in
    ap (λ n. parse_frame (image (writes (stream x y n true bytes)) rest)) l
    ∙ typed 0x0f _ (omega arith)
    ∙ stream_back x y bytes rest 0x0f true refl refl refl h.0 (omega (arith, l)) (omega (arith, l))
    ∙ ap (λ n. ok (stream x y n true bytes, rest)) (sym l)
parses (stream x y len false bytes) rest h e =
    let l = h.2 in
    ap (λ n. parse_frame (image (writes (stream x y n false bytes)) rest)) l
    ∙ typed 0x0e _ (omega arith)
    ∙ stream_back x y bytes rest 0x0e false refl refl refl h.0 (omega (arith, l)) (omega (arith, l))
    ∙ ap (λ n. ok (stream x y n false bytes, rest)) (sym l)
parses (max_data x) rest h e = typed 0x10 _ (omega arith) ∙ one (λ x. max_data x) x rest h
parses (max_stream_data x y) rest h e =
    typed 0x11 _ (omega arith) ∙ two (λ x y. max_stream_data x y) x y rest h.0 h.1
parses (max_streams true x) rest h e =
    typed 0x12 _ (omega arith) ∙ one (λ x. max_streams true x) x rest h
parses (max_streams false x) rest h e =
    typed 0x13 _ (omega arith) ∙ one (λ x. max_streams false x) x rest h
parses (data_blocked x) rest h e = typed 0x14 _ (omega arith) ∙ one (λ x. data_blocked x) x rest h
parses (stream_data_blocked x y) rest h e =
    typed 0x15 _ (omega arith) ∙ two (λ x y. stream_data_blocked x y) x y rest h.0 h.1
parses (streams_blocked true x) rest h e =
    typed 0x16 _ (omega arith) ∙ one (λ x. streams_blocked true x) x rest h
parses (streams_blocked false x) rest h e =
    typed 0x17 _ (omega arith) ∙ one (λ x. streams_blocked false x) x rest h
parses (new_connection_id x y cid token) rest h e =
    typed 0x18 _ (omega arith) ∙ cid_back x y cid token rest h.0 h.1 h.2 h.3
parses (retire_connection_id x) rest h e =
    typed 0x19 _ (omega arith) ∙ one (λ x. retire_connection_id x) x rest h
parses (path_challenge bytes) rest h e =
    typed 0x1a _ (omega arith) ∙ read_field bytes rest 8 (λ x. ok (path_challenge x.0, x.1)) h
parses (path_response bytes) rest h e =
    typed 0x1b _ (omega arith) ∙ read_field bytes rest 8 (λ x. ok (path_response x.0, x.1)) h
parses (connection_close x y reason) rest h e =
    typed 0x1c _ (omega arith)
    ∙ next x _ (λ u. read_varint u.1 >>= λ v. parse_bytes (λ z. connection_close u.0 v.0 z) v.1) h.0
    ∙ next y _ (λ v. parse_bytes (λ z. connection_close x v.0 z) v.1) h.1
    ∙ data_of (λ z. connection_close x y z) reason rest h.2
parses (application_close x reason) rest h e =
    typed 0x1d _ (omega arith)
    ∙ next x _ (λ v. parse_bytes (λ z. application_close v.0 z) v.1) h.0
    ∙ data_of (λ z. application_close x z) reason rest h.1
parses handshake_done rest h e = typed 0x1e rest (omega arith)
parses (path_abandon x y reason) rest h e =
    typed 0x1522_8c05 _ (omega arith)
    ∙ next x _ (λ u. read_varint u.1 >>= λ v. parse_bytes (λ z. path_abandon u.0 v.0 z) v.1) h.0
    ∙ next y _ (λ v. parse_bytes (λ z. path_abandon x v.0 z) v.1) h.1
    ∙ data_of (λ z. path_abandon x y z) reason rest h.2
parses (path_status x y z) rest h e =
    typed 0x1522_8c06 _ (omega arith) ∙ three (λ x y z. path_status x y z) x y z rest h.0 h.1 h.2
parses (datagram bytes) rest h e = typed 0x31 _ (omega arith) ∙ datagram_back bytes rest h
