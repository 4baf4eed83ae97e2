-- ===== src/Frame/SafeArms.antt =====
-- The arms of `from_bytes` of src/frame.rs on any bytes.
use tquic.Base.{ℕ, zero, suc, ◌+◌, ◌-◌, ◌%◌, ◌^◌, ◌≤◌, arith, Bool, true, false, not}
use tquic.Base.{
  List, [], ◌∷◌, length, ltb, leb, ◌==◌, if◌then◌else◌, bit_and, inl, inr, Bool-cases, length-drop,
}
use tquic.Error.{Result, ok, ◌>>=◌}
use tquic.Ranges.{RangeSet}
use tquic.Ranges as R
use tquic.Codec.{read, read_varint, read_with_varint_length, skip}
use tquic.Codec.Safe.{
  AreBytes, short, encoding, Safe, bind-Safe, Left, Rest, drop-AreBytes, read_varint-Safe,
  read-Safe, read_with_varint_length-Safe, read_with_u8_length-Safe,
}
use tquic.SendBuf.{no_ranges}
use tquic.Frame.{Frame, crypto, stream, datagram}
use tquic.Frame.Parse.{
  one_num, two_nums, three_nums, parse_bytes, parse_path, take_data, parse_crypto, parse_stream,
  parse_new_connection_id, parse_datagram, skip_padding, parse_blocks, parse_ecn, parse_ack,
  parse_ack_frame, max_stream_size,
}

pub if-Safe :
    {A : Type 0}
    → (Q : A → Type 0) (c : Bool) (x y : Result A) → Safe Q x
    → Safe Q y
    → Safe Q (if c then x else y)
if-Safe Q true x y h k = h
if-Safe Q false x y h k = k

pub num :
    {B : Type 0}
    → (Q : B → Type 0) (buf b : List ℕ) (k : ℕ × List ℕ → Result B) → Left buf b
    → ((z : ℕ × List ℕ) → Left buf z.1 → Safe Q (k z))
    → Safe Q (read_varint b >>= k)
num Q buf b k h f = bind-Safe (Rest buf) Q (read_varint b) k (read_varint-Safe buf b h) f

pub take_data-Safe : (n : ℕ) (buf b : List ℕ) → Left buf b → Safe (Rest buf) (take_data n b)
unfolding take_data
take_data-Safe n buf b h =
    if-Safe (Rest buf) (ltb (length b) n) _ _ short
      (drop-AreBytes n b h.0, omega (arith, h.1, length-drop n b))

pub one-Safe : (f : ℕ → Frame) (buf b : List ℕ) → Left buf b → Safe (Rest buf) (one_num f b)
one-Safe f buf b h = num (Rest buf) buf b (λ z. ok (f z.0, z.1)) h (λ z l. l)

pub two-Safe : (f : ℕ → ℕ → Frame) (buf b : List ℕ) → Left buf b → Safe (Rest buf) (two_nums f b)
two-Safe f buf b h =
    num (Rest buf) buf b (λ z. one_num (f z.0) z.1) h (λ z l. one-Safe (f z.0) buf z.1 l)

pub three-Safe :
    (f : ℕ → ℕ → ℕ → Frame) (buf b : List ℕ) → Left buf b → Safe (Rest buf) (three_nums f b)
three-Safe f buf b h =
    num (Rest buf) buf b (λ z. two_nums (f z.0) z.1) h (λ z l. two-Safe (f z.0) buf z.1 l)

pub bytes-Safe :
    (f : List ℕ → Frame) (buf b : List ℕ) → Left buf b → Safe (Rest buf) (parse_bytes f b)
bytes-Safe f buf b h =
    bind-Safe (Rest buf) (Rest buf) (read_with_varint_length b) (λ z. ok (f z.0, z.1))
      (read_with_varint_length-Safe buf b h) (λ z l. l)

pub num_bytes-Safe :
    (f : ℕ → List ℕ → Frame) (buf b : List ℕ)
    → Left buf b
    → Safe (Rest buf) (read_varint b >>= λ z. parse_bytes (f z.0) z.1)
num_bytes-Safe f buf b h =
    num (Rest buf) buf b (λ z. parse_bytes (f z.0) z.1) h (λ z l. bytes-Safe (f z.0) buf z.1 l)

pub nums_bytes-Safe :
    (f : ℕ → ℕ → List ℕ → Frame) (buf b : List ℕ)
    → Left buf b
    → Safe (Rest buf) (read_varint b >>= λ z. read_varint z.1 >>= λ u. parse_bytes (f z.0 u.0) u.1)
nums_bytes-Safe f buf b h =
    num (Rest buf) buf b (λ z. read_varint z.1 >>= λ u. parse_bytes (f z.0 u.0) u.1) h
      (λ z l. num_bytes-Safe (f z.0) buf z.1 l)

pub path-Safe :
    (f : List ℕ → Frame) (buf b : List ℕ) → Left buf b → Safe (Rest buf) (parse_path f b)
path-Safe f buf b h =
    bind-Safe (Rest buf) (Rest buf) (read 8 b) (λ z. ok (f z.0, z.1)) (read-Safe 8 buf b h)
      (λ z l. l)

pub data-Safe :
    (f : List ℕ → Frame) (n : ℕ) (buf b : List ℕ)
    → Left buf b
    → Safe (Rest buf) (take_data n b >>= λ z. ok (f z.0, z.1))
data-Safe f n buf b h =
    bind-Safe (Rest buf) (Rest buf) (take_data n b) (λ z. ok (f z.0, z.1))
      (take_data-Safe n buf b h) (λ z l. l)

pub crypto-Safe : (buf b : List ℕ) → Left buf b → Safe (Rest buf) (parse_crypto b)
unfolding parse_crypto
crypto-Safe buf b h =
    num (Rest buf) buf b _ h
      (λ z l. num (Rest buf) buf z.1 _ l (λ u l. data-Safe (crypto z.0 u.0) u.0 buf u.1 l))

pub datagram-Safe : (buf b : List ℕ) → Left buf b → Safe (Rest buf) (parse_datagram b)
unfolding parse_datagram
datagram-Safe buf b h = num (Rest buf) buf b _ h (λ z l. data-Safe (λ x. datagram x) z.0 buf z.1 l)

pub stream-Safe : (first : ℕ) (buf b : List ℕ) → Left buf b → Safe (Rest buf) (parse_stream first b)
unfolding parse_stream
stream-Safe first buf b h = num (Rest buf) buf b _ h (λ z l.
    bind-Safe (Rest buf) (Rest buf) _ _
      (if-Safe (Rest buf) (bit_and first 0x04 == 0) (ok (0, z.1)) (read_varint z.1) l
        (read_varint-Safe buf z.1 l))
      (λ u l.
        bind-Safe (Rest buf) (Rest buf) _ _
          (if-Safe (Rest buf) (bit_and first 0x02 == 0) (ok (length u.1, u.1)) (read_varint u.1) l
            (read_varint-Safe buf u.1 l))
          (λ v l.
            if-Safe (Rest buf) (leb max_stream_size (u.0 + v.0)) _ _ encoding
              (data-Safe (stream z.0 u.0 v.0 (not (bit_and first 0x01 == 0))) v.0 buf v.1 l))))

pub cid-Safe : (buf b : List ℕ) → Left buf b → Safe (Rest buf) (parse_new_connection_id b)
unfolding parse_new_connection_id
cid-Safe buf b h = num (Rest buf) buf b _ h (λ z l. num (Rest buf) buf z.1 _ l (λ u l.
    bind-Safe (Rest buf) (Rest buf) _ _ (read_with_u8_length-Safe buf u.1 l)
      (λ v l. bind-Safe (Rest buf) (Rest buf) (read 16 v.1) _ (read-Safe 16 buf v.1 l) (λ w l. l))))

pub padding-Safe : (m : ℕ) (buf b : List ℕ) → Left buf b → Left buf (skip_padding m b).1
unfolding skip_padding
padding-Safe m buf [] h = h
padding-Safe m buf (x ∷ r) h = elim (Bool-cases (x == 0)) [
  | inl e ↦ rw e (padding-Safe (m + 1) buf r (h.0.1, omega (arith, h.1)))
  | inr e ↦ rw e h
]

pub blocks-Safe :
    (count smallest : ℕ) (set : RangeSet) (buf b : List ℕ)
    → Left buf b
    → Safe (Rest buf) (parse_blocks count smallest set b)
unfolding parse_blocks
blocks-Safe zero smallest set buf b h = h
blocks-Safe (suc count) smallest set buf b h = num (Rest buf) buf b _ h (λ z l.
    if-Safe (Rest buf) (ltb smallest (2 + z.0)) _ _ encoding (
      num (Rest buf) buf z.1 _ l (λ u l.
        if-Safe (Rest buf) (ltb (smallest - z.0 - 2) u.0) _ _ encoding
          (blocks-Safe count _ _ buf u.1 l))))

pub ecn-Safe : (first : ℕ) (buf b : List ℕ) → Left buf b → Safe (Rest buf) (parse_ecn first b)
unfolding parse_ecn
ecn-Safe first buf b h = if-Safe (Rest buf) (bit_and first 0x01 == 0) _ _ h (
    num (Rest buf) buf b _ h
      (λ z l. num (Rest buf) buf z.1 _ l (λ u l. num (Rest buf) buf u.1 _ l (λ v l. l))))

pub ack_frame-Safe :
    (t : ℕ) (b : List ℕ) → AreBytes b → Safe (λ z. z.1 ≤ length b) (parse_ack_frame t b)
unfolding parse_ack_frame
ack_frame-Safe t b h =
    let Q : Frame × ℕ → Type 0 = λ z. z.1 ≤ length b in
    num Q b b _ (h, omega arith)
      (λ z l. num Q b z.1 _ l (λ u l. num Q b u.1 _ l (λ v l. num Q b v.1 _ l (λ w l.
        if-Safe Q (ltb z.0 w.0) _ _ encoding (
          bind-Safe (Rest b) Q _ _
            (blocks-Safe v.0 (z.0 - w.0) (R.insert no_ranges (z.0 - w.0) (z.0 + 1)) b w.1 l)
            (λ c l.
              bind-Safe (Rest b) Q _ _ (ecn-Safe (t % 2 ^ 8) b c.1 l) (λ d l. omega arith)))))))

pub ack-Safe : (t : ℕ) (buf b : List ℕ) → Left buf b → Safe (Rest buf) (parse_ack t b)
unfolding parse_ack skip
ack-Safe t buf b h =
    bind-Safe (λ z. z.1 ≤ length b) (Rest buf) (parse_ack_frame t b) _ (ack_frame-Safe t b h.0)
      (λ z l.
        bind-Safe (Rest buf) (Rest buf) _ _
          (if-Safe (Rest buf) (ltb (length b) z.1) _ _ short
            (drop-AreBytes z.1 b h.0, omega (arith, h.1, length-drop z.1 b)))
          (λ u l. l))
