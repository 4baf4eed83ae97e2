-- ===== src/Frame/Image.antt =====
-- The bytes that the calls of the encoder in src/frame.rs append.
use tquic.Base.{ℕ, ◌+◌, ◌-◌, ◌%◌, ◌^◌, ◌≤◌, ◌<◌, ◌≡◌, refl, ap, sym, ◌∙◌, arith}
use tquic.Base.{
  List, [], ◌∷◌, ◌++◌, length, leb, if◌then◌else◌, bit_or, length-append, le→ltb, le→leb, lt→leb,
}
use mathlib.Core.List.{append-nil, append_assoc}
use native.Mathlib.Decide.{dec_le}
use tquic.Error.{ok, ◌>>=◌}
use tquic.Codec.{
  Writer, put, be16, be32, be64, write, write_u8, write_varint, write_varint_with_len,
  encode_varint_len, read_varint,
}
use tquic.Codec.Varint.{back1, back2, back4, back8}
use tquic.Frame.{Write, varint, varint_with_len, octet, slice, unwrapped, run_write, run_writes}

-- The shortest encoding of a number.
unfoldable pub bytes_of : ℕ → List ℕ
bytes_of n =
    if leb n 63
    then n % 2 ^ 8 ∷ []
    else if leb n 16383
    then be16 (bit_or (n % 2 ^ 16) 0x4000)
    else if leb n 1_073_741_823
    then be32 (bit_or (n % 2 ^ 32) 0x8000_0000)
    else be64 (bit_or n 0xc000_0000_0000_0000)

pub read_varint-bytes_of :
    (n : ℕ) (r : List ℕ) → n < 2 ^ 62 → read_varint (bytes_of n ++ r) ≡ ok (n, r)
unfolding bytes_of
read_varint-bytes_of n r h = elim (dec_le n 63) [
  | yes a ↦ rw (le→leb n 63 a) (back1 n r (omega arith))
  | no a ↦ elim (dec_le n 16383) [
    | yes b ↦ rw (lt→leb n 63 (omega arith), le→leb n 16383 b) (back2 n r (omega arith))
    | no b ↦ elim (dec_le n 1_073_741_823) [
      | yes c ↦
          rw (lt→leb n 63 (omega arith), lt→leb n 16383 (omega arith), le→leb n 1_073_741_823 c)
            (back4 n r (omega arith))
      | no c ↦
          rw
            (
              lt→leb n 63 (omega arith),
              lt→leb n 16383 (omega arith),
              lt→leb n 1_073_741_823 (omega arith),
            )
            (back8 n r h)
    ]
  ]
]

pub encode_varint_len-bytes_of :
    (n : ℕ) → n < 2 ^ 62 → encode_varint_len n ≡ ok (length (bytes_of n))
unfolding bytes_of encode_varint_len
encode_varint_len-bytes_of n h = ground arith

pub write_varint-bytes_of :
    (n : ℕ) (w : Writer)
    → n < 2 ^ 62
    → length (bytes_of n) ≤ w.room
    → write_varint n w ≡ ok (length (bytes_of n), put w (bytes_of n))
unfolding bytes_of write_varint
write_varint-bytes_of n w h room = ground arith

-- What a call appends.
unfoldable pub image_of : Write → List ℕ
image_of (varint n) = bytes_of n
image_of (varint_with_len n len) = be16 (bit_or (n % 2 ^ 16) 0x4000)
image_of (octet n) = n ∷ []
image_of (slice bytes) = bytes
image_of unwrapped = []

-- The calls that append it: numbers fit their encoding.
unfoldable pub IsWritable : Write → Type 0
IsWritable (varint n) = n < 2 ^ 62
IsWritable (varint_with_len n len) = (n < 2 ^ 14) × (len ≡ 2)
IsWritable (octet n) = n < 2 ^ 8
IsWritable (slice bytes) = Unit {0}
IsWritable unwrapped = ⊥

unfoldable pub AreWritable : List Write → Type 0
AreWritable [] = Unit {0}
AreWritable (c ∷ cs) = IsWritable c × AreWritable cs

-- All that a row of calls appends, in front of `rest`.
unfoldable pub image : List Write → List ℕ → List ℕ
image [] rest = rest
image (c ∷ cs) rest = image_of c ++ image cs rest

pub image-append : (cs : List Write) (rest : List ℕ) → image cs rest ≡ image cs [] ++ rest
unfolding image
image-append [] rest = refl
image-append (c ∷ cs) rest =
    ap (λ z. image_of c ++ z) (image-append cs rest)
    ∙ sym (append_assoc (image_of c) (image cs []) rest)

run_write-image_of :
    (c : Write) (w : Writer)
    → IsWritable c
    → length (image_of c) ≤ w.room
    → run_write c w ≡ ok (length (image_of c), put w (image_of c))
unfolding image_of IsWritable run_write write_varint_with_len write_u8 write
run_write-image_of (varint n) w h room = write_varint-bytes_of n w h room
run_write-image_of (varint_with_len n len) w h room = rw (h.1, le→ltb w.room 2 room) refl
run_write-image_of (octet n) w h room = rw (le→ltb w.room 1 room) refl
run_write-image_of (slice bytes) w h room = rw (le→ltb w.room (length bytes) room) refl
run_write-image_of unwrapped w h room = absurd h

-- The number of bytes.
unfoldable pub size : List Write → ℕ
size [] = 0
size (c ∷ cs) = length (image_of c) + size cs

pub length-image :
    (cs : List Write) (rest : List ℕ) → length (image cs rest) ≡ size cs + length rest
unfolding image size
length-image [] rest = omega arith
length-image (c ∷ cs) rest =
    omega (arith, length-append (image_of c) (image cs rest), length-image cs rest)

put-nil : (w : Writer) → put w [] ≡ w
put-nil w =
    let e : w.room - 0 ≡ w.room = omega arith in
    ap (λ z. record { written = w.written ++ []; room = z }) e
    ∙ ap (λ z. record { written = z; room = w.room }) (append-nil w.written)

put-put : (w : Writer) (xs ys : List ℕ) → put (put w xs) ys ≡ put w (xs ++ ys)
put-put w xs ys =
    let e : w.room - length xs - length ys ≡ w.room - length (xs ++ ys) =
      omega (arith, length-append xs ys) in
    ap (λ z. record { written = z; room = w.room - length xs - length ys })
      (append_assoc w.written xs ys)
    ∙ ap (λ z. record { written = w.written ++ (xs ++ ys); room = z }) e

-- A writer with the room for it gets all the bytes.
pub run_writes-image :
    (cs : List Write) (w : Writer)
    → AreWritable cs
    → length (image cs []) ≤ w.room
    → run_writes cs w ≡ ok (put w (image cs []))
unfolding image run_writes AreWritable
run_writes-image [] w h room = ap (λ z. ok z) (sym (put-nil w))
run_writes-image (c ∷ cs) w h room =
    let l = length-append (image_of c) (image cs []) in
    ap (λ z. z >>= (λ x. run_writes cs x.1)) (run_write-image_of c w h.0 (omega (arith, l)))
    ∙ run_writes-image cs (put w (image_of c)) h.1 (omega (arith, l))
    ∙ ap (λ z. ok z) (put-put w (image_of c) (image cs []))
