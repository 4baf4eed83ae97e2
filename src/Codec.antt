-- ===== src/Codec.antt =====
-- src/codec.rs: integers, byte strings and QUIC varints in a buffer.
-- A reader is the list of the bytes left, and a writer the bytes written with the room left.
pub mod Bytes
pub mod Varint
pub mod Safe
mod Runs
use tquic.Base.{ℕ, ◌+◌, ◌-◌, ◌*◌, ◌/◌, ◌%◌, ◌^◌, Bool, true, false, List, [], ◌∷◌, ◌++◌}
use tquic.Base.{ltb, leb, ◌==◌, if◌then◌else◌, length, take, drop, bit_or, bit_and}
use tquic.Error.{Error, Result, ok, err, panic, buffer_too_short, ◌>>=◌}

-- `&mut [u8]` as an `Encoder`.
pub record Writer : Type 0 where
  pub written : List ℕ
  pub room : ℕ

-- `BufMut::put_slice`, after a check of the room.
abbrev pub put : Writer → List ℕ → Writer
put w bytes = record { written = w.written ++ bytes; room = w.room - length bytes }

-- The check that begins each operation of `Encoder`, and the write of `len` bytes that follows.
abbrev pub put_checked : ℕ → List ℕ → Writer → Result (ℕ × Writer)
put_checked len bytes w = if ltb w.room len then err buffer_too_short else ok (len, put w bytes)

-- Big-endian bytes of a word.
abbrev pub byte : ℕ → ℕ → ℕ
byte n k = n / 2 ^ k % 2 ^ 8

abbrev pub be16 : ℕ → List ℕ
be16 n = byte n 8 ∷ byte n 0 ∷ []

abbrev pub be32 : ℕ → List ℕ
be32 n = byte n 24 ∷ byte n 16 ∷ byte n 8 ∷ byte n 0 ∷ []

abbrev pub be64 : ℕ → List ℕ
be64 n =
    byte n 56 ∷ byte n 48 ∷ byte n 40 ∷ byte n 32 ∷ byte n 24 ∷ byte n 16 ∷ byte n 8 ∷ byte n 0 ∷ []

unfoldable pub write_u8 : ℕ → Writer → Result (ℕ × Writer)
write_u8 n = put_checked 1 (n ∷ [])

unfoldable pub write_u16 : ℕ → Writer → Result (ℕ × Writer)
write_u16 n = put_checked 2 (be16 n)

-- `((n & 0x00FF_0000) >> 16) as u8`, then `(n & 0xFFFF) as u16`.
unfoldable pub write_u24 : ℕ → Writer → Result (ℕ × Writer)
write_u24 n =
    put_checked 3 (bit_and n 0x00ff_0000 / 2 ^ 16 % 2 ^ 8 ∷ be16 (bit_and n 0xffff % 2 ^ 16))

unfoldable pub write_u32 : ℕ → Writer → Result (ℕ × Writer)
write_u32 n = put_checked 4 (be32 n)

unfoldable pub write_u64 : ℕ → Writer → Result (ℕ × Writer)
write_u64 n = put_checked 8 (be64 n)

-- `encode_varint_len`.
unfoldable pub encode_varint_len : ℕ → Result ℕ
encode_varint_len n =
    if leb n 63
    then ok 1
    else if leb n 16383
    then ok 2
    else if leb n 1_073_741_823
    then ok 4
    else if leb n 4_611_686_018_427_387_903
    then ok 8
    else panic

-- The bytes of `n` at a length of the varint encoding.
unfoldable pub varint_bytes : ℕ → ℕ → Result (List ℕ)
varint_bytes n len =
    if len == 1
    then ok (n % 2 ^ 8 ∷ [])
    else if len == 2
    then ok (be16 (bit_or (n % 2 ^ 16) 0x4000))
    else if len == 4
    then ok (be32 (bit_or (n % 2 ^ 32) 0x8000_0000))
    else if len == 8
    then ok (be64 (bit_or n 0xc000_0000_0000_0000))
    else panic

unfoldable pub write_varint_with_len : ℕ → ℕ → Writer → Result (ℕ × Writer)
unfolding varint_bytes
write_varint_with_len n len w =
    if ltb w.room len
    then err buffer_too_short
    else do bytes ← varint_bytes n len; ok (len, put w bytes)

unfoldable pub write_varint : ℕ → Writer → Result (ℕ × Writer)
unfolding encode_varint_len write_varint_with_len
write_varint n w = do len ← encode_varint_len n; write_varint_with_len n len w

-- `Encoder::write`; the octets of an IP address are 4 or 16 bytes.
unfoldable pub write : List ℕ → Writer → Result (ℕ × Writer)
write src = put_checked (length src) src

unfoldable pub read_u8 : List ℕ → Result (ℕ × List ℕ)
read_u8 [] = err buffer_too_short
read_u8 (a ∷ r) = ok (a, r)

unfoldable pub read_u16 : List ℕ → Result (ℕ × List ℕ)
read_u16 (a ∷ b ∷ r) = ok (a * 2 ^ 8 + b, r)
read_u16 _ = err buffer_too_short

unfoldable pub read_u24 : List ℕ → Result (ℕ × List ℕ)
read_u24 (a ∷ b ∷ c ∷ r) = ok ((a * 2 ^ 8 + b) * 2 ^ 8 % 2 ^ 32 + c, r)
read_u24 _ = err buffer_too_short

unfoldable pub read_u32 : List ℕ → Result (ℕ × List ℕ)
read_u32 (a ∷ b ∷ c ∷ d ∷ r) = ok (((a * 2 ^ 8 + b) * 2 ^ 8 + c) * 2 ^ 8 + d, r)
read_u32 _ = err buffer_too_short

unfoldable pub read_u64 : List ℕ → Result (ℕ × List ℕ)
read_u64 (a ∷ b ∷ c ∷ d ∷ e ∷ f ∷ g ∷ h ∷ r) = ok (
  ((((((((a * 2 ^ 8 + b) * 2 ^ 8 + c) * 2 ^ 8 + d) * 2 ^ 8 + e) * 2 ^ 8 + f) * 2 ^ 8) + g) * 2 ^ 8)
      + h,
  r,
)
read_u64 _ = err buffer_too_short

unfoldable pub decode_varint_len : ℕ → Result ℕ
decode_varint_len first =
    let top = first / 2 ^ 6 in
    if top == 0
    then ok 1
    else if top == 1
    then ok 2
    else if top == 2
    then ok 4
    else if top == 3
    then ok 8
    else panic

-- The arms of `read_varint`.
unfoldable pub read_varint_with_len : ℕ → List ℕ → Result (ℕ × List ℕ)
unfolding read_u8 read_u16 read_u32 read_u64
read_varint_with_len len buf =
    if len == 1
    then read_u8 buf
    else if len == 2
    then (do (n, r) ← read_u16 buf; ok (bit_and n 0x3fff, r))
    else if len == 4
    then (do (n, r) ← read_u32 buf; ok (bit_and n 0x3fff_ffff, r))
    else if len == 8
    then (do (n, r) ← read_u64 buf; ok (bit_and n 0x3fff_ffff_ffff_ffff, r))
    else panic

unfoldable pub read_varint : List ℕ → Result (ℕ × List ℕ)
unfolding decode_varint_len read_varint_with_len
read_varint [] = err buffer_too_short
read_varint (first ∷ r) = do
  len ← decode_varint_len first
  (if ltb (length (first ∷ r)) len
      then err buffer_too_short
      else read_varint_with_len len (first ∷ r))

-- `Decoder::read`; an IP address is read as 4 or 16 bytes.
unfoldable pub read : ℕ → List ℕ → Result (List ℕ × List ℕ)
read len buf =
    if ltb (length buf) len then err buffer_too_short else ok (take len buf, drop len buf)

unfoldable pub read_with_varint_length : List ℕ → Result (List ℕ × List ℕ)
unfolding read_varint read
read_with_varint_length buf = do (len, r) ← read_varint buf; read len r

unfoldable pub read_with_u8_length : List ℕ → Result (List ℕ × List ℕ)
unfolding read_u8 read
read_with_u8_length buf = do (len, r) ← read_u8 buf; read len r

unfoldable pub skip : ℕ → List ℕ → Result (Unit {0} × List ℕ)
skip len buf = if ltb (length buf) len then err buffer_too_short else ok (tt, drop len buf)
