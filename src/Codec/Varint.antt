-- ===== src/Codec/Varint.antt =====
-- The variable-length integers of src/codec.rs (RFC 9000, section 16).
use tquic.Base.{ℕ, suc, ◌+◌, ◌*◌, ◌/◌, ◌%◌, ◌^◌, ◌≤◌, ◌<◌, ◌≡◌, refl, ap, ◌∙◌, arith}
use tquic.Base.{List, [], ◌∷◌, ◌++◌, ltb, if◌then◌else◌, length, bit_and, bit_or, le→ltb, lt→ltb}
use tquic.Base.{◌⊎◌, inl, inr}
use native.Mathlib.Decide.{dec_le}
use tquic.Base.Fields.{bit_and_low, bit_or_fields}
use tquic.Error.{Result, ok, err, panic, buffer_too_short, ◌>>=◌}
use tquic.Codec.{
  Writer, be16, be32, be64, byte, decode_varint_len, encode_varint_len, read_varint,
  read_varint_with_len, write_varint_with_len, write_varint,
}
use tquic.Codec.Bytes.{WroteBack, read_u16-be16, read_u32-be32, read_u64-be64}

-- The length prefix in the top two bits of the first byte.
pub read_varint-first :
    (first len : ℕ) (r : List ℕ)
    → decode_varint_len first ≡ ok len
    → len ≤ length r + 1
    → read_varint (first ∷ r) ≡ read_varint_with_len len (first ∷ r)
unfolding read_varint
read_varint-first first len r e h =
    ap (λ t. t >>= body) e
    ∙ ap (λ b. if b then err buffer_too_short else read_varint_with_len len (first ∷ r))
        (le→ltb (suc (length r)) len (omega arith))
  where
    body : ℕ → Result (ℕ × List ℕ)
    body len' =
        if ltb (length (first ∷ r)) len'
        then err buffer_too_short
        else read_varint_with_len len' (first ∷ r)

pub read_varint_short :
    (first len : ℕ) (r : List ℕ)
    → decode_varint_len first ≡ ok len
    → length r + 1 < len
    → read_varint (first ∷ r) ≡ err buffer_too_short
unfolding read_varint
read_varint_short first len r e h =
    ap (λ t. t >>= body) e
    ∙ ap (λ b. if b then err buffer_too_short else read_varint_with_len len (first ∷ r))
        (lt→ltb (suc (length r)) len (omega arith))
  where
    body : ℕ → Result (ℕ × List ℕ)
    body len' =
        if ltb (length (first ∷ r)) len'
        then err buffer_too_short
        else read_varint_with_len len' (first ∷ r)

pub back1 : (n : ℕ) (rest : List ℕ) → n < 2 ^ 6 → read_varint (n % 2 ^ 8 ∷ rest) ≡ ok (n, rest)
unfolding read_varint
back1 n rest h = ground arith

-- 2 bytes carry 14 bits.
tag2 : (n : ℕ) → n < 2 ^ 14 → bit_or (n % 2 ^ 16) 0x4000 ≡ 1 * 2 ^ 14 + n
tag2 n h = ap (λ t. bit_or t 0x4000) {x = n % 2 ^ 16} {y = n} (omega arith) ∙ bit_or_fields 1 n 14 h

decode2 : (n : ℕ) → n < 2 ^ 14 → decode_varint_len (byte (1 * 2 ^ 14 + n) 8) ≡ ok 2
unfolding decode_varint_len
decode2 n h = let top : byte (1 * 2 ^ 14 + n) 8 / 2 ^ 6 ≡ 1 = omega arith in rw top

arm2 :
    (n : ℕ) (rest : List ℕ)
    → n < 2 ^ 14
    → read_varint_with_len 2 (be16 (1 * 2 ^ 14 + n) ++ rest) ≡ ok (n, rest)
unfolding read_varint_with_len
arm2 n rest h =
    let low : (1 * 2 ^ 14 + n) % 2 ^ 14 ≡ n = omega arith in
    ap (λ t. t >>= λ p. ok (bit_and p.0 0x3fff, p.1))
      (read_u16-be16 (1 * 2 ^ 14 + n) rest (omega arith))
    ∙ ap (λ t. ok (t, rest)) (bit_and_low (1 * 2 ^ 14 + n) 14 ∙ low)

pub back2 :
    (n : ℕ) (rest : List ℕ)
    → n < 2 ^ 14
    → read_varint (be16 (bit_or (n % 2 ^ 16) 0x4000) ++ rest) ≡ ok (n, rest)
back2 n rest h =
    ap (λ t. read_varint (be16 t ++ rest)) (tag2 n h)
    ∙ read_varint-first (byte (1 * 2 ^ 14 + n) 8) 2 _ (decode2 n h) (omega arith)
    ∙ arm2 n rest h

-- 4 bytes carry 30 bits.
tag4 : (n : ℕ) → n < 2 ^ 30 → bit_or (n % 2 ^ 32) 0x8000_0000 ≡ 2 * 2 ^ 30 + n
tag4 n h =
    ap (λ t. bit_or t 0x8000_0000) {x = n % 2 ^ 32} {y = n} (omega arith) ∙ bit_or_fields 2 n 30 h

decode4 : (n : ℕ) → n < 2 ^ 30 → decode_varint_len (byte (2 * 2 ^ 30 + n) 24) ≡ ok 4
unfolding decode_varint_len
decode4 n h = let top : byte (2 * 2 ^ 30 + n) 24 / 2 ^ 6 ≡ 2 = omega arith in rw top

arm4 :
    (n : ℕ) (rest : List ℕ)
    → n < 2 ^ 30
    → read_varint_with_len 4 (be32 (2 * 2 ^ 30 + n) ++ rest) ≡ ok (n, rest)
unfolding read_varint_with_len
arm4 n rest h =
    let low : (2 * 2 ^ 30 + n) % 2 ^ 30 ≡ n = omega arith in
    ap (λ t. t >>= λ p. ok (bit_and p.0 0x3fff_ffff, p.1))
      (read_u32-be32 (2 * 2 ^ 30 + n) rest (omega arith))
    ∙ ap (λ t. ok (t, rest)) (bit_and_low (2 * 2 ^ 30 + n) 30 ∙ low)

pub back4 :
    (n : ℕ) (rest : List ℕ)
    → n < 2 ^ 30
    → read_varint (be32 (bit_or (n % 2 ^ 32) 0x8000_0000) ++ rest) ≡ ok (n, rest)
back4 n rest h =
    ap (λ t. read_varint (be32 t ++ rest)) (tag4 n h)
    ∙ read_varint-first (byte (2 * 2 ^ 30 + n) 24) 4 _ (decode4 n h) (omega arith)
    ∙ arm4 n rest h

-- 8 bytes carry 62 bits.
tag8 : (n : ℕ) → n < 2 ^ 62 → bit_or n 0xc000_0000_0000_0000 ≡ 3 * 2 ^ 62 + n
tag8 n h = bit_or_fields 3 n 62 h

decode8 : (n : ℕ) → n < 2 ^ 62 → decode_varint_len (byte (3 * 2 ^ 62 + n) 56) ≡ ok 8
unfolding decode_varint_len
decode8 n h = let top : byte (3 * 2 ^ 62 + n) 56 / 2 ^ 6 ≡ 3 = omega arith in rw top

arm8 :
    (n : ℕ) (rest : List ℕ)
    → n < 2 ^ 62
    → read_varint_with_len 8 (be64 (3 * 2 ^ 62 + n) ++ rest) ≡ ok (n, rest)
unfolding read_varint_with_len
arm8 n rest h =
    let low : (3 * 2 ^ 62 + n) % 2 ^ 62 ≡ n = omega arith in
    ap (λ t. t >>= λ p. ok (bit_and p.0 0x3fff_ffff_ffff_ffff, p.1))
      (read_u64-be64 (3 * 2 ^ 62 + n) rest (omega arith))
    ∙ ap (λ t. ok (t, rest)) (bit_and_low (3 * 2 ^ 62 + n) 62 ∙ low)

pub back8 :
    (n : ℕ) (rest : List ℕ)
    → n < 2 ^ 62
    → read_varint (be64 (bit_or n 0xc000_0000_0000_0000) ++ rest) ≡ ok (n, rest)
back8 n rest h =
    ap (λ t. read_varint (be64 t ++ rest)) (tag8 n h)
    ∙ read_varint-first (byte (3 * 2 ^ 62 + n) 56) 8 _ (decode8 n h) (omega arith)
    ∙ arm8 n rest h

-- Whether `n` fits a length of the encoding.
pub data Fits (n : ℕ) : ℕ → Type 0 where
  one : n < 2 ^ 6 → Fits n 1
  two : n < 2 ^ 14 → Fits n 2
  four : n < 2 ^ 30 → Fits n 4
  eight : n < 2 ^ 62 → Fits n 8

-- With the room for it, `write_varint_with_len` writes `len` bytes, and `read_varint` gets the
-- value back from them, whatever follows; the length need not be the shortest.
pub write_varint_with_len-WroteBack :
    (n len : ℕ) (w : Writer)
    → Fits n len
    → len ≤ w.room
    → WroteBack len n w (write_varint_with_len n len w) read_varint
unfolding write_varint_with_len
write_varint_with_len-WroteBack n len w (one h) room = record {
  bytes = n % 2 ^ 8 ∷ [];
  wrote = rw (le→ltb w.room 1 room);
  width = refl;
  back = λ rest. back1 n rest h;
}
write_varint_with_len-WroteBack n len w (two h) room = record {
  bytes = be16 (bit_or (n % 2 ^ 16) 0x4000);
  wrote = rw (le→ltb w.room 2 room);
  width = refl;
  back = λ rest. back2 n rest h;
}
write_varint_with_len-WroteBack n len w (four h) room = record {
  bytes = be32 (bit_or (n % 2 ^ 32) 0x8000_0000);
  wrote = rw (le→ltb w.room 4 room);
  width = refl;
  back = λ rest. back4 n rest h;
}
write_varint_with_len-WroteBack n len w (eight h) room = record {
  bytes = be64 (bit_or n 0xc000_0000_0000_0000);
  wrote = rw (le→ltb w.room 8 room);
  width = refl;
  back = λ rest. back8 n rest h;
}

at_most_1 : (n len : ℕ) → Fits n len → 1 ≤ len
at_most_1 n len (one p) = omega arith
at_most_1 n len (two p) = omega arith
at_most_1 n len (four p) = omega arith
at_most_1 n len (eight p) = omega arith

at_most_2 : (n len : ℕ) → Fits n len → 63 < n → 2 ≤ len
at_most_2 n len (one p) q = absurd (omega arith)
at_most_2 n len (two p) q = omega arith
at_most_2 n len (four p) q = omega arith
at_most_2 n len (eight p) q = omega arith

at_most_4 : (n len : ℕ) → Fits n len → 16383 < n → 4 ≤ len
at_most_4 n len (one p) q = absurd (omega arith)
at_most_4 n len (two p) q = absurd (omega arith)
at_most_4 n len (four p) q = omega arith
at_most_4 n len (eight p) q = omega arith

at_most_8 : (n len : ℕ) → Fits n len → 1_073_741_823 < n → 8 ≤ len
at_most_8 n len (one p) q = absurd (omega arith)
at_most_8 n len (two p) q = absurd (omega arith)
at_most_8 n len (four p) q = absurd (omega arith)
at_most_8 n len (eight p) q = omega arith

Fits-small : (n len : ℕ) → Fits n len → n < 2 ^ 62
Fits-small n len (one p) = omega arith
Fits-small n len (two p) = omega arith
Fits-small n len (four p) = omega arith
Fits-small n len (eight p) = p

-- `encode_varint_len` gives the shortest length that `n` fits: no length that it fits is shorter.
pub encode_varint_len-Fits :
    (n len' : ℕ)
    → Fits n len'
    → (len : ℕ) × (encode_varint_len n ≡ ok len) × Fits n len × (len ≤ len')
unfolding encode_varint_len
encode_varint_len-Fits n len' f = elim (dec_le n 63) [
  | yes a ↦ (1, ground arith, one (omega arith), at_most_1 n len' f)
  | no a ↦ elim (dec_le n 16383) [
    | yes b ↦ (2, ground arith, two (omega arith), at_most_2 n len' f (omega arith))
    | no b ↦ elim (dec_le n 1_073_741_823) [
      | yes c ↦ (4, ground arith, four (omega arith), at_most_4 n len' f (omega arith))
      | no c ↦ (
        8,
        ground (arith, Fits-small n len' f),
        eight (Fits-small n len' f),
        at_most_8 n len' f (omega arith),
      )
    ]
  ]
]

-- For `n` up to `VINT_MAX` and a writer with eight bytes of room, `write_varint` writes an
-- encoding of `n`, and `read_varint` gets `n` back from it, whatever follows.
pub write_varint-WroteBack :
    (n : ℕ) (w : Writer)
    → n < 2 ^ 62
    → 8 ≤ w.room
    → (len : ℕ) × Fits n len × WroteBack len n w (write_varint n w) read_varint
unfolding write_varint
write_varint-WroteBack n w h room =
    let (len, e, f, least) = encode_varint_len-Fits n 8 (eight h) in
    (len, f, rw e (write_varint_with_len-WroteBack n len w f (fits_room len f)))
  where
    fits_room : (len : ℕ) → Fits n len → len ≤ w.room
    fits_room len (one p) = omega arith
    fits_room len (two p) = omega arith
    fits_room len (four p) = omega arith
    fits_room len (eight p) = omega arith

mask_bounds :
    (n : ℕ)
    → (bit_and n 0x3fff < 2 ^ 62)
      × (bit_and n 0x3fff_ffff < 2 ^ 62)
      × (bit_and n 0x3fff_ffff_ffff_ffff < 2 ^ 62)
mask_bounds n = omega (arith, bit_and_low n 14, bit_and_low n 30, bit_and_low n 62)

-- What reading one number off `buf` may come to: too few bytes, or a number below 2^62 and a
-- proper rest.
abbrev pub Reads : List ℕ → Result (ℕ × List ℕ) → Type 0
Reads buf (ok (n, r)) = (n < 2 ^ 62) × (length r < length buf)
Reads buf (err e) = e ≡ buffer_too_short
Reads buf panic = ⊥

arm1-Reads : (a : ℕ) (r : List ℕ) → a < 256 → Reads (a ∷ r) (read_varint_with_len 1 (a ∷ r))
unfolding read_varint_with_len
arm1-Reads a r h = (omega arith, omega arith)

arm2-Reads : (buf : List ℕ) → Reads buf (read_varint_with_len 2 buf)
unfolding read_varint_with_len
arm2-Reads (a ∷ b ∷ r) = (omega (arith, mask_bounds), omega arith)
arm2-Reads (a ∷ []) = refl
arm2-Reads [] = refl

arm4-Reads : (buf : List ℕ) → Reads buf (read_varint_with_len 4 buf)
unfolding read_varint_with_len
arm4-Reads (a ∷ b ∷ c ∷ d ∷ r) = (omega (arith, mask_bounds), omega arith)
arm4-Reads (a ∷ b ∷ c ∷ []) = refl
arm4-Reads (a ∷ b ∷ []) = refl
arm4-Reads (a ∷ []) = refl
arm4-Reads [] = refl

arm8-Reads : (buf : List ℕ) → Reads buf (read_varint_with_len 8 buf)
unfolding read_varint_with_len
arm8-Reads (a ∷ b ∷ c ∷ d ∷ e ∷ f ∷ g ∷ h ∷ r) = (omega (arith, mask_bounds), omega arith)
arm8-Reads (a ∷ b ∷ c ∷ d ∷ e ∷ f ∷ g ∷ []) = refl
arm8-Reads (a ∷ b ∷ c ∷ d ∷ e ∷ f ∷ []) = refl
arm8-Reads (a ∷ b ∷ c ∷ d ∷ e ∷ []) = refl
arm8-Reads (a ∷ b ∷ c ∷ d ∷ []) = refl
arm8-Reads (a ∷ b ∷ c ∷ []) = refl
arm8-Reads (a ∷ b ∷ []) = refl
arm8-Reads (a ∷ []) = refl
arm8-Reads [] = refl

-- The first byte decides the length.
pub decode_varint_len_cases :
    (first : ℕ)
    → first < 256
    → (decode_varint_len first ≡ ok 1)
      ⊎ ((decode_varint_len first ≡ ok 2)
          ⊎ ((decode_varint_len first ≡ ok 4) ⊎ (decode_varint_len first ≡ ok 8)))
unfolding decode_varint_len
decode_varint_len_cases first h = grind arith

-- On any bytes `read_varint` does not panic: it reports that the buffer is too short, or reads a
-- number below 2^62 and leaves fewer bytes than it was given.
pub read_varint-Reads :
    (first : ℕ) (r : List ℕ) → first < 256 → Reads (first ∷ r) (read_varint (first ∷ r))
read_varint-Reads first r h = elim (decode_varint_len_cases first h) [
  | inl e ↦ at 1 e (arm1-Reads first r h)
  | inr (inl e) ↦ at 2 e (arm2-Reads (first ∷ r))
  | inr (inr (inl e)) ↦ at 4 e (arm4-Reads (first ∷ r))
  | inr (inr (inr e)) ↦ at 8 e (arm8-Reads (first ∷ r))
]
  where
    at :
        (len : ℕ)
        → decode_varint_len first ≡ ok len
        → Reads (first ∷ r) (read_varint_with_len len (first ∷ r))
        → Reads (first ∷ r) (read_varint (first ∷ r))
    at len e got = elim (dec_le len (length r + 1)) [
      | yes enough ↦ rw (read_varint-first first len r e enough) got
      | no short ↦ rw (read_varint_short first len r e (omega arith)) refl
    ]
