-- ===== src/Codec/Bytes.antt =====
-- Fixed-width integers and byte strings of src/codec.rs: what is written is read back.
use tquic.Base.{ℕ, ◌+◌, ◌*◌, ◌/◌, ◌%◌, ◌^◌, ◌≤◌, ◌<◌, ◌≡◌, refl, ap, arith}
use tquic.Base.{List, [], ◌∷◌, ◌++◌, length, take, drop, bit_and, length-append, le→ltb}
use tquic.Error.{Result, ok}
use tquic.Base.Fields.{bit_and_low, bit_and_field}
use tquic.Codec.{
  Writer, put, write_u8, write_u16, write_u24, write_u32, write_u64, write, read_u8, read_u16,
  read_u24, read_u32, read_u64, read, be16, be32, be64, byte,
}

-- A write that has the room for it appends bytes from which the read gets the value back.
pub record WroteBack {ℓ} {A : Type ℓ} (len : ℕ) (x : A) (w : Writer) (out : Result (ℕ × Writer))
    (rd : List ℕ → Result (A × List ℕ)) : Type ℓ where
  pub bytes : List ℕ
  pub wrote : out ≡ ok (len, put w bytes)
  pub width : length bytes ≡ len
  pub back : (rest : List ℕ) → rd (bytes ++ rest) ≡ ok (x, rest)

pub write_u8-WroteBack : (n : ℕ) (w : Writer) → 1 ≤ w.room → WroteBack 1 n w (write_u8 n w) read_u8
unfolding write_u8 read_u8
write_u8-WroteBack n w h = record {
  bytes = n ∷ [];
  wrote = rw (le→ltb w.room 1 h);
  width = refl;
  back = λ rest. refl;
}

join16 : (n : ℕ) → n < 2 ^ 16 → byte n 8 * 2 ^ 8 + byte n 0 ≡ n
join16 n h = omega arith

join32 :
    (n : ℕ)
    → n < 2 ^ 32
    → ((byte n 24 * 2 ^ 8 + byte n 16) * 2 ^ 8 + byte n 8) * 2 ^ 8 + byte n 0 ≡ n
join32 n h = omega arith

join64 :
    (n : ℕ)
    → n < 2 ^ 64
    → ((((((((byte n 56 * 2 ^ 8 + byte n 48) * 2 ^ 8 + byte n 40) * 2 ^ 8 + byte n 32) * 2 ^ 8
                    + byte n 24)
                  * 2 ^ 8
                + byte n 16)
              * 2 ^ 8)
            + byte n 8)
          * 2 ^ 8)
        + byte n 0
      ≡ n
join64 n h = omega arith

pub read_u16-be16 : (n : ℕ) (rest : List ℕ) → n < 2 ^ 16 → read_u16 (be16 n ++ rest) ≡ ok (n, rest)
unfolding read_u16
read_u16-be16 n rest h = ap (λ t. ok (t, rest)) (join16 n h)

pub read_u32-be32 : (n : ℕ) (rest : List ℕ) → n < 2 ^ 32 → read_u32 (be32 n ++ rest) ≡ ok (n, rest)
unfolding read_u32
read_u32-be32 n rest h = ap (λ t. ok (t, rest)) (join32 n h)

pub read_u64-be64 : (n : ℕ) (rest : List ℕ) → n < 2 ^ 64 → read_u64 (be64 n ++ rest) ≡ ok (n, rest)
unfolding read_u64
read_u64-be64 n rest h = ap (λ t. ok (t, rest)) (join64 n h)

pub write_u16-WroteBack :
    (n : ℕ) (w : Writer) → n < 2 ^ 16 → 2 ≤ w.room → WroteBack 2 n w (write_u16 n w) read_u16
unfolding write_u16
write_u16-WroteBack n w h room = record {
  bytes = be16 n;
  wrote = rw (le→ltb w.room 2 room);
  width = refl;
  back = λ rest. read_u16-be16 n rest h;
}

pub write_u32-WroteBack :
    (n : ℕ) (w : Writer) → n < 2 ^ 32 → 4 ≤ w.room → WroteBack 4 n w (write_u32 n w) read_u32
unfolding write_u32
write_u32-WroteBack n w h room = record {
  bytes = be32 n;
  wrote = rw (le→ltb w.room 4 room);
  width = refl;
  back = λ rest. read_u32-be32 n rest h;
}

pub write_u64-WroteBack :
    (n : ℕ) (w : Writer) → n < 2 ^ 64 → 8 ≤ w.room → WroteBack 8 n w (write_u64 n w) read_u64
unfolding write_u64
write_u64-WroteBack n w h room = record {
  bytes = be64 n;
  wrote = rw (le→ltb w.room 8 room);
  width = refl;
  back = λ rest. read_u64-be64 n rest h;
}

-- The masks of `write_u24`, on 24 bits.
mask16 : (n : ℕ) → bit_and n 0xffff ≡ n % 2 ^ 16
mask16 n = bit_and_low n 16

mask24_high : (n : ℕ) → bit_and n 0x00ff_0000 / 2 ^ 16 % 2 ^ 8 ≡ n / 2 ^ 16 % 2 ^ 8
mask24_high n = omega (arith, bit_and_field n 16 8)

pub write_u24-WroteBack :
    (n : ℕ) (w : Writer) → 3 ≤ w.room → WroteBack 3 (n % 2 ^ 24) w (write_u24 n w) read_u24
unfolding write_u24 read_u24
write_u24-WroteBack n w room = record {
  bytes = n / 2 ^ 16 % 2 ^ 8 ∷ be16 (n % 2 ^ 16 % 2 ^ 16);
  wrote = rw (le→ltb w.room 3 room, mask24_high n, mask16 n);
  width = refl;
  back = λ rest. ap (λ t. ok (t, rest)) (omega arith);
}

take-length : (xs rest : List ℕ) → take (length xs) (xs ++ rest) ≡ xs
take-length [] rest = refl
take-length (x ∷ xs) rest = ap (λ t. x ∷ t) (take-length xs rest)

drop-length : (xs rest : List ℕ) → drop (length xs) (xs ++ rest) ≡ rest
drop-length [] rest = refl
drop-length (x ∷ xs) rest = drop-length xs rest

pub read-append : (xs rest : List ℕ) → read (length xs) (xs ++ rest) ≡ ok (xs, rest)
unfolding read
read-append xs rest = rw (
  le→ltb (length (xs ++ rest)) (length xs) (omega (arith, length-append xs rest)),
  take-length xs rest,
  drop-length xs rest,
)

pub write-WroteBack :
    (xs : List ℕ) (w : Writer)
    → length xs ≤ w.room
    → WroteBack (length xs) xs w (write xs w) (read (length xs))
unfolding write
write-WroteBack xs w h = record {
  bytes = xs;
  wrote = rw (le→ltb w.room (length xs) h);
  width = refl;
  back = λ rest. read-append xs rest;
}
