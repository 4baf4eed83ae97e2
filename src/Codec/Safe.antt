-- ===== src/Codec/Safe.antt =====
-- The decoder of src/codec.rs on any bytes: it does not panic, and leaves bytes of its input.
use tquic.Base.{ℕ, zero, suc, ◌+◌, ◌≤◌, ◌<◌, ◌≡◌, arith}
use tquic.Base.{List, [], ◌∷◌, length, drop, ltb, inl, inr, Bool-cases, length-drop}
use native.Mathlib.Decide.{dec_le}
use tquic.Error.{Error, Result, ok, err, panic, ◌>>=◌, buffer_too_short, frame_encoding_error}
use tquic.Codec.{
  read, read_u8, read_varint, read_varint_with_len, decode_varint_len, read_with_varint_length,
  read_with_u8_length,
}
use tquic.Codec.Varint.{read_varint-first, read_varint_short, decode_varint_len_cases}

abbrev pub AreBytes : List ℕ → Type 0
AreBytes [] = Unit {0}
AreBytes (x ∷ r) = (x < 256) × AreBytes r

-- The errors of decoding.
pub data IsDecoding : Error → Type 0 where
  short : IsDecoding buffer_too_short
  encoding : IsDecoding frame_encoding_error

-- A result without panic, with the property of its value.
abbrev pub Safe : {A : Type 0} → (A → Type 0) → Result A → Type 0
Safe P (ok a) = P a
Safe P (err e) = IsDecoding e
Safe P panic = ⊥

pub bind-Safe :
    {A B : Type 0}
    → (P : A → Type 0) (Q : B → Type 0) (m : Result A) (k : A → Result B) → Safe P m
    → ((a : A) → P a → Safe Q (k a))
    → Safe Q (m >>= k)
bind-Safe P Q (ok a) k h f = f a h
bind-Safe P Q (err e) k h f = h
bind-Safe P Q panic k h f = h

-- Bytes that are left of `buf`.
abbrev pub Left : List ℕ → List ℕ → Type 0
Left buf r = AreBytes r × (length r ≤ length buf)

abbrev pub Rest : {A : Type 0} → List ℕ → A × List ℕ → Type 0
Rest buf x = Left buf x.1

pub drop-AreBytes : (n : ℕ) (b : List ℕ) → AreBytes b → AreBytes (drop n b)
drop-AreBytes zero b h = h
drop-AreBytes (suc n) [] h = tt
drop-AreBytes (suc n) (x ∷ r) h = drop-AreBytes n r h.1

-- The arms of `read_varint`.
arm1-Safe : (buf b : List ℕ) → Left buf b → Safe (Rest buf) (read_varint_with_len 1 b)
unfolding read_varint_with_len
arm1-Safe buf (x ∷ r) h = (h.0.1, omega (arith, h.1))
arm1-Safe buf [] h = short

arm2-Safe : (buf b : List ℕ) → Left buf b → Safe (Rest buf) (read_varint_with_len 2 b)
unfolding read_varint_with_len
arm2-Safe buf (x ∷ y ∷ r) h = (h.0.1.1, omega (arith, h.1))
arm2-Safe buf (x ∷ []) h = short
arm2-Safe buf [] h = short

arm4-Safe : (buf b : List ℕ) → Left buf b → Safe (Rest buf) (read_varint_with_len 4 b)
unfolding read_varint_with_len
arm4-Safe buf (x ∷ y ∷ z ∷ u ∷ r) h = (h.0.1.1.1.1, omega (arith, h.1))
arm4-Safe buf (x ∷ y ∷ z ∷ []) h = short
arm4-Safe buf (x ∷ y ∷ []) h = short
arm4-Safe buf (x ∷ []) h = short
arm4-Safe buf [] h = short

arm8-Safe : (buf b : List ℕ) → Left buf b → Safe (Rest buf) (read_varint_with_len 8 b)
unfolding read_varint_with_len
arm8-Safe buf (a ∷ b ∷ c ∷ d ∷ e ∷ f ∷ g ∷ i ∷ r) h = (h.0.1.1.1.1.1.1.1.1, omega (arith, h.1))
arm8-Safe buf (a ∷ b ∷ c ∷ d ∷ e ∷ f ∷ g ∷ []) h = short
arm8-Safe buf (a ∷ b ∷ c ∷ d ∷ e ∷ f ∷ []) h = short
arm8-Safe buf (a ∷ b ∷ c ∷ d ∷ e ∷ []) h = short
arm8-Safe buf (a ∷ b ∷ c ∷ d ∷ []) h = short
arm8-Safe buf (a ∷ b ∷ c ∷ []) h = short
arm8-Safe buf (a ∷ b ∷ []) h = short
arm8-Safe buf (a ∷ []) h = short
arm8-Safe buf [] h = short

pub read_varint-Safe : (buf b : List ℕ) → Left buf b → Safe (Rest buf) (read_varint b)
unfolding read_varint
read_varint-Safe buf [] h = short
read_varint-Safe buf (x ∷ r) h = elim (decode_varint_len_cases x h.0.0) [
  | inl e ↦ at 1 e (arm1-Safe buf (x ∷ r) h)
  | inr (inl e) ↦ at 2 e (arm2-Safe buf (x ∷ r) h)
  | inr (inr (inl e)) ↦ at 4 e (arm4-Safe buf (x ∷ r) h)
  | inr (inr (inr e)) ↦ at 8 e (arm8-Safe buf (x ∷ r) h)
]
  where
    at :
        (len : ℕ)
        → decode_varint_len x ≡ ok len
        → Safe (Rest buf) (read_varint_with_len len (x ∷ r))
        → Safe (Rest buf) (read_varint (x ∷ r))
    at len e got = elim (dec_le len (length r + 1)) [
      | yes enough ↦ rw (read_varint-first x len r e enough) got
      | no less ↦ rw (read_varint_short x len r e (omega arith)) short
    ]

pub read-Safe : (n : ℕ) (buf b : List ℕ) → Left buf b → Safe (Rest buf) (read n b)
unfolding read
read-Safe n buf b h = elim (Bool-cases (ltb (length b) n)) [
  | inl e ↦ rw e short
  | inr e ↦ rw e (drop-AreBytes n b h.0, omega (arith, h.1, length-drop n b))
]

pub read_with_varint_length-Safe :
    (buf b : List ℕ) → Left buf b → Safe (Rest buf) (read_with_varint_length b)
unfolding read_with_varint_length
read_with_varint_length-Safe buf b h =
    bind-Safe (Rest buf) (Rest buf) (read_varint b) (λ z. read z.0 z.1) (read_varint-Safe buf b h)
      (λ z l. read-Safe z.0 buf z.1 l)

pub read_u8-Safe : (buf b : List ℕ) → Left buf b → Safe (Rest buf) (read_u8 b)
unfolding read_u8
read_u8-Safe buf [] h = short
read_u8-Safe buf (x ∷ r) h = (h.0.1, omega (arith, h.1))

pub read_with_u8_length-Safe :
    (buf b : List ℕ) → Left buf b → Safe (Rest buf) (read_with_u8_length b)
unfolding read_with_u8_length
read_with_u8_length-Safe buf b h =
    bind-Safe (Rest buf) (Rest buf) (read_u8 b) (λ z. read z.0 z.1) (read_u8-Safe buf b h)
      (λ z l. read-Safe z.0 buf z.1 l)
