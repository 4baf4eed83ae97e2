-- ===== src/Frame/Ack.antt =====
-- ACK frames of src/frame.rs: the ranges, written from the last one down, are read back.
use tquic.Base.{ℕ, ◌+◌, ◌-◌, ◌%◌, ◌^◌, ◌≤◌, ◌<◌, ◌≡◌, refl, ap, ◌∙◌, arith, Option, none, some}
use tquic.Base.{List, [], ◌∷◌, ◌++◌, length, drop, if◌then◌else◌, sub64, le→ltb, length-append}
use tquic.Error.{Result, ok, ◌>>=◌}
use tquic.Ranges.Map.{Entries}
use tquic.Ranges.Order.{IsSorted}
use tquic.Codec.{skip}
use mathlib.Core.List.{append-nil}
use tquic.Frame.{
  Frame, EcnCounts, ack, ack_blocks, ack_writes, ecn_writes, backwards, is_some, Write,
}
use tquic.Frame.Parse.{parse_ecn, parse_ack, parse_ack_frame}
use tquic.Frame.Image.{bytes_of, read_varint-bytes_of, image, image_of, image-append}
use tquic.Frame.AckRanges.{
  IsDescending, IsUnder, backwards-IsDescending, backwards_twice, length-backwards, insert_front,
  blocks_back,
}

-- The counters.
abbrev pub IsSoundEcn : Option EcnCounts → Type 0
IsSoundEcn none = Unit {0}
IsSoundEcn (some c) = (c.ect0_count < 2 ^ 62) × (c.ect1_count < 2 ^ 62) × (c.ecn_ce_count < 2 ^ 62)

ecn_back :
    (ecn : Option EcnCounts) (rest : List ℕ)
    → IsSoundEcn ecn
    → parse_ecn (if is_some ecn then 3 else 2) (image (ecn_writes ecn) rest) ≡ ok (ecn, rest)
unfolding parse_ecn image image_of
ecn_back none rest h = refl
ecn_back (some c) rest h =
    rw
      (
        read_varint-bytes_of c.ect0_count
            (bytes_of c.ect1_count ++ (bytes_of c.ecn_ce_count ++ rest)) h.0,
        read_varint-bytes_of c.ect1_count (bytes_of c.ecn_ce_count ++ rest) h.1,
        read_varint-bytes_of c.ecn_ce_count rest h.2,
      )
      refl

-- The calls of one row after those of another.
image_two : (cs ds : List Write) (rest : List ℕ) → image (cs ++ ds) rest ≡ image cs (image ds rest)
unfolding image
image_two [] ds rest = refl
image_two (c ∷ cs) ds rest = ap (λ z. image_of c ++ z) (image_two cs ds rest)

-- `parse_ack_frame` on what `to_bytes` writes behind the frame type.
frame_back :
    (t delay a b : ℕ) (rs : Entries) (ecn : Option EcnCounts) (rest : List ℕ)
    → delay < 2 ^ 62
    → b ≤ 2 ^ 62
    → a < b
    → IsDescending a rs
    → length rs < 2 ^ 62
    → parse_ecn (t % 2 ^ 8) (image (ecn_writes ecn) rest) ≡ ok (ecn, rest)
    → let buf = image (ack_writes delay ((a, b) ∷ rs) ecn) rest in
      parse_ack_frame t buf
      ≡ ok (
        ack delay (record { set = backwards rs ((a, b) ∷ []); capacity = 2 ^ 64 - 1 }) ecn,
        length buf - length rest,
      )
unfolding parse_ack_frame image image_of ack_writes
frame_back t delay a b rs ecn rest h1 h2 h3 h4 h5 h6 =
    let top : sub64 b 1 ≡ b - 1 = omega (arith, h3) in
    let len : sub64 (b - 1) a ≡ b - 1 - a = omega (arith, h3) in
    let small : b - 1 - (b - 1 - a) ≡ a = omega (arith, h3) in
    let one : b - 1 + 1 ≡ b = omega (arith, h3) in
    let tail = image (ack_blocks a rs) (image (ecn_writes ecn) rest) in
    rw
      (
        image_two (ack_blocks a rs) (ecn_writes ecn) rest,
        top,
        len,
        read_varint-bytes_of (b - 1)
            (bytes_of delay ++ (bytes_of (length rs) ++ (bytes_of (b - 1 - a) ++ tail)))
            (omega arith),
        read_varint-bytes_of delay (bytes_of (length rs) ++ (bytes_of (b - 1 - a) ++ tail)) h1,
        read_varint-bytes_of (length rs) (bytes_of (b - 1 - a) ++ tail) h5,
        read_varint-bytes_of (b - 1 - a) tail (omega arith),
        le→ltb (b - 1) (b - 1 - a) (omega arith),
        small,
        one,
        insert_front [] (2 ^ 64 - 1) a b (omega arith) h3 tt,
        blocks_back rs [] (2 ^ 64 - 1) a b (image (ecn_writes ecn) rest) (omega arith) h4
            (omega arith),
        h6,
      )
      refl

drop_behind : (xs rest : List ℕ) → drop (length (xs ++ rest) - length rest) (xs ++ rest) ≡ rest
drop_behind xs rest =
    let e : length (xs ++ rest) - length rest ≡ length xs = omega (arith, length-append xs rest) in
    ap (λ n. drop n (xs ++ rest)) e ∙ drop_all xs
  where
    drop_all : (xs : List ℕ) → drop (length xs) (xs ++ rest) ≡ rest
    drop_all [] = refl
    drop_all (x ∷ xs) = drop_all xs

skip_behind :
    (xs rest : List ℕ) → skip (length (xs ++ rest) - length rest) (xs ++ rest) ≡ ok (tt, rest)
unfolding skip
skip_behind xs rest =
    rw (le→ltb (length (xs ++ rest)) (length (xs ++ rest) - length rest) (omega arith))
      (ap (λ z. ok (tt, z)) (drop_behind xs rest))

-- An ACK frame is read back from what is behind its type.
pub ack_back :
    (delay : ℕ) (s : Entries) (ecn : Option EcnCounts) (rest : List ℕ)
    → delay < 2 ^ 62
    → IsSorted 0 s
    → IsUnder (2 ^ 62) s
    → 0 < length s
    → length s < 2 ^ 62
    → IsSoundEcn ecn
    → parse_ack (if is_some ecn then 3 else 2) (image (ack_writes delay (backwards s []) ecn) rest)
      ≡ ok (ack delay (record { set = s; capacity = 2 ^ 64 - 1 }) ecn, rest)
unfolding parse_ack backwards
ack_back delay s ecn rest h1 h2 h3 h4 h5 h6 =
    by (backwards s []) (backwards-IsDescending 0 (2 ^ 62) s [] h2 h3 tt (omega arith))
      (backwards_twice s [] [] ∙ append-nil s) (length-backwards s [])
  where
    low_byte :
        (o : Option EcnCounts) → (if is_some o then 3 else 2) % 2 ^ 8 ≡ (if is_some o then 3 else 2)
    low_byte none = refl
    low_byte (some c) = refl

    after : Entries → Unit {0} × List ℕ → Result (Frame × List ℕ)
    after set y = ok (ack delay (record { set = set; capacity = 2 ^ 64 - 1 }) ecn, y.1)

    by :
        (q : Entries)
        → IsDescending (2 ^ 62 + 1) q
        → backwards q [] ≡ s
        → length q ≡ length s + 0
        → parse_ack (if is_some ecn then 3 else 2) (image (ack_writes delay q ecn) rest)
          ≡ ok (ack delay (record { set = s; capacity = 2 ^ 64 - 1 }) ecn, rest)
    by [] d e l = absurd (omega (arith, l))
    by ((a, b) ∷ rs) d e l =
        let ws = ack_writes delay ((a, b) ∷ rs) ecn in
        let buf = image ws rest in
        let same : buf ≡ image ws [] ++ rest = image-append ws rest in
        let passes : skip (length buf - length rest) buf ≡ ok (tt, rest) =
          ap (λ z. skip (length z - length rest) z) same ∙ skip_behind (image ws []) rest in
        let read =
          frame_back (if is_some ecn then 3 else 2) delay a b rs ecn rest h1 (omega (arith, d.0))
            d.1 d.2 (omega (arith, l))
            (ap (λ n. parse_ecn n (image (ecn_writes ecn) rest)) (low_byte ecn)
              ∙ ecn_back ecn rest h6) in
        ap (λ z. z >>= λ x. skip x.1 buf >>= λ y. ok (x.0, y.1)) read
        ∙ ap (λ z. z >>= after (backwards rs ((a, b) ∷ []))) passes
        ∙ ap (λ z. ok (ack delay (record { set = z; capacity = 2 ^ 64 - 1 }) ecn, rest)) e
