-- ===== src/Frame/AckSize.antt =====
-- ACK frames of src/frame.rs: the numbers that are written fit, and `wire_len` adds up their lengths.
use tquic.Base.{ℕ, ◌+◌, ◌^◌, ◌<◌, ◌≡◌, ap, ◌∙◌, arith, Option, none, some}
use tquic.Base.{List, [], ◌∷◌, ◌++◌, length, sub64}
use tquic.Error.{ok, ◌>>=◌}
use tquic.Ranges.Map.{Entries}
use tquic.Ranges.Order.{IsSorted}
use tquic.Frame.{
  EcnCounts, ack_blocks, ack_writes, ecn_writes, ecn_lens, block_lens, ack_len, backwards, Write,
  varint, lens,
}
use tquic.Frame.Image.{
  bytes_of, image_of, AreWritable, IsWritable, size, encode_varint_len-bytes_of,
}
use tquic.Frame.Ack.{IsSoundEcn}
use tquic.Frame.AckRanges.{IsDescending, IsUnder, backwards-IsDescending, length-backwards}

-- The calls write the numbers, all of which fit.
data Row : List Write → List ℕ → Type 0 where
  end : Row [] []
  more :
      {cs : List Write} {xs : List ℕ}
      → (x : ℕ) → x < 2 ^ 62
      → Row cs xs
      → Row (varint x ∷ cs) (x ∷ xs)

Row-AreWritable : {cs : List Write} {xs : List ℕ} → Row cs xs → AreWritable cs
unfolding AreWritable IsWritable
Row-AreWritable end = tt
Row-AreWritable (more x h r) = (h, Row-AreWritable r)

Row-lens : {cs : List Write} {xs : List ℕ} → (n : ℕ) → Row cs xs → lens n xs ≡ ok (n + size cs)
unfolding lens size image_of
Row-lens n end = ap (λ z. ok z) (omega arith)
Row-lens n (more {xs = xs} x h r) =
    ap (λ z. z >>= λ len. lens (n + len) xs) (encode_varint_len-bytes_of x h)
    ∙ Row-lens (n + length (bytes_of x)) r
    ∙ ap (λ z. ok z) (omega arith)

ecn_row : (ecn : Option EcnCounts) → IsSoundEcn ecn → Row (ecn_writes ecn) (ecn_lens ecn)
ecn_row none h = end
ecn_row (some c) h = more c.ect0_count h.0 (more c.ect1_count h.1 (more c.ecn_ce_count h.2 end))

blocks_row :
    (smallest : ℕ) (rs : Entries) (ecn : Option EcnCounts)
    → smallest < 2 ^ 62
    → IsDescending smallest rs
    → IsSoundEcn ecn
    → Row (ack_blocks smallest rs ++ ecn_writes ecn) (block_lens smallest rs ++ ecn_lens ecn)
unfolding ack_blocks block_lens
blocks_row smallest [] ecn w d h = ecn_row ecn h
blocks_row smallest ((a, b) ∷ rs) ecn w d h =
    more (sub64 (sub64 smallest b) 1) (omega (arith, d.0)) (
      more (sub64 (sub64 b 1) a) (omega (arith, d.0, d.1))
        (blocks_row a rs ecn (omega (arith, d.0, d.1)) d.2 h))

record Rowed (delay : ℕ) (q : Entries) (ecn : Option EcnCounts) : Type 0 where
  writable : AreWritable (ack_writes delay q ecn)
  sized : ack_len delay q ecn ≡ ok (1 + size (ack_writes delay q ecn))

rowed :
    (delay : ℕ) (q : Entries) (ecn : Option EcnCounts)
    → delay < 2 ^ 62
    → IsDescending (2 ^ 62 + 1) q
    → 0 < length q
    → length q < 2 ^ 62
    → IsSoundEcn ecn
    → Rowed delay q ecn
unfolding ack_writes ack_len
rowed delay [] ecn h1 d h4 h5 h6 = absurd (omega arith)
rowed delay ((a, b) ∷ rs) ecn h1 d h4 h5 h6 =
    let r = more (sub64 b 1) (omega (arith, d.0, d.1)) (
      more delay h1 (
        more (length rs) (omega arith) (
          more (sub64 (sub64 b 1) a) (omega (arith, d.0, d.1))
            (blocks_row a rs ecn (omega (arith, d.0, d.1)) d.2 h6)))) in
    record { writable = Row-AreWritable r; sized = Row-lens 1 r }

-- What holds of an ACK frame's ranges and counters.
pub ack_sized :
    (delay : ℕ) (s : Entries) (ecn : Option EcnCounts)
    → delay < 2 ^ 62
    → IsSorted 0 s
    → IsUnder (2 ^ 62) s
    → 0 < length s
    → length s < 2 ^ 62
    → IsSoundEcn ecn
    → AreWritable (ack_writes delay (backwards s []) ecn)
      × (ack_len delay (backwards s []) ecn ≡ ok (1 + size (ack_writes delay (backwards s []) ecn)))
ack_sized delay s ecn h1 h2 h3 h4 h5 h6 =
    let l = length-backwards s [] in
    let r =
      rowed delay (backwards s []) ecn h1
        (backwards-IsDescending 0 (2 ^ 62) s [] h2 h3 tt (omega arith)) (omega (arith, l))
        (omega (arith, l)) h6 in
    (r.writable, r.sized)
