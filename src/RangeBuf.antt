-- ===== src/RangeBuf.antt =====
-- src/connection/stream/range_buf.rs: a chunk of stream data at an offset.
-- The time of arrival is left out: it is only passed on.
use tquic.Base.{ℕ, List, take, drop, length, Bool, false, ◌==◌, add64}

pub record RangeBuf : Type 0 where
  pub bytes : List ℕ
  pub off : ℕ
  pub fin : Bool

abbrev pub new : List ℕ → ℕ → Bool → RangeBuf
new buf off fin = record { bytes = buf; off = off; fin = fin }

abbrev pub len : RangeBuf → ℕ
len b = length b.bytes

abbrev pub max_off : RangeBuf → ℕ
max_off b = add64 b.off (len b)

abbrev pub is_empty : RangeBuf → Bool
is_empty b = length b.bytes == 0

-- `consume` is the same.
abbrev pub advance : RangeBuf → ℕ → RangeBuf
advance b count = record b { bytes = drop count b.bytes; off = add64 b.off count }

-- What stays in the buffer, and what is returned.
abbrev pub split_off : RangeBuf → ℕ → RangeBuf × RangeBuf
split_off b at = (
  record b { bytes = take at b.bytes; fin = false },
  record b { bytes = drop at b.bytes; off = add64 b.off at },
)

abbrev pub split_to : RangeBuf → ℕ → RangeBuf × RangeBuf
split_to b at = (
  record b { bytes = drop at b.bytes; off = add64 b.off at },
  record b { bytes = take at b.bytes; fin = false },
)
