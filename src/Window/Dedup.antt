-- ===== src/Window/Dedup.antt =====
-- Duplicate detection of src/window.rs: what `contains` answers after an `insert`.
use tquic.Base.{ℕ, ◌+◌, ◌-◌, ◌%◌, ◌^◌, ◌≤◌, ◌<◌, ◌≡◌, arith}
use tquic.Base.{true, false, ltb, ◌==◌, ◌||◌, bit_or, if◌then◌else◌, as_u32, add64, sub64}
use tquic.Window.{SeqNumWindow, IsValid, upper, slide, insert, contains, checked_shl}
use native.Mathlib.Decide.{dec_lt}
use tquic.Window.Digits.{
  pow-lt, has, has-mask, bit-checked_shl, upper_eq, mask_eq, contains_lem, bit_or-lt,
  checked_shl-lt,
}

-- Behind the window nothing changes.
insert_behind : (s : SeqNumWindow) (seq : ℕ) → seq < s.lower → insert s seq ≡ s
unfolding insert
insert_behind s seq h = ground arith

insert_inside :
    (s : SeqNumWindow) (seq : ℕ)
    → IsValid s
    → s.lower ≤ seq
    → seq ≤ s.lower + 127
    → insert s seq ≡ record s { window = bit_or s.window (2 ^ (s.lower + 127 - seq)) }
unfolding insert slide
insert_inside s seq v lo hi = ground (arith, upper_eq s v, mask_eq s seq v)

-- The window that ends at `seq`, with the old digits shifted as `slide` shifts them.
abbrev ahead : SeqNumWindow → ℕ → SeqNumWindow
ahead s seq = record {
  lower = seq - 127;
  window = checked_shl s.window (as_u32 (seq - (s.lower + 127)));
}

slide-ahead :
    (s : SeqNumWindow) (seq : ℕ)
    → IsValid s
    → seq < 2 ^ 62
    → s.lower + 127 < seq
    → slide s seq ≡ ahead s seq
unfolding slide
slide-ahead s seq v small hi = ground (arith, upper_eq s v, diff_eq, low_eq)
  where
    diff_eq : sub64 seq (upper s) ≡ seq - (s.lower + 127)
    diff_eq = omega arith

    low_eq : add64 s.lower (seq - (s.lower + 127)) ≡ seq - 127
    low_eq = omega arith

ahead-IsValid :
    (s : SeqNumWindow) (seq : ℕ) → seq < 2 ^ 62 → s.lower + 127 < seq → IsValid (ahead s seq)
ahead-IsValid s seq small hi = record {
  fits = checked_shl-lt s.window (as_u32 (seq - (s.lower + 127)));
  low = omega arith;
}

-- Past the window the lower end follows, and the new number takes the lowest digit.
insert-ahead :
    (s : SeqNumWindow) (seq : ℕ)
    → IsValid s
    → seq < 2 ^ 62
    → s.lower + 127 < seq
    → insert s seq ≡ record (ahead s seq) { window = bit_or (ahead s seq).window (2 ^ 0) }
unfolding insert
insert-ahead s seq v small hi =
    let shift : seq - 127 + 127 - seq ≡ 0 = omega arith in
    ground (
      arith,
      slide-ahead s seq v small hi,
      mask_eq (ahead s seq) seq (ahead-IsValid s seq small hi) (omega arith) (omega arith),
      shift,
    )

-- Every insertion of a packet number keeps the window valid.
pub insert-IsValid :
    (s : SeqNumWindow) (seq : ℕ) → IsValid s → seq < 2 ^ 62 → IsValid (insert s seq)
insert-IsValid s seq v small = elim (dec_lt seq s.lower) [
  | yes h ↦ rw (insert_behind s seq h) v
  | no lo ↦ elim (dec_lt (s.lower + 127) seq) [
    | yes hi ↦ rw (insert-ahead s seq v small hi) record {
      fits = bit_or-lt (ahead s seq).window (2 ^ 0) (checked_shl-lt _ _) (pow-lt 0 (omega arith));
      low = omega arith;
    }
    | no hi ↦ rw (insert_inside s seq v (omega arith) (omega arith)) record {
      fits = bit_or-lt s.window (2 ^ (s.lower + 127 - seq)) v.fits (pow-lt _ (omega arith));
      low = v.low;
    }
  ]
]

-- What `contains` says of `k` after `insert`, case by case.
contains-inside :
    (s : SeqNumWindow) (seq k : ℕ)
    → IsValid s
    → s.lower ≤ seq
    → seq ≤ s.lower + 127
    → seq < 2 ^ 62
    → contains (insert s seq) k ≡ (k == seq || contains s k)
contains-inside s seq k v lo hi small =
    let n : ℕ = s.lower + 127 - seq in
    ground (
      arith,
      insert_inside s seq v lo hi,
      contains_lem (insert s seq) k (insert-IsValid s seq v small),
      contains_lem s k v,
      has-mask s.window (s.lower + 127 - seq) (s.lower + 127 - k),
    )

contains-ahead :
    (s : SeqNumWindow) (seq k : ℕ)
    → IsValid s
    → s.lower + 127 < seq
    → seq < 2 ^ 62
    → contains (insert s seq) k ≡ (
        if ltb seq k
        then false
        else if ltb k (seq - 127)
        then true
        else k == seq || has (checked_shl s.window (as_u32 (seq - (s.lower + 127)))) (seq - k))
contains-ahead s seq k v hi small =
    let end : seq - 127 + 127 ≡ seq = omega arith in
    ground (
      arith,
      end,
      insert-ahead s seq v small hi,
      contains_lem (insert s seq) k (insert-IsValid s seq v small),
      has-mask (ahead s seq).window 0 (seq - k),
    )

-- A shift that is not truncated leaves each old digit at its number.
has-shifted :
    (w d n : ℕ)
    → n < 128
    → d < 2 ^ 32
    → has (checked_shl w (as_u32 d)) n ≡ (if ltb n d then false else has w (n - d))
has-shifted w d n h small =
    let same : as_u32 d ≡ d = omega arith in ground (arith, same, bit-checked_shl w d n h)

-- For a valid window and a packet number `seq` less than 2^32 past its upper end, the numbers that
-- `contains` reports after `insert` are `seq`, those reported before, and those that lie behind the
-- new lower end, and no others.
pub contains-insert :
    (s : SeqNumWindow) (seq k : ℕ)
    → IsValid s
    → seq < 2 ^ 62
    → seq < s.lower + 127 + 2 ^ 32
    → contains (insert s seq) k ≡ (k == seq || (ltb k (insert s seq).lower || contains s k))
contains-insert s seq k v small near = elim (dec_lt seq s.lower) [
  | yes h ↦ ground (arith, insert_behind s seq h, contains_lem s k v)
  | no lo ↦ elim (dec_lt (s.lower + 127) seq) [
    | yes hi ↦ ground (
      arith,
      insert-ahead s seq v small hi,
      contains-ahead s seq k v hi small,
      contains_lem s k v,
      has-shifted s.window (seq - (s.lower + 127)) (seq - k),
      shift hi,
    )
    | no hi ↦ ground (
      arith,
      insert_inside s seq v (omega arith) (omega arith),
      contains-inside s seq k v (omega arith) (omega arith) small,
      contains_lem s k v,
    )
  ]
]
  where
    shift :
        s.lower + 127 < seq
        → k ≤ s.lower + 127
        → seq - k - (seq - (s.lower + 127)) ≡ s.lower + 127 - k
    shift hi h = omega arith

-- A jump past the upper end by a multiple of 2^32 does not clear the window (`diff as u32` is 0):
-- every number `k` that was recorded below the upper end makes `contains` report `k + d`, which
-- was not reported before and is not the number inserted.
pub contains-insert_wide_jump :
    (s : SeqNumWindow) (k d : ℕ)
    → IsValid s
    → s.lower + 127 + d < 2 ^ 62
    → 0 < d
    → d % 2 ^ 32 ≡ 0
    → s.lower ≤ k
    → k < s.lower + 127
    → contains s k ≡ true
    → (contains s (k + d) ≡ false) × (contains (insert s (s.lower + 127 + d)) (k + d) ≡ true)
contains-insert_wide_jump s k d v small pos wide lo hi seen = ground (
  arith,
  contains_lem s k v,
  contains_lem s (k + d) v,
  contains-ahead s (s.lower + 127 + d) (k + d) v (omega arith) small,
  jump,
  bit-checked_shl s.window 0 (s.lower + 127 - k) (omega arith),
  shift,
)
  where
    jump : s.lower + 127 + d - (s.lower + 127) ≡ d
    jump = omega arith

    shift : s.lower + 127 + d - (k + d) ≡ s.lower + 127 - k
    shift = omega arith
