-- ===== src/Window.antt =====
-- src/window.rs: the sliding window of packet numbers that detects duplicates.
pub mod Digits
pub mod Dedup
mod Runs
use tquic.Base.{ℕ, ◌+◌, ◌-◌, ◌*◌, ◌%◌, ◌^◌, ◌<◌, ◌≤◌, Bool, true, false, bit_or, bit_and}
use tquic.Base.{ltb, not, ◌==◌, if◌then◌else◌, add64, sub64, as_u32, saturating_add64}

-- `SEQ_NUM_WINDOW_SIZE`.
abbrev pub window_size : ℕ
window_size = 128

-- `SeqNumWindow`; `window` is the u128 bit field, whose top digit stands for `lower`.
pub record SeqNumWindow : Type 0 where
  pub lower : ℕ
  pub window : ℕ

-- The largest sequence number in the window.
abbrev pub upper : SeqNumWindow → ℕ
upper s = saturating_add64 s.lower window_size - 1

-- `u128::checked_shl(n).unwrap_or(0)`.
abbrev pub checked_shl : ℕ → ℕ → ℕ
checked_shl w n = if ltb n 128 then w * 2 ^ n % 2 ^ 128 else 0

-- `1_u128 << (self.upper() - seq)`; the shift of a u128 counts modulo 128.
abbrev pub mask : SeqNumWindow → ℕ → ℕ
mask s seq = 2 ^ (sub64 (upper s) seq % 128)

-- The part of `insert` that moves the window to the right.
pub slide : SeqNumWindow → ℕ → SeqNumWindow
slide s seq =
    let diff = sub64 seq (upper s) in
    if ltb (upper s) seq
    then record { lower = add64 s.lower diff; window = checked_shl s.window (as_u32 diff) }
    else s

pub insert : SeqNumWindow → ℕ → SeqNumWindow
insert s seq =
    let s' = slide s seq in
    if ltb seq s.lower then s else record s' { window = bit_or s'.window (mask s' seq) }

pub contains : SeqNumWindow → ℕ → Bool
contains s seq =
    if ltb (upper s) seq
    then false
    else if ltb seq s.lower
    then true
    else not (bit_and s.window (mask s seq) == 0)

-- `SeqNumWindow::default()`.
abbrev pub default : SeqNumWindow
default = record { lower = 0; window = 0 }

-- The bit field is a u128, and a packet number is below 2^62 (RFC 9000, section 17.1).
pub record IsValid (s : SeqNumWindow) : Type 0 where
  pub fits : s.window < 2 ^ 128
  pub low : s.lower ≤ 2 ^ 62
