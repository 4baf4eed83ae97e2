-- ===== src/Window/Digits.antt =====
-- The window read digit by digit.
use tquic.Base.{ℕ, ◌+◌, ◌-◌, ◌*◌, ◌%◌, ◌^◌, ◌≤◌, ◌<◌, ◌≡◌, ap, arith}
use tquic.Base.{Bool, true, false, ltb, ◌==◌, ◌||◌, not, bit_or, bit_and, if◌then◌else◌, sub64}
use tquic.Base.Bits.{bit, bit-lt-two, bit-or, bit-mod_low, bit-shl_low, bit-shl_high, bit-zero}
use tquic.Base.Bits.{bit-pow_self, bit-pow_ne, bit_and-pow_zero, bit_and-pow_one, lt-pow_of_bits}
use tquic.Base.Bits.{bit-eq-zero_of_lt}
use tquic.Window.{SeqNumWindow, IsValid, upper, mask, contains, checked_shl}

-- Whether digit `k` is set.
abbrev pub has : ℕ → ℕ → Bool
has w k = bit w k == 1

-- A digit after `checked_shl`, for a count that is not truncated.
pub bit-checked_shl :
    (w n k : ℕ) → k < 128 → bit (checked_shl w n) k ≡ (if ltb k n then 0 else bit w (k - n))
bit-checked_shl w n k h =
    ground
      (arith, bit-mod_low (w * 2 ^ n) 128 k h, bit-shl_low w n k, bit-shl_high w n k, bit-zero k)

pub has-mask : (w n k : ℕ) → has (bit_or w (2 ^ n)) k ≡ (k == n || has w k)
has-mask w n k = ground (arith, bit-or w (2 ^ n) k, bit-pow_self n, bit-pow_ne n k, bit-lt-two w k)

pub test-mask : (w n : ℕ) → not (bit_and w (2 ^ n) == 0) ≡ has w n
test-mask w n = ground (arith, bit_and-pow_zero w n, bit_and-pow_one w n, bit-lt-two w n)

pub upper_eq : (s : SeqNumWindow) → IsValid s → upper s ≡ s.lower + 127
upper_eq s v = omega arith

-- The place of `k` in the bit field.
pub mask_eq :
    (s : SeqNumWindow) (k : ℕ)
    → IsValid s
    → s.lower ≤ k
    → k ≤ s.lower + 127
    → mask s k ≡ 2 ^ (s.lower + 127 - k)
mask_eq s k v lo hi = ap (λ n. 2 ^ n) shift
  where
    shift : sub64 (upper s) k % 128 ≡ s.lower + 127 - k
    shift = omega arith

-- `contains` on every side of the window.
pub contains_lem :
    (s : SeqNumWindow) (k : ℕ)
    → IsValid s
    → contains s k ≡ (
        if ltb (s.lower + 127) k
        then false
        else if ltb k s.lower
        then true
        else has s.window (s.lower + 127 - k))
unfolding contains
contains_lem s k v =
    ground (arith, upper_eq s v, mask_eq s k v, test-mask s.window (s.lower + 127 - k))

pub bit_or-lt : (a b : ℕ) → a < 2 ^ 128 → b < 2 ^ 128 → bit_or a b < 2 ^ 128
bit_or-lt a b p q = lt-pow_of_bits 128 (bit_or a b) above
  where
    above : (k : ℕ) → 128 ≤ k → bit (bit_or a b) k ≡ 0
    above k h =
        omega (arith, bit-or a b k, bit-eq-zero_of_lt 128 a k p h, bit-eq-zero_of_lt 128 b k q h)

pub checked_shl-lt : (w n : ℕ) → checked_shl w n < 2 ^ 128
checked_shl-lt w n = ground arith

pub pow-lt : (n : ℕ) → n < 128 → 2 ^ n < 2 ^ 128
pow-lt n h = lt-pow_of_bits 128 (2 ^ n) (λ k p. bit-pow_ne n k (omega arith))
