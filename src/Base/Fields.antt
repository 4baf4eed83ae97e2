-- ===== src/Base/Fields.antt =====
-- `|` of disjoint fields and `&` with a low mask, as arithmetic.
use Prim.Native.Nat.{ℕ, zero, suc, ◌+◌, ◌-◌, ◌*◌, ◌/◌, ◌%◌, ◌^◌, ◌≤◌, ◌<◌, bit_and, bit_or}
use mathlib.Core.Path.{◌≡◌, refl, sym, ap, ◌∙◌}
use native.Mathlib.Nat.{pow-suc, one-le-pow, mod-lt, le_refl, div-div-eq-div-mul}
use native.Mathlib.Decide.{dec_lt}
use native.Mathlib.Omega.{arith}
use tquic.Base.Bits.{bit, bit-lt-two, bit-zero, bit-or, bit-and, bit-mod_low, bit-eq-zero_of_lt}
use tquic.Base.Bits.{eq-zero_of_bits, bit-cong, bit-shl_low, bit-shl_high}

eq_of_bits_fuel : (fuel a b : ℕ) → a ≤ fuel → ((k : ℕ) → bit a k ≡ bit b k) → a ≡ b
unfolding bit
eq_of_bits_fuel zero a b h e =
    let z : a ≡ 0 = omega arith in omega (arith, eq-zero_of_bits b (λ k. unfold bit in other k z))
  where
    other : (k : ℕ) → a ≡ 0 → bit b k ≡ 0
    other k z = omega (arith, e k, bit-cong a 0 k k z refl, bit-zero k)
eq_of_bits_fuel (suc fuel) zero b h e =
    omega (arith, eq-zero_of_bits b (λ k. omega (arith, e k, bit-zero k)))
eq_of_bits_fuel (suc fuel) (suc a) b h e =
    omega (arith, e 0, eq_of_bits_fuel fuel (suc a / 2) (b / 2) (omega arith) (λ k. e (suc k)))

pub eq_of_bits : (a b : ℕ) → ((k : ℕ) → bit a k ≡ bit b k) → a ≡ b
eq_of_bits a b e = eq_of_bits_fuel a a b (le_refl a) e

double : (a n : ℕ) → a * 2 ^ suc n ≡ 2 * (a * 2 ^ n)
double a n = omega (arith, ap (λ (t : ℕ). a * t) (pow-suc 2 n))

bit-fields_low : (q r n k : ℕ) → r < 2 ^ n → k < n → bit (q * 2 ^ n + r) k ≡ bit r k
unfolding bit
bit-fields_low q r zero k h p = absurd (omega arith)
bit-fields_low q r (suc n) zero h p = omega (arith, double q n)
bit-fields_low q r (suc n) (suc k) h p =
    bit-cong ((q * 2 ^ suc n + r) / 2) (q * 2 ^ n + r / 2) k k (omega (arith, double q n)) refl
    ∙ bit-fields_low q (r / 2) n k (omega (arith, pow-suc 2 n)) (omega arith)

bit-fields_high : (q r n k : ℕ) → r < 2 ^ n → n ≤ k → bit (q * 2 ^ n + r) k ≡ bit q (k - n)
unfolding bit
bit-fields_high q r zero k h p = bit-cong (q * 2 ^ 0 + r) q k (k - 0) (omega arith) (omega arith)
bit-fields_high q r (suc n) zero h p = absurd (omega arith)
bit-fields_high q r (suc n) (suc k) h p =
    bit-cong ((q * 2 ^ suc n + r) / 2) (q * 2 ^ n + r / 2) k k (omega (arith, double q n)) refl
    ∙ bit-fields_high q (r / 2) n k (omega (arith, pow-suc 2 n)) (omega arith)
    ∙ bit-cong q q (k - n) (suc k - suc n) refl (omega arith)

-- `r | (q << n)` is a sum when `r` fits `n` bits.
pub bit_or_fields : (q r n : ℕ) → r < 2 ^ n → bit_or r (q * 2 ^ n) ≡ q * 2 ^ n + r
bit_or_fields q r n h = eq_of_bits _ _ (λ k. digit k)
  where
    digit : (k : ℕ) → bit (bit_or r (q * 2 ^ n)) k ≡ bit (q * 2 ^ n + r) k
    digit k = elim (dec_lt k n) [
      | yes p ↦
          omega (arith, bit-or r (q * 2 ^ n) k, bit-shl_low q n k p, bit-fields_low q r n k h p)
      | no p ↦ omega (
        arith,
        bit-or r (q * 2 ^ n) k,
        bit-shl_high q n k (omega arith),
        bit-eq-zero_of_lt n r k h (omega arith),
        bit-fields_high q r n k h (omega arith),
      )
    ]

bit-ones_low : (n k : ℕ) → k < n → bit (2 ^ n - 1) k ≡ 1
unfolding bit
bit-ones_low zero k h = absurd (omega arith)
bit-ones_low (suc n) zero h = omega (arith, pow-suc 2 n, one-le-pow n 2 (omega arith))
bit-ones_low (suc n) (suc k) h =
    bit-cong ((2 ^ suc n - 1) / 2) (2 ^ n - 1) k k
      (omega (arith, pow-suc 2 n, one-le-pow n 2 (omega arith))) refl
    ∙ bit-ones_low n k (omega arith)

-- `a & ((1 << n) - 1)` is a remainder.
pub bit_and_low : (a n : ℕ) → bit_and a (2 ^ n - 1) ≡ a % 2 ^ n
bit_and_low a n = eq_of_bits _ _ (λ k. digit k)
  where
    pos : 1 ≤ 2 ^ n
    pos = one-le-pow n 2 (omega arith)

    digit : (k : ℕ) → bit (bit_and a (2 ^ n - 1)) k ≡ bit (a % 2 ^ n) k
    digit k = elim (dec_lt k n) [
      | yes p ↦
          omega (
            arith,
            bit-and a (2 ^ n - 1) k,
            bit-ones_low n k p,
            bit-mod_low a n k p,
            bit-lt-two a k,
          )
      | no p ↦ omega (
        arith,
        bit-and a (2 ^ n - 1) k,
        bit-eq-zero_of_lt n (2 ^ n - 1) k (omega (arith, pos)) (omega arith),
        bit-eq-zero_of_lt n (a % 2 ^ n) k (mod-lt a pos) (omega arith),
      )
    ]

bit-div : (a n k : ℕ) → bit (a / 2 ^ n) k ≡ bit a (n + k)
bit-div a zero k = bit-cong (a / 2 ^ 0) a k (0 + k) (omega arith) (omega arith)
bit-div a (suc n) k =
    bit-cong (a / 2 ^ suc n) (a / 2 / 2 ^ n) k k
      (ap (λ t. a / t) (pow-suc' n) ∙ sym (div-div-eq-div-mul a 2 (2 ^ n))) refl
    ∙ bit-div (a / 2) n k
    ∙ bit-half a (n + k)
    ∙ bit-cong a a (suc (n + k)) (suc n + k) refl (omega arith)
  where
    pow-suc' : (n : ℕ) → 2 ^ suc n ≡ 2 * 2 ^ n
    pow-suc' n = omega (arith, pow-suc 2 n)

    bit-half : (a j : ℕ) → bit (a / 2) j ≡ bit a (suc j)
    bit-half a j = unfold bit in refl

-- `a & (((1 << m) - 1) << n)` is a field of `a`, in its place.
pub bit_and_field : (a n m : ℕ) → bit_and a ((2 ^ m - 1) * 2 ^ n) ≡ a / 2 ^ n % 2 ^ m * 2 ^ n
bit_and_field a n m = eq_of_bits _ _ (λ k. digit k)
  where
    digit : (k : ℕ) → bit (bit_and a ((2 ^ m - 1) * 2 ^ n)) k ≡ bit (a / 2 ^ n % 2 ^ m * 2 ^ n) k
    digit k = elim (dec_lt k n) [
      | yes p ↦ omega (
        arith,
        bit-and a ((2 ^ m - 1) * 2 ^ n) k,
        bit-shl_low (2 ^ m - 1) n k p,
        bit-shl_low (a / 2 ^ n % 2 ^ m) n k p,
      )
      | no p ↦ omega (
        arith,
        bit-and a ((2 ^ m - 1) * 2 ^ n) k,
        bit-shl_high (2 ^ m - 1) n k (omega arith),
        bit-shl_high (a / 2 ^ n % 2 ^ m) n k (omega arith),
        bit_and_low (a / 2 ^ n) m,
        bit-cong (bit_and (a / 2 ^ n) (2 ^ m - 1)) (a / 2 ^ n % 2 ^ m) (k - n) (k - n)
            (bit_and_low (a / 2 ^ n) m) refl,
        bit-and (a / 2 ^ n) (2 ^ m - 1) (k - n),
        bit-div a n (k - n),
        bit-cong a a (n + (k - n)) k refl (omega arith),
      )
    ]

pub bit_or_comm : (a b : ℕ) → bit_or a b ≡ bit_or b a
bit_or_comm a b = eq_of_bits _ _ (λ k. omega (arith, bit-or a b k, bit-or b a k))
