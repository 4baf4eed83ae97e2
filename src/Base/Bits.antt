-- ===== src/Base/Bits.antt =====
-- Binary digits of a number, and what `|`, `&`, a shift and a mask do to each digit.
use Prim.Native.Nat.{
  ℕ, zero, suc, ◌+◌, ◌-◌, ◌*◌, ◌/◌, ◌%◌, ◌^◌, ◌≤◌, ◌<◌, min, max, bit_and, bit_or, digits,
}
use Prim.Native.Nat.{bit_and-bitwise, bit_or-bitwise}
use mathlib.Core.Path.{◌≡◌, refl, sym, ap, ◌∙◌}
use mathlib.Core.Logic.{◌≢◌}
use native.Mathlib.Nat.{
  pow-suc, one-le-pow, le_refl, mod-lt, mod-eq_of_lt, div-add-mod, add-mul-mod_self_right,
}
use native.Mathlib.Decide.{ℕ_discrete}
use native.Mathlib.Omega.{arith}

-- Digit `k` of `a`, counted from the lowest.
unfoldable pub bit : ℕ → ℕ → ℕ
bit a zero = a % 2
bit a (suc k) = bit (a / 2) k

pub bit-lt-two : (a k : ℕ) → bit a k < 2
unfolding bit
bit-lt-two a zero = omega arith
bit-lt-two a (suc k) = bit-lt-two (a / 2) k

pub bit-zero : (k : ℕ) → bit 0 k ≡ 0
unfolding bit
bit-zero zero = refl
bit-zero (suc k) = bit-zero k

module _ (z : ℕ → ℕ) (f : ℕ → ℕ → ℕ) (f-small : (x y : ℕ) → x < 2 → y < 2 → f x y < 2)
    (z-digit : (b k : ℕ) → bit (z b) k ≡ f 0 (bit b k)) where
  bit-digits : (n a b k : ℕ) → a ≤ n → bit (digits z f n a b) k ≡ f (bit a k) (bit b k)
  unfolding bit
  bit-digits zero zero b k h = z-digit b k ∙ ap (λ t. f t (bit b k)) (sym (bit-zero k))
  bit-digits zero (suc a) b k h = absurd (omega arith)
  bit-digits (suc n) zero b k h = z-digit b k ∙ ap (λ t. f t (bit b k)) (sym (bit-zero k))
  bit-digits (suc n) (suc a) b zero h =
      omega (arith, f-small (suc a % 2) (b % 2) (omega arith) (omega arith))
  bit-digits (suc n) (suc a) b (suc k) h =
      ap (λ t. bit t k) half ∙ bit-digits n (suc a / 2) (b / 2) k (omega arith)
    where
      half :
          (digits z f n (suc a / 2) (b / 2) * 2 + f (suc a % 2) (b % 2)) / 2
          ≡ digits z f n (suc a / 2) (b / 2)
      half = omega (arith, f-small (suc a % 2) (b % 2) (omega arith) (omega arith))

pub bit-or : (a b k : ℕ) → bit (bit_or a b) k ≡ max (bit a k) (bit b k)
bit-or a b k =
    ap (λ t. bit t k) (λ i. bit_or-bitwise a b i)
    ∙ bit-digits (λ y. y) max (λ x y p q. omega arith) (λ b k. omega arith) a a b k (le_refl a)

pub bit-and : (a b k : ℕ) → bit (bit_and a b) k ≡ min (bit a k) (bit b k)
bit-and a b k =
    ap (λ t. bit t k) (λ i. bit_and-bitwise a b i)
    ∙ bit-digits (λ y. 0) min (λ x y p q. omega arith) (λ b k. omega (arith, bit-zero k)) a a b k
        (le_refl a)

double : (a n : ℕ) → a * 2 ^ suc n ≡ 2 * (a * 2 ^ n)
double a n = omega (arith, ap (λ (t : ℕ). a * t) (pow-suc 2 n))

pub bit-shl_low : (a n k : ℕ) → k < n → bit (a * 2 ^ n) k ≡ 0
unfolding bit
bit-shl_low a zero k h = absurd (omega arith)
bit-shl_low a (suc n) zero h = omega (arith, double a n)
bit-shl_low a (suc n) (suc k) h = ap (λ t. bit t k) half ∙ bit-shl_low a n k (omega arith)
  where
    half : a * 2 ^ suc n / 2 ≡ a * 2 ^ n
    half = omega (arith, double a n)

-- Digits of equal numbers at equal places.
pub bit-cong : (x y j k : ℕ) → x ≡ y → j ≡ k → bit x j ≡ bit y k
bit-cong x y j k p q = λ i. bit (p i) (q i)

pub bit-shl_high : (a n k : ℕ) → n ≤ k → bit (a * 2 ^ n) k ≡ bit a (k - n)
unfolding bit
bit-shl_high a zero k h = bit-cong (a * 2 ^ 0) a k (k - 0) (omega arith) (omega arith)
bit-shl_high a (suc n) zero h = absurd (omega arith)
bit-shl_high a (suc n) (suc k) h =
    bit-cong (a * 2 ^ suc n / 2) (a * 2 ^ n) k k (omega (arith, double a n)) refl
    ∙ bit-shl_high a n k (omega arith)
    ∙ bit-cong a a (k - n) (suc k - suc n) refl (omega arith)

mod-pow-suc : (w m : ℕ) → w % 2 ^ suc m ≡ 2 * (w / 2 % 2 ^ m) + w % 2
mod-pow-suc w m =
    ap (λ t. t % 2 ^ suc m) whole
    ∙ add-mul-mod_self_right (2 * (w / 2 % 2 ^ m) + w % 2) (w / 2 / 2 ^ m) (2 ^ suc m)
    ∙ mod-eq_of_lt (omega (arith, small, pow-suc 2 m))
  where
    small : w / 2 % 2 ^ m < 2 ^ m
    small = mod-lt (w / 2) (one-le-pow m 2 (omega arith))

    whole : w ≡ 2 * (w / 2 % 2 ^ m) + w % 2 + w / 2 / 2 ^ m * 2 ^ suc m
    whole = omega (arith, div-add-mod (w / 2) (2 ^ m), double (w / 2 / 2 ^ m) m)

-- `% 2 ^ m` keeps the digits below `m`.
pub bit-mod_low : (w m k : ℕ) → k < m → bit (w % 2 ^ m) k ≡ bit w k
unfolding bit
bit-mod_low w zero k h = absurd (omega arith)
bit-mod_low w (suc m) zero h = omega (arith, mod-pow-suc w m)
bit-mod_low w (suc m) (suc k) h =
    bit-cong (w % 2 ^ suc m / 2) (w / 2 % 2 ^ m) k k (omega (arith, mod-pow-suc w m)) refl
    ∙ bit-mod_low (w / 2) m k (omega arith)

eq-zero_of_bits_fuel : (fuel n : ℕ) → n ≤ fuel → ((k : ℕ) → bit n k ≡ 0) → n ≡ 0
unfolding bit
eq-zero_of_bits_fuel zero n h e = omega arith
eq-zero_of_bits_fuel (suc fuel) zero h e = refl
eq-zero_of_bits_fuel (suc fuel) (suc n) h e =
    omega (arith, e 0, eq-zero_of_bits_fuel fuel (suc n / 2) (omega arith) (λ k. e (suc k)))

pub eq-zero_of_bits : (n : ℕ) → ((k : ℕ) → bit n k ≡ 0) → n ≡ 0
eq-zero_of_bits n e = eq-zero_of_bits_fuel n n (le_refl n) e

pub bit-eq-zero_of_lt : (m n k : ℕ) → n < 2 ^ m → m ≤ k → bit n k ≡ 0
unfolding bit
bit-eq-zero_of_lt zero n k h p = bit-cong n 0 k k (omega arith) refl ∙ bit-zero k
bit-eq-zero_of_lt (suc m) n zero h p = absurd (omega arith)
bit-eq-zero_of_lt (suc m) n (suc k) h p =
    bit-eq-zero_of_lt m (n / 2) k (omega (arith, pow-suc 2 m)) (omega arith)

pub lt-pow_of_bits : (m n : ℕ) → ((k : ℕ) → m ≤ k → bit n k ≡ 0) → n < 2 ^ m
unfolding bit
lt-pow_of_bits zero n e = omega (arith, eq-zero_of_bits n (λ k. e k (omega arith)))
lt-pow_of_bits (suc m) n e =
    omega (arith, pow-suc 2 m, lt-pow_of_bits m (n / 2) (λ k h. e (suc k) (omega arith)))

-- A one at place `n`, and nothing else.
pub bit-pow_self : (n : ℕ) → bit (2 ^ n) n ≡ 1
unfolding bit
bit-pow_self zero = refl
bit-pow_self (suc n) =
    bit-cong (2 ^ suc n / 2) (2 ^ n) n n (omega (arith, pow-suc 2 n)) refl ∙ bit-pow_self n

pub bit-pow_ne : (n k : ℕ) → k ≢ n → bit (2 ^ n) k ≡ 0
unfolding bit
bit-pow_ne zero zero h = absurd (h refl)
bit-pow_ne zero (suc k) h = bit-zero k
bit-pow_ne (suc n) zero h = omega (arith, pow-suc 2 n)
bit-pow_ne (suc n) (suc k) h =
    bit-cong (2 ^ suc n / 2) (2 ^ n) k k (omega (arith, pow-suc 2 n)) refl
    ∙ bit-pow_ne n k (λ e. h (ap suc e))

bit_and-pow_digits : (a n k : ℕ) → bit a n ≡ 0 → bit (bit_and a (2 ^ n)) k ≡ 0
bit_and-pow_digits a n k e = elim (ℕ_discrete k n) [
  | yes p ↦ rw p (omega (arith, bit-and a (2 ^ n) n))
  | no p ↦ omega (arith, bit-and a (2 ^ n) k, bit-pow_ne n k p)
]

-- Testing one digit by a mask.
pub bit_and-pow_zero : (a n : ℕ) → bit a n ≡ 0 → bit_and a (2 ^ n) ≡ 0
bit_and-pow_zero a n e = eq-zero_of_bits _ (λ k. bit_and-pow_digits a n k e)

pub bit_and-pow_one : (a n : ℕ) → bit a n ≡ 1 → bit_and a (2 ^ n) ≢ 0
bit_and-pow_one a n e z = omega (
  arith,
  bit-and a (2 ^ n) n,
  bit-pow_self n,
  bit-zero n,
  bit-cong (bit_and a (2 ^ n)) 0 n n z refl,
)
