-- ===== src/Prelude/Words.antt =====
-- `size_t` and `uint64_t` arithmetic, and the mask `& (2^k - 1)` that wraps an index.
use Prim.Native.Nat.{
  ℕ, zero, suc, ◌+◌, ◌-◌, ◌*◌, ◌/◌, ◌%◌, ◌^◌, ◌≤◌, ◌<◌, min, bit_and, digits, bit_and-bitwise,
}
use mathlib.Core.Path.{◌≡◌, refl, ap, ◌∙◌}
use native.Mathlib.Omega.{arith}
use native.Mathlib.Nat.{pow-suc, add-mul-mod_self_left, mod-eq_of_lt, mod-lt, div-add-mod}

abbrev pub word_mod : ℕ
word_mod = 2 ^ 64

abbrev pub add64 : ℕ → ℕ → ℕ
add64 a b = (a + b) % word_mod

abbrev pub sub64 : ℕ → ℕ → ℕ
sub64 a b = (a + word_mod - b) % word_mod

abbrev pub mul64 : ℕ → ℕ → ℕ
mul64 a b = a * b % word_mod

-- The bitwise recursion behind `&`, cut off after `fuel` digits.
abbrev and_fuel : ℕ → ℕ → ℕ → ℕ
and_fuel fuel a b = digits (λ b. zero) min fuel a b

-- Any fuel that is no smaller than the first operand gives the same digits.
and_fuel_enough : (i j a b : ℕ) → a ≤ i → a ≤ j → and_fuel i a b ≡ and_fuel j a b
and_fuel_enough zero zero a b hi hj = refl
and_fuel_enough zero (suc j) zero b hi hj = refl
and_fuel_enough zero (suc j) (suc a) b hi hj = absurd (omega arith)
and_fuel_enough (suc i) zero zero b hi hj = refl
and_fuel_enough (suc i) zero (suc a) b hi hj = absurd (omega arith)
and_fuel_enough (suc i) (suc j) zero b hi hj = refl
and_fuel_enough (suc i) (suc j) (suc a) b hi hj =
    omega (arith, and_fuel_enough i j (suc a / 2) (b / 2) (omega arith) (omega arith))

zero-bit_and : (b : ℕ) → bit_and 0 b ≡ 0
zero-bit_and b = bit_and-bitwise 0 b

-- `&` digit by digit.
bit_and-halves : (a b : ℕ) → bit_and a b ≡ 2 * bit_and (a / 2) (b / 2) + min (a % 2) (b % 2)
bit_and-halves zero b = omega (arith, zero-bit_and b, zero-bit_and (b / 2))
bit_and-halves (suc a) b = omega (
  arith,
  bit_and-bitwise (suc a) b,
  bit_and-bitwise (suc a / 2) (b / 2),
  and_fuel_enough a (suc a / 2) (suc a / 2) (b / 2) (omega arith) (omega arith),
)

bit_and-zero_below : (n a : ℕ) → a ≤ n → bit_and a 0 ≡ 0
bit_and-zero_below n zero h = zero-bit_and 0
bit_and-zero_below zero (suc a) h = absurd (omega arith)
bit_and-zero_below (suc n) (suc a) h =
    omega (arith, bit_and-halves (suc a) 0, bit_and-zero_below n (suc a / 2) (omega arith))

pub pow_pos : (k : ℕ) → 0 < 2 ^ k
pow_pos zero = omega arith
pow_pos (suc k) = omega (arith, pow-suc 2 k, pow_pos k)

mod-double : (p a : ℕ) → 0 < p → a % (2 * p) ≡ 2 * (a / 2 % p) + a % 2
mod-double p a h =
    ap (λ t. t % (2 * p)) split
    ∙ add-mul-mod_self_left (2 * (a / 2 % p) + a % 2) (2 * p) (a / 2 / p)
    ∙ mod-eq_of_lt (omega (arith, mod-lt (a / 2) h))
  where
    split : a ≡ 2 * (a / 2 % p) + a % 2 + 2 * p * (a / 2 / p)
    split = omega (arith, div-add-mod (a / 2) p)

half-mask : (k : ℕ) → ((2 ^ suc k - 1) / 2 ≡ 2 ^ k - 1) × ((2 ^ suc k - 1) % 2 ≡ 1)
half-mask k = omega (arith, pow-suc 2 k, pow_pos k)

-- Masking with k ones is the remainder by 2 ^ k.
pub bit_and-mask : (k a : ℕ) → bit_and a (2 ^ k - 1) ≡ a % 2 ^ k
bit_and-mask zero a = omega (arith, bit_and-zero_below a a (omega arith))
bit_and-mask (suc k) a = ground (
  arith,
  bit_and-halves a (2 ^ suc k - 1),
  half-mask k,
  bit_and-mask k (a / 2),
  mod-double (2 ^ k) a (pow_pos k),
  pow-suc 2 k,
)

pub mul_split : (c a b t : ℕ) → t ≡ a + b → c * t ≡ c * a + c * b
mul_split c a b t e = grind arith
