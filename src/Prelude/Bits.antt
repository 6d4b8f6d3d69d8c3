-- ===== src/Prelude/Bits.antt =====
-- `&` of 64-bit words with a low mask `2 ^ k - 1` and with its complement, as arithmetic.
use Prim.Native.Nat.{digits, bit_and-bitwise}
use mathlib.Core.WellFounded
use native.Mathlib.Nat.{pow-succ', one-le-pow}
use forge_dsio.Prelude.{
  ℕ, zero, suc, ◌+◌, ◌-◌, ◌*◌, ◌/◌, ◌%◌, ◌^◌, ◌≤◌, ◌<◌, min, bit_and, ◌≡◌, refl, arith,
}
use forge_dsio.Prelude.Order.{lt_wf}

-- The digit recursion that `bit_and` stands for gives one value for every fuel that suffices.
abbrev and_fuel : ℕ → ℕ → ℕ → ℕ
and_fuel n x y = digits (λ _. zero) min n x y

and_fuel_irrelevant : (n m x y : ℕ) → x ≤ n → x ≤ m → and_fuel n x y ≡ and_fuel m x y
and_fuel_irrelevant zero zero x y p q = refl
and_fuel_irrelevant zero (suc m) zero y p q = refl
and_fuel_irrelevant zero (suc m) (suc x) y p q = absurd (omega arith)
and_fuel_irrelevant (suc n) zero zero y p q = refl
and_fuel_irrelevant (suc n) zero (suc x) y p q = absurd (omega arith)
and_fuel_irrelevant (suc n) (suc m) zero y p q = refl
and_fuel_irrelevant (suc n) (suc m) (suc x) y p q =
    omega (arith, and_fuel_irrelevant n m (suc x / 2) (y / 2) (omega arith) (omega arith))

zero-bit_and : (y : ℕ) → bit_and 0 y ≡ 0
zero-bit_and y = bit_and-bitwise 0 y

-- One binary digit at a time.
pub bit_and_digit : (x y : ℕ) → bit_and x y ≡ bit_and (x / 2) (y / 2) * 2 + min (x % 2) (y % 2)
bit_and_digit zero y = omega (arith, zero-bit_and y, zero-bit_and (y / 2))
bit_and_digit (suc x) y = omega (
  arith,
  bit_and-bitwise (suc x) y,
  bit_and-bitwise (suc x / 2) (y / 2),
  and_fuel_irrelevant x (suc x / 2) (suc x / 2) (y / 2) (omega arith) (omega arith),
)

pub bit_and-zero : (x : ℕ) → bit_and x 0 ≡ 0
bit_and-zero x = WellFounded.induction lt_wf {C = λ n. bit_and n 0 ≡ 0} x λ n ih. halve n ih
  where
    halve : (n : ℕ) → ((m : ℕ) → m < n → bit_and m 0 ≡ 0) → bit_and n 0 ≡ 0
    halve zero ih = refl
    halve (suc n) ih = omega (arith, bit_and_digit (suc n) 0, ih (suc n / 2) (omega arith))

-- Dividing by `2 * p` is halving first.
div_double : (x p : ℕ) → 0 < p → x / (2 * p) ≡ x / 2 / p
div_double x p h = grind arith

mod_double : (x p : ℕ) → 0 < p → x % (2 * p) ≡ x / 2 % p * 2 + x % 2
mod_double x p h = grind arith

-- A mask of `k` ones is the remainder by `2 ^ k`.
pub bit_and_low : (k x : ℕ) → bit_and x (2 ^ k - 1) ≡ x % 2 ^ k
bit_and_low zero x = omega (arith, bit_and-zero x)
bit_and_low (suc k) x = rw (pow-succ' 2 k) (
    ground (
      arith,
      one-le-pow k 2,
      bit_and_digit x (2 * 2 ^ k - 1),
      bit_and_low k (x / 2),
      mod_double x (2 ^ k),
    ))

-- A mask above `k` zeros clears the remainder, and masks the quotient.
pub bit_and_high : (k x y : ℕ) → bit_and x (y * 2 ^ k) ≡ bit_and (x / 2 ^ k) y * 2 ^ k
bit_and_high zero x y = ground arith
bit_and_high (suc k) x y = rw (pow-succ' 2 k) (
    ground (
      arith,
      one-le-pow k 2,
      bit_and_digit x (y * (2 * 2 ^ k)),
      bit_and_high k (x / 2) y,
      div_double x (2 ^ k),
    ))
