-- ===== src/Align/Laws.antt =====
-- What the alignment helpers compute, for every power of two below `2 ^ 64`.
use native.Mathlib.Nat.{
  pow-succ', mod_self, mod-eq_of_lt, div-lt_iff_lt-mul, mul-mod_left, div-mul-le_self,
  lt-div-mul-add,
}
use forge_dsio.Prelude.{
  ℕ, zero, suc, ◌+◌, ◌-◌, ◌*◌, ◌/◌, ◌%◌, ◌^◌, ◌≤◌, ◌<◌, bit_and, ◌==◌, ◌≡◌, sym, ap, ◌∙◌, true,
  some, arith,
}
use forge_dsio.Prelude.Bits.{bit_and_low, bit_and_high}
use forge_dsio.Prelude.Words.{u64_mod, add_u64, sub_u64, not_u64, pow_split, two_pow_pos}
use forge_dsio.Align.{power_of_two, is_aligned, align_up, align_down}

small : (p q : ℕ) → 1 ≤ p → 1 ≤ q → q < 2 * p * q
small p q hp hq = grind arith

low_quotient : (x q : ℕ) → x < q → x / q * q ≡ 0
low_quotient x q h = grind arith

complement : (p q : ℕ) → p * q ≡ u64_mod → 1 ≤ p → 1 ≤ q → not_u64 (q - 1) ≡ (p - 1) * q
complement zero q e hp hq = absurd (omega arith)
complement (suc p) q e hp hq = let less : suc p - 1 ≡ p = omega arith in rw less (omega arith)

-- `2 ^ 64` is `2 ^ j * 2 ^ k`, where `2 ^ k` is the alignment.
module _ (j k : ℕ) (width : suc j + k ≡ 64) where
  word : 2 ^ suc j * 2 ^ k ≡ u64_mod
  word = sym (pow_split (suc j) k) ∙ ap (λ (n : ℕ). 2 ^ n) width

  alignment_fits : 2 ^ k < u64_mod
  alignment_fits =
      ground (arith, word, pow-succ' 2 j, two_pow_pos j, two_pow_pos k, small (2 ^ j) (2 ^ k))

  -- The quotient of a word by the alignment fits the digits above it.
  quotient_fits : (v : ℕ) → v < u64_mod → v / 2 ^ k % 2 ^ suc j ≡ v / 2 ^ k
  quotient_fits v h = mod-eq_of_lt ((div-lt_iff_lt-mul (two_pow_pos k)).1 (rw word h))

  sub_one : sub_u64 (2 ^ k) 1 ≡ 2 ^ k - 1
  unfolding sub_u64
  sub_one = ground (arith, two_pow_pos k, alignment_fits)

  assertion : power_of_two (2 ^ k) ≡ true
  unfolding power_of_two
  assertion = ground (arith, two_pow_pos k, sub_one, bit_and_low k (2 ^ k), mod_self (2 ^ k))

  high_mask : not_u64 (2 ^ k - 1) ≡ (2 ^ suc j - 1) * 2 ^ k
  high_mask = complement (2 ^ suc j) (2 ^ k) word (two_pow_pos (suc j)) (two_pow_pos k)

  clear_low : (v : ℕ) → v < u64_mod → bit_and v (not_u64 (2 ^ k - 1)) ≡ v / 2 ^ k * 2 ^ k
  clear_low v h =
      rw (high_mask, bit_and_high k v (2 ^ suc j - 1), bit_and_low (suc j) (v / 2 ^ k))
        (rw (quotient_fits v h))

  is_aligned_lem : (v : ℕ) → is_aligned v (2 ^ k) ≡ some (v % 2 ^ k == 0)
  unfolding is_aligned
  is_aligned_lem v = rw (assertion, sub_one, bit_and_low k v)

  align_down_lem : (v : ℕ) → v < u64_mod → align_down v (2 ^ k) ≡ some (v / 2 ^ k * 2 ^ k)
  unfolding align_down
  align_down_lem v h = rw (assertion, sub_one, clear_low v h)

  -- The sum of the source, before the mask.
  round_up : (v : ℕ) → v + 2 ^ k ≤ u64_mod → sub_u64 (add_u64 v (2 ^ k)) 1 ≡ v + 2 ^ k - 1
  unfolding sub_u64 add_u64
  round_up v h = omega (arith, two_pow_pos k)

  align_up_lem :
      (v : ℕ) → v + 2 ^ k ≤ u64_mod → align_up v (2 ^ k) ≡ some ((v + 2 ^ k - 1) / 2 ^ k * 2 ^ k)
  unfolding align_up
  align_up_lem v h =
      rw (assertion, sub_one, round_up v h)
        (rw (clear_low (v + 2 ^ k - 1) (omega (arith, two_pow_pos k))))

  -- For a power of two `2 ^ k` below `2 ^ 64` and a 64-bit value, the assertion of `align_down`
  -- holds and its result is the greatest multiple of the alignment that is at most the value.
  pub align_down_greatest :
      (v : ℕ)
      → v < u64_mod
      → (r : ℕ) × (align_down v (2 ^ k) ≡ some r) × (r % 2 ^ k ≡ 0) × (r ≤ v) × (v < r + 2 ^ k)
  align_down_greatest v h = (
    v / 2 ^ k * 2 ^ k,
    align_down_lem v h,
    mul-mod_left _ _,
    div-mul-le_self _ _,
    lt-div-mul-add (two_pow_pos k),
  )

  -- For a power of two `2 ^ k` and a value for which `value + 2 ^ k` does not pass `2 ^ 64`, the
  -- assertion of `align_up` holds and its result is the least multiple of the alignment that is at
  -- least the value.
  pub align_up_least :
      (v : ℕ)
      → v + 2 ^ k ≤ u64_mod
      → (r : ℕ) × (align_up v (2 ^ k) ≡ some r) × (r % 2 ^ k ≡ 0) × (v ≤ r) × (r < v + 2 ^ k)
  align_up_least v h = (
    (v + 2 ^ k - 1) / 2 ^ k * 2 ^ k,
    align_up_lem v h,
    mul-mod_left _ _,
    ground (arith, two_pow_pos k, lt-div-mul-add {a = v + 2 ^ k - 1} (two_pow_pos k)),
    ground (arith, two_pow_pos k, div-mul-le_self (v + 2 ^ k - 1) (2 ^ k)),
  )

  -- Beyond the last multiple below `2 ^ 64` the sum wraps.
  round_up_wraps :
      (v : ℕ)
      → v < u64_mod
      → u64_mod < v + 2 ^ k
      → sub_u64 (add_u64 v (2 ^ k)) 1 ≡ v + 2 ^ k - 1 - u64_mod
  unfolding sub_u64 add_u64
  round_up_wraps v h past = omega (arith, alignment_fits)

  -- Above that bound the sum wraps: a 64-bit value beyond the last multiple of `2 ^ k` below
  -- `2 ^ 64` is rounded up to 0.
  pub align_up_wraps : (v : ℕ) → v < u64_mod → u64_mod < v + 2 ^ k → align_up v (2 ^ k) ≡ some 0
  unfolding align_up
  align_up_wraps v h past =
      rw
        (
          assertion,
          sub_one,
          round_up_wraps v h past,
          clear_low (v + 2 ^ k - 1 - u64_mod) (omega (arith, alignment_fits)),
        )
        (ground
          (arith, low_quotient (v + 2 ^ k - 1 - u64_mod) (2 ^ k) (omega (arith, alignment_fits))))
