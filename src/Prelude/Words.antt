-- ===== src/Prelude/Words.antt =====
-- 64-bit words (`std::size_t`, `std::uint64_t`) as native numbers below `2 ^ 64`.
use native.Mathlib.Nat.{one-le-pow, pow-succ', suc-add, zero-add}
use forge_dsio.Prelude.{ℕ, zero, suc, ◌+◌, ◌-◌, ◌*◌, ◌%◌, ◌^◌, ◌<◌, ◌≡◌, arith}

abbrev pub u64_mod : ℕ
u64_mod = 2 ^ 64

-- Sum and difference of two words; `-` on ℕ stops at 0, so the modulus is added first.
unfoldable pub add_u64 : ℕ → ℕ → ℕ
add_u64 a b = (a + b) % u64_mod

unfoldable pub sub_u64 : ℕ → ℕ → ℕ
sub_u64 a b = (a + u64_mod - b) % u64_mod

-- The complement `~a`.
abbrev pub not_u64 : ℕ → ℕ
not_u64 a = u64_mod - 1 - a

pub add_u64_lt : (a b : ℕ) → add_u64 a b < u64_mod
unfolding add_u64
add_u64_lt a b = omega arith

pub add_u64_fits : (a b : ℕ) → a + b < u64_mod → add_u64 a b ≡ a + b
unfolding add_u64
add_u64_fits a b h = omega arith

pub sub_u64_fits : (a b : ℕ) → b < a + 1 → a < u64_mod → sub_u64 a b ≡ a - b
unfolding sub_u64
sub_u64_fits a b h fits = omega arith

pub pow_split : (j k : ℕ) → 2 ^ (j + k) ≡ 2 ^ j * 2 ^ k
pow_split zero k = rw (zero-add k) (omega arith)
pow_split (suc j) k =
    rw (suc-add j k, pow-succ' 2 (j + k), pow-succ' 2 j, pow_split j k) (omega arith)

pub two_pow_pos : (k : ℕ) → 0 < 2 ^ k
two_pow_pos k = one-le-pow k 2 (omega arith)
