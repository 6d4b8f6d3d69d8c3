-- ===== src/Align.antt =====
-- include/dsio/align.hpp and src/align.cpp: alignment arithmetic, and the block size of a path.
pub mod Laws
pub mod BlockSize
mod Examples
use forge_dsio.Prelude.{ℕ, ◌==◌, ◌!=◌, bit_and, ◌&&◌, Bool, Option, none, some, if◌then◌else◌}
use forge_dsio.Prelude.Words.{add_u64, sub_u64, not_u64}

-- The condition of the `assert` in each helper.
unfoldable pub power_of_two : ℕ → Bool
power_of_two alignment = alignment != 0 && bit_and alignment (sub_u64 alignment 1) == 0

-- `none` is the failed `assert`.
unfoldable pub is_aligned : ℕ → ℕ → Option Bool
is_aligned value alignment =
    if power_of_two alignment then some (bit_and value (sub_u64 alignment 1) == 0) else none

unfoldable pub align_up : ℕ → ℕ → Option ℕ
align_up value alignment =
    if power_of_two alignment
    then some (bit_and (sub_u64 (add_u64 value alignment) 1) (not_u64 (sub_u64 alignment 1)))
    else none

unfoldable pub align_down : ℕ → ℕ → Option ℕ
align_down value alignment =
    if power_of_two alignment then some (bit_and value (not_u64 (sub_u64 alignment 1))) else none
