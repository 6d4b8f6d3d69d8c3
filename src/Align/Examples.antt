-- ===== src/Align/Examples.antt =====
-- The alignment theorems at concrete inputs, and tests.
use forge_dsio.Prelude.{ℕ, ◌+◌, ◌%◌, ◌≤◌, ◌<◌, ◌≡◌, refl, some, none, arith}
use forge_dsio.Prelude.Words.{add_u64, sub_u64}
use forge_dsio.Align.{is_aligned, align_up, align_down, power_of_two}
use forge_dsio.Align.Laws.{align_down_greatest, align_up_least, align_up_wraps}

align_down_greatest_example :
    (r : ℕ) × (align_down 5000 4096 ≡ some r) × (r % 4096 ≡ 0) × (r ≤ 5000) × (5000 < r + 4096)
align_down_greatest_example = align_down_greatest 51 12 (omega arith) 5000 (omega arith)

align_up_least_example :
    (r : ℕ) × (align_up 5000 4096 ≡ some r) × (r % 4096 ≡ 0) × (5000 ≤ r) × (r < 5000 + 4096)
align_up_least_example = align_up_least 51 12 (omega arith) 5000 (omega arith)

align_up_wraps_example : align_up 0xffff_ffff_ffff_f001 4096 ≡ some 0
align_up_wraps_example =
    align_up_wraps 51 12 (omega arith) 0xffff_ffff_ffff_f001 (omega arith) (omega arith)

rounds_up : align_up 5000 4096 ≡ some 8192
unfolding align_up power_of_two sub_u64 add_u64
rounds_up = refl

not_a_power : is_aligned 4096 1000 ≡ none
unfolding is_aligned power_of_two sub_u64 add_u64
not_a_power = refl
