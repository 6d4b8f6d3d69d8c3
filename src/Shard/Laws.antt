-- ===== src/Shard/Laws.antt =====
-- `Shard::contains` and `ShardSet::total_bytes`.
use forge_dsio.Prelude.{ℕ, ◌+◌, ◌%◌, ◌≤◌, ◌<◌, ◌≡◌, ◌↔◌, ◌∙◌, true, [], ◌∷◌, arith}
use forge_dsio.Prelude.Words.{u64_mod, add_u64}
use forge_dsio.Shard.{Shard, ShardSet, shard_end, contains, total_from, total_bytes}

-- A shard that ends within 64 bits contains the positions from its offset up to its end.
contains_iff :
    (s : Shard) (position : ℕ)
    → s.offset + s.length < u64_mod
    → (contains s position ≡ true) ↔ ((s.offset ≤ position) × (position < s.offset + s.length))
unfolding contains shard_end add_u64
contains_iff s position fits = ground arith

abbrev sum : ShardSet → ℕ
sum [] = 0
sum (s ∷ set) = s.length + sum set

total_from-sum :
    (total : ℕ) (set : ShardSet)
    → total < u64_mod
    → total_from total set ≡ (total + sum set) % u64_mod
unfolding total_from add_u64
total_from-sum total [] fits = omega arith
total_from-sum total (s ∷ set) fits =
    total_from-sum ((total + s.length) % u64_mod) set (omega arith) ∙ omega arith

-- `total_bytes` is the sum of the lengths, modulo `2 ^ 64`.
total_bytes-sum : (set : ShardSet) → total_bytes set ≡ sum set % u64_mod
unfolding total_bytes
total_bytes-sum set = omega (arith, total_from-sum 0 set (omega arith))
