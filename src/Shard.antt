-- ===== src/Shard.antt =====
-- include/dsio/shard.hpp and src/shard.cpp: shards, shard sets and their manifest.
pub mod Text
pub mod Paths
pub mod Load
pub mod Save
pub mod Discover
pub mod RoundTrip
pub mod Laws
mod Examples
use forge_dsio.Prelude.{
  ℕ, ◌+◌, ◌%◌, ◌≡◌, refl, ◌&&◌, leb, ltb, Bool, Option, List, [], ◌∷◌, ◌++◌, get_elem?, map,
  length as size_of, arith,
}
use forge_dsio.Prelude.Words.{u64_mod, add_u64}

pub record Shard : Type 0 where
  pub path : List ℕ
  pub offset : ℕ
  pub length : ℕ

-- `end()`, in 64 bits.
unfoldable pub shard_end : Shard → ℕ
shard_end s = add_u64 s.offset s.length

unfoldable pub contains : Shard → ℕ → Bool
unfolding shard_end
contains s position = leb s.offset position && ltb position (shard_end s)

-- `shards_`.
abbrev pub ShardSet : Type 0
ShardSet = List Shard

unfoldable pub add : Shard → ShardSet → ShardSet
add s set = set ++ (s ∷ [])

abbrev pub size : ShardSet → ℕ
size = size_of

abbrev pub at : ShardSet → ℕ → Option Shard
at = get_elem?

-- The loop of `total_bytes`.
unfoldable pub total_from : ℕ → ShardSet → ℕ
total_from total [] = total
total_from total (s ∷ set) = total_from (add_u64 total s.length) set

unfoldable pub total_bytes : ShardSet → ℕ
unfolding total_from
total_bytes set = total_from 0 set
