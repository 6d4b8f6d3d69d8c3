-- ===== src/Dataset.antt =====
-- include/dsio/dataset.hpp and src/dataset.cpp: the state of `ShardStream`, and its small operations.
pub mod Pipeline
pub mod Stream
pub mod Requests
pub mod Fitting
pub mod Completions
pub mod Laws
pub mod Bounds
pub mod Content
pub mod Channel
pub mod Batches
mod Examples
use forge_dsio.Prelude.{
  ℕ, zero, suc, ◌+◌, ◌==◌, if◌then◌else◌, min, max, Bool, true, false, Option, none, some, List, [],
  ◌∷◌, ◌++◌, length, take, drop, set, map,
}
use forge_dsio.File.{File, Bytes, closed_file}
use forge_dsio.Shard.{ShardSet}

pub record BatchOptions : Type 0 where
  pub batch_bytes : ℕ
  pub prefetch : ℕ
  pub read_depth : ℕ
  pub segment_bytes : ℕ
  pub seed : ℕ

pub record Pending : Type 0 where
  pub offset : ℕ
  pub slot : ℕ
  pub bytes : ℕ
  pub done : Bool

-- The fields, over the state `B` of a backend; `carry` are the first `carry_size_` bytes of `carry_`.
pub record ShardStream (B : Type 0) : Type 0 where
  pub shards : ShardSet
  pub order : List ℕ
  pub options : BatchOptions
  pub read_depth : ℕ
  pub next : ℕ
  pub file : File
  pub backend : Option B
  pub buffers : List Bytes
  pub free : List Bool
  pub pending : List Pending
  pub block : ℕ
  pub segment : ℕ
  pub window_end : ℕ
  pub next_offset : ℕ
  pub is_open : Bool
  pub carry : Bytes

unfoldable pub new_stream : {B : Type 0} → ShardSet → List ℕ → BatchOptions → ShardStream B
new_stream shards order options = record {
  shards = shards;
  order = order;
  options = options;
  read_depth = max options.read_depth 1;
  next = 0;
  file = closed_file;
  backend = none;
  buffers = [];
  free = [];
  pending = [];
  block = 0;
  segment = 0;
  window_end = 0;
  next_offset = 0;
  is_open = false;
  carry = [];
}

abbrev pub shift : Option (ℕ × List Bool) → Option (ℕ × List Bool)
shift none = none
shift (some (slot, free)) = some (suc slot, false ∷ free)

-- The first free slot, and the flags with it taken; `none` is `kNoSlot`.
unfoldable pub take_free : List Bool → Option (ℕ × List Bool)
take_free [] = none
take_free (true ∷ free) = some (0, false ∷ free)
take_free (false ∷ free) = shift (take_free free)

unfoldable pub release : ℕ → List Bool → List Bool
release slot free = set free slot true

-- What goes to the start of an `out` of this size, and what stays carried.
unfoldable pub flush_carry : ℕ → Bytes → Bytes × Bytes
flush_carry room carry =
    (take (min (length carry) room) carry, drop (min (length carry) room) carry)

-- The last entry, and those in front of it: `back()` and `pop_back()`.
unfoldable pub split_last : Pending → List Pending → Pending × List Pending
split_last p [] = (p, [])
split_last p (q ∷ rest) = let (last, front) = split_last q rest in (last, p ∷ front)

-- The loop behind a `submit` that failed: the newest entries give back their slots.
unfoldable pub undo : ℕ → List Bool → List Pending → List Bool × List Pending
undo zero free pending = (free, pending)
undo (suc n) free [] = (free, [])
undo (suc n) free (p ∷ rest) =
    let (last, front) = split_last p rest in undo n (release last.slot free) front
