-- ===== src/Dataset/Content.antt =====
-- What `ShardStream` relies on of a backend and of the files, for the content of its batches: a read
-- that completes without an error has the bytes of its file, up to the end of the file.
pub mod Slots
pub mod Flight
pub mod State
pub mod Filling
pub mod Awaiting
pub mod Returning
pub mod Available
pub mod Limits
pub mod Ending
pub mod Workers
pub mod Threads
pub mod Preparing
pub mod Opening
pub mod Consuming
pub mod Reading
pub mod Giving
use forge_dsio.Prelude.{
  ℕ, ◌+◌, ◌-◌, ◌≤◌, ◌<◌, ◌≡◌, ◌≢◌, List, [], ◌∷◌, ◌++◌, length, take, drop, min, Outcome, ok, err,
  Option, none, some, get_elem?,
}
use forge_dsio.Error.{Error, Text}
use forge_dsio.Os.{Os, Sys, done, failed, Flags}
use forge_dsio.File.{Bytes}
use forge_dsio.Backend.{ReadRequest, Completion, BackendOptions, BackendOps}
use forge_dsio.Shard.{Shard, ShardSet, shard_end}
use forge_dsio.Dataset.Stream.{Opener}

-- A completion without an error answers a request for a file with these bytes: no read is short but at
-- the end of the file.
pub record Answers (content : Bytes) (r : ReadRequest) (c : Completion) : Type 0 where
  pub token : c.token ≡ r.token
  pub bytes : c.error ≡ 0 → c.bytes ≡ min r.size (length content - r.offset)
  pub landed : c.error ≡ 0 → c.landed ≡ take r.size (drop r.offset content)

-- The requests in flight and the file of a backend. Requests complete in any order.
pub record Serves {B W : Type 0} (ops : BackendOps B W) : Type 0 where
  pub flying : B → List ReadRequest
  pub content : B → Bytes
  pub on_submit :
      (rs : List ReadRequest) (b b' : B) (w w' : W)
      → ops.submit rs b w ≡ (ok tt, b', w')
      → (flying b' ≡ flying b ++ rs) × (content b' ≡ content b)
  pub on_reap :
      (b b' : B) (w w' : W) (c : Completion) (more : List Completion)
      → ops.reap 1 1 b w ≡ (ok (c ∷ more), b', w')
      → (r : ReadRequest) × (xs : List ReadRequest) × (ys : List ReadRequest) × (flying b
          ≡ xs ++ r ∷ ys)
        × (flying b' ≡ xs ++ ys)
        × (content b' ≡ content b)
        × Answers (content b) r c

-- The path that a descriptor was last opened with, and the file behind a path, which does not change.
-- The block sizes of devices are at most `most`, and those of file systems are not 0 either.
pub record Names {B W : Type 0} (os : Os W) (opener : Opener B W) {ops : BackendOps B W}
    (serves : Serves ops) : Type 0 where
  pub name : W → ℕ → Text
  pub files : Text → Bytes
  pub most : ℕ
  pub device_le : (fd n : ℕ) (w : W) → (os.sys_blksszget fd w).0 ≡ done n → n ≤ most
  pub statfs_le :
      (path : Text) (n : ℕ) (w : W) → (os.sys_statfs path w).0 ≡ done n → (0 < n) × (n ≤ most)
  pub on_open :
      (path : Text) (flags : Flags) (mode fd : ℕ) (w : W)
      → (os.sys_open path flags mode w).0 ≡ done fd
      → name (os.sys_open path flags mode w).1 fd ≡ path
  pub on_open_other :
      (path : Text) (flags : Flags) (mode fd other : ℕ) (w : W)
      → (os.sys_open path flags mode w).0 ≡ done fd
      → other ≢ fd
      → name (os.sys_open path flags mode w).1 other ≡ name w other
  pub on_open_fails :
      (path : Text) (flags : Flags) (mode code other : ℕ) (w : W)
      → (os.sys_open path flags mode w).0 ≡ failed code
      → name (os.sys_open path flags mode w).1 other ≡ name w other
  pub on_close : (fd other : ℕ) (w : W) → name (os.sys_close fd w) other ≡ name w other
  pub on_blksszget : (fd other : ℕ) (w : W) → name (os.sys_blksszget fd w).1 other ≡ name w other
  pub on_statfs :
      (path : Text) (other : ℕ) (w : W) → name (os.sys_statfs path w).1 other ≡ name w other
  pub on_open_backend :
      (fd : ℕ) (options : BackendOptions) (b : B) (w w' : W)
      → opener.open_backend fd options w ≡ (ok b, w')
      → (serves.flying b ≡ []) × (serves.content b ≡ files (name w fd))

-- The bytes of the window of a shard, as far as its file has them.
abbrev pub window : (Text → Bytes) → Shard → Bytes
window files shard = drop shard.offset (take (shard_end shard) (files shard.path))

abbrev pub window_at : (Text → Bytes) → Option Shard → Bytes
window_at files none = []
window_at files (some shard) = window files shard

-- The windows of the shards in this order, one behind the other.
abbrev pub windows : (Text → Bytes) → ShardSet → List ℕ → Bytes
windows files shards [] = []
windows files shards (i ∷ order) =
    window_at files (get_elem? shards i) ++ windows files shards order
