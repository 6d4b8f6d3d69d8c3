-- ===== src/Dataset/Stream.antt =====
-- `open_shard`, `close_shard` and `read` of `ShardStream`.
use forge_dsio.Prelude.{
  ℕ, zero, suc, ◌-◌, ◌*◌, ◌%◌, ◌==◌, ◌&&◌, not, ltb, if◌then◌else◌, min, max, Bool, true, false,
  Option, none, some, List, [], ◌∷◌, ◌++◌, length, get_elem?, get_or, take, drop, replicate,
  Outcome, ok, err, ◌>>=◌,
}
use forge_dsio.Error.{Error, stream_allocation}
use forge_dsio.Os.{Os}
use forge_dsio.File.{File, Bytes, direct_read, closed_file, open_file, close, move_assign}
use forge_dsio.Shard.{Shard, shard_end}
use forge_dsio.Backend.{BackendOptions, BackendOps}
use forge_dsio.Reader.{Alloc}
use forge_dsio.Dataset.{BatchOptions, Pending, ShardStream, release, flush_carry}
use forge_dsio.Dataset.Pipeline.{fill_pipeline, await_front}

-- The segment size: the option, or the batch size between a block and 256 KiB, in whole blocks.
unfoldable pub segment_size : BatchOptions → ℕ → ℕ
segment_size options block =
    let target =
      if options.segment_bytes == 0
      then min (max block options.batch_bytes) (256 * 1024)
      else options.segment_bytes in
    target - target % block

-- `n` buffers, or the error of the first that cannot be had.
unfoldable pub alloc_buffers : Alloc → ℕ → ℕ → ℕ → Outcome Error (List Bytes)
alloc_buffers alloc zero segment block = ok []
alloc_buffers alloc (suc n) segment block =
    let rest = alloc_buffers alloc n segment block in
    elim (alloc segment block) [
      | err e ↦ err (stream_allocation e)
      | ok buffer ↦ elim rest [ err e ↦ err e | ok buffers ↦ ok (buffer ∷ buffers) ]
    ]

abbrev pub has_buffers : {B : Type 0} → ShardStream B → ℕ → ℕ → Bool
has_buffers s block segment =
    not (length s.buffers == 0)
    && (s.block == block)
    && (s.segment == segment)
    && (length s.buffers == s.read_depth)

abbrev pub with_buffers :
    {B : Type 0}
    → ShardStream B
    → ℕ
    → ℕ
    → Outcome Error (List Bytes)
    → Outcome Error (ShardStream B)
with_buffers s block segment (err e) = err e
with_buffers s block segment (ok buffers) = ok (record s {
  buffers = buffers;
  free = replicate s.read_depth true;
  block = block;
  segment = segment;
})

-- The buffers are kept from shard to shard where the sizes stay.
unfoldable pub prepare_buffers :
    {B : Type 0} → Alloc → ShardStream B → ℕ → ℕ → Outcome Error (ShardStream B)
unfolding alloc_buffers
prepare_buffers alloc s block segment =
    if has_buffers s block segment
    then ok s
    else with_buffers s block segment (alloc_buffers alloc s.read_depth segment block)

-- `open_backend` for a descriptor, and the destructor of a backend.
pub record Opener (B W : Type 0) : Type 0 where
  pub open_backend : ℕ → BackendOptions → W → Outcome Error B × W
  pub destroy : B → W → W

-- The result of a step of the stream, the stream and the system after it.
abbrev pub After : Type 0 → Type 0 → Type 0 → Type 0
After A B W = Outcome Error A × ShardStream B × W

module _ {B W : Type 0} (os : Os W) (alloc : Alloc) (opener : Opener B W) where
  -- The local file is closed where the function returns an error.
  abbrev pub fail_open : File → Error → ShardStream B → W → After (Unit {0}) B W
  fail_open file e s w = (err e, s, (close os file w).1)

  -- The members once the backend is there: `file_` is assigned, and what it held before is closed.
  abbrev pub start_shard : Shard → File → ShardStream B → Outcome Error B × W → After (Unit {0}) B W
  start_shard shard file s (err e, w) = fail_open file e s w
  start_shard shard file s (ok b, w) =
      let (this, other, w') = move_assign os false s.file file w in
      (
        ok tt,
        record s {
          file = this;
          backend = some b;
          window_end = shard_end shard;
          next_offset = shard.offset;
          is_open = true;
        },
        w',
      )

  abbrev pub backend_options : ShardStream B → BackendOptions
  backend_options s = record { queue_depth = s.read_depth; threads = min s.read_depth 8 }

  abbrev pub fd_of : File → ℕ
  fd_of f = elim f.fd [ none ↦ 0 | some fd ↦ fd ]

  abbrev pub with_prepared :
      Shard → File → ShardStream B → Outcome Error (ShardStream B) → W → After (Unit {0}) B W
  with_prepared shard file s (err e) w = fail_open file e s w
  with_prepared shard file s (ok s') w =
      start_shard shard file s' (opener.open_backend (fd_of file) (backend_options s') w)

  -- `none`: the alignment is 0, and `target % block` divides by it.
  abbrev pub open_file_of :
      Shard → ShardStream B → Outcome Error File × W → Option (After (Unit {0}) B W)
  open_file_of shard s (err e, w) = some (err e, s, w)
  open_file_of shard s (ok file, w) =
      if file.alignment == 0
      then none
      else some (
          with_prepared shard file s
            (prepare_buffers alloc s file.alignment (segment_size s.options file.alignment)) w)

  -- `none` also where `order_[next_]` or the shard that it names is out of range.
  unfoldable pub open_shard : ShardStream B → W → Option (After (Unit {0}) B W)
  open_shard s w = do
    index ← get_elem? s.order s.next
    shard ← get_elem? s.shards index
    open_file_of shard s (open_file os shard.path direct_read w)

  abbrev pub reset_backend : Option B → W → W
  reset_backend none w = w
  reset_backend (some b) w = opener.destroy b w

  -- The slots of the entries that are dropped are not released.
  unfoldable pub close_shard : ShardStream B → W → ShardStream B × W
  close_shard s w =
      let (file, other, w') = move_assign os false s.file closed_file (reset_backend s.backend w) in
      (
        record s { file = file; backend = none; pending = []; is_open = false; next = suc s.next },
        w',
      )

  -- The bytes that the front entry gives to a batch that lacks `room` bytes, and what is carried.
  unfoldable pub consume : ℕ → Pending → List Pending → ShardStream B → Bytes × ShardStream B
  consume room p rest s =
      let buffer = get_or s.buffers p.slot [] in
      let taken = min room p.bytes in
      (
        take taken buffer,
        record s {
          carry =
              (if ltb 0 (p.bytes - taken)
                then take (p.bytes - taken) (drop taken buffer)
                else s.carry);
          free = release p.slot s.free;
          pending = rest;
        },
      )

module _ {B W : Type 0} (os : Os W) (alloc : Alloc) (opener : Opener B W) (ops : BackendOps B W)
    (rounds : ℕ) where
  abbrev pub Read : Type 0
  Read = Option (After Bytes B W)

  -- After the oldest entry is complete: its bytes, and whether the batch, the shard or neither ends.
  unfoldable pub take_front :
      (Bytes → ShardStream B → W → Read) → ℕ → Bytes → ShardStream B → W → Read
  take_front next room out s w = elim s.pending [
    | [] ↦ none
    | p ∷ rest ↦
        let (bytes, s') = consume os alloc opener (room - length out) p rest s in
        let closed = close_shard os alloc opener s' w in
        if ltb (room - length out) p.bytes
        then some (ok (out ++ bytes), s', w)
        else if p.bytes == 0
        then next (out ++ bytes) closed.0 closed.1
        else next (out ++ bytes) s' w
  ]

  abbrev pub awaited : (Bytes → ShardStream B → W → Read) → ℕ → Bytes → After (Unit {0}) B W → Read
  awaited next room out (err e, s, w) = some (err e, s, w)
  awaited next room out (ok _, s, w) = take_front next room out s w

  -- After `fill_pipeline`: with nothing in flight the shard is exhausted.
  abbrev pub filled : (Bytes → ShardStream B → W → Read) → ℕ → Bytes → After (Unit {0}) B W → Read
  filled next room out (err e, s, w) = some (err e, s, w)
  filled next room out (ok _, s, w) = elim s.pending [
    | [] ↦ let closed = close_shard os alloc opener s w in next out closed.0 closed.1
    | _ ∷ _ ↦ await_front ops rounds s w >>= awaited next room out
  ]

  abbrev pub opened : (Bytes → ShardStream B → W → Read) → ℕ → Bytes → After (Unit {0}) B W → Read
  opened next room out (err e, s, w) = some (err e, s, w)
  opened next room out (ok _, s, w) = filled next room out (fill_pipeline ops s w)

  -- The loop of `read`, with the bytes of `out` so far; `none` where the turns are used up.
  unfoldable pub read_from : ℕ → ℕ → Bytes → ShardStream B → W → Read
  read_from zero room out s w = none
  read_from (suc turns) room out s w =
      let next : Bytes → ShardStream B → W → Read = λ out' s' w'. read_from turns room out' s' w' in
      if ltb (length out) room
      then if s.is_open
        then filled next room out (fill_pipeline ops s w)
        else if ltb s.next (length s.order)
        then open_shard os alloc opener s w >>= opened next room out
        else some (ok out, s, w)
      else some (ok out, s, w)

  -- The bytes that `read` puts into an `out` of this size.
  unfoldable pub read : ℕ → ℕ → ShardStream B → W → Read
  unfolding read_from
  read turns room s w =
      let (bytes, carry) = flush_carry room s.carry in
      read_from turns room bytes (record s { carry = carry }) w
