-- ===== src/Dataset/Batches/Scenario.antt =====
-- A run of `for_each_batch` over two shards, step by step.
use forge_dsio.Prelude.{
  ℕ, ◌≡◌, refl, true, false, ◌==◌, if◌then◌else◌, none, some, List, [], ◌∷◌, ◌++◌, replicate, ok,
  Outcome,
}
use forge_dsio.Prelude.Words.{add_u64}
use forge_dsio.Align.BlockSize.{block_size, from_device, statfs_block}
use forge_dsio.Error.{Error, Text}
use forge_dsio.File.{Bytes, open_file, close, move_assign}
use forge_dsio.Shard.{ShardSet, shard_end}
use forge_dsio.Dataset.{BatchOptions, ShardStream, new_stream, take_free, release, flush_carry}
use forge_dsio.Dataset.Pipeline.{
  complete, fill_pipeline, plan, push_request, request_length, settle_completion, await_front,
}
use forge_dsio.Dataset.Stream.{
  read, read_from, open_shard, prepare_buffers, alloc_buffers, segment_size, take_front, consume,
  close_shard,
}
use forge_dsio.Dataset.Batches.{
  Batch, Answer, goes_on, System, returned, done, for_each_batch, started, Source, stream_source,
  Reach, feed, stream_order, iota, after_read, after_call, after_return, after_close, take_error,
  here, later, take_buffer, read_batch, send_batch, end_stream, get_batch, call, give_back,
  ready_ended, close_free, close_ready, check_error,
}
use forge_dsio.Dataset.Batches.Fixture.{
  Queue, queue, World, world_os, files, Memory, memory, opener, alloc,
}
use forge_dsio.Dataset.Batches.Laws.{first}

abbrev pub world : World
world = record {
  disk = record {
    fds = [];
    next = 3;
    written = λ p. 0;
    signals = 0;
    regions = [];
    shown = λ a. (0, 0);
  };
  names = λ fd. [];
}

-- The window from 4 to 9 of one file, and the other file.
abbrev pub shards : ShardSet
shards =
    record { path = []; offset = 4; length = 5 }
    ∷ record { path = 7 ∷ []; offset = 0; length = 4 }
    ∷ []

abbrev pub options : BatchOptions
options = record { batch_bytes = 8; prefetch = 1; read_depth = 4; segment_bytes = 0; seed = 0 }

-- A callback that collects the batches.
abbrev pub collect : Bytes → List Bytes → Answer × List Bytes
collect b seen = (goes_on, seen ++ b ∷ [])

abbrev pub Example : Type 0
Example = System (ShardStream Memory × World) (List Bytes) (Queue Batch)

abbrev pub keep_order : ℕ → List ℕ → List ℕ
keep_order seed order = order

abbrev pub Run : Example → Example → Type 0
Run = Reach queue (stream_source world_os alloc opener memory 8 16) collect

abbrev pub begin : Outcome Error Example
begin = for_each_batch queue keep_order shards options world []

abbrev pub begun : Example
begun = started queue options (first keep_order shards options world) []

pub begin-begun : begin ≡ ok begun
unfolding for_each_batch
begin-begun = refl

abbrev pub stream : Source (ShardStream Memory × World)
stream = stream_source world_os alloc opener memory 8 16

abbrev pub from : ShardStream Memory × World
from = first keep_order shards options world

-- The paths of the descriptors that opening the two files has used.
abbrev pub path_of : ℕ → Text
path_of x =
    if x == 6
    then 7 ∷ []
    else if x == 5
    then 7 ∷ []
    else if x == 4
    then []
    else if x == 3
    then []
    else []

abbrev pub second_open : ShardStream Memory
second_open = record {
  shards = shards;
  order = 0 ∷ 1 ∷ [];
  options = options;
  read_depth = 4;
  next = 1;
  file = record { fd = some 5; path = 7 ∷ []; alignment = 4 };
  backend = some (record { file = files (7 ∷ []); requests = [] });
  buffers =
      (21 ∷ 22 ∷ 23 ∷ 24 ∷ replicate 4 0)
      ∷ (9 ∷ replicate 7 0)
      ∷ replicate 8 0
      ∷ replicate 8 0
      ∷ [];
  free = replicate 4 true;
  pending = [];
  block = 4;
  segment = 8;
  window_end = 4;
  next_offset = 4;
  is_open = true;
  carry = 24 ∷ [];
}

abbrev pub world_with : List ℕ → World
world_with fds = record {
  disk = record {
    fds = fds;
    next = 7;
    written = λ p. 0;
    signals = 0;
    regions = [];
    shown = λ a. (0, 0);
  };
  names = path_of;
}

-- The states of the stream behind its batches.
abbrev pub behind : ShardStream Memory × World
behind = (second_open, world_with (5 ∷ []))

abbrev pub at_last : ShardStream Memory × World
at_last = (
  record second_open {
    next = 2;
    file = record { fd = none; path = []; alignment = 0 };
    backend = none;
    is_open = false;
    carry = [];
  },
  world_with [],
)

pub first_read : stream 8 from ≡ some (ok (5 ∷ 6 ∷ 7 ∷ 8 ∷ 9 ∷ 21 ∷ 22 ∷ 23 ∷ []), behind)
unfolding started feed stream_source stream_order iota new_stream read read_from flush_carry
    open_shard open_file block_size from_device statfs_block prepare_buffers alloc_buffers
    segment_size move_assign close fill_pipeline plan take_free push_request request_length
    settle_completion await_front take_front consume close_shard release after_read after_call
    after_return after_close take_error shard_end add_u64 complete
first_read = refl

pub second_read : stream 8 behind ≡ some (ok (24 ∷ []), at_last)
unfolding started feed stream_source stream_order iota new_stream read read_from flush_carry
    open_shard open_file block_size from_device statfs_block prepare_buffers alloc_buffers
    segment_size move_assign close fill_pipeline plan take_free push_request request_length
    settle_completion await_front take_front consume close_shard release after_read after_call
    after_return after_close take_error shard_end add_u64 complete
second_read = refl

pub third_read : stream 8 at_last ≡ some (ok [], at_last)
unfolding started feed stream_source stream_order iota new_stream read read_from flush_carry
    open_shard open_file block_size from_device statfs_block prepare_buffers alloc_buffers
    segment_size move_assign close fill_pipeline plan take_free push_request request_length
    settle_completion await_front take_front consume close_shard release after_read after_call
    after_return after_close take_error shard_end add_u64 complete
third_read = refl

-- Two batches, read ahead of the callback, then the end of the stream.
pub whole_run :
    (t : Example) × Run begun t
    × (t.caller ≡ done (returned (ok tt)))
    × (t.seen ≡ (5 ∷ 6 ∷ 7 ∷ 8 ∷ 9 ∷ 21 ∷ 22 ∷ 23 ∷ []) ∷ (24 ∷ []) ∷ [])
unfolding started feed after_read after_call after_return after_close take_error
whole_run = (
  _,
  later
      (later
        (later
          (later
            (later
              (later
                (later
                  (later
                    (later
                      (later
                        (later
                          (later
                            (later
                              (later
                                (later
                                  (later
                                    (later
                                      (later (later here (take_buffer refl refl))
                                        (read_batch refl first_read))
                                      (send_batch refl refl))
                                    (take_buffer refl refl))
                                  (read_batch refl second_read))
                                (get_batch refl refl))
                              (send_batch refl refl))
                            (call refl refl))
                          (give_back refl refl))
                        (take_buffer refl refl))
                      (read_batch refl third_read))
                    (get_batch refl refl))
                  (end_stream refl))
                (call refl refl))
              (give_back refl refl))
            (ready_ended refl refl))
          (close_free refl))
        (close_ready refl))
      (check_error refl),
  refl,
  refl,
)

abbrev pub last : Example
last = whole_run.0
