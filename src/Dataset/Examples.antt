-- ===== src/Dataset/Examples.antt =====
-- The theorems about the stream of shards at concrete inputs, and tests.
use forge_dsio.Prelude.{
  ℕ, ◌+◌, ◌≡◌, ◌≢◌, ◌⊎◌, inr, sym, ap, ◌∙◌, length-replicate, Outcome, List, refl, false, true,
  some, [], ◌∷◌, length, replicate, ok, err, arith,
}
use forge_dsio.Prelude.Words.{add_u64}
use forge_dsio.Error.{Text, stream_unknown_request, stream_read_failed, thread_queue_full}
use forge_dsio.Backend.{Completion, BackendOps}
use forge_dsio.File.{Bytes, closed_file}
use forge_dsio.Reader.{Alloc}
use forge_dsio.Dataset.Stream.{prepare_buffers, segment_size, alloc_buffers}
use forge_dsio.Dataset.Content.Slots.{AllOther}
use forge_dsio.Dataset.Fitting.{Allocates, Fits, prepare_buffers-Fits}
use forge_dsio.Dataset.{Pending, ShardStream, BatchOptions, take_free}
use forge_dsio.Dataset.Completions.{Marks, settle_completion-Marks}
use forge_dsio.Dataset.Pipeline.{
  settle_completion, land, plan, push_request, request_length, fill_pipeline,
}
use forge_dsio.Dataset.Laws.{Filled, fill_pipeline-Filled}
use forge_dsio.Dataset.Requests.{IsPlan, plan-IsPlan, Stopped, plan-Stopped}

abbrev options : BatchOptions
options = record { batch_bytes = 8; prefetch = 2; read_depth = 4; segment_bytes = 0; seed = 0 }

-- A shard of 18 bytes from 8 on is open; segments have eight bytes, blocks four.
abbrev stream : ShardStream ℕ
stream = record {
  shards = [];
  order = [];
  options = options;
  read_depth = 4;
  next = 0;
  file = closed_file;
  backend = some 0;
  buffers = replicate 4 (replicate 8 0);
  free = replicate 4 true;
  pending = [];
  block = 4;
  segment = 8;
  window_end = 26;
  next_offset = 8;
  is_open = true;
  carry = [];
}

-- A backend that counts the requests, and one that is always full.
abbrev counting : BackendOps ℕ ℕ
counting = record {
  in_flight = λ b. b;
  submit = λ requests b w. (ok tt, b + length requests, w);
  reap = λ room least b w. (ok [], b, w);
}

abbrev full : BackendOps ℕ ℕ
full = record {
  in_flight = λ b. b;
  submit = λ requests b w. (err thread_queue_full, b, w);
  reap = λ room least b w. (ok [], b, w);
}

fill_pipeline-Filled_example : Filled counting stream (fill_pipeline counting stream 0)
fill_pipeline-Filled_example = fill_pipeline-Filled counting stream 0

plan-IsPlan_example : IsPlan 4 26 8 (plan 4 0 stream).1.next_offset (plan 4 0 stream).0
plan-IsPlan_example = plan-IsPlan 4 0 stream (omega arith) (omega arith)

-- Two of four slots are used: the entries are counted twice.
requests_of_stream :
    (plan 4 0 stream).0
    ≡ record { offset = 8; size = 8; token = 0 } ∷ record { offset = 16; size = 8; token = 1 } ∷ []
unfolding plan push_request request_length take_free add_u64
requests_of_stream = refl

plan-Stopped_example : Stopped (0 + length (plan 4 0 stream).0) (plan 4 0 stream).1
plan-Stopped_example = plan-Stopped 4 0 stream (omega arith)

-- Two reads are in flight, and the second completes first.
abbrev busy : ShardStream ℕ
busy = record stream {
  pending =
      record { offset = 8; slot = 0; bytes = 0; done = false }
      ∷ record { offset = 16; slot = 1; bytes = 0; done = false }
      ∷ [];
}

abbrev second : Completion
second = record { token = 1; bytes = 8; error = 0; landed = replicate 8 7 }

settle_completion-Marks_example :
    ((settle_completion second busy ≡ err stream_unknown_request) × AllOther 1 busy.pending)
    ⊎ ((settle_completion second busy ≡ err (stream_read_failed 0))
        × (second.error ≢ 0)
        × ((after : List Pending) × Marks 26 second busy.pending after))
    ⊎ ((second.error ≡ 0)
        × ((after : List Pending) × Marks 26 second busy.pending after
            × (settle_completion second busy
                ≡ ok (record busy { pending = after; buffers = land second busy.buffers }))))
settle_completion-Marks_example = settle_completion-Marks second busy

-- The stream before it has buffers, and an allocation of zeros.
abbrev bare : ShardStream ℕ
bare = record stream { buffers = []; free = []; block = 0; segment = 0 }

abbrev zeros : Alloc
zeros size block = ok (replicate size 0)

zeros-Allocates : Allocates zeros
zeros-Allocates size block b q = sym (ap bytes_of q) ∙ length-replicate size 0
  where
    bytes_of : Outcome Text Bytes → ℕ
    bytes_of (ok b) = length b
    bytes_of (err e) = 0

-- Three requests for the window of 18 bytes, each within a buffer of eight.
prepare_buffers-Fits_example : Fits stream.buffers (plan 4 0 stream).0
unfolding prepare_buffers segment_size alloc_buffers
prepare_buffers-Fits_example =
    prepare_buffers-Fits zeros zeros-Allocates bare stream options 4 8 26
      (record { long = tt; lens = refl }) (omega arith) (inr (refl, omega arith)) refl 4 0
