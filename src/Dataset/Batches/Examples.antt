-- ===== src/Dataset/Batches/Examples.antt =====
-- The theorems about `for_each_batch` at concrete inputs, and tests.
use forge_dsio.Prelude.{
  ◌⊎◌, inl, inr, sym, ap, ◌∙◌, subst, ◌*◌, ℕ, ◌+◌, ◌-◌, ◌≤◌, ◌<◌, ◌≡◌, ◌≢◌, refl, false, Option,
  none, some, [], ◌∷◌, length, ok, Outcome, arith,
}
use forge_dsio.Prelude.Words.{add_u64}
use forge_dsio.Error.{Error}
use forge_dsio.File.{Bytes}
use forge_dsio.Shard.{shard_end}
use forge_dsio.Dataset.{ShardStream, new_stream}
use forge_dsio.Dataset.Stream.{read}
use forge_dsio.Dataset.Batches.{Batch, returned, Reach, stream_order, iota}
use forge_dsio.Dataset.Batches.Fixture.{
  queue, queue-ChannelLaws, World, world_os, Memory, memory, opener, alloc, memory-Serves,
  world-Names, alloc-Allocates,
}
use forge_dsio.Dataset.Batches.Buffers.{total, runs, loops}
use forge_dsio.Dataset.Batches.Sizes.{Sizes}
use forge_dsio.Dataset.Batches.Order.{Rearranges}
use forge_dsio.Dataset.{new_stream}
use forge_dsio.Dataset.Stream.{read}
use forge_dsio.Dataset.Content.{windows}
use forge_dsio.Dataset.Fitting.{AsksBlock}
use forge_dsio.Dataset.Content.Giving.{Gives, new_stream-Stands}
use forge_dsio.Dataset.Content.Ending.{Returns, read_lem}
use forge_dsio.Dataset.Batches.Finite.{first-Limits, for_each_batch-Finishes}
use forge_dsio.Dataset.Batches.Streams.{InMemory, for_each_batch-Streams}
use forge_dsio.Dataset.Batches.Sequence.{Verdict, Sequential, Agrees}
use forge_dsio.Dataset.Batches.Termination.{IsFinite, steps}
use forge_dsio.Dataset.Batches.Progress.{IsOver}
use forge_dsio.Dataset.Batches.Laws.{
  for_each_batch-Agrees, for_each_batch-buffers, for_each_batch-Ends,
}
use forge_dsio.Dataset.Batches.Scenario.{
  world, shards, options, collect, Example, keep_order, begin-begun, stream, from, behind, at_last,
  first_read, second_read, third_read, whole_run, last,
}

for_each_batch-Agrees_example :
    (v : Verdict) × Sequential stream 8 collect from [] v last.seen
    × Agrees stream 8 collect from v (returned (ok tt))
for_each_batch-Agrees_example =
    for_each_batch-Agrees world_os alloc opener memory 8 16 queue queue-ChannelLaws keep_order
      collect shards options world [] begin-begun (returned (ok tt)) whole_run.1 whole_run.2

for_each_batch-buffers_example :
    (total queue queue-ChannelLaws last ≤ 2)
    × (length ((queue-ChannelLaws {A = Batch}).contents last.ready) ≤ 1)
    × ((total queue queue-ChannelLaws last ≡ 2)
        ⊎ (runs last.worker ≡ false)
        ⊎ (loops last.caller ≡ false))
    × Sizes queue queue-ChannelLaws 8 last
for_each_batch-buffers_example =
    for_each_batch-buffers world_os alloc opener memory 8 16 queue queue-ChannelLaws keep_order
      collect shards options world [] begin-begun whole_run.1

-- The stream has two batches, and is at its end behind them.
abbrev IsState : ShardStream Memory × World → Type 0
IsState p = (p ≡ from) ⊎ (p ≡ behind) ⊎ (p ≡ at_last)

abbrev shards_left : ShardStream Memory × World → ℕ
shards_left (s, d) = length s.order - s.next

abbrev next_state : {S : Type 0} → S → Option (Outcome Error Bytes × S) → S
next_state s none = s
next_state s (some (r, t)) = t

abbrev stream_8 :
    ShardStream Memory × World → Option (Outcome Error Bytes × (ShardStream Memory × World))
stream_8 p = stream 8 p

abbrev got_of : {S : Type 0} → Option (Outcome Error Bytes × S) → Bytes
got_of (some (ok got, s)) = got
got_of _ = []

IsState-returns : (p : ShardStream Memory × World) → IsState p → stream 8 p ≢ none
IsState-returns p (inl q) n = absurd (ground (arith, sym first_read ∙ ap stream_8 (sym q) ∙ n))
IsState-returns p (inr (inl q)) n =
    absurd (ground (arith, sym second_read ∙ ap stream_8 (sym q) ∙ n))
IsState-returns p (inr (inr q)) n =
    absurd (ground (arith, sym third_read ∙ ap stream_8 (sym q) ∙ n))

-- From one state the stream gives the batch `x` and goes to the state `s`, which is nearer the end.
goes_on_to :
    (p s r : ShardStream Memory × World) (x got : Bytes) {o : ShardStream Memory × World}
    → p ≡ o
    → stream 8 o ≡ some (ok x, s)
    → stream 8 p ≡ some (ok got, r)
    → shards_left s < shards_left o
    → (r ≡ s) × (shards_left r < shards_left p)
goes_on_to p s r x got q read n l =
    let f : s ≡ r = ap (next_state p) (sym read ∙ ap stream_8 (sym q) ∙ n) in
    (
      sym f,
      subst (λ y. shards_left y < shards_left p) f
          (subst (λ y. shards_left s < shards_left y) (sym q) l),
    )

IsState-goes_on :
    (p r : ShardStream Memory × World) (got : Bytes)
    → IsState p
    → stream 8 p ≡ some (ok got, r)
    → 0 < length got
    → IsState r × (shards_left r < shards_left p)
unfolding new_stream stream_order
IsState-goes_on p r got (inl q) n l =
    let (e, less) = goes_on_to p behind r _ got q first_read n (omega arith) in (inr (inl e), less)
IsState-goes_on p r got (inr (inl q)) n l =
    let (e, less) = goes_on_to p at_last r _ got q second_read n (omega arith) in
    (inr (inr e), less)
IsState-goes_on p r got (inr (inr q)) n l =
    let f : [] ≡ got = ap got_of (sym third_read ∙ ap stream_8 (sym q) ∙ n) in
    absurd (omega (arith, l, ap length f))

stream-IsFinite : IsFinite stream 8
stream-IsFinite = record {
  good = IsState;
  rank = shards_left;
  returns = IsState-returns;
  goes_on = IsState-goes_on;
}

for_each_batch-Ends_example :
    (steps whole_run.1 ≤ 6 * stream-IsFinite.rank from + 8)
    × ((u : Example) × Reach queue stream collect last u × IsOver queue stream collect u)
unfolding stream-IsFinite
for_each_batch-Ends_example =
    for_each_batch-Ends world_os alloc opener memory 8 16 queue queue-ChannelLaws keep_order collect
      shards options world [] begin-begun stream-IsFinite (inl refl) whole_run.1

asks_block : AsksBlock options 4
asks_block = inr (refl, omega arith)

for_each_batch-Streams_example :
    (v : Verdict) × InMemory 8 collect (5 ∷ 6 ∷ 7 ∷ 8 ∷ 9 ∷ 21 ∷ 22 ∷ 23 ∷ 24 ∷ []) [] v last.seen
    × Agrees stream 8 collect from v (returned (ok tt))
unfolding world-Names stream_order iota shard_end add_u64
for_each_batch-Streams_example =
    for_each_batch-Streams world_os alloc opener memory 8 16 memory-Serves world-Names queue
      queue-ChannelLaws keep_order collect shards options world [] begin-begun alloc-Allocates
      asks_block (returned (ok tt)) whole_run.1 whole_run.2

keep_order-Rearranges : Rearranges keep_order
keep_order-Rearranges = record { long = λ seed xs. refl; from_list = λ seed xs k x e. (k, e) }

for_each_batch-Finishes_example :
    (steps whole_run.1 ≤ 6 * 9 + 8)
    × ((u : Example) × Reach queue stream collect last u × IsOver queue stream collect u)
unfolding world-Names stream_order iota shard_end add_u64
for_each_batch-Finishes_example =
    for_each_batch-Finishes world_os alloc opener memory 8 16 memory-Serves world-Names queue
      queue-ChannelLaws keep_order collect shards options world [] begin-begun keep_order-Rearranges
      alloc-Allocates asks_block (omega arith) (omega arith) whole_run.1

read_lem_example :
    Returns world_os alloc opener memory 8 2 memory-Serves world-Names
      (read world_os alloc opener memory 8 16 8 from.0 from.1)
    × Gives world_os alloc opener memory 8 memory-Serves world-Names 8
        (windows world-Names.files shards (stream_order keep_order shards options))
        (read world_os alloc opener memory 8 16 8 from.0 from.1)
unfolding new_stream stream_order iota world-Names
read_lem_example =
    read_lem world_os alloc opener memory 8 2 memory-Serves world-Names alloc-Allocates 16 8 from.0
      from.1 (windows world-Names.files shards (stream_order keep_order shards options))
      (new_stream-Stands world_os alloc opener memory 8 memory-Serves world-Names shards
        (stream_order keep_order shards options) options asks_block)
      (first-Limits world_os alloc opener memory 8 16 memory-Serves world-Names queue
        queue-ChannelLaws keep_order collect shards options world [] begin-begun
        keep_order-Rearranges (omega arith))
      (omega arith)
