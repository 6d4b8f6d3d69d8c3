-- ===== src/Dataset/Batches/Laws.antt =====
-- `for_each_batch` over the stream of the shards: its result, its buffers, and that it returns.
use forge_dsio.Prelude.{
  ◌⊎◌, inl, inr, ℕ, suc, ◌+◌, ◌*◌, ◌≤◌, ◌<◌, ◌==◌, ◌≡◌, refl, Bool, true, false, Option, none, some,
  List, length, if◌then◌else◌, ok, err, sym, subst, arith,
}
use forge_dsio.Error.{batches_no_bytes, batches_no_prefetch, batches_no_depth}
use forge_dsio.Os.{Os}
use forge_dsio.File.{Bytes}
use forge_dsio.Backend.{BackendOps}
use forge_dsio.Reader.{Alloc}
use forge_dsio.Shard.{ShardSet}
use forge_dsio.Dataset.{BatchOptions, ShardStream, new_stream}
use forge_dsio.Dataset.Stream.{Opener, After, read}
use forge_dsio.Dataset.Bounds.{Within, read-Within}
use forge_dsio.Dataset.Channel.{Channel, ChannelLaws}
use forge_dsio.Dataset.Batches.{
  Batch, Answer, Source, Result, done, System, Reach, started, stream_source, stream_order,
  for_each_batch, joined,
}
use forge_dsio.Dataset.Batches.Buffers.{total, runs, loops}
use forge_dsio.Dataset.Batches.Sizes.{IsBounded, Sizes}
use forge_dsio.Dataset.Batches.Sequence.{Verdict, Sequential, Agrees}
use forge_dsio.Dataset.Batches.Progress.{IsOver}
use forge_dsio.Dataset.Batches.Refinement.{Kept, Reach-Kept, Reach-Sequential}
use forge_dsio.Dataset.Batches.Termination.{IsFinite, steps, Reach-Healthy, Reach-Ends}

-- A premise of two tests, as a choice.
kept_or : {P : Type 0} (a b : Bool) → (a ≡ true → b ≡ true → P) → P ⊎ (a ≡ false) ⊎ (b ≡ false)
kept_or true true h = inl (h refl refl)
kept_or false b h = inr (inl refl)
kept_or true false h = inr (inr refl)

joined-Within :
    {B W : Type 0} (room : ℕ) (o : Option (After Bytes B W)) (p : ShardStream B × W) (got : Bytes)
    → Within room o
    → joined o ≡ some (ok got, p)
    → length got ≤ room
joined-Within room none p got h q = absurd (ground (arith, q))
joined-Within room (some (err e, s, w)) p got h q = absurd (ground (arith, q))
joined-Within room (some (ok g, s, w)) p got h q = ground (arith, h, q)

guards :
    {A : Type 0} (a b c : Bool) (x : A) {y : A}
    → (if a
        then err batches_no_bytes
        else if b
        then err batches_no_prefetch
        else if c
        then err batches_no_depth
        else ok x)
      ≡ ok y
    → (a ≡ false) × (b ≡ false) × (c ≡ false) × (y ≡ x)
guards true b c x q = absurd (ground (arith, q))
guards false true c x q = absurd (ground (arith, q))
guards false false true x q = absurd (ground (arith, q))
guards false false false x q = (refl, refl, refl, ground (arith, q))

-- The stream before its first shard is open.
abbrev pub first :
    {B W : Type 0} → (ℕ → List ℕ → List ℕ) → ShardSet → BatchOptions → W → ShardStream B × W
first shuffle shards options w =
    (new_stream shards (stream_order shuffle shards options) options, w)

-- The options that are refused, and the state in which the threads start.
module _ {B W K C : Type 0} (channel : Channel Batch C) (shuffle : ℕ → List ℕ → List ℕ)
    (shards : ShardSet) (options : BatchOptions) (w : W) (seen : K) where
  for_each_batch-started :
      {s : System (ShardStream B × W) K C}
      → for_each_batch channel shuffle shards options w seen ≡ ok s
      → (0 < options.batch_bytes)
        × (0 < options.prefetch)
        × (0 < options.read_depth)
        × (s ≡ started channel options (first shuffle shards options w) seen)
  unfolding for_each_batch
  for_each_batch-started q =
      let g =
        guards (options.batch_bytes == 0) (options.prefetch == 0) (options.read_depth == 0)
          (started channel options (first shuffle shards options w) seen) q in
      (ground (arith, g), ground (arith, g), ground (arith, g), g.3)

module _ {B W : Type 0} (os : Os W) (alloc : Alloc) (opener : Opener B W) (ops : BackendOps B W)
    (rounds turns : ℕ) where
  stream_source-IsBounded : IsBounded (stream_source os alloc opener ops rounds turns)
  unfolding stream_source
  stream_source-IsBounded n p (t, x) got q =
      joined-Within n (read os alloc opener ops rounds turns n p.0 p.1) (t, x) got
        (read-Within os alloc opener ops rounds turns n p.0 p.1) q

module _ {B W K C : Type 0} (os : Os W) (alloc : Alloc) (opener : Opener B W) (ops : BackendOps B W)
    (rounds turns : ℕ) (channel : Channel Batch C) (laws : ChannelLaws channel)
    (shuffle : ℕ → List ℕ → List ℕ) (callback : Bytes → K → Answer × K) (shards : ShardSet)
    (options : BatchOptions) (w : W) (seen : K) {s : System (ShardStream B × W) K C}
    (begins : for_each_batch channel shuffle shards options w seen ≡ ok s) where
  abbrev stream : Source (ShardStream B × W)
  stream = stream_source os alloc opener ops rounds turns

  abbrev from : ShardStream B × W
  from = first shuffle shards options w

  abbrev Run : System (ShardStream B × W) K C → Type 0
  Run t = Reach channel stream callback s t

  begun :
      (0 < options.batch_bytes)
      × (0 < options.prefetch)
      × (0 < options.read_depth)
      × (s ≡ started channel options from seen)
  begun = for_each_batch-started channel shuffle shards options w seen begins

  Run-started :
      {t : System (ShardStream B × W) K C}
      → Run t
      → Reach channel stream callback (started channel options from seen) t
  Run-started {t} r = subst (λ x. Reach channel stream callback x t) begun.3 r

  Run-Kept :
      {t : System (ShardStream B × W) K C}
      → Run t
      → Kept channel laws stream
          (stream_source-IsBounded os alloc opener ops rounds turns)
          callback
          options
          from
          seen
          t
  Run-Kept r =
      Reach-Kept channel laws stream (stream_source-IsBounded os alloc opener ops rounds turns)
        callback options from seen (Run-started r)

  -- When `for_each_batch` returns, in whatever order the steps of the two threads came, and for
  -- channels that work as documented: the callback has seen the batches that one thread gives it which
  -- reads the stream batch by batch, in their order and once each, and the result is the one of that
  -- thread: success at the end of the stream, the first error of a read, or the exception of the
  -- callback. Where the callback stopped, the result is success, or an error of a read further on.
  pub for_each_batch-Agrees :
      {t : System (ShardStream B × W) K C} (r : Result)
      → Run t
      → t.caller ≡ done r
      → (v : Verdict) × Sequential stream options.batch_bytes callback from seen v t.seen
        × Agrees stream options.batch_bytes callback from v r
  for_each_batch-Agrees r run e =
      Reach-Sequential channel laws stream
        (stream_source-IsBounded os alloc opener ops rounds turns) callback options from seen r
        (Run-started run) e

  -- In every state that the two threads reach in any order, for channels that work as documented, at
  -- most `prefetch + 1` batch buffers are there, each of `batch_bytes`, and at most `prefetch` of them
  -- wait in `ready`. It is `prefetch + 1` until the worker or the caller leaves its loop.
  pub for_each_batch-buffers :
      {t : System (ShardStream B × W) K C}
      → Run t
      → (total channel laws t ≤ suc options.prefetch)
        × (length (laws.contents t.ready) ≤ options.prefetch)
        × ((total channel laws t ≡ suc options.prefetch)
            ⊎ (runs t.worker ≡ false)
            ⊎ (loops t.caller ≡ false))
        × Sizes channel laws options.batch_bytes t
  for_each_batch-buffers {t} run =
      let k = Run-Kept run in
      (
        k.buffers.few,
        k.buffers.ready_fits,
        kept_or (runs t.worker) (loops t.caller) k.buffers.kept,
        k.sizes,
      )

  abbrev EndsFrom : (ShardStream B × W → ℕ) → System (ShardStream B × W) K C → Type 0
  EndsFrom rank x =
      (t : System (ShardStream B × W) K C) (run : Reach channel stream callback x t)
      → (steps run ≤ 6 * rank from + 8)
        × ((u : System (ShardStream B × W) K C) × Reach channel stream callback t u
            × IsOver channel stream callback u)

  -- For channels that work as documented and a stream that comes to an end: a run of the two threads,
  -- in any order, has at most `6 * rank + 8` steps, where `rank` bounds the batches; and from every state
  -- that is reached, the threads come to one where `for_each_batch` has its result and the worker is
  -- joined. So they never wait for each other, also after an error, a stop or an exception.
  pub for_each_batch-Ends :
      (finite : IsFinite stream options.batch_bytes)
      → finite.good from
      → {t : System (ShardStream B × W) K C} (run : Run t)
      → (steps run ≤ 6 * finite.rank from + 8)
        × ((u : System (ShardStream B × W) K C) × Reach channel stream callback t u
            × IsOver channel stream callback u)
  for_each_batch-Ends finite good_from {t} run =
      subst (EndsFrom finite.rank) (sym begun.3) at_start t run
    where
      bounded : IsBounded stream
      bounded = stream_source-IsBounded os alloc opener ops rounds turns

      at_start : EndsFrom finite.rank (started channel options from seen)
      at_start u r = (
        omega (
          arith,
          (Reach-Healthy channel laws stream bounded callback options from seen finite good_from
              r).1,
        ),
        Reach-Ends channel laws stream bounded callback options from seen finite good_from
            (6 * finite.rank from + 8) begun.1 r (omega arith),
      )
