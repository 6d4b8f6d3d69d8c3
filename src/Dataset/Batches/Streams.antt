-- ===== src/Dataset/Batches/Streams.antt =====
-- `for_each_batch` over files: the callback gets the bytes of the windows of the shards.
use mathlib.Core.Option.{some-injective}
use forge_dsio.Prelude.{
  ℕ, ◌<◌, ◌≡◌, refl, sym, ap, ◌∙◌, subst, Option, none, some, List, [], ◌∷◌, length, take, drop,
  Outcome, ok, err, arith,
}
use forge_dsio.Error.{Error}
use forge_dsio.Os.{Os}
use forge_dsio.File.{Bytes}
use forge_dsio.Backend.{BackendOps}
use forge_dsio.Reader.{Alloc}
use forge_dsio.Shard.{ShardSet}
use forge_dsio.Dataset.{BatchOptions, ShardStream}
use forge_dsio.Dataset.Stream.{Opener, After, read}
use forge_dsio.Dataset.Fitting.{Allocates, AsksBlock}
use forge_dsio.Dataset.Channel.{Channel, ChannelLaws}
use forge_dsio.Dataset.Content.{Serves, Names, windows}
use forge_dsio.Dataset.Content.Consuming.{Stands}
use forge_dsio.Dataset.Content.Giving.{Gives, read-Gives, new_stream-Stands}
use forge_dsio.Dataset.Batches.{
  Batch, Answer, goes_on, stops, throws, Source, Result, done, System, Reach, joined, stream_source,
  stream_order, for_each_batch,
}
use forge_dsio.Dataset.Batches.Sequence.{
  Verdict, completed, failed, stopped, thrown, Sequential, at_end, on_error, on_stop, on_throw,
  and_on, Reads, Takes, Agrees,
}
use forge_dsio.Dataset.Batches.Laws.{first, for_each_batch-Agrees}

-- Reading from bytes in memory.
abbrev pub in_memory : Source Bytes
in_memory room rest = some (ok (take room rest), drop room rest)

module _ {K : Type 0} (room : ℕ) (callback : Bytes → K → Answer × K) where
  -- The loop over bytes in memory. After an error the callback has seen the batches before it.
  abbrev pub InMemory : Bytes → K → Verdict → K → Type 0
  InMemory rest k (failed e) l =
      (bs : List Bytes) × (rest' : Bytes) × Reads in_memory room callback rest bs rest'
      × Takes in_memory room callback k bs l
  InMemory rest k v l = Sequential in_memory room callback rest k v l

  InMemory-and_on :
      (rest : Bytes) (k l m : K) (v : Verdict)
      → 0 < length (take room rest)
      → callback (take room rest) k ≡ (goes_on, l)
      → InMemory (drop room rest) l v m
      → InMemory rest k v m
  InMemory-and_on rest k l m completed pos c s = and_on refl pos c s
  InMemory-and_on rest k l m (failed e) pos c (bs, rest', r, t) =
      (take room rest ∷ bs, rest', (drop room rest, refl, pos, r), (l, c, t))
  InMemory-and_on rest k l m stopped pos c s = and_on refl pos c s
  InMemory-and_on rest k l m thrown pos c s = and_on refl pos c s

module _ {B W : Type 0} (os : Os W) (alloc : Alloc) (opener : Opener B W) (ops : BackendOps B W)
    (rounds turns : ℕ) (serves : Serves ops) (names : Names os opener serves) where
  abbrev stream : Source (ShardStream B × W)
  stream = stream_source os alloc opener ops rounds turns

  abbrev StandsAt : ShardStream B → Bytes → Type 0
  StandsAt s rest = Stands os alloc opener ops rounds serves names s rest

  joined-Gives :
      (room : ℕ) (rest : Bytes) (o : Option (After Bytes B W)) (p : ShardStream B × W) (got : Bytes)
      → Gives os alloc opener ops rounds serves names room rest o
      → joined o ≡ some (ok got, p)
      → (got ≡ take room rest) × StandsAt p.0 (drop room rest)
  joined-Gives room rest none p got g q = absurd (ground (arith, q))
  joined-Gives room rest (some (err e, t, w)) p got g q = absurd (ground (arith, q))
  joined-Gives room rest (some (ok x, t, w)) p got g q =
      let same : x ≡ got = ground (arith, q) in
      let state : (t, w) ≡ p =
        ap (λ (y : Outcome Error Bytes × (ShardStream B × W)). y.1) (some-injective _ _ q) in
      (sym same ∙ g.0, subst (λ (y : ShardStream B × W). StandsAt y.0 (drop room rest)) state g.1)

  pub stream-Gives :
      (allocates : Allocates alloc) (room : ℕ) (rest : Bytes) (p q : ShardStream B × W)
      (got : Bytes)
      → StandsAt p.0 rest
      → stream room p ≡ some (ok got, q)
      → (got ≡ take room rest) × StandsAt q.0 (drop room rest)
  unfolding stream_source
  stream-Gives allocates room rest p q got st e =
      joined-Gives room rest (read os alloc opener ops rounds turns room p.0 p.1) q got
        (read-Gives os alloc opener ops rounds serves names allocates turns room p.0 p.1 rest st) e

  -- The loop over the stream is the one over the bytes it stands before.
  Sequential-InMemory :
      {K : Type 0} (allocates : Allocates alloc) (room : ℕ) (callback : Bytes → K → Answer × K)
      {p : ShardStream B × W} {k l : K} {v : Verdict}
      → Sequential stream room callback p k v l
      → (rest : Bytes) → StandsAt p.0 rest
      → InMemory room callback rest k v l
  Sequential-InMemory allocates room callback {p} (at_end {t} {got} q z) rest st =
      let g = stream-Gives allocates room rest p t got st q in at_end refl (sym (ap length g.0) ∙ z)
  Sequential-InMemory allocates room callback {k} (on_error q) rest st = ([], rest, refl, refl)
  Sequential-InMemory allocates room callback {p} {k} {l} (on_stop {t} {got} q pos c) rest st =
      let g = stream-Gives allocates room rest p t got st q in
      on_stop refl (subst (λ x. 0 < length x) g.0 pos)
        (subst (λ x. callback x k ≡ (stops, l)) g.0 c)
  Sequential-InMemory allocates room callback {p} {k} {l} (on_throw {t} {got} q pos c) rest st =
      let g = stream-Gives allocates room rest p t got st q in
      on_throw refl (subst (λ x. 0 < length x) g.0 pos)
        (subst (λ x. callback x k ≡ (throws, l)) g.0 c)
  Sequential-InMemory allocates room callback {p} {k} {l} {v} (and_on {t} {l = m} {got} q pos c s)
        rest st =
      let g = stream-Gives allocates room rest p t got st q in
      InMemory-and_on room callback rest k m l v (subst (λ x. 0 < length x) g.0 pos)
        (subst (λ x. callback x k ≡ (goes_on, m)) g.0 c)
        (Sequential-InMemory allocates room callback s (drop room rest) g.1)

module _ {B W K C : Type 0} (os : Os W) (alloc : Alloc) (opener : Opener B W) (ops : BackendOps B W)
    (rounds turns : ℕ) (serves : Serves ops) (names : Names os opener serves)
    (channel : Channel Batch C) (laws : ChannelLaws channel) (shuffle : ℕ → List ℕ → List ℕ)
    (callback : Bytes → K → Answer × K) (shards : ShardSet) (options : BatchOptions) (w : W)
    (seen : K) {s : System (ShardStream B × W) K C}
    (begins : for_each_batch channel shuffle shards options w seen ≡ ok s) where
  abbrev source : Source (ShardStream B × W)
  source = stream_source os alloc opener ops rounds turns

  -- When `for_each_batch` returns, for channels, files and a backend that work as documented, with
  -- no short reads but at the end of a file, an allocation that gives what it is asked for and
  -- options that ask for a segment of a block or more (or for none, with blocks of at most 256
  -- KiB), whatever the order of the steps of its threads and of the completions of the reads: the
  -- callback has seen the bytes of the windows of the shards, in the order of the stream and as
  -- far as their files have them, cut into batches of `batch_bytes` of which only the last may be
  -- short. It has seen all of them on success without a stop, or those up to the batch where it
  -- stopped or threw, or a prefix of the batches where a read failed, whose error is the result.
  -- After a stop the result is a success or the error of a read further on.
  pub for_each_batch-Streams :
      Allocates alloc
      → AsksBlock options names.most
      → {t : System (ShardStream B × W) K C} (r : Result) → Reach channel source callback s t
      → t.caller ≡ done r
      → (v : Verdict) × InMemory options.batch_bytes callback
          (windows names.files shards (stream_order shuffle shards options))
          seen
          v
          t.seen
        × Agrees source options.batch_bytes callback (first shuffle shards options w) v r
  for_each_batch-Streams allocates asks r run e =
      let (v, sequential, agrees) =
        for_each_batch-Agrees os alloc opener ops rounds turns channel laws shuffle callback shards
          options w seen begins r run e in
      (
        v,
        Sequential-InMemory os alloc opener ops rounds turns serves names allocates
            options.batch_bytes callback sequential
            (windows names.files shards (stream_order shuffle shards options))
            (new_stream-Stands os alloc opener ops rounds serves names shards
              (stream_order shuffle shards options) options asks),
        agrees,
      )
