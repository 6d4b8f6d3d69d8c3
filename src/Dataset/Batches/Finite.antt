-- ===== src/Dataset/Batches/Finite.antt =====
-- The stream of `for_each_batch` comes to an end: a batch takes bytes off what it has still to give.
use mathlib.Core.Option.{some-injective}
use forge_dsio.Prelude.{
  ℕ, suc, ◌+◌, ◌*◌, ◌≤◌, ◌<◌, ◌≡◌, ◌≢◌, refl, sym, ap, ◌∙◌, subst, max, if◌then◌else◌, Option, none,
  some, List, [], ◌∷◌, ◌++◌, length, take, drop, length-drop, length-take, Outcome, ok, err, arith,
}
use forge_dsio.Error.{Error}
use forge_dsio.Os.{Os}
use forge_dsio.File.{Bytes}
use forge_dsio.Backend.{ReadRequest, BackendOps}
use forge_dsio.Reader.{Alloc}
use forge_dsio.Shard.{ShardSet}
use forge_dsio.Dataset.{BatchOptions, Pending, ShardStream, new_stream}
use forge_dsio.Dataset.Stream.{Opener, After, read}
use forge_dsio.Dataset.Fitting.{Allocates, AsksBlock}
use forge_dsio.Dataset.Channel.{Channel, ChannelLaws}
use forge_dsio.Dataset.Content.{Serves, Names, windows}
use forge_dsio.Dataset.Content.Flight.{Flight, empty, landed, flying}
use forge_dsio.Dataset.Content.Consuming.{Stands, between, within, from_shard}
use forge_dsio.Dataset.Content.Giving.{new_stream-Stands}
use forge_dsio.Dataset.Content.Limits.{Limits}
use forge_dsio.Dataset.Content.Ending.{Returns, read-Returns}
use forge_dsio.Dataset.Batches.{
  Batch, Answer, Source, System, Reach, joined, stream_source, stream_order, for_each_batch,
}
use forge_dsio.Dataset.Batches.Progress.{IsOver}
use forge_dsio.Dataset.Batches.Termination.{IsFinite, steps}
use forge_dsio.Dataset.Batches.Streams.{stream-Gives}
use forge_dsio.Dataset.Batches.Laws.{first, for_each_batch-Ends}
use forge_dsio.Dataset.Batches.Order.{Rearranges, length-stream_order, stream_order-lt}

-- Where the front entry starts.
abbrev front_at : ℕ → List Pending → ℕ
front_at next [] = next
front_at next (p ∷ _) = p.offset

Flight-front_at :
    {content : Bytes} {end : ℕ} {buffers : List Bytes} {at next : ℕ} {ps : List Pending}
    {rs : List ReadRequest}
    → Flight content end buffers at ps rs next
    → front_at next ps ≡ at
Flight-front_at (empty e) = sym e
Flight-front_at (landed n d o l i h f) = o
Flight-front_at (flying n d o l i ro rt q fit f) = o

module _ {B W : Type 0} (os : Os W) (alloc : Alloc) (opener : Opener B W) (ops : BackendOps B W)
    (rounds most : ℕ) (serves : Serves ops) (names : Names os opener serves) where
  abbrev StandsAt : ShardStream B → Bytes → Type 0
  StandsAt s rest = Stands os alloc opener ops rounds serves names s rest

  abbrev content_of : Option B → Bytes
  content_of none = []
  content_of (some b) = serves.content b

  -- What a stream has still to give.
  abbrev pub rest_of : ShardStream B → Bytes
  rest_of s =
      s.carry
      ++ (if s.is_open
          then drop (front_at s.next_offset s.pending) (take s.window_end (content_of s.backend))
            ++ from_shard os alloc opener ops rounds serves names s (suc s.next)
          else from_shard os alloc opener ops rounds serves names s s.next)

  rest_of-Stands : (s : ShardStream B) (rest : Bytes) → StandsAt s rest → rest ≡ rest_of s
  rest_of-Stands s rest (between r asks o e) = e ∙ rw o refl
  rest_of-Stands s rest (within content at f asks o e) =
      e ∙ rw (o, f.is_backend, f.of_file, Flight-front_at f.entries.flight) refl

  abbrev IsGood : ShardStream B × W → Type 0
  IsGood p = StandsAt p.0 (rest_of p.0) × Limits rounds most p.0

  module _ (allocates : Allocates alloc) (turns room : ℕ)
      (enough : room + 2 * most + 1 < turns) where
    abbrev stream : Source (ShardStream B × W)
    stream = stream_source os alloc opener ops rounds turns

    read-most :
        (p : ShardStream B × W)
        → IsGood p
        → Returns os alloc opener ops rounds most serves names
            (read os alloc opener ops rounds turns room p.0 p.1)
    read-most p (st, l) =
        read-Returns os alloc opener ops rounds most serves names allocates turns room p.0 p.1
          (rest_of p.0) st l (omega (arith, enough, l.few))

    joined-Returns :
        (o : Option (After Bytes B W))
        → Returns os alloc opener ops rounds most serves names o
        → joined o ≢ none
    joined-Returns none h = λ q. absurd h
    joined-Returns (some x) h = λ q. absurd (ground (arith, q))

    joined-Limits :
        (o : Option (After Bytes B W)) (q : ShardStream B × W) (got : Bytes)
        → Returns os alloc opener ops rounds most serves names o
        → joined o ≡ some (ok got, q)
        → Limits rounds most q.0
    joined-Limits none q got h e = absurd h
    joined-Limits (some (err x, t, w)) q got h e = absurd (ground (arith, e))
    joined-Limits (some (ok x, t, w)) q got h e =
        subst (λ (y : Outcome Error Bytes × (ShardStream B × W)). Limits rounds most y.1.0)
          (some-injective _ _ e) h

    stream-goes_on :
        (p q : ShardStream B × W) (got : Bytes)
        → IsGood p
        → stream room p ≡ some (ok got, q)
        → 0 < length got
        → IsGood q × (length (rest_of q.0) < length (rest_of p.0))
    unfolding stream_source
    stream-goes_on p q got g e pos =
        let (gives, st) =
          stream-Gives os alloc opener ops rounds turns serves names allocates room (rest_of p.0) p
            q got g.0 e in
        let same = rest_of-Stands q.0 (drop room (rest_of p.0)) st in
        (
          (
            subst (StandsAt q.0) same st,
            joined-Limits (read os alloc opener ops rounds turns room p.0 p.1) q got (read-most p g)
                e,
          ),
          omega (
            arith,
            pos,
            ap length gives,
            ap length same,
            length-drop room (rest_of p.0),
            length-take room (rest_of p.0),
          ),
        )

    stream-Returns : (p : ShardStream B × W) → IsGood p → stream room p ≢ none
    unfolding stream_source
    stream-Returns p g =
        joined-Returns (read os alloc opener ops rounds turns room p.0 p.1) (read-most p g)

    stream-IsFinite : IsFinite stream room
    stream-IsFinite = record {
      good = IsGood;
      rank = λ p. length (rest_of p.0);
      returns = stream-Returns;
      goes_on = stream-goes_on;
    }

module _ {B W K C : Type 0} (os : Os W) (alloc : Alloc) (opener : Opener B W) (ops : BackendOps B W)
    (rounds turns : ℕ) (serves : Serves ops) (names : Names os opener serves)
    (channel : Channel Batch C) (laws : ChannelLaws channel) (shuffle : ℕ → List ℕ → List ℕ)
    (callback : Bytes → K → Answer × K) (shards : ShardSet) (options : BatchOptions) (w : W)
    (seen : K) {s : System (ShardStream B × W) K C}
    (begins : for_each_batch channel shuffle shards options w seen ≡ ok s) where
  abbrev source : Source (ShardStream B × W)
  source = stream_source os alloc opener ops rounds turns

  pub first-Limits :
      Rearranges shuffle
      → max options.read_depth 1 < rounds
      → Limits {B = B} rounds
          (length shards)
          (new_stream shards (stream_order shuffle shards options) options)
  unfolding new_stream
  first-Limits rearranges deep = record {
    deep = deep;
    next_lt = λ o. absurd (ground (arith, o));
    few = omega (arith, length-stream_order shuffle rearranges shards options);
    in_set = λ k x e. stream_order-lt shuffle rearranges shards options k x e;
  }

  abbrev order : List ℕ
  order = stream_order shuffle shards options

  first-rest_of :
      AsksBlock options names.most
      → windows names.files shards order
        ≡ rest_of os alloc opener ops rounds
            (length shards)
            serves
            names
            (new_stream shards order options)
  first-rest_of asks =
      rest_of-Stands os alloc opener ops rounds (length shards) serves names
        (new_stream shards order options) (windows names.files shards order)
        (new_stream-Stands os alloc opener ops rounds serves names shards order options asks)

  first-IsGood :
      Rearranges shuffle
      → AsksBlock options names.most
      → max options.read_depth 1 < rounds
      → IsGood os alloc opener ops rounds
          (length shards)
          serves
          names
          (first shuffle shards options w)
  first-IsGood rearranges asks deep = (
    subst
        (StandsAt os alloc opener ops rounds (length shards) serves names
          (new_stream shards order options))
        (first-rest_of asks)
        (new_stream-Stands os alloc opener ops rounds serves names shards order options asks),
    first-Limits rearranges deep,
  )

  -- `for_each_batch` comes to its end, for channels, files, a shuffle and a backend that work as
  -- documented, with no short reads but at the end of a file, block sizes that are not 0, an
  -- allocation that gives what it is asked for and options that ask for a segment of a block or
  -- more (or for none, with blocks of at most 256 KiB), where the wait for a read has more rounds
  -- than the depth and `read` more turns than a batch has bytes and twice the shards, and one
  -- more: a run of the two threads, in any order, has at most six steps for each byte of the
  -- windows of the shards, and eight; and from every state that is reached the threads come to one
  -- where the result is there and the worker is joined.
  pub for_each_batch-Finishes :
      Rearranges shuffle
      → Allocates alloc
      → AsksBlock options names.most
      → max options.read_depth 1 < rounds
      → options.batch_bytes + 2 * length shards + 1 < turns
      → {t : System (ShardStream B × W) K C} (run : Reach channel source callback s t)
      → (steps run
          ≤ 6 * length (windows names.files shards (stream_order shuffle shards options)) + 8)
        × ((u : System (ShardStream B × W) K C) × Reach channel source callback t u
            × IsOver channel source callback u)
  unfolding stream-IsFinite
  for_each_batch-Finishes rearranges allocates asks deep enough run =
      let finite =
        stream-IsFinite os alloc opener ops rounds (length shards) serves names allocates turns
          options.batch_bytes enough in
      let ends =
        for_each_batch-Ends os alloc opener ops rounds turns channel laws shuffle callback shards
          options w seen begins finite (first-IsGood rearranges asks deep) run in
      (omega (arith, ends.0, ap length (first-rest_of asks)), ends.1)
