-- ===== src/Dataset/Batches.antt =====
-- `for_each_batch` of src/dataset.cpp: a worker that reads ahead and the caller that hands the batches
-- to the callback, over the channels `ready` and `free`. A step of the relation `Turn` is one
-- operation of one of the two threads on a channel, the stream, the error or the callback.
pub mod Buffers
pub mod Start
pub mod Progress
pub mod Sequence
pub mod Story
pub mod Sizes
pub mod Moves
pub mod Refinement
pub mod Termination
pub mod Laws
pub mod Streams
pub mod Order
pub mod Finite
mod Fixture
mod Scenario
mod Examples
use forge_dsio.Prelude.{
  ℕ, zero, suc, ◌==◌, ◌≡◌, if◌then◌else◌, Bool, true, false, Option, none, some, List, [], ◌∷◌,
  ◌++◌, length, take, drop, replicate, Outcome, ok, err,
}
use forge_dsio.Error.{Error, batches_no_bytes, batches_no_prefetch, batches_no_depth}
use forge_dsio.Os.{Os}
use forge_dsio.File.{Bytes}
use forge_dsio.Backend.{BackendOps}
use forge_dsio.Reader.{Alloc}
use forge_dsio.Dataset.Stream.{Opener, After, read}
use forge_dsio.Shard.{ShardSet}
use forge_dsio.Dataset.{BatchOptions, ShardStream, new_stream}
use forge_dsio.Dataset.Channel.{Channel, sent, full, refused, received, ended}

pub record Batch : Type 0 where
  pub bytes : Bytes
  pub size : ℕ

-- What the callback is given: `first(batch.size)`.
abbrev pub payload : Batch → Bytes
payload b = take b.size b.bytes

-- `SharedError`: the first error stays.
unfoldable pub set_error : Error → Option Error → Option Error
set_error e none = some e
set_error e (some first) = some first

unfoldable pub take_error : Option Error → Outcome Error (Unit {0})
take_error none = ok tt
take_error (some e) = err e

-- `stream.read(batch.bytes)` puts what it got at the start of the buffer; the rest of it stays.
abbrev pub put : Bytes → Batch → Batch
put got b = record { bytes = got ++ drop (length got) b.bytes; size = length got }

pub data Answer : Type 0 where
  goes_on stops throws : Answer

-- How the caller's loop was left: at the end of the stream or by the callback, or by an exception.
pub data Exit : Type 0 where
  normally by_exception : Exit

pub data Result : Type 0 where
  returned : Outcome Error (Unit {0}) → Result
  threw : Result

-- Where the worker stands: before `free.recv`, `stream.read`, `error.set`, `ready.close` and
-- `ready.send`.
pub data Worker : Type 0 where
  receiving : Worker
  reading : Batch → Worker
  failing : Error → Worker
  closing : Worker
  sending : Batch → Worker
  finished : Worker

-- Where the caller stands: before `ready.recv`, the callback, `free.send`, `free.close`,
-- `ready.close` and `error.take`; `done` waits for the worker in the destructor of the pool.
pub data Caller : Type 0 where
  waiting : Caller
  calling : Batch → Caller
  returning : Bool → Batch → Caller
  closing_free : Exit → Caller
  closing_ready : Exit → Caller
  checking : Caller
  done : Result → Caller

-- The shared objects and the two threads; `seen` is the state of the callback.
pub record System (S K C : Type 0) : Type 0 where
  pub ready : C
  pub free : C
  pub error : Option Error
  pub source : S
  pub seen : K
  pub worker : Worker
  pub caller : Caller

unfoldable pub after_read : Bytes → Batch → Worker
after_read got b = if length got == 0 then closing else sending (put got b)

unfoldable pub after_call : Answer → Batch → Caller
after_call goes_on b = returning true b
after_call stops b = returning false b
after_call throws b = closing_free by_exception

unfoldable pub after_return : Bool → Caller
after_return keep_going = if keep_going then waiting else closing_free normally

unfoldable pub after_close : Exit → Caller
after_close normally = checking
after_close by_exception = done threw

-- The bytes that `read` puts into a buffer of this size; `none` is a read without a result.
abbrev pub Source : Type 0 → Type 0
Source S = ℕ → S → Option (Outcome Error Bytes × S)

module _ {S K C : Type 0} (channel : Channel Batch C) (read : Source S)
    (callback : Bytes → K → Answer × K) where
  pub data Turn (s : System S K C) : System S K C → Type 0 where
    take_buffer :
        {b : Batch} {c : C}
        → s.worker ≡ receiving
        → channel.recv s.free ≡ received b c
        → Turn s (record s { free = c; worker = reading b })
    free_ended :
        s.worker ≡ receiving → channel.recv s.free ≡ ended → Turn s (record s { worker = finished })
    read_batch :
        {b : Batch} {got : Bytes} {next : S}
        → s.worker ≡ reading b
        → read (length b.bytes) s.source ≡ some (ok got, next)
        → Turn s (record s { source = next; worker = after_read got b })
    read_fails :
        {b : Batch} {e : Error} {next : S}
        → s.worker ≡ reading b
        → read (length b.bytes) s.source ≡ some (err e, next)
        → Turn s (record s { source = next; worker = failing e })
    keep_error :
        {e : Error}
        → s.worker ≡ failing e
        → Turn s (record s { error = set_error e s.error; worker = closing })
    end_stream :
        s.worker ≡ closing → Turn s (record s { ready = channel.close s.ready; worker = finished })
    send_batch :
        {b : Batch} {c : C}
        → s.worker ≡ sending b
        → channel.send b s.ready ≡ sent c
        → Turn s (record s { ready = c; worker = receiving })
    ready_refused :
        {b : Batch}
        → s.worker ≡ sending b
        → channel.send b s.ready ≡ refused
        → Turn s (record s { worker = finished })
    get_batch :
        {b : Batch} {c : C}
        → s.caller ≡ waiting
        → channel.recv s.ready ≡ received b c
        → Turn s (record s { ready = c; caller = calling b })
    ready_ended :
        s.caller ≡ waiting
        → channel.recv s.ready ≡ ended
        → Turn s (record s { caller = closing_free normally })
    call :
        {b : Batch} {a : Answer} {k : K}
        → s.caller ≡ calling b
        → callback (payload b) s.seen ≡ (a, k)
        → Turn s (record s { seen = k; caller = after_call a b })
    give_back :
        {keep : Bool} {b : Batch} {c : C}
        → s.caller ≡ returning keep b
        → channel.send b s.free ≡ sent c
        → Turn s (record s { free = c; caller = after_return keep })
    free_refused :
        {keep : Bool} {b : Batch}
        → s.caller ≡ returning keep b
        → channel.send b s.free ≡ refused
        → Turn s (record s { caller = closing_free by_exception })
    close_free :
        {x : Exit}
        → s.caller ≡ closing_free x
        → Turn s (record s { free = channel.close s.free; caller = closing_ready x })
    close_ready :
        {x : Exit}
        → s.caller ≡ closing_ready x
        → Turn s (record s { ready = channel.close s.ready; caller = after_close x })
    check_error :
        s.caller ≡ checking → Turn s (record s { caller = done (returned (take_error s.error)) })

  pub data Reach (s : System S K C) : System S K C → Type 0 where
    here : Reach s s
    later : {t u : System S K C} → Reach s t → Turn t u → Reach s u

-- The loop that fills `free`; its capacity is the number of buffers, so that no send blocks.
module _ {C : Type 0} (channel : Channel Batch C) where
  abbrev pub fed : C → Batch → C
  fed c b = elim (channel.send b c) [ sent d ↦ d | full ↦ c | refused ↦ c ]

  unfoldable pub feed : ℕ → ℕ → C → C
  feed zero bytes c = c
  feed (suc n) bytes c = feed n bytes (fed c (record { bytes = replicate bytes 0; size = 0 }))

  -- Both channels are set up, and the worker is started.
  unfoldable pub started : {S K : Type 0} → BatchOptions → S → K → System S K C
  unfolding feed
  started options source seen = record {
    ready = channel.make options.prefetch;
    free = feed (suc options.prefetch) options.batch_bytes (channel.make (suc options.prefetch));
    error = none;
    source = source;
    seen = seen;
    worker = receiving;
    caller = waiting;
  }

-- `stream.read`, over the stream and the system.
abbrev pub joined :
    {B W : Type 0} → Option (After Bytes B W) → Option (Outcome Error Bytes × (ShardStream B × W))
joined none = none
joined (some (r, s, w)) = some (r, (s, w))

unfoldable pub stream_source :
    {B W : Type 0}
    → Os W
    → Alloc
    → Opener B W
    → BackendOps B W
    → (rounds turns : ℕ) → Source (ShardStream B × W)
stream_source os alloc opener ops rounds turns room (s, w) =
    joined (read os alloc opener ops rounds turns room s w)

-- `std::iota`
unfoldable pub iota : ℕ → ℕ → List ℕ
iota first zero = []
iota first (suc n) = first ∷ iota (suc first) n

-- The order of the shards; `shuffle` is `fp::Rng::shuffle` with the seed.
unfoldable pub stream_order : (ℕ → List ℕ → List ℕ) → ShardSet → BatchOptions → List ℕ
unfolding iota
stream_order shuffle shards options =
    if options.seed == 0
    then iota 0 (length shards)
    else shuffle options.seed (iota 0 (length shards))

-- `for_each_batch` up to its two loops: an error, or the state in which they start.
unfoldable pub for_each_batch :
    {B W K C : Type 0}
    → Channel Batch C
    → (ℕ → List ℕ → List ℕ)
    → ShardSet
    → BatchOptions
    → W
    → K
    → Outcome Error (System (ShardStream B × W) K C)
unfolding started stream_order
for_each_batch channel shuffle shards options w seen =
    if options.batch_bytes == 0
    then err batches_no_bytes
    else if options.prefetch == 0
    then err batches_no_prefetch
    else if options.read_depth == 0
    then err batches_no_depth
    else ok (
        started channel options (new_stream shards (stream_order shuffle shards options) options, w)
          seen)
