-- ===== src/Backend/Thread.antt =====
-- src/thread_backend.cpp: a queue of futures, each a `pread` on a worker of the pool.
pub mod Queue
pub mod Laws
mod Examples
use forge_dsio.Prelude.{
  ℕ, zero, suc, ◌+◌, ltb, if◌then◌else◌, min, Option, none, some, List, [], ◌∷◌, ◌++◌, map, length,
  Outcome, ok, err, ◌>>=◌,
}
use forge_dsio.Error.{Error, thread_queue_full, thread_no_depth}
use forge_dsio.Os.{Os, Sys, done, failed}
use forge_dsio.Os.Retry.{retry}
use forge_dsio.File.{Bytes}
use forge_dsio.Backend.{ReadRequest, Completion, BackendOptions}

unfoldable pub completion : ReadRequest → Sys Bytes → Completion
completion request (failed code) = record {
  token = request.token;
  bytes = 0;
  error = code;
  landed = [];
}
completion request (done got) = record {
  token = request.token;
  bytes = length got;
  error = 0;
  landed = got;
}

-- An entry of `pending_`: the request, and its completion once a worker has run it.
pub record Task : Type 0 where
  pub request : ReadRequest
  pub result : Option Completion

-- `threads` are the workers of `pool_`: a worker takes its step by `work`, at any time.
pub record ThreadBackend : Type 0 where
  pub fd : ℕ
  pub depth : ℕ
  pub threads : ℕ
  pub pending : List Task

abbrev pub enqueue : ReadRequest → Task
enqueue request = record { request = request; result = none }

unfoldable pub submit : List ReadRequest → ThreadBackend → Outcome Error (Unit {0}) × ThreadBackend
submit requests b =
    if ltb b.depth (length b.pending + length requests)
    then (err thread_queue_full, b)
    else (ok tt, record b { pending = b.pending ++ map enqueue requests })

abbrev pub in_flight : ThreadBackend → ℕ
in_flight b = length b.pending

-- One round of the loop: a front entry that is not ready ends it.
unfoldable pub drain_front :
    Option Completion → List Task → List Completion × List Task → List Completion × List Task
drain_front none pending rest = ([], pending)
drain_front (some c) pending rest = (c ∷ rest.0, rest.1)

-- Up to `room` entries from the front, as long as they are ready.
unfoldable pub drain : ℕ → List Task → List Completion × List Task
unfolding drain_front
drain zero pending = ([], pending)
drain (suc room) [] = ([], [])
drain (suc room) (task ∷ pending) =
    let rest = drain room pending in drain_front task.result (task ∷ pending) rest

module _ {W : Type 0} (os : Os W) (rounds : ℕ) (fd : ℕ) where
  unfoldable pub read_once : ReadRequest → W → Option (Completion × W)
  read_once request w = do
    r ← retry rounds (os.sys_pread fd request.offset request.size) w
    some (completion request r.0, r.1)

  -- `wait()` on a future: its worker has run it afterwards.
  unfoldable pub wait : Task → W → Option (Task × W)
  wait task w = elim task.result [
    | some c ↦ some (task, w)
    | none ↦ do r ← read_once task.request w; some (record task { result = some r.0 }, r.1)
  ]

  -- A worker runs the `i`-th entry.
  unfoldable pub work : ℕ → List Task → W → Option (List Task × W)
  work i [] w = some ([], w)
  work zero (task ∷ pending) w = do r ← wait task w; some (r.0 ∷ pending, r.1)
  work (suc i) (task ∷ pending) w = do r ← work i pending w; some (task ∷ r.0, r.1)

  -- `for (i = 0; i < min; ++i) pending_[i].wait();`
  unfoldable pub wait_oldest : ℕ → List Task → W → Option (List Task × W)
  wait_oldest zero pending w = some (pending, w)
  wait_oldest (suc n) [] w = some ([], w)
  wait_oldest (suc n) (task ∷ pending) w = do
    r ← wait task w
    rest ← wait_oldest n pending r.1
    some (r.0 ∷ rest.0, rest.1)

  -- `out` is given by its size; the result lists what is moved into it.
  unfoldable pub reap :
      ℕ → ℕ → ThreadBackend → W → Option (Outcome Error (List Completion) × ThreadBackend × W)
  reap room least b w = do
    waited ← wait_oldest (min (min least room) (length b.pending)) b.pending w
    some (ok (drain room waited.0).0, record b { pending = (drain room waited.0).1 }, waited.1)
