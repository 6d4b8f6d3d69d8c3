-- ===== src/Backend/Thread/Laws.antt =====
-- The thread backend: first in, first out, whatever the order in which the workers run.
use forge_dsio.Prelude.{
  ℕ, zero, suc, ◌≤◌, ◌<◌, ◌≡◌, ◌≢◌, refl, sym, ap, ap₂, subst, ◌∙◌, inl, inr, min, Option, none,
  some, Option-cases, List, [], ◌∷◌, ◌++◌, length, length-map, Outcome, ok, arith,
}
use forge_dsio.Error.{Error}
use forge_dsio.Os.{Os, Sys, done, failed}
use forge_dsio.Os.Retry.{retry-Returned}
use forge_dsio.Os.Contract.{ReadsFile}
use forge_dsio.File.{Bytes}
use forge_dsio.Backend.{ReadRequest, Completion}
use forge_dsio.Backend.Thread.{
  Task, ThreadBackend, completion, drain, read_once, wait, wait_oldest, work, reap,
}
use forge_dsio.Backend.Thread.Queue.{requests_of, IsAnswer, Answers, Answered, Ready, drain-Drained}

-- The `i`-th entry, if there is one, is ready.
abbrev pub IsReadyAt : ℕ → List Task → Type 0
IsReadyAt i [] = Unit
IsReadyAt zero (t ∷ ts) = t.result ≢ none
IsReadyAt (suc i) (t ∷ ts) = IsReadyAt i ts

-- The entries but for the `i`-th are the same.
abbrev pub AreOthers : ℕ → List Task → List Task → Type 0
AreOthers i [] [] = Unit
AreOthers zero (t ∷ ts) (u ∷ us) = us ≡ ts
AreOthers (suc i) (t ∷ ts) (u ∷ us) = (u ≡ t) × AreOthers i ts us
AreOthers i _ _ = ⊥

-- The workers read a regular file that is open, and there are more retries than signals.
module _ {W : Type 0} (os : Os W) (fd : ℕ) (content : Bytes) (pending : W → ℕ)
    (kernel : ReadsFile os fd content pending) (rounds : ℕ) where
  completion-IsAnswer :
      (request : ReadRequest) (w : W) (r : Sys Bytes)
      → (os.sys_pread fd request.offset request.size w).0 ≡ r
      → IsAnswer content request (completion request r)
  unfolding completion
  completion-IsAnswer request w (failed code) e = (refl, λ _. (refl, omega arith))
  completion-IsAnswer request w (done got) e =
      (refl, λ _. kernel.reads request.offset request.size w got e)

  -- A worker returns, and its completion answers the request.
  pub read_once-IsAnswer :
      (request : ReadRequest) (w : W)
      → pending w < rounds
      → (c : Completion) × (v : W) × (read_once os rounds fd request w ≡ some (c, v))
        × IsAnswer content request c
        × (pending v ≤ pending w)
  unfolding read_once
  read_once-IsAnswer request w more =
      let call = os.sys_pread fd request.offset request.size in
      let calm = kernel.signals request.offset request.size in
      let r = retry-Returned pending call calm rounds w more in
      (
        completion request (call r.last).0,
        (call r.last).1,
        rw (r.returns),
        completion-IsAnswer request r.last (call r.last).0 refl,
        omega (arith, r.pending-le, calm.grows_not r.last),
      )

  -- After `wait` on a future it is ready, with an answer.
  record Waited (t : Task) (w : W) (result : Option (Task × W)) : Type 0 where
    task : Task
    state : W
    returns : result ≡ some (task, state)
    same : task.request ≡ t.request
    ready : task.result ≢ none
    answered : (c : Completion) → task.result ≡ some c → IsAnswer content task.request c
    pending-le : pending state ≤ pending w

  wait-Waited :
      (t : Task) (w : W)
      → pending w < rounds
      → ((c : Completion) → t.result ≡ some c → IsAnswer content t.request c)
      → Waited t w (wait os rounds fd t w)
  unfolding wait
  wait-Waited t w more a = elim (Option-cases t.result) [
    | inr (c, e) ↦ record {
      task = t;
      state = w;
      returns = ground arith;
      same = refl;
      ready = λ q. ground arith;
      answered = a;
      pending-le = omega arith;
    }
    | inl e ↦
        let (c, v, read, answer, calm) = read_once-IsAnswer t.request w more in
        record {
          task = record t { result = some c };
          state = v;
          returns = ground (arith, read);
          same = refl;
          ready = λ q. cc;
          answered = λ c' q. subst (IsAnswer content t.request) (ground arith) answer;
          pending-le = calm;
        }
  ]

  record WaitedOldest (n : ℕ) (ts : List Task) (w : W) (result : Option (List Task × W))
      : Type 0 where
    tasks : List Task
    state : W
    returns : result ≡ some (tasks, state)
    same : requests_of tasks ≡ requests_of ts
    ready : Ready n tasks
    answered : Answered content tasks
    pending-le : pending state ≤ pending w

  wait_oldest-WaitedOldest :
      (n : ℕ) (ts : List Task) (w : W)
      → pending w < rounds
      → Answered content ts
      → WaitedOldest n ts w (wait_oldest os rounds fd n ts w)
  unfolding wait_oldest
  wait_oldest-WaitedOldest zero ts w more a = record {
    tasks = ts;
    state = w;
    returns = refl;
    same = refl;
    ready = tt;
    answered = a;
    pending-le = omega arith;
  }
  wait_oldest-WaitedOldest (suc n) [] w more a = record {
    tasks = [];
    state = w;
    returns = refl;
    same = refl;
    ready = tt;
    answered = tt;
    pending-le = omega arith;
  }
  wait_oldest-WaitedOldest (suc n) (t ∷ ts) w more a =
      let first = wait-Waited t w more a.0 in
      let rest = wait_oldest-WaitedOldest n ts first.state (omega (arith, first.pending-le)) a.1 in
      record {
        tasks = first.task ∷ rest.tasks;
        state = rest.state;
        returns = rw (first.returns, rest.returns);
        same = ap₂ ◌∷◌ first.same rest.same;
        ready = (first.ready, rest.ready);
        answered = (first.answered, rest.answered);
        pending-le = omega (arith, first.pending-le, rest.pending-le);
      }

  -- What `reap` hands out and what it leaves in flight.
  pub record Reaped (room least : ℕ) (b : ThreadBackend) (w : W)
      (result : Option (Outcome Error (List Completion) × ThreadBackend × W)) : Type 0 where
    pub completions : List Completion
    pub after : ThreadBackend
    pub state : W
    pub returns : result ≡ some (ok completions, after, state)
    pub taken : List ReadRequest
    pub in_order : requests_of b.pending ≡ taken ++ requests_of after.pending
    pub answers : Answers content taken completions
    pub answered : Answered content after.pending
    pub depth_kept : after.depth ≡ b.depth
    pub at_most : length completions ≤ room
    pub at_least : min (min least room) (length b.pending) ≤ length completions
    pub pending-le : pending state ≤ pending w

  -- `reap` returns, whatever the workers have done so far. Its completions answer the oldest requests
  -- in the order of their submission, and the rest stays in flight in that order. There are at most
  -- `out.size()` completions, and at least `min`, if `out` has room for them and as many are in flight.
  pub reap-Reaped :
      (room least : ℕ) (b : ThreadBackend) (w : W)
      → pending w < rounds
      → Answered content b.pending
      → Reaped room least b w (reap os rounds fd room least b w)
  unfolding reap
  reap-Reaped room least b w more a =
      let n = min (min least room) (length b.pending) in
      let waited = wait_oldest-WaitedOldest n b.pending w more a in
      let d =
        drain-Drained content room n waited.tasks (omega arith) waited.answered waited.ready in
      record {
        completions = (drain room waited.tasks).0;
        after = record b { pending = (drain room waited.tasks).1 };
        state = waited.state;
        returns = rw waited.returns;
        taken = d.taken;
        in_order = sym waited.same ∙ d.split;
        answers = d.answers;
        answered = d.kept;
        depth_kept = refl;
        at_most = d.at_most;
        at_least = omega (
          arith,
          d.at_least,
          ap length waited.same,
          length-map waited.tasks (λ t. t.request),
          length-map b.pending (λ t. t.request),
        );
        pending-le = waited.pending-le;
      }

  -- A worker that runs any entry, out of turn too, returns; the entry is ready then, with an answer to its
  -- request, every other entry is as before, and the requests keep their order.
  pub work-Answered :
      (i : ℕ) (ts : List Task) (w : W)
      → pending w < rounds
      → Answered content ts
      → (us : List Task) × (v : W) × (work os rounds fd i ts w ≡ some (us, v))
        × Answered content us
        × (requests_of us ≡ requests_of ts)
        × IsReadyAt i us
        × AreOthers i ts us
  unfolding work
  work-Answered i [] w more a = ([], w, refl, tt, refl, tt, tt)
  work-Answered zero (t ∷ ts) w more a =
      let first = wait-Waited t w more a.0 in
      (
        first.task ∷ ts,
        first.state,
        rw first.returns,
        (first.answered, a.1),
        ap (λ r. r ∷ requests_of ts) first.same,
        first.ready,
        refl,
      )
  work-Answered (suc i) (t ∷ ts) w more a =
      let (us, v, ran, kept, same, ready, others) = work-Answered i ts w more a.1 in
      (t ∷ us, v, rw ran, (a.0, kept), ap (◌∷◌ t.request) same, ready, (refl, others))
