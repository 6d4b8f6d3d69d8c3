-- ===== src/Dataset/Batches/Progress.antt =====
-- The two threads of `for_each_batch` never wait for each other.
use forge_dsio.Prelude.{
  ℕ, ◌<◌, ◌≡◌, ◌≢◌, ◌⊎◌, inl, inr, refl, none, some, length, Option-cases, Outcome-cases, ◌∙◌, ap,
  arith,
}
use forge_dsio.File.{Bytes}
use forge_dsio.Dataset.Channel.{Channel, ChannelLaws, full, not_yet, Sent-cases, Received-cases}
use forge_dsio.Dataset.Batches.{
  Batch, Answer, Source, Result, Worker, receiving, reading, failing, closing, sending, finished,
  Caller, waiting, calling, returning, closing_free, closing_ready, checking, done, System, Turn,
  take_buffer, free_ended, read_batch, read_fails, keep_error, end_stream, send_batch,
  ready_refused, get_batch, ready_ended, call, give_back, free_refused, close_free, close_ready,
  check_error,
}
use forge_dsio.Dataset.Batches.Buffers.{Buffers}

module _ {S K C : Type 0} (channel : Channel Batch C) (read : Source S)
    (callback : Bytes → K → Answer × K) where
  abbrev pub CanStep : System S K C → Type 0
  CanStep s = (t : System S K C) × Turn channel read callback s t

  -- The function has returned: its result is there, and the worker is joined.
  abbrev pub IsOver : System S K C → Type 0
  IsOver s = (s.worker ≡ finished) × ((r : Result) × (s.caller ≡ done r))

  -- What a worker waits for.
  pub data Blocked (s : System S K C) : Type 0 where
    no_buffer : s.worker ≡ receiving → channel.recv s.free ≡ not_yet → Blocked s
    no_room : (b : Batch) → s.worker ≡ sending b → channel.send b s.ready ≡ full → Blocked s
    ended : s.worker ≡ finished → Blocked s

  pub worker-progress :
      (s : System S K C)
      → ((b : Batch) → s.worker ≡ reading b → read (length b.bytes) s.source ≢ none)
      → (w : Worker) → s.worker ≡ w
      → CanStep s ⊎ Blocked s
  worker-progress s total receiving e = elim (Received-cases (channel.recv s.free)) [
    | inl (b, c, q) ↦ inl (_, take_buffer e q)
    | inr (inl q) ↦ inr (no_buffer e q)
    | inr (inr q) ↦ inl (_, free_ended e q)
  ]
  worker-progress s total (reading b) e = elim (Option-cases (read (length b.bytes) s.source)) [
    | inl q ↦ absurd (total b e q)
    | inr ((r, next), q) ↦ elim (Outcome-cases r) [
      | inl (got, g) ↦ inl (_, read_batch e (q ∙ ap (λ x. some (x, next)) g))
      | inr (error, g) ↦ inl (_, read_fails e (q ∙ ap (λ x. some (x, next)) g))
    ]
  ]
  worker-progress s total (failing error) e = inl (_, keep_error e)
  worker-progress s total closing e = inl (_, end_stream e)
  worker-progress s total (sending b) e = elim (Sent-cases (channel.send b s.ready)) [
    | inl (c, q) ↦ inl (_, send_batch e q)
    | inr (inl q) ↦ inr (no_room b e q)
    | inr (inr q) ↦ inl (_, ready_refused e q)
  ]
  worker-progress s total finished e = inr (ended e)

  module _ (laws : ChannelLaws channel) (n : ℕ) (positive : 0 < n) where
    open laws use {contents, capacity, closed}

    -- The worker waits only while the caller can go on, or after the end.
    waiting-progress :
        (s : System S K C)
        → Buffers channel laws n s
        → s.caller ≡ waiting
        → channel.recv s.ready ≡ not_yet
        → ¬ Blocked s
    waiting-progress s h e q (no_buffer w p) =
        absurd (ground (arith, h, e, w, laws.on_not_yet s.ready q, laws.on_not_yet s.free p))
    waiting-progress s h e q (no_room b w p) =
        absurd
          (ground (arith, h, e, w, positive, laws.on_not_yet s.ready q, laws.on_full b s.ready p))
    waiting-progress s h e q (ended w) = absurd (ground (arith, h, e, w, laws.on_not_yet s.ready q))

    done-progress :
        (s : System S K C) (r : Result)
        → Buffers channel laws n s
        → s.caller ≡ done r
        → Blocked s
        → IsOver s
    done-progress s r h e (no_buffer w p) =
        absurd (ground (arith, h, e, w, laws.on_not_yet s.free p))
    done-progress s r h e (no_room b w p) =
        absurd (ground (arith, h, e, w, laws.on_full b s.ready p))
    done-progress s r h e (ended w) = (w, (r, e))

    pub caller-progress :
        (s : System S K C)
        → Buffers channel laws n s
        → CanStep s ⊎ Blocked s
        → (c : Caller) → s.caller ≡ c
        → CanStep s ⊎ IsOver s
    caller-progress s h (inl step) c e = inl step
    caller-progress s h (inr b) waiting e = elim (Received-cases (channel.recv s.ready)) [
      | inl (b, c, q) ↦ inl (_, get_batch e q)
      | inr (inl q) ↦ absurd (waiting-progress s h e q b)
      | inr (inr q) ↦ inl (_, ready_ended e q)
    ]
    caller-progress s h (inr _) (calling b) e = inl (_, call e refl)
    caller-progress s h (inr _) (returning keep b) e = elim (Sent-cases (channel.send b s.free)) [
      | inl (c, q) ↦ inl (_, give_back e q)
      | inr (inl q) ↦ absurd (ground (arith, h, e, laws.on_full b s.free q))
      | inr (inr q) ↦ inl (_, free_refused e q)
    ]
    caller-progress s h (inr _) (closing_free x) e = inl (_, close_free e)
    caller-progress s h (inr _) (closing_ready x) e = inl (_, close_ready e)
    caller-progress s h (inr _) checking e = inl (_, check_error e)
    caller-progress s h (inr b) (done r) e = inr (done-progress s r h e b)
