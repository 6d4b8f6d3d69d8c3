-- ===== src/Dataset/Batches/Termination.antt =====
-- Every run of `for_each_batch` over a finite stream comes to an end.
use forge_dsio.Prelude.{
  ◌≢◌, none, ◌⊎◌, subst, sym, inl, inr, inl, inr, ℕ, zero, suc, ◌+◌, ◌*◌, ◌≤◌, ◌<◌, ◌==◌, ◌≡◌, refl,
  some, ok, [], ◌∷◌, length, length-append, Bool-cases, arith,
}
use forge_dsio.File.{Bytes}
use forge_dsio.Dataset.{BatchOptions}
use forge_dsio.Dataset.Channel.{Channel, ChannelLaws}
use forge_dsio.Dataset.Batches.{
  Batch, Answer, Source, Worker, receiving, reading, failing, closing, sending, finished, Caller,
  waiting, calling, returning, closing_free, closing_ready, checking, done, System, started,
  after_read, after_call, after_return, after_close, Turn, take_buffer, free_ended, read_batch,
  read_fails, keep_error, end_stream, send_batch, ready_refused, get_batch, ready_ended, call,
  give_back, free_refused, close_free, close_ready, check_error, Reach, here, later,
}
use forge_dsio.Dataset.Batches.Sizes.{IsBounded, WorkerSized}
use forge_dsio.Dataset.Batches.Progress.{CanStep, IsOver, worker-progress, caller-progress}
use forge_dsio.Dataset.Batches.Refinement.{Reach-Kept}
use forge_dsio.Dataset.Batches.Start.{started-Fed}

-- A stream that comes to an end: on the good states a read has a result, and after a batch the state
-- is good and has a lower rank.
pub record IsFinite {S : Type 0} (read : Source S) (room : ℕ) : Type 1 where
  pub good : S → Type 0
  pub rank : S → ℕ
  pub returns : (s : S) → good s → read room s ≢ none
  pub goes_on :
      (s t : S) (got : Bytes)
      → good s
      → read room s ≡ some (ok got, t)
      → 0 < length got
      → good t × (rank t < rank s)

-- The steps that a thread still takes, when it is given nothing more to do.
abbrev worker_left : Worker → ℕ → ℕ
worker_left receiving n = 4 + 6 * n
worker_left (reading _) n = 3 + 6 * n
worker_left (failing _) n = 2
worker_left closing n = 1
worker_left (sending _) n = 8 + 6 * n
worker_left finished n = 0

abbrev caller_left : Caller → ℕ
caller_left waiting = 4
caller_left (calling _) = 6
caller_left (returning _ _) = 5
caller_left (closing_free _) = 3
caller_left (closing_ready _) = 2
caller_left checking = 1
caller_left (done _) = 0

-- What both threads still do, with the batches in `ready` for the caller.
abbrev steps_left :
    {S K C : Type 0} {channel : Channel Batch C} → ChannelLaws channel → (S → ℕ) → System S K C → ℕ
steps_left laws rank s =
    worker_left s.worker (rank s.source) + 3 * length (laws.contents s.ready) + caller_left s.caller

module _ {S : Type 0} {read : Source S} {room : ℕ} (finite : IsFinite read room) where
  open finite use {good, rank}

  -- While the worker reads, the stream is in a good state.
  abbrev pub Healthy : Worker → S → Type 0
  Healthy receiving s = good s
  Healthy (reading _) s = good s
  Healthy (sending _) s = good s
  Healthy _ s = Unit

  read-Healthy :
      (b : Batch) (got : Bytes) (s t : S)
      → good s
      → read room s ≡ some (ok got, t)
      → Healthy (after_read got b) t × (worker_left (after_read got b) (rank t) < 3 + 6 * rank s)
  unfolding after_read
  read-Healthy b got s t g q = elim (Bool-cases (length got == 0)) [
    | inl l ↦ rw l (tt, omega arith)
    | inr l ↦
        let n = finite.goes_on s t got g q (ground (arith, l)) in rw l (n.0, omega (arith, n.1))
  ]

  module _ {K C : Type 0} (channel : Channel Batch C) (laws : ChannelLaws channel)
      {callback : Bytes → K → Answer × K} where
    open laws use {contents}

    pub Turn-Healthy :
        {s t : System S K C}
        → Turn channel read callback s t
        → WorkerSized room s.worker
        → Healthy s.worker s.source
        → Healthy t.worker t.source × (steps_left laws rank t < steps_left laws rank s)
    unfolding after_call after_return after_close
    Turn-Healthy (take_buffer w q) z g = ground (arith, w, g)
    Turn-Healthy (free_ended w q) z g = ground (arith, w)
    Turn-Healthy {s} (read_batch {b} {got} {next} w q) z g =
        let size = subst (WorkerSized room) w z in
        let good_s = subst (λ x. Healthy x s.source) w g in
        let h =
          read-Healthy b got s.source next good_s
            (subst (λ k. read k s.source ≡ some (ok got, next)) size q) in
        (h.0, ground (arith, w, h.1))
    Turn-Healthy (read_fails w q) z g = ground (arith, w)
    Turn-Healthy (keep_error w) z g = ground (arith, w)
    Turn-Healthy {s} (end_stream w) z g = ground (arith, w, laws.on_close s.ready)
    Turn-Healthy {s} (send_batch {b} {c} w q) z g =
        ground (arith, w, g, laws.on_sent b s.ready c q, length-append (contents s.ready) (b ∷ []))
    Turn-Healthy (ready_refused w q) z g = ground (arith, w)
    Turn-Healthy {s} (get_batch {b} {c} w q) z g =
        (g, ground (arith, w, laws.on_received b s.ready c q))
    Turn-Healthy (ready_ended w q) z g = (g, ground (arith, w))
    Turn-Healthy (call {a} w q) z g = (g, ground (arith, w))
    Turn-Healthy (give_back {keep} w q) z g = (g, ground (arith, w))
    Turn-Healthy (free_refused w q) z g = (g, ground (arith, w))
    Turn-Healthy (close_free w) z g = (g, ground (arith, w))
    Turn-Healthy {s} (close_ready {x} w) z g = (g, ground (arith, w, laws.on_close s.ready))
    Turn-Healthy (check_error w) z g = (g, ground (arith, w))

started-steps_left :
    {S K C : Type 0} (channel : Channel Batch C) (laws : ChannelLaws channel) (rank : S → ℕ)
    (options : BatchOptions) (source : S) (seen : K)
    → steps_left laws rank (started channel options source seen) ≤ 6 * rank source + 8
unfolding started
started-steps_left channel laws rank options source seen =
    ground (arith, started-Fed channel laws options source seen)

module _ {S K C : Type 0} {channel : Channel Batch C} {read : Source S}
    {callback : Bytes → K → Answer × K} where
  abbrev pub steps : {s t : System S K C} → Reach channel read callback s t → ℕ
  steps here = 0
  steps (later r m) = suc (steps r)

  Reach-trans :
      {s t u : System S K C}
      → Reach channel read callback s t
      → Reach channel read callback t u
      → Reach channel read callback s u
  Reach-trans r here = r
  Reach-trans r (later q m) = later (Reach-trans r q) m

module _ {S K C : Type 0} (channel : Channel Batch C) (laws : ChannelLaws channel) (read : Source S)
    (bounded : IsBounded read) (callback : Bytes → K → Answer × K) (options : BatchOptions)
    (source : S) (seen : K) (finite : IsFinite read options.batch_bytes)
    (good_start : finite.good source) where
  abbrev Run : System S K C → Type 0
  Run t = Reach channel read callback (started channel options source seen) t

  pub Reach-Healthy :
      {t : System S K C} (r : Run t)
      → Healthy finite t.worker t.source
        × (steps r + steps_left laws finite.rank t ≤ 6 * finite.rank source + 8)
  unfolding started
  Reach-Healthy here =
      (good_start, omega (arith, started-steps_left channel laws finite.rank options source seen))
  Reach-Healthy (later {t} r m) =
      let h = Reach-Healthy r in
      let k = Reach-Kept channel laws read bounded callback options source seen r in
      let n = Turn-Healthy finite channel laws m k.sizes.of_worker h.0 in
      (n.0, omega (arith, h.1, n.1))

  pub Reach-CanStep :
      {t : System S K C}
      → 0 < options.prefetch
      → Run t
      → CanStep channel read callback t ⊎ IsOver channel read callback t
  Reach-CanStep {t} positive r =
      let k = Reach-Kept channel laws read bounded callback options source seen r in
      let h = (Reach-Healthy r).0 in
      let returns_at : (b : Batch) → t.worker ≡ reading b → read (length b.bytes) t.source ≢ none =
        λ b e.
          subst (λ n. read n t.source ≢ none)
            (sym (subst (WorkerSized options.batch_bytes) e k.sizes.of_worker))
            (finite.returns t.source (subst (λ x. Healthy finite x t.source) e h)) in
      caller-progress channel read callback laws options.prefetch positive t k.buffers
        (worker-progress channel read callback t returns_at t.worker refl) t.caller refl

  -- From where the run is, some steps end it; `n` bounds them.
  abbrev Ends : System S K C → Type 0
  Ends t = (u : System S K C) × Reach channel read callback t u × IsOver channel read callback u

  pub Reach-Ends :
      (n : ℕ) {t : System S K C}
      → 0 < options.prefetch
      → (r : Run t) → 6 * finite.rank source + 8 ≤ steps r + n
      → Ends t
  Reach-Ends zero {t} p r h = elim (Reach-CanStep p r) [
    | inr over ↦ (t, here, over)
    | inl (u, m) ↦ absurd (omega (arith, h, (Reach-Healthy (later r m)).1))
  ]
  Reach-Ends (suc n) {t} p r h = elim (Reach-CanStep p r) [
    | inr over ↦ (t, here, over)
    | inl (u, m) ↦
        let (v, q, over) = Reach-Ends n p (later r m) (omega (arith, h)) in
        (v, Reach-trans (later here m) q, over)
  ]
