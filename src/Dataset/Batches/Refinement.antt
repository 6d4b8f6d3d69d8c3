-- ===== src/Dataset/Batches/Refinement.antt =====
-- The two threads of `for_each_batch` do what the sequential loop does.
use forge_dsio.Prelude.{
  ℕ, ◌≡◌, ◌≢◌, inl, inr, refl, true, false, Option, some, List, [], ◌∷◌, ◌++◌, map, append-nil, ok,
  err, sym, subst, ap, ap₂, ◌∙◌, arith,
}
use forge_dsio.Error.{Error}
use forge_dsio.File.{Bytes}
use forge_dsio.Dataset.{BatchOptions}
use forge_dsio.Dataset.Channel.{Channel, ChannelLaws}
use forge_dsio.Dataset.Batches.{
  Batch, Answer, Source, Result, normally, by_exception, Exit, Worker, receiving, reading, failing,
  closing, sending, finished, Caller, waiting, calling, returning, closing_free, closing_ready,
  checking, done, returned, System, payload, set_error, take_error, after_read, after_call,
  after_return, after_close, Turn, take_buffer, free_ended, read_batch, read_fails, keep_error,
  end_stream, send_batch, ready_refused, get_batch, ready_ended, call, give_back, free_refused,
  close_free, close_ready, check_error, Reach, here, later, started,
}
use forge_dsio.Dataset.Batches.Buffers.{Buffers, Turn-Buffers, loops, is_finished}
use forge_dsio.Dataset.Batches.Start.{started-Fed, started-Buffers}
use forge_dsio.Dataset.Batches.Sizes.{Sizes, WorkerSized, IsBounded, Turn-Sizes, started-Sizes}
use forge_dsio.Dataset.Batches.Sequence.{Verdict, Sequential, Agrees}
use forge_dsio.Dataset.Batches.Story.{
  verdict, on_the_way, ahead, Ended, Produced, Looping, Told, Told-moves, Produced-Reads,
  Produced-caller, More, Verdicts,
}
use forge_dsio.Dataset.Batches.Moves.{
  read-ReadOn, Ended-Verdicts, call-Told, return-Told, close-Told, check-Told,
}

-- A batch goes from the worker into the channel.
ahead-append :
    (ready : List Batch) (b : Batch) → ahead (ready ++ b ∷ []) receiving ≡ ahead ready (sending b)
ahead-append [] b = refl
ahead-append (r ∷ ready) b = ap (λ x. payload r ∷ x) (ahead-append ready b)

-- A worker that moved from `w` to `v` and read what `v` has in its hands.
ahead-read :
    (ready : List Batch) (v : Worker) → ahead ready v ≡ ahead ready receiving ++ on_the_way v
ahead-read ready v = ap (λ x. x ++ on_the_way v) (sym (append-nil (map payload ready)))

finished_if : (w : Worker) → is_finished w ≡ true → w ≡ finished
finished_if finished q = refl
finished_if w q = absurd (ground (arith, q))

loops-after_close : (x : Exit) → loops (after_close x) ≡ false
unfolding after_close
loops-after_close normally = refl
loops-after_close by_exception = refl

module _ {S K C : Type 0} (channel : Channel Batch C) (laws : ChannelLaws channel) (read : Source S)
    (room : ℕ) (callback : Bytes → K → Answer × K) (s₀ : S) (k₀ : K) where
  open laws use {contents, capacity, closed}

  abbrev pub Story : System S K C → Type 0
  Story s =
      (bs : List Bytes) × Produced read room callback s₀ k₀ s.worker s.caller s.source s.error bs
      × Told read room callback s₀ k₀ s.caller s.worker s.error (ahead (contents s.ready) s.worker)
          s.seen bs

  -- The story of a state with this worker and this caller.
  abbrev StoryOf : System S K C → Worker → Caller → Type 0
  StoryOf s w c =
      (bs : List Bytes) × Produced read room callback s₀ k₀ w c s.source s.error bs
      × Told read room callback s₀ k₀ c w s.error (ahead (contents s.ready) w) s.seen bs

  -- The worker goes from `w` to `v`; the caller's side stays.
  abbrev ToldAs : System S K C → Worker → Option Error → C → List Bytes → Type 0
  ToldAs s w error ready bs =
      Told read room callback s₀ k₀ s.caller w error (ahead (contents ready) w) s.seen bs

  told_ahead :
      (s : System S K C) (w v : Worker) (error : Option Error) (ready : C) (bs bs' : List Bytes)
      → w ≢ finished
      → More read room callback s₀ k₀ s.caller
          (ahead (contents s.ready) w)
          (ahead (contents ready) v)
          bs
          bs'
      → ToldAs s w s.error s.ready bs
      → ToldAs s v error ready bs'
  told_ahead s w v error ready bs bs' ne m t =
      Told-moves read room callback s₀ k₀ s.caller w v s.error error (ahead (contents s.ready) w)
        (ahead (contents ready) v) s.seen bs bs' ne m t

  -- Nothing is read or lost.
  told_same :
      (s : System S K C) (w v : Worker) (error : Option Error) (ready : C) (bs : List Bytes)
      → w ≢ finished
      → ahead (contents ready) v ≡ ahead (contents s.ready) w
      → ToldAs s w s.error s.ready bs
      → ToldAs s v error ready bs
  told_same s w v error ready bs ne q t =
      told_ahead s w v error ready bs bs ne
        (λ _. ([], q ∙ sym (append-nil (ahead (contents s.ready) w)), sym (append-nil bs))) t

  -- The worker stops by an exception, after the caller's loop.
  told_left :
      (s : System S K C) (w : Worker) (bs : List Bytes)
      → w ≢ finished
      → loops s.caller ≡ false
      → ToldAs s w s.error s.ready bs
      → ToldAs s finished s.error s.ready bs
  told_left s w bs ne q t =
      told_ahead s w finished s.error s.ready bs bs ne (λ l. absurd (ground (arith, q, l))) t

  ended-Left :
      (error : Option Error) (source : S) (seen : K) (bs : List Bytes)
      → Produced read room callback s₀ k₀ finished waiting source error bs
      → Looping read room callback s₀ k₀ waiting [] seen bs
      → Verdicts read room callback s₀ k₀ (verdict error) seen
  ended-Left error source seen bs (inl p) (ds, t, e) =
      Ended-Verdicts read room callback s₀ k₀ error seen ds bs t (e ∙ append-nil ds) p
  ended-Left error source seen bs (inr p) l = absurd (ground (arith, p))

  module _ (n : ℕ) where
    -- The worker has an exception only from a channel that the caller has closed.
    refused-left :
        (s : System S K C) (b : Batch)
        → Buffers channel laws n s
        → s.worker ≡ sending b
        → closed s.ready ≡ true
        → loops s.caller ≡ false
    refused-left s b h w q = ground (arith, h, w, q)

    ended-left :
        (s : System S K C)
        → Buffers channel laws n s
        → closed s.free ≡ true
        → loops s.caller ≡ false
    ended-left s h q = ground (arith, h, q)

    -- At the end of the stream the worker is finished, and its last batch is in the channel.
    ended-finished :
        (s : System S K C)
        → Buffers channel laws n s
        → s.caller ≡ waiting
        → closed s.ready ≡ true
        → s.worker ≡ finished
    ended-finished s h w q = finished_if s.worker (ground (arith, h, w, q))

    worker_at : (s : System S K C) (w : Worker) → s.worker ≡ w → Story s → StoryOf s w s.caller
    worker_at s w e h = subst (λ x. StoryOf s x s.caller) e h

    caller_at : (s : System S K C) (c : Caller) → s.caller ≡ c → Story s → StoryOf s s.worker c
    caller_at s c e h = subst (λ x. StoryOf s s.worker x) e h

    Turn-Story :
        {s t : System S K C}
        → Turn channel read callback s t
        → Buffers channel laws n s
        → Sizes channel laws room s
        → Story s
        → Story t
    unfolding set_error
    Turn-Story {s} (take_buffer {b} {c} w q) i z h =
        let (bs, p, t) = worker_at s receiving w h in
        (
          bs,
          p,
          told_same s receiving (reading b) s.error s.ready bs (λ f. absurd (ground (arith, f)))
              refl t,
        )
    Turn-Story {s} (free_ended w q) i z h =
        let (bs, p, t) = worker_at s receiving w h in
        let left = ended-left s i (laws.on_ended s.free q).1 in
        (bs, inr (left, p.0), told_left s receiving bs (λ f. absurd (ground (arith, f))) left t)
    Turn-Story {s} (read_batch {b} {got} {next} w q) i z h =
        let (bs, p, t) = worker_at s (reading b) w h in
        let size = subst (WorkerSized room) w z.of_worker in
        let (cs, p', (ne, e)) =
          read-ReadOn read room callback s₀ k₀ b got s.caller s.source next s.error bs p
            (subst (λ k. read k s.source ≡ some (ok got, next)) size q) in
        let v = after_read got b in
        (
          cs,
          p',
          told_ahead s (reading b) v s.error s.ready bs cs (λ f. absurd (ground (arith, f)))
              (λ _. (on_the_way v, ahead-read (contents s.ready) v, e)) t,
        )
    Turn-Story {s} (read_fails {b} {e} {next} w q) i z h =
        let (bs, p, t) = worker_at s (reading b) w h in
        let size = subst (WorkerSized room) w z.of_worker in
        (
          bs,
          (p.0, (s.source, p.1, (next, subst (λ k. read k s.source ≡ some (err e, next)) size q))),
          told_same s (reading b) (failing e) s.error s.ready bs (λ f. absurd (ground (arith, f)))
              refl t,
        )
    Turn-Story {s} (keep_error {e} w) i z h =
        let (bs, p, t) = worker_at s (failing e) w h in
        (
          bs,
          subst (λ x. Ended read room callback s₀ k₀ (set_error e x) bs) (sym p.0) p.1,
          told_same s (failing e) closing (set_error e s.error) s.ready bs
              (λ f. absurd (ground (arith, f))) refl t,
        )
    Turn-Story {s} (end_stream w) i z h =
        let (bs, p, t) = worker_at s closing w h in
        (
          bs,
          inl p,
          told_same s closing finished s.error (channel.close s.ready) bs
              (λ f. absurd (ground (arith, f)))
              (ap (λ x. ahead x finished) (laws.on_close s.ready).0) t,
        )
    Turn-Story {s} (send_batch {b} {c} w q) i z h =
        let (bs, p, t) = worker_at s (sending b) w h in
        (
          bs,
          p,
          told_same s (sending b) receiving s.error c bs (λ f. absurd (ground (arith, f)))
              (ap (λ x. ahead x receiving) (laws.on_sent b s.ready c q).0
                ∙ ahead-append (contents s.ready) b)
              t,
        )
    Turn-Story {s} (ready_refused {b} w q) i z h =
        let (bs, p, t) = worker_at s (sending b) w h in
        let left = refused-left s b i w (laws.on_refused b s.ready q) in
        (bs, inr (left, p.0), told_left s (sending b) bs (λ f. absurd (ground (arith, f))) left t)
    Turn-Story {s} (get_batch {b} {c} w q) i z h =
        let (bs, p, (ds, t, e)) = caller_at s waiting w h in
        (
          bs,
          Produced-caller read room callback s₀ k₀ s.worker waiting (calling b) s.source s.error bs
              (λ _. refl) p,
          (ds, t, e ∙ ap (λ x. ds ++ ahead x s.worker) (laws.on_received b s.ready c q).0),
        )
    Turn-Story {s} (ready_ended w q) i z h =
        let over = ended-finished s i w (laws.on_ended s.ready q).1 in
        let (bs, p, (ds, t, e)) = caller_at s waiting w h in
        (
          bs,
          Produced-caller read room callback s₀ k₀ s.worker waiting (closing_free normally) s.source
              s.error bs (λ _. refl) p,
          inr (
            over,
            ended-Left s.error s.source s.seen bs
                (subst (λ x. Produced read room callback s₀ k₀ x waiting s.source s.error bs) over
                  p)
                (ds, t, e ∙ ap₂ (λ x y. ds ++ ahead x y) (laws.on_ended s.ready q).0 over),
          ),
        )
    Turn-Story {s} (call {b} {a} {k} w q) i z h =
        let (bs, p, t) = caller_at s (calling b) w h in
        (
          bs,
          Produced-caller read room callback s₀ k₀ s.worker (calling b) (after_call a b) s.source
              s.error bs (λ _. refl) p,
          call-Told read room callback s₀ k₀ a b s.worker s.error
              (ahead (contents s.ready) s.worker) s.seen k bs
              (Produced-Reads read room callback s₀ k₀ s.worker (calling b) s.source s.error bs refl
                p)
              q t,
        )
    Turn-Story {s} (give_back {keep} {b} w q) i z h =
        let (bs, p, t) = caller_at s (returning keep b) w h in
        (
          bs,
          Produced-caller read room callback s₀ k₀ s.worker (returning keep b) (after_return keep)
              s.source s.error bs (λ _. refl) p,
          return-Told read room callback s₀ k₀ keep b s.worker s.error
              (ahead (contents s.ready) s.worker) s.seen bs t,
        )
    Turn-Story {s} (free_refused {keep} {b} w q) i z h =
        absurd (ground (arith, i, w, laws.on_refused b s.free q))
    Turn-Story {s} (close_free {x} w) i z h =
        let (bs, p, t) = caller_at s (closing_free x) w h in
        (
          bs,
          Produced-caller read room callback s₀ k₀ s.worker (closing_free x) (closing_ready x)
              s.source s.error bs (λ l. absurd (ground (arith, l))) p,
          t,
        )
    Turn-Story {s} (close_ready {x} w) i z h =
        let (bs, p, t) = caller_at s (closing_ready x) w h in
        (
          bs,
          Produced-caller read room callback s₀ k₀ s.worker (closing_ready x) (after_close x)
              s.source s.error bs (λ l. absurd (ground (arith, l, loops-after_close x))) p,
          close-Told read room callback s₀ k₀ x s.worker s.error
              (ahead (contents (channel.close s.ready)) s.worker) s.seen bs t,
        )
    Turn-Story {s} (check_error w) i z h =
        let (bs, p, t) = caller_at s checking w h in
        (
          bs,
          Produced-caller read room callback s₀ k₀ s.worker checking
              (done (returned (take_error s.error))) s.source s.error bs
              (λ l. absurd (ground (arith, l))) p,
          check-Told read room callback s₀ k₀ s.worker checking s.source s.error s.seen bs p t,
        )

module _ {S K C : Type 0} (channel : Channel Batch C) (laws : ChannelLaws channel) (read : Source S)
    (bounded : IsBounded read) (callback : Bytes → K → Answer × K) (options : BatchOptions)
    (source : S) (seen : K) where
  -- What every run keeps.
  pub record Kept (s : System S K C) : Type 0 where
    pub buffers : Buffers channel laws options.prefetch s
    pub sizes : Sizes channel laws options.batch_bytes s
    pub story : Story channel laws read options.batch_bytes callback source seen s

  started-Kept : Kept (started channel options source seen)
  unfolding started
  started-Kept = record {
    buffers = started-Buffers channel laws options source seen;
    sizes = started-Sizes channel laws options source seen;
    story = (
      [],
      (refl, refl),
      (
        [],
        refl,
        sym (ap (λ x. ahead x receiving) (started-Fed channel laws options source seen).0),
      ),
    );
  }

  pub Reach-Kept :
      {t : System S K C}
      → Reach channel read callback (started channel options source seen) t
      → Kept t
  Reach-Kept here = started-Kept
  Reach-Kept (later r m) =
      let k = Reach-Kept r in
      record {
        buffers = Turn-Buffers channel laws m k.buffers;
        sizes = Turn-Sizes channel laws bounded options.batch_bytes m k.sizes;
        story =
            Turn-Story channel laws read options.batch_bytes callback source seen options.prefetch m
              k.buffers k.sizes k.story;
      }

  pub Reach-Sequential :
      {t : System S K C} (r : Result)
      → Reach channel read callback (started channel options source seen) t
      → t.caller ≡ done r
      → (v : Verdict) × Sequential read options.batch_bytes callback source seen v t.seen
        × Agrees read options.batch_bytes callback source v r
  Reach-Sequential {t} r run e =
      (caller_at channel laws read options.batch_bytes callback source seen options.prefetch t
        (done r) e (Reach-Kept run).story).2
