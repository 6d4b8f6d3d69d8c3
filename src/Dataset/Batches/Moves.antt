-- ===== src/Dataset/Batches/Moves.antt =====
-- A step of either thread of `for_each_batch` keeps the account of the batches.
use forge_dsio.Prelude.{
  ℕ, ◌<◌, ◌==◌, ◌≡◌, ◌≢◌, inl, inr, refl, Bool, true, false, Option, none, some, List, [], ◌∷◌,
  ◌++◌, length, drop, take-append, append_assoc, append-nil, ok, sym, subst, ap, ◌∙◌, arith,
  Bool-cases,
}
use forge_dsio.Error.{Error}
use forge_dsio.File.{Bytes}
use forge_dsio.Dataset.Batches.{
  Batch, Answer, Source, goes_on, stops, throws, normally, by_exception, Exit, Worker, closing,
  sending, finished, Caller, calling, returning, returned, payload, put, take_error, after_read,
  after_call, after_return, after_close,
}
use forge_dsio.Dataset.Batches.Sequence.{
  Verdict, completed, failed, stopped, thrown, at_end, on_error, on_stop, on_throw, Reads, Takes,
  Agrees, Reads-append, Reads-split, Takes-snoc, Sequential-after,
}
use forge_dsio.Dataset.Batches.Story.{
  verdict, on_the_way, Going, Ended, Produced, Looping, Left, LeftBy, Told, Produced-FailsAfter,
  Verdicts,
}

module _ {S K : Type 0} (read : Source S) (room : ℕ) (callback : Bytes → K → Answer × K) (s₀ : S)
    (k₀ : K) where
  -- A batch that was read without an error, or the end of the stream.
  abbrev pub ReadOn : Worker → Caller → S → Option Error → List Bytes → Type 0
  ReadOn w c next error bs =
      (cs : List Bytes) × Produced read room callback s₀ k₀ w c next error cs
      × ((w ≢ finished) × (cs ≡ bs ++ on_the_way w))

  end-ReadOn :
      (got : Bytes) (c : Caller) (source next : S) (error : Option Error) (bs : List Bytes)
      → Going read room callback s₀ k₀ source error bs
      → read room source ≡ some (ok got, next)
      → length got ≡ 0
      → ReadOn closing c next error bs
  end-ReadOn got c source next error bs (e, p) q l = (
    bs,
    subst (λ x. Ended read room callback s₀ k₀ x bs) (sym e) (source, p, (got, next, q, l)),
    (λ f. absurd (ground (arith, f)), sym (append-nil bs)),
  )

  batch-ReadOn :
      (b : Batch) (got : Bytes) (c : Caller) (source next : S) (error : Option Error)
      (bs : List Bytes)
      → Going read room callback s₀ k₀ source error bs
      → read room source ≡ some (ok got, next)
      → 0 < length got
      → ReadOn (sending (put got b)) c next error bs
  batch-ReadOn b got c source next error bs (e, p) q l = (
    bs ++ got ∷ [],
    (e, Reads-append read room callback s₀ source next bs (got ∷ []) p (next, q, l, refl)),
    (
      λ f. absurd (ground (arith, f)),
      ap (λ x. bs ++ x ∷ []) (sym (take-append (length got) got (drop (length got) b.bytes) refl)),
    ),
  )

  pub read-ReadOn :
      (b : Batch) (got : Bytes) (c : Caller) (source next : S) (error : Option Error)
      (bs : List Bytes)
      → Going read room callback s₀ k₀ source error bs
      → read room source ≡ some (ok got, next)
      → ReadOn (after_read got b) c next error bs
  unfolding after_read
  read-ReadOn b got c source next error bs g q = elim (Bool-cases (length got == 0)) [
    | inl l ↦ rw l (end-ReadOn got c source next error bs g q (ground (arith, l)))
    | inr l ↦ rw l (batch-ReadOn b got c source next error bs g q (ground (arith, l)))
  ]

  -- The end of the stream, seen by the caller.
  pub Ended-Verdicts :
      (error : Option Error) (seen : K) (ds bs : List Bytes)
      → Takes read room callback k₀ ds seen
      → bs ≡ ds
      → Ended read room callback s₀ k₀ error bs
      → Verdicts read room callback s₀ k₀ (verdict error) seen
  Ended-Verdicts none seen ds bs t q (m, p, (got, x, r, l)) =
      Sequential-after read room callback s₀ m k₀ seen seen ds completed
        (subst (λ y. Reads read room callback s₀ y m) q p) t (at_end r l)
  Ended-Verdicts (some e) seen ds bs t q (m, p, (x, r)) =
      Sequential-after read room callback s₀ m k₀ seen seen ds (failed e)
        (subst (λ y. Reads read room callback s₀ y m) q p) t (on_error r)

  -- The answer of the callback to the batch in hand.
  pub call-Told :
      (a : Answer) (b : Batch) (w : Worker) (error : Option Error) (rest : List Bytes)
      (seen next : K) (bs : List Bytes)
      → (m : S) × Reads read room callback s₀ bs m
      → callback (payload b) seen ≡ (a, next)
      → Looping read room callback s₀ k₀ (calling b) rest seen bs
      → Told read room callback s₀ k₀ (after_call a b) w error rest next bs
  unfolding after_call
  call-Told goes_on b w error rest seen next bs (m, p) q (ds, t, e) = (
    ds ++ payload b ∷ [],
    Takes-snoc read room callback k₀ seen next ds (payload b) t q,
    e ∙ sym (append_assoc ds (payload b ∷ []) rest),
  )
  call-Told stops b w error rest seen next bs (m, p) q (ds, t, e) =
      let (x, p₁, p₂) =
        Reads-split read room callback s₀ m ds (payload b ∷ rest)
          (subst (λ y. Reads read room callback s₀ y m) e p) in
      Sequential-after read room callback s₀ x k₀ seen next ds stopped p₁ t (on_stop p₂.1 p₂.2 q)
  call-Told throws b w error rest seen next bs (m, p) q (ds, t, e) =
      let (x, p₁, p₂) =
        Reads-split read room callback s₀ m ds (payload b ∷ rest)
          (subst (λ y. Reads read room callback s₀ y m) e p) in
      Sequential-after read room callback s₀ x k₀ seen next ds thrown p₁ t (on_throw p₂.1 p₂.2 q)

  pub return-Told :
      (keep : Bool) (b : Batch) (w : Worker) (error : Option Error) (rest : List Bytes) (seen : K)
      (bs : List Bytes)
      → Told read room callback s₀ k₀ (returning keep b) w error rest seen bs
      → Told read room callback s₀ k₀ (after_return keep) w error rest seen bs
  unfolding after_return
  return-Told true b w error rest seen bs t = t
  return-Told false b w error rest seen bs t = inl t

  pub close-Told :
      (x : Exit) (w : Worker) (error : Option Error) (rest : List Bytes) (seen : K)
      (bs : List Bytes)
      → LeftBy read room callback s₀ k₀ x w error seen
      → Told read room callback s₀ k₀ (after_close x) w error rest seen bs
  unfolding after_close
  close-Told normally w error rest seen bs t = t
  close-Told by_exception w error rest seen bs t = (thrown, t, refl)

  -- What `error.take` finds.
  pub check-Told :
      (w : Worker) (c : Caller) (source : S) (error : Option Error) (seen : K) (bs : List Bytes)
      → Produced read room callback s₀ k₀ w c source error bs
      → Left read room callback s₀ k₀ w error seen
      → (v : Verdict) × Verdicts read room callback s₀ k₀ v seen
        × Agrees read room callback s₀ v (returned (take_error error))
  unfolding take_error
  check-Told w c source none seen bs p (inl t) = (stopped, t, inl refl)
  check-Told w c source (some e) seen bs p (inl t) = (
    stopped,
    t,
    inr (e, bs, refl, Produced-FailsAfter read room callback s₀ k₀ w c source e bs p),
  )
  check-Told w c source none seen bs p (inr t) = (completed, t.1, refl)
  check-Told w c source (some e) seen bs p (inr t) = (failed e, t.1, refl)
