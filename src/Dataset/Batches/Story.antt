-- ===== src/Dataset/Batches/Story.antt =====
-- Where the batches of the stream are while the threads of `for_each_batch` run.
use forge_dsio.Prelude.{
  Bool-cases, ℕ, ◌≡◌, ◌≢◌, ◌⊎◌, inl, inr, refl, true, false, Option, none, some, List, [], ◌∷◌,
  ◌++◌, map, append_assoc, sym, ap, ◌∙◌, arith,
}
use forge_dsio.Error.{Error}
use forge_dsio.File.{Bytes}
use forge_dsio.Dataset.Batches.{
  Batch, Answer, Exit, normally, by_exception, Worker, receiving, reading, failing, closing,
  sending, finished, Caller, waiting, calling, returning, closing_free, closing_ready, checking,
  done, Source, payload,
}
use forge_dsio.Dataset.Batches.Buffers.{loops}
use forge_dsio.Dataset.Batches.Sequence.{
  Verdict, completed, failed, stopped, thrown, Sequential, Reads, Takes, FailsAfter, EndsAfter,
  Agrees,
}

abbrev pub verdict : Option Error → Verdict
verdict none = completed
verdict (some e) = failed e

abbrev pub on_the_way : Worker → List Bytes
on_the_way (sending b) = payload b ∷ []
on_the_way _ = []

abbrev pub in_hand : Caller → List Bytes
in_hand (calling b) = payload b ∷ []
in_hand _ = []

-- The batches between the callback and the stream.
abbrev pub ahead : List Batch → Worker → List Bytes
ahead ready w = map payload ready ++ on_the_way w

module _ {S K : Type 0} (read : Source S) (room : ℕ) (callback : Bytes → K → Answer × K) (s₀ : S)
    (k₀ : K) where
  abbrev pub Ended : Option Error → List Bytes → Type 0
  Ended none bs = EndsAfter read room callback s₀ bs
  Ended (some e) bs = FailsAfter read room callback s₀ bs e

  abbrev pub Going : S → Option Error → List Bytes → Type 0
  Going source error bs = (error ≡ none) × Reads read room callback s₀ bs source

  -- The worker has read the batches `bs`. Where it dropped one, the caller has left its loop.
  abbrev pub Produced : Worker → Caller → S → Option Error → List Bytes → Type 0
  Produced (failing e) c source error bs = (error ≡ none) × FailsAfter read room callback s₀ bs e
  Produced closing c source error bs = Ended error bs
  Produced finished c source error bs = Ended error bs ⊎ ((loops c ≡ false) × (error ≡ none))
  Produced _ c source error bs = Going source error bs

  -- The callback has taken a prefix of `bs`, and the rest is on its way.
  abbrev pub Looping : Caller → List Bytes → K → List Bytes → Type 0
  Looping c rest seen bs =
      (ds : List Bytes) × Takes read room callback k₀ ds seen × (bs ≡ ds ++ (in_hand c ++ rest))

  abbrev pub Verdicts : Verdict → K → Type 0
  Verdicts v seen = Sequential read room callback s₀ k₀ v seen

  -- After the loop: the callback has stopped, or the stream is over.
  abbrev pub Left : Worker → Option Error → K → Type 0
  Left w error seen = Verdicts stopped seen ⊎ ((w ≡ finished) × Verdicts (verdict error) seen)

  abbrev pub LeftBy : Exit → Worker → Option Error → K → Type 0
  LeftBy normally w error seen = Left w error seen
  LeftBy by_exception w error seen = Verdicts thrown seen

  -- What the callback has seen is what the sequential loop gives it.
  abbrev pub Told : Caller → Worker → Option Error → List Bytes → K → List Bytes → Type 0
  Told (returning false b) w error rest seen bs = Verdicts stopped seen
  Told (closing_free x) w error rest seen bs = LeftBy x w error seen
  Told (closing_ready x) w error rest seen bs = LeftBy x w error seen
  Told checking w error rest seen bs = Left w error seen
  Told (done r) w error rest seen bs =
      (v : Verdict) × Verdicts v seen × Agrees read room callback s₀ v r
  Told c w error rest seen bs = Looping c rest seen bs

  -- A worker that is not finished moves on, and reads `more`.
  LeftBy-moves :
      (x : Exit) (w v : Worker) (e f : Option Error) (seen : K)
      → w ≢ finished
      → LeftBy x w e seen
      → LeftBy x v f seen
  LeftBy-moves normally w v e f seen h (inl p) = inl p
  LeftBy-moves normally w v e f seen h (inr (q, p)) = absurd (h q)
  LeftBy-moves by_exception w v e f seen h p = p

  abbrev pub More : Caller → List Bytes → List Bytes → List Bytes → List Bytes → Type 0
  More c rest rest' bs bs' =
      loops c ≡ true → (more : List Bytes) × (rest' ≡ rest ++ more) × (bs' ≡ bs ++ more)

  Looping-moves :
      (c : Caller) (rest rest' : List Bytes) (seen : K) (bs bs' : List Bytes)
      → loops c ≡ true
      → More c rest rest' bs bs'
      → Looping c rest seen bs
      → Looping c rest' seen bs'
  Looping-moves c rest rest' seen bs bs' l m (ds, t, q) =
      let (more, e, f) = m l in
      (
        ds,
        t,
        f
            ∙ ap (λ x. x ++ more) q
            ∙ append_assoc ds (in_hand c ++ rest) more
            ∙ ap (λ x. ds ++ x)
                (append_assoc (in_hand c) rest more ∙ ap (λ x. in_hand c ++ x) (sym e)),
      )

  pub Told-moves :
      (c : Caller) (w v : Worker) (e f : Option Error) (rest rest' : List Bytes) (seen : K)
      (bs bs' : List Bytes)
      → w ≢ finished
      → More c rest rest' bs bs'
      → Told c w e rest seen bs
      → Told c v f rest' seen bs'
  Told-moves waiting w v e f rest rest' seen bs bs' h m t =
      Looping-moves waiting rest rest' seen bs bs' refl m t
  Told-moves (calling b) w v e f rest rest' seen bs bs' h m t =
      Looping-moves (calling b) rest rest' seen bs bs' refl m t
  Told-moves (returning true b) w v e f rest rest' seen bs bs' h m t =
      Looping-moves (returning true b) rest rest' seen bs bs' refl m t
  Told-moves (returning false b) w v e f rest rest' seen bs bs' h m t = t
  Told-moves (closing_free x) w v e f rest rest' seen bs bs' h m t = LeftBy-moves x w v e f seen h t
  Told-moves (closing_ready x) w v e f rest rest' seen bs bs' h m t =
      LeftBy-moves x w v e f seen h t
  Told-moves checking w v e f rest rest' seen bs bs' h m t = LeftBy-moves normally w v e f seen h t
  Told-moves (done r) w v e f rest rest' seen bs bs' h m t = t

  Ended-Reads :
      (error : Option Error) (bs : List Bytes)
      → Ended error bs
      → (m : S) × Reads read room callback s₀ bs m
  Ended-Reads none bs p = (p.0, p.1)
  Ended-Reads (some e) bs p = (p.0, p.1)

  -- While the caller is in its loop, nothing that was read is lost.
  pub Produced-Reads :
      (w : Worker) (c : Caller) (source : S) (error : Option Error) (bs : List Bytes)
      → loops c ≡ true
      → Produced w c source error bs
      → (m : S) × Reads read room callback s₀ bs m
  Produced-Reads receiving c source error bs l p = (source, p.1)
  Produced-Reads (reading b) c source error bs l p = (source, p.1)
  Produced-Reads (failing e) c source error bs l p = (p.1.0, p.1.1)
  Produced-Reads closing c source error bs l p = Ended-Reads error bs p
  Produced-Reads (sending b) c source error bs l p = (source, p.1)
  Produced-Reads finished c source error bs l (inl p) = Ended-Reads error bs p
  Produced-Reads finished c source error bs l (inr p) = absurd (ground (arith, l, p))

  -- An error that is kept is one of the stream.
  pub Produced-FailsAfter :
      (w : Worker) (c : Caller) (source : S) (e : Error) (bs : List Bytes)
      → Produced w c source (some e) bs
      → FailsAfter read room callback s₀ bs e
  Produced-FailsAfter receiving c source e bs p = absurd (ground (arith, p))
  Produced-FailsAfter (reading b) c source e bs p = absurd (ground (arith, p))
  Produced-FailsAfter (failing _) c source e bs p = absurd (ground (arith, p))
  Produced-FailsAfter closing c source e bs p = p
  Produced-FailsAfter (sending b) c source e bs p = absurd (ground (arith, p))
  Produced-FailsAfter finished c source e bs (inl p) = p
  Produced-FailsAfter finished c source e bs (inr p) = absurd (ground (arith, p))

  pub Produced-caller :
      (w : Worker) (c d : Caller) (source : S) (error : Option Error) (bs : List Bytes)
      → (loops d ≡ true → loops c ≡ true)
      → Produced w c source error bs
      → Produced w d source error bs
  Produced-caller receiving c d source error bs h p = p
  Produced-caller (reading b) c d source error bs h p = p
  Produced-caller (failing e) c d source error bs h p = p
  Produced-caller closing c d source error bs h p = p
  Produced-caller (sending b) c d source error bs h p = p
  Produced-caller finished c d source error bs h (inl p) = inl p
  Produced-caller finished c d source error bs h (inr p) = elim (Bool-cases (loops d)) [
    | inl q ↦ absurd (ground (arith, h q, p))
    | inr q ↦ inr (q, p.1)
  ]
