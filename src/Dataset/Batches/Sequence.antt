-- ===== src/Dataset/Batches/Sequence.antt =====
-- What include/dsio/dataset.hpp promises of `for_each_batch`: the batches of the stream one after the
-- other, each to the callback, until the stream ends or fails or the callback stops.
use forge_dsio.Prelude.{
  ℕ, ◌<◌, ◌≡◌, ◌⊎◌, refl, some, List, [], ◌∷◌, ◌++◌, length, ok, err, sym, subst,
}
use forge_dsio.Error.{Error}
use forge_dsio.File.{Bytes}
use forge_dsio.Dataset.Batches.{Answer, goes_on, stops, throws, Result, returned, threw, Source}

-- How the loop ends.
pub data Verdict : Type 0 where
  completed : Verdict
  failed : Error → Verdict
  stopped : Verdict
  thrown : Verdict

module _ {S K : Type 0} (read : Source S) (room : ℕ) (callback : Bytes → K → Answer × K) where
  -- One thread: read a batch, call the callback, go on.
  pub data Sequential : S → K → Verdict → K → Type 0 where
    at_end :
        {s t : S} {k : K} {got : Bytes}
        → read room s ≡ some (ok got, t)
        → length got ≡ 0
        → Sequential s k completed k
    on_error :
        {s t : S} {k : K} {e : Error} → read room s ≡ some (err e, t) → Sequential s k (failed e) k
    on_stop :
        {s t : S} {k l : K} {got : Bytes}
        → read room s ≡ some (ok got, t)
        → 0 < length got
        → callback got k ≡ (stops, l)
        → Sequential s k stopped l
    on_throw :
        {s t : S} {k l : K} {got : Bytes}
        → read room s ≡ some (ok got, t)
        → 0 < length got
        → callback got k ≡ (throws, l)
        → Sequential s k thrown l
    and_on :
        {s t : S} {k l m : K} {got : Bytes} {v : Verdict}
        → read room s ≡ some (ok got, t)
        → 0 < length got
        → callback got k ≡ (goes_on, l)
        → Sequential t l v m
        → Sequential s k v m

  -- The batches that the reads from `s` to `t` give.
  abbrev pub Reads : S → List Bytes → S → Type 0
  Reads s [] t = s ≡ t
  Reads s (b ∷ bs) t = (m : S) × (read room s ≡ some (ok b, m)) × (0 < length b) × Reads m bs t

  -- The callback takes these batches and asks for more each time.
  abbrev pub Takes : K → List Bytes → K → Type 0
  Takes k [] l = k ≡ l
  Takes k (b ∷ bs) l = (m : K) × (callback b k ≡ (goes_on, m)) × Takes m bs l

  -- A read fails so, at the end of some batches.
  abbrev pub FailsAfter : S → List Bytes → Error → Type 0
  FailsAfter s bs e = (m : S) × Reads s bs m × ((t : S) × (read room m ≡ some (err e, t)))

  abbrev pub EndsAfter : S → List Bytes → Type 0
  EndsAfter s bs =
      (m : S) × Reads s bs m
      × ((got : Bytes) × (t : S) × (read room m ≡ some (ok got, t)) × (length got ≡ 0))

  -- The result of the concurrent loops is that of the sequential one. Where the callback has
  -- stopped, the worker may have met an error that lies further on in the stream.
  abbrev pub Agrees : S → Verdict → Result → Type 0
  Agrees s completed r = r ≡ returned (ok tt)
  Agrees s (failed e) r = r ≡ returned (err e)
  Agrees s stopped r =
      (r ≡ returned (ok tt))
      ⊎ ((e : Error) × (bs : List Bytes) × (r ≡ returned (err e)) × FailsAfter s bs e)
  Agrees s thrown r = r ≡ threw

  pub Reads-append :
      (s m t : S) (bs cs : List Bytes) → Reads s bs m → Reads m cs t → Reads s (bs ++ cs) t
  Reads-append s m t [] cs p q = subst (λ x. Reads x cs t) (sym p) q
  Reads-append s m t (b ∷ bs) cs p q = (p.0, p.1, p.2, Reads-append p.0 m t bs cs p.3 q)

  pub Reads-split :
      (s t : S) (bs cs : List Bytes) → Reads s (bs ++ cs) t → (m : S) × Reads s bs m × Reads m cs t
  Reads-split s t [] cs p = (s, refl, p)
  Reads-split s t (b ∷ bs) cs p =
      let (m, p', q') = Reads-split p.0 t bs cs p.3 in (m, (p.0, p.1, p.2, p'), q')

  pub Takes-snoc :
      (k l m : K) (bs : List Bytes) (b : Bytes)
      → Takes k bs l
      → callback b l ≡ (goes_on, m)
      → Takes k (bs ++ b ∷ []) m
  Takes-snoc k l m [] b p q = (m, subst (λ x. callback b x ≡ (goes_on, m)) (sym p) q, refl)
  Takes-snoc k l m (c ∷ bs) b p q = (p.0, p.1, Takes-snoc p.0 l m bs b p.2 q)

  -- The sequential loop gets to where batches have been read and taken.
  pub Sequential-after :
      (s t : S) (k l m : K) (bs : List Bytes) (v : Verdict)
      → Reads s bs t
      → Takes k bs l
      → Sequential t l v m
      → Sequential s k v m
  Sequential-after s t k l m [] v p q r =
      subst (λ x. Sequential x k v m) (sym p) (subst (λ x. Sequential t x v m) (sym q) r)
  Sequential-after s t k l m (b ∷ bs) v p q r =
      and_on p.1 p.2 q.1 (Sequential-after p.0 t q.0 l m bs v p.3 q.2 r)
