-- ===== src/Dataset/Batches/Start.antt =====
-- The state in which the two threads of `for_each_batch` start, and what every run keeps.
use forge_dsio.Prelude.{
  ℕ, zero, suc, ◌+◌, ◌≤◌, ◌≡◌, refl, false, List, [], ◌∷◌, ◌++◌, length, replicate, length-append,
  length-replicate, append_assoc, append-nil, sym, ◌∙◌, ap, arith,
}
use forge_dsio.File.{Bytes}
use forge_dsio.Dataset.{BatchOptions}
use forge_dsio.Dataset.Channel.{Channel, ChannelLaws, send-Sent}
use forge_dsio.Dataset.Batches.{
  Batch, Answer, Source, System, fed, feed, started, Reach, here, later,
}
use forge_dsio.Dataset.Batches.Buffers.{Buffers, Turn-Buffers}

abbrev pub empty_batch : ℕ → Batch
empty_batch bytes = record { bytes = replicate bytes 0; size = 0 }

module _ {C : Type 0} (channel : Channel Batch C) (laws : ChannelLaws channel) where
  open laws use {contents, capacity, closed}

  abbrev Fed : List Batch → C → C → Type 0
  Fed more c d = (contents d ≡ contents c ++ more) × (capacity d ≡ capacity c) × (closed d ≡ false)

  fed-Fed :
      (c : C) (b : Batch)
      → closed c ≡ false
      → suc (length (contents c)) ≤ capacity c
      → Fed (b ∷ []) c (fed channel c b)
  fed-Fed c b o room =
      let (d, q) = send-Sent channel laws b c o (omega (arith, room)) in
      let l = laws.on_sent b c d q in rw (fed, q) (l.0, l.1, l.2 ∙ o)

  feed-Fed :
      (n bytes : ℕ) (c : C)
      → closed c ≡ false
      → n + length (contents c) ≤ capacity c
      → Fed (replicate n (empty_batch bytes)) c (feed channel n bytes c)
  unfolding feed
  feed-Fed zero bytes c o room = (sym (append-nil (contents c)), refl, o)
  feed-Fed (suc n) bytes c o room =
      let b = empty_batch bytes in
      let one = fed-Fed c b o (omega (arith, room)) in
      let d = fed channel c b in
      let rest =
        feed-Fed n bytes d one.2 (ground (arith, room, one, length-append (contents c) (b ∷ []))) in
      (
        rest.0
            ∙ ap (λ xs. xs ++ replicate n b) one.0
            ∙ append_assoc (contents c) (b ∷ []) (replicate n b),
        rest.1 ∙ one.1,
        rest.2,
      )

  -- What is set up: an empty channel, and one with all the buffers.
  pub started-Fed :
      {S K : Type 0} (options : BatchOptions) (source : S) (seen : K)
      → let s = started channel options source seen in
        (contents s.ready ≡ [])
        × (contents s.free ≡ replicate (suc options.prefetch) (empty_batch options.batch_bytes))
        × (capacity s.free ≡ suc options.prefetch)
        × (closed s.free ≡ false)
  unfolding started
  started-Fed options source seen =
      let n = suc options.prefetch in
      let m = laws.made n in
      let f = feed-Fed n options.batch_bytes (channel.make n) m.2 (ground (arith, m)) in
      (
        (laws.made options.prefetch).0,
        f.0 ∙ ap (λ xs. xs ++ replicate n (empty_batch options.batch_bytes)) m.0,
        f.1 ∙ m.1,
        f.2,
      )

  pub started-Buffers :
      {S K : Type 0} (options : BatchOptions) (source : S) (seen : K)
      → Buffers channel laws options.prefetch (started channel options source seen)
  unfolding started
  started-Buffers options source seen =
      let f = started-Fed options source seen in
      ground (
        arith,
        f,
        laws.made options.prefetch,
        length-replicate (suc options.prefetch) (empty_batch options.batch_bytes),
      )

  module _ {S K : Type 0} {read : Source S} {callback : Bytes → K → Answer × K} where
    -- Every run from the start keeps the buffers and the states of the channels.
    pub Reach-Buffers :
        (options : BatchOptions) (source : S) (seen : K) {t : System S K C}
        → Reach channel read callback (started channel options source seen) t
        → Buffers channel laws options.prefetch t
    Reach-Buffers options source seen here = started-Buffers options source seen
    Reach-Buffers options source seen (later r m) =
        Turn-Buffers channel laws m (Reach-Buffers options source seen r)
