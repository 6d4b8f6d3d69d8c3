-- ===== src/Reader/Whole.antt =====
-- A `DirectReader` read to its end: the window in blocks.
use mathlib.Core.Option
use forge_dsio.Prelude.{
  ℕ, zero, suc, ◌+◌, ◌-◌, ◌<◌, ◌≡◌, ◌≢◌, refl, sym, ap, ap₂, ◌∙◌, subst, ◌⊎◌, inl, inr, Option,
  none, some, List, [], ◌∷◌, ◌++◌, ok, err, Outcome, arith, min, length, take, drop, length-take,
  length-drop, drop-drop, drop-take, drop-length-take, take-append-drop, take-nil, drop-all, ltb,
  Bool-cases, ltb→lt, ltb→le, ◌>>=◌,
}
use forge_dsio.Error.{Error, FileOp}
use forge_dsio.Os.{Os}
use forge_dsio.Os.Contract.{ReadsFile}
use forge_dsio.File.{File, Bytes}
use forge_dsio.File.Reading.{Reported}
use forge_dsio.Reader.{DirectReader, Chunk, Read, next_chunk}
use forge_dsio.Reader.Laws.{window, IsReader, Step, next_chunk-Step}

-- The chunks are the bytes cut into blocks, the first at the offset; only the last may be shorter.
abbrev pub IsSplit : ℕ → ℕ → Bytes → List Chunk → Type 0
IsSplit block at bytes [] = bytes ≡ []
IsSplit block at bytes (c ∷ cs) =
    (bytes ≢ [])
    × (c.offset ≡ at)
    × (c.bytes ≡ take block bytes)
    × IsSplit block (at + block) (drop block bytes) cs

-- The bytes of all chunks.
abbrev pub all_bytes : List Chunk → Bytes
all_bytes [] = []
all_bytes (c ∷ cs) = c.bytes ++ all_bytes cs

drop-window :
    (content : Bytes) (from to m : ℕ)
    → window content (from + m) to ≡ drop m (window content from to)
drop-window content from to m =
    ap (λ (k : ℕ). take k (drop (from + m) content))
      (let e : to - (from + m) ≡ to - from - m = omega arith in e)
    ∙ ap (take (to - from - m)) (sym (drop-drop from m content))
    ∙ sym (drop-take m (to - from) (drop from content))

-- Behind a block of the window, or what is left of one, comes the rest of the window.
drop-block :
    (content : Bytes) (from to block : ℕ)
    → window content (from + length (take block (window content from to))) to
      ≡ drop block (window content from to)
drop-block content from to block =
    drop-window content from to (length (take block (window content from to)))
    ∙ drop-length-take block (window content from to)

-- With no bytes left there are no chunks, and the offset does not matter.
move-IsSplit :
    (block from to : ℕ) (bytes : Bytes) (cs : List Chunk)
    → (bytes ≡ []) ⊎ (from ≡ to)
    → IsSplit block from bytes cs
    → IsSplit block to bytes cs
move-IsSplit block from to bytes [] why h = h
move-IsSplit block from to bytes (c ∷ cs) (inl gone) h = absurd (h.0 gone)
move-IsSplit block from to bytes (c ∷ cs) (inr same) h =
    subst (λ (k : ℕ). IsSplit block k bytes (c ∷ cs)) same h

all_bytes-IsSplit :
    (block at : ℕ) (bytes : Bytes) (cs : List Chunk)
    → IsSplit block at bytes cs
    → all_bytes cs ≡ bytes
all_bytes-IsSplit block at bytes [] h = sym h
all_bytes-IsSplit block at bytes (c ∷ cs) h =
    rw (h.2, all_bytes-IsSplit block (at + block) (drop block bytes) cs h.3)
      (take-append-drop block bytes)

take-block-nil : (n : ℕ) (bytes : Bytes) → 0 < n → take n bytes ≡ [] → bytes ≡ []
take-block-nil zero bytes pos e = absurd (omega arith)
take-block-nil (suc n) [] pos e = refl
take-block-nil (suc n) (b ∷ bytes) pos e = cc

-- The caller's loop: chunks until an empty one, `turns` at most.
module _ {W : Type 0} (os : Os W) (rounds : ℕ) where
  abbrev pub with_chunk : Chunk → Outcome Error (List Chunk) → Outcome Error (List Chunk)
  with_chunk c (err e) = err e
  with_chunk c (ok cs) = ok (c ∷ cs)

  abbrev pub is_last :
      Chunk → Bytes → Option (Outcome Error (List Chunk)) → Option (Outcome Error (List Chunk))
  is_last c [] more = some (ok [])
  is_last c (_ ∷ _) more = Option.map (with_chunk c) more

  unfoldable pub then_more :
      (DirectReader → W → Option (Outcome Error (List Chunk)))
      → Read os
      → Option (Outcome Error (List Chunk))
  then_more next (err e, r, w) = some (err e)
  then_more next (ok c, r, w) = is_last c c.bytes (next r w)

  unfoldable pub read_all : ℕ → DirectReader → W → Option (Outcome Error (List Chunk))
  read_all zero r w = none
  read_all (suc turns) r w = next_chunk os rounds r w >>= then_more (λ r' w'. read_all turns r' w')

module _ {W : Type 0} (os : Os W) (fd : ℕ) (content : Bytes) (pending : W → ℕ)
    (kernel : ReadsFile os fd content pending) (file : File) (is_open : file.fd ≡ some fd)
    (rounds : ℕ) (block : ℕ) where
  abbrev pub Whole : DirectReader → Outcome Error (List Chunk) → Type 0
  Whole r (err e) = Reported os fd content pending kernel file is_open rounds FileOp.pread e
  Whole r (ok cs) =
      IsSplit block r.position (window content r.position r.end) cs
      × (all_bytes cs ≡ window content r.position r.end)

  abbrev IsR : DirectReader → Type 0
  IsR = IsReader os fd content pending kernel file is_open rounds block

  -- A chunk that is not empty, in front of what the later calls gave.
  with_chunk-Whole :
      (r r' : DirectReader) (c : Chunk) (res : Outcome Error (List Chunk))
      → window content r.position r.end ≢ []
      → c.offset ≡ r.position
      → c.bytes ≡ take block (window content r.position r.end)
      → r'.position ≡ r.position + length c.bytes
      → r'.end ≡ r.end
      → Whole r' res
      → Whole r (with_chunk os rounds c res)
  with_chunk-Whole r r' c (err e) some_left at bytes moved same_end whole = whole
  with_chunk-Whole r r' c (ok cs) some_left at bytes moved same_end whole =
      (split, all_bytes-IsSplit block r.position (window content r.position r.end) (c ∷ cs) split)
    where
      left : Bytes
      left = window content r.position r.end

      rest : window content r'.position r'.end ≡ drop block left
      rest =
          ap₂ (window content) (moved ∙ ap (λ (l : Bytes). r.position + length l) bytes) same_end
          ∙ drop-block content r.position r.end block

      why : (drop block left ≡ []) ⊎ (r'.position ≡ r.position + block)
      why = elim (Bool-cases (ltb (length left) block)) [
        | inl short ↦ inl (drop-all block left (omega (arith, ltb→lt (length left) block short)))
        | inr full ↦ inr (
            omega (
              arith,
              moved,
              ap length bytes,
              length-take block left,
              ltb→le (length left) block full,
            ))
      ]

      split : IsSplit block r.position left (c ∷ cs)
      split = (
        some_left,
        at,
        bytes,
        move-IsSplit block r'.position (r.position + block) (drop block left) cs why
            (subst (λ (l : Bytes). IsSplit block r'.position l cs) rest whole.0),
      )

  is_last-Whole :
      (r r' : DirectReader) (c : Chunk) (l : Bytes) (more : Option (Outcome Error (List Chunk)))
      → c.bytes ≡ l
      → 0 < block
      → c.offset ≡ r.position
      → c.bytes ≡ take block (window content r.position r.end)
      → r'.position ≡ r.position + length c.bytes
      → r'.end ≡ r.end
      → (r'.end - r'.position < r.end - r.position
          → (res : Outcome Error (List Chunk)) × (more ≡ some res) × Whole r' res)
      → (res : Outcome Error (List Chunk)) × (is_last os rounds c l more ≡ some res) × Whole r res
  is_last-Whole r r' c [] more same pos at bytes moved same_end ih = (ok [], refl, (gone, sym gone))
    where
      gone : window content r.position r.end ≡ []
      gone = take-block-nil block (window content r.position r.end) pos (sym bytes ∙ same)
  is_last-Whole r r' c (b ∷ l) more same pos at bytes moved same_end ih =
      let (res, returns, whole) = ih less in
      (
        with_chunk os rounds c res,
        ap (Option.map (with_chunk os rounds c)) returns,
        with_chunk-Whole r r' c res some_left at bytes moved same_end whole,
      )
    where
      long : length c.bytes ≡ min block (min (r.end - r.position) (length content - r.position))
      long = omega (
        arith,
        ap length bytes,
        length-take block (window content r.position r.end),
        length-take (r.end - r.position) (drop r.position content),
        length-drop r.position content,
      )

      less : r'.end - r'.position < r.end - r.position
      less = omega (arith, long, ap length same, moved, same_end)

      some_left : window content r.position r.end ≢ []
      some_left e =
          let empty : b ∷ l ≡ [] = sym same ∙ bytes ∙ ap (take block) e ∙ take-nil block in cc

  then_more-Whole :
      (r : DirectReader) (t : Read os)
      (next : DirectReader → W → Option (Outcome Error (List Chunk)))
      → Step os fd content pending kernel file is_open rounds block r t
      → ((r' : DirectReader)
          → IsR r'
          → r'.end - r'.position < r.end - r.position
          → (res : Outcome Error (List Chunk)) × (next r' t.2 ≡ some res) × Whole r' res)
      → IsR r
      → (res : Outcome Error (List Chunk)) × (then_more os rounds next t ≡ some res) × Whole r res
  unfolding then_more
  then_more-Whole r (err e, r', w) next step ih h = (err e, refl, step.0)
  then_more-Whole r (ok c, r', w) next (at, bytes, moved, same_end, h') ih h =
      is_last-Whole r r' c c.bytes (next r' w) refl h.block_pos at bytes moved same_end (ih r' h')

  -- With more turns than the window has bytes, the loop returns. On success the chunks are the window
  -- cut into blocks, from the position of the reader on, and their bytes are all of the window, as
  -- far as the file has them; it fails only with an `errno` of the system.
  pub read_all-Whole :
      (turns : ℕ) (r : DirectReader) (w : W)
      → IsR r
      → pending w < rounds
      → r.end - r.position < turns
      → (res : Outcome Error (List Chunk)) × (read_all os rounds turns r w ≡ some res) × Whole r res
  unfolding read_all
  read_all-Whole zero r w h more enough = absurd (omega arith)
  read_all-Whole (suc turns) r w h more enough =
      let (t, read, step, calm) =
        next_chunk-Step os fd content pending kernel file is_open rounds block r w h more in
      rw read (
        then_more-Whole r t _ step
          (λ r' h' less. read_all-Whole turns r' t.2 h' (omega (arith, calm)) (omega arith)) h)
