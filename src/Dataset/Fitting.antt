-- ===== src/Dataset/Fitting.antt =====
-- The requests of `ShardStream` fit into the buffers of their slots, once a segment has a block.
use forge_dsio.Prelude.{
  ℕ, zero, suc, ◌+◌, ◌-◌, ◌*◌, ◌%◌, ◌≤◌, ◌<◌, ◌==◌, ◌&&◌, ◌≡◌, ◌⊎◌, inl, inr, refl, sym, ap, ◌∙◌,
  subst, ltb, if◌then◌else◌, min, max, Bool, true, false, Bool-cases, Option-cases, some, List, [],
  ◌∷◌, length, get_or, length-set, length-replicate, Outcome, ok, err, arith,
}
use forge_dsio.Error.{Error, Text, stream_allocation}
use forge_dsio.File.{Bytes}
use forge_dsio.Backend.{ReadRequest}
use forge_dsio.Reader.{Alloc}
use forge_dsio.Dataset.{BatchOptions, ShardStream, take_free}
use forge_dsio.Dataset.Pipeline.{request_length, push_request, plan}
use forge_dsio.Dataset.Stream.{
  segment_size, alloc_buffers, has_buffers, with_buffers, prepare_buffers,
}
use forge_dsio.Dataset.Content.Slots.{take_free_lem, lt_of_get}

-- All buffers have this size.
abbrev pub AllLong : ℕ → List Bytes → Type 0
AllLong n [] = Unit
AllLong n (b ∷ bs) = (length b ≡ n) × AllLong n bs

-- Each buffer is a segment, and each has a slot.
pub record Sized {B : Type 0} (s : ShardStream B) : Type 0 where
  pub long : AllLong s.segment s.buffers
  pub lens : length s.free ≡ length s.buffers

-- Each request fits into the buffer of its slot.
abbrev pub Fits : List Bytes → List ReadRequest → Type 0
Fits buffers [] = Unit
Fits buffers (r ∷ rs) =
    (r.token < length buffers) × (r.size ≤ length (get_or buffers r.token [])) × Fits buffers rs

-- The option asks for a block or more, or for nothing, and then a block is at most 256 KiB.
abbrev pub AsksBlock : BatchOptions → ℕ → Type 0
AsksBlock options block =
    (block ≤ options.segment_bytes) ⊎ ((options.segment_bytes ≡ 0) × (block ≤ 256 * 1024))

pub AsksBlock-le :
    (options : BatchOptions) (block most : ℕ)
    → block ≤ most
    → AsksBlock options most
    → AsksBlock options block
AsksBlock-le options block most le (inl asks) = inl (omega (arith, le, asks))
AsksBlock-le options block most le (inr (none_asked, small)) =
    inr (none_asked, omega (arith, le, small))

whole_block : (target block : ℕ) → 0 < block → block ≤ target → block ≤ target - target % block
whole_block target block pos le = grind arith

pub segment_size-ge :
    (options : BatchOptions) (block : ℕ)
    → 0 < block
    → AsksBlock options block
    → block ≤ segment_size options block
unfolding segment_size
segment_size-ge options block pos asks =
    whole_block
      (if options.segment_bytes == 0
        then min (max block options.batch_bytes) (256 * 1024)
        else options.segment_bytes)
      block pos (ground (arith, pos, asks))

pub request_length-le :
    (segment block remaining : ℕ)
    → 0 < block
    → block ≤ segment
    → request_length segment block remaining ≤ segment
unfolding request_length
request_length-le segment block remaining pos le = ground (arith, pos, le)

pub length-AllLong :
    (n : ℕ) (buffers : List Bytes) (k : ℕ)
    → AllLong n buffers
    → k < length buffers
    → length (get_or buffers k []) ≡ n
length-AllLong n [] k l h = absurd (omega (arith, h))
length-AllLong n (b ∷ bs) zero l h = l.0
length-AllLong n (b ∷ bs) (suc k) l h = length-AllLong n bs k l.1 (omega (arith, h))

module _ {B : Type 0} where
  push_request-Sized :
      (s : ShardStream B) (slot : ℕ) (taken : List Bool)
      → take_free s.free ≡ some (slot, taken)
      → Sized s
      → Sized (push_request s slot taken).1
  unfolding push_request
  push_request-Sized s slot taken e h =
      let t = take_free_lem s.free slot taken e in
      record { long = h.long; lens = ap length t.1 ∙ length-set s.free slot false ∙ h.lens }

  -- For a stream whose buffers are segments of at least a block, which is not 0: every request that is
  -- planned has a slot with a buffer, into which it fits, so no read goes past its buffer.
  pub plan-Fits :
      (rounds count : ℕ) (s : ShardStream B)
      → Sized s
      → 0 < s.block
      → s.block ≤ s.segment
      → Fits s.buffers (plan rounds count s).0 × Sized (plan rounds count s).1
  unfolding plan push_request
  plan-Fits zero count s h pos le = (tt, h)
  plan-Fits (suc rounds) count s h pos le =
      elim (Bool-cases
        (ltb (length s.pending + count) s.read_depth && ltb s.next_offset s.window_end)) [
          | inr stop ↦ rw (plan, stop) (tt, h)
          | inl room ↦ elim (Option-cases (take_free s.free)) [
            | inl no_slot ↦ rw (plan, room, no_slot) (tt, h)
            | inr ((slot, taken), free) ↦
                let below = lt_of_get s.free slot _ (take_free_lem s.free slot taken free).0 in
                let more =
                  plan-Fits rounds (suc count) (push_request s slot taken).1
                    (push_request-Sized s slot taken free h) pos le in
                rw (plan, room, free)
                  (
                    (
                      omega (arith, below, h.lens),
                      omega (
                        arith,
                        request_length-le s.segment s.block (s.window_end - s.next_offset) pos le,
                        length-AllLong s.segment s.buffers slot h.long
                            (omega (arith, below, h.lens)),
                      ),
                      more.0,
                    ),
                    more.1,
                  )
          ]
        ]

-- `fp::AlignedBuffer::alloc` gives as many bytes as were asked for.
abbrev pub Allocates : Alloc → Type 0
Allocates alloc = (size block : ℕ) (b : Bytes) → alloc size block ≡ ok b → length b ≡ size

abbrev AllAllocated : ℕ → ℕ → Outcome Error (List Bytes) → Type 0
AllAllocated n segment (err e) = Unit
AllAllocated n segment (ok buffers) = AllLong segment buffers × (length buffers ≡ n)

module _ (alloc : Alloc) (allocates : Allocates alloc) where
  alloc_buffers-AllAllocated :
      (n segment block : ℕ) → AllAllocated n segment (alloc_buffers alloc n segment block)
  unfolding alloc_buffers
  alloc_buffers-AllAllocated zero segment block = (tt, refl)
  alloc_buffers-AllAllocated (suc n) segment block =
      and_one (alloc segment block) refl (alloc_buffers alloc n segment block)
        (alloc_buffers-AllAllocated n segment block)
    where
      and_one :
          (a : Outcome Text Bytes)
          → alloc segment block ≡ a
          → (rest : Outcome Error (List Bytes)) → AllAllocated n segment rest
          → AllAllocated (suc n) segment (elim a [
            | err e ↦ err (stream_allocation e)
            | ok buffer ↦ elim rest [ err e ↦ err e | ok buffers ↦ ok (buffer ∷ buffers) ]
          ])
      and_one (err e) q rest h = tt
      and_one (ok buffer) q (err e) h = tt
      and_one (ok buffer) q (ok buffers) h = ((allocates segment block buffer q, h.0), ap suc h.1)

  module _ {B : Type 0} where
    -- After `prepare_buffers` the buffers are segments, of this many bytes, for blocks of this size.
    abbrev pub PreparedFor : ℕ → ℕ → Outcome Error (ShardStream B) → Type 0
    PreparedFor block segment (err e) = Unit
    PreparedFor block segment (ok t) = Sized t × (t.block ≡ block) × (t.segment ≡ segment)

    with_buffers-PreparedFor :
        (s : ShardStream B) (block segment : ℕ) (r : Outcome Error (List Bytes))
        → AllAllocated s.read_depth segment r
        → PreparedFor block segment (with_buffers s block segment r)
    with_buffers-PreparedFor s block segment (err e) h = tt
    with_buffers-PreparedFor s block segment (ok buffers) h =
        (record { long = h.0; lens = length-replicate s.read_depth true ∙ sym h.1 }, refl, refl)

    pub prepare_buffers-PreparedFor :
        (s : ShardStream B) (block segment : ℕ)
        → Sized s
        → PreparedFor block segment (prepare_buffers alloc s block segment)
    unfolding prepare_buffers
    prepare_buffers-PreparedFor s block segment h =
        elim (Bool-cases (has_buffers s block segment)) [
          | inl kept ↦ rw (prepare_buffers, kept) (h, ground (arith, kept), ground (arith, kept))
          | inr made ↦
              rw (prepare_buffers, made)
                (with_buffers-PreparedFor s block segment
                  (alloc_buffers alloc s.read_depth segment block)
                  (alloc_buffers-AllAllocated s.read_depth segment block))
        ]

    -- The buffers that `open_shard` prepares, for an allocation that gives what it is asked for and
    -- options that ask for a segment of a block or more (or for none, with blocks of at most 256 KiB):
    -- wherever the window of the shard stands, every request that `fill_pipeline` then plans has a slot
    -- with a buffer, into which it fits, so no read goes past its buffer.
    pub prepare_buffers-Fits :
        (s t : ShardStream B) (options : BatchOptions) (block next_offset window_end : ℕ)
        → Sized s
        → 0 < block
        → AsksBlock options block
        → prepare_buffers alloc s block (segment_size options block) ≡ ok t
        → (rounds count : ℕ)
        → Fits t.buffers
            (plan rounds count (record t { next_offset = next_offset; window_end = window_end })).0
    prepare_buffers-Fits s t options block next_offset window_end h pos asks q rounds count =
        let (sized, of_block, of_segment) =
          subst (PreparedFor block (segment_size options block)) q
            (prepare_buffers-PreparedFor s block (segment_size options block) h) in
        (plan-Fits rounds count (record t { next_offset = next_offset; window_end = window_end })
          (record { long = sized.long; lens = sized.lens }) (omega (arith, of_block, pos))
          (omega (arith, of_block, of_segment, segment_size-ge options block pos asks))).0
