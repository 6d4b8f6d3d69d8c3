-- ===== src/Dataset/Content/Preparing.antt =====
-- `prepare_buffers`: the stream between two shards, and its buffers before the next.
use forge_dsio.Prelude.{
  ℕ, zero, suc, ◌<◌, ◌≡◌, inl, inr, refl, sym, ap, ◌∙◌, true, Bool-cases, List, [], ◌∷◌, length,
  replicate, length-replicate, Outcome, ok, err, arith,
}
use forge_dsio.Error.{Error, Text, stream_allocation}
use forge_dsio.File.{Bytes}
use forge_dsio.Reader.{Alloc}
use forge_dsio.Dataset.{ShardStream}
use forge_dsio.Dataset.Stream.{alloc_buffers, has_buffers, with_buffers, prepare_buffers}
use forge_dsio.Dataset.Fitting.{AllLong}
use forge_dsio.Dataset.Content.Slots.{IsFree}

-- A stream without an open shard.
pub record IsReady {B : Type 0} (s : ShardStream B) : Type 0 where
  pub idle : s.pending ≡ []
  pub lens : length s.free ≡ length s.buffers
  pub some_free : 0 < length s.buffers → (k : ℕ) × IsFree s.free k
  pub depth : 0 < s.read_depth
  pub long : AllLong s.segment s.buffers

-- The buffers are there, with a free slot.
pub record Prepared {B : Type 0} (s : ShardStream B) (block : ℕ) (t : ShardStream B) : Type 0 where
  pub of_block : t.block ≡ block
  pub lens : length t.free ≡ length t.buffers
  pub slot : (k : ℕ) × IsFree t.free k
  pub idle : t.pending ≡ []
  pub depth : 0 < t.read_depth
  pub carry : t.carry ≡ s.carry
  pub order : t.order ≡ s.order
  pub shards : t.shards ≡ s.shards
  pub next : t.next ≡ s.next
  pub read_depth : t.read_depth ≡ s.read_depth
  pub options : t.options ≡ s.options

abbrev HasLength : ℕ → Outcome Error (List Bytes) → Type 0
HasLength n (err e) = Unit
HasLength n (ok buffers) = length buffers ≡ n

alloc_buffers-HasLength :
    (alloc : Alloc) (n segment block : ℕ) → HasLength n (alloc_buffers alloc n segment block)
unfolding alloc_buffers
alloc_buffers-HasLength alloc zero segment block = refl
alloc_buffers-HasLength alloc (suc n) segment block =
    cases (alloc segment block) (alloc_buffers alloc n segment block)
      (alloc_buffers-HasLength alloc n segment block)
  where
    cases :
        (a : Outcome Text Bytes) (rest : Outcome Error (List Bytes))
        → HasLength n rest
        → HasLength (suc n) (elim a [
          | err e ↦ err (stream_allocation e)
          | ok buffer ↦ elim rest [ err e ↦ err e | ok buffers ↦ ok (buffer ∷ buffers) ]
        ])
    cases (err e) rest h = tt
    cases (ok buffer) (err e) h = tt
    cases (ok buffer) (ok buffers) h = ap suc h

first-IsFree : (n : ℕ) → 0 < n → IsFree (replicate n true) 0
first-IsFree zero h = absurd (omega (arith, h))
first-IsFree (suc n) h = refl

abbrev pub PreparedBy : {B : Type 0} → ShardStream B → ℕ → Outcome Error (ShardStream B) → Type 0
PreparedBy s block (err e) = Unit
PreparedBy s block (ok t) = Prepared s block t

module _ {B : Type 0} (alloc : Alloc) (s : ShardStream B) (h : IsReady s) where
  with_buffers-Prepared :
      (block segment : ℕ) (r : Outcome Error (List Bytes))
      → HasLength s.read_depth r
      → PreparedBy s block (with_buffers s block segment r)
  with_buffers-Prepared block segment (err e) l = tt
  with_buffers-Prepared block segment (ok buffers) l = record {
    of_block = refl;
    lens = length-replicate s.read_depth true ∙ sym l;
    slot = (0, first-IsFree s.read_depth h.depth);
    idle = h.idle;
    depth = h.depth;
    carry = refl;
    order = refl;
    shards = refl;
    next = refl;
    read_depth = refl;
    options = refl;
  }

  kept-Prepared : (block segment : ℕ) → has_buffers s block segment ≡ true → Prepared s block s
  kept-Prepared block segment q = record {
    of_block = ground (arith, q);
    lens = h.lens;
    slot = h.some_free (ground (arith, q));
    idle = h.idle;
    depth = h.depth;
    carry = refl;
    order = refl;
    shards = refl;
    next = refl;
    read_depth = refl;
    options = refl;
  }

  pub prepare_buffers-Prepared :
      (block segment : ℕ) → PreparedBy s block (prepare_buffers alloc s block segment)
  unfolding prepare_buffers
  prepare_buffers-Prepared block segment = elim (Bool-cases (has_buffers s block segment)) [
    | inl q ↦ rw (prepare_buffers, q) (kept-Prepared block segment q)
    | inr q ↦
        rw (prepare_buffers, q)
          (with_buffers-Prepared block segment (alloc_buffers alloc s.read_depth segment block)
            (alloc_buffers-HasLength alloc s.read_depth segment block))
  ]
