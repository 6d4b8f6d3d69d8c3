-- ===== src/Dataset/Batches/Order.antt =====
-- The order of the shards: a rearrangement of their indices.
use mathlib.Core.Option.{some-injective}
use forge_dsio.Prelude.{
  ℕ, zero, suc, ◌+◌, ◌<◌, ◌==◌, ◌≡◌, inl, inr, refl, ap, ◌∙◌, Bool-cases, some, List, length,
  get_elem?, arith,
}
use forge_dsio.Shard.{ShardSet}
use forge_dsio.Dataset.{BatchOptions}
use forge_dsio.Dataset.Batches.{iota, stream_order}

-- `fp::Rng::shuffle` rearranges the list.
pub record Rearranges (shuffle : ℕ → List ℕ → List ℕ) : Type 0 where
  pub long : (seed : ℕ) (xs : List ℕ) → length (shuffle seed xs) ≡ length xs
  pub from_list :
      (seed : ℕ) (xs : List ℕ) (k x : ℕ)
      → get_elem? (shuffle seed xs) k ≡ some x
      → (j : ℕ) × (get_elem? xs j ≡ some x)

pub length-iota : (a n : ℕ) → length (iota a n) ≡ n
unfolding iota
length-iota a zero = refl
length-iota a (suc n) = ap suc (length-iota (suc a) n)

pub iota-lt : (a n k x : ℕ) → get_elem? (iota a n) k ≡ some x → x < a + n
unfolding iota
iota-lt a zero k x e = absurd (ground (arith, e))
iota-lt a (suc n) zero x e = let same = some-injective _ _ e in omega (arith, same)
iota-lt a (suc n) (suc k) x e = omega (arith, iota-lt (suc a) n k x e)

module _ (shuffle : ℕ → List ℕ → List ℕ) (rearranges : Rearranges shuffle) (shards : ShardSet)
    (options : BatchOptions) where
  pub length-stream_order : length (stream_order shuffle shards options) ≡ length shards
  unfolding stream_order
  length-stream_order = elim (Bool-cases (options.seed == 0)) [
    | inl z ↦ rw z (length-iota 0 (length shards))
    | inr nz ↦
        rw nz
          (rearranges.long options.seed (iota 0 (length shards)) ∙ length-iota 0 (length shards))
  ]

  pub stream_order-lt :
      (k x : ℕ) → get_elem? (stream_order shuffle shards options) k ≡ some x → x < length shards
  unfolding stream_order
  stream_order-lt k x = elim (Bool-cases (options.seed == 0)) [
    | inl z ↦ rw z (λ e. omega (arith, iota-lt 0 (length shards) k x e))
    | inr nz ↦ rw nz (λ e.
        let (j, q) = rearranges.from_list options.seed (iota 0 (length shards)) k x e in
        omega (arith, iota-lt 0 (length shards) j x q))
  ]
