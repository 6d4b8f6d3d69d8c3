-- ===== src/Dataset/Content/Limits.antt =====
-- What bounds the turns of `read` of `ShardStream`, and what the pipeline keeps of it.
use forge_dsio.Prelude.{
  ℕ, ◌+◌, ◌*◌, ◌-◌, ◌≤◌, ◌<◌, ◌≡◌, refl, sym, ap, ◌∙◌, subst, true, if◌then◌else◌, some, List,
  length, get_elem?, arith,
}
use forge_dsio.File.{Bytes}
use forge_dsio.Backend.{ReadRequest}
use forge_dsio.Dataset.{Pending, ShardStream}
use forge_dsio.Dataset.Content.Flight.{Flight, empty, landed, flying}
use forge_dsio.Dataset.Content.State.{Keeps}

-- There are no more requests than entries.
pub length-Flight :
    {content : Bytes} {end : ℕ} {buffers : List Bytes} {at next : ℕ} {ps : List Pending}
    {rs : List ReadRequest}
    → Flight content end buffers at ps rs next
    → length rs ≤ length ps
length-Flight (empty e) = omega arith
length-Flight (landed n d o l i h f) = omega (arith, length-Flight f)
length-Flight (flying n d o l i ro rt q fit f) = omega (arith, length-Flight f)

-- The rounds are more than the depth, an open shard is one of the order, which has at most `most` and
-- names shards of the set.
pub record Limits {B : Type 0} (rounds most : ℕ) (s : ShardStream B) : Type 0 where
  pub deep : s.read_depth < rounds
  pub next_lt : s.is_open ≡ true → s.next < length s.order
  pub few : length s.order ≤ most
  pub in_set : (k i : ℕ) → get_elem? s.order k ≡ some i → i < length s.shards

-- What the turns of the loop use up: the bytes that the batch lacks, and two turns for each shard.
abbrev pub turns_left : {B : Type 0} → ℕ → ShardStream B → ℕ
turns_left lacking s = lacking + 2 * (length s.order - s.next) + (if s.is_open then 0 else 1)

module _ {B : Type 0} {rounds most : ℕ} where
  pub Limits-Keeps : (s t : ShardStream B) → Keeps s t → Limits rounds most s → Limits rounds most t
  Limits-Keeps s t k h = record {
    deep = subst (λ x. x < rounds) (sym k.read_depth) h.deep;
    next_lt = λ o.
        subst (λ x. x < length t.order) (sym k.next)
          (subst (λ x. s.next < length x) (sym k.order) (h.next_lt (sym k.is_open ∙ o)));
    few = subst (λ x. length x ≤ most) (sym k.order) h.few;
    in_set = λ i j q.
        subst (λ x. j < length x) (sym k.shards)
          (h.in_set i j (ap (λ x. get_elem? x i) (sym k.order) ∙ q));
  }

pub turns_left-Keeps :
    {B : Type 0} (lacking : ℕ) (s t : ShardStream B)
    → Keeps s t
    → turns_left lacking t ≡ turns_left lacking s
turns_left-Keeps lacking s t k = rw (k.order, k.next, k.is_open) refl
