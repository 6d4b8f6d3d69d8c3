-- ===== src/Dataset/Content/Consuming.antt =====
-- `read` of `ShardStream`: where the stream stands, and what the front entry gives to the batch.
use mathlib.Core.Option.{some-injective}
use forge_dsio.Prelude.{
  ℕ, zero, suc, ◌+◌, ◌-◌, ◌≤◌, ◌<◌, ◌≡◌, inl, inr, refl, sym, ap, ap₂, ◌∙◌, subst, true, false, ltb,
  if◌then◌else◌, some, Bool-cases, List, [], ◌∷◌, ◌++◌, length, take, drop, get_or, get_elem?, min,
  append_assoc, length-take, length-set, take-append-drop, take-take, drop-take, drop-drop,
  drop-all, drop-nil, nil_of_length, arith,
}
use forge_dsio.Os.{Os}
use forge_dsio.File.{Bytes}
use forge_dsio.Backend.{ReadRequest, BackendOps}
use forge_dsio.Reader.{Alloc}
use forge_dsio.Dataset.{Pending, ShardStream, release}
use forge_dsio.Dataset.Stream.{Opener, close_shard, consume}
use forge_dsio.Dataset.Content.{Serves, Names, windows}
use forge_dsio.Dataset.Content.Slots.{IsFree, Slots, Slots-release}
use forge_dsio.Dataset.Content.Flight.{Flight, landed, flying, part}
use forge_dsio.Dataset.Content.Preparing.{IsReady}
use forge_dsio.Dataset.Fitting.{AsksBlock}
use forge_dsio.Dataset.Content.State.{Flies}

-- What a buffer gives to the batch, and what is carried, are the bytes of its entry.
module _ (buffer bytes : Bytes) (taken count : ℕ) (q : count ≡ length bytes)
    (h : take count buffer ≡ bytes) (le : taken ≤ count) where
  given : take taken buffer ≡ take taken bytes
  given =
      ap (λ k. take k buffer) (omega (arith, le))
      ∙ sym (take-take taken count buffer)
      ∙ ap (take taken) h

  carried : take (count - taken) (drop taken buffer) ≡ drop taken bytes
  carried = sym (drop-take taken count buffer) ∙ ap (drop taken) h

  left_over :
      (if ltb 0 (count - taken) then take (count - taken) (drop taken buffer) else [])
      ≡ drop taken bytes
  left_over = elim (Bool-cases (ltb 0 (count - taken))) [
    | inl more ↦ rw more carried
    | inr all ↦ rw all (sym (drop-all taken bytes (ground (arith, q, all))))
  ]

nil-of-take : (n : ℕ) (xs : Bytes) → 0 < n → take n xs ≡ [] → xs ≡ []
nil-of-take n [] h e = refl
nil-of-take zero (x ∷ xs) h e = absurd (omega (arith, h))
nil-of-take (suc n) (x ∷ xs) h e = absurd (ground (arith, e))

pub drop-get_elem? :
    (xs : List ℕ) (k a : ℕ) → get_elem? xs k ≡ some a → drop k xs ≡ a ∷ drop (suc k) xs
drop-get_elem? [] k a e = absurd (ground (arith, e))
drop-get_elem? (x ∷ xs) zero a e = ap (λ y. y ∷ xs) (some-injective _ _ e)
drop-get_elem? (x ∷ xs) (suc k) a e = drop-get_elem? xs k a e

module _ {B W : Type 0} (os : Os W) (alloc : Alloc) (opener : Opener B W) (ops : BackendOps B W)
    (rounds : ℕ) (serves : Serves ops) (names : Names os opener serves) where
  open names use {files, most}

  -- The windows of the shards from this place in the order on.
  abbrev pub from_shard : ShardStream B → ℕ → Bytes
  from_shard s k = windows files s.shards (drop k s.order)

  -- The bytes that the stream has still to give: what is carried, the rest of the open window, and the
  -- windows of the shards behind it.
  pub data Stands (s : ShardStream B) (rest : Bytes) : Type 0 where
    between :
        IsReady s
        → AsksBlock s.options most
        → s.is_open ≡ false
        → rest ≡ s.carry ++ from_shard s s.next
        → Stands s rest
    within :
        (content : Bytes) (at : ℕ)
        → Flies serves content at s
        → AsksBlock s.options most
        → s.is_open ≡ true
        → rest ≡ s.carry ++ (drop at (take s.window_end content) ++ from_shard s (suc s.next))
        → Stands s rest

  -- A shard whose window has no more bytes is closed.
  pub close_shard-Stands :
      (content : Bytes) (at : ℕ) (s : ShardStream B) (w : W) (rest : Bytes)
      → Flies serves content at s
      → AsksBlock s.options most
      → (k : ℕ) × IsFree s.free k
      → drop at (take s.window_end content) ≡ []
      → rest ≡ s.carry ++ (drop at (take s.window_end content) ++ from_shard s (suc s.next))
      → Stands (close_shard os alloc opener s w).0 rest
  unfolding close_shard
  close_shard-Stands content at s w rest h asks slot e q =
      between
        (record {
          idle = refl;
          lens = h.entries.lens;
          some_free = λ _. slot;
          depth = h.entries.depth;
          long = h.entries.long;
        })
        asks refl (q ∙ ap (λ x. s.carry ++ (x ++ from_shard s (suc s.next))) e)

  -- What consuming the front entry leaves, for a batch that lacks `left` bytes.
  pub record Consumed (left : ℕ) (p : Pending) (bytes : Bytes) (t : ShardStream B) (rest : Bytes)
      : Type 0 where
    pub content : Bytes
    pub at : ℕ
    pub flies : Flies serves content at t
    pub is_open : t.is_open ≡ true
    pub slot : (k : ℕ) × IsFree t.free k
    pub carry_nil : p.bytes ≤ left → t.carry ≡ []
    pub length_is : length bytes ≡ min left p.bytes
    pub ended : p.bytes ≡ 0 → drop at (take t.window_end content) ≡ []
    pub rest_is :
        rest
        ≡ bytes ++ (t.carry ++ (drop at (take t.window_end content) ++ from_shard t (suc t.next)))

  pub consume-Consumed :
      (left at : ℕ) (content : Bytes) (p : Pending) (ps : List Pending) (rs : List ReadRequest)
      (s : ShardStream B) (rest : Bytes) (h : Flies serves content at s)
      → Flight content s.window_end s.buffers at (p ∷ ps) rs s.next_offset
      → rs ≡ serves.flying h.b
      → Slots s.free (p ∷ ps)
      → length (p ∷ ps) ≤ s.read_depth
      → s.is_open ≡ true
      → p.done ≡ true
      → s.carry ≡ []
      → rest ≡ s.carry ++ (drop at (take s.window_end content) ++ from_shard s (suc s.next))
      → Consumed left p
          (consume os alloc opener left p ps s).0
          (consume os alloc opener left p ps s).1
          rest
  unfolding consume release
  consume-Consumed left at content p ps rs s rest h (flying n d o l i ro rt q fit f) same slots
        count_le is_open front c e =
      absurd (ground (arith, d, front))
  consume-Consumed left at content p ps rs s rest h (landed n d o l i (count, holds) f) same slots
        count_le is_open front c e =
      record {
        content = content;
        at = at + n;
        flies = record {
          b = h.b;
          is_backend = h.is_backend;
          of_file = h.of_file;
          entries = record {
            flight =
                subst (λ x. Flight content s.window_end s.buffers (at + n) ps x s.next_offset) same
                  f;
            slots = freed.0;
            lens = length-set s.free p.slot true ∙ h.entries.lens;
            some_free = λ _. (p.slot, freed.1);
            depth = h.entries.depth;
            count = fewer;
            block_pos = h.entries.block_pos;
            long = h.entries.long;
            room = h.entries.room;
            fits = h.entries.fits;
          };
        };
        is_open = is_open;
        slot = (p.slot, freed.1);
        carry_nil = λ fit. over ∙ drop-all taken bytes (omega (arith, count, fit));
        length_is = omega (arith, ap length gives, length-take taken bytes, count);
        ended = λ none_left. no_more (omega (arith, count, none_left));
        rest_is = e ∙ ap (λ x. x ++ (window_bytes ++ behind)) c ∙ splits;
      }
    where
      fewer : length ps ≤ s.read_depth
      fewer = omega (arith, count_le)

      window_bytes : Bytes
      window_bytes = drop at (take s.window_end content)

      bytes : Bytes
      bytes = part content s.window_end at n

      buffer : Bytes
      buffer = get_or s.buffers p.slot []

      taken : ℕ
      taken = min left p.bytes

      freed : Slots (release p.slot s.free) ps × IsFree (release p.slot s.free) p.slot
      freed = Slots-release s.free p ps slots

      over :
          (if ltb 0 (p.bytes - taken) then take (p.bytes - taken) (drop taken buffer) else s.carry)
          ≡ drop taken bytes
      over =
          ap
            (λ x. if ltb 0 (p.bytes - taken) then take (p.bytes - taken) (drop taken buffer) else x)
            c
          ∙ left_over buffer bytes taken p.bytes count holds (omega arith)

      gives : take taken buffer ≡ take taken bytes
      gives = given buffer bytes taken p.bytes count holds (omega arith)

      behind : Bytes
      behind = from_shard s (suc s.next)

      further : drop (at + n) (take s.window_end content) ≡ drop n window_bytes
      further = sym (drop-drop at n (take s.window_end content))

      no_more : length bytes ≡ 0 → drop (at + n) (take s.window_end content) ≡ []
      no_more z =
          further ∙ ap (drop n) (nil-of-take n window_bytes l (nil_of_length bytes z)) ∙ drop-nil n

      splits :
          window_bytes ++ behind
          ≡ take taken buffer
            ++ ((if ltb 0 (p.bytes - taken)
                  then take (p.bytes - taken) (drop taken buffer)
                  else s.carry)
                ++ (drop (at + n) (take s.window_end content) ++ behind))
      splits =
          ap (λ x. x ++ behind) (sym (take-append-drop n window_bytes))
          ∙ append_assoc bytes (drop n window_bytes) behind
          ∙ ap (λ x. x ++ (drop n window_bytes ++ behind)) (sym (take-append-drop taken bytes))
          ∙ append_assoc (take taken bytes) (drop taken bytes) (drop n window_bytes ++ behind)
          ∙ ap₂ (λ x y. x ++ y) (sym gives)
              (ap₂ (λ x y. x ++ (y ++ behind)) (sym over) (sym further))
