-- ===== src/Dataset/Requests.antt =====
-- `fill_pipeline`: the offsets and lengths of the requests that are planned.
use native.Mathlib.Nat.{mod_self, add-zero}
use forge_dsio.Prelude.{
  ℕ, zero, suc, ◌+◌, ◌-◌, ◌%◌, ◌≤◌, ◌<◌, ◌≡◌, refl, ◌∙◌, subst, ◌⊎◌, inl, inr, false, none,
  length-append, Option-cases, Bool-cases, ◌==◌, ltb, ◌&&◌, if◌then◌else◌, min, Bool, List, [], ◌∷◌,
  length, arith,
}
use forge_dsio.Prelude.Words.{u64_mod, add_u64_fits}
use forge_dsio.Backend.{ReadRequest}
use forge_dsio.Dataset.{ShardStream, take_free}
use forge_dsio.Dataset.Pipeline.{request_length, push_request, plan}

-- A length without its remainder is a multiple of the block.
whole_blocks : (n block : ℕ) → 0 < block → (n - n % block) % block ≡ 0
whole_blocks n block pos = grind arith

pub request_length_lem :
    (segment block remaining : ℕ)
    → 0 < block
    → (0 < request_length segment block remaining)
      × (request_length segment block remaining % block ≡ 0)
unfolding request_length
request_length_lem segment block remaining pos =
    whole_or_block (if ltb remaining segment then remaining else segment)
  where
    whole_or_block :
        (n : ℕ)
        → (0 < (if n - n % block == 0 then block else n - n % block))
          × ((if n - n % block == 0 then block else n - n % block) % block ≡ 0)
    whole_or_block n = elim (Bool-cases (n - n % block == 0)) [
      | inl nothing ↦ rw nothing (pos, mod_self block)
      | inr something ↦ rw something (ground arith, whole_blocks n block pos)
    ]

-- Requests in whole blocks, one behind the other, from an offset on up to another, or to the end of
-- the window; only the last may reach beyond it.
abbrev pub IsPlan : ℕ → ℕ → ℕ → ℕ → List ReadRequest → Type 0
IsPlan block window_end from to [] = from ≡ to
IsPlan block window_end from to (r ∷ requests) =
    (r.offset ≡ from)
    × (from < window_end)
    × (0 < r.size)
    × (r.size % block ≡ 0)
    × IsPlan block window_end (min (from + r.size) window_end) to requests

module _ {B : Type 0} where
  next_offset-push_request :
      (s : ShardStream B) (slot : ℕ) (taken : List Bool)
      → s.window_end < u64_mod
      → s.next_offset < s.window_end
      → (push_request s slot taken).1.next_offset
        ≡ min (s.next_offset + (push_request s slot taken).0.size) s.window_end
  unfolding push_request
  next_offset-push_request s slot taken fits below =
      add_u64_fits s.next_offset
        (min (request_length s.segment s.block (s.window_end - s.next_offset))
          (s.window_end - s.next_offset))
        (omega arith)
      ∙ omega arith

  push_request-IsPlan :
      (s : ShardStream B) (slot : ℕ) (taken : List Bool) (to : ℕ) (requests : List ReadRequest)
      → 0 < s.block
      → s.window_end < u64_mod
      → s.next_offset < s.window_end
      → IsPlan s.block s.window_end (push_request s slot taken).1.next_offset to requests
      → IsPlan s.block s.window_end s.next_offset to ((push_request s slot taken).0 ∷ requests)
  unfolding push_request
  push_request-IsPlan s slot taken to requests pos fits below rest =
      let (size_pos, whole) =
        request_length_lem s.segment s.block (s.window_end - s.next_offset) pos in
      (
        refl,
        below,
        size_pos,
        whole,
        subst (λ (k : ℕ). IsPlan s.block s.window_end k to requests)
            (next_offset-push_request s slot taken fits below) rest,
      )

  -- The planned requests are whole blocks, one behind the other from the next offset on, as long as it
  -- lies in the window; the next offset then stands behind the last, or at the end of the window.
  pub plan-IsPlan :
      (rounds count : ℕ) (s : ShardStream B)
      → 0 < s.block
      → s.window_end < u64_mod
      → IsPlan s.block s.window_end s.next_offset
          (plan rounds count s).1.next_offset
          (plan rounds count s).0
  unfolding plan push_request
  plan-IsPlan zero count s pos fits = refl
  plan-IsPlan (suc rounds) count s pos fits =
      elim (Bool-cases
        (ltb (length s.pending + count) s.read_depth && ltb s.next_offset s.window_end)) [
          | inr stop ↦ rw (plan, stop) refl
          | inl room ↦ elim (Option-cases (take_free s.free)) [
            | inl no_slot ↦ rw (plan, room, no_slot) refl
            | inr ((slot, taken), free) ↦
                rw (plan, room, free)
                  (push_request-IsPlan s slot taken
                    (plan rounds (suc count) (push_request s slot taken).1).1.next_offset
                    (plan rounds (suc count) (push_request s slot taken).1).0 pos fits
                    (ground arith)
                    (plan-IsPlan rounds (suc count) (push_request s slot taken).1 pos fits))
          ]
        ]

  length-push_request :
      (s : ShardStream B) (slot : ℕ) (taken : List Bool)
      → length (push_request s slot taken).1.pending ≡ length s.pending + 1
  unfolding push_request
  length-push_request s slot taken = length-append s.pending _

  -- Where the loop of `fill_pipeline` ends: after `count` requests in all, its condition fails or no slot
  -- is free.
  abbrev pub Stopped : ℕ → ShardStream B → Type 0
  Stopped count s =
      ((ltb (length s.pending + count) s.read_depth && ltb s.next_offset s.window_end) ≡ false)
      ⊎ (take_free s.free ≡ none)

  -- The bound on the rounds of a plan never ends it: with as many rounds as the depth has left, the plan
  -- stops where the loop does.
  pub plan-Stopped :
      (rounds count : ℕ) (s : ShardStream B)
      → s.read_depth ≤ rounds + length s.pending
      → Stopped (count + length (plan rounds count s).0) (plan rounds count s).1
  unfolding plan push_request
  plan-Stopped zero count s enough = inl (ground arith)
  plan-Stopped (suc rounds) count s enough =
      elim (Bool-cases
        (ltb (length s.pending + count) s.read_depth && ltb s.next_offset s.window_end)) [
          | inr stop ↦ rw (plan, stop) (rw (add-zero count) (inl stop))
          | inl room ↦ elim (Option-cases (take_free s.free)) [
            | inl no_slot ↦ rw (plan, room, no_slot) (inr no_slot)
            | inr ((slot, taken), free) ↦
                rw (plan, room, free)
                  (subst
                    (λ (k : ℕ). Stopped k (plan rounds (suc count) (push_request s slot taken).1).1)
                    (omega arith)
                    (plan-Stopped rounds (suc count) (push_request s slot taken).1
                      (omega (arith, enough, length-push_request s slot taken))))
          ]
        ]
