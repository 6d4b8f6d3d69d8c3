-- ===== src/Backend/Thread/Queue.antt =====
-- The queue of the thread backend: `submit`, and what the draining loop moves out.
use mathlib.Core.List.{map-append}
use forge_dsio.Prelude.{
  ℕ, zero, suc, ◌+◌, ◌≤◌, ◌<◌, ◌≡◌, ◌≢◌, refl, ap, ◌∙◌, inl, inr, min, Option, none, some, List, [],
  ◌∷◌, ◌++◌, map, length, Bool-cases, ltb, ltb→lt, ltb→le, ◌-◌, ◌⊎◌, take, drop, length-append,
  length-map, ok, err, arith,
}
use forge_dsio.Error.{thread_queue_full}
use forge_dsio.File.{Bytes}
use forge_dsio.Backend.{ReadRequest, Completion}
use forge_dsio.Backend.Thread.{Task, ThreadBackend, enqueue, submit, drain, drain_front}

abbrev pub requests_of : List Task → List ReadRequest
requests_of = map λ t. t.request

map-enqueue : (requests : List ReadRequest) → requests_of (map enqueue requests) ≡ requests
map-enqueue [] = refl
map-enqueue (r ∷ rs) = ap (◌∷◌ r) (map-enqueue rs)

-- Either the requests fit beside those in flight: then `submit` queues all of them behind the pending
-- ones and the reads in flight stay within the depth. Or they do not: then it refuses with a full
-- queue and changes nothing.
pub submit_lem :
    (requests : List ReadRequest) (b : ThreadBackend)
    → ((length b.pending + length requests ≤ b.depth)
        × ((submit requests b).0 ≡ ok tt)
        × (requests_of (submit requests b).1.pending ≡ requests_of b.pending ++ requests)
        × (length (submit requests b).1.pending ≤ (submit requests b).1.depth))
      ⊎ ((b.depth < length b.pending + length requests)
          × (submit requests b ≡ (err thread_queue_full, b)))
unfolding submit
submit_lem requests b = elim (Bool-cases (ltb b.depth (length b.pending + length requests))) [
  | inl full ↦ inr (ltb→lt _ _ full, rw full)
  | inr fits ↦
      let room = ltb→le b.depth (length b.pending + length requests) fits in
      inl (
        room,
        rw fits,
        rw fits (
            map-append (λ t. t.request) b.pending (map enqueue requests)
            ∙ ap (◌++◌ (requests_of b.pending)) (map-enqueue requests)),
        rw fits (
            omega (
              arith,
              room,
              length-append b.pending (map enqueue requests),
              length-map requests enqueue,
            )),
      )
]

-- A completion that answers a request: its token, and unless it carries an error, bytes of the file
-- from the request's offset on, not more than it asked for.
abbrev pub IsAnswer : Bytes → ReadRequest → Completion → Type 0
IsAnswer content request c =
    (c.token ≡ request.token)
    × (c.error ≡ 0
        → (c.landed ≡ take c.bytes (drop request.offset content)) × (c.bytes ≤ request.size))

-- One answer for each request, in this order.
abbrev pub Answers : Bytes → List ReadRequest → List Completion → Type 0
Answers content [] [] = Unit {0}
Answers content (r ∷ rs) (c ∷ cs) = IsAnswer content r c × Answers content rs cs
Answers content _ _ = ⊥

-- What workers have stored so far are answers.
abbrev pub Answered : Bytes → List Task → Type 0
Answered content [] = Unit {0}
Answered content (t ∷ ts) =
    ((c : Completion) → t.result ≡ some c → IsAnswer content t.request c) × Answered content ts

-- The oldest `n` entries are ready.
abbrev pub Ready : ℕ → List Task → Type 0
Ready zero ts = Unit {0}
Ready (suc n) [] = Unit {0}
Ready (suc n) (t ∷ ts) = (t.result ≢ none) × Ready n ts

Ready-tail : (n : ℕ) (t : Task) (ts : List Task) → Ready n (t ∷ ts) → Ready (n - 1) ts
Ready-tail zero t ts r = tt
Ready-tail (suc n) t ts r = let e : suc n - 1 ≡ n = omega arith in rw e r.1

not-Ready : (n : ℕ) (t : Task) (ts : List Task) → Ready n (t ∷ ts) → t.result ≡ none → n ≡ 0
not-Ready zero t ts r e = refl
not-Ready (suc n) t ts r e = absurd (r.0 e)

-- What `drain` moves out, and what it leaves.
pub record Drained (content : Bytes) (room least : ℕ) (before : List Task) (cs : List Completion)
    (after : List Task) : Type 0 where
  pub taken : List ReadRequest
  pub split : requests_of before ≡ taken ++ requests_of after
  pub answers : Answers content taken cs
  pub kept : Answered content after
  pub at_most : length cs ≤ room
  pub at_least : min least (length before) ≤ length cs

module _ (content : Bytes) where
  pub drain-Drained :
      (room least : ℕ) (ts : List Task)
      → least ≤ room
      → Answered content ts
      → Ready least ts
      → Drained content room least ts (drain room ts).0 (drain room ts).1
  unfolding drain
  drain-Drained zero least ts le a r = record {
    taken = [];
    split = refl;
    answers = tt;
    kept = a;
    at_most = omega arith;
    at_least = omega arith;
  }
  drain-Drained (suc room) least [] le a r = record {
    taken = [];
    split = refl;
    answers = tt;
    kept = tt;
    at_most = omega arith;
    at_least = omega arith;
  }
  drain-Drained (suc room) least (t ∷ ts) le a r =
      front t.result refl
        (drain-Drained room (least - 1) ts (omega arith) a.1 (Ready-tail least t ts r))
    where
      front :
          (result : Option Completion)
          → t.result ≡ result
          → Drained content room (least - 1) ts (drain room ts).0 (drain room ts).1
          → Drained content
              (suc room)
              least
              (t ∷ ts)
              (drain_front result (t ∷ ts) (drain room ts)).0
              (drain_front result (t ∷ ts) (drain room ts)).1
      front none e d = record {
        taken = [];
        split = refl;
        answers = tt;
        kept = a;
        at_most = omega arith;
        at_least = omega (arith, not-Ready least t ts r e);
      }
      front (some c) e d = record {
        taken = t.request ∷ d.taken;
        split = ap (◌∷◌ t.request) d.split;
        answers = (a.0 c e, d.answers);
        kept = d.kept;
        at_most = omega (arith, d.at_most);
        at_least = omega (arith, d.at_least);
      }
