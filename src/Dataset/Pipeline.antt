-- ===== src/Dataset/Pipeline.antt =====
-- `fill_pipeline` and `await_front` of `ShardStream`: what is in flight.
use mathlib.Core.Option
use forge_dsio.Prelude.{
  ℕ, zero, suc, ◌+◌, ◌-◌, ◌%◌, ◌==◌, ◌!=◌, ltb, if◌then◌else◌, ◌&&◌, min, Bool, true, false, Option,
  none, some, List, [], ◌∷◌, ◌++◌, length, get_or, set, take, drop, Outcome, ok, err,
}
use forge_dsio.Prelude.Words.{add_u64}
use forge_dsio.Error.{Error, stream_reaped_nothing, stream_unknown_request, stream_read_failed}
use forge_dsio.File.{Bytes}
use forge_dsio.Backend.{ReadRequest, Completion, BackendOps}
use forge_dsio.Dataset.{Pending, ShardStream, take_free, undo}

-- The length of the next request: a segment, or what remains, in whole blocks, and at least one.
unfoldable pub request_length : ℕ → ℕ → ℕ → ℕ
request_length segment block remaining =
    let length = if ltb remaining segment then remaining else segment in
    if length - length % block == 0 then block else length - length % block

-- The first entry with this slot, as the completion makes it.
unfoldable pub complete : ℕ → Completion → List Pending → Option (List Pending)
complete window_end c [] = none
complete window_end c (p ∷ rest) =
    let later = Option.map (λ ps. p ∷ ps) (complete window_end c rest) in
    if p.slot == c.token
    then some (record p { bytes = min c.bytes (window_end - p.offset); done = true } ∷ rest)
    else later

-- The bytes of the read stand in the buffer of its slot, whose size stays. A request for more bytes than
-- the buffer has is undefined in the source; of such a read only the bytes in the buffer count here.
abbrev pub land : Completion → List Bytes → List Bytes
land c buffers =
    let buffer = get_or buffers c.token [] in
    set buffers c.token (take (length buffer) (c.landed ++ drop (length c.landed) buffer))

abbrev pub front_done : List Pending → Bool
front_done [] = true
front_done (p ∷ _) = p.done

module _ {B : Type 0} where
  -- One request more, into this slot.
  unfoldable pub push_request : ShardStream B → ℕ → List Bool → ReadRequest × ShardStream B
  push_request s slot free =
      let remaining = s.window_end - s.next_offset in
      let length = request_length s.segment s.block remaining in
      (
        record { offset = s.next_offset; size = length; token = slot },
        record s {
          free = free;
          pending =
              s.pending
              ++ record { offset = s.next_offset; slot = slot; bytes = 0; done = false } ∷ [];
          next_offset = add_u64 s.next_offset (min length remaining);
        },
      )

  abbrev pub add_request :
      List ReadRequest × ShardStream B → ReadRequest → List ReadRequest × ShardStream B
  add_request (requests, s) r = (r ∷ requests, s)

  -- The loop, after `count` requests: one for each free slot, up to the end of the window and as long as
  -- the entries (which are counted with these requests already) and the requests stay below the
  -- depth. The first argument bounds the rounds; each adds an entry, so the depth is enough.
  unfoldable pub plan : ℕ → ℕ → ShardStream B → List ReadRequest × ShardStream B
  plan zero count s = ([], s)
  plan (suc rounds) count s =
      elim (ltb (length s.pending + count) s.read_depth && ltb s.next_offset s.window_end) [
        | false ↦ ([], s)
        | true ↦ elim (take_free s.free) [
          | none ↦ ([], s)
          | some t ↦
              let (request, s') = push_request s t.0 t.1 in
              add_request (plan rounds (suc count) s') request
        ]
      ]

  -- After a failed submission everything that was planned is taken back.
  unfoldable pub take_back : ℕ → ℕ → ShardStream B → ShardStream B
  take_back start n s =
      let (free, pending) = undo n s.free s.pending in
      record s { free = free; pending = pending; next_offset = start }

  -- What the body of `await_front` makes of a completion.
  unfoldable pub settle_completion : Completion → ShardStream B → Outcome Error (ShardStream B)
  settle_completion c s = elim (complete s.window_end c s.pending) [
    | none ↦ err stream_unknown_request
    | some pending ↦
        if c.error != 0
        then err (stream_read_failed c.error)
        else ok (record s { pending = pending; buffers = land c s.buffers })
  ]

module _ {B W : Type 0} (ops : BackendOps B W) where
  abbrev pub Step : Type 0
  Step = Outcome Error (Unit {0}) × ShardStream B × W

  abbrev pub submitted : ℕ → ℕ → ShardStream B → Outcome Error (Unit {0}) × B × W → Step
  submitted start n s (ok _, b, w) = (ok tt, record s { backend = some b }, w)
  submitted start n s (err e, b, w) = (err e, take_back start n (record s { backend = some b }), w)

  abbrev pub submit_plan : ℕ → List ReadRequest × ShardStream B → B → W → Step
  submit_plan start ([], s) b w = (ok tt, s, w)
  submit_plan start (r ∷ requests, s) b w =
      submitted start (suc (length requests)) s (ops.submit (r ∷ requests) b w)

  -- `read` calls this only with an open shard, which has a backend; without one nothing is called.
  abbrev pub fill_with : ShardStream B → W → Option B → Step
  fill_with s w none = (ok tt, s, w)
  fill_with s w (some b) = submit_plan s.next_offset (plan s.read_depth 0 s) b w

  unfoldable pub fill_pipeline : ShardStream B → W → Step
  fill_pipeline s w = fill_with s w s.backend

  abbrev pub settled : Outcome Error (ShardStream B) → ShardStream B → W → Step
  settled (ok s') s w = (ok tt, s', w)
  settled (err e) s w = (err e, s, w)

  -- One round: a completion is reaped, and settled.
  abbrev pub reaped : ShardStream B → Outcome Error (List Completion) × B × W → Step
  reaped s (err e, b, w) = (err e, record s { backend = some b }, w)
  reaped s (ok [], b, w) = (err stream_reaped_nothing, record s { backend = some b }, w)
  reaped s (ok (c ∷ _), b, w) =
      settled (settle_completion c (record s { backend = some b })) (record s { backend = some b })
        w

  abbrev pub go_on : (ShardStream B → W → Option Step) → Step → Option Step
  go_on next (ok _, s, w) = next s w
  go_on next (err e, s, w) = some (err e, s, w)

  -- `none`: the rounds are used up, or there is no backend (a null pointer).
  unfoldable pub await_front : ℕ → ShardStream B → W → Option Step
  await_front zero s w = none
  await_front (suc rounds) s w = elim (front_done s.pending) [
    | true ↦ some (ok tt, s, w)
    | false ↦ elim s.backend [
      | none ↦ none
      | some b ↦ go_on (λ s' w'. await_front rounds s' w') (reaped s (ops.reap 1 1 b w))
    ]
  ]
