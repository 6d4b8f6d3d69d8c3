-- ===== src/Dataset/Content/Ending.antt =====
-- `read` of `ShardStream` returns: every turn of its loop moves bytes, opens a shard or closes one.
use forge_dsio.Prelude.{
  ℕ, zero, suc, ◌+◌, ◌*◌, ◌-◌, ◌≤◌, ◌<◌, ◌==◌, ◌≡◌, ◌≢◌, refl, sym, ap, ◌∙◌, subst, Bool, true,
  false, ltb, ltb→lt, if◌then◌else◌, Option, none, some, List, [], ◌∷◌, ◌++◌, length, take, drop,
  min, get_elem?, length-append, length-take, drop-all, ok, err, ◌>>=◌, arith,
}
use forge_dsio.Os.{Os}
use forge_dsio.File.{Bytes}
use forge_dsio.Backend.{BackendOps}
use forge_dsio.Reader.{Alloc}
use forge_dsio.Dataset.{Pending, ShardStream, flush_carry}
use forge_dsio.Dataset.Pipeline.{Step, front_done, fill_pipeline, await_front}
use forge_dsio.Dataset.Stream.{
  Opener, After, open_shard, close_shard, consume, take_front, awaited, filled, opened, read_from,
  read,
}
use forge_dsio.Dataset.Content.{Serves, Names}
use forge_dsio.Dataset.Content.Available.{get_of_lt, open_shard-Returns}
use forge_dsio.Dataset.Content.Giving.{flushed, Gives, read-Gives}
use forge_dsio.Dataset.Content.Slots.{lt_of_get}
use forge_dsio.Dataset.Content.Flight.{window-nil}
use forge_dsio.Dataset.Content.Opening.{Started, NextOpened, open_shard-NextOpened}
use forge_dsio.Dataset.Fitting.{Allocates, AsksBlock}
use forge_dsio.Dataset.Content.State.{Flies, Keeps}
use forge_dsio.Dataset.Content.Filling.{FillFlies, fill_pipeline-Flies}
use forge_dsio.Dataset.Content.Awaiting.{AwaitFlies, await_front-Flies}
use forge_dsio.Dataset.Content.Returning.{await_front-Returns}
use forge_dsio.Dataset.Content.Consuming.{
  Stands, between, within, from_shard, close_shard-Stands, Consumed, consume-Consumed,
}
use forge_dsio.Dataset.Content.Limits.{
  length-Flight, Limits, turns_left, turns_left-Keeps, Limits-Keeps,
}

module _ {B W : Type 0} (os : Os W) (alloc : Alloc) (opener : Opener B W) (ops : BackendOps B W)
    (rounds most : ℕ) (serves : Serves ops) (names : Names os opener serves) where
  abbrev Read : Type 0
  Read = Option (After Bytes B W)

  abbrev Opened : Type 0
  Opened = Option (After (Unit {0}) B W)

  -- There is a result, and after a success the limits hold.
  abbrev pub Returns : Read → Type 0
  Returns none = ⊥
  Returns (some (err e, t, w)) = Unit
  Returns (some (ok got, t, w)) = Limits rounds most t

  if-Returns :
      (b : Bool) (x y : Read)
      → (b ≡ true → Returns x)
      → (b ≡ false → Returns y)
      → Returns (if b then x else y)
  if-Returns true x y p q = p refl
  if-Returns false x y p q = q refl

  module _ (room turns : ℕ) (next : Bytes → ShardStream B → W → Read)
      (ih : (out : Bytes) (s : ShardStream B) (w : W) (rest : Bytes)
        → Stands os alloc opener ops rounds serves names s rest
        → Limits rounds most s
        → (length out < room → s.carry ≡ [])
        → length out ≤ room
        → turns_left (room - length out) s < turns
        → Returns (next out s w))
      (out : Bytes) (h : length out < room) where
    abbrev InWindow : ShardStream B → Bytes → ℕ → Type 0
    InWindow s content at =
        Flies serves content at s
        × (s.is_open ≡ true)
        × (s.carry ≡ [])
        × AsksBlock s.options names.most
        × Limits rounds most s
        × (turns_left (room - length out) s < suc turns)

    Keeps-InWindow :
        (s t : ShardStream B) (content : Bytes) (at : ℕ)
        → Keeps s t
        → InWindow s content at
        → Flies serves content at t
        → InWindow t content at
    Keeps-InWindow s t content at k (f, o, c, asks, l, e) g = (
      g,
      k.is_open ∙ o,
      k.carry ∙ c,
      subst (λ x. AsksBlock x names.most) (sym k.options) asks,
      Limits-Keeps s t k l,
      subst (λ x. x < suc turns) (sym (turns_left-Keeps (room - length out) s t k)) e,
    )

    -- The front entry is done: it moves bytes, or its shard is closed.
    front-Returns :
        (s : ShardStream B) (w : W) (content : Bytes) (at : ℕ) (ps : List Pending)
        → InWindow (record s { pending = ps }) content at
        → front_done ps ≡ true
        → 0 < length ps
        → Returns
            (take_front os alloc opener ops rounds next room out (record s { pending = ps }) w)
    unfolding take_front close_shard consume
    front-Returns s w content at [] g d pos = absurd (omega (arith, pos))
    front-Returns s w content at (p ∷ ps) (f, o, c, asks, l, e) d pos =
        if-Returns (ltb left p.bytes) _ _
          (λ _. record { deep = l.deep; next_lt = l.next_lt; few = l.few; in_set = l.in_set })
          (λ fit.
            if-Returns (p.bytes == 0) _ _
              (λ z.
                ih _ _ _ _
                  (close_shard-Stands os alloc opener ops rounds serves names c'.content c'.at t w _
                    c'.flies asks c'.slot (c'.ended (ground (arith, z))) refl)
                  (record {
                    deep = l.deep;
                    next_lt = λ q. absurd (ground (arith, q));
                    few = l.few;
                    in_set = l.in_set;
                  })
                  (λ _. c'.carry_nil (ground (arith, fit))) longer
                  (ground (arith, e, o, h, l.next_lt o, length-append out bytes)))
              (λ nz.
                ih _ _ _ _ (within c'.content c'.at c'.flies asks c'.is_open refl)
                  (record { deep = l.deep; next_lt = l.next_lt; few = l.few; in_set = l.in_set })
                  (λ _. c'.carry_nil (ground (arith, fit))) longer
                  (ground (arith, e, h, c'.length_is, nz, length-append out bytes))))
      where
        left : ℕ
        left = room - length out

        s' : ShardStream B
        s' = record s { pending = p ∷ ps }

        bytes : Bytes
        bytes = (consume os alloc opener left p ps s').0

        t : ShardStream B
        t = (consume os alloc opener left p ps s').1

        c' : Consumed os alloc opener ops rounds serves names left p bytes t (
            s'.carry
            ++ (drop at (take s'.window_end content)
                ++ from_shard os alloc opener ops rounds serves names s' (suc s'.next)))
        c' =
            consume-Consumed os alloc opener ops rounds serves names left at content p ps
              (serves.flying f.b) s' _ f f.entries.flight refl f.entries.slots f.entries.count o d c
              refl

        longer : length (out ++ bytes) ≤ room
        longer = omega (arith, h, c'.length_is, length-append out bytes)

    awaited-Returns :
        (s : ShardStream B) (content : Bytes) (at : ℕ)
        → InWindow s content at
        → 0 < length s.pending
        → (r : Option (Step ops)) → AwaitFlies ops serves content at s r
        → r ≢ none
        → Returns (r >>= awaited os alloc opener ops rounds next room out)
    awaited-Returns s content at g pos none a n = absurd (n refl)
    awaited-Returns s content at g pos (some (err e, t, w)) a n = tt
    awaited-Returns s content at g pos (some (ok _, t, w)) (k, f, d, same) n =
        front-Returns t w content at t.pending (Keeps-InWindow s t content at k g f) d
          (omega (arith, pos, same))

    pending-Returns :
        (s : ShardStream B) (w : W) (content : Bytes) (at : ℕ) (ps : List Pending)
        → InWindow (record s { pending = ps }) content at
        → (ps ≡ [] → s.window_end ≤ s.next_offset)
        → Returns
            (filled os alloc opener ops rounds next room out (ok tt, record s { pending = ps }, w))
    unfolding close_shard
    pending-Returns s w content at [] (f, o, c, asks, l, e) ends =
        ih _ _ _ _
          (close_shard-Stands os alloc opener ops rounds serves names content at
            (record s { pending = [] }) w _ f asks (f.entries.some_free refl)
            (window-nil content s.window_end at s.next_offset s.buffers (serves.flying f.b)
              f.entries.flight (ends refl))
            refl)
          (record {
            deep = l.deep;
            next_lt = λ q. absurd (ground (arith, q));
            few = l.few;
            in_set = l.in_set;
          })
          (λ _. c) (omega (arith, h)) (ground (arith, e, o, l.next_lt o))
    pending-Returns s w content at (p ∷ ps) g ends =
        let s' : ShardStream B = record s { pending = p ∷ ps } in
        awaited-Returns s' content at g (omega arith) (await_front ops rounds s' w)
          (await_front-Flies ops serves content at rounds s' w g.0)
          (await_front-Returns ops serves rounds s' w g.0.b g.0.is_backend
            (omega (arith, length-Flight g.0.entries.flight, g.0.entries.count, g.4.deep)))

    filled-Returns :
        (s : ShardStream B) (content : Bytes) (at : ℕ)
        → InWindow s content at
        → (r : Step ops) → FillFlies ops serves content at s r
        → Returns (filled os alloc opener ops rounds next room out r)
    filled-Returns s content at g (err e, t, w) a = tt
    filled-Returns s content at g (ok _, t, w) (k, f, ends) =
        pending-Returns t w content at t.pending (Keeps-InWindow s t content at k g f) ends

    fill-Returns :
        (s : ShardStream B) (w : W) (content : Bytes) (at : ℕ)
        → InWindow s content at
        → Returns (filled os alloc opener ops rounds next room out (fill_pipeline ops s w))
    fill-Returns s w content at g =
        filled-Returns s content at g (fill_pipeline ops s w)
          (fill_pipeline-Flies ops serves content at s w g.0)

    opened-Returns :
        (allocates : Allocates alloc) (s : ShardStream B)
        → s.carry ≡ []
        → AsksBlock s.options names.most
        → s.is_open ≡ false
        → Limits rounds most s
        → turns_left (room - length out) s < suc turns
        → (r : Opened) → NextOpened os opener serves names alloc allocates s r
        → r ≢ none
        → Returns (r >>= opened os alloc opener ops rounds next room out)
    opened-Returns allocates s c asks o l e none a n = absurd (n refl)
    opened-Returns allocates s c asks o l e (some (err x, t, w)) a n = tt
    opened-Returns allocates s c asks o l e (some (ok _, t, w)) (i, shard, at_next, at_i, g) n =
        fill-Returns t w (names.files shard.path) shard.offset (
          g.flies,
          g.is_open,
          g.carry ∙ c,
          subst (λ x. AsksBlock x names.most) (sym g.options) asks,
          record {
            deep = subst (λ x. x < rounds) (sym g.read_depth) l.deep;
            next_lt = λ _.
                subst (λ x. x < length t.order) (sym g.next)
                  (subst (λ x. s.next < length x) (sym g.order)
                    (lt_of_get s.order s.next i at_next));
            few = subst (λ x. length x ≤ most) (sym g.order) l.few;
            in_set = λ k j q.
                subst (λ x. j < length x) (sym g.shards)
                  (l.in_set k j (ap (λ x. get_elem? x k) (sym g.order) ∙ q));
          },
          subst (λ x. x < suc turns) (sym (opens_one s t g)) (ground (arith, e, o)),
        )
      where
        opens_one :
            (s t : ShardStream B)
            → Started os opener serves names s shard t
            → turns_left (room - length out) t
              ≡ room - length out + 2 * (length s.order - s.next) + 0
        opens_one s t g = rw (g.order, g.next, g.is_open) refl

    state-Returns :
        (s : ShardStream B) (w : W) (rest : Bytes) (allocates : Allocates alloc)
        → Stands os alloc opener ops rounds serves names s rest
        → s.carry ≡ []
        → Limits rounds most s
        → turns_left (room - length out) s < suc turns
        → Returns (
            if s.is_open
            then filled os alloc opener ops rounds next room out (fill_pipeline ops s w)
            else if ltb s.next (length s.order)
            then open_shard os alloc opener s w >>= opened os alloc opener ops rounds next room out
            else some (ok out, s, w))
    state-Returns s w rest allocates (within content at f asks o e) c l m =
        if-Returns s.is_open _ _ (λ _. fill-Returns s w content at (f, o, c, asks, l, m))
          (λ n. absurd (ground (arith, o, n)))
    state-Returns s w rest allocates (between r asks o e) c l m =
        if-Returns s.is_open _ _ (λ n. absurd (ground (arith, o, n)))
          (λ _.
            if-Returns (ltb s.next (length s.order)) _ _
              (λ more.
                let (i, q) = get_of_lt s.order s.next (ltb→lt s.next (length s.order) more) in
                opened-Returns allocates s c asks o l m (open_shard os alloc opener s w)
                  (open_shard-NextOpened os opener serves names alloc allocates s w r asks)
                  (open_shard-Returns os alloc opener serves names s w i q (l.in_set s.next i q)))
              (λ _. l))

  read_from-Returns :
      (allocates : Allocates alloc) (turns room : ℕ) (out : Bytes) (s : ShardStream B) (w : W)
      (rest : Bytes)
      → Stands os alloc opener ops rounds serves names s rest
      → Limits rounds most s
      → (length out < room → s.carry ≡ [])
      → length out ≤ room
      → turns_left (room - length out) s < turns
      → Returns (read_from os alloc opener ops rounds turns room out s w)
  unfolding read_from
  read_from-Returns allocates zero room out s w rest st l c h m = absurd (omega (arith, m))
  read_from-Returns allocates (suc turns) room out s w rest st l c h m =
      if-Returns (ltb (length out) room) _ _
        (λ b.
          let below = ltb→lt (length out) room b in
          state-Returns room turns
            (λ (x : Bytes) (y : ShardStream B) (z : W).
              read_from os alloc opener ops rounds turns room x y z)
            (λ x y z r. read_from-Returns allocates turns room x y z r) out below s w rest allocates
            st (c below) l m)
        (λ _. l)

  -- `read` returns, with bytes or an error, when it has more turns than the batch has bytes and
  -- twice the shards that are left, and the wait more rounds than the depth.
  pub read-Returns :
      (allocates : Allocates alloc) (turns room : ℕ) (s : ShardStream B) (w : W) (rest : Bytes)
      → Stands os alloc opener ops rounds serves names s rest
      → Limits rounds most s
      → room + 2 * (length s.order - s.next) + 1 < turns
      → Returns (read os alloc opener ops rounds turns room s w)
  unfolding read flush_carry
  read-Returns allocates turns room s w rest st l m =
      let k = min (length s.carry) room in
      let (rest', st', e) = flushed os alloc opener ops rounds serves names room s rest st in
      let short = length-take k s.carry in
      read_from-Returns allocates turns room (take k s.carry) (record s { carry = drop k s.carry })
        w rest' st' (record { deep = l.deep; next_lt = l.next_lt; few = l.few; in_set = l.in_set })
        (λ b. drop-all k s.carry (omega (arith, b, short))) (omega (arith, short))
        (ground (arith, m))

  -- `read` of a stream that stands before the bytes `rest`, with options that ask for a segment of
  -- a block or more (or for none, with blocks of at most 256 KiB), for files and a backend that
  -- work as documented, with no short reads but at the end of a file, block sizes that are not 0,
  -- an allocation that gives what it is asked for and an order of shards of the set, where the
  -- wait has more rounds than the depth, and `read` more turns than the batch has bytes and twice
  -- the shards that are left, and one more: it returns. On success it gives the next bytes of
  -- `rest`, as many as the batch has room for, or all, and stands before what is left of them.
  pub read_lem :
      (allocates : Allocates alloc) (turns room : ℕ) (s : ShardStream B) (w : W) (rest : Bytes)
      → Stands os alloc opener ops rounds serves names s rest
      → Limits rounds most s
      → room + 2 * (length s.order - s.next) + 1 < turns
      → Returns (read os alloc opener ops rounds turns room s w)
        × Gives os alloc opener ops rounds serves names room rest
            (read os alloc opener ops rounds turns room s w)
  read_lem allocates turns room s w rest st l m = (
    read-Returns allocates turns room s w rest st l m,
    read-Gives os alloc opener ops rounds serves names allocates turns room s w rest st,
  )
