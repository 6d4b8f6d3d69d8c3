-- ===== src/Dataset/Content/Reading.antt =====
-- The loop of `read`: what is in the batch and what is left are together what was there before.
use forge_dsio.Prelude.{
  ℕ, zero, suc, ◌-◌, ◌≤◌, ◌<◌, ◌==◌, ◌≡◌, ◌⊎◌, inl, inr, refl, sym, ap, subst, ap₂, ◌∙◌, Bool, true,
  false, ltb, ltb→lt, ltb→le, if◌then◌else◌, Option, none, some, List, [], ◌∷◌, ◌++◌, length, take,
  drop, append_assoc, length-append, drop-all, ok, err, ◌>>=◌, arith,
}
use forge_dsio.Os.{Os}
use forge_dsio.File.{Bytes}
use forge_dsio.Backend.{BackendOps}
use forge_dsio.Reader.{Alloc}
use forge_dsio.Dataset.{Pending, ShardStream}
use forge_dsio.Dataset.Pipeline.{Step, front_done, fill_pipeline, await_front}
use forge_dsio.Dataset.Stream.{
  Opener, After, open_shard, close_shard, consume, take_front, awaited, filled, opened, read_from,
}
use forge_dsio.Dataset.Content.{Serves, Names, windows, window_at}
use forge_dsio.Dataset.Content.Flight.{window-nil}
use forge_dsio.Dataset.Content.Opening.{NextOpened, open_shard-NextOpened}
use forge_dsio.Dataset.Fitting.{Allocates, AsksBlock}
use forge_dsio.Dataset.Content.State.{Flies, Keeps}
use forge_dsio.Dataset.Content.Filling.{FillFlies, fill_pipeline-Flies}
use forge_dsio.Dataset.Content.Awaiting.{AwaitFlies, await_front-Flies}
use forge_dsio.Dataset.Content.Consuming.{
  Stands, between, within, from_shard, close_shard-Stands, Consumed, consume-Consumed,
  drop-get_elem?,
}

module _ {B W : Type 0} (os : Os W) (alloc : Alloc) (opener : Opener B W) (ops : BackendOps B W)
    (rounds : ℕ) (serves : Serves ops) (names : Names os opener serves) where
  open names use {files, most}

  abbrev pub StandsAt : ShardStream B → Bytes → Type 0
  StandsAt s rest = Stands os alloc opener ops rounds serves names s rest

  -- A read that succeeds gives the next bytes: the batch is full, or nothing is left.
  abbrev pub Conserves : ℕ → Bytes → Bytes → Option (After Bytes B W) → Type 0
  Conserves room out rest none = Unit
  Conserves room out rest (some (err e, t, w)) = Unit
  Conserves room out rest (some (ok got, t, w)) =
      (rest' : Bytes) × StandsAt t rest'
      × (got ++ rest' ≡ out ++ rest)
      × ((length got ≡ room) ⊎ (rest' ≡ []))

  if-Conserves :
      (room : ℕ) (out rest : Bytes) (b : Bool) (x y : Option (After Bytes B W))
      → (b ≡ true → Conserves room out rest x)
      → (b ≡ false → Conserves room out rest y)
      → Conserves room out rest (if b then x else y)
  if-Conserves room out rest true x y p q = p refl
  if-Conserves room out rest false x y p q = q refl

  -- Some bytes more are in the batch.
  pub Conserves-append :
      (room : ℕ) (out bytes rest rest' : Bytes) (r : Option (After Bytes B W))
      → rest ≡ bytes ++ rest'
      → Conserves room (out ++ bytes) rest' r
      → Conserves room out rest r
  Conserves-append room out bytes rest rest' none e c = tt
  Conserves-append room out bytes rest rest' (some (err x, t, w)) e c = tt
  Conserves-append room out bytes rest rest' (some (ok got, t, w)) e (more, s, q, f) =
      (more, s, q ∙ append_assoc out bytes rest' ∙ ap (λ x. out ++ x) (sym e), f)

  module _ (room : ℕ) (next : Bytes → ShardStream B → W → Option (After Bytes B W))
      (ih : (out : Bytes) (s : ShardStream B) (w : W) (rest : Bytes)
        → StandsAt s rest
        → (length out < room → s.carry ≡ [])
        → length out ≤ room
        → Conserves room out rest (next out s w))
      (out : Bytes) (h : length out < room) where
    abbrev InWindow : ShardStream B → Bytes → Bytes → ℕ → Type 0
    InWindow s rest content at =
        Flies serves content at s
        × (s.is_open ≡ true)
        × (s.carry ≡ [])
        × AsksBlock s.options most
        × (rest
            ≡ s.carry
              ++ (drop at (take s.window_end content)
                  ++ from_shard os alloc opener ops rounds serves names s (suc s.next)))

    -- The front entry is done.
    front-Conserves :
        (s : ShardStream B) (w : W) (rest content : Bytes) (at : ℕ) (ps : List Pending)
        → InWindow (record s { pending = ps }) rest content at
        → front_done ps ≡ true
        → Conserves room out rest
            (take_front os alloc opener ops rounds next room out (record s { pending = ps }) w)
    unfolding take_front close_shard consume
    front-Conserves s w rest content at [] g d = tt
    front-Conserves s w rest content at (p ∷ ps) (f, o, c, asks, e) d =
        if-Conserves room out rest (ltb left p.bytes) _ _
          (λ l. (
            rest',
            within c'.content c'.at c'.flies asks c'.is_open refl,
            append_assoc out bytes rest' ∙ ap (λ x. out ++ x) (sym c'.rest_is),
            inl (ground (arith, h, l, c'.length_is, length-append out bytes)),
          ))
          (λ l.
            if-Conserves room out rest (p.bytes == 0) _ _
              (λ z. Conserves-append room out bytes rest rest' _ c'.rest_is (
                ih _ _ _ rest'
                  (close_shard-Stands os alloc opener ops rounds serves names c'.content c'.at t w
                    rest' c'.flies asks c'.slot (c'.ended (ground (arith, z))) refl)
                  (λ _. c'.carry_nil (ground (arith, l))) longer))
              (λ z. Conserves-append room out bytes rest rest' _ c'.rest_is (
                ih _ _ _ rest' (within c'.content c'.at c'.flies asks c'.is_open refl)
                  (λ _. c'.carry_nil (ground (arith, l))) longer)))
      where
        left : ℕ
        left = room - length out

        s' : ShardStream B
        s' = record s { pending = p ∷ ps }

        bytes : Bytes
        bytes = (consume os alloc opener left p ps s').0

        t : ShardStream B
        t = (consume os alloc opener left p ps s').1

        c' : Consumed os alloc opener ops rounds serves names left p bytes t rest
        c' =
            consume-Consumed os alloc opener ops rounds serves names left at content p ps
              (serves.flying f.b) s' rest f f.entries.flight refl f.entries.slots f.entries.count o
              d c e

        rest' : Bytes
        rest' =
            t.carry
            ++ (drop c'.at (take t.window_end c'.content)
                ++ from_shard os alloc opener ops rounds serves names t (suc t.next))

        longer : length (out ++ bytes) ≤ room
        longer = omega (arith, h, c'.length_is, length-append out bytes)

    Keeps-InWindow :
        (s t : ShardStream B) (rest content : Bytes) (at : ℕ)
        → Keeps s t
        → InWindow s rest content at
        → Flies serves content at t
        → InWindow t rest content at
    Keeps-InWindow s t rest content at k (f, o, c, asks, e) g = (
      g,
      k.is_open ∙ o,
      k.carry ∙ c,
      subst (λ x. AsksBlock x most) (sym k.options) asks,
      e ∙ rw (k.carry, k.window_end, k.shards, k.next, k.order) refl,
    )

    awaited-Conserves :
        (s : ShardStream B) (rest content : Bytes) (at : ℕ)
        → InWindow s rest content at
        → (r : Option (Step ops)) → AwaitFlies ops serves content at s r
        → Conserves room out rest (r >>= awaited os alloc opener ops rounds next room out)
    awaited-Conserves s rest content at g none a = tt
    awaited-Conserves s rest content at g (some (err e, t, w)) a = tt
    awaited-Conserves s rest content at g (some (ok _, t, w)) (k, f, d, n) =
        front-Conserves t w rest content at t.pending (Keeps-InWindow s t rest content at k g f) d

    pending-Conserves :
        (s : ShardStream B) (w : W) (rest content : Bytes) (at : ℕ) (ps : List Pending)
        → InWindow (record s { pending = ps }) rest content at
        → (ps ≡ [] → s.window_end ≤ s.next_offset)
        → Conserves room out rest
            (filled os alloc opener ops rounds next room out (ok tt, record s { pending = ps }, w))
    unfolding close_shard
    pending-Conserves s w rest content at [] (f, o, c, asks, e) ends =
        ih _ _ _ rest
          (close_shard-Stands os alloc opener ops rounds serves names content at
            (record s { pending = [] }) w rest f asks (f.entries.some_free refl)
            (window-nil content s.window_end at s.next_offset s.buffers (serves.flying f.b)
              f.entries.flight (ends refl))
            e)
          (λ _. c) (omega (arith, h))
    pending-Conserves s w rest content at (p ∷ ps) g ends =
        awaited-Conserves (record s { pending = p ∷ ps }) rest content at g
          (await_front ops rounds (record s { pending = p ∷ ps }) w)
          (await_front-Flies ops serves content at rounds (record s { pending = p ∷ ps }) w g.0)

    filled-Conserves :
        (s : ShardStream B) (rest content : Bytes) (at : ℕ)
        → InWindow s rest content at
        → (r : Step ops) → FillFlies ops serves content at s r
        → Conserves room out rest (filled os alloc opener ops rounds next room out r)
    filled-Conserves s rest content at g (err e, t, w) a = tt
    filled-Conserves s rest content at g (ok _, t, w) (k, f, ends) =
        pending-Conserves t w rest content at t.pending (Keeps-InWindow s t rest content at k g f)
          ends

    fill-Conserves :
        (s : ShardStream B) (w : W) (rest content : Bytes) (at : ℕ)
        → InWindow s rest content at
        → Conserves room out rest
            (filled os alloc opener ops rounds next room out (fill_pipeline ops s w))
    fill-Conserves s w rest content at g =
        filled-Conserves s rest content at g (fill_pipeline ops s w)
          (fill_pipeline-Flies ops serves content at s w g.0)

    opened-Conserves :
        (allocates : Allocates alloc) (s : ShardStream B) (rest : Bytes)
        → s.carry ≡ []
        → AsksBlock s.options most
        → rest ≡ s.carry ++ from_shard os alloc opener ops rounds serves names s s.next
        → (r : Option (After (Unit {0}) B W))
        → NextOpened os opener serves names alloc allocates s r
        → Conserves room out rest (r >>= opened os alloc opener ops rounds next room out)
    opened-Conserves allocates s rest c asks e none a = tt
    opened-Conserves allocates s rest c asks e (some (err x, t, w)) a = tt
    opened-Conserves allocates s rest c asks e (some (ok _, t, w)) (i, shard, at_next, at_i, g) =
        fill-Conserves t w rest (files shard.path) shard.offset (
          g.flies,
          g.is_open,
          g.carry ∙ c,
          subst (λ x. AsksBlock x most) (sym g.options) asks,
          e
              ∙ ap (λ x. s.carry ++ windows files s.shards x)
                  (drop-get_elem? s.order s.next i at_next)
              ∙ ap
                  (λ x.
                    s.carry
                    ++ (window_at files x ++ windows files s.shards (drop (suc s.next) s.order)))
                  at_i
              ∙ rw (g.carry, g.window_end, g.shards, g.next, g.order) refl,
        )

    -- The order is used up.
    last-nil :
        (s : ShardStream B)
        → ltb s.next (length s.order) ≡ false
        → from_shard os alloc opener ops rounds serves names s s.next ≡ []
    last-nil s l =
        ap (windows files s.shards) (drop-all s.next s.order (ltb→le s.next (length s.order) l))

    state-Conserves :
        (allocates : Allocates alloc) (s : ShardStream B) (w : W) (rest : Bytes)
        → StandsAt s rest
        → s.carry ≡ []
        → Conserves room out rest (
            if s.is_open
            then filled os alloc opener ops rounds next room out (fill_pipeline ops s w)
            else if ltb s.next (length s.order)
            then open_shard os alloc opener s w >>= opened os alloc opener ops rounds next room out
            else some (ok out, s, w))
    state-Conserves allocates s w rest (within content at f asks o e) c =
        if-Conserves room out rest s.is_open _ _
          (λ _. fill-Conserves s w rest content at (f, o, c, asks, e))
          (λ n. absurd (ground (arith, o, n)))
    state-Conserves allocates s w rest (between r asks o e) c =
        if-Conserves room out rest s.is_open _ _ (λ n. absurd (ground (arith, o, n)))
          (λ _.
            if-Conserves room out rest (ltb s.next (length s.order)) _ _
              (λ _.
                opened-Conserves allocates s rest c asks e (open_shard os alloc opener s w)
                  (open_shard-NextOpened os opener serves names alloc allocates s w r asks))
              (λ l.
                (rest, between r asks o e, refl, inr (e ∙ ap₂ (λ x y. x ++ y) c (last-nil s l)))))

  pub read_from-Conserves :
      (allocates : Allocates alloc) (turns room : ℕ) (out : Bytes) (s : ShardStream B) (w : W)
      (rest : Bytes)
      → StandsAt s rest
      → (length out < room → s.carry ≡ [])
      → length out ≤ room
      → Conserves room out rest (read_from os alloc opener ops rounds turns room out s w)
  unfolding read_from
  read_from-Conserves allocates zero room out s w rest st c h = tt
  read_from-Conserves allocates (suc turns) room out s w rest st c h =
      if-Conserves room out rest (ltb (length out) room) _ _
        (λ l.
          let below = ltb→lt (length out) room l in
          state-Conserves room
            (λ (x : Bytes) (y : ShardStream B) (z : W).
              read_from os alloc opener ops rounds turns room x y z)
            (λ x y z r. read_from-Conserves allocates turns room x y z r) out below allocates s w
            rest st (c below))
        (λ l. (rest, st, refl, inl (ground (arith, h, l))))
