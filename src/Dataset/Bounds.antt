-- ===== src/Dataset/Bounds.antt =====
-- `ShardStream::read` stays within the buffer of its batch.
use forge_dsio.Prelude.{
  ℕ, zero, suc, ◌-◌, ◌≤◌, ◌≡◌, refl, Bool, true, false, if◌then◌else◌, ltb, ◌==◌, Option, none,
  some, List, [], ◌∷◌, ◌++◌, length, min, length-append, length-take, ok, err, ◌>>=◌, arith, get_or,
}
use forge_dsio.Os.{Os}
use forge_dsio.File.{Bytes}
use forge_dsio.Backend.{BackendOps}
use forge_dsio.Reader.{Alloc}
use forge_dsio.Dataset.{Pending, ShardStream, flush_carry}
use forge_dsio.Dataset.Pipeline.{fill_pipeline, await_front}
use forge_dsio.Dataset.Stream.{
  Opener, After, open_shard, consume, take_front, awaited, filled, opened, read_from, read,
}

-- What a read has put into its `out` lies in it.
abbrev pub Within : {B W : Type 0} → ℕ → Option (After Bytes B W) → Type 0
Within room none = Unit
Within room (some (err e, s, w)) = Unit
Within room (some (ok got, s, w)) = length got ≤ room

if-Within :
    {B W : Type 0} (room : ℕ) (b : Bool) (x y : Option (After Bytes B W))
    → Within room x
    → Within room y
    → Within room (if b then x else y)
if-Within room true x y p q = p
if-Within room false x y p q = q

module _ {B W : Type 0} (os : Os W) (alloc : Alloc) (opener : Opener B W) where
  length-consume :
      (room : ℕ) (p : Pending) (rest : List Pending) (s : ShardStream B)
      → length (consume os alloc opener room p rest s).0 ≤ room
  unfolding consume
  length-consume room p rest s =
      omega (arith, length-take (min room p.bytes) (get_or s.buffers p.slot []))

module _ {B W : Type 0} (os : Os W) (alloc : Alloc) (opener : Opener B W) (ops : BackendOps B W)
    (rounds : ℕ) where
  module _ (room : ℕ) (next : Bytes → ShardStream B → W → Option (After Bytes B W))
      (ih : (out : Bytes) (s : ShardStream B) (w : W)
        → length out ≤ room
        → Within room (next out s w))
      (out : Bytes) (h : length out ≤ room) where
    front-Within :
        (s : ShardStream B) (w : W) (ps : List Pending)
        → s.pending ≡ ps
        → Within room (take_front os alloc opener ops rounds next room out s w)
    unfolding take_front
    front-Within s w [] e = rw e tt
    front-Within s w (p ∷ rest) e =
        let left = room - length out in
        let c = λ (x : ShardStream B). consume os alloc opener left p rest x in
        let fits : (x : ShardStream B) → length (out ++ (c x).0) ≤ room = λ x.
          omega
            (arith, h, length-append out (c x).0, length-consume os alloc opener left p rest x) in
        rw e (
          if-Within room (ltb left p.bytes) _ _ (fits _)
            (if-Within room (p.bytes == 0) _ _ (ih _ _ _ (fits _)) (ih _ _ _ (fits _))))

    awaited-Within :
        (r : After (Unit {0}) B W)
        → Within room (awaited os alloc opener ops rounds next room out r)
    awaited-Within (err e, s, w) = tt
    awaited-Within (ok _, s, w) = front-Within s w s.pending refl

    bind-Within :
        (f : After (Unit {0}) B W → Option (After Bytes B W))
        → ((r : After (Unit {0}) B W) → Within room (f r))
        → (o : Option (After (Unit {0}) B W)) → Within room (o >>= f)
    bind-Within f hf none = tt
    bind-Within f hf (some r) = hf r

    filled-Within :
        (r : After (Unit {0}) B W) → Within room (filled os alloc opener ops rounds next room out r)
    filled-Within (err e, s, w) = tt
    filled-Within (ok _, s, w) = pending-Within s w s.pending refl
      where
        pending-Within :
            (s : ShardStream B) (w : W) (ps : List Pending)
            → s.pending ≡ ps
            → Within room (filled os alloc opener ops rounds next room out (ok tt, s, w))
        pending-Within s w [] e = rw e (ih _ _ _ h)
        pending-Within s w (p ∷ rest) e =
            rw e (bind-Within _ awaited-Within (await_front ops rounds _ w))

    opened-Within :
        (r : After (Unit {0}) B W) → Within room (opened os alloc opener ops rounds next room out r)
    opened-Within (err e, s, w) = tt
    opened-Within (ok _, s, w) = filled-Within (fill_pipeline ops s w)

  pub read_from-Within :
      (turns room : ℕ) (out : Bytes) (s : ShardStream B) (w : W)
      → length out ≤ room
      → Within room (read_from os alloc opener ops rounds turns room out s w)
  unfolding read_from
  read_from-Within zero room out s w h = tt
  read_from-Within (suc turns) room out s w h =
      let next = λ (x : Bytes) (y : ShardStream B) (z : W).
        read_from os alloc opener ops rounds turns room x y z in
      let ih = λ (x : Bytes) (y : ShardStream B) (z : W). read_from-Within turns room x y z in
      if-Within room (ltb (length out) room) _ _
        (if-Within room s.is_open _ _ (filled-Within room next ih out h (fill_pipeline ops s w)) (
          if-Within room (ltb s.next (length s.order)) _ _
            (bind-Within room next ih out h _ (opened-Within room next ih out h)
              (open_shard os alloc opener s w))
            h))
        h

  -- The batch that `read` reports is no longer than its buffer.
  pub read-Within :
      (turns room : ℕ) (s : ShardStream B) (w : W)
      → Within room (read os alloc opener ops rounds turns room s w)
  unfolding read flush_carry
  read-Within turns room s w =
      read_from-Within turns room _ _ w
        (omega (arith, length-take (min (length s.carry) room) s.carry))
