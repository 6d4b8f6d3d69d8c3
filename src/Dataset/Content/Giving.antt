-- ===== src/Dataset/Content/Giving.antt =====
-- `read` gives the bytes of the windows of the shards, one behind the other, whatever the order in
-- which the reads of the backend complete.
use forge_dsio.Prelude.{
  ℕ, suc, ◌≡◌, inl, inr, refl, sym, ap, ◌∙◌, subst, Option, none, some, List, [], ◌++◌, length,
  take, drop, min, append_assoc, append-nil, length-take, take-append-drop, drop-all, take-all,
  drop-append, take-append, ok, err, arith,
}
use forge_dsio.Os.{Os}
use forge_dsio.File.{Bytes}
use forge_dsio.Backend.{BackendOps}
use forge_dsio.Reader.{Alloc}
use forge_dsio.Shard.{ShardSet}
use forge_dsio.Dataset.{BatchOptions, new_stream, ShardStream, flush_carry}
use forge_dsio.Dataset.Stream.{Opener, After, read_from, read}
use forge_dsio.Dataset.Fitting.{Allocates, AsksBlock}
use forge_dsio.Dataset.Bounds.{Within, read_from-Within}
use forge_dsio.Dataset.Content.{Serves, Names, windows}
use forge_dsio.Dataset.Content.Consuming.{Stands, between, within, from_shard}
use forge_dsio.Dataset.Content.Reading.{Conserves, Conserves-append, read_from-Conserves}

module _ {B W : Type 0} (os : Os W) (alloc : Alloc) (opener : Opener B W) (ops : BackendOps B W)
    (rounds : ℕ) (serves : Serves ops) (names : Names os opener serves) where
  open names use {files}

  abbrev StandsAt : ShardStream B → Bytes → Type 0
  StandsAt s rest = Stands os alloc opener ops rounds serves names s rest

  -- What is carried goes first.
  pub flushed :
      (room : ℕ) (s : ShardStream B) (rest : Bytes)
      → StandsAt s rest
      → (rest' : Bytes) × StandsAt
          (record s { carry = drop (min (length s.carry) room) s.carry })
          rest'
        × (rest ≡ take (min (length s.carry) room) s.carry ++ rest')
  flushed room s rest (between r asks o e) =
      let k = min (length s.carry) room in
      let behind = from_shard os alloc opener ops rounds serves names s s.next in
      (
        drop k s.carry ++ behind,
        between
            (record {
              idle = r.idle;
              lens = r.lens;
              some_free = r.some_free;
              depth = r.depth;
              long = r.long;
            })
            asks o refl,
        e
            ∙ ap (λ x. x ++ behind) (sym (take-append-drop k s.carry))
            ∙ append_assoc (take k s.carry) (drop k s.carry) behind,
      )
  flushed room s rest (within content at f asks o e) =
      let k = min (length s.carry) room in
      let behind =
        drop at (take s.window_end content)
        ++ from_shard os alloc opener ops rounds serves names s (suc s.next) in
      (
        drop k s.carry ++ behind,
        within content at
            (record {
              b = f.b;
              is_backend = f.is_backend;
              of_file = f.of_file;
              entries = record {
                flight = f.entries.flight;
                slots = f.entries.slots;
                lens = f.entries.lens;
                some_free = f.entries.some_free;
                depth = f.entries.depth;
                count = f.entries.count;
                block_pos = f.entries.block_pos;
                long = f.entries.long;
                room = f.entries.room;
                fits = f.entries.fits;
              };
            })
            asks o refl,
        e
            ∙ ap (λ x. x ++ behind) (sym (take-append-drop k s.carry))
            ∙ append_assoc (take k s.carry) (drop k s.carry) behind,
      )

  -- The result of a read of the stream that stands before these bytes.
  abbrev pub Gives : ℕ → Bytes → Option (After Bytes B W) → Type 0
  Gives room rest none = Unit
  Gives room rest (some (err e, t, w)) = Unit
  Gives room rest (some (ok got, t, w)) = (got ≡ take room rest) × StandsAt t (drop room rest)

  Conserves-Gives :
      (room : ℕ) (rest : Bytes) (r : Option (After Bytes B W))
      → Within room r
      → Conserves os alloc opener ops rounds serves names room [] rest r
      → Gives room rest r
  Conserves-Gives room rest none h c = tt
  Conserves-Gives room rest (some (err e, t, w)) h c = tt
  Conserves-Gives room rest (some (ok got, t, w)) h (rest', s, q, inl full) = (
    sym (take-append room got rest' full) ∙ ap (take room) q,
    subst (StandsAt t) (sym (drop-append room got rest' full) ∙ ap (drop room) q) s,
  )
  Conserves-Gives room rest (some (ok got, t, w)) h (rest', s, q, inr last) =
      let e : got ≡ rest = sym (append-nil got) ∙ ap (λ x. got ++ x) (sym last) ∙ q in
      (
        sym (take-all room got h) ∙ ap (take room) e,
        subst (StandsAt t) (last ∙ sym (drop-all room got h) ∙ ap (drop room) e) s,
      )

  pub read-Gives :
      (allocates : Allocates alloc) (turns room : ℕ) (s : ShardStream B) (w : W) (rest : Bytes)
      → StandsAt s rest
      → Gives room rest (read os alloc opener ops rounds turns room s w)
  unfolding read flush_carry
  read-Gives allocates turns room s w rest st =
      let k = min (length s.carry) room in
      let (rest', st', e) = flushed room s rest st in
      let s' : ShardStream B = record s { carry = drop k s.carry } in
      let short = length-take k s.carry in
      let r = read_from os alloc opener ops rounds turns room (take k s.carry) s' w in
      Conserves-Gives room rest r
        (read_from-Within os alloc opener ops rounds turns room (take k s.carry) s' w
          (omega (arith, short)))
        (Conserves-append os alloc opener ops rounds serves names room [] (take k s.carry) rest
          rest' r e
          (read_from-Conserves os alloc opener ops rounds serves names allocates turns room
            (take k s.carry) s' w rest' st' (λ l. drop-all k s.carry (omega (arith, l, short)))
            (omega (arith, short))))

  -- A new stream stands before the windows of all its shards.
  pub new_stream-Stands :
      (shards : ShardSet) (order : List ℕ) (options : BatchOptions)
      → AsksBlock options names.most
      → StandsAt (new_stream shards order options) (windows files shards order)
  unfolding new_stream
  new_stream-Stands shards order options asks =
      between
        (record {
          idle = refl;
          lens = refl;
          some_free = λ h. absurd (omega (arith, h));
          depth = omega arith;
          long = tt;
        })
        asks refl refl
