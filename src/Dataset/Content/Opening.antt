-- ===== src/Dataset/Content/Opening.antt =====
-- `open_shard` puts the stream at the start of a window, with the file of the shard behind its backend.
use forge_dsio.Prelude.{
  ℕ, ◌≤◌, ◌<◌, ◌≡◌, inl, inr, refl, sym, ap, ◌∙◌, subst, true, ◌==◌, ==_iff, Option, none, some,
  Bool-cases, [], get_elem?, length, Outcome, ok, err, ◌>>=◌, arith,
}
use forge_dsio.Prelude.Words.{add_u64_lt}
use forge_dsio.Error.{Error, Text}
use forge_dsio.Os.{Os, Sys, done, Sys-cases}
use forge_dsio.Align.BlockSize.{block_size, statfs_block, read_only_flags}
use forge_dsio.File.{File, OpenMode, direct_read, open_file, open_flags}
use forge_dsio.Backend.{BackendOps}
use forge_dsio.Reader.{Alloc}
use forge_dsio.Shard.{Shard, shard_end}
use forge_dsio.Dataset.{ShardStream}
use forge_dsio.Dataset.Stream.{
  Opener, After, prepare_buffers, segment_size, start_shard, backend_options, fd_of, with_prepared,
  open_file_of, open_shard,
}
use forge_dsio.Dataset.Content.{Serves, Names}
use forge_dsio.Dataset.Content.Slots.{Slots}
use forge_dsio.Dataset.Content.Flight.{Flight, empty}
use forge_dsio.Dataset.Content.Preparing.{IsReady, Prepared, PreparedBy, prepare_buffers-Prepared}
use forge_dsio.Dataset.Fitting.{
  AllLong, Allocates, AsksBlock, AsksBlock-le, segment_size-ge, PreparedFor,
  prepare_buffers-PreparedFor,
}
use forge_dsio.Dataset.Content.Available.{IsAligned, open_file-IsAligned}
use forge_dsio.Dataset.Content.State.{Flies}

module _ {B W : Type 0} (os : Os W) (opener : Opener B W) {ops : BackendOps B W}
    (serves : Serves ops) (names : Names os opener serves) where
  open names use {name, files, most}

  name-block_size :
      (path : Text) (w : W) (fd : ℕ) → name w fd ≡ path → name (block_size os path w).1 fd ≡ path
  unfolding block_size statfs_block
  name-block_size path w fd e = elim (Sys-cases opened.0) [
    | inr (code, q) ↦ ground (arith, e, names.on_open_fails path read_only_flags 0 code fd w q)
    | inl (other, q) ↦ ground (
      arith,
      e,
      again other q,
      names.on_blksszget other fd opened.1,
      names.on_close other fd (os.sys_blksszget other opened.1).1,
      names.on_statfs path fd (os.sys_close other (os.sys_blksszget other opened.1).1),
    )
  ]
    where
      opened : Sys ℕ × W
      opened = os.sys_open path read_only_flags 0 w

      again : (other : ℕ) → opened.0 ≡ done other → name opened.1 fd ≡ path
      again other q = elim (Bool-cases (fd == other)) [
        | inl same ↦
            subst (λ x. name opened.1 x ≡ path) (sym ((==_iff fd other).0 same))
              (names.on_open path read_only_flags 0 other w q)
        | inr differ ↦
            names.on_open_other path read_only_flags 0 other fd w q (λ x. ground (arith, x, differ))
            ∙ e
      ]

  -- The descriptor of a file that was opened has its path.
  abbrev Opens : Text → Outcome Error File × W → Type 0
  Opens path (err e, w) = Unit
  Opens path (ok f, w) = (fd : ℕ) × (f.fd ≡ some fd) × (name w fd ≡ path)

  open_file-Opens : (path : Text) (mode : OpenMode) (w : W) → Opens path (open_file os path mode w)
  unfolding open_file
  open_file-Opens path mode w = elim (Sys-cases opened.0) [
    | inr (code, q) ↦ ground (arith, q)
    | inl (fd, q) ↦ ground (
      arith,
      q,
      name-block_size path opened.1 fd (names.on_open path (open_flags mode) 0o644 fd w q),
    )
  ]
    where
      opened : Sys ℕ × W
      opened = os.sys_open path (open_flags mode) 0o644 w

  -- What stays of the stream, and that its window is the one of the shard.
  pub record Started (s : ShardStream B) (shard : Shard) (t : ShardStream B) : Type 0 where
    pub carry : t.carry ≡ s.carry
    pub order : t.order ≡ s.order
    pub shards : t.shards ≡ s.shards
    pub next : t.next ≡ s.next
    pub read_depth : t.read_depth ≡ s.read_depth
    pub options : t.options ≡ s.options
    pub is_open : t.is_open ≡ true
    pub window_end : t.window_end ≡ shard_end shard
    pub flies : Flies serves (files shard.path) shard.offset t

  abbrev StartedBy : ShardStream B → Shard → After (Unit {0}) B W → Type 0
  StartedBy s shard (err e, t, w) = Unit
  StartedBy s shard (ok _, t, w) = Started s shard t

  module _ (alloc : Alloc) (allocates : Allocates alloc) where
    start_shard-Started :
        (shard : Shard) (file : File) (s p : ShardStream B) (w : W) (fd block : ℕ)
        → Prepared s block p
        → AllLong p.segment p.buffers
        → block ≤ p.segment
        → 0 < block
        → name w fd ≡ shard.path
        → (a : Outcome Error B × W)
        → opener.open_backend fd (backend_options os alloc opener p) w ≡ a
        → StartedBy s shard (start_shard os alloc opener shard file p a)
    unfolding shard_end
    start_shard-Started shard file s p w fd block h long room pos n (err e, w') q = tt
    start_shard-Started shard file s p w fd block h long room pos n (ok b, w') q =
        let o = names.on_open_backend fd (backend_options os alloc opener p) b w w' q in
        record {
          carry = h.carry;
          order = h.order;
          shards = h.shards;
          next = h.next;
          read_depth = h.read_depth;
          options = h.options;
          is_open = refl;
          window_end = refl;
          flies = record {
            b = b;
            is_backend = refl;
            of_file = o.1 ∙ ap files n;
            entries = record {
              flight =
                  subst
                    (λ x.
                      Flight (files shard.path) (shard_end shard) p.buffers shard.offset x
                        (serves.flying b) shard.offset)
                    (sym h.idle)
                    (subst
                      (λ x.
                        Flight (files shard.path) (shard_end shard) p.buffers shard.offset [] x
                          shard.offset)
                      (sym o.0) (empty refl));
              slots = subst (λ x. Slots p.free x) (sym h.idle) tt;
              lens = h.lens;
              some_free = λ _. h.slot;
              depth = h.depth;
              count = omega (arith, ap length h.idle);
              block_pos = omega (arith, h.of_block, pos);
              long = long;
              room = omega (arith, h.of_block, room);
              fits = add_u64_lt shard.offset shard.length;
            };
          };
        }

    with_prepared-Started :
        (shard : Shard) (file : File) (s : ShardStream B) (w : W) (fd block : ℕ)
        → 0 < block
        → file.fd ≡ some fd
        → name w fd ≡ shard.path
        → (segment : ℕ) → block ≤ segment
        → (r : Outcome Error (ShardStream B)) → PreparedBy s block r
        → PreparedFor alloc allocates block segment r
        → StartedBy s shard (with_prepared os alloc opener shard file s r w)
    with_prepared-Started shard file s w fd block pos held n segment le (err e) h f = tt
    with_prepared-Started shard file s w fd block pos held n segment le (ok p) h f =
        start_shard-Started shard file s p w (fd_of os alloc opener file) block h f.0.long
          (omega (arith, f.2, le)) pos (ap (name w) same ∙ n) _ refl
      where
        same : fd_of os alloc opener file ≡ fd
        same = ground (arith, held)

    -- A shard that was opened: the next one, at the start of its window.
    abbrev OpenedBy : ShardStream B → Shard → Option (After (Unit {0}) B W) → Type 0
    OpenedBy s shard none = Unit
    OpenedBy s shard (some a) = StartedBy s shard a

    open_file_of-Started :
        (shard : Shard) (s : ShardStream B) (r : Outcome Error File × W)
        → IsReady s
        → AsksBlock s.options most
        → IsAligned os alloc opener serves names r
        → Opens shard.path r
        → OpenedBy s shard (open_file_of os alloc opener shard s r)
    open_file_of-Started shard s (err e, w) h asks a o = tt
    open_file_of-Started shard s (ok file, w) h asks a (fd, held, n) =
        elim (Bool-cases (file.alignment == 0)) [
          | inl zero_block ↦ rw zero_block tt
          | inr block ↦ rw block (
              with_prepared-Started shard file s w fd file.alignment a.0 held n
                (segment_size s.options file.alignment)
                (segment_size-ge s.options file.alignment a.0
                  (AsksBlock-le s.options file.alignment most a.1 asks))
                (prepare_buffers alloc s file.alignment (segment_size s.options file.alignment))
                (prepare_buffers-Prepared alloc s h file.alignment
                  (segment_size s.options file.alignment))
                (prepare_buffers-PreparedFor alloc allocates s file.alignment
                  (segment_size s.options file.alignment)
                  (record { long = h.long; lens = h.lens })))
        ]

    abbrev pub NextOpened : ShardStream B → Option (After (Unit {0}) B W) → Type 0
    NextOpened s none = Unit
    NextOpened s (some (err e, t, w)) = Unit
    NextOpened s (some (ok _, t, w)) =
        (i : ℕ) × (shard : Shard) × (get_elem? s.order s.next ≡ some i)
        × (get_elem? s.shards i ≡ some shard)
        × Started s shard t

    pub open_shard-NextOpened :
        (s : ShardStream B) (w : W)
        → IsReady s
        → AsksBlock s.options most
        → NextOpened s (open_shard os alloc opener s w)
    unfolding open_shard
    open_shard-NextOpened s w h asks = with_index (get_elem? s.order s.next) refl
      where
        next_opened :
            (i : ℕ) (shard : Shard) (o : Option (After (Unit {0}) B W))
            → get_elem? s.order s.next ≡ some i
            → get_elem? s.shards i ≡ some shard
            → OpenedBy s shard o
            → NextOpened s o
        next_opened i shard none e f a = tt
        next_opened i shard (some (err x, t, v)) e f a = tt
        next_opened i shard (some (ok _, t, v)) e f a = (i, shard, e, f, a)

        with_shard :
            (i : ℕ)
            → get_elem? s.order s.next ≡ some i
            → (o : Option Shard) → get_elem? s.shards i ≡ o
            → NextOpened s (
                o >>= λ shard.
                open_file_of os alloc opener shard s (open_file os shard.path direct_read w))
        with_shard i e none f = tt
        with_shard i e (some shard) f = next_opened i shard _ e f (
            open_file_of-Started shard s (open_file os shard.path direct_read w) h asks
              (open_file-IsAligned os alloc opener serves names shard.path direct_read w)
              (open_file-Opens shard.path direct_read w))

        with_index :
            (o : Option ℕ)
            → get_elem? s.order s.next ≡ o
            → NextOpened s (
                o >>= λ i. get_elem? s.shards i >>= λ shard.
                open_file_of os alloc opener shard s (open_file os shard.path direct_read w))
        with_index none e = tt
        with_index (some i) e = with_shard i e (get_elem? s.shards i) refl
