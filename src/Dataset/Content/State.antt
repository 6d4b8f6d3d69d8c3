-- ===== src/Dataset/Content/State.antt =====
-- The state of a `ShardStream` with an open shard: what its entries and its backend have in common.
use forge_dsio.Prelude.{refl, ◌∙◌, ℕ, ◌<◌, ◌≤◌, ◌≡◌, Option, some, List, [], length}
use forge_dsio.Prelude.Words.{u64_mod}
use forge_dsio.File.{Bytes}
use forge_dsio.Backend.{ReadRequest, BackendOps}
use forge_dsio.Dataset.{ShardStream}
use forge_dsio.Dataset.Content.{Serves}
use forge_dsio.Dataset.Fitting.{AllLong}
use forge_dsio.Dataset.Content.Slots.{IsFree, Slots}
use forge_dsio.Dataset.Content.Flight.{Flight}

-- The entries stand for the bytes from `at` on, and these requests are in flight.
pub record Entries {B : Type 0} (content : Bytes) (at : ℕ) (rs : List ReadRequest)
    (s : ShardStream B) : Type 0 where
  pub flight : Flight content s.window_end s.buffers at s.pending rs s.next_offset
  pub slots : Slots s.free s.pending
  pub lens : length s.free ≡ length s.buffers
  pub some_free : s.pending ≡ [] → (k : ℕ) × IsFree s.free k
  pub depth : 0 < s.read_depth
  pub count : length s.pending ≤ s.read_depth
  pub block_pos : 0 < s.block
  pub long : AllLong s.segment s.buffers
  pub room : s.block ≤ s.segment
  pub fits : s.window_end < u64_mod

-- The entries do not speak of the backend.
pub Entries-backend :
    {B : Type 0} {content : Bytes} {at : ℕ} {rs : List ReadRequest} {s : ShardStream B}
    (b : Option B)
    → Entries content at rs s
    → Entries content at rs (record s { backend = b })
Entries-backend b h = record {
  flight = h.flight;
  slots = h.slots;
  lens = h.lens;
  some_free = h.some_free;
  depth = h.depth;
  count = h.count;
  block_pos = h.block_pos;
  long = h.long;
  room = h.room;
  fits = h.fits;
}

module _ {B W : Type 0} {ops : BackendOps B W} (serves : Serves ops) where
  -- The backend of the stream reads the file, and has the requests of its entries.
  pub record Flies (content : Bytes) (at : ℕ) (s : ShardStream B) : Type 0 where
    pub b : B
    pub is_backend : s.backend ≡ some b
    pub of_file : serves.content b ≡ content
    pub entries : Entries content at (serves.flying b) s

-- What the pipeline leaves alone.
pub record Keeps {B : Type 0} (s t : ShardStream B) : Type 0 where
  pub carry : t.carry ≡ s.carry
  pub order : t.order ≡ s.order
  pub shards : t.shards ≡ s.shards
  pub next : t.next ≡ s.next
  pub window_end : t.window_end ≡ s.window_end
  pub is_open : t.is_open ≡ s.is_open
  pub read_depth : t.read_depth ≡ s.read_depth
  pub options : t.options ≡ s.options

pub Keeps-trans : {B : Type 0} {s t u : ShardStream B} → Keeps s t → Keeps t u → Keeps s u
Keeps-trans k l = record {
  carry = l.carry ∙ k.carry;
  order = l.order ∙ k.order;
  shards = l.shards ∙ k.shards;
  next = l.next ∙ k.next;
  window_end = l.window_end ∙ k.window_end;
  is_open = l.is_open ∙ k.is_open;
  read_depth = l.read_depth ∙ k.read_depth;
  options = l.options ∙ k.options;
}

pub Keeps-refl : {B : Type 0} (s : ShardStream B) → Keeps s s
Keeps-refl s = record {
  carry = refl;
  order = refl;
  shards = refl;
  next = refl;
  window_end = refl;
  is_open = refl;
  read_depth = refl;
  options = refl;
}
