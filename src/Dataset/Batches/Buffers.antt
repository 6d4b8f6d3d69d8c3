-- ===== src/Dataset/Batches/Buffers.antt =====
-- The buffers of `for_each_batch`: where they are, and which channels are closed.
use forge_dsio.Prelude.{
  ℕ, suc, ◌+◌, ◌≤◌, ◌≡◌, Bool, true, false, [], ◌∷◌, length, length-append, arith,
}
use forge_dsio.File.{Bytes}
use forge_dsio.Dataset.Channel.{Channel, ChannelLaws}
use forge_dsio.Dataset.Batches.{
  Batch, Answer, Source, goes_on, stops, throws, normally, by_exception, Worker, receiving, reading,
  sending, finished, Caller, waiting, calling, returning, closing_ready, checking, done, System,
  after_read, after_call, after_return, after_close, Turn, take_buffer, free_ended, read_batch,
  read_fails, keep_error, end_stream, send_batch, ready_refused, get_batch, ready_ended, call,
  give_back, free_refused, close_free, close_ready, check_error,
}

-- The buffers that a thread has in its hands.
abbrev pub held : Worker → ℕ
held (reading _) = 1
held (sending _) = 1
held _ = 0

abbrev pub holds : Caller → ℕ
holds (calling _) = 1
holds (returning _ _) = 1
holds _ = 0

-- The worker has a buffer, or will ask for one.
abbrev pub runs : Worker → Bool
runs receiving = true
runs (reading _) = true
runs (sending _) = true
runs _ = false

abbrev pub is_finished : Worker → Bool
is_finished finished = true
is_finished _ = false

-- The caller is in its loop.
abbrev pub loops : Caller → Bool
loops waiting = true
loops (calling _) = true
loops (returning _ _) = true
loops _ = false

abbrev pub has_closed_free : Caller → Bool
has_closed_free (closing_ready _) = true
has_closed_free checking = true
has_closed_free (done _) = true
has_closed_free _ = false

abbrev pub has_closed_ready : Caller → Bool
has_closed_ready checking = true
has_closed_ready (done _) = true
has_closed_ready _ = false

module _ {S K C : Type 0} (channel : Channel Batch C) (laws : ChannelLaws channel) where
  open laws use {contents, capacity, closed}

  abbrev pub total : System S K C → ℕ
  total s = length (contents s.free) + held s.worker + length (contents s.ready) + holds s.caller

  pub record Buffers (n : ℕ) (s : System S K C) : Type 0 where
    pub free_room : capacity s.free ≡ suc n
    pub ready_room : capacity s.ready ≡ n
    pub ready_fits : length (contents s.ready) ≤ n
    pub few : total s ≤ suc n
    pub kept : runs s.worker ≡ true → loops s.caller ≡ true → total s ≡ suc n
    pub free_state : closed s.free ≡ has_closed_free s.caller
    pub ready_state : loops s.caller ≡ true → closed s.ready ≡ is_finished s.worker
    pub ready_late : has_closed_ready s.caller ≡ true → closed s.ready ≡ true

  module _ {read : Source S} {callback : Bytes → K → Answer × K} {n : ℕ} where
    pub Turn-Buffers :
        {s t : System S K C} → Turn channel read callback s t → Buffers n s → Buffers n t
    unfolding after_read after_call after_return after_close
    Turn-Buffers {s} (take_buffer {b} {c} w q) h =
        ground (arith, w, h, laws.on_received b s.free c q)
    Turn-Buffers {s} (free_ended w q) h = ground (arith, w, h, laws.on_ended s.free q)
    Turn-Buffers (read_batch {got} w q) h = ground (arith, w, h)
    Turn-Buffers (read_fails w q) h = ground (arith, w, h)
    Turn-Buffers (keep_error w) h = ground (arith, w, h)
    Turn-Buffers {s} (end_stream w) h = ground (arith, w, h, laws.on_close s.ready)
    Turn-Buffers {s} (send_batch {b} {c} w q) h =
        ground (arith, w, h, laws.on_sent b s.ready c q, length-append (contents s.ready) (b ∷ []))
    Turn-Buffers {s} (ready_refused {b} w q) h = ground (arith, w, h, laws.on_refused b s.ready q)
    Turn-Buffers {s} (get_batch {b} {c} w q) h =
        ground (arith, w, h, laws.on_received b s.ready c q)
    Turn-Buffers {s} (ready_ended w q) h = ground (arith, w, h, laws.on_ended s.ready q)
    Turn-Buffers (call {a = goes_on} w q) h = ground (arith, w, h)
    Turn-Buffers (call {a = stops} w q) h = ground (arith, w, h)
    Turn-Buffers (call {a = throws} w q) h = ground (arith, w, h)
    Turn-Buffers {s} (give_back {keep = true} {b} {c} w q) h =
        ground (arith, w, h, laws.on_sent b s.free c q, length-append (contents s.free) (b ∷ []))
    Turn-Buffers {s} (give_back {keep = false} {b} {c} w q) h =
        ground (arith, w, h, laws.on_sent b s.free c q, length-append (contents s.free) (b ∷ []))
    Turn-Buffers {s} (free_refused {b} w q) h = ground (arith, w, h, laws.on_refused b s.free q)
    Turn-Buffers {s} (close_free w) h = ground (arith, w, h, laws.on_close s.free)
    Turn-Buffers {s} (close_ready {x = normally} w) h = ground (arith, w, h, laws.on_close s.ready)
    Turn-Buffers {s} (close_ready {x = by_exception} w) h =
        ground (arith, w, h, laws.on_close s.ready)
    Turn-Buffers (check_error w) h = ground (arith, w, h)
