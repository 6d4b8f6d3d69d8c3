-- ===== src/Dataset/Batches/Sizes.antt =====
-- Every buffer of `for_each_batch` keeps its size.
use forge_dsio.Prelude.{
  ℕ, zero, suc, ◌≤◌, ◌≡◌, some, ok, List, [], ◌∷◌, ◌++◌, length, drop, replicate, length-append,
  length-drop, length-replicate, sym, subst, arith,
}
use forge_dsio.File.{Bytes}
use forge_dsio.Dataset.{BatchOptions}
use forge_dsio.Dataset.Channel.{Channel, ChannelLaws}
use forge_dsio.Dataset.Batches.{
  Batch, Answer, Source, Worker, reading, sending, Caller, calling, returning, System, put, started,
  after_read, after_call, after_return, after_close, Turn, take_buffer, free_ended, read_batch,
  read_fails, keep_error, end_stream, send_batch, ready_refused, get_batch, ready_ended, call,
  give_back, free_refused, close_free, close_ready, check_error,
}
use forge_dsio.Dataset.Batches.Start.{empty_batch, started-Fed}

-- A read stays within its buffer.
abbrev pub IsBounded : {S : Type 0} → Source S → Type 0
IsBounded {S} read = (n : ℕ) (s t : S) (got : Bytes) → read n s ≡ some (ok got, t) → length got ≤ n

abbrev pub HasSize : ℕ → Batch → Type 0
HasSize n b = length b.bytes ≡ n

abbrev pub AllSized : ℕ → List Batch → Type 0
AllSized n [] = Unit
AllSized n (b ∷ bs) = HasSize n b × AllSized n bs

abbrev pub WorkerSized : ℕ → Worker → Type 0
WorkerSized n (reading b) = HasSize n b
WorkerSized n (sending b) = HasSize n b
WorkerSized n _ = Unit

abbrev pub CallerSized : ℕ → Caller → Type 0
CallerSized n (calling b) = HasSize n b
CallerSized n (returning _ b) = HasSize n b
CallerSized n _ = Unit

AllSized-append :
    (n : ℕ) (bs cs : List Batch) → AllSized n bs → AllSized n cs → AllSized n (bs ++ cs)
AllSized-append n [] cs p q = q
AllSized-append n (b ∷ bs) cs p q = (p.0, AllSized-append n bs cs p.1 q)

AllSized-replicate : (n k : ℕ) → AllSized n (replicate k (empty_batch n))
AllSized-replicate n zero = tt
AllSized-replicate n (suc k) = (length-replicate n 0, AllSized-replicate n k)

put-HasSize :
    (n : ℕ) (b : Batch) (got : Bytes) → length got ≤ n → HasSize n b → HasSize n (put got b)
put-HasSize n b got h p =
    omega
      (arith, h, p, length-append got (drop (length got) b.bytes), length-drop (length got) b.bytes)

after_read-WorkerSized :
    (n : ℕ) (b : Batch) (got : Bytes)
    → length got ≤ n
    → HasSize n b
    → WorkerSized n (after_read got b)
unfolding after_read
after_read-WorkerSized n b got h p = ground (arith, put-HasSize n b got h p)

-- A buffer more at the end.
AllSized-snoc :
    (n : ℕ) (b : Batch) (bs cs : List Batch)
    → AllSized n bs
    → HasSize n b
    → cs ≡ bs ++ b ∷ []
    → AllSized n cs
AllSized-snoc n b bs cs p h q = subst (AllSized n) (sym q) (AllSized-append n bs (b ∷ []) p (h, tt))

module _ {S K C : Type 0} (channel : Channel Batch C) (laws : ChannelLaws channel) where
  open laws use {contents}

  pub record Sizes (n : ℕ) (s : System S K C) : Type 0 where
    pub of_free : AllSized n (contents s.free)
    pub of_ready : AllSized n (contents s.ready)
    pub of_worker : WorkerSized n s.worker
    pub of_caller : CallerSized n s.caller

  module _ {read : Source S} {callback : Bytes → K → Answer × K} (bounded : IsBounded read) where
    pub Turn-Sizes :
        (n : ℕ) {s t : System S K C} → Turn channel read callback s t → Sizes n s → Sizes n t
    unfolding after_call after_return after_close
    Turn-Sizes n {s} (take_buffer {b} {c} w q) h =
        let p = subst (AllSized n) (laws.on_received b s.free c q).0 h.of_free in
        record { of_free = p.1; of_ready = h.of_ready; of_worker = p.0; of_caller = h.of_caller }
    Turn-Sizes n (free_ended w q) h = record {
      of_free = h.of_free;
      of_ready = h.of_ready;
      of_worker = tt;
      of_caller = h.of_caller;
    }
    Turn-Sizes n {s} (read_batch {b} {got} {next} w q) h =
        let p = subst (WorkerSized n) w h.of_worker in
        record {
          of_free = h.of_free;
          of_ready = h.of_ready;
          of_worker = after_read-WorkerSized n b got (omega (arith, p, bounded _ _ _ _ q)) p;
          of_caller = h.of_caller;
        }
    Turn-Sizes n (read_fails w q) h = record {
      of_free = h.of_free;
      of_ready = h.of_ready;
      of_worker = tt;
      of_caller = h.of_caller;
    }
    Turn-Sizes n (keep_error w) h = record {
      of_free = h.of_free;
      of_ready = h.of_ready;
      of_worker = tt;
      of_caller = h.of_caller;
    }
    Turn-Sizes n {s} (end_stream w) h = record {
      of_free = h.of_free;
      of_ready = subst (AllSized n) (sym (laws.on_close s.ready).0) h.of_ready;
      of_worker = tt;
      of_caller = h.of_caller;
    }
    Turn-Sizes n {s} (send_batch {b} {c} w q) h = record {
      of_free = h.of_free;
      of_ready =
          AllSized-snoc n b (contents s.ready) (contents c) h.of_ready
            (subst (WorkerSized n) w h.of_worker) (laws.on_sent b s.ready c q).0;
      of_worker = tt;
      of_caller = h.of_caller;
    }
    Turn-Sizes n (ready_refused w q) h = record {
      of_free = h.of_free;
      of_ready = h.of_ready;
      of_worker = tt;
      of_caller = h.of_caller;
    }
    Turn-Sizes n {s} (get_batch {b} {c} w q) h =
        let p = subst (AllSized n) (laws.on_received b s.ready c q).0 h.of_ready in
        record { of_free = h.of_free; of_ready = p.1; of_worker = h.of_worker; of_caller = p.0 }
    Turn-Sizes n (ready_ended w q) h = record {
      of_free = h.of_free;
      of_ready = h.of_ready;
      of_worker = h.of_worker;
      of_caller = tt;
    }
    Turn-Sizes n (call {b} {a} w q) h = ground (arith, h, w)
    Turn-Sizes n {s} (give_back {keep} {b} {c} w q) h = record {
      of_free =
          AllSized-snoc n b (contents s.free) (contents c) h.of_free
            (subst (CallerSized n) w h.of_caller) (laws.on_sent b s.free c q).0;
      of_ready = h.of_ready;
      of_worker = h.of_worker;
      of_caller = ground arith;
    }
    Turn-Sizes n (free_refused w q) h = record {
      of_free = h.of_free;
      of_ready = h.of_ready;
      of_worker = h.of_worker;
      of_caller = tt;
    }
    Turn-Sizes n {s} (close_free w) h = record {
      of_free = subst (AllSized n) (sym (laws.on_close s.free).0) h.of_free;
      of_ready = h.of_ready;
      of_worker = h.of_worker;
      of_caller = tt;
    }
    Turn-Sizes n {s} (close_ready {x} w) h = record {
      of_free = h.of_free;
      of_ready = subst (AllSized n) (sym (laws.on_close s.ready).0) h.of_ready;
      of_worker = h.of_worker;
      of_caller = ground arith;
    }
    Turn-Sizes n (check_error w) h = record {
      of_free = h.of_free;
      of_ready = h.of_ready;
      of_worker = h.of_worker;
      of_caller = tt;
    }

  pub started-Sizes :
      (options : BatchOptions) (source : S) (seen : K)
      → Sizes options.batch_bytes (started channel options source seen)
  unfolding started
  started-Sizes options source seen =
      let f = started-Fed channel laws options source seen in
      let n = options.batch_bytes in
      record {
        of_free = subst (AllSized n) (sym f.1) (AllSized-replicate n (suc options.prefetch));
        of_ready = subst (AllSized n) (sym f.0) tt;
        of_worker = tt;
        of_caller = tt;
      }
