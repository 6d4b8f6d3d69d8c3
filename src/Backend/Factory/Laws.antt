-- ===== src/Backend/Factory/Laws.antt =====
-- What `open_backend` returns.
use forge_dsio.Prelude.{◌<◌, ◌≡◌, ◌⊎◌, Outcome, ok, err, [], true}
use forge_dsio.Error.{Error, thread_no_depth, thread_allocation, thread_system}
use forge_dsio.Backend.{BackendOptions}
use forge_dsio.Backend.Uring.{Ring}
use forge_dsio.Backend.Factory.{Made, bad_alloc, system_error, AnyBackend, io_uring, thread}

-- A fresh backend of the depth that was asked for, or the reason why there is none.
abbrev pub IsFresh : Made → BackendOptions → Outcome Error AnyBackend → Type 0
IsFresh m options (ok (io_uring b)) =
    (0 < options.queue_depth)
    × (b.depth ≡ options.queue_depth)
    × (b.in_flight ≡ 0)
    × (b.initialized ≡ true)
IsFresh m options (ok (thread b)) =
    (0 < options.queue_depth) × (b.depth ≡ options.queue_depth) × (b.pending ≡ []) × (0 < b.threads)
IsFresh m options (err e) =
    ((options.queue_depth ≡ 0) × (e ≡ thread_no_depth))
    ⊎ ((m ≡ bad_alloc) × (e ≡ thread_allocation))
    ⊎ ((m ≡ system_error) × (e ≡ thread_system))

module _ {R : Type 0} (ring : Ring R) (options : BackendOptions) where
  -- A ring that was set up, or an error that the caller drops.
  abbrev Started : Outcome Error AnyBackend → Type 0
  Started (ok (io_uring b)) =
      (0 < options.queue_depth)
      × (b.depth ≡ options.queue_depth)
      × (b.in_flight ≡ 0)
      × (b.initialized ≡ true)
  Started (ok (thread b)) = ⊥
  Started (err e) = Unit {0}

-- A ring that works is the result, and else the thread pool is asked.
abbrev pub Prefers :
    Outcome Error AnyBackend → Outcome Error AnyBackend → Outcome Error AnyBackend → Type 0
Prefers (ok b) other r = r ≡ ok b
Prefers (err e) other r = r ≡ other
