-- ===== src/Backend/Factory.antt =====
-- The factories of src/thread_backend.cpp and src/uring.cpp: io_uring where the kernel allows it, the
-- thread pool otherwise.
pub mod Laws
use forge_dsio.Prelude.{ℕ, ◌==◌, if◌then◌else◌, Bool, true, false, List, [], Outcome, ok, err}
use forge_dsio.Error.{
  Error, thread_no_depth, thread_allocation, thread_system, uring_no_depth, uring_allocation,
  uring_init,
}
use forge_dsio.Os.{Sys, done, failed}
use forge_dsio.Backend.{BackendOptions}
use forge_dsio.Backend.Thread.{ThreadBackend}
use forge_dsio.Backend.Uring.{Ring, UringBackend, init, destroy}

-- How `std::make_unique` of a backend ends: a thread that cannot be started is a `system_error`.
pub data Made : Type 0 where
  made bad_alloc system_error : Made

-- A pointer to a `Backend`, by the class of the object.
pub data AnyBackend : Type 0 where
  io_uring : UringBackend → AnyBackend
  thread : ThreadBackend → AnyBackend

unfoldable pub new_thread_backend : ℕ → BackendOptions → ThreadBackend
new_thread_backend fd options = record {
  fd = fd;
  depth = options.queue_depth;
  threads = (if options.threads == 0 then 2 else options.threads);
  pending = [];
}

unfoldable pub make_thread_backend : Made → ℕ → BackendOptions → Outcome Error AnyBackend
make_thread_backend made fd options = ok (thread (new_thread_backend fd options))
make_thread_backend bad_alloc fd options = err thread_allocation
make_thread_backend system_error fd options = err thread_system

unfoldable pub open_thread_backend : Made → ℕ → BackendOptions → Outcome Error AnyBackend
unfolding make_thread_backend new_thread_backend
open_thread_backend m fd options =
    if options.queue_depth == 0 then err thread_no_depth else make_thread_backend m fd options

abbrev pub new_uring_backend : ℕ → BackendOptions → UringBackend
new_uring_backend fd options = record {
  fd = fd;
  depth = options.queue_depth;
  in_flight = 0;
  initialized = false;
}

-- `if (uring.is_ok()) return uring;`, and else the thread pool: the error of io_uring is dropped.
unfoldable pub fall_back :
    Outcome Error AnyBackend → Outcome Error AnyBackend → Outcome Error AnyBackend
fall_back (ok b) other = ok b
fall_back (err _) other = other

module _ {R : Type 0} (ring : Ring R) where
  -- A failed `init` destroys the object again. Its constructor throws no `system_error`.
  unfoldable pub start : UringBackend → R → Outcome Error AnyBackend × R
  start b r =
      let (rc, b', r') = init ring b r in
      elim rc [
        | failed code ↦ (err (uring_init code), destroy ring b' r')
        | done _ ↦ (ok (io_uring b'), r')
      ]

  unfoldable pub make_uring_backend : Made → UringBackend → R → Outcome Error AnyBackend × R
  unfolding start
  make_uring_backend made b r = start b r
  make_uring_backend _ b r = (err uring_allocation, r)

  unfoldable pub open_uring_backend : Made → ℕ → BackendOptions → R → Outcome Error AnyBackend × R
  unfolding make_uring_backend
  open_uring_backend m fd options r =
      if options.queue_depth == 0
      then (err uring_no_depth, r)
      else make_uring_backend m (new_uring_backend fd options) r

  unfoldable pub open_backend : Made → Made → ℕ → BackendOptions → R → Outcome Error AnyBackend × R
  open_backend uring_made thread_made fd options r =
      let (uring, r') = open_uring_backend uring_made fd options r in
      (fall_back uring (open_thread_backend thread_made fd options), r')
