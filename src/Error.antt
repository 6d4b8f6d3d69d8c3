-- ===== src/Error.antt =====
-- The messages of `fp::error(...)` over include/dsio and src: one constructor for each message, with
-- what the message prints. A `code` is the `errno` value of the `std::error_code`.
use forge_dsio.Prelude.{ℕ, List}

-- Text, a path for example, by its bytes.
abbrev pub Text : Type 0
Text = List ℕ

pub data FileOp : Type 0 where
  size pread pwrite pwrite_exact sync : FileOp

pub data MmapOp : Type 0 where
  open_call stat_call mmap_call : MmapOp

pub data Error : Type 0 where
  block_size_open : Text → ℕ → Error
  block_size_statfs : Text → ℕ → Error
  file_open : Text → ℕ → Error
  file_closed : FileOp → Error
  file_error : FileOp → Text → ℕ → Error
  reader_misaligned : ℕ → ℕ → Error
  reader_past_end : ℕ → ℕ → Error
  reader_buffer : Text → Error
  sink_no_device : Error
  sink_too_small : ℕ → ℕ → Error
  device_sink_missing : Error
  thread_queue_full : Error
  thread_no_depth : Error
  thread_allocation : Error
  thread_system : Error
  uring_queue_full : Error
  uring_sqe_full : Error
  uring_submit : ℕ → Error
  uring_wait_cqe : ℕ → Error
  uring_no_depth : Error
  uring_allocation : Error
  uring_init : ℕ → Error
  manifest_open : Text → Error
  manifest_fields : Text → ℕ → Error
  manifest_empty_path : Text → ℕ → Error
  manifest_numbers : Text → ℕ → Error
  manifest_zero_length : Text → ℕ → Error
  manifest_misaligned : Text → ℕ → ℕ → ℕ → Error
  manifest_overflow : Text → ℕ → Error
  manifest_read : Text → Error
  save_open : Text → Error
  save_path : Text → Error
  save_write : Text → Error
  discover_directory : Text → Error
  discover_read : Text → ℕ → Error
  discover_stat : Text → ℕ → Error
  mmap_unaligned : Text → ℕ → Error
  mmap_error : MmapOp → Text → ℕ → Error
  mmap_past_end : Text → ℕ → ℕ → Error
  mmap_window : Text → ℕ → ℕ → Error
  advise_past_end : Error
  advise_unaligned : Error
  advise_error : ℕ → Error
  stream_allocation : Text → Error
  stream_reaped_nothing : Error
  stream_unknown_request : Error
  stream_read_failed : ℕ → Error
  batches_no_bytes : Error
  batches_no_prefetch : Error
  batches_no_depth : Error
