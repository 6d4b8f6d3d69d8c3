-- ===== src/Lib.antt =====
-- dsio: direct storage I/O for ML data pipelines (C++20, Linux).
--
-- The program is a small stack of modules; each uses the ones below it:
--   dataset (for_each_batch)  shards read as one stream of batches, with a worker reading ahead
--   sink, shard, mmap         where bytes land; the list of byte ranges; read-only mappings
--   uring, thread_backend     batches of asynchronous reads: submit and reap
--   reader (DirectReader)     a file front to back in aligned chunks
--   file (File)               a descriptor with its alignment; positional reads and writes
--   align                     alignment arithmetic; the block size of a path
--
-- How the code corresponds to the files (paths from the repository's root):
--   Align      include/dsio/align.hpp, src/align.cpp: `is_aligned`, `align_up`, `align_down` with
--              their assertion (`none` is a failed one); Align/BlockSize: `block_size`.
--   File       include/dsio/file.hpp, src/file.cpp: `open_file`, `close`, the moves, `size`, `pread`
--              and `pread_exact`; File/Writing: `pwrite`, `pwrite_exact`, `sync`.
--   Backend    include/dsio/backend.hpp: requests, completions and the interface.
--   Backend/Thread   src/thread_backend.cpp: a queue of reads that workers run at any time (`work`).
--   Backend/Uring    src/uring.cpp: the same interface over the queues of liburing.
--   Backend/Factory  `open_thread_backend`, `open_uring_backend`, `open_backend`.
--   Shard      include/dsio/shard.hpp, src/shard.cpp: `Shard`, `ShardSet`; Shard/Text and Shard/Paths:
--              the text and path functions; Shard/Load, Shard/Save, Shard/Discover: the operations;
--              Shard/RoundTrip: `save`, and then `load`.
--   Reader     include/dsio/reader.hpp, src/reader.cpp: `open_whole`, `open_at`, `next_chunk`, `reset`.
--   Sink       include/dsio/sink.hpp, src/sink.cpp: the interface, host memory, `read_into`.
--   Mmap       include/dsio/mmap.hpp, src/mmap.cpp: `open_mmap`, `unmap`, the moves, `advise`.
--   Dataset    include/dsio/dataset.hpp, src/dataset.cpp: the class `ShardStream`; Dataset/Pipeline:
--              `fill_pipeline` and `await_front`; Dataset/Stream: `open_shard`, `close_shard`, `read`.
--              Dataset/Fitting: the sizes of buffers and requests.
--              A backend is the record `BackendOps` of include/dsio/backend.hpp.
--              Dataset/Batches: `for_each_batch`; the guards and the set-up are the function of that
--              name, the worker and the caller the relation `Turn`, whose steps are the operations on
--              a channel, the stream, the error and the callback. Dataset/Batches/Sequence is the loop
--              of one thread that it stands for. Dataset/Channel: the channels of ForgeFP.
--              Dataset/Content: what a stream stands before, the windows of its shards one behind the
--              other, and what the code relies on of a backend (`Serves`: completions come in any
--              order, each with an error or all bytes of the file at its offset) and of the system
--              (`Names`: which file a descriptor reads, and the sizes of its blocks).
--              Dataset/Batches/Streams and Finite join the two.
--              Dataset/Content/Threads is the thread backend as an instance of `Serves`.
--   Error      the messages of all parts, one constructor for each.
--   Os         the system calls as a parameter, what the code relies on of them (Os/Contract), the
--              retry after a signal (Os/Retry), and a small system for the examples (Os/Disk).
--   Prelude    lists, tests and 64-bit words over the native numbers.
--
-- A file's state is the record `File`; whatever an operation changes outside the program is the
-- state `W` that it takes and returns. `fp::Outcome` is `Outcome`, and a model that may run out of
-- its bound returns an Option.
--
-- Bounds: `rounds` bounds the retries of one call after a signal; the theorems ask for more rounds
-- than signals are pending, and then prove that the call returns. `pread_exact` and `pwrite_exact`
-- take one round more than the buffer has bytes, which is enough: each round moves a byte or ends
-- the loop. The loops of `ShardStream` have the bounds `rounds` (of `await_front`; more than the
-- depth is enough: each round takes a request out of flight) and `turns` (of `read`; the bytes of
-- the batch and twice the shards are enough, and two more: each turn moves bytes, opens a shard or
-- closes one). The loop of `fill_pipeline` has the depth, which is enough: each round adds an
-- entry. A printed number has at most twenty digits, which is enough for 64 bits.
--
-- A read past its buffer (a segment below a block, or an allocation that gives less than it is asked
-- for) is undefined in the source. The theorems on the stream ask for options and an allocation that
-- exclude it: there every request in flight fits its buffer.
--
-- Not modelled: the text of the messages beyond their arguments; tests and benchmarks. The packages
-- ForgeFP and liburing are outside the repository: a thread pool is the freedom of its workers, a
-- channel is the record `Channel` with its documented behaviour, the shuffle of a seed a function,
-- liburing is the record `Ring`, and the operating system the records `Os` and `Maps`.
mod Prelude
mod Error
pub mod Os
pub mod Align
pub mod File
pub mod Backend
pub mod Shard
pub mod Reader
pub mod Sink
pub mod Mmap
pub mod Dataset
