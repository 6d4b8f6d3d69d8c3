-- ===== src/Backend.antt =====
-- include/dsio/backend.hpp: requests, completions and the interface of a backend.
pub mod Thread
pub mod Uring
pub mod Factory
use forge_dsio.Prelude.{ℕ, List, Outcome}
use forge_dsio.Error.{Error}
use forge_dsio.File.{Bytes}

-- `dst` is given by its size: which bytes a read puts there comes with its completion.
pub record ReadRequest : Type 0 where
  pub offset : ℕ
  pub size : ℕ
  pub token : ℕ

-- `landed` are the bytes at the start of the request's `dst` once it is complete.
pub record Completion : Type 0 where
  pub token : ℕ
  pub bytes : ℕ
  pub error : ℕ
  pub landed : Bytes

pub record BackendOptions : Type 0 where
  pub queue_depth : ℕ
  pub threads : ℕ

-- The virtual functions of `Backend`, over the state `B` of a backend and the state `W` of the
-- system. `reap` takes the size of `out` and `min`.
pub record BackendOps (B W : Type 0) : Type 0 where
  pub in_flight : B → ℕ
  pub submit : List ReadRequest → B → W → Outcome Error (Unit {0}) × B × W
  pub reap : ℕ → ℕ → B → W → Outcome Error (List Completion) × B × W
