-- ===== src/Sink.antt =====
-- include/dsio/sink.hpp and src/sink.cpp: where read bytes land.
pub mod Laws
mod Examples
use mathlib.Core.Option
use forge_dsio.Prelude.{
  ℕ, ◌-◌, ◌%◌, ◌==◌, if◌then◌else◌, Bool, true, false, Option, none, some, ◌++◌, length, take, drop,
  Outcome, ok, err,
}
use forge_dsio.Error.{Error, sink_no_device, sink_too_small, device_sink_missing}
use forge_dsio.Os.{Os}
use forge_dsio.File.{File, Bytes, Transfer, pread_exact}

pub data MemoryKind : Type 0 where
  host device : MemoryKind

-- The virtual functions of `Sink`, over the state `S` of a sink. `put` is how the bytes of its region
-- are changed through the span that `region` returns.
pub record SinkOps (S : Type 0) : Type 0 where
  pub region : S → Bytes
  pub put : Bytes → S → S
  pub kind : S → MemoryKind
  pub alignment : S → ℕ
  pub commit : ℕ → S → Outcome Error (Unit {0}) × S

pub record HostSink : Type 0 where
  pub region : Bytes
  pub alignment : ℕ

-- Host memory needs no synchronization.
unfoldable pub host_commit : ℕ → HostSink → Outcome Error (Unit {0}) × HostSink
host_commit bytes s = (ok tt, s)

unfoldable pub host_sink : SinkOps HostSink
unfolding host_commit
host_sink = record {
  region = λ s. s.region;
  put = λ bytes s. record s { region = bytes };
  kind = λ s. host;
  alignment = λ s. s.alignment;
  commit = host_commit;
}

-- `DSIO_WITH_CUFILE` is an option of the build.
unfoldable pub gpu_direct_available : Bool → Bool
gpu_direct_available with_cufile = with_cufile

-- There is no device sink in this build.
unfoldable pub open_device_sink : {S : Type 0} → ℕ → Outcome Error S
open_device_sink bytes = err device_sink_missing

module _ {W S : Type 0} (os : Os W) (sink : SinkOps S) where
  -- The result, the sink and the system after it.
  abbrev pub Into : Type 0
  Into = Outcome Error ℕ × S × W

  abbrev pub committed : ℕ → W → Outcome Error (Unit {0}) × S → Into
  committed got w (ok _, s) = (ok got, s, w)
  committed got w (err e, s) = (err e, s, w)

  -- The read bytes stand in front of the rest of the region, which the read does not touch.
  unfoldable pub after_read : ℕ → S → Transfer os → Into
  after_read aligned s (err e, bytes, w) =
      (err e, sink.put (bytes ++ drop aligned (sink.region s)) s, w)
  after_read aligned s (ok got, bytes, w) =
      committed got w (sink.commit got (sink.put (bytes ++ drop aligned (sink.region s)) s))

  unfoldable pub read_aligned : ℕ → File → ℕ → ℕ → S → W → Option Into
  unfolding after_read
  read_aligned rounds file offset aligned s w =
      if aligned == 0
      then some (err (sink_too_small (length (sink.region s)) file.alignment), s, w)
      else Option.map (after_read aligned s)
          (pread_exact os rounds file offset (take aligned (sink.region s)) w)

  -- `none` also where `region.size() % alignment` divides by an alignment of 0.
  unfoldable pub read_into : ℕ → File → ℕ → S → W → Option Into
  read_into rounds file offset s w = elim (sink.kind s) [
    | device ↦ some (err sink_no_device, s, w)
    | host ↦
        if file.alignment == 0
        then none
        else read_aligned rounds file offset
            (length (sink.region s) - length (sink.region s) % file.alignment) s w
  ]
