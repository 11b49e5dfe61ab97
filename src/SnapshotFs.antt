-- ===== src/SnapshotFs.antt =====
-- apps/control-plane/src/snapshot-fs: the reader of an ext4 file system in a disk image.
-- A reader is what range-reader.ts declares: it answers with bytes or fails. The image of a snapshot
-- does not change, so a reader is a function. Numbers are exact: the source's stay so below 2 ^ 53.
pub mod Bytes
pub mod Outcome
pub mod Readers
pub mod Cache
pub mod Geometry
pub mod Extents
pub mod Directory
pub mod Paths
pub mod Filesystem
mod Disk
mod Examples
use cloudable.Base.{ℕ, List, Result, ok, err}

abbrev pub Bytes : Type 0
Bytes = List ℕ

pub data FsFailureReason : Type 0 where
  not_found permission_denied not_a_directory is_a_directory too_large is_binary exists :
      FsFailureReason
  changed_on_disk invalid_path io_error : FsFailureReason

-- What the code throws. `range_error` is what a view or a typed array throws outside its bounds,
-- and `out_of_fuel` is no error of the source: a loop of the model ran out of rounds.
pub data Failure : Type 0 where
  read_error format_error range_error out_of_fuel : Failure
  fs_failure : FsFailureReason → Failure

pub record RangeReader : Type 0 where
  pub size : Result Failure ℕ
  pub read : (offset length : ℕ) → Result Failure Bytes

-- A step, and what follows it.
infixl 5 ◌>>=◌
unfoldable pub ◌>>=◌ {ℓ κ} :
    {A : Type ℓ} {B : Type κ} → Result Failure A → (A → Result Failure B) → Result Failure B
ok a >>= f = f a
err e >>= f = err e
