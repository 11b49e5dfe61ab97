-- ===== src/SnapshotFs/Filesystem/Session.antt =====
-- `openExt4Filesystem`: the object that an inspection session talks to, with the errors it may tell.
use cloudable.Base.{
  ℕ, ◌*◌, ◌-◌, Option, none, some, or_default, Result, ok, err, Text, leb, if◌then◌else◌,
}
use cloudable.SnapshotFs.{◌>>=◌, Bytes, Failure, fs_failure, FsFailureReason, io_error, RangeReader}
use cloudable.SnapshotFs.Geometry.{Superblock, read_superblock}
use cloudable.SnapshotFs.Filesystem.{
  Libraries, ListResult, FileResult, list_directory, read_file, download,
}

abbrev pub fs_max_entries : ℕ
fs_max_entries = 10_000

-- A difference of two counts, which a corrupt superblock makes negative.
pub data Difference : Type 0 where
  surplus deficit : (amount : ℕ) → Difference

pub record Usage : Type 0 where
  pub total_bytes : ℕ
  pub used_bytes : Difference

pub usage_of : Superblock → Usage
usage_of superblock = record {
  total_bytes = superblock.block_count * superblock.block_size;
  used_bytes =
      if leb superblock.free_blocks superblock.block_count
      then surplus ((superblock.block_count - superblock.free_blocks) * superblock.block_size)
      else deficit ((superblock.free_blocks - superblock.block_count) * superblock.block_size);
}

-- An error that is no FsFailure is told as an input/output error.
pub settle {ℓ} : {A : Type ℓ} → Result Failure A → Result FsFailureReason A
settle (ok a) = ok a
settle (err (fs_failure reason)) = err reason
settle (err Failure.read_error) = err io_error
settle (err Failure.format_error) = err io_error
settle (err Failure.range_error) = err io_error
settle (err Failure.out_of_fuel) = err io_error

-- What `download` answers with: the bytes come beside the result, if they were read.
pub record Download : Type 0 where
  pub result : Result FsFailureReason FileResult
  pub bytes : Option Bytes

pub with_bytes : Result FsFailureReason FileResult → Download
with_bytes (ok r) = record { result = ok r; bytes = some r.contents }
with_bytes (err reason) = record { result = err reason; bytes = none }

pub record SnapshotFilesystem : Type 0 where
  pub usage : Usage
  pub list : Text → Option ℕ → Result FsFailureReason ListResult
  pub read : Text → Result FsFailureReason FileResult
  pub fetch : Text → Download

pub open_ext4_filesystem : Libraries → RangeReader → Result Failure SnapshotFilesystem
unfolding usage_of settle with_bytes
open_ext4_filesystem lib reader = do
  superblock ← read_superblock reader
  ok (record {
    usage = usage_of superblock;
    list = λ path limit.
        settle (list_directory lib reader superblock path (or_default limit fs_max_entries));
    read = λ path. settle (read_file lib reader superblock path);
    fetch = λ path. with_bytes (settle (download lib reader superblock path));
  })
