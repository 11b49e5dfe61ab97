-- ===== src/SnapshotFs/Directory.antt =====
-- ext4/dir.ts: the entries of a directory. How a name's bytes become text is a parameter.
-- The walk of a block is on fuel; each of its records takes eight bytes at least.
pub mod Walk
use cloudable.Base.{
  ℕ, zero, suc, ◌+◌, ◌-◌, ◌*◌, ◌/◌, ◌%◌, Bool, true, false, not, ◌&&◌, ◌||◌, Option, none, some,
  List, [], ◌∷◌, ◌++◌, Text, Result, ok, err, length, is_empty, nat_beq, ltb, leb, if◌then◌else◌,
}
use cloudable.SnapshotFs.{◌>>=◌, Bytes, Failure, out_of_fuel, RangeReader}
use cloudable.SnapshotFs.Bytes.{slice, drop, uint8, uint16, uint32}
use cloudable.SnapshotFs.Geometry.{
  Superblock, guard, InodeKind, file, directory, symlink, other, Inode,
}
use cloudable.SnapshotFs.Extents.{Extent, read_extents, read_file_range}

abbrev pub dirent_header_size : ℕ
dirent_header_size = 8

abbrev pub file_type_regular : ℕ
file_type_regular = 1

abbrev pub file_type_directory : ℕ
file_type_directory = 2

abbrev pub file_type_symlink : ℕ
file_type_symlink = 7

pub record DirectoryEntry : Type 0 where
  pub name : Text
  pub inode_number : ℕ
  pub kind_hint : Option InodeKind

pub record Listing : Type 0 where
  pub entries : List DirectoryEntry
  pub truncated : Bool

unfoldable pub kind_from_file_type : ℕ → InodeKind
kind_from_file_type value =
    if nat_beq value file_type_regular
    then file
    else if nat_beq value file_type_directory
    then directory
    else if nat_beq value file_type_symlink
    then symlink
    else other

-- No limit is the source's infinity.
abbrev pub reached : Option ℕ → List DirectoryEntry → Bool
reached none entries = false
reached (some limit) entries = leb limit (length entries)

abbrev pub is_directory : InodeKind → Bool
is_directory directory = true
is_directory _ = false

module _ (decode : Bytes → Text) (has_filetype : Bool) (limit : Option ℕ) (block : Bytes) where
  -- The entry that a record in use holds; a name that is empty or does not fit is passed over.
  unfoldable pub entry_at : (at inode_number : ℕ) → Result Failure (List DirectoryEntry)
  unfolding kind_from_file_type
  entry_at at inode_number = do
    name_length ← uint8 block (at + 6)
    type_byte ← uint8 block (at + 7)
    if ltb 0 name_length && leb (at + dirent_header_size + name_length) (length block)
        then ok (
            record {
              name = decode (slice (at + dirent_header_size) name_length block);
              inode_number = inode_number;
              kind_hint = if has_filetype then some (kind_from_file_type type_byte) else none;
            }
            ∷ [])
        else ok []

  -- A record with inode 0 is not in use.
  unfoldable pub record_at : (at inode_number : ℕ) → Result Failure (List DirectoryEntry)
  unfolding entry_at
  record_at at inode_number = if nat_beq inode_number 0 then ok [] else entry_at at inode_number

  unfoldable pub read_records : (fuel at : ℕ) → List DirectoryEntry → Result Failure Listing
  unfolding record_at
  read_records zero at entries =
      if leb (at + dirent_header_size) (length block)
      then err out_of_fuel
      else ok (record { entries = entries; truncated = false })
  read_records (suc fuel) at entries =
      if leb (at + dirent_header_size) (length block)
      then (do
        inode_number ← uint32 block at
        record_length ← uint16 block (at + 4)
        if ltb record_length dirent_header_size
              || not (nat_beq (record_length % 4) 0)
              || ltb (length block) (at + record_length)
            then ok (record { entries = entries; truncated = false })
            else (do
              added ← record_at at inode_number
              let rest = read_records fuel (at + record_length) (entries ++ added)
              if not (is_empty added) && reached limit (entries ++ added)
                  then ok (record { entries = entries ++ added; truncated = true })
                  else rest))
      else ok (record { entries = entries; truncated = false })

module _ (decode : Bytes → Text) (reader : RangeReader) (superblock : Superblock)
    (limit : Option ℕ) where
  -- The blocks of the directory from `block_index` on.
  unfoldable pub read_directory_blocks :
      List Extent → (remaining block_index : ℕ) → List DirectoryEntry → Result Failure Listing
  unfolding read_records
  read_directory_blocks extents zero block_index entries =
      ok (record { entries = entries; truncated = false })
  read_directory_blocks extents (suc n) block_index entries = do
    block ←
        read_file_range reader superblock extents (block_index * superblock.block_size)
          superblock.block_size
    listing ← read_records decode superblock.has_filetype limit block (length block) 0 entries
    let rest = read_directory_blocks extents n (block_index + 1) listing.entries
    if listing.truncated then ok listing else rest

  -- 4096 is the `maxNodes` that readExtents takes by default.
  unfoldable pub read_directory : Inode → Result Failure Listing
  unfolding read_directory_blocks
  read_directory inode = do
    _ ← guard (not (is_directory inode.kind))
    extents ← read_extents reader superblock 4096 inode.i_block
    read_directory_blocks extents ((inode.size + superblock.block_size - 1) / superblock.block_size)
        0 []
