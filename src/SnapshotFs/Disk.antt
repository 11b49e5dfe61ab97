-- ===== src/SnapshotFs/Disk.antt =====
-- A disk of 64 blocks for the examples: its root directory holds one link, "l", to the name "t".
use cloudable.Base.{
  ◌/◌, ◌%◌, ℕ, [], ◌∷◌, ◌++◌, Text, some, true, false, take, nat_beq, if◌then◌else◌, arith,
}
use cloudable.SnapshotFs.{Bytes, RangeReader}
use cloudable.SnapshotFs.Bytes.{drop, zeroes}
use cloudable.SnapshotFs.Outcome.{ReadsExactly}
use cloudable.SnapshotFs.Readers.{file_range_reader, file_range_reader-ReadsExactly}
use cloudable.SnapshotFs.Geometry.{Superblock, Inode, directory, symlink}
use cloudable.SnapshotFs.Geometry.Bounds.{Plausible}
use cloudable.SnapshotFs.Directory.{DirectoryEntry}
use cloudable.SnapshotFs.Filesystem.{Libraries}

abbrev pub geometry : ℕ → Superblock
geometry block_size = record {
  block_size = block_size;
  blocks_per_group = 8192;
  inodes_per_group = 16;
  inode_size = 128;
  inode_count = 16;
  block_count = 64;
  free_blocks = 3;
  first_data_block = 1;
  descriptor_size = 32;
  has_64_bit = false;
  has_extents = true;
  has_filetype = true;
}

-- Numbers of two and four bytes, little-endian.
abbrev le16 : ℕ → Bytes
le16 n = n % 256 ∷ n / 256 ∷ []

abbrev le32 : ℕ → Bytes
le32 n = le16 (n % 65536) ++ le16 (n / 65536)

-- An inode with one extent of one block.
abbrev pub root_bytes : Bytes
root_bytes =
    le16 0x41ed
    ++ le16 0
    ++ le32 1024
    ++ zeroes 20
    ++ le32 2
    ++ le32 0x80000
    ++ zeroes 4
    ++ (le16 0xf30a ++ le16 1 ++ le16 4 ++ le16 0 ++ le32 0)
    ++ (le32 0 ++ le16 1 ++ le16 0 ++ le32 10)

-- A short target stands in the inode itself.
abbrev link_bytes : Bytes
link_bytes = le16 0xa1ff ++ le16 0 ++ le32 1 ++ zeroes 32 ++ (116 ∷ [])

abbrev entry_bytes : Bytes
entry_bytes = le32 12 ++ le16 1024 ++ (1 ∷ 7 ∷ 108 ∷ [])

abbrev disk_bytes : ℕ → Bytes
disk_bytes offset =
    if nat_beq offset 2048
    then zeroes 8 ++ le32 5
    else if nat_beq offset 5248
    then root_bytes
    else if nat_beq offset 6528
    then link_bytes
    else if nat_beq offset 10240
    then entry_bytes
    else []

abbrev pub disk : RangeReader
disk = file_range_reader (some 65536) (λ offset n. some (take n (disk_bytes offset ++ zeroes n)))

pub disk-ReadsExactly : ReadsExactly disk
disk-ReadsExactly = file_range_reader-ReadsExactly _ _

pub disk-Plausible : Plausible (geometry 1024)
disk-Plausible = record {
  least_block = omega arith;
  inode_holds_fields = omega arith;
  inode_in_block = omega arith;
  some_inodes = omega arith;
  some_blocks = omega arith;
}

abbrev pub root_inode_read : Inode
root_inode_read = record {
  number = 2;
  kind = directory;
  permissions = 0x1ed;
  size = 1024;
  modified_at_seconds = 0;
  uses_extents = true;
  blocks_512 = 2;
  i_block = take 60 (drop 40 (root_bytes ++ zeroes 128));
}

abbrev pub link_inode : Inode
link_inode = record {
  number = 12;
  kind = symlink;
  permissions = 0x1ff;
  size = 1;
  modified_at_seconds = 0;
  uses_extents = false;
  blocks_512 = 0;
  i_block = 116 ∷ zeroes 59;
}

abbrev pub libraries : Libraries
libraries = record {
  decode = λ bytes. bytes;
  normalize = λ path. path;
  join = λ a b. a ++ (47 ∷ b);
  locale_le = λ a b. true;
}

-- "/home/l/x"
abbrev pub path : Text
path = 47 ∷ 104 ∷ 111 ∷ 109 ∷ 101 ∷ 47 ∷ 108 ∷ 47 ∷ 120 ∷ []

abbrev pub link_entry : DirectoryEntry
link_entry = record { name = 108 ∷ []; inode_number = 12; kind_hint = some symlink }
