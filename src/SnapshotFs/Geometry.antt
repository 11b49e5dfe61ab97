-- ===== src/SnapshotFs/Geometry.antt =====
-- ext4/superblock.ts, ext4/group.ts and ext4/inode.ts: from the image's geometry to an inode.
-- The superblock's offset is a byte of the image, all others are offsets in what was read.
pub mod Bounds
use cloudable.Base.{
  ℕ, ◌+◌, ◌-◌, ◌*◌, ◌/◌, ◌%◌, ◌^◌, Bool, true, not, ◌&&◌, ◌||◌, Text, List, [], ◌∷◌, ◌++◌, Result,
  ok, err, nat_beq, ltb, leb, if◌then◌else◌,
}
use Prim.Native.Nat.{bit_and}
use cloudable.SnapshotFs.{◌>>=◌, Bytes, Failure, format_error, RangeReader}
use cloudable.SnapshotFs.Bytes.{slice, uint16, uint32}

abbrev pub has_bits : ℕ → ℕ → Bool
has_bits flags mask = not (nat_beq (bit_and flags mask) 0)

abbrev pub superblock_offset : ℕ
superblock_offset = 1024

abbrev pub superblock_length : ℕ
superblock_length = 1024

abbrev pub ext4_magic : ℕ
ext4_magic = 0xef53

abbrev pub incompat_filetype : ℕ
incompat_filetype = 0x0002

abbrev pub incompat_extents : ℕ
incompat_extents = 0x0040

abbrev pub incompat_64_bit : ℕ
incompat_64_bit = 0x0080

pub record Superblock : Type 0 where
  pub block_size : ℕ
  pub blocks_per_group : ℕ
  pub inodes_per_group : ℕ
  pub inode_size : ℕ
  pub inode_count : ℕ
  pub block_count : ℕ
  pub free_blocks : ℕ
  pub first_data_block : ℕ
  pub descriptor_size : ℕ
  pub has_64_bit : Bool
  pub has_extents : Bool
  pub has_filetype : Bool

-- A field that only some revisions of the format have, or what stands for it.
unfoldable pub optional : Bool → Result Failure ℕ → ℕ → Result Failure ℕ
optional present field otherwise = if present then field else ok otherwise

abbrev pub guard : Bool → Result Failure (Unit {0})
guard refused = if refused then err format_error else ok tt

abbrev pub descriptor_size_of : Bool → ℕ → ℕ
descriptor_size_of has_64_bit declared =
    if has_64_bit then (if nat_beq declared 0 then 64 else declared) else 32

pub read_superblock : RangeReader → Result Failure Superblock
unfolding optional
read_superblock reader = do
  view ← reader.read superblock_offset superblock_length
  magic ← uint16 view 0x38
  _ ← guard (not (nat_beq magic ext4_magic))
  log_block_size ← uint32 view 0x18
  _ ← guard (ltb 6 log_block_size)
  feature_incompat ← uint32 view 0x60
  declared_descriptor_size ← uint16 view 0xfe
  blocks_per_group ← uint32 view 0x20
  inodes_per_group ← uint32 view 0x28
  _ ← guard (nat_beq blocks_per_group 0 || nat_beq inodes_per_group 0)
  revision ← uint32 view 0x4c
  inode_size ← optional (not (nat_beq revision 0)) (uint16 view 0x58) 128
  _ ← guard (ltb inode_size 128 || ltb (1024 * 2 ^ log_block_size) inode_size)
  block_count_lo ← uint32 view 0x04
  block_count_hi ← optional (has_bits feature_incompat incompat_64_bit) (uint32 view 0x150) 0
  inode_count ← uint32 view 0x00
  free_blocks_hi ← optional (has_bits feature_incompat incompat_64_bit) (uint32 view 0x158) 0
  free_blocks_lo ← uint32 view 0x0c
  first_data_block ← uint32 view 0x14
  ok (record {
    block_size = 1024 * 2 ^ log_block_size;
    blocks_per_group = blocks_per_group;
    inodes_per_group = inodes_per_group;
    inode_size = inode_size;
    inode_count = inode_count;
    block_count = block_count_hi * 2 ^ 32 + block_count_lo;
    free_blocks = free_blocks_hi * 2 ^ 32 + free_blocks_lo;
    first_data_block = first_data_block;
    descriptor_size =
        descriptor_size_of (has_bits feature_incompat incompat_64_bit) declared_descriptor_size;
    has_64_bit = has_bits feature_incompat incompat_64_bit;
    has_extents = has_bits feature_incompat incompat_extents;
    has_filetype = has_bits feature_incompat incompat_filetype;
  })

-- The block where the inode table of a group starts.
unfoldable pub read_group_descriptor : RangeReader → Superblock → ℕ → Result Failure ℕ
unfolding optional
read_group_descriptor reader superblock group = do
  let table_start = (superblock.first_data_block + 1) * superblock.block_size
  view ← reader.read (table_start + group * superblock.descriptor_size) superblock.descriptor_size
  lo ← uint32 view 0x08
  hi ← optional (superblock.has_64_bit && leb 0x2c superblock.descriptor_size) (uint32 view 0x28) 0
  _ ← guard (nat_beq (hi * 2 ^ 32 + lo) 0 || leb superblock.block_count (hi * 2 ^ 32 + lo))
  ok (hi * 2 ^ 32 + lo)

abbrev pub root_inode : ℕ
root_inode = 2

abbrev pub s_ifmt : ℕ
s_ifmt = 0xf000

abbrev pub s_ifreg : ℕ
s_ifreg = 0x8000

abbrev pub s_ifdir : ℕ
s_ifdir = 0x4000

abbrev pub s_iflnk : ℕ
s_iflnk = 0xa000

abbrev pub extents_fl : ℕ
extents_fl = 0x80000

abbrev pub i_block_offset : ℕ
i_block_offset = 0x28

abbrev pub i_block_length : ℕ
i_block_length = 60

pub data InodeKind : Type 0 where
  file directory symlink other : InodeKind

pub record Inode : Type 0 where
  pub number : ℕ
  pub kind : InodeKind
  pub permissions : ℕ
  pub size : ℕ
  pub modified_at_seconds : ℕ
  pub uses_extents : Bool
  pub blocks_512 : ℕ
  pub i_block : Bytes

unfoldable pub kind_of : ℕ → InodeKind
kind_of mode =
    let format = bit_and mode s_ifmt in
    if nat_beq format s_ifreg
    then file
    else if nat_beq format s_ifdir
    then directory
    else if nat_beq format s_iflnk
    then symlink
    else other

unfoldable pub read_inode : RangeReader → Superblock → ℕ → Result Failure Inode
unfolding optional kind_of
read_inode reader superblock inode_number = do
  _ ← guard (ltb inode_number 1 || ltb superblock.inode_count inode_number)
  let index = inode_number - 1
  let within_group = index % superblock.inodes_per_group
  table ← read_group_descriptor reader superblock (index / superblock.inodes_per_group)
  view ←
      reader.read (table * superblock.block_size + within_group * superblock.inode_size)
        superblock.inode_size
  mode ← uint16 view 0x00
  flags ← uint32 view 0x20
  size_lo ← uint32 view 0x04
  size_hi ← optional (not (nat_beq (bit_and mode s_ifmt) s_ifdir)) (uint32 view 0x6c) 0
  modified_at_seconds ← uint32 view 0x10
  blocks_512 ← uint32 view 0x1c
  ok (record {
    number = inode_number;
    kind = kind_of mode;
    permissions = bit_and mode 0xfff;
    size = size_hi * 2 ^ 32 + size_lo;
    modified_at_seconds = modified_at_seconds;
    uses_extents = has_bits flags extents_fl;
    blocks_512 = blocks_512;
    i_block = slice i_block_offset i_block_length view;
  })

-- One character for each permission bit.
abbrev pub flag_char : ℕ → ℕ → ℕ → ℕ
flag_char bits mask char = if has_bits bits mask then char else 45

abbrev pub triplet : ℕ → Text
triplet bits = flag_char bits 4 114 ∷ flag_char bits 2 119 ∷ flag_char bits 1 120 ∷ []

pub format_permissions : ℕ → Text
format_permissions permissions =
    triplet (bit_and (permissions / 2 ^ 6) 7)
    ++ triplet (bit_and (permissions / 2 ^ 3) 7)
    ++ triplet (bit_and permissions 7)
