-- ===== src/SnapshotFs/Extents.antt =====
-- ext4/extents.ts: the extent tree of an inode, and the bytes of a file.
-- The recursion of the walk is on fuel. Ends of block runs are exclusive, so that a run of no blocks at
-- block 0, whose last block is -1 in the source, has a number too.
pub mod Walk
pub mod Runs
pub mod Contents
use cloudable.Base.{
  ℕ, zero, suc, ◌+◌, ◌-◌, ◌*◌, ◌/◌, ◌^◌, min, max, Bool, true, false, not, ◌||◌, List, [], ◌∷◌,
  ◌++◌, Result, ok, err, length, nat_beq, ltb, leb, if◌then◌else◌, sort_by,
}
use cloudable.SnapshotFs.{◌>>=◌, Bytes, Failure, out_of_fuel, RangeReader}
use cloudable.SnapshotFs.Bytes.{slice, drop, zeroes, uint16, uint32, set_bytes}
use cloudable.SnapshotFs.Geometry.{Superblock, guard}

abbrev pub extent_magic : ℕ
extent_magic = 0xf30a

abbrev pub extent_header_size : ℕ
extent_header_size = 12

abbrev pub extent_entry_size : ℕ
extent_entry_size = 12

abbrev pub uninitialised_length_limit : ℕ
uninitialised_length_limit = 32768

pub record Extent : Type 0 where
  pub logical_block : ℕ
  pub physical_block : ℕ
  pub block_count : ℕ
  pub uninitialised : Bool

pub record ExtentHeader : Type 0 where
  pub entries : ℕ
  pub depth : ℕ

unfoldable pub read_header : Bytes → Result Failure ExtentHeader
read_header view = do
  magic ← uint16 view 0
  _ ← guard (not (nat_beq magic extent_magic))
  entries ← uint16 view 2
  depth ← uint16 view 6
  ok (record { entries = entries; depth = depth })

-- The variables that the walk shares.
pub record WalkState : Type 0 where
  pub nodes_read : ℕ
  pub extents : List Extent

unfoldable pub extent_of : ℕ → ℕ → ℕ → ℕ → Extent
extent_of logical raw_length high low =
    let uninitialised = ltb uninitialised_length_limit raw_length in
    record {
      logical_block = logical;
      physical_block = high * 2 ^ 32 + low;
      block_count = if uninitialised then raw_length - uninitialised_length_limit else raw_length;
      uninitialised = uninitialised;
    }

-- An entry of a leaf.
unfoldable pub push_extent : Bytes → ℕ → WalkState → Result Failure WalkState
unfolding extent_of
push_extent node at st = do
  raw_length ← uint16 node (at + 4)
  logical ← uint32 node at
  high ← uint16 node (at + 6)
  low ← uint32 node (at + 8)
  ok (record st { extents = st.extents ++ (extent_of logical raw_length high low ∷ []) })

-- The block behind the last one that a read touches.
abbrev pub end_block : ℕ → ℕ → ℕ → ℕ
end_block block_size offset n =
    if nat_beq (offset + n) 0 then 0 else (offset + n - 1) / block_size + 1

unfoldable pub copy_run : ℕ → ℕ → ℕ → Bytes → Bytes → Result Failure Bytes
copy_run run_file_offset offset n run_bytes out =
    let copy_from = max 0 (offset - run_file_offset) in
    let copy_to = min (length run_bytes) (offset + n - run_file_offset) in
    if leb copy_to copy_from
    then ok out
    else set_bytes out (slice copy_from (copy_to - copy_from) run_bytes)
        (run_file_offset + copy_from - offset)

module _ (reader : RangeReader) (superblock : Superblock) where
  -- An entry of an inner node; `visit` is the walk of a child.
  unfoldable pub follow_index :
      (Bytes → WalkState → Result Failure WalkState)
      → Bytes
      → ℕ
      → WalkState
      → Result Failure WalkState
  follow_index visit node at st = do
    high ← uint16 node (at + 8)
    low ← uint32 node (at + 4)
    _ ← guard (nat_beq (high * 2 ^ 32 + low) 0 || leb superblock.block_count (high * 2 ^ 32 + low))
    child ← reader.read ((high * 2 ^ 32 + low) * superblock.block_size) superblock.block_size
    visit child st

  -- The entries of a node from the `i`-th on.
  unfoldable pub walk_entries :
      (Bytes → WalkState → Result Failure WalkState)
      → Bytes
      → ℕ
      → (remaining i : ℕ) → WalkState
      → Result Failure WalkState
  unfolding push_extent follow_index
  walk_entries visit node depth zero i st = ok st
  walk_entries visit node depth (suc n) i st = do
    st' ←
        (if nat_beq depth 0
          then push_extent node (extent_header_size + i * extent_entry_size) st
          else follow_index visit node (extent_header_size + i * extent_entry_size) st)
    walk_entries visit node depth n (i + 1) st'

  unfoldable pub walk : (max_nodes fuel : ℕ) → Bytes → WalkState → Result Failure WalkState
  unfolding read_header walk_entries
  walk max_nodes zero node st = err out_of_fuel
  walk max_nodes (suc fuel) node st = do
    _ ← guard (ltb max_nodes (st.nodes_read + 1))
    header ← read_header node
    _ ← guard (
        ltb (length node) extent_header_size
        || ltb ((length node - extent_header_size) / extent_entry_size) header.entries)
    walk_entries (walk max_nodes fuel) node header.depth header.entries 0
        (record st { nodes_read = st.nodes_read + 1 })

  -- One round of fuel for each node that may be read, and one to refuse the next.
  unfoldable pub read_extents : ℕ → Bytes → Result Failure (List Extent)
  unfolding walk
  read_extents max_nodes i_block = do
    st ← walk max_nodes (suc max_nodes) i_block (record { nodes_read = 0; extents = [] })
    ok (sort_by (λ a b. leb a.logical_block b.logical_block) st.extents)

  -- The part of one extent that a read of `n` bytes at `offset` asks for.
  unfoldable pub read_run : ℕ → ℕ → Extent → Bytes → Result Failure Bytes
  unfolding copy_run
  read_run offset n extent out =
      let from = max extent.logical_block (offset / superblock.block_size) in
      let until =
        min (extent.logical_block + extent.block_count)
          (end_block superblock.block_size offset n) in
      if extent.uninitialised || leb until from then ok out else (do
        run_bytes ←
            reader.read
              ((extent.physical_block + (from - extent.logical_block)) * superblock.block_size)
              ((until - from) * superblock.block_size)
        copy_run (from * superblock.block_size) offset n run_bytes out)

  unfoldable pub read_runs : ℕ → ℕ → List Extent → Bytes → Result Failure Bytes
  unfolding read_run
  read_runs offset n [] out = ok out
  read_runs offset n (extent ∷ extents) out = do
    out' ← read_run offset n extent out
    read_runs offset n extents out'

  unfoldable pub read_file_range : List Extent → ℕ → ℕ → Result Failure Bytes
  unfolding read_runs
  read_file_range extents offset n = read_runs offset n extents (zeroes n)
