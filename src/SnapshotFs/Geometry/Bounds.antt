-- ===== src/SnapshotFs/Geometry/Bounds.antt =====
-- No field of the superblock, of a group descriptor or of an inode is read outside what was fetched.
use cloudable.Base.{ℕ, ◌≤◌, ◌<◌, ◌≡◌, refl, Bool, true, false, ◌&&◌, Result, length, arith, leb}
use cloudable.SnapshotFs.{Failure, RangeReader}
use native.Mathlib.Nat.{one-le-pow}
use cloudable.SnapshotFs.Bytes.{length-slice}
use cloudable.SnapshotFs.Outcome.{
  Yields, gives, throws, Anything, Ends-bind, Ends-if, ReadsExactly, uint16-Yields, uint32-Yields,
}
use cloudable.SnapshotFs.Geometry.{
  i_block_offset, Superblock, guard, optional, read_superblock, read_group_descriptor, Inode,
  read_inode, i_block_length,
}

-- The geometry that the superblock's own checks leave.
pub record Plausible (sb : Superblock) : Type 0 where
  pub least_block : 1024 ≤ sb.block_size
  pub inode_holds_fields : 128 ≤ sb.inode_size
  pub inode_in_block : sb.inode_size ≤ sb.block_size
  pub some_inodes : 0 < sb.inodes_per_group
  pub some_blocks : 0 < sb.blocks_per_group

pub guard-Yields : (refused : Bool) → Yields (λ _. refused ≡ false) (guard refused)
guard-Yields refused = Ends-if refused (λ _. throws tt) (λ e. gives e)

pub optional-Yields :
    (present : Bool) (field : Result Failure ℕ) (otherwise : ℕ)
    → (present ≡ true → Yields Anything field)
    → Yields Anything (optional present field otherwise)
unfolding optional
optional-Yields present field otherwise h = Ends-if present h (λ _. gives tt)

pub read_superblock-Plausible :
    (reader : RangeReader) → ReadsExactly reader → Yields Plausible (read_superblock reader)
unfolding read_superblock
read_superblock-Plausible reader promise = Ends-bind (promise.exact _ _) λ view n.
    Ends-bind (uint16-Yields view 0x38 (omega arith)) λ magic _. Ends-bind (guard-Yields _) λ _ _.
      Ends-bind (uint32-Yields view 0x18 (omega arith)) λ log_block_size _.
        Ends-bind (guard-Yields _) λ _ _.
          Ends-bind (uint32-Yields view 0x60 (omega arith)) λ feature_incompat _.
            Ends-bind (uint16-Yields view 0xfe (omega arith)) λ declared _.
              Ends-bind (uint32-Yields view 0x20 (omega arith)) λ blocks_per_group _.
                Ends-bind (uint32-Yields view 0x28 (omega arith)) λ inodes_per_group _.
                  Ends-bind (guard-Yields _) λ _ groups.
                    Ends-bind (uint32-Yields view 0x4c (omega arith)) λ revision _.
                      Ends-bind (optional-Yields _ _ _ λ _. uint16-Yields view 0x58 (omega arith))
                        λ inode_size _. Ends-bind (guard-Yields _) λ _ inode.
                          Ends-bind (uint32-Yields view 0x04 (omega arith)) λ _ _.
                            Ends-bind
                              (optional-Yields _ _ _ λ _. uint32-Yields view 0x150 (omega arith))
                              λ _ _. Ends-bind (uint32-Yields view 0x00 (omega arith)) λ _ _.
                                Ends-bind
                                  (optional-Yields _ _ _
                                    λ _. uint32-Yields view 0x158 (omega arith))
                                  λ _ _. Ends-bind (uint32-Yields view 0x0c (omega arith)) λ _ _.
                                    Ends-bind (uint32-Yields view 0x14 (omega arith)) λ _ _.
                                      gives (record {
                                        least_block =
                                            omega
                                              (arith, one-le-pow log_block_size 2 (omega arith));
                                        inode_holds_fields = ground arith;
                                        inode_in_block = ground arith;
                                        some_inodes = ground arith;
                                        some_blocks = ground arith;
                                      })

pub read_group_descriptor-Yields :
    (reader : RangeReader) (sb : Superblock) (group : ℕ)
    → ReadsExactly reader
    → 12 ≤ sb.descriptor_size
    → Yields
        (λ block. (0 < block) × (block < sb.block_count))
        (read_group_descriptor reader sb group)
unfolding read_group_descriptor
read_group_descriptor-Yields reader sb group promise large = Ends-bind (promise.exact _ _) λ view n.
    Ends-bind (uint32-Yields view 0x08 (omega arith)) λ lo _.
      Ends-bind
        (optional-Yields (sb.has_64_bit && leb 0x2c sb.descriptor_size) _ _
          λ e. uint32-Yields view 0x28 (ground arith))
        λ hi _. Ends-bind (guard-Yields _) λ _ inside. gives (ground arith)

-- What an inode that was read is sure to be.
pub record Read (number : ℕ) (inode : Inode) : Type 0 where
  pub numbered : inode.number ≡ number
  pub whole_i_block : length inode.i_block ≡ i_block_length

-- Reading an inode by its number ends, on any image, with an inode of that number and its whole
-- `i_block`, or with an error that the code means to raise: every field lies in the bytes that were
-- read. The reader gives exactly what it is asked for, the superblock is one that read_superblock
-- accepts, and its group descriptors have 12 bytes at least, which read_superblock does not check.
pub read_inode-Read :
    (reader : RangeReader) (sb : Superblock) (number : ℕ)
    → ReadsExactly reader
    → Plausible sb
    → 12 ≤ sb.descriptor_size
    → Yields (Read number) (read_inode reader sb number)
unfolding read_inode
read_inode-Read reader sb number promise plausible large = Ends-bind (guard-Yields _) λ _ _.
    Ends-bind (read_group_descriptor-Yields reader sb _ promise large) λ table _.
      Ends-bind (promise.exact _ _) λ view n.
        let fields : 128 ≤ length view = omega (arith, plausible.inode_holds_fields) in
        Ends-bind (uint16-Yields view 0x00 (omega arith)) λ mode _.
          Ends-bind (uint32-Yields view 0x20 (omega arith)) λ flags _.
            Ends-bind (uint32-Yields view 0x04 (omega arith)) λ size_lo _.
              Ends-bind (optional-Yields _ _ _ λ _. uint32-Yields view 0x6c (omega arith))
                λ size_hi _. Ends-bind (uint32-Yields view 0x10 (omega arith)) λ modified _.
                  Ends-bind (uint32-Yields view 0x1c (omega arith)) λ blocks _. gives (record {
                    numbered = refl;
                    whole_i_block = length-slice i_block_offset i_block_length view (omega arith);
                  })
