-- ===== src/SnapshotFs/Extents/Walk.antt =====
-- The walk of an extent tree ends on every image, also on one whose indices lead back into the tree.
use cloudable.Base.{
  ℕ, zero, suc, ◌+◌, ◌*◌, ◌≤◌, ◌<◌, ◌≡◌, [], Result, length, nat_beq, leb, arith, Ordered,
  sort_by-Ordered,
}
use cloudable.SnapshotFs.{Bytes, Failure, RangeReader}
use cloudable.SnapshotFs.Outcome.{
  Yields, gives, Ends-bind, Ends-weaken, Ends-if, ReadsExactly, uint16-Yields, uint32-Yields,
}
use cloudable.SnapshotFs.Geometry.{Superblock}
use cloudable.SnapshotFs.Geometry.Bounds.{Plausible, guard-Yields}
use cloudable.SnapshotFs.Extents.{
  Extent, WalkState, extent_header_size, extent_entry_size, read_header, push_extent, follow_index,
  walk_entries, walk, read_extents,
}

read_header-Yields : (view : Bytes) → 8 ≤ length view → Yields (λ h. Unit) (read_header view)
unfolding read_header
read_header-Yields view h = Ends-bind (uint16-Yields view 0 (omega arith)) λ _ _.
    Ends-bind (guard-Yields _) λ _ _.
      Ends-bind (uint16-Yields view 2 (omega arith))
        λ _ _. Ends-bind (uint16-Yields view 6 (omega arith)) λ _ _. gives tt

push_extent-Yields :
    (node : Bytes) (at : ℕ) (st : WalkState)
    → at + 12 ≤ length node
    → Yields (λ st'. st'.nodes_read ≡ st.nodes_read) (push_extent node at st)
unfolding push_extent
push_extent-Yields node at st h = Ends-bind (uint16-Yields node (at + 4) (omega arith)) λ _ _.
    Ends-bind (uint32-Yields node at (omega arith)) λ _ _.
      Ends-bind (uint16-Yields node (at + 6) (omega arith))
        λ _ _. Ends-bind (uint32-Yields node (at + 8) (omega arith)) λ _ _. gives (omega arith)

-- Nodes are only ever added to the count, and it does not pass the limit.
abbrev Counted : ℕ → ℕ → WalkState → Type 0
Counted max_nodes before st = (before ≤ st.nodes_read) × (st.nodes_read ≤ max_nodes)

module _ (reader : RangeReader) (sb : Superblock) (promise : ReadsExactly reader)
    (plausible : Plausible sb) (max_nodes : ℕ) where
  -- What a walk of a child is good for, once `before` nodes have been read.
  abbrev Visits : ℕ → (Bytes → WalkState → Result Failure WalkState) → Type 0
  Visits before visit =
      (child : Bytes) (st : WalkState)
      → 1024 ≤ length child
      → Counted max_nodes before st
      → Yields (Counted max_nodes st.nodes_read) (visit child st)

  follow_index-Yields :
      (visit : Bytes → WalkState → Result Failure WalkState) (before : ℕ) (node : Bytes) (at : ℕ)
      (st : WalkState)
      → Visits before visit
      → at + 12 ≤ length node
      → Counted max_nodes before st
      → Yields (Counted max_nodes st.nodes_read) (follow_index reader sb visit node at st)
  unfolding follow_index
  follow_index-Yields visit before node at st visits h c =
      Ends-bind (uint16-Yields node (at + 8) (omega arith)) λ high _.
        Ends-bind (uint32-Yields node (at + 4) (omega arith)) λ low _.
          Ends-bind (guard-Yields _) λ _ _.
            Ends-bind (promise.exact _ _)
              λ child n. visits child st (omega (arith, plausible.least_block)) c

  walk_entries-Yields :
      (visit : Bytes → WalkState → Result Failure WalkState) (before : ℕ) (node : Bytes)
      (depth remaining i : ℕ) (st : WalkState)
      → Visits before visit
      → 12 + (i + remaining) * 12 ≤ length node
      → Counted max_nodes before st
      → Yields
          (Counted max_nodes st.nodes_read)
          (walk_entries reader sb visit node depth remaining i st)
  unfolding walk_entries
  walk_entries-Yields visit before node depth zero i st visits h c = gives (omega arith)
  walk_entries-Yields visit before node depth (suc n) i st visits h c =
      Ends-bind
        (Ends-if (nat_beq depth 0)
          (λ _.
            Ends-weaken
              (push_extent-Yields node (extent_header_size + i * extent_entry_size) st
                (omega arith))
              (λ st' e. omega (arith, c, e)))
          (λ _.
            follow_index-Yields visit before node (extent_header_size + i * extent_entry_size) st
              visits (omega arith) c))
        λ st' c'.
          Ends-weaken
            (walk_entries-Yields visit before node depth n (i + 1) st' visits (omega arith)
              (omega arith))
            (λ st'' c''. omega arith)

  walk-Yields :
      (fuel : ℕ) (node : Bytes) (st : WalkState)
      → 8 ≤ length node
      → max_nodes < fuel + st.nodes_read
      → st.nodes_read ≤ max_nodes
      → Yields (Counted max_nodes st.nodes_read) (walk reader sb max_nodes fuel node st)
  unfolding walk
  walk-Yields zero node st h hf hs = absurd (omega arith)
  walk-Yields (suc fuel) node st h hf hs = Ends-bind (guard-Yields _) λ _ few.
      Ends-bind (read_header-Yields node h) λ header _. Ends-bind (guard-Yields _) λ _ room.
        Ends-weaken
          (walk_entries-Yields (walk reader sb max_nodes fuel) (st.nodes_read + 1) node header.depth
            header.entries 0 (record st { nodes_read = st.nodes_read + 1 })
            (λ child st' hc c. walk-Yields fuel child st' (omega arith) (omega arith) (omega arith))
            (ground arith) (ground arith))
          (λ st' c'. omega arith)

  -- Whatever the blocks of the image hold, also where they lead back into the tree, the walk ends and
  -- reads no more nodes than it is allowed, and no field outside the bytes of a node: it gives extents in
  -- the order of the file or an error that the code means to raise. The reader gives exactly what it is
  -- asked for, the superblock is one that read_superblock accepts, and `i_block` is a whole one.
  pub read_extents-Ordered :
      (i_block : Bytes)
      → 8 ≤ length i_block
      → Yields
          (Ordered (λ (a b : Extent). leb a.logical_block b.logical_block))
          (read_extents reader sb max_nodes i_block)
  unfolding read_extents
  read_extents-Ordered i_block h =
      Ends-bind
        (walk-Yields (suc max_nodes) i_block (record { nodes_read = 0; extents = [] }) h
          (omega arith) (omega arith))
        λ st _. gives (
          sort_by-Ordered (λ (a b : Extent). leb a.logical_block b.logical_block)
            (λ a b e. ground arith) (λ a b c e f. ground arith) st.extents)
