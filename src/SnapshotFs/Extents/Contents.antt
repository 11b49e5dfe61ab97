-- ===== src/SnapshotFs/Extents/Contents.antt =====
-- What a file holds, byte by byte, and that `readFileRange` returns just this.
use cloudable.Base.{
  ℕ, ◌+◌, ◌-◌, ◌*◌, ◌/◌, ◌%◌, ◌≤◌, ◌<◌, ◌≡◌, refl, ap, ◌∙◌, min, max, Bool, false, not, ◌&&◌, ◌||◌,
  List, [], ◌∷◌, length, ltb, leb, if◌then◌else◌, arith, All,
}
use native.Mathlib.Nat.{le-div_iff_mul-le}
use cloudable.SnapshotFs.{Bytes, RangeReader}
use cloudable.SnapshotFs.Bytes.{
  nth, slice, zeroes, nth-slice, length-slice, length-zeroes, nth-zeroes,
}
use cloudable.SnapshotFs.Outcome.{Ends-eq, Ends-weaken, Returns, gives, Ends-bind, Ends-if, Serves}
use cloudable.SnapshotFs.Geometry.{Superblock}
use cloudable.SnapshotFs.Extents.{Extent, end_block, read_run, read_runs, read_file_range}
use cloudable.SnapshotFs.Extents.Runs.{
  Holds, copy_run-Holds, in_run, read_blocks, blocks_to, if_same, place, run_fits,
}

-- The extent says where the block of a file is, and that it was written.
abbrev pub covers : Extent → ℕ → Bool
covers e block =
    not e.uninitialised && leb e.logical_block block && ltb block (e.logical_block + e.block_count)

-- The byte at `position` of a file, where `otherwise` is what a hole holds: of two extents for a block
-- the later one counts.
unfoldable pub file_byte : Bytes → ℕ → List Extent → (position otherwise : ℕ) → ℕ
file_byte image block_size [] position otherwise = otherwise
file_byte image block_size (e ∷ extents) position otherwise =
    let block = position / block_size in
    file_byte image block_size extents position (
      if covers e block
      then nth ((e.physical_block + (block - e.logical_block)) * block_size + position % block_size)
          image
      else otherwise)

-- The disk blocks of a written extent lie in the image.
abbrev pub InImage : Bytes → ℕ → Extent → Type 0
InImage image block_size e =
    e.uninitialised ≡ false → (e.physical_block + e.block_count) * block_size ≤ length image

-- For the blocks that a read touches, the part of the run that it asks for is all of the run.
covered :
    (e : Extent) (low high block : ℕ)
    → e.uninitialised ≡ false
    → low ≤ block
    → block < high
    → (leb (max e.logical_block low) block
        && ltb block (min (e.logical_block + e.block_count) high))
      ≡ covers e block
covered e low high block h lo hi = ground arith

module _ (image : Bytes) (reader : RangeReader) (serves : Serves image reader) (sb : Superblock)
    (positive : 0 < sb.block_size) where
  read_run-Holds :
      (offset n : ℕ) (e : Extent) (out : Bytes)
      → InImage image sb.block_size e
      → length out ≡ n
      → Returns
          (Holds n λ i.
            if covers e ((offset + i) / sb.block_size)
            then nth
                ((e.physical_block + ((offset + i) / sb.block_size - e.logical_block))
                    * sb.block_size
                  + (offset + i) % sb.block_size)
                image
            else nth i out)
          (read_run reader sb offset n e out)
  unfolding read_run
  read_run-Holds offset n e out inside len =
      let from = max e.logical_block (offset / sb.block_size) in
      let until = min (e.logical_block + e.block_count) (end_block sb.block_size offset n) in
      Ends-if (e.uninitialised || leb until from)
        (λ none_of.
          gives (len, λ i hi. ground (arith, read_blocks sb.block_size offset n i positive hi)))
        (λ some_of.
          let start = (e.physical_block + (from - e.logical_block)) * sb.block_size in
          let size = (until - from) * sb.block_size in
          let fits : start + size ≤ length image =
            run_fits e.physical_block e.logical_block e.block_count from until sb.block_size
              (length image) (ground arith) (ground arith) (ground arith) (inside (ground arith)) in
          let run = slice start size image in
          let run_length : length run ≡ size = length-slice start size image fits in
          let ends : from * sb.block_size + size ≡ until * sb.block_size =
            blocks_to from until sb.block_size (ground arith) in
          Ends-bind (Ends-eq (serves.part start size fits)) λ run' same_run. rw same_run (
            Ends-weaken (copy_run-Holds (from * sb.block_size) offset n run out len) (λ after held.
              (
                held.0,
                λ i hi.
                    held.1 i hi
                    ∙ (let p = offset + i in
                        let start_of = from * sb.block_size in
                        let (lo, hi') = read_blocks sb.block_size offset n i positive hi in
                        if_same (leb start_of p && ltb p (start_of + length run))
                          (covers e (p / sb.block_size)) (nth (p - start_of) run) _ (nth i out)
                          (ap (λ (t : ℕ). leb start_of p && ltb p t)
                              (ap (λ (t : ℕ). start_of + t) run_length ∙ ends)
                            ∙ in_run sb.block_size p from until positive
                            ∙ covered e (offset / sb.block_size) (end_block sb.block_size offset n)
                                (p / sb.block_size) (ground arith) lo hi')
                          (λ t.
                            nth-slice (p - start_of) start size image (ground (arith, run_length))
                            ∙ ap (λ (q : ℕ). nth q image)
                                (place e.physical_block e.logical_block from p sb.block_size
                                  (omega arith)
                                  ((le-div_iff_mul-le {x = from} {y = p} positive).1
                                    (ground arith))))),
              ))))

  read_runs-Holds :
      (offset n : ℕ) (extents : List Extent) (out : Bytes)
      → All (InImage image sb.block_size) extents
      → length out ≡ n
      → Returns
          (Holds n λ i. file_byte image sb.block_size extents (offset + i) (nth i out))
          (read_runs reader sb offset n extents out)
  unfolding read_runs file_byte
  read_runs-Holds offset n [] out inside len = gives (len, λ i hi. refl)
  read_runs-Holds offset n (e ∷ extents) out inside len =
      Ends-bind (read_run-Holds offset n e out inside.0 len) λ out' held.
        Ends-weaken (read_runs-Holds offset n extents out' inside.1 held.0) λ out'' held'. (
          held'.0,
          λ i hi.
              held'.1 i hi
              ∙ ap (λ (b : ℕ). file_byte image sb.block_size extents (offset + i) b) (held.1 i hi),
        )

  -- A read of `n` bytes of a file at any offset succeeds, and returns `n` bytes, each the byte that the
  -- file has there: the byte of the disk block that the last written extent for its block names, and zero
  -- where there is none, be it a hole or an extent that was never written. The image is served by its
  -- reader, blocks are not empty, and the disk blocks of the written extents lie in the image.
  pub read_file_range-bytes :
      (extents : List Extent) (offset n : ℕ)
      → All (InImage image sb.block_size) extents
      → Returns
          (Holds n λ i. file_byte image sb.block_size extents (offset + i) 0)
          (read_file_range reader sb extents offset n)
  unfolding read_file_range
  read_file_range-bytes extents offset n inside =
      Ends-weaken (read_runs-Holds offset n extents (zeroes n) inside (length-zeroes n)) λ out held.
        (
          held.0,
          λ i hi.
              held.1 i hi
              ∙ ap (λ (b : ℕ). file_byte image sb.block_size extents (offset + i) b)
                  (nth-zeroes i n),
        )
