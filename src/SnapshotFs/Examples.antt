-- ===== src/SnapshotFs/Examples.antt =====
-- The reader on a small image, and on a disk with a link in its root directory.
use cloudable.Base.{
  includes, split_on, with_first, sort_by, insert_sorted, ◌+◌, ◌≤◌, ◌≡◌, refl, List, [], ◌∷◌, some,
  true, false, ok, err, length, take, leb, arith, All, Ordered,
}
use cloudable.SnapshotFs.{◌>>=◌, Bytes, read_error, fs_failure, io_error, RangeReader}
use cloudable.SnapshotFs.Bytes.{uint8, uint16, uint32, set_bytes}
use cloudable.SnapshotFs.Outcome.{Yields, Returns, Serves, image_read}
use cloudable.SnapshotFs.Readers.{of_option, of_length, file_range_reader}
use cloudable.SnapshotFs.Cache.Refinement.{session, session_refines_image}
use cloudable.SnapshotFs.Geometry.{optional, kind_of, read_group_descriptor, read_inode}
use cloudable.SnapshotFs.Extents.{
  Extent, read_header, extent_of, push_extent, follow_index, walk_entries, walk, read_extents,
  copy_run, read_run, read_runs, read_file_range,
}
use cloudable.SnapshotFs.Extents.Walk.{read_extents-Ordered}
use cloudable.SnapshotFs.Extents.Runs.{Holds}
use cloudable.SnapshotFs.Extents.Contents.{file_byte, read_file_range-bytes}
use cloudable.SnapshotFs.Directory.{
  kind_from_file_type, entry_at, record_at, read_records, read_directory_blocks, read_directory,
}
use cloudable.SnapshotFs.Directory.Walk.{WithinLimit, InUse, read_directory_ends}
use cloudable.SnapshotFs.Paths.{path_parts, after_prefix}
use cloudable.SnapshotFs.Filesystem.{
  contents_of, symlink_target, resolve, read_file, fs_max_inline_bytes, binary_sniff_bytes,
}
use cloudable.SnapshotFs.Filesystem.Ends.{read_file_ends}
use cloudable.SnapshotFs.Filesystem.RelativeLinks.{RootLink, relative_link_fails}
use cloudable.SnapshotFs.Disk.{
  geometry, disk, disk-ReadsExactly, disk-Plausible, root_inode_read, link_inode, libraries, path,
  link_entry,
}

abbrev image : Bytes
image = 10 ∷ 11 ∷ 12 ∷ 13 ∷ 14 ∷ 15 ∷ 16 ∷ 17 ∷ 18 ∷ 19 ∷ 20 ∷ 21 ∷ []

abbrev image_reader : RangeReader
image_reader = record { size = ok (length image); read = image_read image }

image_served : Serves image image_reader
image_served = record { whole = refl; part = λ offset n h. ground arith }

-- Three reads through a cache of one block of four bytes; the image ends before the third.
session_refines_image_example :
    ((session image_reader 4 1 ((2, 5) ∷ (3, 2) ∷ (9, 4) ∷ []) []).0
      ≡ ok (12 ∷ 13 ∷ 14 ∷ 15 ∷ 16 ∷ []) ∷ ok (13 ∷ 14 ∷ []) ∷ err read_error ∷ [])
    × (length (session image_reader 4 1 ((2, 5) ∷ (3, 2) ∷ (9, 4) ∷ []) []).1 ≤ 1)
session_refines_image_example =
    session_refines_image image image_reader image_served 4 1 (omega arith)
      ((2, 5) ∷ (3, 2) ∷ (9, 4) ∷ [])

-- Block 0 of the file lies in block 2 of the image, block 1 was never written, and block 2 is a hole.
abbrev runs : List Extent
runs =
    record { logical_block = 0; physical_block = 2; block_count = 1; uninitialised = false }
    ∷ record { logical_block = 1; physical_block = 0; block_count = 1; uninitialised = true }
    ∷ []

read_file_range-bytes_example :
    Returns
      (Holds 9 λ i. file_byte image 4 runs (2 + i) 0)
      (read_file_range image_reader (geometry 4) runs 2 9)
read_file_range-bytes_example =
    read_file_range-bytes image image_reader image_served (geometry 4) (omega arith) runs 2 9
      (λ _. omega arith, (λ _. omega arith, tt))

stale_block_hidden :
    read_file_range image_reader (geometry 4) runs 2 9
    ≡ ok (20 ∷ 21 ∷ 0 ∷ 0 ∷ 0 ∷ 0 ∷ 0 ∷ 0 ∷ 0 ∷ [])
unfolding read_file_range read_runs read_run copy_run set_bytes ◌>>=◌
stale_block_hidden = refl

read_extents-Ordered_example :
    Yields
      (Ordered (λ (a b : Extent). leb a.logical_block b.logical_block))
      (read_extents disk (geometry 1024) 4096 root_inode_read.i_block)
read_extents-Ordered_example =
    read_extents-Ordered disk (geometry 1024) disk-ReadsExactly disk-Plausible 4096
      root_inode_read.i_block (omega arith)

read_directory_ends_example :
    Yields
      (λ l. WithinLimit (some 3) l × All InUse l.entries)
      (read_directory libraries.decode disk (geometry 1024) (some 3) root_inode_read)
read_directory_ends_example =
    read_directory_ends libraries.decode disk disk-ReadsExactly (geometry 1024) disk-Plausible
      (some 3) root_inode_read (omega arith)

read_file_ends_example :
    Yields
      (λ r.
        (length r.contents ≡ r.size_bytes)
        × (r.size_bytes ≤ fs_max_inline_bytes)
        × (includes 0 (take binary_sniff_bytes r.contents) ≡ false))
      (read_file libraries disk (geometry 1024) path)
read_file_ends_example =
    read_file_ends libraries disk disk-ReadsExactly (geometry 1024) disk-Plausible (omega arith)
      path

disk_link : RootLink libraries disk (geometry 1024) (108 ∷ []) (116 ∷ [])
unfolding read_inode read_group_descriptor optional kind_of uint8 uint16 uint32 ◌>>=◌ of_option
    of_length file_range_reader read_directory read_directory_blocks read_records record_at entry_at
    kind_from_file_type read_extents walk walk_entries push_extent extent_of read_header
    follow_index read_file_range read_runs read_run copy_run set_bytes symlink_target contents_of
    after_prefix sort_by insert_sorted
disk_link = record {
  root = root_inode_read;
  listing = record { entries = link_entry ∷ []; truncated = false };
  entry = link_entry;
  inode = link_inode;
  root_read = refl;
  root_directory = refl;
  listed = refl;
  named = refl;
  link_read = refl;
  is_link = refl;
  points = refl;
  relative = refl;
}

relative_link_fails_example :
    resolve libraries disk (geometry 1024) 9 (108 ∷ 47 ∷ 120 ∷ []) ≡ err (fs_failure io_error)
unfolding path_parts split_on with_first after_prefix
relative_link_fails_example =
    relative_link_fails libraries disk (geometry 1024) (108 ∷ []) (116 ∷ []) disk_link refl 9
      (108 ∷ 47 ∷ 120 ∷ []) (120 ∷ []) [] refl
