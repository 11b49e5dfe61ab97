-- ===== src/SnapshotFs/Filesystem/Ends.antt =====
-- Every operation of an inspection session ends on every image, and never looks outside a buffer.
use cloudable.Base.{
  includes, length-sort_by, ℕ, zero, suc, ◌+◌, ◌≤◌, ◌≡◌, refl, Bool, false, not, Option, none, some,
  List, [], ◌∷◌, ◌++◌, Text, Result, length, take, filter, nat_beq, arith, length-take-le,
}
use cloudable.SnapshotFs.{Failure, FsFailureReason, RangeReader}
use cloudable.SnapshotFs.Outcome.{
  Yields, gives, throws, Ends-bind, Ends-if, Ends-weaken, Anything, ReadsExactly,
}
use cloudable.SnapshotFs.Geometry.{Superblock, Inode, i_block_length, root_inode, read_inode}
use cloudable.SnapshotFs.Geometry.Bounds.{Plausible, read_inode-Read}
use cloudable.SnapshotFs.Extents.Walk.{read_extents-Ordered}
use cloudable.SnapshotFs.Extents.Runs.{read_file_range-Yields}
use cloudable.SnapshotFs.Directory.{DirectoryEntry}
use cloudable.SnapshotFs.Directory.Walk.{read_directory_ends}
use cloudable.SnapshotFs.Paths.{path_parts, all_but_last, split_slash}
use cloudable.SnapshotFs.Paths.Ends.{to_image_path-Yields}
use cloudable.SnapshotFs.Filesystem.{
  Libraries, FsEntry, FileResult, refuse_if, matched, is_symlink, contents_of, symlink_target,
  follow_link, link_path, resolve_parts, resolve, locate, entry_for, entries_for, is_named,
  list_directory, file_contents, read_file, max_symlink_depth, fs_max_inline_bytes,
  binary_sniff_bytes,
}

refuse_if-Yields :
    (refused : Bool) (reason : FsFailureReason)
    → Yields (λ _. refused ≡ false) (refuse_if refused reason)
refuse_if-Yields refused reason = Ends-if refused (λ _. throws tt) (λ e. gives e)

matched-Yields : (entry : Option DirectoryEntry) → Yields Anything (matched entry)
unfolding matched
matched-Yields none = throws tt
matched-Yields (some entry) = gives tt

-- An inode with its whole `i_block`.
abbrev Whole : Inode → Type 0
Whole inode = length inode.i_block ≡ i_block_length

module _ (lib : Libraries) (reader : RangeReader) (promise : ReadsExactly reader) (sb : Superblock)
    (plausible : Plausible sb) (large : 12 ≤ sb.descriptor_size) where
  any_inode : (number : ℕ) → Yields Whole (read_inode reader sb number)
  any_inode number =
      Ends-weaken (read_inode-Read reader sb number promise plausible large)
        λ inode is. is.whole_i_block

  contents_of-Yields :
      (inode : Inode) (n : ℕ)
      → Whole inode
      → Yields (λ bytes. length bytes ≡ n) (contents_of lib reader sb inode n)
  unfolding contents_of
  contents_of-Yields inode n whole =
      Ends-if (nat_beq n 0) (λ e. gives (ground arith))
        λ _.
          Ends-if (not inode.uses_extents) (λ _. throws tt)
            λ _.
              Ends-bind
                (read_extents-Ordered reader sb promise plausible 4096 inode.i_block (omega arith))
                λ extents _. read_file_range-Yields reader promise sb 0 n extents

  symlink_target-Yields :
      (inode : Inode) → Whole inode → Yields Anything (symlink_target lib reader sb inode)
  unfolding symlink_target
  symlink_target-Yields inode whole =
      Ends-bind
        (Ends-if {P = Anything} (nat_beq inode.blocks_512 0) (λ _. gives tt)
          (λ _. Ends-weaken (contents_of-Yields inode inode.size whole) (λ _ _. tt)))
        λ raw _. gives tt

  link_path-Yields :
      (parent_parts : List Text) (target : Text) (rest : Option Text)
      → Yields Anything (link_path lib reader sb parent_parts target rest)
  unfolding link_path
  link_path-Yields parent_parts target (some rest) = to_image_path-Yields lib.normalize target
  link_path-Yields parent_parts target none = gives tt

  follow_link-Yields :
      (inode : Inode) (parent_parts : List Text)
      → Whole inode
      → Yields Anything (follow_link lib reader sb inode parent_parts)
  unfolding follow_link
  follow_link-Yields inode parent_parts whole =
      Ends-bind (symlink_target-Yields inode whole)
        λ target _. link_path-Yields parent_parts target _

  resolve_parts-Yields :
      (again : Text → Result Failure Inode) (before parts : List Text) (current : Inode)
      → ((path : Text) → Yields Whole (again path))
      → Whole current
      → Yields Whole (resolve_parts lib reader sb again before parts current)
  unfolding resolve_parts
  resolve_parts-Yields again before [] current ends whole = gives whole
  resolve_parts-Yields again before (part ∷ parts) current ends whole =
      Ends-bind
        (Ends-if {P = Whole} (is_symlink current.kind)
          (λ _. Ends-bind (follow_link-Yields current before whole) λ target _. ends target)
          (λ _. gives whole))
        λ here whole'. Ends-bind (refuse_if-Yields _ _) λ _ _.
          Ends-bind
            (read_directory_ends lib.decode reader promise sb plausible none here (omega arith))
            λ listing _. Ends-bind (matched-Yields _) λ entry _.
              Ends-bind (any_inode entry.inode_number) λ next whole''.
                resolve_parts-Yields again (before ++ (part ∷ [])) parts next ends whole''

  resolve-Yields : (left : ℕ) (path : Text) → Yields Whole (resolve lib reader sb left path)
  unfolding resolve
  resolve-Yields zero path = throws tt
  resolve-Yields (suc left) path = Ends-bind (any_inode root_inode) λ root whole.
      resolve_parts-Yields (resolve lib reader sb left) [] (path_parts path) root
        (resolve-Yields left) whole

  locate-Yields : (path : Text) → Yields Whole (locate lib reader sb path)
  unfolding locate
  locate-Yields path = Ends-bind (resolve-Yields (suc max_symlink_depth) path) λ inode whole.
      Ends-if (is_symlink inode.kind)
        (λ _.
          Ends-bind (follow_link-Yields inode (all_but_last (split_slash path)) whole)
            λ target _. resolve-Yields (suc max_symlink_depth) target)
        (λ _. gives whole)

  -- A file's contents are as long as its inode says, and no longer than the operation allows.
  abbrev Sized : ℕ → FileResult → Type 0
  Sized most r = (length r.contents ≡ r.size_bytes) × (r.size_bytes ≤ most)

  file_contents-Yields :
      (path : Text) (most : ℕ) → Yields (Sized most) (file_contents lib reader sb path most)
  unfolding file_contents
  file_contents-Yields path most =
      Ends-bind (to_image_path-Yields lib.normalize path) λ image_path _.
        Ends-bind (locate-Yields image_path) λ inode whole. Ends-bind (refuse_if-Yields _ _) λ _ _.
          Ends-bind (refuse_if-Yields _ _) λ _ _. Ends-bind (refuse_if-Yields _ _) λ _ small.
            Ends-bind (contents_of-Yields inode inode.size whole) λ bytes size.
              gives
                {a = record {
                  path = _;
                  contents = bytes;
                  modified_at_seconds = _;
                  size_bytes = inode.size;
                }}
                (size, ground arith)

  -- Opening a file ends on every image, also where links lead in circles and the tree of the file's
  -- extents leads back into itself, and no byte outside a buffer is read: it gives the file's contents, as
  -- long as its inode says and at most a megabyte, with no zero byte among the first 8000, or an error
  -- that the code means to raise. The reader gives exactly what it is asked for, and the superblock is one
  -- that read_superblock accepts and has group descriptors of 12 bytes at least.
  pub read_file_ends :
      (path : Text)
      → Yields
          (λ r.
            (length r.contents ≡ r.size_bytes)
            × (r.size_bytes ≤ fs_max_inline_bytes)
            × (includes 0 (take binary_sniff_bytes r.contents) ≡ false))
          (read_file lib reader sb path)
  unfolding read_file
  read_file_ends path =
      Ends-bind (file_contents-Yields path fs_max_inline_bytes)
        λ result (size, small). Ends-bind (refuse_if-Yields _ _) λ _ text. gives (size, small, text)

  entries_for-Yields :
      (entries : List DirectoryEntry)
      → Yields (λ es. length es ≡ length entries) (entries_for lib reader sb entries)
  unfolding entries_for entry_for
  entries_for-Yields [] = gives refl
  entries_for-Yields (entry ∷ entries) =
      Ends-bind {P = Anything}
        (Ends-bind (any_inode entry.inode_number) λ inode whole.
          Ends-bind {P = Anything}
            (Ends-if (is_symlink inode.kind)
              (λ _. Ends-bind (symlink_target-Yields inode whole) λ text _. gives tt)
              (λ _. gives tt))
            λ target _. gives tt)
        λ first _. Ends-bind (entries_for-Yields entries) λ rest same. gives (omega arith)

  -- Listing a directory ends on every image, under the same conditions, and no byte outside a buffer is
  -- read: it gives at most `limit` entries or an error that the code means to raise.
  pub list_directory_ends :
      (path : Text) (limit : ℕ)
      → Yields (λ r. length r.entries ≤ limit) (list_directory lib reader sb path limit)
  unfolding list_directory
  list_directory_ends path limit =
      Ends-bind (to_image_path-Yields lib.normalize path) λ image_path _.
        Ends-bind (locate-Yields image_path) λ inode whole. Ends-bind (refuse_if-Yields _ _) λ _ _.
          Ends-bind
            (read_directory_ends lib.decode reader promise sb plausible (some (limit + 2)) inode
              (omega arith))
            λ listing _. Ends-bind (entries_for-Yields _) λ resolved same. gives (
              omega (
                arith,
                length-sort_by (λ (a b : FsEntry). lib.locale_le a.name b.name) resolved,
                length-take-le limit (filter (is_named lib reader sb) listing.entries),
              ))
