-- ===== src/SnapshotFs/Filesystem.antt =====
-- ext4/filesystem.ts: lookup of a path, and the three operations of an inspection session.
-- Parameters: the decoding of bytes, `posix.normalize` and `posix.join`, and `localeCompare`. Times stay
-- seconds and contents stay bytes where the source formats them.
pub mod Ends
pub mod RelativeLinks
pub mod Session
use cloudable.Base.{
  same_text, includes, split_on, with_first, ℕ, zero, suc, ◌+◌, ◌*◌, ◌-◌, Bool, true, false, not,
  ◌&&◌, ◌||◌, Option, none, some, List, [], ◌∷◌, ◌++◌, Text, Result, ok, err, length, take, filter,
  find, nat_beq, ltb, leb, min, is_empty, if◌then◌else◌, sort_by,
}
use cloudable.SnapshotFs.{
  ◌>>=◌, Bytes, Failure, fs_failure, FsFailureReason, not_found, is_a_directory, not_a_directory,
  too_large, is_binary, io_error, RangeReader,
}
use cloudable.SnapshotFs.Bytes.{slice, drop}
use cloudable.SnapshotFs.Geometry.{
  Superblock, InodeKind, file, directory, symlink, other, Inode, root_inode, read_inode,
  format_permissions,
}
use cloudable.SnapshotFs.Extents.{read_extents, read_file_range}
use cloudable.SnapshotFs.Directory.{DirectoryEntry, is_directory, read_directory}
use cloudable.SnapshotFs.Paths.{
  slash, after_prefix, split_slash, join_slash, all_but_last, path_parts, to_image_path,
  to_machine_path, parent_image_path,
}

abbrev pub max_symlink_depth : ℕ
max_symlink_depth = 8

abbrev pub binary_sniff_bytes : ℕ
binary_sniff_bytes = 8000

abbrev pub fs_max_inline_bytes : ℕ
fs_max_inline_bytes = 1024 * 1024

abbrev pub fs_max_transfer_bytes : ℕ
fs_max_transfer_bytes = 50 * 1024 * 1024

pub record Libraries : Type 0 where
  pub decode : Bytes → Text
  pub normalize : Text → Text
  pub join : Text → Text → Text
  pub locale_le : Text → Text → Bool

pub record FsEntry : Type 0 where
  pub name : Text
  pub type : InodeKind
  pub size_bytes : ℕ
  pub modified_at_seconds : ℕ
  pub mode : Text
  pub symlink_target : Option Text

pub record ListResult : Type 0 where
  pub path : Text
  pub parent : Option Text
  pub entries : List FsEntry
  pub truncated : Bool

pub record FileResult : Type 0 where
  pub path : Text
  pub contents : Bytes
  pub modified_at_seconds : ℕ
  pub size_bytes : ℕ

abbrev pub is_symlink : InodeKind → Bool
is_symlink symlink = true
is_symlink _ = false

abbrev pub is_file : InodeKind → Bool
is_file file = true
is_file _ = false

abbrev pub refuse_if : Bool → FsFailureReason → Result Failure (Unit {0})
refuse_if refused reason = if refused then err (fs_failure reason) else ok tt

-- `.replace(/^\.\//, "")`.
abbrev pub without_dot : Text → Text
without_dot t = elim (after_prefix (46 ∷ slash ∷ []) t) [ some rest ↦ rest | none ↦ t ]

unfoldable pub matched : Option DirectoryEntry → Result Failure DirectoryEntry
matched none = err (fs_failure not_found)
matched (some entry) = ok entry

module _ (lib : Libraries) (reader : RangeReader) (superblock : Superblock) where
  unfoldable pub contents_of : Inode → ℕ → Result Failure Bytes
  contents_of inode n =
      if nat_beq n 0
      then ok []
      else if not inode.uses_extents
      then err (fs_failure io_error)
      else (do
        extents ← read_extents reader superblock 4096 inode.i_block
        read_file_range reader superblock extents 0 n)

  unfoldable pub symlink_target : Inode → Result Failure Text
  unfolding contents_of
  symlink_target inode = do
    raw ←
        (if nat_beq inode.blocks_512 0
          then ok (slice 0 (min inode.size (length inode.i_block)) inode.i_block)
          else contents_of inode inode.size)
    ok (lib.decode raw)

  -- An absolute target is a path of the machine, another one is looked up beside the link.
  pub link_path : List Text → (target : Text) → Option Text → Result Failure Text
  link_path parent_parts target (some rest) = to_image_path lib.normalize target
  link_path parent_parts target none =
      ok (without_dot (lib.normalize (lib.join (join_slash parent_parts) target)))

  pub follow_link : Inode → List Text → Result Failure Text
  unfolding link_path
  follow_link inode parent_parts = do
    target ← symlink_target inode
    link_path parent_parts target (after_prefix (slash ∷ []) target)

  -- The loop over the parts of a path; `before` are those it has passed, `again` looks up another path.
  pub resolve_parts :
      (Text → Result Failure Inode) → (before parts : List Text) → Inode → Result Failure Inode
  unfolding matched
  resolve_parts again before [] current = ok current
  resolve_parts again before (part ∷ parts) current = do
    here ←
        (if is_symlink current.kind
          then (do target ← follow_link current before; again target)
          else ok current)
    _ ← refuse_if (not (is_directory here.kind)) not_a_directory
    listing ← read_directory lib.decode reader superblock none here
    entry ← matched (find (λ e. same_text e.name part) listing.entries)
    next ← read_inode reader superblock entry.inode_number
    resolve_parts again (before ++ (part ∷ [])) parts next

  -- `left` lookups may still be nested: `depth` is `max_symlink_depth + 1 - left`.
  pub resolve : (left : ℕ) → Text → Result Failure Inode
  unfolding resolve_parts
  resolve zero image_path = err (fs_failure io_error)
  resolve (suc left) image_path = do
    root ← read_inode reader superblock root_inode
    resolve_parts (resolve left) [] (path_parts image_path) root

  -- What an operation works on: a link at the end of its path is followed once.
  pub locate : Text → Result Failure Inode
  unfolding resolve
  locate image_path = do
    inode ← resolve (suc max_symlink_depth) image_path
    if is_symlink inode.kind
        then (do
          target ← follow_link inode (all_but_last (split_slash image_path))
          resolve (suc max_symlink_depth) target)
        else ok inode

  pub entry_for : DirectoryEntry → Result Failure FsEntry
  unfolding symlink_target
  entry_for entry = do
    inode ← read_inode reader superblock entry.inode_number
    target ←
        (if is_symlink inode.kind
          then (do text ← symlink_target inode; ok (some text))
          else ok none)
    ok (record {
      name = entry.name;
      type = inode.kind;
      size_bytes = inode.size;
      modified_at_seconds = inode.modified_at_seconds;
      mode = format_permissions inode.permissions;
      symlink_target = target;
    })

  pub entries_for : List DirectoryEntry → Result Failure (List FsEntry)
  unfolding entry_for
  entries_for [] = ok []
  entries_for (entry ∷ entries) = do
    first ← entry_for entry
    rest ← entries_for entries
    ok (first ∷ rest)

  abbrev pub is_named : DirectoryEntry → Bool
  is_named e = not (same_text e.name (46 ∷ [])) && not (same_text e.name (46 ∷ 46 ∷ []))

  pub list_directory : Text → (limit : ℕ) → Result Failure ListResult
  unfolding locate entries_for
  list_directory path limit = do
    image_path ← to_image_path lib.normalize path
    inode ← locate image_path
    _ ← refuse_if (not (is_directory inode.kind)) not_a_directory
    listing ← read_directory lib.decode reader superblock (some (limit + 2)) inode
    resolved ← entries_for (take limit (filter is_named listing.entries))
    ok (record {
      path = to_machine_path image_path;
      parent = elim (parent_image_path image_path) [
        | some parent ↦ some (to_machine_path parent)
        | none ↦ none
      ];
      entries = sort_by (λ a b. lib.locale_le a.name b.name) resolved;
      truncated = listing.truncated || ltb limit (length (filter is_named listing.entries));
    })

  -- What `read` and `download` have in common.
  pub file_contents : Text → (most : ℕ) → Result Failure FileResult
  unfolding locate contents_of
  file_contents path most = do
    image_path ← to_image_path lib.normalize path
    inode ← locate image_path
    _ ← refuse_if (is_directory inode.kind) is_a_directory
    _ ← refuse_if (not (is_file inode.kind)) not_found
    _ ← refuse_if (ltb most inode.size) too_large
    bytes ← contents_of inode inode.size
    ok (record {
      path = to_machine_path image_path;
      contents = bytes;
      modified_at_seconds = inode.modified_at_seconds;
      size_bytes = inode.size;
    })

  pub read_file : Text → Result Failure FileResult
  unfolding file_contents
  read_file path = do
    result ← file_contents path fs_max_inline_bytes
    _ ← refuse_if (includes 0 (take binary_sniff_bytes result.contents)) is_binary
    ok result

  pub download : Text → Result Failure FileResult
  unfolding file_contents
  download path = file_contents path fs_max_transfer_bytes
