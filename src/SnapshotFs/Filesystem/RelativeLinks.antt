-- ===== src/SnapshotFs/Filesystem/RelativeLinks.antt =====
-- A link in the middle of a path: `followLink` is handed the parts up to the link with the link's own name.
use cloudable.Base.{
  same_text, ℕ, zero, suc, ◌≡◌, refl, ◌∙◌, none, some, List, [], ◌∷◌, Text, ok, err, find, Result,
  ◌++◌,
}
use cloudable.SnapshotFs.{◌>>=◌, Failure, fs_failure, io_error, RangeReader}
use cloudable.SnapshotFs.Geometry.{Superblock, directory, symlink, Inode, root_inode, read_inode}
use cloudable.SnapshotFs.Directory.{DirectoryEntry, Listing, read_directory}
use cloudable.SnapshotFs.Paths.{slash, after_prefix, path_parts, join_slash}
use cloudable.SnapshotFs.Filesystem.{
  Libraries, matched, without_dot, link_path, symlink_target, follow_link, resolve_parts, resolve,
}

-- A link in the root directory of the image, with a relative target.
pub record RootLink (lib : Libraries) (reader : RangeReader) (sb : Superblock) (link target : Text)
    : Type 0 where
  pub root : Inode
  pub listing : Listing
  pub entry : DirectoryEntry
  pub inode : Inode
  pub root_read : read_inode reader sb root_inode ≡ ok root
  pub root_directory : root.kind ≡ directory
  pub listed : read_directory lib.decode reader sb none root ≡ ok listing
  pub named : find (λ e. same_text e.name link) listing.entries ≡ some entry
  pub link_read : read_inode reader sb entry.inode_number ≡ ok inode
  pub is_link : inode.kind ≡ symlink
  pub points : symlink_target lib reader sb inode ≡ ok target
  pub relative : after_prefix (slash ∷ []) target ≡ none

module _ (lib : Libraries) (reader : RangeReader) (sb : Superblock)
    (again : Text → Result Failure Inode) (before : List Text) (part : Text) (parts : List Text)
    (current : Inode) where
  -- A part that a directory has.
  passed :
      (listing : Listing) (entry : DirectoryEntry) (next : Inode)
      → current.kind ≡ directory
      → read_directory lib.decode reader sb none current ≡ ok listing
      → find (λ e. same_text e.name part) listing.entries ≡ some entry
      → read_inode reader sb entry.inode_number ≡ ok next
      → resolve_parts lib reader sb again before (part ∷ parts) current
        ≡ resolve_parts lib reader sb again (before ++ (part ∷ [])) parts next
  unfolding resolve_parts matched ◌>>=◌
  passed listing entry next is_dir listed named read = simp is_dir (rw (listed, named, read) refl)

  -- A part behind a link that leads to a failing lookup.
  turned :
      (target : Text)
      → current.kind ≡ symlink
      → symlink_target lib reader sb current ≡ ok target
      → after_prefix (slash ∷ []) target ≡ none
      → again (without_dot (lib.normalize (lib.join (join_slash before) target)))
        ≡ err (fs_failure io_error)
      → resolve_parts lib reader sb again before (part ∷ parts) current ≡ err (fs_failure io_error)
  unfolding resolve_parts follow_link link_path ◌>>=◌
  turned target is_link points relative fails = simp is_link (rw (points, relative, fails) refl)

-- A path through a link in the image's root directory to a plain name cannot be looked up: the name is
-- looked up below the link itself, which leads to the link again until the depth is used up, and the
-- lookup fails with an input/output error, whatever directory the link points at. The path has a part
-- behind the link, and joining and normalising the link's name and its target gives just these two parts.
pub relative_link_fails :
    (lib : Libraries) (reader : RangeReader) (sb : Superblock) (link target : Text)
    → RootLink lib reader sb link target
    → path_parts (without_dot (lib.normalize (lib.join link target))) ≡ link ∷ target ∷ []
    → (left : ℕ) (path part : Text) (parts : List Text) → path_parts path ≡ link ∷ part ∷ parts
    → resolve lib reader sb left path ≡ err (fs_failure io_error)
unfolding resolve join_slash ◌>>=◌
relative_link_fails lib reader sb link target r joined zero path part parts e = refl
relative_link_fails lib reader sb link target r joined (suc left) path part parts e =
    rw (r.root_read, e)
      (passed lib reader sb (resolve lib reader sb left) [] link (part ∷ parts) r.root r.listing
          r.entry r.inode r.root_directory r.listed r.named r.link_read
        ∙ turned lib reader sb (resolve lib reader sb left) (link ∷ []) part parts r.inode target
            r.is_link r.points r.relative
            (relative_link_fails lib reader sb link target r joined left _ target [] joined))
