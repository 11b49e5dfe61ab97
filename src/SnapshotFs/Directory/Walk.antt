-- ===== src/SnapshotFs/Directory/Walk.antt =====
-- Reading a directory ends on every image, stays in its blocks, and returns no more than was asked for.
use cloudable.Base.{
  ℕ, zero, suc, ◌+◌, ◌%◌, ◌≤◌, ◌<◌, ◌≡◌, refl, max, Bool, true, false, not, ◌&&◌, ◌||◌, Option,
  none, some, List, [], ◌∷◌, ◌++◌, Text, length, is_empty, nat_beq, ltb, leb, arith, All,
  All-append, length-append,
}
use cloudable.SnapshotFs.{Bytes, RangeReader}
use cloudable.SnapshotFs.Outcome.{
  Yields, gives, Ends-bind, Ends-if, ReadsExactly, uint8-Yields, uint16-Yields, uint32-Yields,
}
use cloudable.SnapshotFs.Geometry.{Superblock, Inode}
use cloudable.SnapshotFs.Geometry.Bounds.{Plausible, guard-Yields}
use cloudable.SnapshotFs.Extents.{Extent}
use cloudable.SnapshotFs.Extents.Runs.{read_file_range-Yields}
use cloudable.SnapshotFs.Extents.Walk.{read_extents-Ordered}
use cloudable.SnapshotFs.Directory.{
  DirectoryEntry, Listing, reached, dirent_header_size, entry_at, record_at, read_records,
  read_directory_blocks, read_directory,
}

abbrev pub InUse : DirectoryEntry → Type 0
InUse e = 0 < e.inode_number

-- At most as many entries as were asked for, or one where none were; "truncated" says that it came to
-- so many.
abbrev pub WithinLimit : Option ℕ → Listing → Type 0
WithinLimit none l = l.truncated ≡ false
WithinLimit (some limit) l =
    (length l.entries ≤ max limit 1) × (l.truncated ≡ leb (max limit 1) (length l.entries))

-- There is room for one entry more.
abbrev HasRoom : Option ℕ → List DirectoryEntry → Type 0
HasRoom none entries = Unit
HasRoom (some limit) entries = length entries < max limit 1

abbrev Answer : Option ℕ → Listing → Type 0
Answer limit l = WithinLimit limit l × All InUse l.entries

Answer-open :
    (limit : Option ℕ) (entries : List DirectoryEntry)
    → HasRoom limit entries
    → All InUse entries
    → Answer limit (record { entries = entries; truncated = false })
Answer-open none entries h used = (refl, used)
Answer-open (some limit) entries h used = ((omega arith, ground arith), used)

-- One entry more ends the walk or leaves room.
Answer-full :
    (limit : Option ℕ) (entries added : List DirectoryEntry)
    → HasRoom limit entries
    → length added ≤ 1
    → not (is_empty added) && reached limit (entries ++ added) ≡ true
    → WithinLimit limit (record { entries = entries ++ added; truncated = true })
Answer-full none entries added h one e = ground arith
Answer-full (some limit) entries added h one e = ground (arith, length-append entries added)

HasRoom-append :
    (limit : Option ℕ) (entries added : List DirectoryEntry)
    → HasRoom limit entries
    → length added ≤ 1
    → not (is_empty added) && reached limit (entries ++ added) ≡ false
    → HasRoom limit (entries ++ added)
HasRoom-append none entries added h one e = tt
HasRoom-append (some limit) entries [] h one e = omega (arith, length-append entries [])
HasRoom-append (some limit) entries (a ∷ added) h one e =
    ground (arith, length-append entries (a ∷ added))

module _ (decode : Bytes → Text) (has_filetype : Bool) (limit : Option ℕ) (block : Bytes) where
  record_at-Yields :
      (at inode_number : ℕ)
      → at + 8 ≤ length block
      → Yields
          (λ added. (length added ≤ 1) × All InUse added)
          (record_at decode has_filetype limit block at inode_number)
  unfolding record_at entry_at
  record_at-Yields at inode_number h =
      Ends-if (nat_beq inode_number 0) (λ _. gives (omega arith, tt))
        λ used. Ends-bind (uint8-Yields block (at + 6) (omega arith)) λ name_length _.
          Ends-bind (uint8-Yields block (at + 7) (omega arith)) λ type_byte _.
            Ends-if
              (ltb 0 name_length && leb (at + dirent_header_size + name_length) (length block))
              (λ _. gives (omega arith, (ground arith, tt))) (λ _. gives (omega arith, tt))

  read_records-Yields :
      (fuel at : ℕ) (entries : List DirectoryEntry)
      → length block ≤ fuel + at
      → HasRoom limit entries
      → All InUse entries
      → Yields (Answer limit) (read_records decode has_filetype limit block fuel at entries)
  unfolding read_records
  read_records-Yields zero at entries hf room used =
      Ends-if (leb (at + dirent_header_size) (length block)) (λ e. absurd (ground arith))
        (λ _. gives (Answer-open limit entries room used))
  read_records-Yields (suc fuel) at entries hf room used =
      Ends-if (leb (at + dirent_header_size) (length block))
        (λ e.
          let inside : at + 8 ≤ length block = ground arith in
          Ends-bind (uint32-Yields block at (omega arith)) λ inode_number _.
            Ends-bind (uint16-Yields block (at + 4) (omega arith)) λ record_length _.
              Ends-if
                (ltb record_length dirent_header_size
                  || not (nat_beq (record_length % 4) 0)
                  || ltb (length block) (at + record_length))
                (λ _. gives (Answer-open limit entries room used))
                λ sound. Ends-bind (record_at-Yields at inode_number inside) λ added (one, used').
                  Ends-if (not (is_empty added) && reached limit (entries ++ added))
                    (λ full. gives (
                      Answer-full limit entries added room one full,
                      All-append InUse entries added used used',
                    ))
                    (λ more.
                      read_records-Yields fuel (at + record_length) (entries ++ added)
                        (ground arith) (HasRoom-append limit entries added room one more)
                        (All-append InUse entries added used used')))
        (λ _. gives (Answer-open limit entries room used))

-- A listing that was not cut off leaves room.
HasRoom-Answer :
    (limit : Option ℕ) (l : Listing)
    → WithinLimit limit l
    → l.truncated ≡ false
    → HasRoom limit l.entries
HasRoom-Answer none l w e = tt
HasRoom-Answer (some limit) l w e = ground arith

module _ (decode : Bytes → Text) (reader : RangeReader) (promise : ReadsExactly reader)
    (sb : Superblock) (plausible : Plausible sb) (limit : Option ℕ) where
  read_directory_blocks-Yields :
      (extents : List Extent) (remaining block_index : ℕ) (entries : List DirectoryEntry)
      → HasRoom limit entries
      → All InUse entries
      → Yields
          (Answer limit)
          (read_directory_blocks decode reader sb limit extents remaining block_index entries)
  unfolding read_directory_blocks
  read_directory_blocks-Yields extents zero block_index entries room used =
      gives (Answer-open limit entries room used)
  read_directory_blocks-Yields extents (suc n) block_index entries room used =
      Ends-bind (read_file_range-Yields reader promise sb _ _ extents) λ block _.
        Ends-bind
          (read_records-Yields decode sb.has_filetype limit block (length block) 0 entries
            (omega arith) room used)
          λ listing (within, used').
            Ends-if listing.truncated (λ _. gives (within, used'))
              (λ more.
                read_directory_blocks-Yields extents n (block_index + 1) listing.entries
                  (HasRoom-Answer limit listing within more) used')

  HasRoom-none : HasRoom limit []
  HasRoom-none = elim limit as (λ l. HasRoom l []) [ none ↦ tt | some k ↦ omega arith ]

  -- Reading a directory ends on every image, whatever its records and its extent tree hold, and looks at
  -- no byte outside a block: it gives a listing or an error that the code means to raise. The listing has
  -- entries in use only, at most `limit` of them (one, where the limit is zero), and is marked as
  -- truncated exactly if it has come to so many, also where the directory has no more. The reader gives exactly what it is asked for, the
  -- superblock is one that read_superblock accepts, and the inode has a whole `i_block`.
  pub read_directory_ends :
      (inode : Inode)
      → 8 ≤ length inode.i_block
      → Yields
          (λ l. WithinLimit limit l × All InUse l.entries)
          (read_directory decode reader sb limit inode)
  unfolding read_directory
  read_directory_ends inode h = Ends-bind (guard-Yields _) λ _ _.
      Ends-bind (read_extents-Ordered reader sb promise plausible 4096 inode.i_block h)
        λ extents _. read_directory_blocks-Yields extents _ 0 [] HasRoom-none tt
