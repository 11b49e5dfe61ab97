-- ===== src/SnapshotFs/Paths.antt =====
-- ext4/filesystem.ts: paths of the machine, and paths in the image of the disk that is mounted at /home.
-- `posix.normalize` and `posix.join` are parameters.
pub mod Ends
use cloudable.Base.{
  same_text, includes, split_on, ℕ, Bool, true, false, not, ◌&&◌, ◌||◌, Option, none, some, List,
  [], ◌∷◌, ◌++◌, Text, Result, ok, err, filter, is_empty, nat_beq, if◌then◌else◌,
}
use mathlib.Core.List.{reverse}
use cloudable.SnapshotFs.{Failure, fs_failure, invalid_path, not_found}

abbrev pub slash : ℕ
slash = 47

abbrev pub disk_mount_path : Text
disk_mount_path = 47 ∷ 104 ∷ 111 ∷ 109 ∷ 101 ∷ []

-- What follows a prefix.
unfoldable pub after_prefix : Text → Text → Option Text
after_prefix [] t = some t
after_prefix (c ∷ p) [] = none
after_prefix (c ∷ p) (d ∷ t) = let rest = after_prefix p t in if nat_beq c d then rest else none

unfoldable pub drop_slashes : Text → Text
drop_slashes [] = []
drop_slashes (c ∷ t) = let rest = drop_slashes t in if nat_beq c slash then rest else c ∷ t

abbrev pub is_line_end : ℕ → Bool
is_line_end c = nat_beq c 10 || nat_beq c 13 || nat_beq c 8232 || nat_beq c 8233

-- `.replace(/(.)\/+$/, "$1")`: slashes at the end go, but for the first where no character stands
-- before it that `.` matches. The text stands in reverse.
unfoldable pub without_slashes : (reversed kept : Text) → Text
without_slashes reversed [] = if is_empty reversed then [] else slash ∷ []
without_slashes reversed (c ∷ kept) =
    if same_text reversed (c ∷ kept) || not (is_line_end c) then c ∷ kept else slash ∷ c ∷ kept

unfoldable pub strip_slashes : Text → Text
unfolding without_slashes drop_slashes
strip_slashes t =
    let reversed = reverse t in reverse (without_slashes reversed (drop_slashes reversed))

-- `split("/")`.
abbrev pub split_slash : Text → List Text
split_slash t = split_on slash t

unfoldable pub join_slash : List Text → Text
join_slash [] = []
join_slash (part ∷ []) = part
join_slash (part ∷ next ∷ parts) = part ++ (slash ∷ join_slash (next ∷ parts))

-- `slice(0, -1)`.
unfoldable pub all_but_last : List Text → List Text
all_but_last [] = []
all_but_last (part ∷ []) = []
all_but_last (part ∷ next ∷ parts) = part ∷ all_but_last (next ∷ parts)

unfoldable pub path_parts : Text → List Text
path_parts t = filter (λ part. not (is_empty part)) (split_slash t)

pub below_mount : Text → Option Text → Result Failure Text
below_mount normalised (some rest) = ok rest
below_mount normalised none = err (fs_failure not_found)

unfoldable pub to_image_path : (Text → Text) → Text → Result Failure Text
unfolding below_mount after_prefix strip_slashes
to_image_path normalize [] = err (fs_failure invalid_path)
to_image_path normalize (c ∷ input) =
    if not (nat_beq c slash) || includes 0 (c ∷ input)
    then err (fs_failure invalid_path)
    else (let normalised = strip_slashes (normalize (c ∷ input)) in
        if same_text normalised disk_mount_path
        then ok []
        else below_mount normalised (after_prefix (disk_mount_path ++ (slash ∷ [])) normalised))

unfoldable pub to_machine_path : Text → Text
to_machine_path image_path =
    if is_empty image_path then disk_mount_path else disk_mount_path ++ (slash ∷ image_path)

-- What stands before the last slash, and nothing where there is none.
unfoldable pub parent_image_path : Text → Option Text
unfolding join_slash all_but_last
parent_image_path image_path =
    if is_empty image_path then none else some (join_slash (all_but_last (split_slash image_path)))
