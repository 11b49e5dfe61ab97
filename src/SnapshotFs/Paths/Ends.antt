-- ===== src/SnapshotFs/Paths/Ends.antt =====
-- A path is turned into one of the image or refused.
use cloudable.Base.{same_text, includes, ◌∷◌, [], Text, Option, none, some, nat_beq, not, ◌||◌}
use cloudable.SnapshotFs.Outcome.{Yields, gives, throws, Anything, Ends-if}
use cloudable.SnapshotFs.Paths.{slash, disk_mount_path, strip_slashes, below_mount, to_image_path}

below_mount-Yields : (t : Text) (rest : Option Text) → Yields Anything (below_mount t rest)
unfolding below_mount
below_mount-Yields t (some rest) = gives tt
below_mount-Yields t none = throws tt

pub to_image_path-Yields :
    (normalize : Text → Text) (input : Text) → Yields Anything (to_image_path normalize input)
unfolding to_image_path
to_image_path-Yields normalize [] = throws tt
to_image_path-Yields normalize (c ∷ input) =
    Ends-if (not (nat_beq c slash) || includes 0 (c ∷ input)) (λ _. throws tt)
      λ _.
        Ends-if (same_text (strip_slashes (normalize (c ∷ input))) disk_mount_path) (λ _. gives tt)
          λ _. below_mount-Yields (strip_slashes (normalize (c ∷ input))) _
