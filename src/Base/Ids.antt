-- ===== src/Base/Ids.antt =====
-- Lists of identifiers: membership as a test, and no identifier twice.
use Prim.Native.Nat.{ℕ}
use mathlib.Core.Bool.{Bool, true, false, not, ◌&&◌, ◌||◌}
use mathlib.Core.List.{List, [], ◌∷◌}
use cloudable.Base.Tests.{nat_beq}

abbrev pub has_id : ℕ → List ℕ → Bool
has_id a [] = false
has_id a (x ∷ xs) = nat_beq x a || has_id a xs

abbrev pub distinct_ids : List ℕ → Bool
distinct_ids [] = true
distinct_ids (x ∷ xs) = not (has_id x xs) && distinct_ids xs
