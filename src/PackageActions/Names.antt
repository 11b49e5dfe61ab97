-- ===== src/PackageActions/Names.antt =====
-- The package names of packages/contracts/src/domains/agent-protocol.ts.
use cloudable.Base.{ℕ, Bool, true, false, ◌&&◌, ◌||◌, [], ◌∷◌, leb, ◌==◌, number_eq, length, Text}

abbrev between : ℕ → ℕ → ℕ → Bool
between lo hi c = leb lo c && leb c hi

-- `[a-zA-Z0-9]`
abbrev is_alphanumeric : ℕ → Bool
is_alphanumeric c = between 97 122 c || (between 65 90 c || between 48 57 c)

-- `[a-zA-Z0-9+._-]`
abbrev is_name_char : ℕ → Bool
is_name_char c = is_alphanumeric c || (c == 43 || (c == 46 || (c == 95 || c == 45)))

all_name_chars : Text → Bool
all_name_chars [] = true
all_name_chars (c ∷ cs) = is_name_char c && all_name_chars cs

-- `PACKAGE_NAME_PATTERN`
unfoldable pub matches_pattern : Text → Bool
unfolding all_name_chars
matches_pattern [] = false
matches_pattern (c ∷ cs) = is_alphanumeric c && all_name_chars cs

unfoldable pub is_valid_package_name : Text → Bool
unfolding matches_pattern
is_valid_package_name name = leb (length name) 128 && matches_pattern name
