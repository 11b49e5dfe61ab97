-- ===== src/Base/Texts.antt =====
-- Free text as UTF-16 code units, and `String.prototype.trim`.
use Prim.Native.Nat.{ℕ}
use Prim.Native.Char.{code}
use Prim.Native.String.{String}
use mathlib.Core.Path.{◌≡◌, refl, subst}
use mathlib.Core.Logic.{◌↔◌}
use native.Mathlib.Omega.{arith}
use mathlib.Core.Bool.{Bool, true, false, ◌&&◌, ◌||◌}
use mathlib.Core.List.{List, [], ◌∷◌, ◌++◌, reverse}
use cloudable.Base.Tests.{leb, ltb, nat_beq, if◌then◌else◌}

abbrev pub Text : Type 0
Text = List ℕ

-- The code units of a literal in ASCII.
abbrev pub codes : String → Text
codes String.[] = []
codes (String.◌∷◌ c s) = code c ∷ codes s

-- White space and line terminators of ECMAScript.
pub is_space : ℕ → Bool
is_space c =
    (leb 9 c && leb c 13)
    || nat_beq c 32
    || nat_beq c 160
    || nat_beq c 5760
    || (leb 8192 c && leb c 8202)
    || nat_beq c 8232
    || nat_beq c 8233
    || nat_beq c 8239
    || nat_beq c 8287
    || nat_beq c 12288
    || nat_beq c 65279

trim_start : Text → Text
trim_start [] = []
trim_start (c ∷ cs) = let rest = trim_start cs in if is_space c then rest else c ∷ cs

unfoldable pub trim : Text → Text
unfolding is_space trim_start
trim s = reverse (trim_start (reverse (trim_start s)))

unfoldable pub with_first : ℕ → List Text → List Text
with_first c [] = (c ∷ []) ∷ []
with_first c (part ∷ parts) = (c ∷ part) ∷ parts

-- `String.prototype.split` at one character.
unfoldable pub split_on : ℕ → Text → List Text
unfolding with_first
split_on at [] = [] ∷ []
split_on at (c ∷ t) =
    let parts = split_on at t in if nat_beq c at then [] ∷ parts else with_first c parts

abbrev pub includes : ℕ → Text → Bool
includes c [] = false
includes c (d ∷ t) = nat_beq c d || includes c t

-- A text without the character is not split, and a first one is split off.
pub split_on-whole : (at : ℕ) (t : Text) → includes at t ≡ false → split_on at t ≡ t ∷ []
unfolding split_on with_first
split_on-whole at [] h = refl
split_on-whole at (c ∷ t) h =
    let rest = split_on-whole at t (ground arith) in
    let other : nat_beq c at ≡ false = ground arith in rw (rest, other) refl

pub split_on-first :
    (at : ℕ) (t rest : Text)
    → includes at t ≡ false
    → split_on at (t ++ (at ∷ rest)) ≡ t ∷ split_on at rest
unfolding split_on with_first
split_on-first at [] rest h = ground arith
split_on-first at (c ∷ t) rest h =
    let tail = split_on-first at t rest (ground arith) in
    let other : nat_beq c at ≡ false = ground arith in rw (tail, other) refl

abbrev pub same_text : Text → Text → Bool
same_text [] [] = true
same_text [] (c ∷ b) = false
same_text (c ∷ a) [] = false
same_text (c ∷ a) (d ∷ b) = nat_beq c d && same_text a b

-- The order of code units, by which `sort()` compares strings.
abbrev pub text_le : Text → Text → Bool
text_le [] b = true
text_le (c ∷ a) [] = false
text_le (c ∷ a) (d ∷ b) = ltb c d || (nat_beq c d && text_le a b)

pub same_text_iff : (a b : Text) → (same_text a b ≡ true) ↔ (a ≡ b)
same_text_iff a b = (same a b, λ e. subst (λ (t : Text). same_text a t ≡ true) e (self a))
  where
    same : (a b : Text) → same_text a b ≡ true → a ≡ b
    same [] [] h = refl
    same [] (c ∷ b) h = absurd (ground arith)
    same (c ∷ a) [] h = absurd (ground arith)
    same (c ∷ a) (d ∷ b) h = ground (arith, same a b)

    self : (a : Text) → same_text a a ≡ true
    self [] = refl
    self (c ∷ a) = ground (arith, self a)

pub text_le_total : (a b : Text) → text_le a b ≡ false → text_le b a ≡ true
text_le_total [] b h = absurd (ground arith)
text_le_total (c ∷ a) [] h = refl
text_le_total (c ∷ a) (d ∷ b) h = ground (arith, text_le_total a b)

pub text_le_trans : (a b c : Text) → text_le a b ≡ true → text_le b c ≡ true → text_le a c ≡ true
text_le_trans [] b c h k = refl
text_le_trans (x ∷ a) [] c h k = absurd (ground arith)
text_le_trans (x ∷ a) (y ∷ b) [] h k = absurd (ground arith)
text_le_trans (x ∷ a) (y ∷ b) (z ∷ c) h k = ground (arith, text_le_trans a b c)

pub text_le_antisym : (a b : Text) → text_le a b ≡ true → text_le b a ≡ true → a ≡ b
text_le_antisym [] [] h k = refl
text_le_antisym [] (y ∷ b) h k = absurd (ground arith)
text_le_antisym (x ∷ a) [] h k = absurd (ground arith)
text_le_antisym (x ∷ a) (y ∷ b) h k = ground (arith, text_le_antisym a b)
