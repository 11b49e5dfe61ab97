-- ===== src/Base/Lists.antt =====
-- Lists measured by native numbers, filtered and searched by Boolean tests.
use Prim.Native.Nat.{ℕ, zero, suc, ◌+◌, ◌≤◌}
use mathlib.Core.Path.{◌≡◌, refl, sym, ap, subst}
use mathlib.Core.Logic.{inl, inr}
use mathlib.Core.Bool.{Bool, true, false, ◌||◌}
use mathlib.Core.Option.{Option, none, some}
use mathlib.Core.List.{List, [], ◌∷◌, ◌++◌, map, Memᴰ}
use native.Mathlib.Omega.{arith}
use cloudable.Base.Tests.{if◌then◌else◌, Bool-cases}

module _ {ℓ} {A : Type ℓ} where
  abbrev pub length : List A → ℕ
  length [] = 0
  length (x ∷ xs) = suc (length xs)

  abbrev pub take : ℕ → List A → List A
  take zero xs = []
  take (suc n) [] = []
  take (suc n) (x ∷ xs) = x ∷ take n xs

  abbrev pub filter : (A → Bool) → List A → List A
  filter p [] = []
  filter p (x ∷ xs) = let rest = filter p xs in if p x then x ∷ rest else rest

  abbrev pub find : (A → Bool) → List A → Option A
  find p [] = none
  find p (x ∷ xs) = let rest = find p xs in if p x then some x else rest

  abbrev pub any : (A → Bool) → List A → Bool
  any p [] = false
  any p (x ∷ xs) = p x || any p xs

  abbrev pub All {κ} : (A → Type κ) → List A → Type κ
  All P [] = Unit
  All P (x ∷ xs) = P x × All P xs

  abbrev pub is_empty : List A → Bool
  is_empty [] = true
  is_empty (x ∷ xs) = false

module _ {ℓ} {A : Type ℓ} where
  pub length-append : (xs ys : List A) → length (xs ++ ys) ≡ length xs + length ys
  length-append [] ys = omega arith
  length-append (x ∷ xs) ys = omega (arith, length-append xs ys)

  pub length-map {κ} : {B : Type κ} (f : A → B) (xs : List A) → length (map f xs) ≡ length xs
  length-map f [] = refl
  length-map f (x ∷ xs) = ap suc (length-map f xs)

  pub length-take-le : (n : ℕ) (xs : List A) → length (take n xs) ≤ n
  length-take-le zero xs = omega arith
  length-take-le (suc n) [] = omega arith
  length-take-le (suc n) (x ∷ xs) = omega (arith, length-take-le n xs)

  pub All-append {κ} : (P : A → Type κ) (xs ys : List A) → All P xs → All P ys → All P (xs ++ ys)
  All-append P [] ys hx hy = hy
  All-append P (x ∷ xs) ys hx hy = (hx.0, All-append P xs ys hx.1 hy)

  pub All-map {κ μ} :
      (P : A → Type κ) (Q : A → Type μ)
      → ((a : A) → P a → Q a)
      → (xs : List A) → All P xs
      → All Q xs
  All-map P Q f [] h = tt
  All-map P Q f (x ∷ xs) h = (f x h.0, All-map P Q f xs h.1)

  pub All-zip {κ μ ν} :
      (P : A → Type κ) (Q : A → Type μ) (R : A → Type ν)
      → ((a : A) → P a → Q a → R a)
      → (xs : List A) → All P xs
      → All Q xs
      → All R xs
  All-zip P Q R f [] h k = tt
  All-zip P Q R f (x ∷ xs) h k = (f x h.0 k.0, All-zip P Q R f xs h.1 k.1)

  pub All-all {κ} : (P : A → Type κ) → ((a : A) → P a) → (xs : List A) → All P xs
  All-all P f [] = tt
  All-all P f (x ∷ xs) = (f x, All-all P f xs)

  -- What a search returns satisfies its test, is one of the rows, and has what all rows have.
  pub find-eq-some : (p : A → Bool) (xs : List A) (a : A) → find p xs ≡ some a → p a ≡ true
  find-eq-some p [] a h = ground arith
  find-eq-some p (x ∷ xs) a h = ground (arith, find-eq-some p xs a)

  pub All-find {κ} :
      (P : A → Type κ) (p : A → Bool) (xs : List A) (a : A) → find p xs ≡ some a → All P xs → P a
  All-find P p [] a h k = absurd (ground arith)
  All-find P p (x ∷ xs) a h k = elim (Bool-cases (p x)) [
    | inl hit ↦ let e : x ≡ a = ground arith in subst P e k.0
    | inr miss ↦ All-find P p xs a (rw miss at h) k.1
  ]

  pub mem-find : (p : A → Bool) (xs : List A) (a : A) → find p xs ≡ some a → Memᴰ a xs
  mem-find p [] a h = absurd (ground arith)
  mem-find p (x ∷ xs) a h = elim (Bool-cases (p x)) [
    | inl hit ↦ Memᴰ.head (ground arith)
    | inr miss ↦ Memᴰ.tail (mem-find p xs a (rw miss at h))
  ]

  pub find-eq-none : (p : A → Bool) (xs : List A) → find p xs ≡ none → All (λ x. p x ≡ false) xs
  find-eq-none p [] h = tt
  find-eq-none p (x ∷ xs) h = ground (arith, find-eq-none p xs)

  pub All-mem {κ} : (P : A → Type κ) (xs : List A) (a : A) → Memᴰ a xs → All P xs → P a
  All-mem P [] a m h = elim m [ ]
  All-mem P (x ∷ xs) a (Memᴰ.head e) h = subst P (sym e) h.0
  All-mem P (x ∷ xs) a (Memᴰ.tail m) h = All-mem P xs a m h.1

  pub filter-append :
      (p : A → Bool) (xs ys : List A) → filter p (xs ++ ys) ≡ filter p xs ++ filter p ys
  filter-append p [] ys = refl
  filter-append p (x ∷ xs) ys = ground (arith, filter-append p xs ys)

  pub All-filter : (p : A → Bool) (xs : List A) → All (λ x. p x ≡ true) (filter p xs)
  All-filter p [] = tt
  All-filter p (x ∷ xs) = elim (Bool-cases (p x)) [
    | inl e ↦ rw e (e, All-filter p xs)
    | inr e ↦ rw e (All-filter p xs)
  ]

  pub All-filter_of {κ} :
      (P : A → Type κ) (p : A → Bool) (xs : List A) → All P xs → All P (filter p xs)
  All-filter_of P p [] h = tt
  All-filter_of P p (x ∷ xs) h = elim (Bool-cases (p x)) [
    | inl e ↦ rw e (h.0, All-filter_of P p xs h.1)
    | inr e ↦ rw e (All-filter_of P p xs h.1)
  ]

  -- A property of the rows that pass the test, read back over all rows.
  pub All_of-filter {κ} :
      (P : A → Type κ) (p : A → Bool) (xs : List A)
      → All P (filter p xs)
      → All (λ x. p x ≡ true → P x) xs
  All_of-filter P p [] h = tt
  All_of-filter P p (x ∷ xs) h = elim (Bool-cases (p x)) [
    | inl e ↦
        let h' : P x × All P (filter p xs) = rw e at h in (λ _. h'.0, All_of-filter P p xs h'.1)
    | inr e ↦ (λ t. absurd (cc), All_of-filter P p xs (rw e at h))
  ]

  mem_all_in : (xs ys : List A) → ((a : A) → Memᴰ a xs → Memᴰ a ys) → All (λ a. Memᴰ a ys) xs
  mem_all_in [] ys sub = tt
  mem_all_in (x ∷ xs) ys sub =
      (sub x (Memᴰ.head refl), mem_all_in xs ys (λ a m. sub a (Memᴰ.tail m)))

  pub mem-all : (xs : List A) → All (λ a. Memᴰ a xs) xs
  mem-all xs = mem_all_in xs xs (λ a m. m)

  pub any-mem :
      (p : A → Bool) (rows : List A) (s : A) → Memᴰ s rows → p s ≡ true → any p rows ≡ true
  any-mem p [] s m h = elim m [ ]
  any-mem p (x ∷ rows) s (Memᴰ.head e) h = ground arith
  any-mem p (x ∷ rows) s (Memᴰ.tail m) h = ground (arith, any-mem p rows s m h)

  pub any-none : (p : A → Bool) (rows : List A) → All (λ s. p s ≡ false) rows → any p rows ≡ false
  any-none p [] h = refl
  any-none p (x ∷ rows) h = ground (arith, any-none p rows h.1)

  pub mem-filter :
      (p : A → Bool) (rows : List A) (e : A) → Memᴰ e rows → p e ≡ true → Memᴰ e (filter p rows)
  mem-filter p [] e m h = elim m [ ]
  mem-filter p (x ∷ rows) e (Memᴰ.head same) h =
      let hit : p x ≡ true = ground arith in rw hit (Memᴰ.head same)
  mem-filter p (x ∷ rows) e (Memᴰ.tail m) h = elim (Bool-cases (p x)) [
    | inl hit ↦ rw hit (Memᴰ.tail (mem-filter p rows e m h))
    | inr miss ↦ rw miss (mem-filter p rows e m h)
  ]
