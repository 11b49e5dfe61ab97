-- ===== src/Base/Tables.antt =====
-- Database tables as lists of rows: `update ... where ... returning`.
use mathlib.Core.Path.{◌≡◌, refl}
use mathlib.Core.Bool.{Bool, true, false}
use mathlib.Core.List.{List, [], ◌∷◌, map, Memᴰ}
use native.Mathlib.Omega.{arith}
use mathlib.Core.Logic.{inl, inr}
use mathlib.Core.Option.{some}
use cloudable.Base.Tests.{if_keeps, if◌then◌else◌, Bool-cases}
use cloudable.Base.Lists.{filter, All, find}

module _ {ℓ} {A : Type ℓ} where
  -- The table after `update set f where p`.
  abbrev pub update_where : (A → Bool) → (A → A) → List A → List A
  update_where p f [] = []
  update_where p f (x ∷ xs) = (if p x then f x else x) ∷ update_where p f xs

  -- The rows that the same statement returns.
  abbrev pub returning : (A → Bool) → (A → A) → List A → List A
  returning p f xs = map f (filter p xs)

  -- A property of all rows survives an update that keeps it on the rows it writes.
  pub All-update_where {κ} :
      (P : A → Type κ) (p : A → Bool) (f : A → A)
      → ((a : A) → p a ≡ true → P a → P (f a))
      → (xs : List A) → All P xs
      → All P (update_where p f xs)
  All-update_where P p f keep [] h = tt
  All-update_where P p f keep (x ∷ xs) h =
      (ground (arith, keep x), All-update_where P p f keep xs h.1)

  -- The same where what is known of a row that passes the test depends on the row.
  pub All-update_where_each {κ} :
      (P : A → Type κ) (p : A → Bool) (f : A → A) (xs : List A)
      → All (λ a. p a ≡ true → P (f a)) xs
      → All P xs
      → All P (update_where p f xs)
  All-update_where_each P p f [] k h = tt
  All-update_where_each P p f (x ∷ xs) k h =
      (if_keeps P (p x) (f x) x k.0 (λ _. h.0), All-update_where_each P p f xs k.1 h.1)

  -- If the written rows leave the test, none passes it afterwards.
  pub filter-update_where :
      (p : A → Bool) (f : A → A)
      → ((a : A) → p a ≡ true → p (f a) ≡ false)
      → (xs : List A) → filter p (update_where p f xs) ≡ []
  filter-update_where p f leaves [] = refl
  filter-update_where p f leaves (x ∷ xs) =
      ground (arith, leaves x, filter-update_where p f leaves xs)

  -- The rows of another kind stay as they are, and in their order.
  pub filter-update_where_other :
      (q p : A → Bool) (f : A → A)
      → ((a : A) → p a ≡ true → (q a ≡ false) × (q (f a) ≡ false))
      → (xs : List A) → filter q (update_where p f xs) ≡ filter q xs
  filter-update_where_other q p f apart [] = refl
  filter-update_where_other q p f apart (x ∷ xs) =
      ground (arith, apart x, filter-update_where_other q p f apart xs)

  -- A statement whose test no row passes writes nothing.
  pub update_where_none :
      (p : A → Bool) (f : A → A) (xs : List A) → filter p xs ≡ [] → update_where p f xs ≡ xs
  update_where_none p f [] h = refl
  update_where_none p f (x ∷ xs) h = ground (arith, update_where_none p f xs)

  -- A row that does not pass the test stays.
  pub mem-update_where :
      (p : A → Bool) (f : A → A) (xs : List A) (a : A)
      → Memᴰ a xs
      → p a ≡ false
      → Memᴰ a (update_where p f xs)
  mem-update_where p f [] a m h = elim m [ ]
  mem-update_where p f (x ∷ xs) a (Memᴰ.head e) h = Memᴰ.head (ground arith)
  mem-update_where p f (x ∷ xs) a (Memᴰ.tail m) h = Memᴰ.tail (mem-update_where p f xs a m h)

  -- The row that a search finds is found as it was written.
  pub find-update_where :
      (p : A → Bool) (f : A → A)
      → ((x : A) → p x ≡ true → p (f x) ≡ true)
      → (xs : List A) (a : A) → find p xs ≡ some a
      → find p (update_where p f xs) ≡ some (f a)
  find-update_where p f keep [] a h = ground arith
  find-update_where p f keep (x ∷ xs) a h = elim (Bool-cases (p x)) [
    | inl e ↦ let same : x ≡ a = ground arith in let hit : p (f x) ≡ true = keep x e in ground arith
    | inr e ↦
        let rest : find p (update_where p f xs) ≡ some (f a) =
          find-update_where p f keep xs a (rw e at h) in
        ground arith
  ]
