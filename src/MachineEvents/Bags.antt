-- ===== src/MachineEvents/Bags.antt =====
-- `sameStringSet` compares two lists without their order, and with how often each string is in them.
use cloudable.Base.{
  ℕ, ◌<◌, ◌≡◌, refl, sym, ap, ◌∙◌, subst, ◌↔◌, true, inl, inr, List, [], ◌∷◌, Text, same_text,
  same_text_iff, text_le, text_le_total, text_le_trans, text_le_antisym, length, filter, All,
  sort_by, insert_sorted, length-sort_by, Ordered, sort_by-Ordered, arith, Bool-cases,
}
use cloudable.MachineEvents.{every_same, same_string_set}

-- How often a string is in a list.
abbrev pub count : Text → List Text → ℕ
count x xs = length (filter (same_text x) xs)

-- Two lists that differ in nothing but their order.
abbrev pub SameBag : List Text → List Text → Type 0
SameBag a b = (x : Text) → count x a ≡ count x b

count-insert_sorted :
    (x y : Text) (ys : List Text) → count x (insert_sorted text_le y ys) ≡ count x (y ∷ ys)
unfolding insert_sorted
count-insert_sorted x y [] = refl
count-insert_sorted x y (z ∷ ys) = ground (arith, count-insert_sorted x y ys)

count-sort_by : (x : Text) (xs : List Text) → count x (sort_by text_le xs) ≡ count x xs
unfolding sort_by
count-sort_by x [] = refl
count-sort_by x (y ∷ xs) =
    ground (arith, count-insert_sorted x y (sort_by text_le xs), count-sort_by x xs)

count_self : (x : Text) (xs : List Text) → 0 < count x (x ∷ xs)
count_self x xs = ground (arith, (same_text_iff x x).1 refl)

-- What is in an ordered list does not come before its head.
le_of_count :
    (x y : Text) (ys : List Text)
    → All (λ z. text_le y z ≡ true) ys
    → 0 < count x ys
    → text_le y x ≡ true
le_of_count x y [] h k = absurd (omega arith)
le_of_count x y (z ∷ ys) h k = elim (Bool-cases (same_text x z)) [
  | inl e ↦ subst (λ (t : Text). text_le y t ≡ true) (sym ((same_text_iff x z).0 e)) h.0
  | inr e ↦ le_of_count x y ys h.1 (rw e at k)
]

le_refl : (x : Text) → text_le x x ≡ true
le_refl x = elim (Bool-cases (text_le x x)) [ inl e ↦ e | inr e ↦ text_le_total x x e ]

head_le :
    (x y : Text) (ys : List Text)
    → Ordered text_le (y ∷ ys)
    → 0 < count x (y ∷ ys)
    → text_le y x ≡ true
head_le x y ys h k = elim (Bool-cases (same_text x y)) [
  | inl e ↦ subst (λ (t : Text). text_le y t ≡ true) (sym ((same_text_iff x y).0 e)) (le_refl y)
  | inr e ↦ le_of_count x y ys h.0 (rw e at k)
]

-- An ordered list is determined by its bag.
bag_determines_list :
    (xs ys : List Text) → Ordered text_le xs → Ordered text_le ys → SameBag xs ys → xs ≡ ys
bag_determines_list [] [] h k bag = refl
bag_determines_list [] (y ∷ ys) h k bag = absurd (omega (arith, bag y, count_self y ys))
bag_determines_list (x ∷ xs) [] h k bag = absurd (omega (arith, bag x, count_self x xs))
bag_determines_list (x ∷ xs) (y ∷ ys) h k bag =
    let e : x ≡ y =
      text_le_antisym x y (head_le y x xs h (omega (arith, bag y, count_self y ys)))
        (head_le x y ys k (omega (arith, bag x, count_self x xs))) in
    let tails : SameBag xs ys = λ z. ground (arith, bag z, e) in
    ground (arith, e, bag_determines_list xs ys h.1 k.1 tails)

every_same_eq : (xs ys : List Text) → length xs ≡ length ys → every_same xs ys ≡ true → xs ≡ ys
every_same_eq [] [] h k = refl
every_same_eq [] (y ∷ ys) h k = absurd (omega arith)
every_same_eq (x ∷ xs) [] h k = absurd (ground arith)
every_same_eq (x ∷ xs) (y ∷ ys) h k = ground (arith, (same_text_iff x y).0, every_same_eq xs ys)

every_same_self : (xs : List Text) → every_same xs xs ≡ true
every_same_self [] = refl
every_same_self (x ∷ xs) = ground (arith, (same_text_iff x x).1 refl, every_same_self xs)

sorted : (xs : List Text) → Ordered text_le (sort_by text_le xs)
sorted xs = sort_by-Ordered text_le text_le_total text_le_trans xs

pub same_string_set_iff : (a b : List Text) → (same_string_set a b ≡ true) ↔ SameBag a b
unfolding same_string_set
same_string_set_iff a b = (
  λ h x.
      let lengths : length (sort_by text_le a) ≡ length (sort_by text_le b) =
        ground (arith, length-sort_by text_le a, length-sort_by text_le b) in
      let same : sort_by text_le a ≡ sort_by text_le b =
        every_same_eq (sort_by text_le a) (sort_by text_le b) lengths (ground arith) in
      sym (count-sort_by x a) ∙ ap (count x) same ∙ count-sort_by x b,
  λ bag.
      let same : sort_by text_le a ≡ sort_by text_le b =
        bag_determines_list (sort_by text_le a) (sort_by text_le b) (sorted a) (sorted b)
          (λ x. count-sort_by x a ∙ bag x ∙ sym (count-sort_by x b)) in
      let lengths : length a ≡ length b =
        sym (length-sort_by text_le a) ∙ ap length same ∙ length-sort_by text_le b in
      let every : every_same (sort_by text_le a) (sort_by text_le b) ≡ true =
        subst (λ (s : List Text). every_same (sort_by text_le a) s ≡ true) same
          (every_same_self (sort_by text_le a)) in
      ground (arith, every),
)
