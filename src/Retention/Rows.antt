-- ===== src/Retention/Rows.antt =====
-- Membership in filtered and ordered lists, and the identifiers of events.
use cloudable.Base.{
  ℕ, zero, suc, ◌≤◌, ◌≡◌, refl, ap, List, [], ◌∷◌, ◌++◌, map, Memᴰ, arith, All, take, length,
  number_eq,
}
use cloudable.Retention.{LogEvent}

abbrev pub ids_of : List LogEvent → List ℕ
ids_of rows = map (λ e. e.id) rows

pub All-take :
    (P : LogEvent → Type 0) (n : ℕ) (rows : List LogEvent) → All P rows → All P (take n rows)
All-take P zero rows h = tt
All-take P (suc n) [] h = tt
All-take P (suc n) (x ∷ rows) h = (h.0, All-take P n rows h.1)

pub take_all : (n : ℕ) (rows : List LogEvent) → length rows ≤ n → take n rows ≡ rows
take_all zero [] h = refl
take_all zero (x ∷ rows) h = absurd (omega arith)
take_all (suc n) [] h = refl
take_all (suc n) (x ∷ rows) h = ap (λ ys. x ∷ ys) (take_all n rows (omega arith))

pub mem-left : (xs ys : List LogEvent) (e : LogEvent) → Memᴰ e xs → Memᴰ e (xs ++ ys)
mem-left [] ys e m = elim m [ ]
mem-left (x ∷ xs) ys e (Memᴰ.head same) = Memᴰ.head same
mem-left (x ∷ xs) ys e (Memᴰ.tail m) = Memᴰ.tail (mem-left xs ys e m)
