-- ===== src/Approval/Listing/Rows.antt =====
-- The first rows of a sorted table: what is on a page, and what comes after it.
use cloudable.Base.{
  ℕ, zero, suc, ◌≡◌, refl, ap, ◌⊎◌, inl, inr, Bool, true, false, List, [], ◌∷◌, map, ltb,
  if◌then◌else◌, length, take, All, All-map, mem-all, Ordered, has_id, arith, Memᴰ,
}
use cloudable.Database.{ApprovalRow}
use cloudable.Approval.{ApprovalResult, to_result}
use cloudable.Approval.Listing.{newest_first, last_row}

-- The statement asks for one row more than a page has; a page is the first `limit` rows of all.
pub page_rows :
    {A : Type 0} (limit : ℕ) (rows : List A)
    → (if ltb limit (length (take (suc limit) rows))
        then take limit (take (suc limit) rows)
        else take (suc limit) rows)
      ≡ take limit rows
page_rows zero [] = refl
page_rows zero (r ∷ rows) = refl
page_rows (suc limit) [] = ground arith
page_rows (suc limit) (r ∷ rows) = ground (arith, page_rows limit rows)

pub All-take :
    {A : Type 0} (P : A → Type 0) (n : ℕ) (rows : List A) → All P rows → All P (take n rows)
All-take P zero rows h = tt
All-take P (suc n) [] h = tt
All-take P (suc n) (r ∷ rows) h = (h.0, All-take P n rows h.1)

pub Ordered-take :
    {A : Type 0} (le : A → A → Bool) (n : ℕ) (rows : List A)
    → Ordered le rows
    → Ordered le (take n rows)
Ordered-take le zero rows h = tt
Ordered-take le (suc n) [] h = tt
Ordered-take le (suc n) (r ∷ rows) h =
    (All-take (λ y. le r y ≡ true) n rows h.0, Ordered-take le n rows h.1)

abbrev pub ids : List ApprovalRow → List ℕ
ids rows = map (λ (r : ApprovalRow). r.id) rows

pub last_is_shown :
    (r : ApprovalRow) (rows : List ApprovalRow)
    → has_id (last_row r rows).id (ids (r ∷ rows)) ≡ true
last_is_shown r [] = ground arith
last_is_shown r (next ∷ rows) = ground (arith, last_is_shown next rows)

pub All-last :
    (P : ApprovalRow → Type 0) (r : ApprovalRow) (rows : List ApprovalRow)
    → All P (r ∷ rows)
    → P (last_row r rows)
All-last P r [] h = h.0
All-last P r (next ∷ rows) h = All-last P next rows h.1

-- The rows of a page come before its last one.
pub page_before_last :
    (n : ℕ) (r : ApprovalRow) (rows : List ApprovalRow)
    → Ordered newest_first (r ∷ rows)
    → All (λ y. newest_first y (last_row r (take n rows)) ≡ true) (r ∷ take n rows)
page_before_last zero r rows h = (ground arith, tt)
page_before_last (suc n) r [] h = (ground arith, tt)
page_before_last (suc n) r (next ∷ rows) h =
    let rest = page_before_last n next rows h.1 in
    (
      All-last (λ y. newest_first r y ≡ true) next (take n rows)
          (h.0.0, All-take (λ y. newest_first r y ≡ true) n rows h.0.1),
      rest,
    )

-- What is not on the page comes after its last row.
pub rest_after_last :
    (n : ℕ) (r : ApprovalRow) (rows : List ApprovalRow)
    → Ordered newest_first (r ∷ rows)
    → All
        (λ y.
          (has_id y.id (ids (r ∷ take n rows)) ≡ true)
          ⊎ (newest_first (last_row r (take n rows)) y ≡ true))
        (r ∷ rows)
rest_after_last zero r rows h =
    (inl (ground arith), All-map (λ y. newest_first r y ≡ true) _ (λ y after. inr after) rows h.0)
rest_after_last (suc n) r [] h = (inl (ground arith), tt)
rest_after_last (suc n) r (next ∷ rows) h = (
  inl (ground arith),
  All-map
      (λ y.
        (has_id y.id (ids (next ∷ take n rows)) ≡ true)
        ⊎ (newest_first (last_row next (take n rows)) y ≡ true))
      _ (λ y c. elim c [ inl shown ↦ inl (ground arith) | inr after ↦ inr after ]) (next ∷ rows)
      (rest_after_last n next rows h.1),
)

pub shown_rows :
    (count : ApprovalRow → ℕ) (rows : List ApprovalRow)
    → map (λ (i : ApprovalResult). i.row) (map (λ row. to_result row (count row)) rows) ≡ rows
shown_rows count [] = refl
shown_rows count (r ∷ rows) = ap (λ (rest : List ApprovalRow). r ∷ rest) (shown_rows count rows)

pub has_id-mem :
    (r : ApprovalRow) (rows : List ApprovalRow) → Memᴰ r rows → has_id r.id (ids rows) ≡ true
has_id-mem r [] m = elim m [ ]
has_id-mem r (next ∷ rows) (Memᴰ.head e) = ground (arith, ap (λ (a : ApprovalRow). a.id) e)
has_id-mem r (next ∷ rows) (Memᴰ.tail m) = ground (arith, has_id-mem r rows m)

pub all_shown : (rows : List ApprovalRow) → All (λ r. has_id r.id (ids rows) ≡ true) rows
all_shown rows =
    All-map (λ r. Memᴰ r rows) (λ r. has_id r.id (ids rows) ≡ true) (λ r m. has_id-mem r rows m)
      rows (mem-all rows)

pub whole_page :
    {A : Type 0} (n : ℕ) (rows : List A)
    → ltb n (length (take (suc n) rows)) ≡ false
    → take n rows ≡ rows
whole_page zero [] h = refl
whole_page zero (r ∷ rows) h = absurd (ground arith)
whole_page (suc n) [] h = refl
whole_page (suc n) (r ∷ rows) h =
    ap (λ (rest : List _). r ∷ rest) (whole_page n rows (ground arith))
