-- ===== src/Base/Keys.antt =====
-- Tables with a primary key.
use Prim.Native.Nat.{ℕ}
use mathlib.Core.Path.{◌≡◌, refl, sym, ap, ◌∙◌}
use mathlib.Core.Logic.{inl, inr}
use mathlib.Core.Bool.{Bool, true, false}
use mathlib.Core.Option.{some}
use mathlib.Core.List.{List, [], ◌∷◌, map, Memᴰ}
use native.Mathlib.Omega.{arith}
use cloudable.Base.Tests.{nat_beq, Bool-cases}
use cloudable.Base.Lists.{
  All, All-map, All-zip, All-filter, All-filter_of, any, find, filter, mem-filter, mem-all,
}
use cloudable.Base.Tables.{update_where}
use cloudable.Base.Ids.{has_id, distinct_ids}

module _ {A : Type 0} (key : A → ℕ) where
  pub any-key :
      (id : ℕ) (rows : List A) → any (λ r. nat_beq (key r) id) rows ≡ has_id id (map key rows)
  any-key id [] = refl
  any-key id (r ∷ rows) = rw (any-key id rows)

  pub keys-update_where :
      (p : A → Bool) (f : A → A)
      → ((r : A) → key (f r) ≡ key r)
      → (rows : List A) → map key (update_where p f rows) ≡ map key rows
  keys-update_where p f same [] = refl
  keys-update_where p f same (r ∷ rows) = ground (arith, same r, keys-update_where p f same rows)

  pub no_row :
      (id : ℕ) (rows : List A) → has_id id (map key rows) ≡ false → All (λ r. key r ≡ id → ⊥) rows
  no_row id [] h = tt
  no_row id (r ∷ rows) h = (λ e. ground arith, no_row id rows (ground arith))

  -- With distinct keys, the row that a search by key returns is the only one of its key.
  pub only_row :
      (id : ℕ) (rows : List A) (row : A)
      → distinct_ids (map key rows) ≡ true
      → find (λ r. nat_beq (key r) id) rows ≡ some row
      → All (λ r. key r ≡ id → r ≡ row) rows
  only_row id [] row d h = tt
  only_row id (r ∷ rows) row d h = elim (Bool-cases (nat_beq (key r) id)) [
    | inl e ↦ (
      λ _. ground arith,
      All-map (λ s. key s ≡ id → ⊥) (λ s. key s ≡ id → s ≡ row) (λ s none k. absurd (none k)) rows
          (no_row id rows (ground arith)),
    )
    | inr e ↦ (λ k. ground arith, only_row id rows row (ground arith) (rw e at h))
  ]

  pub has_id-find :
      (id : ℕ) (rows : List A) (row : A)
      → find (λ r. nat_beq (key r) id) rows ≡ some row
      → has_id id (map key rows) ≡ true
  has_id-find id [] row h = ground arith
  has_id-find id (r ∷ rows) row h = ground (arith, has_id-find id rows row)

  -- With distinct keys, rows of one key are one row.
  same_first :
      (r : A) (rows cs : List A)
      → All (λ s. key s ≡ key r → ⊥) cs
      → All (λ c. All (λ s. key s ≡ key c → s ≡ c) rows) cs
      → All (λ c. All (λ s. key s ≡ key c → s ≡ c) (r ∷ rows)) cs
  same_first r rows [] fresh h = tt
  same_first r rows (c ∷ cs) fresh h =
      ((λ e. absurd (fresh.0 (sym e)), h.0), same_first r rows cs fresh.1 h.1)

  pub same_key :
      (rows : List A)
      → distinct_ids (map key rows) ≡ true
      → All (λ c. All (λ s. key s ≡ key c → s ≡ c) rows) rows
  same_key [] d = tt
  same_key (r ∷ rows) d =
      let others = no_row (key r) rows (ground arith) in
      (
        (
          λ _. refl,
          All-map (λ s. key s ≡ key r → ⊥) (λ s. key s ≡ key r → s ≡ r) (λ s n e. absurd (n e)) rows
              others,
        ),
        same_first r rows rows others (same_key rows (ground arith)),
      )

  pub has_id-none :
      (id : ℕ) (rows : List A) → All (λ r. key r ≡ id → ⊥) rows → has_id id (map key rows) ≡ false
  has_id-none id [] h = refl
  has_id-none id (r ∷ rows) h = ground (arith, h.0, has_id-none id rows h.1)

  pub has_id-mem : (rows : List A) (r : A) → Memᴰ r rows → has_id (key r) (map key rows) ≡ true
  has_id-mem [] r m = elim m [ ]
  has_id-mem (x ∷ rows) r (Memᴰ.head same) = ground arith
  has_id-mem (x ∷ rows) r (Memᴰ.tail m) = ground (arith, has_id-mem rows r m)

  -- With distinct keys, a row's key is among those of the rows that pass a test if the row passes it.
  pub has_id-filter :
      (p : A → Bool) (rows : List A)
      → distinct_ids (map key rows) ≡ true
      → All (λ r. has_id (key r) (map key (filter p rows)) ≡ p r) rows
  has_id-filter p rows d =
      All-zip (λ r. Memᴰ r rows) (λ r. All (λ s. key s ≡ key r → s ≡ r) rows)
        (λ r. has_id (key r) (map key (filter p rows)) ≡ p r) one rows (mem-all rows)
        (same_key rows d)
    where
      one :
          (r : A)
          → Memᴰ r rows
          → All (λ s. key s ≡ key r → s ≡ r) rows
          → has_id (key r) (map key (filter p rows)) ≡ p r
      one r m same = elim (Bool-cases (p r)) [
        | inl e ↦ has_id-mem (filter p rows) r (mem-filter p rows r m e) ∙ sym e
        | inr e ↦
            has_id-none (key r) (filter p rows) (
              All-zip (λ s. p s ≡ true) (λ s. key s ≡ key r → s ≡ r) (λ s. key s ≡ key r → ⊥)
                (λ s yes k id. cc (ap p (k id))) (filter p rows) (All-filter p rows)
                (All-filter_of (λ s. key s ≡ key r → s ≡ r) p rows same))
            ∙ sym e
      ]
