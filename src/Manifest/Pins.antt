-- ===== src/Manifest/Pins.antt =====
-- Pinned entries cannot be overridden below: what `findPinConflicts` reports.
use cloudable.Base.{
  sort_by, All-sort_by, mem-sort_by, sort_by-Ordered, Ordered, ◌≤◌, String, ◌≡◌, refl, subst, Bool,
  true, false, Option, none, some, List, [], ◌∷◌, All, All-map, All-filter, All-filter_of,
  All_of-filter, All-mem, Memᴰ, arith, leb, filter, Bool-cases, Option-cases, inl, inr, mem-all,
}
use cloudable.Setting.{Scope}
use cloudable.Manifest.{
  MachinePackageRow, PinConflict, scope_rank, pins_above, conflict_of, closest_pin,
  find_pin_conflicts, head,
}

abbrev by_rank : MachinePackageRow → MachinePackageRow → Bool
by_rank a b = leb (scope_rank b.scope_type) (scope_rank a.scope_type)

-- The row blocks an edit of the package at the scope, and no blocking row stands closer to it.
pub record Blocks (rows : List MachinePackageRow) (target : Scope) (name : String)
    (r : MachinePackageRow) : Type 0 where
  pub present : Memᴰ r rows
  pub above : pins_above target name r ≡ true
  pub closest :
      All
        (λ s. pins_above target name s ≡ true → scope_rank s.scope_type ≤ scope_rank r.scope_type)
        rows

abbrev pub Free : List MachinePackageRow → Scope → String → Type 0
Free rows target name = All (λ r. pins_above target name r ≡ false) rows

-- What `closest_pin` has to return.
abbrev ClosestPin : List MachinePackageRow → Scope → String → Option MachinePackageRow → Type 0
ClosestPin rows target name none = Free rows target name
ClosestPin rows target name (some r) = Blocks rows target name r

module _ (rows : List MachinePackageRow) (target : Scope) (name : String) where
  no_pins :
      (s : List MachinePackageRow)
      → s ≡ []
      → ((r : MachinePackageRow) → Memᴰ r (filter (pins_above target name) rows) → Memᴰ r s)
      → Free rows target name
  no_pins s e sub =
      All-map (λ r. pins_above target name r ≡ true → ⊥) (λ r. pins_above target name r ≡ false)
        (λ r no_pin. elim (Bool-cases (pins_above target name r)) [
          | inl t ↦ absurd (no_pin t)
          | inr f ↦ f
        ])
        rows
        (All_of-filter (λ r. ⊥) (pins_above target name) rows
          (All-map (λ r. Memᴰ r s) (λ r. ⊥) (λ r m. elim (subst (Memᴰ r) e m) [ ])
            (filter (pins_above target name) rows)
            (All-map _ _ sub (filter (pins_above target name) rows)
              (mem-all (filter (pins_above target name) rows)))))

  head_pin :
      (s : List MachinePackageRow)
      → Ordered by_rank s
      → All (λ r. Memᴰ r rows) s
      → All (λ r. pins_above target name r ≡ true) s
      → ((r : MachinePackageRow) → Memᴰ r (filter (pins_above target name) rows) → Memᴰ r s)
      → ClosestPin rows target name (head s)
  head_pin [] o here above sub = no_pins [] refl sub
  head_pin (r ∷ rs) o here above sub = record {
    present = here.0;
    above = above.0;
    closest =
        All_of-filter (λ s. scope_rank s.scope_type ≤ scope_rank r.scope_type)
          (pins_above target name) rows
          (All-map (λ s. Memᴰ s (r ∷ rs)) (λ s. scope_rank s.scope_type ≤ scope_rank r.scope_type)
            (λ s m.
              All-mem (λ t. scope_rank t.scope_type ≤ scope_rank r.scope_type) (r ∷ rs) s m
                (
                  omega arith,
                  All-map (λ t. by_rank r t ≡ true)
                      (λ t. scope_rank t.scope_type ≤ scope_rank r.scope_type) (λ t h. ground arith)
                      rs o.0,
                ))
            (filter (pins_above target name) rows)
            (All-map _ _ sub (filter (pins_above target name) rows)
              (mem-all (filter (pins_above target name) rows))));
  }

  closest_pin-ClosestPin : ClosestPin rows target name (closest_pin rows target name)
  unfolding closest_pin
  closest_pin-ClosestPin =
      let pins = filter (pins_above target name) rows in
      head_pin (sort_by by_rank pins)
        (sort_by-Ordered by_rank (λ a b h. ground arith) (λ a b c h k. ground arith) pins)
        (All-sort_by by_rank (λ r. Memᴰ r rows) pins
          (All-filter_of (λ r. Memᴰ r rows) (pins_above target name) rows (mem-all rows)))
        (All-sort_by by_rank (λ r. pins_above target name r ≡ true) pins
          (All-filter (pins_above target name) rows))
        (mem-sort_by by_rank pins)

-- The conflicts that an edit of these packages has to report: one for each package with a pinned
-- row above the target scope, in the order of the edit, at the closest such row.
pub data Reports (rows : List MachinePackageRow) (target : Scope)
    : List String → List PinConflict → Type 0 where
  done : Reports rows target [] []
  free :
      {name : String} {names : List String} {cs : List PinConflict}
      → Free rows target name
      → Reports rows target names cs
      → Reports rows target (name ∷ names) cs
  blocked :
      {name : String} {names : List String} {cs : List PinConflict} (r : MachinePackageRow)
      → Blocks rows target name r
      → Reports rows target names cs
      → Reports rows target (name ∷ names) (conflict_of name r ∷ cs)

-- `findPinConflicts` reports, for each edited package in turn, the pinned row above the target
-- scope that is closest to it, and nothing for a package that no row above pins.
pub find_pin_conflicts-Reports :
    (rows : List MachinePackageRow) (target : Scope) (names : List String)
    → Reports rows target names (find_pin_conflicts rows target names)
unfolding find_pin_conflicts
find_pin_conflicts-Reports rows target [] = done
find_pin_conflicts-Reports rows target (name ∷ names) =
    let rest = find_pin_conflicts-Reports rows target names in
    elim (Option-cases (closest_pin rows target name)) [
      | inl e ↦
          rw (e, find_pin_conflicts)
            (free (subst (ClosestPin rows target name) e (closest_pin-ClosestPin rows target name))
              rest)
      | inr (r, e) ↦
          rw (e, find_pin_conflicts)
            (blocked r
              (subst (ClosestPin rows target name) e (closest_pin-ClosestPin rows target name))
              rest)
    ]
