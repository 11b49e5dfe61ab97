-- ===== src/Setting/Precedence.antt =====
-- Which row of the chain wins: the lowest level that has one.
use cloudable.Base.{
  ℕ, ◌≤◌, String, ◌≡◌, refl, true, false, none, some, Option, List, All, Memᴰ, arith, ◌==◌,
  number_eq, text_eq, is_some_of, find-eq-some, find-eq-none, All-zip, All-all, find, ap, sym,
  mem-find, All-map, ◌⊎◌, inl, inr, Option-cases, if◌then◌else◌,
}
use cloudable.Setting.{
  Scope, SettingRow, ResolvedSetting, SettingsChain, matches, by_scope, resolved_at,
  resolve_setting, from_org, from_template, machine, template, org,
}

-- How close to the machine a row stands in the chain; 0 for a row that does not apply.
abbrev level_in : SettingsChain → Scope → ℕ → ℕ
level_in chain machine id = if id == chain.machine_id then 3 else 0
level_in chain template id = if is_some_of chain.template_id id then 2 else 0
level_in chain org id = if id == chain.org_id then 1 else 0

module _ {V : Type 0} where
  abbrev pub level : String → SettingsChain → SettingRow V → ℕ
  level key chain r = if r.key == key then level_in chain r.scope_type r.scope_id else 0

  -- `v` is read off a row that applies, and no row stands closer to the machine.
  pub record Wins (key : String) (rows : List (SettingRow V)) (chain : SettingsChain)
      (v : ResolvedSetting V) : Type 0 where
    pub row : SettingRow V
    pub present : Memᴰ row rows
    pub applies : 1 ≤ level key chain row
    pub closest : All (λ r. level key chain r ≤ level key chain row) rows
    pub read : v ≡ resolved_at key row.scope_id row

  level-le : (key : String) (chain : SettingsChain) (r : SettingRow V) → level key chain r ≤ 3
  level-le key chain r = ground arith

  at_machine :
      (key : String) (chain : SettingsChain) (r : SettingRow V)
      → matches key machine chain.machine_id r ≡ true
      → (level key chain r ≡ 3) × (r.scope_id ≡ chain.machine_id)
  at_machine key chain r h = ground arith

  at_template :
      (key : String) (chain : SettingsChain) (id : ℕ) (r : SettingRow V)
      → chain.template_id ≡ some id
      → matches key template id r ≡ true
      → (level key chain r ≡ 2) × (r.scope_id ≡ id)
  at_template key chain id r e h = ground arith

  at_org :
      (key : String) (chain : SettingsChain) (r : SettingRow V)
      → matches key org chain.org_id r ≡ true
      → (level key chain r ≡ 1) × (r.scope_id ≡ chain.org_id)
  at_org key chain r h = ground arith

  below_machine :
      (key : String) (chain : SettingsChain) (r : SettingRow V)
      → matches key machine chain.machine_id r ≡ false
      → level key chain r ≤ 2
  below_machine key chain r h = ground arith

  -- No template row of the chain applies.
  abbrev NoTemplate : String → SettingsChain → SettingRow V → Type 0
  NoTemplate key chain r =
      (chain.template_id ≡ none)
      ⊎ ((id : ℕ) × (chain.template_id ≡ some id) × (matches key template id r ≡ false))

  below_template :
      (key : String) (chain : SettingsChain) (r : SettingRow V)
      → level key chain r ≤ 2
      → NoTemplate key chain r
      → level key chain r ≤ 1
  below_template key chain r h (inl e) = ground arith
  below_template key chain r h (inr (id, e, m)) = ground arith

  below_org :
      (key : String) (chain : SettingsChain) (r : SettingRow V)
      → level key chain r ≤ 1
      → matches key org chain.org_id r ≡ false
      → level key chain r ≡ 0
  below_org key chain r h m = ground arith

  -- What a resolution has to be: the winner, or nothing where no row applies.
  abbrev pub Resolves :
      String → List (SettingRow V) → SettingsChain → Option (ResolvedSetting V) → Type 0
  Resolves key rows chain none = All (λ r. level key chain r ≡ 0) rows
  Resolves key rows chain (some v) = Wins key rows chain v

module _ {V : Type 0} (key : String) (rows : List (SettingRow V)) (chain : SettingsChain) where
  -- A row found at a scope wins if no row stands at a higher level than this scope's.
  found-Wins :
      (scope : Scope) (id n : ℕ)
      → ((r : SettingRow V)
          → matches key scope id r ≡ true
          → (level key chain r ≡ n) × (r.scope_id ≡ id))
      → 1 ≤ n
      → All (λ r. level key chain r ≤ n) rows
      → (r : SettingRow V) → find (matches key scope id) rows ≡ some r
      → Wins key rows chain (resolved_at key id r)
  found-Wins scope id n here pos low r e =
      let at = here r (find-eq-some (matches key scope id) rows r e) in
      record {
        row = r;
        present = mem-find (matches key scope id) rows r e;
        applies = omega (arith, at.0, pos);
        closest =
            All-map (λ s. level key chain s ≤ n) (λ s. level key chain s ≤ level key chain r)
              (λ s h. omega (arith, h, at.0)) rows low;
        read = ap (λ i. resolved_at key i r) (sym at.1);
      }

  from_org-Resolves :
      All (λ r. level key chain r ≤ 1) rows → Resolves key rows chain (from_org key rows chain)
  unfolding from_org by_scope
  from_org-Resolves low = elim (Option-cases (find (matches key org chain.org_id) rows)) [
    | inl e ↦
        rw (e, Resolves)
          (All-zip (λ r. level key chain r ≤ 1) (λ r. matches key org chain.org_id r ≡ false)
            (λ r. level key chain r ≡ 0) (below_org key chain) rows low
            (find-eq-none (matches key org chain.org_id) rows e))
    | inr (r, e) ↦
        rw (e, Resolves) (found-Wins org chain.org_id 1 (at_org key chain) (omega arith) low r e)
  ]

  from_template-Resolves :
      (t : Option ℕ)
      → chain.template_id ≡ t
      → All (λ r. level key chain r ≤ 2) rows
      → Resolves key rows chain (from_template key rows chain t)
  unfolding from_template by_scope
  from_template-Resolves none here low = from_org-Resolves (
      All-map (λ r. level key chain r ≤ 2) (λ r. level key chain r ≤ 1)
        (λ r h. below_template key chain r h (inl here)) rows low)
  from_template-Resolves (some id) here low =
      elim (Option-cases (find (matches key template id) rows)) [
        | inl e ↦
            rw (e, Resolves)
              (from_org-Resolves (
                All-zip (λ r. level key chain r ≤ 2) (λ r. matches key template id r ≡ false)
                  (λ r. level key chain r ≤ 1)
                  (λ r h m. below_template key chain r h (inr (id, here, m))) rows low
                  (find-eq-none (matches key template id) rows e)))
        | inr (r, e) ↦
            rw (e, Resolves)
              (found-Wins template id 2 (λ s. at_template key chain id s here) (omega arith) low r
                e)
      ]

  -- Setting resolution returns a row of the chain (org, template, machine) for the key such that
  -- no row for the key stands closer to the machine, read off with the id of its scope; and it
  -- returns nothing exactly where no row applies.
  pub resolve_setting-Resolves : Resolves key rows chain (resolve_setting key rows chain)
  unfolding resolve_setting by_scope
  resolve_setting-Resolves =
      elim (Option-cases (find (matches key machine chain.machine_id) rows)) [
        | inl e ↦
            rw (e, Resolves)
              (from_template-Resolves chain.template_id refl (
                All-map (λ r. matches key machine chain.machine_id r ≡ false)
                  (λ r. level key chain r ≤ 2) (below_machine key chain) rows
                  (find-eq-none (matches key machine chain.machine_id) rows e)))
        | inr (r, e) ↦
            rw (e, Resolves)
              (found-Wins machine chain.machine_id 3 (at_machine key chain) (omega arith)
                (All-all (λ s. level key chain s ≤ 3) (level-le key chain) rows) r e)
      ]
