-- ===== src/Manifest/Resolution.antt =====
-- The resolved manifest: one entry for each package that some row of the chain declares.
use cloudable.Base.{
  insert_sorted, sort_by, All-sort_by, String, ◌≡◌, refl, ap, Bool, true, false, not, ◌&&◌, ◌||◌,
  Option, none, some, List, [], ◌∷◌, map, All, Memᴰ, arith, ◌==◌, text_eq, is_some, Option-cases,
  inl, inr, eq_iff,
}
use cloudable.Setting.{SettingRow, ResolvedSetting, SettingsChain, resolve_setting}
use cloudable.Setting.Precedence.{Resolves, resolve_setting-Resolves}
use cloudable.Manifest.{
  MachinePackageRow, PackageManifestValue, ResolvedManifestEntry, has, unique_after, unique,
  setting_row, entry_of, resolve_names, resolve_manifest,
}
use cloudable.Manifest.Undeclared.{names_of, distinct}

has-unique_after :
    (seen names : List String) (n : String)
    → has n (unique_after seen names) ≡ (has n names && not (has n seen))
unfolding unique_after
has-unique_after seen [] n = refl
has-unique_after seen (m ∷ names) n =
    ground (arith, has-unique_after (m ∷ seen) names n, has-unique_after seen names n, eq_iff m n)

distinct-unique_after : (seen names : List String) → distinct (unique_after seen names) ≡ true
unfolding unique_after
distinct-unique_after seen [] = refl
distinct-unique_after seen (m ∷ names) = ground (
  arith,
  has-unique_after (m ∷ seen) names m,
  distinct-unique_after (m ∷ seen) names,
  distinct-unique_after seen names,
  eq_iff m m,
)

module _ (le : ResolvedManifestEntry → ResolvedManifestEntry → Bool) where
  has-insert_sorted :
      (n : String) (e : ResolvedManifestEntry) (es : List ResolvedManifestEntry)
      → has n (names_of (insert_sorted le e es)) ≡ (e.package_name == n || has n (names_of es))
  unfolding insert_sorted
  has-insert_sorted n e [] = refl
  has-insert_sorted n e (x ∷ es) = ground (arith, has-insert_sorted n e es)

  has-sort_by :
      (n : String) (es : List ResolvedManifestEntry)
      → has n (names_of (sort_by le es)) ≡ has n (names_of es)
  unfolding sort_by
  has-sort_by n [] = refl
  has-sort_by n (e ∷ es) = rw (has-insert_sorted n e (sort_by le es), has-sort_by n es)

  distinct-insert_sorted :
      (e : ResolvedManifestEntry) (es : List ResolvedManifestEntry)
      → has e.package_name (names_of es) ≡ false
      → distinct (names_of es) ≡ true
      → distinct (names_of (insert_sorted le e es)) ≡ true
  unfolding insert_sorted
  distinct-insert_sorted e [] h d = refl
  distinct-insert_sorted e (x ∷ es) h d = ground (
    arith,
    distinct-insert_sorted e es,
    has-insert_sorted x.package_name e es,
    eq_iff x.package_name e.package_name,
    eq_iff e.package_name x.package_name,
  )

  distinct-sort_by :
      (es : List ResolvedManifestEntry)
      → distinct (names_of es) ≡ true
      → distinct (names_of (sort_by le es)) ≡ true
  unfolding sort_by
  distinct-sort_by [] d = refl
  distinct-sort_by (e ∷ es) d =
      distinct-insert_sorted e (sort_by le es) (rw (has-sort_by e.package_name es) (ground arith))
        (distinct-sort_by es (ground arith))

module _ (rows : List (SettingRow PackageManifestValue)) (chain : SettingsChain) where
  has-resolve_names :
      (names : List String) (n : String)
      → has n (names_of (resolve_names rows chain names))
        ≡ (has n names && is_some (resolve_setting n rows chain))
  unfolding resolve_names
  has-resolve_names [] n = refl
  has-resolve_names (m ∷ names) n = elim (Option-cases (resolve_setting m rows chain)) [
    | inl e ↦ rw (e, resolve_names) (ground (arith, has-resolve_names names n, eq_iff m n, e))
    | inr (w, e) ↦ rw (e, resolve_names) (ground (arith, has-resolve_names names n, eq_iff m n, e))
  ]

  distinct-resolve_names :
      (names : List String)
      → distinct names ≡ true
      → distinct (names_of (resolve_names rows chain names)) ≡ true
  unfolding resolve_names
  distinct-resolve_names [] d = refl
  distinct-resolve_names (m ∷ names) d = elim (Option-cases (resolve_setting m rows chain)) [
    | inl e ↦ rw (e, resolve_names) (ground (arith, distinct-resolve_names names))
    | inr (w, e) ↦
        rw (e, resolve_names)
          (ground (arith, distinct-resolve_names names, has-resolve_names names m))
  ]

  -- The entry is what the setting chain resolves for its package.
  abbrev pub Resolved : ResolvedManifestEntry → Type 0
  Resolved e =
      (w : ResolvedSetting PackageManifestValue) × (resolve_setting e.package_name rows chain
        ≡ some w)
      × (e ≡ entry_of e.package_name w)

  resolve_names-Resolved : (names : List String) → All Resolved (resolve_names rows chain names)
  unfolding resolve_names
  resolve_names-Resolved [] = tt
  resolve_names-Resolved (m ∷ names) = elim (Option-cases (resolve_setting m rows chain)) [
    | inl e ↦ rw (e, resolve_names) (resolve_names-Resolved names)
    | inr (w, e) ↦ rw (e, resolve_names) ((w, e, refl), resolve_names-Resolved names)
  ]

-- A row that applies under a name puts that name among the names of the rows.
has_of_mem :
    (rows : List MachinePackageRow) (n : String) (r : SettingRow PackageManifestValue)
    → Memᴰ r (map setting_row rows)
    → r.key ≡ n
    → has n (map (λ r. r.package_name) rows) ≡ true
has_of_mem [] n r m e = elim m [ ]
has_of_mem (x ∷ rows) n r (Memᴰ.head p) e =
    ground (arith, eq_iff x.package_name n, ap (λ (s : SettingRow PackageManifestValue). s.key) p)
has_of_mem (x ∷ rows) n r (Memᴰ.tail m) e = ground (arith, has_of_mem rows n r m e)

resolved_has :
    (rows : List MachinePackageRow) (chain : SettingsChain) (n : String)
    (o : Option (ResolvedSetting PackageManifestValue))
    → Resolves n (map setting_row rows) chain o
    → is_some o ≡ true
    → has n (map (λ r. r.package_name) rows) ≡ true
resolved_has rows chain n none h t = cc
resolved_has rows chain n (some w) h t =
    has_of_mem rows n h.row h.present (ground (arith, h.applies, eq_iff h.row.key n))

module _ (locale_le : String → String → Bool) (rows : List MachinePackageRow)
    (chain : SettingsChain) where
  -- The resolved manifest has an entry for a package exactly if the chain resolves one for it.
  has-resolve_manifest :
      (n : String)
      → has n (names_of (resolve_manifest locale_le rows chain))
        ≡ is_some (resolve_setting n (map setting_row rows) chain)
  unfolding resolve_manifest unique
  has-resolve_manifest n = rw (has-sort_by _ n) (
      rw (has-resolve_names (map setting_row rows) chain) (
        rw (has-unique_after []) (
          ground (
            arith,
            resolved_has rows chain n (resolve_setting n (map setting_row rows) chain)
                (resolve_setting-Resolves n (map setting_row rows) chain),
          ))))

  -- The resolved manifest names each package at most once.
  distinct-resolve_manifest : distinct (names_of (resolve_manifest locale_le rows chain)) ≡ true
  unfolding resolve_manifest unique
  distinct-resolve_manifest =
      distinct-sort_by _ _
        (distinct-resolve_names (map setting_row rows) chain _ (distinct-unique_after [] _))

  -- The manifest is a function of the chain: every entry is the value that the chain resolves for
  -- its package, an entry stands for exactly the packages that the chain resolves, and none twice.
  pub resolve_manifest_exact :
      All (Resolved (map setting_row rows) chain) (resolve_manifest locale_le rows chain)
      × ((n : String)
          → has n (names_of (resolve_manifest locale_le rows chain))
            ≡ is_some (resolve_setting n (map setting_row rows) chain))
      × (distinct (names_of (resolve_manifest locale_le rows chain)) ≡ true)
  unfolding resolve_manifest
  resolve_manifest_exact = (
    All-sort_by _ (Resolved (map setting_row rows) chain) _
        (resolve_names-Resolved (map setting_row rows) chain _),
    has-resolve_manifest,
    distinct-resolve_manifest,
  )
