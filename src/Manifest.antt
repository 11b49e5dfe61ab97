-- ===== src/Manifest.antt =====
-- apps/control-plane/src/domain/machine/manifest.ts: the package manifest of a machine.
-- `localeCompare` is the runtime's collation, and a parameter.
pub mod Undeclared
pub mod Pins
pub mod Resolution
mod Examples
use cloudable.Base.{
  insert_sorted, sort_by, ℕ, ltb, String, Bool, true, false, not, ◌&&◌, Option, none, some, List,
  [], ◌∷◌, map, ◌==◌, text_eq, filter, leb, number_eq, if◌then◌else◌, any,
}
use cloudable.Setting.{
  Scope, org, template, machine, SettingRow, ResolvedSetting, SettingsChain, resolve_setting,
}

pub record MachinePackageRow : Type 0 where
  pub scope_type : Scope
  pub scope_id : ℕ
  pub package_name : String
  pub version_pin : Option String
  pub pinned : Bool
  pub excluded : Bool
  pub source : Scope

pub record PackageManifestValue : Type 0 where
  pub version_pin : Option String
  pub pinned : Bool
  pub excluded : Bool

pub record ResolvedManifestEntry : Type 0 where
  pub package_name : String
  pub version_pin : Option String
  pub pinned : Bool
  pub excluded : Bool
  pub source : Scope
  pub resolved_from_scope_id : ℕ

-- `Set.has`.
abbrev pub has : String → List String → Bool
has name names = any (λ n. n == name) names

-- `new Set(names)`, which iterates in the order of first insertion.
unique_after : List String → List String → List String
unique_after seen [] = []
unique_after seen (n ∷ ns) =
    let old = unique_after seen ns in
    let new = n ∷ unique_after (n ∷ seen) ns in if has n seen then old else new

pub unique : List String → List String
unique names = unique_after [] names

abbrev pub setting_row : MachinePackageRow → SettingRow PackageManifestValue
setting_row r = record {
  scope_type = r.scope_type;
  scope_id = r.scope_id;
  key = r.package_name;
  value = record { version_pin = r.version_pin; pinned = r.pinned; excluded = r.excluded };
  source = r.source;
}

abbrev pub entry_of : String → ResolvedSetting PackageManifestValue → ResolvedManifestEntry
entry_of name w = record {
  package_name = name;
  version_pin = w.value.version_pin;
  pinned = w.value.pinned;
  excluded = w.value.excluded;
  source = w.source;
  resolved_from_scope_id = w.resolved_from_scope_id;
}

-- The loop over the names; `continue` where nothing resolves.
resolve_names :
    List (SettingRow PackageManifestValue)
    → SettingsChain
    → List String
    → List ResolvedManifestEntry
resolve_names rows chain [] = []
resolve_names rows chain (name ∷ names) =
    let rest = resolve_names rows chain names in
    elim (resolve_setting name rows chain) [ some w ↦ entry_of name w ∷ rest | none ↦ rest ]

pub resolve_manifest :
    (String → String → Bool) → List MachinePackageRow → SettingsChain → List ResolvedManifestEntry
resolve_manifest locale_le rows chain =
    sort_by (λ a b. locale_le a.package_name b.package_name)
      (resolve_names (map setting_row rows) chain (unique (map (λ r. r.package_name) rows)))

pub declared_packages : List ResolvedManifestEntry → List ResolvedManifestEntry
declared_packages manifest = filter (λ e. not e.excluded) manifest

pub record PinConflict : Type 0 where
  pub package_name : String
  pub pinned_at_scope : Scope
  pub pinned_at_scope_id : ℕ
  pub pinned_version_pin : Option String

abbrev pub scope_rank : Scope → ℕ
scope_rank org = 0
scope_rank template = 1
scope_rank machine = 2

abbrev pub pins_above : Scope → String → MachinePackageRow → Bool
pins_above target name r =
    (r.package_name == name) && (r.pinned && ltb (scope_rank r.scope_type) (scope_rank target))

abbrev head : List MachinePackageRow → Option MachinePackageRow
head [] = none
head (r ∷ rs) = some r

-- `filter(...).sort((a, b) => RANK[b] - RANK[a])[0]`
closest_pin : List MachinePackageRow → Scope → String → Option MachinePackageRow
unfolding sort_by insert_sorted
closest_pin rows target name = head (
    sort_by (λ a b. leb (scope_rank b.scope_type) (scope_rank a.scope_type))
      (filter (pins_above target name) rows))

abbrev pub conflict_of : String → MachinePackageRow → PinConflict
conflict_of name r = record {
  package_name = name;
  pinned_at_scope = r.scope_type;
  pinned_at_scope_id = r.scope_id;
  pinned_version_pin = r.version_pin;
}

pub find_pin_conflicts : List MachinePackageRow → Scope → List String → List PinConflict
find_pin_conflicts rows target [] = []
find_pin_conflicts rows target (name ∷ names) =
    let rest = find_pin_conflicts rows target names in
    elim (closest_pin rows target name) [ some r ↦ conflict_of name r ∷ rest | none ↦ rest ]

undeclared_from : List String → List String → List String → List String
undeclared_from declared seen [] = []
undeclared_from declared seen (name ∷ names) =
    let fresh = name ∷ undeclared_from declared (name ∷ seen) names in
    let rest = undeclared_from declared seen names in
    if not (has name declared) && not (has name seen) then fresh else rest

pub compute_undeclared_packages : List ResolvedManifestEntry → List String → List String
compute_undeclared_packages manifest reported =
    undeclared_from (map (λ e. e.package_name) (filter (λ e. not e.excluded) manifest)) [] reported
