-- ===== src/Manifest/Examples.antt =====
-- A manifest with an organisation's pin, a template's exclusion and a machine's own package.
use cloudable.Base.{◌≡◌, String, Bool, true, false, ℕ, none, some, List, [], ◌∷◌, map, All, is_some}
use cloudable.Setting.{Scope, org, template, machine, SettingsChain, resolve_setting}
use cloudable.Manifest.{
  MachinePackageRow, ResolvedManifestEntry, has, setting_row, resolve_manifest, find_pin_conflicts,
}
use cloudable.Manifest.Undeclared.{names_of, distinct}
use cloudable.Manifest.Pins.{Reports, find_pin_conflicts-Reports}
use cloudable.Manifest.Resolution.{Resolved, resolve_manifest_exact}

abbrev package_at : Scope → ℕ → String → Bool → Bool → MachinePackageRow
package_at scope id name pin out = record {
  scope_type = scope;
  scope_id = id;
  package_name = name;
  version_pin = some "1.2";
  pinned = pin;
  excluded = out;
  source = scope;
}

abbrev rows : List MachinePackageRow
rows =
    package_at org 1 "git" true false
    ∷ package_at template 3 "vim" false true
    ∷ package_at machine 10 "git" false false
    ∷ package_at org 1 "vim" false false
    ∷ []

abbrev chain : SettingsChain
chain = record { org_id = 1; template_id = some 3; machine_id = 10 }

abbrev as_listed : String → String → Bool
as_listed a b = true

abbrev entry_at : String → Bool → ResolvedManifestEntry
entry_at name out = record {
  package_name = name;
  version_pin = none;
  pinned = false;
  excluded = out;
  source = org;
  resolved_from_scope_id = 1;
}

resolve_manifest_exact_example :
    All (Resolved (map setting_row rows) chain) (resolve_manifest as_listed rows chain)
    × ((n : String)
        → has n (names_of (resolve_manifest as_listed rows chain))
          ≡ is_some (resolve_setting n (map setting_row rows) chain))
    × (distinct (names_of (resolve_manifest as_listed rows chain)) ≡ true)
resolve_manifest_exact_example = resolve_manifest_exact as_listed rows chain

find_pin_conflicts-Reports_example :
    Reports rows machine ("git" ∷ "vim" ∷ []) (find_pin_conflicts rows machine ("git" ∷ "vim" ∷ []))
find_pin_conflicts-Reports_example = find_pin_conflicts-Reports rows machine ("git" ∷ "vim" ∷ [])
