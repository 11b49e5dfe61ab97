-- ===== src/Setting.antt =====
-- packages/schema/src/resolve-setting.ts: the org → template → machine chain of setting values.
pub mod Precedence
mod Examples
use cloudable.Base.{
  ℕ, String, Bool, true, false, ◌&&◌, Option, none, some, List, ◌==◌, number_eq, text_eq, find,
}

pub data Scope : Type 0 where
  org template machine : Scope

abbrev pub same_scope : Scope → Scope → Bool
same_scope org org = true
same_scope template template = true
same_scope machine machine = true
same_scope _ _ = false

pub record SettingRow {ℓ} (V : Type ℓ) : Type ℓ where
  pub scope_type : Scope
  pub scope_id : ℕ
  pub key : String
  pub value : V
  pub source : Scope

pub record ResolvedSetting {ℓ} (V : Type ℓ) : Type ℓ where
  pub key : String
  pub value : V
  pub source : Scope
  pub resolved_from_scope_id : ℕ

pub record SettingsChain : Type 0 where
  pub org_id : ℕ
  pub template_id : Option ℕ
  pub machine_id : ℕ

module _ {ℓ} {V : Type ℓ} where
  abbrev pub matches : String → Scope → ℕ → SettingRow V → Bool
  matches key scope id r = (r.key == key) && (same_scope r.scope_type scope && (r.scope_id == id))

  -- The closure `byScope`.
  unfoldable pub by_scope : String → List (SettingRow V) → Scope → ℕ → Option (SettingRow V)
  by_scope key rows scope id = find (matches key scope id) rows

  abbrev pub resolved_at : String → ℕ → SettingRow V → ResolvedSetting V
  resolved_at key id r = record {
    key = key;
    value = r.value;
    source = r.source;
    resolved_from_scope_id = id;
  }

  from_org : String → List (SettingRow V) → SettingsChain → Option (ResolvedSetting V)
  from_org key rows chain = elim (by_scope key rows org chain.org_id) [
    | some r ↦ some (resolved_at key chain.org_id r)
    | none ↦ none
  ]

  from_template :
      String → List (SettingRow V) → SettingsChain → Option ℕ → Option (ResolvedSetting V)
  from_template key rows chain none = from_org key rows chain
  from_template key rows chain (some id) = elim (by_scope key rows template id) [
    | some r ↦ some (resolved_at key id r)
    | none ↦ from_org key rows chain
  ]

  unfoldable pub resolve_setting :
      String → List (SettingRow V) → SettingsChain → Option (ResolvedSetting V)
  unfolding from_org from_template
  resolve_setting key rows chain = elim (by_scope key rows machine chain.machine_id) [
    | some r ↦ some (resolved_at key chain.machine_id r)
    | none ↦ from_template key rows chain chain.template_id
  ]
