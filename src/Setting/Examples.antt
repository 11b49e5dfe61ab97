-- ===== src/Setting/Examples.antt =====
-- A chain with a value at every scope, and one where the template wins.
use cloudable.Base.{ℕ, some, List, [], ◌∷◌}
use cloudable.Setting.{Scope, org, template, machine, SettingRow, SettingsChain, resolve_setting}
use cloudable.Setting.Precedence.{Resolves, resolve_setting-Resolves}

abbrev ttl_at : Scope → ℕ → ℕ → SettingRow ℕ
ttl_at scope id minutes = record {
  scope_type = scope;
  scope_id = id;
  key = "ttl";
  value = minutes;
  source = scope;
}

abbrev ttl_rows : List (SettingRow ℕ)
ttl_rows = ttl_at org 1 60 ∷ ttl_at template 3 30 ∷ ttl_at machine 11 5 ∷ []

abbrev ttl_chain : SettingsChain
ttl_chain = record { org_id = 1; template_id = some 3; machine_id = 10 }

resolve_setting-Resolves_example :
    Resolves "ttl" ttl_rows ttl_chain (resolve_setting "ttl" ttl_rows ttl_chain)
resolve_setting-Resolves_example = resolve_setting-Resolves "ttl" ttl_rows ttl_chain
