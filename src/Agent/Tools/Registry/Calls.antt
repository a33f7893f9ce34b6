-- ===== src/Agent/Tools/Registry/Calls.antt =====
-- The calls on the registry, and those that leave its tools alone.
use anonka.Prelude.{
  ℕ, ◌≡◌, refl, ◌∙◌, Bool, true, false, List, [], ◌∷◌, Option, none, some, Text, Bool-cases,
  Option-cases, inl, inr,
}
use anonka.Prelude.Dicts.{Dict, keys}
use anonka.Agent.Tools.Scope.{ToolAccessLevel, off}
use anonka.Agent.Tools.ModulePermissions.{ModulePermissions}
use anonka.Agent.Tools.Registry.{
  ToolMode, ToolRegistry, NewTool, has, register, remove_plugin_tools, seed_configs,
  replace_plugin_tools, register_plugin_tools, load_config_from_db, update_tool_level,
  set_tool_enabled, reset,
}
use anonka.Agent.Tools.Registry.{
  set_permissions, set_mode, set_allow_from, set_admin_ids, with_clamped, save,
}

pub data PluginCall : Type 0 where
  registers_plugin replaces_plugin : (plugin : Text) → List NewTool → PluginCall
  removes_plugin : (plugin : Text) → PluginCall

-- The calls that change the registry.
pub data RegistryCall : Type 0 where
  of_plugin : PluginCall → RegistryCall
  registers : NewTool → RegistryCall
  loads_config : Dict ToolAccessLevel → RegistryCall
  updates_level : (name : Text) → ToolAccessLevel → RegistryCall
  enables : (name : Text) (enabled : Bool) → RegistryCall
  sets_mode resets : ToolMode → RegistryCall
  sets_allow_from sets_admin_ids : List ℕ → RegistryCall
  sets_permissions : ModulePermissions → RegistryCall

abbrev pub plugin_step : ToolRegistry → PluginCall → ToolRegistry
plugin_step r (registers_plugin plugin ts) = register_plugin_tools r plugin ts
plugin_step r (replaces_plugin plugin ts) = replace_plugin_tools r plugin ts
plugin_step r (removes_plugin plugin) = remove_plugin_tools r plugin

abbrev pub step : ToolRegistry → RegistryCall → ToolRegistry
step r (of_plugin call) = plugin_step r call
step r (registers t) = (register r t).0
step r (loads_config table) = load_config_from_db r table
step r (updates_level name level) = (update_tool_level r name level).0
step r (enables name enabled) = (set_tool_enabled r name enabled).0
step r (sets_mode mode) = set_mode r mode
step r (resets mode) = reset r mode
step r (sets_allow_from ids) = set_allow_from r ids
step r (sets_admin_ids ids) = set_admin_ids r ids
step r (sets_permissions p) = set_permissions r p

unfoldable pub run : ToolRegistry → List RegistryCall → ToolRegistry
unfolding register_plugin_tools replace_plugin_tools remove_plugin_tools register
    load_config_from_db update_tool_level set_tool_enabled reset
run r [] = r
run r (c ∷ cs) = run (step r c) cs

-- Two registries with the same tools and owners.
abbrev pub SameTools : ToolRegistry → ToolRegistry → Type 0
SameTools s r = (s.tools ≡ r.tools) × (s.plugin_tool_names ≡ r.plugin_tool_names)

pub seed_configs-SameTools :
    (r : ToolRegistry) (names : List Text) → SameTools (seed_configs r names) r
unfolding seed_configs
seed_configs-SameTools r names = elim (Option-cases r.db) [
  | inl none_yet ↦ rw (none_yet, seed_configs) (refl, refl)
  | inr (table, there) ↦ rw (there, seed_configs) (refl, refl)
]

pub load_config_from_db-SameTools :
    (r : ToolRegistry) (table : Dict ToolAccessLevel) → SameTools (load_config_from_db r table) r
unfolding load_config_from_db
load_config_from_db-SameTools r table =
    let before = record r { db = some table; tool_configs = table } in
    let (a, b) = seed_configs-SameTools before (keys r.tools) in
    let (c, d) =
      clamped (seed_configs before (keys r.tools)) (seed_configs before (keys r.tools)).db in
    (c ∙ a, d ∙ b)
  where
    clamped :
        (s : ToolRegistry) (o : Option (Dict ToolAccessLevel)) → SameTools (with_clamped s o) s
    clamped s none = (refl, refl)
    clamped s (some t) = (refl, refl)

pub update_tool_level-SameTools :
    (r : ToolRegistry) (name : Text) (level : ToolAccessLevel)
    → SameTools (update_tool_level r name level).0 r
unfolding update_tool_level
update_tool_level-SameTools r name level = elim (Bool-cases (has r name)) [
  | inl there ↦ rw (there, update_tool_level) (saved r.db)
  | inr absent ↦ rw (absent, update_tool_level) (refl, refl)
]
  where
    saved : (o : Option (Dict ToolAccessLevel)) → SameTools (save r name level o).0 r
    saved none = (refl, refl)
    saved (some t) = (refl, refl)

pub set_tool_enabled-SameTools :
    (r : ToolRegistry) (name : Text) (enabled : Bool)
    → SameTools (set_tool_enabled r name enabled).0 r
unfolding set_tool_enabled
set_tool_enabled-SameTools r name false = update_tool_level-SameTools r name off
set_tool_enabled-SameTools r name true = update_tool_level-SameTools r name _
