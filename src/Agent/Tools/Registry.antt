-- ===== src/Agent/Tools/Registry.antt =====
-- src/agent/tools/registry.ts: the registry of the tools, who may use them, and the plugins that own some of
-- them. The configuration of the tools is kept in a table, modelled by its levels, with a copy in
-- memory; the listeners, the search index and the namespaces are not modelled. A call that throws changes nothing and gives `false`.
pub mod Access
pub mod Plugins
pub mod Owned
pub mod Calls
pub mod Trust
pub mod Core
pub mod Listed
pub mod Tests
use anonka.Prelude.{
  ℕ, zero, suc, Bool, true, false, not, ◌&&◌, ◌||◌, List, [], ◌∷◌, Option, none, some, Text, text,
  text_eq, if◌then◌else◌, ◌==◌, take,
}
use anonka.Prelude.Dicts.{Dict, lookup, insert, delete, keys, contains}
use anonka.Agent.Tools.Scope.{
  ToolAccessLevel, all, allowlist, admin, off, ToolScope, open_scope, always, dm_only, group_only,
  admin_only, allowlist_scope, disabled, Category, data_bearing, action, enforce_minimum_access,
  scope_to_level,
}
use anonka.Agent.Tools.ModulePermissions.{
  ModulePermissions, ModuleLevel, open_level, admin_level, disabled_level, get_level,
}

pub data ToolMode : Type 0 where
  user bot both : ToolMode

pub record RegisteredTool : Type 0 where
  pub category : Option Category
  pub scope : Option ToolScope
  pub minimum_access : ToolAccessLevel
  pub allow_from : Option (List ℕ)
  pub mode : ToolMode
  pub module_name : Text
  pub tags : List Text

-- `mode` is never `both`. `db` is the table, if there is one.
pub record ToolRegistry : Type 0 where
  pub tools : Dict RegisteredTool
  pub permissions : Option ModulePermissions
  pub tool_configs : Dict ToolAccessLevel
  pub db : Option (Dict ToolAccessLevel)
  pub plugin_tool_names : Dict (List Text)
  pub mode : ToolMode
  pub allow_from : List ℕ
  pub admin_ids : List ℕ
  pub admin_ids_configured : Bool

unfoldable pub new_registry : ToolMode → ToolRegistry
new_registry mode = record {
  tools = [];
  permissions = none;
  tool_configs = [];
  db = none;
  plugin_tool_names = [];
  mode = mode;
  allow_from = [];
  admin_ids = [];
  admin_ids_configured = false;
}

abbrev pub is_there {ℓ} : {A : Type ℓ} → Option A → Bool
is_there none = false
is_there (some _) = true

abbrev pub has : ToolRegistry → Text → Bool
has r name = is_there (lookup name r.tools)

abbrev pub or_else {ℓ} : {A : Type ℓ} → Option A → A → A
or_else none a = a
or_else (some b) a = b

-- The scope that stays: only a restriction does.
abbrev restriction : Option ToolScope → Option ToolScope
restriction (some always) = none
restriction (some open_scope) = none
restriction s = s

-- A tool as `register` and the plugins declare it.
pub record NewTool : Type 0 where
  pub name : Text
  pub category : Option Category
  pub scope : Option ToolScope
  pub mode : Option ToolMode
  pub minimum_access : Option ToolAccessLevel
  pub allow_from : Option (List ℕ)
  pub tags : List Text

abbrev pub least_access : NewTool → ToolAccessLevel
least_access t = or_else t.minimum_access (scope_to_level t.scope)

-- `insertTool`, with the entry of a tool of the core.
abbrev pub core_tool : Text → NewTool → RegisteredTool
core_tool module_name t = record {
  category = t.category;
  scope = restriction t.scope;
  minimum_access = least_access t;
  allow_from = t.allow_from;
  mode = or_else t.mode both;
  module_name = module_name;
  tags = t.tags;
}

unfoldable pub until_underscore : Text → Text
until_underscore [] = []
until_underscore (c ∷ s) = let rest = until_underscore s in if c == 95 then [] else c ∷ rest

unfoldable pub register : ToolRegistry → NewTool → ToolRegistry × Bool
unfolding lookup insert until_underscore
register r t =
    if has r t.name
    then (r, false)
    else (record r { tools = insert t.name (core_tool (until_underscore t.name) t) r.tools }, true)

-- `getExternalMinimumAccess`
abbrev pub external_access : Option Category → ToolAccessLevel → ToolAccessLevel
external_access (some data_bearing) declared = declared
external_access _ declared = enforce_minimum_access declared allowlist

-- The entry of a plugin's tool.
abbrev pub plugin_tool : Text → NewTool → RegisteredTool
plugin_tool plugin t = record {
  category = t.category;
  scope = restriction t.scope;
  minimum_access = external_access t.category (least_access t);
  allow_from = none;
  mode = or_else t.mode both;
  module_name = plugin;
  tags = [];
}

-- The loop over a plugin's tools: a name that is taken is skipped, unless it was the plugin's before.
-- At a first registration there are no previous names.
unfoldable pub add_tools :
    Text → List Text → Dict RegisteredTool → List NewTool → Dict RegisteredTool × List Text
unfolding lookup insert contains
add_tools plugin previous tools [] = (tools, [])
add_tools plugin previous tools (t ∷ ts) =
    let skipped = add_tools plugin previous tools ts in
    let (tools', names) =
      add_tools plugin previous (insert t.name (plugin_tool plugin t) tools) ts in
    if is_there (lookup t.name tools) && not (contains previous t.name)
    then skipped
    else (tools', t.name ∷ names)

abbrev pub minimum_of : Option RegisteredTool → ToolAccessLevel
minimum_of none = all
minimum_of (some t) = t.minimum_access

abbrev pub get_minimum_access : ToolRegistry → Text → ToolAccessLevel
get_minimum_access r name = minimum_of (lookup name r.tools)

abbrev pub get_effective_level : ToolRegistry → Text → ToolAccessLevel
get_effective_level r name =
    enforce_minimum_access (or_else (lookup name r.tool_configs) all) (get_minimum_access r name)

-- `initializeToolConfig`
abbrev pub initialize : Text → ToolAccessLevel → Dict ToolAccessLevel → Dict ToolAccessLevel
initialize name level table =
    if is_there (lookup name table) then table else insert name level table

unfoldable pub seed_table : ToolRegistry → Dict ToolAccessLevel → List Text → Dict ToolAccessLevel
unfolding lookup insert
seed_table r table [] = table
seed_table r table (name ∷ names) =
    let rest = seed_table r table names in
    let seeded = seed_table r (initialize name (get_minimum_access r name) table) names in
    if is_there (lookup name r.tool_configs) then rest else seeded

abbrev pub is_seeding : Dict ToolAccessLevel → List Text → Bool
is_seeding configs [] = false
is_seeding configs (name ∷ names) = not (is_there (lookup name configs)) || is_seeding configs names

abbrev pub with_table : ToolRegistry → Dict ToolAccessLevel → Bool → ToolRegistry
with_table r table reload = record r {
  db = some table;
  tool_configs = (if reload then table else r.tool_configs);
}

unfoldable pub seed_configs : ToolRegistry → List Text → ToolRegistry
unfolding seed_table lookup
seed_configs r names = elim r.db [
  | none ↦ r
  | some table ↦ with_table r (seed_table r table names) (is_seeding r.tool_configs names)
]

unfoldable pub delete_all {ℓ} : {A : Type ℓ} → List Text → Dict A → Dict A
unfolding delete
delete_all [] m = m
delete_all (name ∷ names) m = delete_all names (delete name m)

abbrev pub or_nil : Option (List Text) → List Text
or_nil none = []
or_nil (some names) = names

unfoldable pub remove_plugin_tools : ToolRegistry → Text → ToolRegistry
unfolding delete_all lookup delete
remove_plugin_tools r plugin = record r {
  tools = delete_all (or_nil (lookup plugin r.plugin_tool_names)) r.tools;
  tool_configs = delete_all (or_nil (lookup plugin r.plugin_tool_names)) r.tool_configs;
  plugin_tool_names = delete plugin r.plugin_tool_names;
}

abbrev pub with_plugin : ToolRegistry → Text → Dict RegisteredTool × List Text → ToolRegistry
with_plugin r plugin added = record r {
  tools = added.0;
  plugin_tool_names = insert plugin added.1 r.plugin_tool_names;
}

unfoldable pub replace_plugin_tools : ToolRegistry → Text → List NewTool → ToolRegistry
unfolding remove_plugin_tools add_tools seed_configs lookup insert
replace_plugin_tools r plugin ts =
    let previous = or_nil (lookup plugin r.plugin_tool_names) in
    let removed = remove_plugin_tools r plugin in
    let added = add_tools plugin previous removed.tools ts in
    seed_configs (with_plugin removed plugin added) added.1

unfoldable pub register_plugin_tools : ToolRegistry → Text → List NewTool → ToolRegistry
unfolding replace_plugin_tools add_tools seed_configs lookup insert
register_plugin_tools r plugin ts =
    let added = add_tools plugin [] r.tools ts in
    if is_there (lookup plugin r.plugin_tool_names)
    then replace_plugin_tools r plugin ts
    else seed_configs (with_plugin r plugin added) added.1

-- The levels of the table that are below a tool's least level are raised; one that is not is written
-- again, which changes nothing.
unfoldable pub clamp_all : ToolRegistry → Dict ToolAccessLevel → List Text → Dict ToolAccessLevel
unfolding lookup insert
clamp_all r table [] = table
clamp_all r table (name ∷ names) = elim (lookup name r.tool_configs) [
  | none ↦ clamp_all r table names
  | some level ↦
      clamp_all r (insert name (enforce_minimum_access level (get_minimum_access r name)) table)
        names
]

abbrev pub with_clamped : ToolRegistry → Option (Dict ToolAccessLevel) → ToolRegistry
with_clamped r none = r
with_clamped r (some table) =
    let clamped = clamp_all r table (keys r.tools) in
    record r { db = some clamped; tool_configs = clamped }

unfoldable pub load_config_from_db : ToolRegistry → Dict ToolAccessLevel → ToolRegistry
unfolding seed_configs clamp_all
load_config_from_db r table =
    let seeded = seed_configs (record r { db = some table; tool_configs = table }) (keys r.tools) in
    with_clamped seeded seeded.db

abbrev pub save :
    ToolRegistry → Text → ToolAccessLevel → Option (Dict ToolAccessLevel) → ToolRegistry × Bool
save r name level none = (r, false)
save r name level (some table) =
    let saved = insert name (enforce_minimum_access level (get_minimum_access r name)) table in
    (record r { db = some saved; tool_configs = saved }, true)

unfoldable pub update_tool_level : ToolRegistry → Text → ToolAccessLevel → ToolRegistry × Bool
unfolding lookup insert
update_tool_level r name level = if has r name then save r name level r.db else (r, false)

abbrev pub is_off : ToolAccessLevel → Bool
is_off off = true
is_off _ = false

unfoldable pub set_tool_enabled : ToolRegistry → Text → Bool → ToolRegistry × Bool
unfolding update_tool_level lookup
set_tool_enabled r name false = update_tool_level r name off
set_tool_enabled r name true = update_tool_level r name (
    if is_off (get_effective_level r name)
    then get_minimum_access r name
    else get_effective_level r name)

unfoldable pub reset : ToolRegistry → ToolMode → ToolRegistry
reset r mode = record r {
  tools = [];
  plugin_tool_names = [];
  tool_configs = [];
  permissions = none;
  mode = mode;
  allow_from = [];
  admin_ids = [];
  admin_ids_configured = false;
}

abbrev pub set_permissions : ToolRegistry → ModulePermissions → ToolRegistry
set_permissions r p = record r { permissions = some p }

abbrev pub set_mode : ToolRegistry → ToolMode → ToolRegistry
set_mode r mode = record r { mode = mode }

abbrev pub set_allow_from : ToolRegistry → List ℕ → ToolRegistry
set_allow_from r ids = record r { allow_from = ids }

abbrev pub set_admin_ids : ToolRegistry → List ℕ → ToolRegistry
set_admin_ids r ids = record r { admin_ids = ids; admin_ids_configured = true }
