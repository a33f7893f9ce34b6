-- ===== src/Agent/Tools/Registry/Tests.antt =====
-- The registry at concrete inputs.
use mathlib.Core.List.{Memᴰ}
use anonka.Prelude.{
  filter_by, ℕ, ◌≡◌, ◌↔◌, refl, true, false, ◌||◌, List, [], ◌∷◌, none, some, Text, text, text_eq,
  Bool-cases, inl, inr,
}
use anonka.Prelude.Dicts.{lookup, insert, delete, contains}
use anonka.Agent.Tools.Scope.{
  all, admin, Category, data_bearing, action, starts_with, get_builtin_minimum_access,
}
use anonka.Agent.Tools.Registry.{
  user, RegisteredTool, NewTool, ToolRegistry, new_registry, register, until_underscore,
  plugin_tool, add_tools, seed_table, seed_configs, delete_all, remove_plugin_tools,
  replace_plugin_tools, register_plugin_tools, clamp_all, load_config_from_db, update_tool_level,
  set_tool_enabled, reset,
}
use anonka.Agent.Tools.Authorization.{
  AccessContext, needs_allowlist, sender_listed, denied, allowed, check_access, execute,
  execute_context, passes_filters, get_for_context,
}
use anonka.Agent.Tools.Registry.Calls.{
  RegistryCall, of_plugin, registers_plugin, registers, loads_config, sets_allow_from, run,
}
use anonka.Agent.Tools.Registry.Access.{IsAllowed, execute_iff}
use anonka.Agent.Tools.Registry.Trust.{plugin_tool_trusted}
use anonka.Agent.Tools.Registry.Core.{IsFree, run_plugins}
use anonka.Agent.Tools.Registry.Listed.{get_for_context_iff}

registered : Unit {0}
unfolding passes_filters filter_by get_for_context new_registry register until_underscore add_tools
    seed_table seed_configs delete_all remove_plugin_tools replace_plugin_tools
    register_plugin_tools clamp_all load_config_from_db update_tool_level set_tool_enabled reset
    check_access execute run run_plugins lookup insert delete contains text_eq starts_with
    get_builtin_minimum_access
registered = tt

abbrev new_tool : Text → Category → NewTool
new_tool name category = record {
  name = name;
  category = some category;
  scope = none;
  mode = none;
  minimum_access = none;
  allow_from = none;
  tags = [];
}

-- A plugin cannot take the core's name, and its action is not open to everybody.
abbrev calls : List RegistryCall
calls =
    registers (new_tool (text "ton_send") action)
    ∷ of_plugin (
        registers_plugin (text "shop")
          (new_tool (text "ton_send") action ∷ new_tool (text "shop_buy") action ∷ []))
    ∷ sets_allow_from (5 ∷ [])
    ∷ loads_config ((text "shop_buy", all) ∷ [])
    ∷ []

abbrev registry : ToolRegistry
registry = run (new_registry user) calls

abbrev from_sender : ℕ → AccessContext
from_sender sender = execute_context registry [] sender (text "9") false false

abbrev shop_buy : RegisteredTool
shop_buy = plugin_tool (text "shop") (new_tool (text "shop_buy") action)

stranger_denied : execute registry (text "shop_buy") (from_sender 6) ≡ denied needs_allowlist
unfolding registered
stranger_denied = refl

private_builtin :
    get_builtin_minimum_access (text "ton_get_balance") (some data_bearing) none ≡ admin
unfolding registered
private_builtin = refl

execute_iff_example : (execute registry (text "shop_buy") (from_sender 5) ≡ allowed shop_buy) ↔ (
    (lookup (text "shop_buy") registry.tools ≡ some shop_buy)
    × IsAllowed registry (text "shop_buy") shop_buy (from_sender 5))
execute_iff_example = execute_iff registry (text "shop_buy") shop_buy (from_sender 5)

plugin_tool_trusted_example :
    ((from_sender 5).by_admin || sender_listed registry.allow_from (from_sender 5).sender_id) ≡ true
unfolding registered
plugin_tool_trusted_example =
    plugin_tool_trusted user calls (text "shop") (text "shop_buy" ∷ []) (text "shop_buy") shop_buy
      (from_sender 5) refl (Memᴰ.head refl) refl (λ e. cc)

shop_owns : IsFree registry.plugin_tool_names (text "ton_send")
unfolding registered
shop_owns p names e = elim (Bool-cases (text_eq (text "shop") p)) [
  | inl same ↦
      let is : some (text "shop_buy" ∷ []) ≡ some names = rw (same, lookup) at e in
      let at : names ≡ text "shop_buy" ∷ [] = cc in rw at refl
  | inr other ↦ let bad : none ≡ some names = rw (other, lookup) at e in cc
]

-- The core declared no level, so its tool is open to everybody; the plugin's is not.
stranger_shown : get_for_context registry (some 5) (from_sender 6) ≡ text "ton_send" ∷ []
unfolding registered
stranger_shown = refl

get_for_context_iff_example :
    (Memᴰ (text "shop_buy") (get_for_context registry none (from_sender 5)) ↔ (
      (t : RegisteredTool) × (execute registry
          (text "shop_buy")
          (record (from_sender 5) { by_guest = false })
        ≡ allowed t)))
    × (Memᴰ (text "shop_buy") (get_for_context registry none (from_sender 5)) ↔ (
        (t : RegisteredTool) × (lookup (text "shop_buy") registry.tools ≡ some t)
        × IsAllowed registry (text "shop_buy") t (record (from_sender 5) { by_guest = false })))
get_for_context_iff_example = get_for_context_iff registry (from_sender 5) (text "shop_buy")
