-- ===== src/Agent/Tools/Registry/Trust.antt =====
-- Plugins own their tools, and are no way round the allowlist.
use mathlib.Core.List.{Memᴰ}
use anonka.Prelude.{
  ◌≡◌, ◌≢◌, refl, sym, ap, ◌∙◌, Bool, true, false, ◌||◌, List, [], ◌∷◌, some, Text, Bool-cases,
  Option-cases, inl, inr,
}
use anonka.Prelude.Dicts.{lookup, contains}
use anonka.Agent.Tools.Scope.{data_bearing, ToolAccessLevel, all, allowlist, admin, off}
use anonka.Agent.Tools.Scope.Ladder.{lets_in}
use anonka.Agent.Tools.Registry.{
  ToolMode, RegisteredTool, ToolRegistry, NewTool, new_registry, is_there, core_tool,
  until_underscore, register, add_tools, or_nil, remove_plugin_tools, with_plugin, seed_configs,
  replace_plugin_tools, register_plugin_tools, load_config_from_db, update_tool_level,
  set_tool_enabled, reset, or_else,
}
use anonka.Agent.Tools.Authorization.{AccessContext, sender_listed, allowed, execute}
use anonka.Agent.Tools.Registry.Access.{execute_iff}
use anonka.Agent.Tools.Registry.Owned.{
  IsOwned, not_previous, remove-IsOwned, add-IsOwned, register-IsOwned,
}
use anonka.Agent.Tools.Registry.Calls.{
  registers_plugin, replaces_plugin, removes_plugin, RegistryCall, of_plugin, registers,
  loads_config, updates_level, enables, sets_mode, resets, sets_allow_from, sets_admin_ids,
  sets_permissions, step, run, SameTools, seed_configs-SameTools, load_config_from_db-SameTools,
  update_tool_level-SameTools, set_tool_enabled-SameTools,
}

abbrev Owned : ToolRegistry → Type 0
Owned r = IsOwned r.tools r.plugin_tool_names

Owned-same : (s r : ToolRegistry) → SameTools s r → Owned r → Owned s
Owned-same s r (e, f) v = rw (e, f) v

replace_plugin_tools-Owned :
    (r : ToolRegistry) (plugin : Text) (ts : List NewTool)
    → Owned r
    → Owned (replace_plugin_tools r plugin ts)
unfolding replace_plugin_tools remove_plugin_tools
replace_plugin_tools-Owned r plugin ts v =
    let removed = remove_plugin_tools r plugin in
    let previous = or_nil (lookup plugin r.plugin_tool_names) in
    let added = add_tools plugin previous removed.tools ts in
    let whole = with_plugin removed plugin added in
    Owned-same (seed_configs whole added.1) whole (seed_configs-SameTools whole added.1) (
      add-IsOwned removed.tools removed.plugin_tool_names
        (remove-IsOwned r.tools r.plugin_tool_names v plugin) plugin previous ts
        (not_previous r.tools r.plugin_tool_names v plugin))

register_plugin_tools-Owned :
    (r : ToolRegistry) (plugin : Text) (ts : List NewTool)
    → Owned r
    → Owned (register_plugin_tools r plugin ts)
unfolding register_plugin_tools contains
register_plugin_tools-Owned r plugin ts v =
    let added = add_tools plugin [] r.tools ts in
    let whole = with_plugin r plugin added in
    elim (Bool-cases (is_there (lookup plugin r.plugin_tool_names))) [
      | inl known ↦ rw (known, register_plugin_tools) (replace_plugin_tools-Owned r plugin ts v)
      | inr new ↦
          rw (new, register_plugin_tools)
            (Owned-same (seed_configs whole added.1) whole (seed_configs-SameTools whole added.1)
              (add-IsOwned r.tools r.plugin_tool_names v plugin [] ts (λ q names n e m. refl)))
    ]

register-Owned : (r : ToolRegistry) (t : NewTool) → Owned r → Owned (register r t).0
unfolding register
register-Owned r t v = elim (Option-cases (lookup t.name r.tools)) [
  | inl free ↦
      rw (ap is_there free, register)
        (register-IsOwned r.tools r.plugin_tool_names v t.name
          (core_tool (until_underscore t.name) t) free)
  | inr (u, taken) ↦ rw (ap is_there taken, register) v
]

step-Owned : (r : ToolRegistry) (c : RegistryCall) → Owned r → Owned (step r c)
unfolding remove_plugin_tools reset lookup
step-Owned r (of_plugin (registers_plugin plugin ts)) v = register_plugin_tools-Owned r plugin ts v
step-Owned r (of_plugin (replaces_plugin plugin ts)) v = replace_plugin_tools-Owned r plugin ts v
step-Owned r (of_plugin (removes_plugin plugin)) v =
    remove-IsOwned r.tools r.plugin_tool_names v plugin
step-Owned r (registers t) v = register-Owned r t v
step-Owned r (loads_config table) v =
    Owned-same (load_config_from_db r table) r (load_config_from_db-SameTools r table) v
step-Owned r (updates_level name level) v =
    Owned-same (update_tool_level r name level).0 r (update_tool_level-SameTools r name level) v
step-Owned r (enables name enabled) v =
    Owned-same (set_tool_enabled r name enabled).0 r (set_tool_enabled-SameTools r name enabled) v
step-Owned r (sets_mode mode) v = v
step-Owned r (resets mode) v = record {
  external = λ p names n e m. cc;
  exclusive = λ p q names others n e f m k. cc;
}
step-Owned r (sets_allow_from ids) v = v
step-Owned r (sets_admin_ids ids) v = v
step-Owned r (sets_permissions p) v = v

run_from-Owned : (cs : List RegistryCall) (r : ToolRegistry) → Owned r → Owned (run r cs)
unfolding run
run_from-Owned [] r v = v
run_from-Owned (c ∷ cs) r v = run_from-Owned cs (step r c) (step-Owned r c v)

run-Owned : (mode : ToolMode) (cs : List RegistryCall) → Owned (run (new_registry mode) cs)
unfolding new_registry lookup
run-Owned mode cs =
    run_from-Owned cs (new_registry mode)
      (record { external = λ p names n e m. cc; exclusive = λ p q names others n e f m k. cc })

-- After any calls on a new registry: whoever gets a plugin's tool that is not declared to read data only is
-- an admin or on the registry's allowlist, whatever the plugin declares, and whatever is configured.
pub plugin_tool_trusted :
    (mode : ToolMode) (calls : List RegistryCall) (plugin : Text) (names : List Text) (name : Text)
    (t : RegisteredTool) (ctx : AccessContext)
    → lookup plugin (run (new_registry mode) calls).plugin_tool_names ≡ some names
    → Memᴰ name names
    → execute (run (new_registry mode) calls) name ctx ≡ allowed t
    → t.category ≢ some data_bearing
    → (ctx.by_admin || sender_listed (run (new_registry mode) calls).allow_from ctx.sender_id)
      ≡ true
plugin_tool_trusted mode calls plugin names name t ctx owns m ok acts =
    let r = run (new_registry mode) calls in
    let (found, allows) = (execute_iff r name t ctx).0 ok in
    let (u, there, external) = (run-Owned mode calls).external plugin names name owns m in
    let same : u ≡ t = by_some (sym there ∙ found) in
    let guarded : t.minimum_access ≢ all = elim external.guarded [
      | inl reads ↦ absurd (acts (ap (λ (t : RegisteredTool). t.category) (sym same) ∙ reads))
      | inr h ↦ λ e. h (ap (λ (t : RegisteredTool). t.minimum_access) same ∙ e)
    ] in
    let own_list : sender_listed (or_else t.allow_from r.allow_from) ctx.sender_id
        ≡ sender_listed r.allow_from ctx.sender_id =
      ap (λ o. sender_listed (or_else o r.allow_from) ctx.sender_id)
        (ap (λ (t : RegisteredTool). t.allow_from) (sym same) ∙ external.no_list) in
    by_level t.minimum_access ctx.by_admin (sender_listed r.allow_from ctx.sender_id) guarded
      (rw own_list at allows.minimum)
  where
    by_level : (l : ToolAccessLevel) (a b : Bool) → l ≢ all → lets_in l a b ≡ true → (a || b) ≡ true
    by_level all a b not_all h = absurd (not_all refl)
    by_level allowlist a b not_all h = h
    by_level admin true b not_all h = refl
    by_level admin false b not_all h = cc
    by_level off a b not_all h = cc

    by_some : {u v : RegisteredTool} → some u ≡ some v → u ≡ v
    by_some e = cc
