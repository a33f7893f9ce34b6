-- ===== src/Agent/Tools/Registry/Core.antt =====
-- The tools that are no plugin's.
use anonka.Prelude.{
  ◌≡◌, refl, sym, ◌∙◌, true, false, List, [], ◌∷◌, none, some, Text, text_eq, Bool-cases,
  Option-cases, inl, inr,
}
use anonka.Prelude.Dicts.{Dict, lookup, insert, delete, contains, lookup-insert, lookup-delete-some}
use anonka.Agent.Tools.Registry.{
  RegisteredTool, ToolRegistry, NewTool, is_there, add_tools, delete_all, or_nil,
  remove_plugin_tools, with_plugin, seed_configs, replace_plugin_tools, register_plugin_tools,
}
use anonka.Agent.Tools.Registry.Plugins.{
  mem_of_contains, lookup-delete_all, add_tools_keeps, add_tools_fresh,
}
use anonka.Agent.Tools.Registry.Calls.{
  PluginCall, registers_plugin, replaces_plugin, removes_plugin, plugin_step, SameTools,
  seed_configs-SameTools,
}

unfoldable pub run_plugins : ToolRegistry → List PluginCall → ToolRegistry
unfolding register_plugin_tools replace_plugin_tools remove_plugin_tools
run_plugins r [] = r
run_plugins r (c ∷ cs) = run_plugins (plugin_step r c) cs

-- No plugin owns the name.
abbrev pub IsFree : Dict (List Text) → Text → Type 0
IsFree owned n =
    (p : Text) (names : List Text) → lookup p owned ≡ some names → contains names n ≡ false

module _ (n : Text) (t : RegisteredTool) where
  -- The tool is there, and no plugin's.
  abbrev IsCore : Dict RegisteredTool → Dict (List Text) → Type 0
  IsCore tools owned = (lookup n tools ≡ some t) × IsFree owned n

  free_of :
      (plugin : Text) (owned : Dict (List Text))
      → IsFree owned n
      → contains (or_nil (lookup plugin owned)) n ≡ false
  unfolding contains
  free_of plugin owned free = elim (Option-cases (lookup plugin owned)) [
    | inl none_yet ↦ rw none_yet refl
    | inr (names, found) ↦ rw found (free plugin names found)
  ]

  remove-IsCore :
      (plugin : Text) (tools : Dict RegisteredTool) (owned : Dict (List Text))
      → IsCore tools owned
      → IsCore (delete_all (or_nil (lookup plugin owned)) tools) (delete plugin owned)
  remove-IsCore plugin tools owned (found, free) = (
    lookup-delete_all (or_nil (lookup plugin owned)) tools n ∙ rw (free_of plugin owned free) found,
    λ q names e. free q names (lookup-delete-some plugin q owned e),
  )

  add-IsCore :
      (plugin : Text) (before : List Text) (ts : List NewTool) (tools : Dict RegisteredTool)
      (owned : Dict (List Text))
      → contains before n ≡ false
      → IsCore tools owned
      → IsCore
          (add_tools plugin before tools ts).0
          (insert plugin (add_tools plugin before tools ts).1 owned)
  add-IsCore plugin before ts tools owned apart (found, free) = (
    add_tools_keeps plugin before ts tools n t found apart,
    λ q names e. elim (Bool-cases (text_eq plugin q)) [
      | inr other ↦ free q names (
          sym (lookup-insert plugin q (add_tools plugin before tools ts).1 owned ∙ rw other refl)
          ∙ e)
      | inl same ↦
          let is : some (add_tools plugin before tools ts).1 ≡ some names =
            sym (lookup-insert plugin q (add_tools plugin before tools ts).1 owned ∙ rw same refl)
            ∙ e in
          let at : names ≡ (add_tools plugin before tools ts).1 = cc in rw at not_added
    ],
  )
    where
      not_added : contains (add_tools plugin before tools ts).1 n ≡ false
      not_added = elim (Bool-cases (contains (add_tools plugin before tools ts).1 n)) [
        | inr out ↦ out
        | inl within ↦
            let m = mem_of_contains (add_tools plugin before tools ts).1 n within in
            elim (add_tools_fresh plugin before ts tools n m) [
              | inl none_there ↦ let bad : none ≡ some t = sym none_there ∙ found in cc
              | inr was_mine ↦ let bad : true ≡ false = sym was_mine ∙ apart in cc
            ]
      ]

  abbrev Core : ToolRegistry → Type 0
  Core r = IsCore r.tools r.plugin_tool_names

  Core-same : (s r : ToolRegistry) → SameTools s r → Core r → Core s
  Core-same s r (e, f) v = rw (e, f) v

  replace_plugin_tools-Core :
      (r : ToolRegistry) (plugin : Text) (ts : List NewTool)
      → Core r
      → Core (replace_plugin_tools r plugin ts)
  unfolding replace_plugin_tools remove_plugin_tools
  replace_plugin_tools-Core r plugin ts v =
      let removed = remove_plugin_tools r plugin in
      let previous = or_nil (lookup plugin r.plugin_tool_names) in
      let added = add_tools plugin previous removed.tools ts in
      let whole = with_plugin removed plugin added in
      Core-same (seed_configs whole added.1) whole (seed_configs-SameTools whole added.1) (
        add-IsCore plugin previous ts removed.tools removed.plugin_tool_names
          (free_of plugin r.plugin_tool_names v.1)
          (remove-IsCore plugin r.tools r.plugin_tool_names v))

  plugin_step-Core : (r : ToolRegistry) (c : PluginCall) → Core r → Core (plugin_step r c)
  unfolding register_plugin_tools remove_plugin_tools contains
  plugin_step-Core r (registers_plugin plugin ts) v =
      let added = add_tools plugin [] r.tools ts in
      let whole = with_plugin r plugin added in
      elim (Bool-cases (is_there (lookup plugin r.plugin_tool_names))) [
        | inl known ↦ rw (known, register_plugin_tools) (replace_plugin_tools-Core r plugin ts v)
        | inr new ↦
            rw (new, register_plugin_tools)
              (Core-same (seed_configs whole added.1) whole (seed_configs-SameTools whole added.1)
                (add-IsCore plugin [] ts r.tools r.plugin_tool_names refl v))
      ]
  plugin_step-Core r (replaces_plugin plugin ts) v = replace_plugin_tools-Core r plugin ts v
  plugin_step-Core r (removes_plugin plugin) v = remove-IsCore plugin r.tools r.plugin_tool_names v

  run_plugins-Core : (cs : List PluginCall) (r : ToolRegistry) → Core r → Core (run_plugins r cs)
  unfolding run_plugins
  run_plugins-Core [] r v = v
  run_plugins-Core (c ∷ cs) r v = run_plugins-Core cs (plugin_step r c) (plugin_step-Core r c v)

-- Whatever plugins are registered, replaced and removed, a tool that none of them owned before stays there,
-- the same.
pub core_tool_stays :
    (r : ToolRegistry) (calls : List PluginCall) (n : Text) (t : RegisteredTool)
    → lookup n r.tools ≡ some t
    → IsFree r.plugin_tool_names n
    → lookup n (run_plugins r calls).tools ≡ some t
core_tool_stays r calls n t found free = (run_plugins-Core n t calls r (found, free)).0
