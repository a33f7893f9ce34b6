-- ===== src/Agent/Tools/ModulePermissions/Tests.antt =====
-- The permissions of the modules at concrete inputs.
use anonka.Prelude.{◌≡◌, refl, List, [], ◌∷◌, text, text_eq}
use anonka.Prelude.Dicts.{lookup, insert, delete, contains}
use anonka.Agent.Tools.ModulePermissions.{
  open_level, admin_level, disabled_level, Row, set_cached, drop_cached, load_from, load_all,
  level_in, get_level, delete_rows, reset_module, reset_all, set_level,
}
use anonka.Agent.Tools.ModulePermissions.Persisted.{
  Call, sets, resets_module, run, spec_run, run_refines,
}
use anonka.Agent.Tools.ModulePermissions.Rows.{last_level}

permitted : Unit {0}
unfolding run load_all load_from get_level level_in set_cached drop_cached delete_rows reset_module
    reset_all set_level lookup insert delete contains last_level text_eq
permitted = tt

abbrev old_rows : List Row
old_rows = record { chat_id = text "1"; module_name = text "ton"; level = disabled_level } ∷ []

-- The protected module keeps its level, and the last call of a module counts.
abbrev calls : List Call
calls =
    sets (text "1") (text "memory") disabled_level
    ∷ sets (text "1") (text "nft") disabled_level
    ∷ sets (text "1") (text "nft") admin_level
    ∷ resets_module (text "2") (text "nft")
    ∷ []

kept_protected : get_level (run (load_all old_rows) calls) (text "1") (text "memory") ≡ open_level
unfolding permitted
kept_protected = refl

restricted : get_level (run (load_all old_rows) calls) (text "1") (text "nft") ≡ admin_level
unfolding permitted
restricted = refl

run_refines_example :
    (get_level (run (load_all old_rows) calls) (text "1") (text "nft")
      ≡ spec_run (λ c m. last_level c m open_level old_rows) calls (text "1") (text "nft"))
    × (get_level (load_all (run (load_all old_rows) calls).rows) (text "1") (text "nft")
        ≡ spec_run (λ c m. last_level c m open_level old_rows) calls (text "1") (text "nft"))
run_refines_example = run_refines old_rows calls (text "1") (text "nft")
