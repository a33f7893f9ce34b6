-- ===== src/Agent/Tools/ModulePermissions.antt =====
-- src/agent/tools/module-permissions.ts: who may use a module's tools in a group. The table is a list of
-- rows, and the cache a map of maps; a level that is refused throws, which is `false` here.
pub mod Rows
pub mod Persisted
pub mod Tests
use anonka.Prelude.{
  Bool, true, false, ◌&&◌, List, [], ◌∷◌, ◌++◌, Option, none, some, Text, text, text_eq,
  if◌then◌else◌,
}
use anonka.Prelude.Dicts.{Dict, lookup, insert, delete, contains}

pub data ModuleLevel : Type 0 where
  open_level admin_level disabled_level : ModuleLevel

pub record Row : Type 0 where
  pub chat_id : Text
  pub module_name : Text
  pub level : ModuleLevel

abbrev pub Cache : Type 0
Cache = Dict (Dict ModuleLevel)

pub record ModulePermissions : Type 0 where
  pub rows : List Row
  pub cache : Cache

abbrev protected_modules : List Text
protected_modules = text "telegram" ∷ text "memory" ∷ []

abbrev pub chat_map : Option (Dict ModuleLevel) → Dict ModuleLevel
chat_map none = []
chat_map (some m) = m

abbrev pub or_open : Option ModuleLevel → ModuleLevel
or_open none = open_level
or_open (some l) = l

-- The entry of a chat's map, which is made if it is not there.
unfoldable pub set_cached : Cache → Text → Text → ModuleLevel → Cache
unfolding lookup insert
set_cached cache chat_id module_name level =
    insert chat_id (insert module_name level (chat_map (lookup chat_id cache))) cache

unfoldable pub drop_cached : Cache → Text → Text → Cache
unfolding lookup insert delete
drop_cached cache chat_id module_name = elim (lookup chat_id cache) [
  | none ↦ cache
  | some m ↦ insert chat_id (delete module_name m) cache
]

unfoldable pub load_from : Cache → List Row → Cache
unfolding set_cached
load_from cache [] = cache
load_from cache (r ∷ rows) = load_from (set_cached cache r.chat_id r.module_name r.level) rows

-- The constructor, on a database that may have rows already.
unfoldable pub load_all : List Row → ModulePermissions
unfolding load_from
load_all rows = record { rows = rows; cache = load_from [] rows }

unfoldable pub level_in : Cache → Text → Text → ModuleLevel
unfolding lookup
level_in cache chat_id module_name = or_open (lookup module_name (chat_map (lookup chat_id cache)))

unfoldable pub get_level : ModulePermissions → Text → Text → ModuleLevel
unfolding level_in
get_level p chat_id module_name = level_in p.cache chat_id module_name

abbrev pub is_row_of : Text → Text → Row → Bool
is_row_of chat_id module_name r = text_eq r.chat_id chat_id && text_eq r.module_name module_name

-- `DELETE FROM group_modules WHERE ...`
unfoldable pub delete_rows : (Row → Bool) → List Row → List Row
delete_rows gone [] = []
delete_rows gone (r ∷ rows) = let rest = delete_rows gone rows in if gone r then rest else r ∷ rest

unfoldable pub reset_module : ModulePermissions → Text → Text → ModulePermissions
unfolding delete_rows drop_cached
reset_module p chat_id module_name = record {
  rows = delete_rows (is_row_of chat_id module_name) p.rows;
  cache = drop_cached p.cache chat_id module_name;
}

unfoldable pub reset_all : ModulePermissions → Text → ModulePermissions
unfolding delete_rows delete
reset_all p chat_id = record {
  rows = delete_rows (λ r. text_eq r.chat_id chat_id) p.rows;
  cache = delete chat_id p.cache;
}

abbrev pub is_open : ModuleLevel → Bool
is_open open_level = true
is_open _ = false

abbrev pub is_protected : Text → Bool
is_protected module_name = contains protected_modules module_name

unfoldable pub set_level : ModulePermissions → Text → Text → ModuleLevel → ModulePermissions × Bool
unfolding contains delete_rows drop_cached set_cached
set_level p chat_id module_name level =
    if is_protected module_name
    then (p, false)
    else if is_open level
    then (
      record {
        rows = delete_rows (is_row_of chat_id module_name) p.rows;
        cache = drop_cached p.cache chat_id module_name;
      },
      true,
    )
    else (
      record {
        rows =
            delete_rows (is_row_of chat_id module_name) p.rows
            ++ record { chat_id = chat_id; module_name = module_name; level = level } ∷ [];
        cache = set_cached p.cache chat_id module_name level;
      },
      true,
    )
