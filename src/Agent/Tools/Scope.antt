-- ===== src/Agent/Tools/Scope.antt =====
-- src/agent/tools/scope.ts and security-policy.ts: the ladder of access levels, and the least level of a
-- built-in tool.
pub mod Ladder
use anonka.Prelude.{
  ℕ, Bool, true, false, ◌||◌, List, [], ◌∷◌, Option, none, some, Text, text, text_eq, if◌then◌else◌,
  leb, ◌==◌,
}
use anonka.Prelude.Dicts.{contains}

pub data ToolAccessLevel : Type 0 where
  all allowlist admin off : ToolAccessLevel

pub data ToolScope : Type 0 where
  open_scope always dm_only group_only admin_only allowlist_scope disabled : ToolScope

pub data Category : Type 0 where
  data_bearing action : Category

abbrev pub access_rank : ToolAccessLevel → ℕ
access_rank all = 0
access_rank allowlist = 1
access_rank admin = 2
access_rank off = 3

abbrev pub enforce_minimum_access : ToolAccessLevel → ToolAccessLevel → ToolAccessLevel
enforce_minimum_access requested minimum =
    if leb (access_rank minimum) (access_rank requested) then requested else minimum

abbrev pub scope_to_level : Option ToolScope → ToolAccessLevel
scope_to_level (some admin_only) = admin
scope_to_level (some allowlist_scope) = allowlist
scope_to_level (some disabled) = off
scope_to_level _ = all

abbrev pub level_to_scope : ToolAccessLevel → ToolScope
level_to_scope admin = admin_only
level_to_scope allowlist = allowlist_scope
level_to_scope off = disabled
level_to_scope all = open_scope

abbrev owner_private_data : List Text
owner_private_data =
    text "journal_query"
    ∷ text "memory_read"
    ∷ text "memory_search"
    ∷ text "session_search"
    ∷ text "telegram_get_admined_channels"
    ∷ text "telegram_get_blocked"
    ∷ text "telegram_get_common_chats"
    ∷ text "telegram_get_dialogs"
    ∷ text "telegram_get_folders"
    ∷ text "telegram_get_history"
    ∷ text "telegram_get_me"
    ∷ text "telegram_get_my_gifts"
    ∷ text "telegram_get_my_stickers"
    ∷ text "telegram_get_replies"
    ∷ text "telegram_get_scheduled_messages"
    ∷ text "telegram_get_stars_balance"
    ∷ text "telegram_get_stars_transactions"
    ∷ text "telegram_get_user_info"
    ∷ text "telegram_search_global"
    ∷ text "telegram_search_messages"
    ∷ text "telegram_search_posts"
    ∷ text "ton_get_address"
    ∷ text "ton_get_balance"
    ∷ text "ton_my_transactions"
    ∷ text "jetton_balances"
    ∷ text "nft_list"
    ∷ []

abbrev owner_only_actions : List Text
owner_only_actions = text "telegram_create_scheduled_task" ∷ []

unfoldable pub starts_with : Text → Text → Bool
starts_with [] s = true
starts_with (c ∷ p) [] = false
starts_with (c ∷ p) (d ∷ s) = let rest = starts_with p s in if c == d then rest else false

abbrev is_owner_tool : Text → Bool
is_owner_tool name =
    contains owner_only_actions name
    || contains owner_private_data name
    || starts_with (text "workspace_") name

abbrev pub level_of_category : Option Category → ToolAccessLevel
level_of_category (some data_bearing) = all
level_of_category _ = allowlist

abbrev level_by_name : Text → Option Category → ToolAccessLevel
level_by_name name category =
    if is_owner_tool name
    then admin
    else if starts_with (text "telegram_") name
    then allowlist
    else level_of_category category

unfoldable pub get_builtin_minimum_access :
    Text → Option Category → Option ToolScope → ToolAccessLevel
unfolding contains starts_with
get_builtin_minimum_access name category (some dm_only) = admin
get_builtin_minimum_access name category (some group_only) = admin
get_builtin_minimum_access name category (some admin_only) = admin
get_builtin_minimum_access name category (some allowlist_scope) =
    scope_to_level (some allowlist_scope)
get_builtin_minimum_access name category (some disabled) = scope_to_level (some disabled)
get_builtin_minimum_access name category _ = level_by_name name category
