-- ===== src/Agent/Tools/Authorization.antt =====
-- src/agent/tools/registry.ts, `checkAccess` and `execute`: who may run a tool where. Running a tool that is
-- allowed is left to the caller.
use anonka.Prelude.{
  filter_by, take, ℕ, zero, suc, Bool, true, false, ◌&&◌, ◌||◌, List, [], ◌∷◌, Option, none, some,
  Text, text, if◌then◌else◌, ◌==◌,
}
use anonka.Prelude.Dicts.{keys, lookup, contains}
use anonka.Agent.Tools.Scope.{
  ToolAccessLevel, all, allowlist, admin, off, ToolScope, dm_only, group_only,
}
use anonka.Agent.Tools.ModulePermissions.{
  ModulePermissions, ModuleLevel, open_level, admin_level, disabled_level, get_level,
}
use anonka.Agent.Tools.Registry.{
  user, bot, both, RegisteredTool, ToolMode, ToolRegistry, get_effective_level, or_else,
}

abbrev telegram_send_tools : List Text
telegram_send_tools =
    text "telegram_send_message"
    ∷ text "telegram_send_gif"
    ∷ text "telegram_send_voice"
    ∷ text "telegram_send_sticker"
    ∷ text "telegram_send_photo"
    ∷ text "telegram_forward_message"
    ∷ text "telegram_quote_reply"
    ∷ text "telegram_send_buttons"
    ∷ []

abbrev pub is_send_tool : Text → Bool
is_send_tool name = contains telegram_send_tools name

pub data AccessDenial : Type 0 where
  wrong_mode : ToolMode → AccessDenial
  is_disabled needs_admin needs_allowlist needs_dm needs_group is_guest : AccessDenial
  module_disabled module_admin : (module_name : Text) → AccessDenial

pub record AccessContext : Type 0 where
  pub in_group : Bool
  pub by_admin : Bool
  pub by_guest : Bool
  pub sender_id : Option ℕ
  pub chat_id : Option Text

abbrev pub mode_fits : ToolMode → ToolMode → Bool
mode_fits both mode = true
mode_fits user user = true
mode_fits bot bot = true
mode_fits user _ = false
mode_fits bot _ = false

abbrev pub listed : List ℕ → ℕ → Bool
listed [] id = false
listed (j ∷ ids) id = j == id || listed ids id

-- The sender is on the tool's own list, or else on the registry's; there is no sender 0.
abbrev pub sender_listed : List ℕ → Option ℕ → Bool
sender_listed ids none = false
sender_listed ids (some zero) = false
sender_listed ids (some (suc n)) = listed ids (suc n)

abbrev pub check_module : ModuleLevel → Bool → Text → Option AccessDenial
check_module open_level by_admin module_name = none
check_module disabled_level by_admin module_name = some (module_disabled module_name)
check_module admin_level true module_name = none
check_module admin_level false module_name = some (module_admin module_name)

abbrev pub check_chat : Option ModulePermissions → Text → Option Text → Bool → Option AccessDenial
check_chat none module_name chat by_admin = none
check_chat (some p) module_name none by_admin = none
check_chat (some p) module_name (some []) by_admin = none
check_chat (some p) [] (some (c ∷ chat)) by_admin = none
check_chat (some p) (m ∷ module_name) (some (c ∷ chat)) by_admin =
    check_module (get_level p (c ∷ chat) (m ∷ module_name)) by_admin (m ∷ module_name)

abbrev pub check_group : ToolRegistry → RegisteredTool → AccessContext → Option AccessDenial
check_group r t ctx =
    if ctx.in_group then check_chat r.permissions t.module_name ctx.chat_id ctx.by_admin else none

abbrev pub check_level :
    ToolRegistry → RegisteredTool → AccessContext → ToolAccessLevel → Option AccessDenial
check_level r t ctx off = some is_disabled
check_level r t ctx admin = if ctx.by_admin then check_group r t ctx else some needs_admin
check_level r t ctx allowlist =
    if ctx.by_admin || sender_listed (or_else t.allow_from r.allow_from) ctx.sender_id
    then check_group r t ctx
    else some needs_allowlist
check_level r t ctx all = check_group r t ctx

abbrev pub channel_denial : Option ToolScope → Bool → Option AccessDenial
channel_denial (some dm_only) true = some needs_dm
channel_denial (some group_only) false = some needs_group
channel_denial _ in_group = none

abbrev pub or_check : Option AccessDenial → Option AccessDenial → Option AccessDenial
or_check none checked = checked
or_check (some denial) checked = some denial

-- `checkAccess` of a tool that is there: `none` if it is allowed.
unfoldable pub check_access :
    ToolRegistry → Text → RegisteredTool → AccessContext → Option AccessDenial
unfolding lookup contains get_level
check_access r name t ctx =
    if mode_fits t.mode r.mode
    then (if ctx.by_guest && is_send_tool name
        then some is_guest
        else or_check (channel_denial t.scope ctx.in_group)
            (check_level r t ctx (get_effective_level r name)))
    else some (wrong_mode t.mode)

pub data Authorized : Type 0 where
  unknown_tool : Authorized
  denied : AccessDenial → Authorized
  allowed : RegisteredTool → Authorized

abbrev pub is_admin : ToolRegistry → List ℕ → ℕ → Bool
is_admin r config_admins sender =
    if r.admin_ids_configured then listed r.admin_ids sender else listed config_admins sender

abbrev pub of_denial : RegisteredTool → Option AccessDenial → Authorized
of_denial t none = allowed t
of_denial t (some denial) = denied denial

abbrev pub execute_context :
    ToolRegistry → List ℕ → ℕ → Text → (in_group by_guest : Bool) → AccessContext
execute_context r config_admins sender chat_id in_group by_guest = record {
  in_group = in_group;
  by_admin = is_admin r config_admins sender;
  by_guest = by_guest;
  sender_id = some sender;
  chat_id = some chat_id;
}

-- `execute` up to the execution itself.
unfoldable pub execute : ToolRegistry → Text → AccessContext → Authorized
unfolding lookup check_access
execute r name ctx = elim (lookup name r.tools) [
  | none ↦ unknown_tool
  | some t ↦ of_denial t (check_access r name t ctx)
]

-- `.ok` of what `checkAccess` answers.
abbrev is_ok : Option AccessDenial → Bool
is_ok none = true
is_ok (some denial) = false

-- `passesFilters`: the tool is there, and `checkAccess` lets it through in a context that names the chat,
-- the sender and whether that is an admin, but no guest.
unfoldable pub passes_filters : ToolRegistry → AccessContext → Text → Bool
unfolding lookup check_access
passes_filters r ctx name = elim (lookup name r.tools) [
  | none ↦ false
  | some t ↦ is_ok (check_access r name t (record ctx { by_guest = false }))
]

abbrev pub passing : ToolRegistry → AccessContext → List Text → List Text
passing r ctx names = filter_by (passes_filters r ctx) names

abbrev pub apply_limit : Option ℕ → List Text → List Text
apply_limit none names = names
apply_limit (some n) names = take n names

-- The names of the tools that a model is shown.
unfoldable pub get_for_context : ToolRegistry → Option ℕ → AccessContext → List Text
unfolding passes_filters filter_by
get_for_context r limit ctx = apply_limit limit (passing r ctx (keys r.tools))
