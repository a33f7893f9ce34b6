-- ===== src/Agent/Tools/Registry/Access.antt =====
-- Who may use which tool where, against an independent description.
use anonka.Prelude.{
  and_iff, ◌≡◌, ◌≢◌, ◌↔◌, refl, sym, ap, ◌∙◌, Bool, true, false, ◌&&◌, ◌||◌, [], ◌∷◌, Option, none,
  some, Text, if◌then◌else◌, Bool-cases, Option-cases, inl, inr,
}
use anonka.Prelude.Dicts.{lookup}
use anonka.Agent.Tools.Scope.{
  ToolAccessLevel, all, allowlist, admin, off, ToolScope, open_scope, always, dm_only, group_only,
  admin_only, allowlist_scope, disabled, enforce_minimum_access,
}
use anonka.Agent.Tools.Scope.Ladder.{lets_in, lets_in-enforce_minimum_access}
use anonka.Agent.Tools.ModulePermissions.{
  ModulePermissions, ModuleLevel, open_level, admin_level, disabled_level, get_level,
}
use anonka.Agent.Tools.Registry.{
  RegisteredTool, ToolRegistry, or_else, get_effective_level, minimum_of,
}
use anonka.Agent.Tools.Authorization.{
  is_send_tool, AccessDenial, is_guest, needs_admin, needs_allowlist, wrong_mode, AccessContext,
  mode_fits, sender_listed, check_module, check_chat, check_group, check_level, channel_denial,
  or_check, check_access, allowed, of_denial, execute,
}

abbrev pub module_lets_in : ModuleLevel → Bool → Bool
module_lets_in open_level by_admin = true
module_lets_in admin_level by_admin = by_admin
module_lets_in disabled_level by_admin = false

abbrev pub is_listed : ToolRegistry → RegisteredTool → AccessContext → Bool
is_listed r t ctx = sender_listed (or_else t.allow_from r.allow_from) ctx.sender_id

abbrev pub configured : ToolRegistry → Text → ToolAccessLevel
configured r name = or_else (lookup name r.tool_configs) all

-- What a call needs to be allowed.
pub record IsAllowed (r : ToolRegistry) (name : Text) (t : RegisteredTool) (ctx : AccessContext)
    : Type 0 where
  pub mode : mode_fits t.mode r.mode ≡ true
  pub guest : is_send_tool name ≡ true → ctx.by_guest ≡ false
  pub dm : t.scope ≡ some dm_only → ctx.in_group ≡ false
  pub group : t.scope ≡ some group_only → ctx.in_group ≡ true
  pub configured_level : lets_in (configured r name) ctx.by_admin (is_listed r t ctx) ≡ true
  pub minimum : lets_in t.minimum_access ctx.by_admin (is_listed r t ctx) ≡ true
  pub in_module :
      (p : ModulePermissions) (chat : Text)
      → ctx.in_group ≡ true
      → r.permissions ≡ some p
      → ctx.chat_id ≡ some chat
      → chat ≢ []
      → t.module_name ≢ []
      → module_lets_in (get_level p chat t.module_name) ctx.by_admin ≡ true

module _ (r : ToolRegistry) (t : RegisteredTool) (ctx : AccessContext) where
  abbrev IsModuleOpen : Type 0
  IsModuleOpen =
      (p : ModulePermissions) (chat : Text)
      → ctx.in_group ≡ true
      → r.permissions ≡ some p
      → ctx.chat_id ≡ some chat
      → chat ≢ []
      → t.module_name ≢ []
      → module_lets_in (get_level p chat t.module_name) ctx.by_admin ≡ true

  check_module_iff :
      (l : ModuleLevel) (b : Bool) (m : Text)
      → (check_module l b m ≡ none) ↔ (module_lets_in l b ≡ true)
  check_module_iff open_level b m = (λ h. refl, λ h. refl)
  check_module_iff disabled_level b m = (λ h. cc, λ h. cc)
  check_module_iff admin_level true m = (λ h. refl, λ h. refl)
  check_module_iff admin_level false m = (λ h. cc, λ h. cc)

  check_chat_iff :
      (o : Option ModulePermissions) (m : Text) (chat : Option Text) (b : Bool)
      → (check_chat o m chat b ≡ none) ↔ (
          (p : ModulePermissions) (c : Text)
          → o ≡ some p
          → chat ≡ some c
          → c ≢ []
          → m ≢ []
          → module_lets_in (get_level p c m) b ≡ true)
  check_chat_iff none m chat b = (λ h. λ p c e f x y. cc, λ h. refl)
  check_chat_iff (some p) m none b = (λ h. λ q c e f x y. cc, λ h. refl)
  check_chat_iff (some p) m (some []) b =
      (λ h. λ q c e f x y. let empty : c ≡ [] = cc in absurd (x empty), λ h. refl)
  check_chat_iff (some p) [] (some (k ∷ c)) b = (λ h. λ q d e f x y. absurd (y refl), λ h. refl)
  check_chat_iff (some p) (n ∷ m) (some (k ∷ c)) b =
      let (from, to) = check_module_iff (get_level p (k ∷ c) (n ∷ m)) b (n ∷ m) in
      (
        λ h. λ q d e f x y. let is : q ≡ p = cc in let at : d ≡ k ∷ c = cc in rw (is, at) (from h),
        λ h. to (h p (k ∷ c) refl refl (λ e. cc) (λ e. cc)),
      )

  gate_iff :
      {P : Type 0} (b : Bool) (d : AccessDenial) {x : Option AccessDenial}
      → ((x ≡ none) ↔ P)
      → ((if b then x else some d) ≡ none) ↔ ((b ≡ true) × P)
  gate_iff true d (f, b) = (λ h. (refl, f h), λ h. b h.1)
  gate_iff false d (f, b) = (λ h. cc, λ h. cc)

  check_group_iff : (check_group r t ctx ≡ none) ↔ IsModuleOpen
  check_group_iff =
      let (from, to) = check_chat_iff r.permissions t.module_name ctx.chat_id ctx.by_admin in
      elim (Bool-cases ctx.in_group) [
        | inl grouped ↦
            (λ h. λ p c g. from (rw grouped at h) p c, λ h. rw grouped (to (λ p c. h p c grouped)))
        | inr direct ↦
            (λ h. λ p c g. let bad : true ≡ false = sym g ∙ direct in cc, λ h. rw direct refl)
      ]

  check_level_iff :
      (l : ToolAccessLevel)
      → (check_level r t ctx l ≡ none)
        ↔ ((lets_in l ctx.by_admin (is_listed r t ctx) ≡ true) × IsModuleOpen)
  check_level_iff all = (λ h. (refl, check_group_iff.0 h), λ h. check_group_iff.1 h.1)
  check_level_iff off = (λ h. cc, λ h. cc)
  check_level_iff admin = gate_iff ctx.by_admin needs_admin check_group_iff
  check_level_iff allowlist =
      gate_iff (ctx.by_admin || is_listed r t ctx) needs_allowlist check_group_iff

  check_channel_iff :
      {P : Type 0} (s : Option ToolScope) (in_group : Bool) (x : Option AccessDenial)
      → ((x ≡ none) ↔ P)
      → (or_check (channel_denial s in_group) x ≡ none)
        ↔ ((s ≡ some dm_only → in_group ≡ false) × (s ≡ some group_only → in_group ≡ true) × P)
  check_channel_iff none g x (f, b) = (λ h. (λ e. cc, λ e. cc, f h), λ h. b h.2)
  check_channel_iff (some dm_only) true x (f, b) =
      (λ h. cc, λ h. let bad : true ≡ false = h.0 refl in cc)
  check_channel_iff (some dm_only) false x (f, b) = (λ h. (λ e. refl, λ e. cc, f h), λ h. b h.2)
  check_channel_iff (some group_only) true x (f, b) = (λ h. (λ e. cc, λ e. refl, f h), λ h. b h.2)
  check_channel_iff (some group_only) false x (f, b) =
      (λ h. cc, λ h. let bad : false ≡ true = h.1 refl in cc)
  check_channel_iff (some open_scope) g x (f, b) = (λ h. (λ e. cc, λ e. cc, f h), λ h. b h.2)
  check_channel_iff (some always) g x (f, b) = (λ h. (λ e. cc, λ e. cc, f h), λ h. b h.2)
  check_channel_iff (some admin_only) g x (f, b) = (λ h. (λ e. cc, λ e. cc, f h), λ h. b h.2)
  check_channel_iff (some allowlist_scope) g x (f, b) = (λ h. (λ e. cc, λ e. cc, f h), λ h. b h.2)
  check_channel_iff (some disabled) g x (f, b) = (λ h. (λ e. cc, λ e. cc, f h), λ h. b h.2)

  check_guest_iff :
      {P : Type 0} (g s : Bool) (x : Option AccessDenial)
      → ((x ≡ none) ↔ P)
      → ((if g && s then some is_guest else x) ≡ none) ↔ ((s ≡ true → g ≡ false) × P)
  check_guest_iff false s x (f, b) = (λ h. (λ e. refl, f h), λ h. b h.1)
  check_guest_iff true false x (f, b) = (λ h. (λ e. cc, f h), λ h. b h.1)
  check_guest_iff true true x (f, b) = (λ h. cc, λ h. let bad : true ≡ false = h.0 refl in cc)

  check_access_iff :
      (name : Text)
      → lookup name r.tools ≡ some t
      → (check_access r name t ctx ≡ none) ↔ IsAllowed r name t ctx
  unfolding check_access
  check_access_iff name found =
      let level = get_effective_level r name in
      let (from, to) = gate_iff (mode_fits t.mode r.mode) (wrong_mode t.mode) (
        check_guest_iff ctx.by_guest (is_send_tool name)
          (or_check (channel_denial t.scope ctx.in_group) (check_level r t ctx level))
          (check_channel_iff t.scope ctx.in_group (check_level r t ctx level)
            (check_level_iff level))) in
      let (split, join) =
        and_iff (lets_in (configured r name) ctx.by_admin (is_listed r t ctx))
          (lets_in t.minimum_access ctx.by_admin (is_listed r t ctx)) in
      let both_levels =
        ap
          (λ o.
            lets_in (enforce_minimum_access (configured r name) (minimum_of o)) ctx.by_admin
              (is_listed r t ctx))
          found
        ∙ lets_in-enforce_minimum_access (configured r name) t.minimum_access ctx.by_admin
            (is_listed r t ctx) in
      (
        λ h.
            let (mode, (guest, (dm, group, (level, in_module)))) = from h in
            let (by_config, by_minimum) = split (sym both_levels ∙ level) in
            record {
              mode = mode;
              guest = guest;
              dm = dm;
              group = group;
              configured_level = by_config;
              minimum = by_minimum;
              in_module = in_module;
            },
        λ a. to (
          a.mode,
          (
            a.guest,
            (a.dm, a.group, (both_levels ∙ join (a.configured_level, a.minimum), a.in_module)),
          ),
        ),
      )

-- A call of a tool is let through exactly if the tool is there, fits the mode and the channel, is no send
-- tool in the hands of a guest, both its configured level and its least level let the sender in, and in
-- a group its module's level does so too. The least level counts whatever is configured.
pub execute_iff :
    (r : ToolRegistry) (name : Text) (t : RegisteredTool) (ctx : AccessContext)
    → (execute r name ctx ≡ allowed t) ↔ ((lookup name r.tools ≡ some t) × IsAllowed r name t ctx)
unfolding execute
execute_iff r name t ctx = elim (Option-cases (lookup name r.tools)) [
  | inl unknown ↦ (
    λ h. let bad = (rw (unknown, execute) at h) in cc,
    λ h. let bad : none ≡ some t = sym unknown ∙ h.0 in cc,
  )
  | inr (u, found) ↦
      let (from, to) = check_access_iff r u ctx name found in
      (
        λ h.
            let (ok, same) =
              of_denial_iff u t (check_access r name u ctx) (rw (found, execute) at h) in
            (rw (← same) found, rw (← same) (from ok)),
        λ h.
            let same : u ≡ t = by_some (sym found ∙ h.0) in
            rw (found, execute) (ap (of_denial u) (to (rw same h.1)) ∙ ap allowed same),
      )
]
  where
    by_some : {u v : RegisteredTool} → some u ≡ some v → u ≡ v
    by_some e = cc

    of_denial_iff :
        (u v : RegisteredTool) (x : Option AccessDenial)
        → of_denial u x ≡ allowed v
        → (x ≡ none) × (u ≡ v)
    of_denial_iff u v none h = (refl, cc)
    of_denial_iff u v (some d) h = cc
