-- ===== src/Agent/Tools/Registry/Plugins.antt =====
-- What the calls that add and remove a plugin's tools do to the other tools.
use mathlib.Core.List.{Memᴰ}
use mathlib.Core.List.Memᴰ
use anonka.Prelude.{
  ◌≡◌, ◌≢◌, ◌⊎◌, refl, sym, ap, ◌∙◌, Bool, true, false, not, ◌&&◌, ◌||◌, List, [], ◌∷◌, Option,
  none, some, Text, text_eq, text_eq_iff, text_eq_refl, if◌then◌else◌, Bool-cases, inl, inr,
}
use anonka.Prelude.Dicts.{Dict, lookup, insert, delete, contains, lookup-insert, lookup-delete}
use anonka.Agent.Tools.Scope.{
  Category, data_bearing, action, ToolAccessLevel, all, allowlist, admin, off,
  enforce_minimum_access,
}
use anonka.Agent.Tools.Registry.{
  RegisteredTool, NewTool, is_there, least_access, external_access, plugin_tool, add_tools,
  delete_all,
}

pub mem_of_contains : (xs : List Text) (x : Text) → contains xs x ≡ true → Memᴰ x xs
unfolding contains
mem_of_contains [] x h = cc
mem_of_contains (y ∷ xs) x h = elim (Bool-cases (text_eq y x)) [
  | inl same ↦ Memᴰ.head (sym ((text_eq_iff y x).0 same))
  | inr other ↦ Memᴰ.tail (mem_of_contains xs x (rw (other, contains) at h))
]

pub contains_of_mem : (xs : List Text) (x : Text) → Memᴰ x xs → contains xs x ≡ true
unfolding contains
contains_of_mem [] x m = elim m [ ]
contains_of_mem (y ∷ xs) x m = elim (Memᴰ.cases_cons m) [
  | inl e ↦ rw (e, text_eq_refl y) refl
  | inr later ↦ elim (Bool-cases (text_eq y x)) [
    | inl same ↦ rw same refl
    | inr other ↦ rw other (contains_of_mem xs x later)
  ]
]

by_tests {ℓ} :
    {A : Type ℓ} (a b : Bool) (x : Option A)
    → (if a then none else if b then none else x) ≡ (if b || a then none else x)
by_tests true true x = refl
by_tests true false x = refl
by_tests false true x = refl
by_tests false false x = refl

pub lookup-delete_all {ℓ} :
    {A : Type ℓ} (names : List Text) (m : Dict A) (n : Text)
    → lookup n (delete_all names m) ≡ (if contains names n then none else lookup n m)
unfolding delete_all contains
lookup-delete_all [] m n = refl
lookup-delete_all (name ∷ names) m n =
    lookup-delete_all names (delete name m) n
    ∙ ap (λ x. if contains names n then none else x) (lookup-delete name n m)
    ∙ by_tests (contains names n) (text_eq name n) (lookup n m)

-- A tool that came from a plugin: unless it only reads data, it is not open to everybody, and it has no
-- list of its own.
pub record IsExternal (t : RegisteredTool) : Type 0 where
  pub guarded : t.category ≡ some data_bearing ⊎ (t.minimum_access ≢ all)
  pub no_list : t.allow_from ≡ none

allowlist_at_least : (l : ToolAccessLevel) → enforce_minimum_access l allowlist ≢ all
allowlist_at_least all e = cc
allowlist_at_least allowlist e = cc
allowlist_at_least admin e = cc
allowlist_at_least off e = cc

plugin_tool-IsExternal : (plugin : Text) (t : NewTool) → IsExternal (plugin_tool plugin t)
plugin_tool-IsExternal plugin t = record { guarded = by_category t.category; no_list = refl }
  where
    by_category :
        (c : Option Category) → (c ≡ some data_bearing) ⊎ (external_access c (least_access t) ≢ all)
    by_category none = inr (allowlist_at_least (least_access t))
    by_category (some data_bearing) = inl refl
    by_category (some action) = inr (allowlist_at_least (least_access t))

-- A name with an external tool.
abbrev pub HasExternal : Dict RegisteredTool → Text → Type 0
HasExternal tools n = (t : RegisteredTool) × (lookup n tools ≡ some t) × IsExternal t

module _ (plugin : Text) (previous : List Text) where
  abbrev is_taken : Dict RegisteredTool → Text → Bool
  is_taken tools n = is_there (lookup n tools) && not (contains previous n)

  abbrev added : Dict RegisteredTool → NewTool → Dict RegisteredTool
  added tools x = insert x.name (plugin_tool plugin x) tools

  -- The tools that others have stay as they are.
  pub add_tools_keeps :
      (ts : List NewTool) (tools : Dict RegisteredTool) (n : Text) (t : RegisteredTool)
      → lookup n tools ≡ some t
      → contains previous n ≡ false
      → lookup n (add_tools plugin previous tools ts).0 ≡ some t
  unfolding add_tools
  add_tools_keeps [] tools n t found free = found
  add_tools_keeps (x ∷ ts) tools n t found free = elim (Bool-cases (is_taken tools x.name)) [
    | inl taken ↦ rw (taken, add_tools) (add_tools_keeps ts tools n t found free)
    | inr allowed ↦
        rw (allowed, add_tools) (add_tools_keeps ts (added tools x) n t (still allowed) free)
  ]
    where
      still : is_taken tools x.name ≡ false → lookup n (added tools x) ≡ some t
      still allowed = elim (Bool-cases (text_eq x.name n)) [
        | inr other ↦ lookup-insert x.name n (plugin_tool plugin x) tools ∙ rw other found
        | inl same ↦
            let is : x.name ≡ n = (text_eq_iff x.name n).0 same in
            let bad : true ≡ false =
              sym (ap (λ o. is_there o && true) found)
              ∙ ap (λ b. is_there (lookup n tools) && not b) (sym free)
              ∙ ap (is_taken tools) (sym is)
              ∙ allowed in
            cc
      ]

  -- The names that were added were free, or the plugin's before.
  pub add_tools_fresh :
      (ts : List NewTool) (tools : Dict RegisteredTool) (n : Text)
      → Memᴰ n (add_tools plugin previous tools ts).1
      → (lookup n tools ≡ none) ⊎ (contains previous n ≡ true)
  unfolding add_tools
  add_tools_fresh [] tools n m = elim m [ ]
  add_tools_fresh (x ∷ ts) tools n m = elim (Bool-cases (is_taken tools x.name)) [
    | inl taken ↦ add_tools_fresh ts tools n (rw (taken, add_tools) at m)
    | inr allowed ↦ elim (Memᴰ.cases_cons (rw (allowed, add_tools) at m)) [
      | inl e ↦ rw e (by_tests (lookup x.name tools) (contains previous x.name) allowed)
      | inr later ↦ elim (add_tools_fresh ts (added tools x) n later) [
        | inl free ↦ inl (was_free (lookup-insert x.name n (plugin_tool plugin x) tools) free)
        | inr before ↦ inr before
      ]
    ]
  ]
    where
      by_tests :
          (o : Option RegisteredTool) (b : Bool)
          → (is_there o && not b) ≡ false
          → (o ≡ none) ⊎ (b ≡ true)
      by_tests none b h = inl refl
      by_tests (some t) true h = inr refl
      by_tests (some t) false h = cc

      was_free :
          lookup n (added tools x)
            ≡ (if text_eq x.name n then some (plugin_tool plugin x) else lookup n tools)
          → lookup n (added tools x) ≡ none
          → lookup n tools ≡ none
      was_free e free = elim (Bool-cases (text_eq x.name n)) [
        | inl same ↦
            let bad : some (plugin_tool plugin x) ≡ none = sym (e ∙ rw same refl) ∙ free in cc
        | inr other ↦ sym (e ∙ rw other refl) ∙ free
      ]

  insert-HasExternal :
      (tools : Dict RegisteredTool) (x : NewTool) (n : Text)
      → HasExternal tools n
      → HasExternal (added tools x) n
  insert-HasExternal tools x n (t, found, external) = elim (Bool-cases (text_eq x.name n)) [
    | inl same ↦ (
      plugin_tool plugin x,
      lookup-insert x.name n (plugin_tool plugin x) tools ∙ rw same refl,
      plugin_tool-IsExternal plugin x,
    )
    | inr other ↦
        (t, lookup-insert x.name n (plugin_tool plugin x) tools ∙ rw other found, external)
  ]

  add_tools_external_keeps :
      (ts : List NewTool) (tools : Dict RegisteredTool) (n : Text)
      → HasExternal tools n
      → HasExternal (add_tools plugin previous tools ts).0 n
  unfolding add_tools
  add_tools_external_keeps [] tools n h = h
  add_tools_external_keeps (x ∷ ts) tools n h = elim (Bool-cases (is_taken tools x.name)) [
    | inl taken ↦ rw (taken, add_tools) (add_tools_external_keeps ts tools n h)
    | inr allowed ↦
        rw (allowed, add_tools)
          (add_tools_external_keeps ts (added tools x) n (insert-HasExternal tools x n h))
  ]

  -- Each name that was added has an external tool.
  pub add_tools-HasExternal :
      (ts : List NewTool) (tools : Dict RegisteredTool) (n : Text)
      → Memᴰ n (add_tools plugin previous tools ts).1
      → HasExternal (add_tools plugin previous tools ts).0 n
  unfolding add_tools
  add_tools-HasExternal [] tools n m = elim m [ ]
  add_tools-HasExternal (x ∷ ts) tools n m = elim (Bool-cases (is_taken tools x.name)) [
    | inl taken ↦
        rw (taken, add_tools) (add_tools-HasExternal ts tools n (rw (taken, add_tools) at m))
    | inr allowed ↦ elim (Memᴰ.cases_cons (rw (allowed, add_tools) at m)) [
      | inl e ↦
          rw (allowed, add_tools)
            (add_tools_external_keeps ts (added tools x) n (
              plugin_tool plugin x,
              lookup-insert x.name n (plugin_tool plugin x) tools
                  ∙ rw ((text_eq_iff x.name n).1 (sym e)) refl,
              plugin_tool-IsExternal plugin x,
            ))
      | inr later ↦ rw (allowed, add_tools) (add_tools-HasExternal ts (added tools x) n later)
    ]
  ]
