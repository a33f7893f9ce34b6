-- ===== src/Agent/Tools/Registry/Listed.antt =====
-- The tools that a model is shown are those that it may run.
use mathlib.Core.List.{Memᴰ}
use anonka.Prelude.{
  filter_by_iff, ◌≡◌, ◌↔◌, refl, sym, true, false, [], ◌∷◌, none, some, Text, text_eq, text_eq_iff,
  Bool-cases, Option-cases, inl, inr,
}
use anonka.Prelude.Dicts.{Dict, lookup, keys}
use anonka.Agent.Tools.Registry.{RegisteredTool, ToolRegistry}
use anonka.Agent.Tools.Registry.Access.{IsAllowed, execute_iff}
use anonka.Agent.Tools.Authorization.{
  AccessContext, denied, allowed, execute, passes_filters, get_for_context, check_access,
}

Memᴰ-keys {ℓ} : {A : Type ℓ} (m : Dict A) (k : Text) (v : A) → lookup k m ≡ some v → Memᴰ k (keys m)
unfolding lookup
Memᴰ-keys [] k v h = cc
Memᴰ-keys ((j, w) ∷ m) k v h = elim (Bool-cases (text_eq j k)) [
  | inl same ↦ Memᴰ.head (sym ((text_eq_iff j k).0 same))
  | inr other ↦ Memᴰ.tail (Memᴰ-keys m k v (rw (other, lookup) at h))
]

module _ (r : ToolRegistry) (ctx : AccessContext) (name : Text) where
  abbrev as_member : AccessContext
  as_member = record ctx { by_guest = false }

  passes_filters-execute :
      passes_filters r ctx name ≡ true
      → (t : RegisteredTool) × (execute r name as_member ≡ allowed t)
  unfolding passes_filters execute
  passes_filters-execute h = elim (Option-cases (lookup name r.tools)) [
    | inl missing ↦ let bad : false ≡ true = rw (missing, passes_filters) at h in cc
    | inr (t, there) ↦ elim (Option-cases (check_access r name t as_member)) [
      | inl ok ↦ (t, rw (there, execute) (rw ok refl))
      | inr (d, refused) ↦
          let checked = rw (there, passes_filters) at h in
          let bad : false ≡ true = rw refused at checked in cc
    ]
  ]

  execute-passes_filters :
      (t : RegisteredTool)
      → lookup name r.tools ≡ some t
      → execute r name as_member ≡ allowed t
      → passes_filters r ctx name ≡ true
  unfolding passes_filters execute
  execute-passes_filters t there h = elim (Option-cases (check_access r name t as_member)) [
    | inl ok ↦ rw (there, passes_filters) (rw ok refl)
    | inr (d, refused) ↦
        let checked = rw (there, execute) at h in
        let bad : denied d ≡ allowed t = rw refused at checked in cc
  ]

-- Without a limit a model is shown a tool exactly if a call of it is let through, from the same chat and by
-- the same sender, who is an admin in both cases or in none, and no guest; and exactly if it is
-- registered and the mode, the channel, the levels and the chat's module allow it there.
pub get_for_context_iff :
    (r : ToolRegistry) (ctx : AccessContext) (name : Text)
    → (Memᴰ name (get_for_context r none ctx)
        ↔ ((t : RegisteredTool) × (execute r name (record ctx { by_guest = false }) ≡ allowed t)))
      × (Memᴰ name (get_for_context r none ctx) ↔ (
          (t : RegisteredTool) × (lookup name r.tools ≡ some t)
          × IsAllowed r name t (record ctx { by_guest = false })))
unfolding get_for_context
get_for_context_iff r ctx name =
    let (from, to) = filter_by_iff (passes_filters r ctx) (keys r.tools) name in
    let member = as_member r ctx name in
    let shown = λ (t : RegisteredTool) (lets : execute r name member ≡ allowed t).
      let found = ((execute_iff r name t member).0 lets).0 in
      to (Memᴰ-keys r.tools name t found, execute-passes_filters r ctx name t found lets) in
    (
      (λ m. passes_filters-execute r ctx name (from m).1, λ (t, lets). shown t lets),
      (
        λ m.
            let (t, lets) = passes_filters-execute r ctx name (from m).1 in
            let (found, ok) = (execute_iff r name t member).0 lets in (t, found, ok),
        λ (t, found, ok). shown t ((execute_iff r name t member).1 (found, ok)),
      ),
    )
