-- ===== src/Agent/Tools/Registry/Owned.antt =====
-- Each name that a plugin owns has a tool of a plugin, and no other owner.
use mathlib.Core.List.{Memᴰ}
use anonka.Prelude.{
  ◌≡◌, refl, sym, ap, ◌∙◌, true, false, List, [], none, some, Text, text_eq, text_eq_iff,
  Bool-cases, Option-cases, inl, inr,
}
use anonka.Prelude.Dicts.{
  Dict, lookup, insert, delete, contains, lookup-insert, lookup-delete, lookup-delete-some,
}
use anonka.Agent.Tools.Registry.{RegisteredTool, NewTool, add_tools, delete_all, or_nil}
use anonka.Agent.Tools.Registry.Plugins.{
  mem_of_contains, lookup-delete_all, HasExternal, add_tools_keeps, add_tools_fresh,
  add_tools-HasExternal,
}

-- Each name that a plugin owns has an external tool, and one owner.
pub record IsOwned (tools : Dict RegisteredTool) (owned : Dict (List Text)) : Type 0 where
  pub external :
      (p : Text) (names : List Text) (n : Text)
      → lookup p owned ≡ some names
      → Memᴰ n names
      → HasExternal tools n
  pub exclusive :
      (p q : Text) (names others : List Text) (n : Text)
      → lookup p owned ≡ some names
      → lookup q owned ≡ some others
      → Memᴰ n names
      → Memᴰ n others
      → p ≡ q

module _ (tools : Dict RegisteredTool) (owned : Dict (List Text)) (v : IsOwned tools owned) where
  module _ (plugin : Text) where
    abbrev pub previous : List Text
    previous = or_nil (lookup plugin owned)

    -- What another plugin owns is not among the plugin's own names.
    pub not_previous :
        (q : Text) (names : List Text) (n : Text)
        → lookup q (delete plugin owned) ≡ some names
        → Memᴰ n names
        → contains previous n ≡ false
    unfolding contains
    not_previous q names n e m = elim (Bool-cases (contains previous n)) [
      | inr free ↦ free
      | inl mine ↦ elim (Option-cases (lookup plugin owned)) [
        | inl none_yet ↦
            let bad : contains [] n ≡ true =
              ap (λ o. contains (or_nil o) n) (sym none_yet) ∙ mine in
            absurd (nothing bad)
        | inr (names', found) ↦
            let in_names : contains names' n ≡ true =
              ap (λ o. contains (or_nil o) n) (sym found) ∙ mine in
            let same =
              v.exclusive plugin q names' names n found (lookup-delete-some plugin q owned e)
                (mem_of_contains names' n in_names) m in
            let gone : none ≡ some names =
              sym (lookup-delete plugin q owned ∙ rw ((text_eq_iff plugin q).1 same) refl) ∙ e in
            cc
      ]
    ]
      where
        nothing : contains [] n ≡ true → ⊥
        nothing h = cc

    pub remove-IsOwned : IsOwned (delete_all previous tools) (delete plugin owned)
    remove-IsOwned = record {
      external = λ q names n e m.
          let (t, found, external) = v.external q names n (lookup-delete-some plugin q owned e) m in
          (t, lookup-delete_all previous tools n ∙ rw (not_previous q names n e m) found, external);
      exclusive = λ p q names others n e f.
          v.exclusive p q names others n (lookup-delete-some plugin p owned e)
            (lookup-delete-some plugin q owned f);
    }

  pub add-IsOwned :
      (plugin : Text) (before : List Text) (ts : List NewTool)
      → ((q : Text) (names : List Text) (n : Text)
          → lookup q owned ≡ some names
          → Memᴰ n names
          → contains before n ≡ false)
      → IsOwned
          (add_tools plugin before tools ts).0
          (insert plugin (add_tools plugin before tools ts).1 owned)
  add-IsOwned plugin before ts free = record {
    external = λ q names n e m. elim (Bool-cases (text_eq plugin q)) [
      | inl same ↦ add_tools-HasExternal plugin before ts tools n (mine q names n same e m)
      | inr other ↦
          let f = theirs q names other e in
          let (t, found, external) = v.external q names n f m in
          (t, add_tools_keeps plugin before ts tools n t found (free q names n f m), external)
    ];
    exclusive = λ p q names others n e f m k. elim (Bool-cases (text_eq plugin p)) [
      | inl same ↦ elim (Bool-cases (text_eq plugin q)) [
        | inl also ↦ sym ((text_eq_iff plugin p).0 same) ∙ (text_eq_iff plugin q).0 also
        | inr other ↦
            absurd (apart q others n (theirs q others other f) k (mine p names n same e m))
      ]
      | inr other ↦ elim (Bool-cases (text_eq plugin q)) [
        | inl same ↦ absurd (apart p names n (theirs p names other e) m (mine q others n same f k))
        | inr also ↦
            v.exclusive p q names others n (theirs p names other e) (theirs q others also f) m k
      ]
    ];
  }
    where
      mine :
          (q : Text) (names : List Text) (n : Text)
          → text_eq plugin q ≡ true
          → lookup q (insert plugin (add_tools plugin before tools ts).1 owned) ≡ some names
          → Memᴰ n names
          → Memᴰ n (add_tools plugin before tools ts).1
      mine q names n same e m =
          let is : some (add_tools plugin before tools ts).1 ≡ some names =
            sym (lookup-insert plugin q (add_tools plugin before tools ts).1 owned ∙ rw same refl)
            ∙ e in
          let at : names ≡ (add_tools plugin before tools ts).1 = cc in rw (← at) m

      theirs :
          (q : Text) (names : List Text)
          → text_eq plugin q ≡ false
          → lookup q (insert plugin (add_tools plugin before tools ts).1 owned) ≡ some names
          → lookup q owned ≡ some names
      theirs q names other e =
          sym (lookup-insert plugin q (add_tools plugin before tools ts).1 owned ∙ rw other refl)
          ∙ e

      apart :
          (q : Text) (names : List Text) (n : Text)
          → lookup q owned ≡ some names
          → Memᴰ n names
          → Memᴰ n (add_tools plugin before tools ts).1
          → ⊥
      apart q names n e m k =
          let (t, found, _) = v.external q names n e m in
          elim (add_tools_fresh plugin before ts tools n k) [
            | inl none_there ↦ let bad : none ≡ some t = sym none_there ∙ found in cc
            | inr was_mine ↦ let bad : true ≡ false = sym was_mine ∙ free q names n e m in cc
          ]

  pub register-IsOwned :
      (name : Text) (t : RegisteredTool)
      → lookup name tools ≡ none
      → IsOwned (insert name t tools) owned
  register-IsOwned name t free = record {
    external = λ q names n e m.
        let (u, found, external) = v.external q names n e m in (u, still n u found, external);
    exclusive = v.exclusive;
  }
    where
      still :
          (n : Text) (u : RegisteredTool)
          → lookup n tools ≡ some u
          → lookup n (insert name t tools) ≡ some u
      still n u found = elim (Bool-cases (text_eq name n)) [
        | inr other ↦ lookup-insert name n t tools ∙ rw other found
        | inl same ↦
            let bad : none ≡ some u =
              sym free ∙ ap (λ x. lookup x tools) ((text_eq_iff name n).0 same) ∙ found in
            cc
      ]
