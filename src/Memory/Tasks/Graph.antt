-- ===== src/Memory/Tasks/Graph.antt =====
-- Chains of dependencies, and which tasks a list of dependencies leads to.
use mathlib.Core.List.{Memᴰ}
use mathlib.Core.List.Memᴰ
use anonka.Prelude.{
  ◌≡◌, ◌⊎◌, refl, ap, ◌∙◌, true, List, [], ◌∷◌, Text, text_eq, text_eq_iff, text_eq_refl,
  Bool-cases, inl, inr,
}
use anonka.Memory.Tasks.{Dependency, get_dependencies_in}

-- The first task depends on the second one, through any number of dependencies, none included.
pub data Depends (ds : List Dependency) : Text → Text → Type 0 where
  itself : (a : Text) → Depends ds a a
  through : (a b c : Text) → Memᴰ (a, b) ds → Depends ds b c → Depends ds a c

pub Depends-join :
    (ds : List Dependency) (a b c : Text) → Depends ds a b → Depends ds b c → Depends ds a c
Depends-join ds a b c (itself _) q = q
Depends-join ds a b c (through _ d _ m p) q = through a d c m (Depends-join ds d b c p q)

pub Depends-weaken :
    (ds es : List Dependency)
    → ((d : Dependency) → Memᴰ d ds → Memᴰ d es)
    → (a b : Text) → Depends ds a b
    → Depends es a b
Depends-weaken ds es sub a b (itself _) = itself a
Depends-weaken ds es sub a b (through _ c _ m p) =
    through a c b (sub (a, c) m) (Depends-weaken ds es sub c b p)

-- A chain over one more dependency goes without it, or passes through it.
pub Depends-split :
    (ds es : List Dependency) (t p : Text)
    → ((d : Dependency) → Memᴰ d es → Memᴰ d ds ⊎ (d ≡ (t, p)))
    → (a b : Text) → Depends es a b
    → Depends ds a b ⊎ (Depends ds a t × Depends ds p b)
Depends-split ds es t p from a b (itself _) = inl (itself a)
Depends-split ds es t p from a b (through _ c _ m q) = elim (from (a, c) m) [
  | inl old ↦ elim (Depends-split ds es t p from c b q) [
    | inl whole ↦ inl (through a c b old whole)
    | inr (to_t, from_p) ↦ inr (through a c t old to_t, from_p)
  ]
  | inr new ↦
      let at : a ≡ t = ap (λ (d : Dependency). d.0) new in
      let to : c ≡ p = ap (λ (d : Dependency). d.1) new in
      elim (Depends-split ds es t p from c b q) [
        | inl whole ↦ inr (rw at (itself t), rw (← to) whole)
        | inr (to_t, from_p) ↦ inr (rw at (itself t), from_p)
      ]
]

pub edge_of_dependencies :
    (ds : List Dependency) (a b : Text) → Memᴰ b (get_dependencies_in ds a) → Memᴰ (a, b) ds
unfolding get_dependencies_in
edge_of_dependencies [] a b m = elim m [ ]
edge_of_dependencies ((t, p) ∷ ds) a b m = elim (Bool-cases (text_eq t a)) [
  | inl same ↦
      let at = (text_eq_iff t a).0 same in
      let m' : Memᴰ b (p ∷ get_dependencies_in ds a) = rw (same, get_dependencies_in) at m in
      elim (Memᴰ.cases_cons m') [
        | inl e ↦ Memᴰ.head (rw (at, e) refl)
        | inr later ↦ Memᴰ.tail (edge_of_dependencies ds a b later)
      ]
  | inr other ↦ Memᴰ.tail (edge_of_dependencies ds a b (rw (other, get_dependencies_in) at m))
]

pub dependencies_of_edge :
    (ds : List Dependency) (a b : Text) → Memᴰ (a, b) ds → Memᴰ b (get_dependencies_in ds a)
unfolding get_dependencies_in
dependencies_of_edge [] a b m = elim m [ ]
dependencies_of_edge ((t, p) ∷ ds) a b (Memᴰ.head e) =
    let here : text_eq t a ≡ true = ap (λ (d : Dependency). text_eq t d.0) e ∙ text_eq_refl t in
    rw here (Memᴰ.head (ap (λ (d : Dependency). d.1) e))
dependencies_of_edge ((t, p) ∷ ds) a b (Memᴰ.tail m) = elim (Bool-cases (text_eq t a)) [
  | inl same ↦ rw same (Memᴰ.tail (dependencies_of_edge ds a b m))
  | inr other ↦ rw other (dependencies_of_edge ds a b m)
]
