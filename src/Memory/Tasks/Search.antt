-- ===== src/Memory/Tasks/Search.antt =====
-- The search for a cycle ends, and finds one exactly if there is a chain of dependencies.
use mathlib.Core.List.{Memᴰ}
use mathlib.Core.List.Memᴰ
use anonka.Prelude.{
  ℕ, zero, suc, ◌+◌, ◌≤◌, ◌≡◌, ◌⊎◌, ◌↔◌, refl, sym, ap, ◌∙◌, Bool, true, false, ◌||◌, List, [], ◌∷◌,
  ◌++◌, some, Text, text_eq, text_eq_iff, text_eq_refl, if◌then◌else◌, arith, Bool-cases, inl, inr,
  length, length-append,
}
use anonka.Prelude.Dicts.{contains, add, contains-add}
use anonka.Memory.Tasks.{
  Dependency, get_dependencies_in, search_from, search_fuel, would_create_cycle,
}
use anonka.Memory.Tasks.Graph.{Depends, itself, through, edge_of_dependencies, dependencies_of_edge}

-- The dependencies whose task is still to be visited.
unfoldable open_edges : List Dependency → List Text → ℕ
open_edges [] visited = 0
open_edges ((t, p) ∷ ds) visited = (if contains visited t then 0 else 1) + open_edges ds visited

open_edges-add :
    (ds : List Dependency) (visited : List Text) (c : Text)
    → contains visited c ≡ false
    → open_edges ds (add c visited) + length (get_dependencies_in ds c) ≡ open_edges ds visited
unfolding open_edges get_dependencies_in
open_edges-add [] visited c new = refl
open_edges-add ((t, p) ∷ ds) visited c new = elim (Bool-cases (text_eq t c)) [
  | inl same ↦
      let at = (text_eq_iff t c).0 same in
      let fresh : contains visited t ≡ false = ap (contains visited) at ∙ new in
      let seen : contains (add c visited) t ≡ true =
        contains-add c t visited
        ∙ ap (λ x. text_eq c x || contains visited t) at
        ∙ ap (λ b. b || contains visited t) (text_eq_refl c) in
      ground (arith, same, fresh, seen, open_edges-add ds visited c new)
  | inr other ↦
      let apart : text_eq c t ≡ false = ground (arith, text_eq_iff c t, text_eq_iff t c) in
      let kept : contains (add c visited) t ≡ contains visited t =
        contains-add c t visited ∙ ap (λ b. b || contains visited t) apart in
      ground (arith, other, kept, open_edges-add ds visited c new)
]

open_edges-le : (ds : List Dependency) (visited : List Text) → open_edges ds visited ≤ length ds
unfolding open_edges
open_edges-le [] visited = omega arith
open_edges-le ((t, p) ∷ ds) visited = ground (arith, open_edges-le ds visited)

module _ (ds : List Dependency) (target : Text) where
  search_ends :
      (fuel : ℕ) (visited queue : List Text)
      → length queue + open_edges ds visited ≤ fuel
      → (b : Bool) × (search_from fuel ds target visited queue ≡ some b)
  unfolding search_from
  search_ends fuel visited [] h = (false, refl)
  search_ends zero visited (c ∷ queue) h = absurd (omega (arith, h))
  search_ends (suc fuel) visited (c ∷ queue) h = elim (Bool-cases (text_eq c target)) [
    | inl hit ↦ (true, rw hit refl)
    | inr miss ↦ elim (Bool-cases (contains visited c)) [
      | inl seen ↦
          let (b, e) = search_ends fuel visited queue (omega (arith, h)) in (b, rw (miss, seen) e)
      | inr new ↦
          let (b, e) = search_ends fuel (add c visited) (queue ++ get_dependencies_in ds c) (
            omega (
              arith,
              h,
              open_edges-add ds visited c new,
              length-append queue (get_dependencies_in ds c),
            )) in
          (b, rw (miss, new) e)
    ]
  ]

  search_sound :
      (fuel : ℕ) (visited queue : List Text)
      → search_from fuel ds target visited queue ≡ some true
      → (q : Text) × Memᴰ q queue × Depends ds q target
  unfolding search_from
  search_sound fuel visited [] h = cc
  search_sound zero visited (c ∷ queue) h = cc
  search_sound (suc fuel) visited (c ∷ queue) h = elim (Bool-cases (text_eq c target)) [
    | inl hit ↦ (c, Memᴰ.head refl, rw ((text_eq_iff c target).0 hit) (itself target))
    | inr miss ↦ elim (Bool-cases (contains visited c)) [
      | inl seen ↦
          let (q, m, d) = search_sound fuel visited queue (rw (miss, seen, search_from) at h) in
          (q, Memᴰ.tail m, d)
      | inr new ↦
          let (q, m, d) =
            search_sound fuel (add c visited) (queue ++ get_dependencies_in ds c)
              (rw (miss, new, search_from) at h) in
          elim (Memᴰ.append_cases queue m) [
            | inl queued ↦ (q, Memᴰ.tail queued, d)
            | inr edge ↦
                (c, Memᴰ.head refl, through c q target (edge_of_dependencies ds c q edge) d)
          ]
    ]
  ]

  -- What was visited leads on to what was visited or is queued, and is not the target.
  record Explored (visited queue : List Text) : Type 0 where
    onward :
        (u v : Text)
        → contains visited u ≡ true
        → Memᴰ (u, v) ds
        → (contains visited v ≡ true) ⊎ Memᴰ v queue
    missed : contains visited target ≡ false

  no_way :
      (visited : List Text)
      → Explored visited []
      → (x : Text) → Depends ds x target
      → contains visited x ≡ false
  no_way visited e x (itself _) = e.missed
  no_way visited e x (through _ y _ m d) = elim (Bool-cases (contains visited x)) [
    | inr new ↦ new
    | inl seen ↦ elim (e.onward x y seen m) [
      | inl there ↦ let bad : true ≡ false = sym there ∙ no_way visited e y d in cc
      | inr none_left ↦ elim none_left [ ]
    ]
  ]

  seen-add :
      (visited : List Text) (c x : Text)
      → contains visited x ≡ true
      → contains (add c visited) x ≡ true
  seen-add visited c x h = ground (arith, contains-add c x visited, h)

  seen_self : (visited : List Text) (c x : Text) → x ≡ c → contains (add c visited) x ≡ true
  seen_self visited c x e =
      ap (contains (add c visited)) e
      ∙ contains-add c c visited
      ∙ ap (λ b. b || contains visited c) (text_eq_refl c)

  Explored-skip :
      (visited queue : List Text) (c : Text)
      → contains visited c ≡ true
      → Explored visited (c ∷ queue)
      → Explored visited queue
  Explored-skip visited queue c seen e = record {
    onward = λ u v h m. elim (e.onward u v h m) [
      | inl there ↦ inl there
      | inr q ↦ elim (Memᴰ.cases_cons q) [
        | inl at ↦ inl (ap (contains visited) at ∙ seen)
        | inr queued ↦ inr queued
      ]
    ];
    missed = e.missed;
  }

  Explored-expand :
      (visited queue : List Text) (c : Text)
      → text_eq c target ≡ false
      → Explored visited (c ∷ queue)
      → Explored (add c visited) (queue ++ get_dependencies_in ds c)
  Explored-expand visited queue c miss e = record {
    onward = λ u v h m. elim (Bool-cases (text_eq c u)) [
      | inl same ↦
          let at = (text_eq_iff c u).0 same in
          inr (Memᴰ.append_right queue (dependencies_of_edge ds c v (rw at m)))
      | inr other ↦
          let old : contains visited u ≡ true =
            sym (contains-add c u visited ∙ ap (λ b. b || contains visited u) other) ∙ h in
          elim (e.onward u v old m) [
            | inl there ↦ inl (seen-add visited c v there)
            | inr q ↦ elim (Memᴰ.cases_cons q) [
              | inl at ↦ inl (seen_self visited c v at)
              | inr queued ↦ inr (Memᴰ.append_left (get_dependencies_in ds c) queued)
            ]
          ]
    ];
    missed = contains-add c target visited ∙ ap (λ b. b || contains visited target) miss ∙ e.missed;
  }

  search_complete :
      (fuel : ℕ) (visited queue : List Text)
      → Explored visited queue
      → search_from fuel ds target visited queue ≡ some false
      → (x : Text) → Depends ds x target
      → (contains visited x ≡ true) ⊎ Memᴰ x queue
      → ⊥
  unfolding search_from
  search_complete fuel visited [] e h x d (inl seen) =
      let bad : true ≡ false = sym seen ∙ no_way visited e x d in cc
  search_complete fuel visited [] e h x d (inr m) = elim m [ ]
  search_complete zero visited (c ∷ queue) e h x d w = cc
  search_complete (suc fuel) visited (c ∷ queue) e h x d w = elim (Bool-cases (text_eq c target)) [
    | inl hit ↦ let bad : some true ≡ some false = rw (hit, search_from) at h in cc
    | inr miss ↦ elim (Bool-cases (contains visited c)) [
      | inl seen ↦
          search_complete fuel visited queue (Explored-skip visited queue c seen e)
            (rw (miss, seen, search_from) at h) x d (left seen w)
      | inr new ↦
          search_complete fuel (add c visited) (queue ++ get_dependencies_in ds c)
            (Explored-expand visited queue c miss e) (rw (miss, new, search_from) at h) x d
            (moved w)
    ]
  ]
    where
      left :
          contains visited c ≡ true
          → (contains visited x ≡ true) ⊎ Memᴰ x (c ∷ queue)
          → (contains visited x ≡ true) ⊎ Memᴰ x queue
      left seen (inl there) = inl there
      left seen (inr (Memᴰ.head at)) = inl (ap (contains visited) at ∙ seen)
      left seen (inr (Memᴰ.tail m)) = inr m

      moved :
          (contains visited x ≡ true) ⊎ Memᴰ x (c ∷ queue)
          → (contains (add c visited) x ≡ true) ⊎ Memᴰ x (queue ++ get_dependencies_in ds c)
      moved (inl there) = inl (seen-add visited c x there)
      moved (inr (Memᴰ.head at)) = inl (seen_self visited c x at)
      moved (inr (Memᴰ.tail m)) = inr (Memᴰ.append_left (get_dependencies_in ds c) m)

Explored-start : (ds : List Dependency) (target p : Text) → Explored ds target [] (p ∷ [])
unfolding contains
Explored-start ds target p = record { onward = λ u v h m. cc; missed = refl }

-- The search for a cycle always ends within one round for each dependency and one more, on any table of
-- dependencies, cyclic ones included; and it finds a cycle exactly if the new parent is the task
-- itself or depends on it, through any number of dependencies.
pub would_create_cycle_decides :
    (ds : List Dependency) (task parent : Text)
    → (b : Bool) × (would_create_cycle ds task parent ≡ some b)
      × ((b ≡ true) ↔ Depends ds parent task)
unfolding would_create_cycle
would_create_cycle_decides ds task parent = elim (Bool-cases (text_eq task parent)) [
  | inl same ↦
      (true, rw same refl, (λ _. rw ((text_eq_iff task parent).0 same) (itself parent), λ _. refl))
  | inr other ↦
      let (b, e) =
        search_ends ds task (search_fuel ds) [] (parent ∷ [])
          (omega (arith, open_edges-le ds [])) in
      (b, rw other e, verdict b e)
]
  where
    verdict :
        (b : Bool)
        → search_from (search_fuel ds) ds task [] (parent ∷ []) ≡ some b
        → (b ≡ true) ↔ Depends ds parent task
    verdict true e =
        let (q, m, d) = search_sound ds task (search_fuel ds) [] (parent ∷ []) e in
        (λ _. rw (← Memᴰ.eq_of_singleton m) d, λ _. refl)
    verdict false e = (
      λ h. cc,
      λ d. absurd (
          search_complete ds task (search_fuel ds) [] (parent ∷ []) (Explored-start ds task parent)
            e parent d (inr (Memᴰ.head refl))),
    )
