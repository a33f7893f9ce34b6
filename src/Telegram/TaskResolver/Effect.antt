-- ===== src/Telegram/TaskResolver/Effect.antt =====
-- What a cascade does to the rows of the store.
use mathlib.Core.List.{Memᴰ}
use mathlib.Core.List.Memᴰ
use mathlib.Core.Path.{subst}
use anonka.Prelude.{
  ℕ, zero, suc, ◌≡◌, refl, sym, ap, ◌∙◌, Bool, true, false, List, [], ◌∷◌, Option, none, some, Text,
  text_eq, text_eq_iff, if◌then◌else◌, take, Bool-cases, inl, inr,
}
use anonka.Memory.Tasks.{
  Task, TaskStore, Dependency, get_task, updated, cancel_task, get_dependents, get_dependents_in,
}
use anonka.Memory.Tasks.Graph.{Depends, itself, through, Depends-join}
use anonka.Memory.Tasks.Rows.{to_cancelled, with_update, find_task-update_rows}
use anonka.Telegram.TaskResolver.{
  max_dependents_per_task, first_dependents, is_pending, to_cancel, should_cancel,
}

edge_of_dependents :
    (ds : List Dependency) (id d : Text) → Memᴰ d (get_dependents_in ds id) → Memᴰ (d, id) ds
unfolding get_dependents_in
edge_of_dependents [] id d m = elim m [ ]
edge_of_dependents ((t, p) ∷ ds) id d m = elim (Bool-cases (text_eq p id)) [
  | inl same ↦
      let m' : Memᴰ d (t ∷ get_dependents_in ds id) = rw (same, get_dependents_in) at m in
      elim (Memᴰ.cases_cons m') [
        | inl e ↦ Memᴰ.head (rw (e, (text_eq_iff p id).0 same) refl)
        | inr later ↦ Memᴰ.tail (edge_of_dependents ds id d later)
      ]
  | inr other ↦ Memᴰ.tail (edge_of_dependents ds id d (rw (other, get_dependents_in) at m))
]

Memᴰ-take {ℓ} : {A : Type ℓ} (n : ℕ) (xs : List A) {x : A} → Memᴰ x (take n xs) → Memᴰ x xs
Memᴰ-take zero xs m = elim m [ ]
Memᴰ-take (suc n) [] m = elim m [ ]
Memᴰ-take (suc n) (y ∷ xs) (Memᴰ.head e) = Memᴰ.head e
Memᴰ-take (suc n) (y ∷ xs) (Memᴰ.tail m) = Memᴰ.tail (Memᴰ-take n xs m)

pub edge_of_first :
    (s : TaskStore) (id d : Text) → Memᴰ d (first_dependents s id) → Memᴰ (d, id) s.dependencies
unfolding get_dependents
edge_of_first s id d m =
    edge_of_dependents s.dependencies id d
      (Memᴰ-take max_dependents_per_task (get_dependents s id) m)

module _ (keeps : Text → Bool) (now : ℕ) where
  -- What becomes of the row of one task: it stays, or the task was pending, may be skipped, depends on
  -- the failed task, and is cancelled.
  pub data Fate (ds : List Dependency) (id k : Text) : Option Task → Option Task → Type 0 where
    kept : (o : Option Task) → Fate ds id k o o
    cancels :
        (t : Task)
        → to_cancel keeps now (some t) ≡ true
        → Depends ds k id
        → Fate ds id k (some t) (some (updated to_cancelled now t))

  -- What the cascade from a failed task does to the store.
  pub record Cascade (id : Text) (s u : TaskStore) : Type 0 where
    pub same : u.dependencies ≡ s.dependencies
    pub fate : (k : Text) → Fate s.dependencies id k (get_task s k) (get_task u k)
    pub closed :
        (k d : Text)
        → is_pending (get_task s k) ≡ true
        → is_pending (get_task u k) ≡ false
        → Memᴰ d (first_dependents s k)
        → should_cancel keeps now u d ≡ false

  pub Cascade-none : (id : Text) (s : TaskStore) → Cascade id s s
  Cascade-none id s = record {
    same = refl;
    fate = λ k. kept (get_task s k);
    closed = λ k d p q m. let bad : true ≡ false = sym p ∙ q in cc;
  }

  Fate_settled :
      {ds : List Dependency} {id k : Text} {o p : Option Task}
      → Fate ds id k o p
      → to_cancel keeps now o ≡ false
      → to_cancel keeps now p ≡ false
  Fate_settled (kept _) h = h
  Fate_settled (cancels t w d) h = refl

  Fate_still :
      {ds : List Dependency} {id k : Text} {o p : Option Task}
      → Fate ds id k o p
      → is_pending o ≡ false
      → is_pending p ≡ false
  Fate_still (kept _) h = h
  Fate_still (cancels t w d) h = refl

  Fate_fixed :
      {ds : List Dependency} {id k : Text} {o p : Option Task}
      → Fate ds id k o p
      → to_cancel keeps now o ≡ false
      → p ≡ o
  Fate_fixed (kept _) h = refl
  Fate_fixed (cancels t w d) h = let bad : true ≡ false = sym w ∙ h in cc

  Fate-join :
      {ds : List Dependency} {id k : Text} {o p q : Option Task}
      → Fate ds id k o p
      → Fate ds id k p q
      → Fate ds id k o q
  Fate-join (kept _) g = g
  Fate-join (cancels t w d) g = rw (Fate_fixed g refl) (cancels t w d)

  Fate-up :
      {ds : List Dependency} {id top k : Text} {o p : Option Task}
      → Depends ds id top
      → Fate ds id k o p
      → Fate ds top k o p
  Fate-up up (kept o) = kept o
  Fate-up {ds} {id} {top} {k} up (cancels t w d) = cancels t w (Depends-join ds k id top d up)

  pub settled-keeps :
      (id : Text) (s u : TaskStore) (d : Text)
      → Cascade id s u
      → should_cancel keeps now s d ≡ false
      → should_cancel keeps now u d ≡ false
  settled-keeps id s u d c h = Fate_settled (c.fate d) h

  first_same :
      (s u : TaskStore) (k d : Text)
      → u.dependencies ≡ s.dependencies
      → Memᴰ d (first_dependents s k)
      → Memᴰ d (first_dependents u k)
  unfolding get_dependents
  first_same s u k d e m =
      subst (λ ds. Memᴰ d (take max_dependents_per_task (get_dependents_in ds k))) (sym e) m

  pub Cascade-join :
      (id : Text) (s u v : TaskStore) → Cascade id s u → Cascade id u v → Cascade id s v
  Cascade-join id s u v c e = record {
    same = e.same ∙ c.same;
    fate = λ k.
        Fate-join (c.fate k)
          (subst (λ ds. Fate ds id k (get_task u k) (get_task v k)) c.same (e.fate k));
    closed = λ k d p q m. elim (Bool-cases (is_pending (get_task u k))) [
      | inl later ↦ e.closed k d later q (first_same s u k d c.same m)
      | inr now_gone ↦ settled-keeps id u v d e (c.closed k d p now_gone m)
    ];
  }

  -- One task cancelled, with everything below it.
  module _ (top id : Text) (s v : TaskStore) (edge : Memᴰ (id, top) s.dependencies) where
    abbrev after : TaskStore
    after = cancel_task s id now

    after_task :
        (k : Text)
        → get_task after k
          ≡ (if text_eq id k then with_update to_cancelled now (get_task s k) else get_task s k)
    unfolding cancel_task get_task
    after_task k = find_task-update_rows id k to_cancelled now s.tasks

    after_other : (k : Text) → text_eq id k ≡ false → get_task after k ≡ get_task s k
    after_other k other =
        after_task k
        ∙ ap (λ b. if b then with_update to_cancelled now (get_task s k) else get_task s k) other

    after_here :
        (k : Text)
        → text_eq id k ≡ true
        → get_task after k ≡ with_update to_cancelled now (get_task s k)
    after_here k is =
        after_task k
        ∙ ap (λ b. if b then with_update to_cancelled now (get_task s k) else get_task s k) is

    after_same : after.dependencies ≡ s.dependencies
    unfolding cancel_task
    after_same = refl

    module _ (wanted : should_cancel keeps now s id ≡ true) (c : Cascade id after v)
        (below : (d : Text)
          → Memᴰ d (first_dependents after id)
          → should_cancel keeps now v d ≡ false) where
      first_fate : (k : Text) → Fate s.dependencies top k (get_task s k) (get_task after k)
      first_fate k = elim (Bool-cases (text_eq id k)) [
        | inr other ↦ rw (after_other k other) (kept (get_task s k))
        | inl is ↦ rw (after_here k is) (
            by_row (get_task s k)
              (ap (should_cancel keeps now s) (sym ((text_eq_iff id k).0 is)) ∙ wanted)
              (through k top top
                (subst (λ x. Memᴰ (x, top) s.dependencies) ((text_eq_iff id k).0 is) edge)
                (itself top)))
      ]
        where
          by_row :
              (o : Option Task)
              → to_cancel keeps now o ≡ true
              → Depends s.dependencies k top
              → Fate s.dependencies top k o (with_update to_cancelled now o)
          by_row none w d = cc
          by_row (some t) w d = cancels t w d

      pub Cascade-step : Cascade top s v
      Cascade-step = record {
        same = c.same ∙ after_same;
        fate = λ k. Fate-join (first_fate k) (
            Fate-up (through id top top edge (itself top))
              (subst (λ ds. Fate ds id k (get_task after k) (get_task v k)) after_same (c.fate k)));
        closed = λ k d p q m. elim (Bool-cases (text_eq id k)) [
          | inl is ↦ below d (
              first_same s after id d after_same
                (subst (λ x. Memᴰ d (first_dependents s x)) (sym ((text_eq_iff id k).0 is)) m))
          | inr other ↦
              c.closed k d (ap is_pending (after_other k other) ∙ p) q
                (first_same s after k d after_same m)
        ];
      }
