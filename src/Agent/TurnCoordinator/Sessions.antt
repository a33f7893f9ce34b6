-- ===== src/Agent/TurnCoordinator/Sessions.antt =====
-- The order of the turns within a session.
use mathlib.Core.Path.{subst}
use anonka.Prelude.{
  ℕ, ◌≤◌, ◌<◌, ◌≡◌, refl, sym, ap, ◌∙◌, true, false, none, some, Text, text_eq, text_eq_iff, ◌==◌,
  ==_iff, arith, Bool-cases, Option-cases, inl, inr,
}
use anonka.Prelude.Dicts.{Dict, lookup, delete, lookup-delete, lookup-delete-some}
use anonka.Agent.TurnCoordinator.{
  Phase, queued, waiting, running, leaving, finished, Turn, set_phase, is_queued, is_finished,
  is_free,
}
use anonka.Agent.TurnCoordinator.Phases.{test-set_phase}

-- The turns `k` before `j` in its session have settled.
abbrev pub IsNext : (ℕ → Turn) → ℕ → Type 0
IsNext f j =
    (k : ℕ) → k < j → (f k).session_key ≡ (f j).session_key → is_finished (f k).phase ≡ true

pub record IsSerial (chains : Dict ℕ) (f : ℕ → Turn) (n : ℕ) : Type 0 where
  -- The chain of a session ends with its last turn.
  pub last :
      (key : Text) (i : ℕ)
      → lookup key chains ≡ some i
      → (i < n) × ((f i).session_key ≡ key) × ((j : ℕ) → j < n → (f j).session_key ≡ key → j ≤ i)
  pub idle :
      (key : Text)
      → lookup key chains ≡ none
      → (j : ℕ) → j < n
      → (f j).session_key ≡ key
      → is_finished (f j).phase ≡ true
  -- A turn waits for the one right before it in its session.
  pub behind :
      (j i : ℕ)
      → j < n
      → (f j).previous ≡ some i
      → (i < j)
        × ((f i).session_key ≡ (f j).session_key)
        × ((k : ℕ) → k < j → (f k).session_key ≡ (f j).session_key → k ≤ i)
  pub first : (j : ℕ) → j < n → (f j).previous ≡ none → IsNext f j
  pub order : (j : ℕ) → j < n → is_queued (f j).phase ≡ false → IsNext f j

finished_begun : (p : Phase) → is_finished p ≡ true → is_queued p ≡ false
finished_begun queued h = cc
finished_begun waiting h = refl
finished_begun running h = refl
finished_begun leaving h = refl
finished_begun finished h = refl

module _ (chains : Dict ℕ) (f : ℕ → Turn) (n : ℕ) (v : IsSerial chains f n) where
  -- A turn whose earlier one has settled is next in its session.
  pub free-IsNext : (j : ℕ) → j < n → is_free f (f j).previous ≡ true → IsNext f j
  free-IsNext j m free = elim (Option-cases (f j).previous) [
    | inl e ↦ v.first j m e
    | inr (i, e) ↦
        let (before, same, highest) = v.behind j i m e in
        let settled : is_finished (f i).phase ≡ true = sym (ap (is_free f) e) ∙ free in
        λ k below key. elim (Bool-cases (k == i)) [
          | inl is ↦ ap (λ x. is_finished (f x).phase) ((==_iff k i).0 is) ∙ settled
          | inr other ↦
              v.order i (omega (arith, before, m)) (finished_begun (f i).phase settled) k
                (ground (arith, other, highest k below key)) (key ∙ sym same)
        ]
  ]

  module _ (i : ℕ) (q : Phase) where
    same_key : (j : ℕ) → (set_phase i q f j).session_key ≡ (f j).session_key
    unfolding set_phase
    same_key j = elim (Bool-cases (j == i)) [
      | inl here ↦ rw (here, set_phase) refl
      | inr other ↦ rw (other, set_phase) refl
    ]

    same_previous : (j : ℕ) → (set_phase i q f j).previous ≡ (f j).previous
    unfolding set_phase
    same_previous j = elim (Bool-cases (j == i)) [
      | inl here ↦ rw (here, set_phase) refl
      | inr other ↦ rw (other, set_phase) refl
    ]

    module _ (lives : is_finished (f i).phase ≡ false) where
      stays_finished :
          (k : ℕ) → is_finished (f k).phase ≡ true → is_finished (set_phase i q f k).phase ≡ true
      stays_finished k h = elim (Bool-cases (k == i)) [
        | inl is ↦
            let bad : true ≡ false =
              sym h ∙ ap (λ x. is_finished (f x).phase) ((==_iff k i).0 is) ∙ lives in
            cc
        | inr other ↦ test-set_phase is_finished i k q f ∙ rw other h
      ]

      stays-IsNext : (j : ℕ) → IsNext f j → IsNext (set_phase i q f) j
      stays-IsNext j h k below key =
          stays_finished k (h k below (sym (same_key k) ∙ key ∙ same_key j))

      -- One turn that has not settled goes on; it is next in its session.
      pub set_phase-IsSerial : IsNext f i → IsSerial chains (set_phase i q f) n
      set_phase-IsSerial is_next = record {
        last = λ key j e.
            let (m, at, highest) = v.last key j e in
            (m, same_key j ∙ at, λ k mk at_k. highest k mk (sym (same_key k) ∙ at_k));
        idle = λ key e j m at. stays_finished j (v.idle key e j m (sym (same_key j) ∙ at));
        behind = λ j p m e.
            let (before, same, highest) = v.behind j p m (sym (same_previous j) ∙ e) in
            (
              before,
              same_key p ∙ same ∙ sym (same_key j),
              λ k below key. highest k below (sym (same_key k) ∙ key ∙ same_key j),
            );
        first = λ j m e. stays-IsNext j (v.first j m (sym (same_previous j) ∙ e));
        order = λ j m begun. stays-IsNext j (elim (Bool-cases (j == i)) [
          | inl is ↦ subst (λ x. IsNext f x) (sym ((==_iff j i).0 is)) is_next
          | inr other ↦ v.order j m (sym (test-set_phase is_queued i j q f ∙ rw other refl) ∙ begun)
        ]);
      }

  -- The session's last turn has settled, and its chain goes.
  pub delete-IsSerial :
      (key : Text) (i : ℕ)
      → lookup key chains ≡ some i
      → is_finished (f i).phase ≡ true
      → IsSerial (delete key chains) f n
  delete-IsSerial key i e settled = record {
    last = λ k j found. v.last k j (lookup-delete-some key k chains found);
    idle = λ k gone j m at. elim (Bool-cases (text_eq key k)) [
      | inr other ↦ v.idle k (sym (lookup-delete key k chains ∙ rw other refl) ∙ gone) j m at
      | inl same ↦
          let is : key ≡ k = (text_eq_iff key k).0 same in
          let (mi, at_i, highest) = v.last key i e in
          elim (Bool-cases (j == i)) [
            | inl here ↦ ap (λ x. is_finished (f x).phase) ((==_iff j i).0 here) ∙ settled
            | inr before ↦
                v.order i mi (finished_begun (f i).phase settled) j
                  (ground (arith, before, highest j m (at ∙ sym is))) (at ∙ sym is ∙ sym at_i)
          ]
    ];
    behind = v.behind;
    first = v.first;
    order = v.order;
  }
