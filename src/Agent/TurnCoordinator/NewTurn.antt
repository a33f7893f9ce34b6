-- ===== src/Agent/TurnCoordinator/NewTurn.antt =====
-- A new turn within its session.
use anonka.Prelude.{
  ℕ, suc, ◌≤◌, ◌<◌, ◌≡◌, ◌⊎◌, refl, sym, ap, ◌∙◌, true, false, none, some, Text, text_eq,
  text_eq_iff, ltb, arith, Bool-cases, inl, inr,
}
use anonka.Prelude.Dicts.{Dict, lookup, insert, lookup-insert}
use anonka.Agent.TurnCoordinator.{Turn, set_turn, is_queued, is_finished}
use anonka.Agent.TurnCoordinator.Phases.{set_turn_here, set_turn_other}
use anonka.Agent.TurnCoordinator.Sessions.{IsSerial, IsNext}

module _ (chains : Dict ℕ) (f : ℕ → Turn) (n : ℕ) (v : IsSerial chains f n) where
  module _ (key : Text) (t : Turn) where
    abbrev g : ℕ → Turn
    g = set_turn n t f

    old : (j : ℕ) → j < n → g j ≡ f j
    old j m = set_turn_other n j t f (ground (arith, m))

    old-IsNext : (j : ℕ) → j < n → IsNext f j → IsNext g j
    old-IsNext j m h k below at =
        let mk : k < n = omega (arith, m, below) in
        ap (λ (x : Turn). is_finished x.phase) (old k mk)
        ∙ h k below (
            sym (ap (λ (x : Turn). x.session_key) (old k mk))
            ∙ at
            ∙ ap (λ (x : Turn). x.session_key) (old j m))

    before_or_new : (j : ℕ) → j < suc n → (j < n) ⊎ (j ≡ n)
    before_or_new j m = elim (Bool-cases (ltb j n)) [
      | inl below ↦ inl (ground (arith, below))
      | inr above ↦ inr (ground (arith, above, m))
    ]

    old_key : (j : ℕ) → j < n → (g j).session_key ≡ (f j).session_key
    old_key j m = ap (λ (x : Turn). x.session_key) (old j m)

    module _ (at_key : t.session_key ≡ key) (at_previous : t.previous ≡ lookup key chains)
        (waits : is_queued t.phase ≡ true) where
      at_new : (j : ℕ) → j ≡ n → g j ≡ t
      at_new j is = ap g is ∙ set_turn_here n t f

      new_key : (j : ℕ) → j ≡ n → (g j).session_key ≡ key
      new_key j is = ap (λ (x : Turn). x.session_key) (at_new j is) ∙ at_key

      new_previous : (j : ℕ) → j ≡ n → (g j).previous ≡ lookup key chains
      new_previous j is = ap (λ (x : Turn). x.previous) (at_new j is) ∙ at_previous

      other_session :
          (k : Text) (j : ℕ)
          → text_eq key k ≡ false
          → j < suc n
          → (g j).session_key ≡ k
          → (j < n) × ((f j).session_key ≡ k)
      other_session k j other m at = elim (before_or_new j m) [
        | inl mj ↦ (mj, sym (old_key j mj) ∙ at)
        | inr is ↦
            let bad : true ≡ false =
              sym ((text_eq_iff key k).1 (sym (new_key j is) ∙ at)) ∙ other in
            cc
      ]

      new_last :
          (k : Text) (i : ℕ)
          → lookup k (insert key n chains) ≡ some i
          → (i < suc n)
            × ((g i).session_key ≡ k)
            × ((j : ℕ) → j < suc n → (g j).session_key ≡ k → j ≤ i)
      new_last k i e = elim (Bool-cases (text_eq key k)) [
        | inl same ↦
            let found : some n ≡ some i = sym (lookup-insert key k n chains ∙ rw same refl) ∙ e in
            let is : i ≡ n = cc in
            (
              omega (arith, is),
              new_key i is ∙ (text_eq_iff key k).0 same,
              λ j m at. omega (arith, is, m),
            )
        | inr other ↦
            let (mi, at, highest) =
              v.last k i (sym (lookup-insert key k n chains ∙ rw other refl) ∙ e) in
            (
              omega (arith, mi),
              old_key i mi ∙ at,
              λ j m at_j. let (mj, at_k) = other_session k j other m at_j in highest j mj at_k,
            )
      ]

      new_idle :
          (k : Text)
          → lookup k (insert key n chains) ≡ none
          → (j : ℕ) → j < suc n
          → (g j).session_key ≡ k
          → is_finished (g j).phase ≡ true
      new_idle k gone j m at = elim (Bool-cases (text_eq key k)) [
        | inl same ↦
            let found : some n ≡ none = sym (lookup-insert key k n chains ∙ rw same refl) ∙ gone in
            cc
        | inr other ↦
            let (mj, at_k) = other_session k j other m at in
            ap (λ (x : Turn). is_finished x.phase) (old j mj)
            ∙ v.idle k (sym (lookup-insert key k n chains ∙ rw other refl) ∙ gone) j mj at_k
      ]

      new_behind :
          (j i : ℕ)
          → j < suc n
          → (g j).previous ≡ some i
          → (i < j)
            × ((g i).session_key ≡ (g j).session_key)
            × ((k : ℕ) → k < j → (g k).session_key ≡ (g j).session_key → k ≤ i)
      new_behind j i m e = elim (before_or_new j m) [
        | inl mj ↦
            let (before, same, highest) =
              v.behind j i mj (sym (ap (λ (x : Turn). x.previous) (old j mj)) ∙ e) in
            (
              before,
              old_key i (omega (arith, before, mj)) ∙ same ∙ sym (old_key j mj),
              λ k below at.
                  highest k below (sym (old_key k (omega (arith, below, mj))) ∙ at ∙ old_key j mj),
            )
        | inr is ↦
            let (mi, at_i, highest) = v.last key i (sym (new_previous j is) ∙ e) in
            (
              omega (arith, mi, is),
              old_key i mi ∙ at_i ∙ sym (new_key j is),
              λ k below at.
                  let mk : k < n = omega (arith, below, is) in
                  highest k mk (sym (old_key k mk) ∙ at ∙ new_key j is),
            )
      ]

      new_first : (j : ℕ) → j < suc n → (g j).previous ≡ none → IsNext g j
      new_first j m e = elim (before_or_new j m) [
        | inl mj ↦
            old-IsNext j mj (v.first j mj (sym (ap (λ (x : Turn). x.previous) (old j mj)) ∙ e))
        | inr is ↦ λ k below at.
            let mk : k < n = omega (arith, below, is) in
            ap (λ (x : Turn). is_finished x.phase) (old k mk)
            ∙ v.idle key (sym (new_previous j is) ∙ e) k mk (sym (old_key k mk) ∙ at ∙ new_key j is)
      ]

      -- A new turn of a session becomes the end of its chain.
      pub set_turn-IsSerial : IsSerial (insert key n chains) g (suc n)
      set_turn-IsSerial = record {
        last = new_last;
        idle = new_idle;
        behind = new_behind;
        first = new_first;
        order = λ j m begun. elim (before_or_new j m) [
          | inl mj ↦
              old-IsNext j mj
                (v.order j mj (sym (ap (λ (x : Turn). is_queued x.phase) (old j mj)) ∙ begun))
          | inr is ↦
              let bad : true ≡ false =
                sym (ap (λ (x : Turn). is_queued x.phase) (at_new j is) ∙ waits) ∙ begun in
              cc
        ];
      }
