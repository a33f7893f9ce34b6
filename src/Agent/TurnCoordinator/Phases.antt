-- ===== src/Agent/TurnCoordinator/Phases.antt =====
-- Numbers of turns in a phase, added up over the turns made so far.
use anonka.Prelude.{
  ℕ, zero, suc, ◌+◌, ◌≤◌, ◌<◌, ◌≡◌, refl, ap, ◌∙◌, Bool, true, false, not, if◌then◌else◌, ◌==◌,
  arith, Bool-cases, inl, inr,
}
use anonka.Agent.TurnCoordinator.{
  Phase, queued, waiting, running, leaving, finished, Turn, set_phase, set_turn, is_finished,
  is_running, is_queued, is_waiting, is_leaving,
}

-- A number of the phase of each of the first `n` turns, added up.
unfoldable pub total : (Phase → ℕ) → (ℕ → Turn) → ℕ → ℕ
total w f zero = 0
total w f (suc n) = w (f n).phase + total w f n

abbrev pub bit : Bool → ℕ
bit true = 1
bit false = 0

abbrev pub running_turns : (ℕ → Turn) → ℕ → ℕ
running_turns = total (λ p. bit (is_running p))

abbrev pub unfinished_turns : (ℕ → Turn) → ℕ → ℕ
unfinished_turns = total (λ p. bit (not (is_finished p)))

pub set_phase_here : (i : ℕ) (p : Phase) (f : ℕ → Turn) → (set_phase i p f i).phase ≡ p
unfolding set_phase
set_phase_here i p f = ground arith

pub set_phase_other :
    (i j : ℕ) (p : Phase) (f : ℕ → Turn) → (j == i) ≡ false → set_phase i p f j ≡ f j
unfolding set_phase
set_phase_other i j p f h = rw h refl

-- A test of the phases after one is set.
pub test-set_phase :
    (b : Phase → Bool) (i j : ℕ) (p : Phase) (f : ℕ → Turn)
    → b (set_phase i p f j).phase ≡ (if j == i then b p else b (f j).phase)
unfolding set_phase
test-set_phase b i j p f = elim (Bool-cases (j == i)) [
  | inl here ↦ rw (here, set_phase) refl
  | inr other ↦ rw (other, set_phase) refl
]

pub test-set_turn :
    (b : Phase → Bool) (i j : ℕ) (t : Turn) (f : ℕ → Turn)
    → b (set_turn i t f j).phase ≡ (if j == i then b t.phase else b (f j).phase)
test-set_turn b i j t f = elim (Bool-cases (j == i)) [
  | inl here ↦ rw here refl
  | inr other ↦ rw other refl
]

pub total-set_phase_beyond :
    (w : Phase → ℕ) (i : ℕ) (p : Phase) (f : ℕ → Turn) (n : ℕ)
    → n ≤ i
    → total w (set_phase i p f) n ≡ total w f n
unfolding total set_phase
total-set_phase_beyond w i p f zero h = refl
total-set_phase_beyond w i p f (suc n) h =
    ground (arith, total-set_phase_beyond w i p f n (omega (arith, h)))

pub total-set_phase :
    (w : Phase → ℕ) (i : ℕ) (p : Phase) (f : ℕ → Turn) (n : ℕ)
    → i < n
    → total w (set_phase i p f) n + w (f i).phase ≡ total w f n + w p
unfolding total set_phase
total-set_phase w i p f zero h = absurd (omega (arith, h))
total-set_phase w i p f (suc n) h = elim (Bool-cases (n == i)) [
  | inl last ↦
      let at : n ≡ i = ground (arith, last) in
      let here : w (set_phase i p f n).phase ≡ w p =
        ap w (ap (λ j. (set_phase i p f j).phase) at ∙ set_phase_here i p f) in
      omega (
        arith,
        here,
        ap (λ j. w (f j).phase) at,
        total-set_phase_beyond w i p f n (ground (arith, at)),
      )
  | inr before ↦
      let there : w (set_phase i p f n).phase ≡ w (f n).phase =
        ap (λ (t : Turn). w t.phase) (set_phase_other i n p f before) in
      omega (arith, there, total-set_phase w i p f n (ground (arith, before, h)))
]

total-set_turn_beyond :
    (w : Phase → ℕ) (i : ℕ) (t : Turn) (f : ℕ → Turn) (n : ℕ)
    → n ≤ i
    → total w (set_turn i t f) n ≡ total w f n
unfolding total
total-set_turn_beyond w i t f zero h = refl
total-set_turn_beyond w i t f (suc n) h =
    ground (arith, total-set_turn_beyond w i t f n (omega (arith, h)))

pub set_turn_here : (i : ℕ) (t : Turn) (f : ℕ → Turn) → set_turn i t f i ≡ t
set_turn_here i t f = ground arith

pub set_turn_other : (i j : ℕ) (t : Turn) (f : ℕ → Turn) → (j == i) ≡ false → set_turn i t f j ≡ f j
set_turn_other i j t f h = rw h refl

pub total-set_turn :
    (w : Phase → ℕ) (t : Turn) (f : ℕ → Turn) (n : ℕ)
    → total w (set_turn n t f) (suc n) ≡ w t.phase + total w f n
unfolding total
total-set_turn w t f n =
    let here = ap (λ (t : Turn). w t.phase) (set_turn_here n t f) in
    omega (arith, here, total-set_turn_beyond w n t f n (omega arith))

pub queued_phase : (p : Phase) → is_queued p ≡ true → p ≡ queued
queued_phase queued h = refl
queued_phase waiting h = cc
queued_phase running h = cc
queued_phase leaving h = cc
queued_phase finished h = cc

pub waiting_phase : (p : Phase) → is_waiting p ≡ true → p ≡ waiting
waiting_phase queued h = cc
waiting_phase waiting h = refl
waiting_phase running h = cc
waiting_phase leaving h = cc
waiting_phase finished h = cc

pub running_phase : (p : Phase) → is_running p ≡ true → p ≡ running
running_phase queued h = cc
running_phase waiting h = cc
running_phase running h = refl
running_phase leaving h = cc
running_phase finished h = cc

pub leaving_phase : (p : Phase) → is_leaving p ≡ true → p ≡ leaving
leaving_phase queued h = cc
leaving_phase waiting h = cc
leaving_phase running h = cc
leaving_phase leaving h = refl
leaving_phase finished h = cc
