-- ===== src/Agent/Hooks/Runs.antt =====
-- Matching a keyword of several words.
use anonka.Prelude.{
  ℕ, zero, suc, ◌+◌, ◌-◌, ◌<◌, ◌≡◌, ◌↔◌, refl, ap, ◌∙◌, true, false, List, [], ◌∷◌, ◌++◌, Text,
  text_eq, text_eq_iff, text_eq_refl, ltb, length, length-append, arith, Bool-cases, inl, inr,
}
use anonka.Agent.Hooks.{tail, matches_at, scan, matches_multi_word}

-- The keyword's tokens stand in the message's, one after the other.
pub record Run (keyword tokens : List Text) : Type 0 where
  pub before : List Text
  pub after : List Text
  pub split : tokens ≡ before ++ (keyword ++ after)

matches_at-split :
    (tokens keyword : List Text)
    → matches_at tokens keyword ≡ true
    → (after : List Text) × (tokens ≡ keyword ++ after)
unfolding matches_at
matches_at-split tokens [] h = (tokens, refl)
matches_at-split [] (k ∷ keyword) h = cc
matches_at-split (t ∷ tokens) (k ∷ keyword) h = elim (Bool-cases (text_eq t k)) [
  | inl same ↦
      let (after, e) = matches_at-split tokens keyword (rw (same, matches_at) at h) in
      (after, rw (e, (text_eq_iff t k).0 same) refl)
  | inr other ↦ let bad : false ≡ true = rw (other, matches_at) at h in cc
]

matches_at-append : (keyword after : List Text) → matches_at (keyword ++ after) keyword ≡ true
unfolding matches_at
matches_at-append [] after = refl
matches_at-append (k ∷ keyword) after = rw (text_eq_refl k) (matches_at-append keyword after)

scan_sound :
    (n : ℕ) (tokens keyword : List Text) → scan n tokens keyword ≡ true → Run keyword tokens
unfolding scan
scan_sound zero tokens keyword h = cc
scan_sound (suc n) tokens keyword h = elim (Bool-cases (matches_at tokens keyword)) [
  | inl this ↦
      let (after, e) = matches_at-split tokens keyword this in
      record { before = []; after = after; split = e }
  | inr later ↦ further tokens (scan_sound n (tail tokens) keyword (rw (later, scan) at h))
]
  where
    further : (tokens : List Text) → Run keyword (tail tokens) → Run keyword tokens
    further [] r = r
    further (t ∷ tokens) r = record {
      before = t ∷ r.before;
      after = r.after;
      split = ap (λ ts. t ∷ ts) r.split;
    }

scan_complete :
    (n : ℕ) (before keyword after : List Text)
    → length before < n
    → scan n (before ++ (keyword ++ after)) keyword ≡ true
unfolding scan
scan_complete zero before keyword after h = absurd (omega (arith, h))
scan_complete (suc n) [] keyword after h = rw (matches_at-append keyword after) refl
scan_complete (suc n) (b ∷ before) keyword after h =
    ground (arith, scan_complete n before keyword after (omega (arith, h)))

-- The loops find a keyword exactly if its tokens stand in the message's tokens, one after the other,
-- at any place.
pub matches_multi_word_iff :
    (tokens keyword : List Text) → (matches_multi_word tokens keyword ≡ true) ↔ Run keyword tokens
unfolding matches_multi_word
matches_multi_word_iff tokens keyword = (sound, complete)
  where
    sound : matches_multi_word tokens keyword ≡ true → Run keyword tokens
    sound h = elim (Bool-cases (ltb (length tokens) (length keyword))) [
      | inl short ↦ let bad : false ≡ true = rw (short, matches_multi_word) at h in cc
      | inr long ↦
          scan_sound (suc (length tokens - length keyword)) tokens keyword
            (rw (long, matches_multi_word) at h)
    ]

    complete : Run keyword tokens → matches_multi_word tokens keyword ≡ true
    complete r =
        let long : length tokens ≡ length r.before + (length keyword + length r.after) =
          ap length r.split
          ∙ length-append r.before (keyword ++ r.after)
          ∙ ap (λ n. length r.before + n) (length-append keyword r.after) in
        let enough : ltb (length tokens) (length keyword) ≡ false = ground arith in
        rw enough (
          ap (λ ts. scan (suc (length tokens - length keyword)) ts keyword) r.split
          ∙ scan_complete (suc (length tokens - length keyword)) r.before keyword r.after
              (omega (arith, long)))
