-- ===== src/Telegram/SendResult/Failures.antt =====
-- Which failures are taken for a proof that no message was created.
use anonka.Prelude.{
  ℕ, ◌≡◌, ◌≢◌, ◌↔◌, refl, sym, ◌∙◌, true, false, [], ◌∷◌, ◌++◌, Option, none, some, Text, text,
  text_eq, text_eq_iff, ◌==◌, ==_iff, leb, arith, Bool-cases, inl, inr,
}
use anonka.Prelude.Int.{ℤ, pos, negsuc}
use anonka.Telegram.SendResult.{
  SendError, rpc_error, other_error, definite, ambiguous, definite_rejection_codes, has,
  starts_with, classify_code, classify_message, classify_send_failure,
}

-- The errors that prove a rejection: one that names the seconds to wait, one whose message begins
-- with FLOOD_WAIT, and an RPC error with one of the client's codes, unless it says that the random
-- id is already known.
pub data Rejection : SendError → Type 0 where
  flood_seconds :
      (seconds : ℕ) (message : Option Text) → Rejection (other_error (some seconds) message)
  flood_message : (rest : Text) → Rejection (other_error none (some (text "FLOOD_WAIT" ++ rest)))
  rejected :
      (error_message : Text) (code : ℕ)
      → error_message ≢ text "RANDOM_ID_DUPLICATE"
      → has definite_rejection_codes code ≡ true
      → Rejection (rpc_error error_message (some (pos code)))

starts_with-append : (p s : Text) → starts_with (p ++ s) p ≡ true
unfolding starts_with
starts_with-append [] s = refl
starts_with-append (c ∷ p) s = ground (arith, starts_with-append p s)

starts_with_split : (s p : Text) → starts_with s p ≡ true → (rest : Text) × (s ≡ p ++ rest)
unfolding starts_with
starts_with_split s [] h = (s, refl)
starts_with_split [] (d ∷ p) h = cc
starts_with_split (c ∷ s) (d ∷ p) h = elim (Bool-cases (c == d)) [
  | inl same ↦
      let (rest, e) = starts_with_split s p (rw (same, starts_with) at h) in
      (rest, rw (e, (==_iff c d).0 same) refl)
  | inr other ↦ let e : false ≡ true = rw (other, starts_with) at h in cc
]

small_code : (c : ℕ) → has definite_rejection_codes c ≡ true → leb 500 c ≡ false
small_code c h = ground arith

classify_message-Rejection :
    (m : Option Text) → classify_message m ≡ definite → Rejection (other_error none m)
classify_message-Rejection none h = cc
classify_message-Rejection (some m) h = elim (Bool-cases (starts_with m (text "FLOOD_WAIT"))) [
  | inl flood ↦
      let (rest, e) = starts_with_split m (text "FLOOD_WAIT") flood in rw e (flood_message rest)
  | inr other ↦ let e : ambiguous ≡ definite = rw (other, classify_message) at h in cc
]

classify_code-Rejection :
    (s : Text) (code : Option ℤ)
    → s ≢ text "RANDOM_ID_DUPLICATE"
    → classify_code code ≡ definite
    → Rejection (rpc_error s code)
classify_code-Rejection s none new h = cc
classify_code-Rejection s (some (negsuc n)) new h = cc
classify_code-Rejection s (some (pos c)) new h =
    elim (Bool-cases (has definite_rejection_codes c)) [
      | inl known ↦ rejected s c new known
      | inr unknown ↦
          let e : classify_code (some (pos c)) ≡ ambiguous = ground arith in
          let bad : ambiguous ≡ definite = sym e ∙ h in cc
    ]

-- A failure is definite exactly for those errors: every other one keeps the correlation of the
-- send, so that a retry reuses its random id.
pub classify_send_failure_iff :
    (error : SendError) → (classify_send_failure error ≡ definite) ↔ Rejection error
unfolding classify_send_failure
classify_send_failure_iff error = (sound error, complete error)
  where
    sound : (error : SendError) → classify_send_failure error ≡ definite → Rejection error
    sound (other_error (some seconds) m) h = flood_seconds seconds m
    sound (other_error none m) h = classify_message-Rejection m h
    sound (rpc_error s code) h = elim (Bool-cases (text_eq s (text "RANDOM_ID_DUPLICATE"))) [
      | inl known ↦ let e : ambiguous ≡ definite = rw (known, classify_send_failure) at h in cc
      | inr new ↦
          classify_code-Rejection s code
            (λ e. let bad : true ≡ false = sym ((text_eq_iff s _).1 e) ∙ new in cc)
            (rw (new, classify_send_failure) at h)
    ]

    complete : (error : SendError) → Rejection error → classify_send_failure error ≡ definite
    complete _ (flood_seconds seconds m) = refl
    complete _ (flood_message rest) = rw (starts_with-append (text "FLOOD_WAIT") rest) refl
    complete _ (rejected s c new known) =
        elim (Bool-cases (text_eq s (text "RANDOM_ID_DUPLICATE"))) [
          | inl same ↦ absurd (new ((text_eq_iff s _).0 same))
          | inr other ↦ rw (other, classify_send_failure) (ground (arith, small_code c known))
        ]
