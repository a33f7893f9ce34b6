-- ===== src/Memory/PendingHistory/Tags.antt =====
-- What the removal of the message tags leaves of a text.
use anonka.Prelude.{
  ℕ, ◌≡◌, ◌≢◌, refl, sym, ap, ◌∙◌, true, false, not, ◌&&◌, ◌==◌, [], ◌∷◌, ◌++◌, Text, text, arith,
  All, Bool, and_iff,
}
use mathlib.Core.Path.{subst}
use mathlib.Core.List.{append_assoc}
use anonka.Memory.PendingHistory.{strip_tags, has_prefix, lower}

abbrev pub IsPlain : ℕ → Type 0
IsPlain c = c ≢ b'<'

lower-IsPlain : (c : ℕ) → IsPlain c → (lower c == b'<') ≡ false
lower-IsPlain c h = ground (arith, h)

-- A text without an opening bracket is kept as it is, whatever follows it.
strip_tags-plain : (p s : Text) → All IsPlain p → strip_tags 0 (p ++ s) ≡ p ++ strip_tags 0 s
unfolding strip_tags has_prefix
strip_tags-plain [] s h = refl
strip_tags-plain (c ∷ p) s (here, h) = rw (lower-IsPlain c here) (rw (strip_tags-plain p s h) refl)

-- Texts that part at a bracket are no prefixes of each other.
has_prefix-parted :
    (a b s : Text) → b ≢ [] → All IsPlain b → has_prefix (a ++ b) (a ++ b'<' ∷ s) ≡ false
unfolding has_prefix
has_prefix-parted [] [] s some_left plain = absurd (some_left refl)
has_prefix-parted [] (c ∷ b) s some_left (here, _) = ground (arith, here)
has_prefix-parted (c ∷ a) b s some_left plain =
    ground (arith, has_prefix-parted a b s some_left plain)

All-split : (a b : Text) → All IsPlain (a ++ b) → All IsPlain a × All IsPlain b
All-split [] b h = (tt, h)
All-split (c ∷ a) b (here, h) = let (l, r) = All-split a b h in ((here, l), r)

abbrev pub plain : Text → Bool
plain [] = true
plain (c ∷ p) = not (c == b'<') && plain p

pub plain_text : (p : Text) → plain p ≡ true → All IsPlain p
plain_text [] h = tt
plain_text (c ∷ p) h =
    let (here, later) = (and_iff (not (c == b'<')) (plain p)).0 h in
    (ground (arith, here), plain_text p later)

module _ (a b s : Text) (parts : a ++ b ≡ text "/user_message>") (some_left : b ≢ []) where
  both-IsPlain : All IsPlain a × All IsPlain b
  both-IsPlain =
      All-split a b
        (subst (λ (p : Text). All IsPlain p) (sym parts) (plain_text (text "/user_message>") refl))

  not_open : has_prefix (text "<user_message>") (b'<' ∷ (a ++ b'<' ∷ s)) ≡ false
  unfolding has_prefix
  not_open = by_first a parts
    where
      by_first :
          (a : Text)
          → a ++ b ≡ text "/user_message>"
          → has_prefix (text "<user_message>") (b'<' ∷ (a ++ b'<' ∷ s)) ≡ false
      by_first [] h = refl
      by_first (c ∷ a) h = let is : c ≡ b'/' = cc in rw is refl

  not_close : has_prefix (text "</user_message>") (b'<' ∷ (a ++ b'<' ∷ s)) ≡ false
  not_close =
      subst (λ (p : Text). has_prefix (b'<' ∷ p) (b'<' ∷ (a ++ b'<' ∷ s)) ≡ false) parts
        (has_prefix-parted (b'<' ∷ a) b s some_left both-IsPlain.1)

  kept_bracket : strip_tags 0 (b'<' ∷ (a ++ b'<' ∷ s)) ≡ b'<' ∷ strip_tags 0 (a ++ b'<' ∷ s)
  unfolding strip_tags
  kept_bracket = rw (not_open, not_close, strip_tags) refl

module _ (a b rest : Text) (parts : a ++ b ≡ text "/user_message>") (some_left : b ≢ []) where
  rejoined :
      strip_tags 0 (b'<' ∷ (a ++ (text "<user_message>" ++ (b ++ rest))))
      ≡ text "</user_message>" ++ strip_tags 0 rest
  unfolding strip_tags has_prefix
  rejoined =
      let s : Text = text "user_message>" ++ (b ++ rest) in
      let (a_plain, b_plain) = both-IsPlain a b s parts some_left in
      let skipped : strip_tags 0 (text "<user_message>" ++ (b ++ rest)) ≡ b ++ strip_tags 0 rest =
        strip_tags-plain b rest b_plain in
      let joined : a ++ (b ++ strip_tags 0 rest) ≡ text "/user_message>" ++ strip_tags 0 rest =
        sym (append_assoc a b (strip_tags 0 rest))
        ∙ ap (λ (p : Text). p ++ strip_tags 0 rest) parts in
      kept_bracket a b s parts some_left
      ∙ ap (λ (p : Text). b'<' ∷ p)
          (strip_tags-plain a (b'<' ∷ s) a_plain ∙ (ap (λ (p : Text). a ++ p) skipped ∙ joined))

-- The removal of the message tags can be undone by the sender: whatever text without an opening
-- bracket comes before, and whatever follows, a `</user_message>` that is interrupted anywhere inside
-- by a `<user_message>` comes out of the removal as a `</user_message>`.
pub strip_tags_forged :
    (before a b rest : Text)
    → All IsPlain before
    → a ≢ []
    → b ≢ []
    → a ++ b ≡ text "</user_message>"
    → strip_tags 0 (before ++ (a ++ (text "<user_message>" ++ (b ++ rest))))
      ≡ before ++ (text "</user_message>" ++ strip_tags 0 rest)
strip_tags_forged before [] b rest h first last parts = absurd (first refl)
strip_tags_forged before (c ∷ a) b rest h first last parts =
    let is : c ≡ b'<' = cc in
    let tail : a ++ b ≡ text "/user_message>" = cc in
    strip_tags-plain before (c ∷ (a ++ (text "<user_message>" ++ (b ++ rest)))) h
    ∙ ap (λ (s : Text). before ++ s) (rw is (rejoined a b rest tail last))
