-- ===== src/Agent/Hooks/Blocking.antt =====
-- Which messages the blocklist blocks.
use mathlib.Core.List.{Memᴰ}
use anonka.Prelude.{
  ◌≡◌, ◌≢◌, ◌↔◌, ◌⊎◌, refl, sym, ap, ◌∙◌, Bool, true, false, ◌||◌, ◌&&◌, List, [], ◌∷◌, ◌++◌, Text,
  text_eq, text_eq_iff, text_eq_refl, arith, Bool-cases, inl, inr,
}
use anonka.Prelude.Dicts.{contains, add, contains-add}
use anonka.Agent.Hooks.{
  any, matches_multi_word, add_keyword, is_hit, tokenize, add_keywords, BlocklistConfig,
  TriggerEntry, reload, evaluate,
}
use anonka.Agent.Hooks.Runs.{Run, matches_multi_word_iff}

-- The test of one keyword, whatever the number of its words.
abbrev matches : List Text → List Text → Bool
matches tokens [] = false
matches tokens (t ∷ []) = any (λ u. text_eq t u) tokens
matches tokens (t ∷ u ∷ ts) = matches_multi_word tokens (t ∷ u ∷ ts)

any-add :
    (t : Text) (single tokens : List Text)
    → any (contains (add t single)) tokens
      ≡ (any (λ u. text_eq t u) tokens || any (contains single) tokens)
any-add t single [] = refl
any-add t single (u ∷ tokens) = ground (arith, contains-add t u single, any-add t single tokens)

any-append_last :
    (f : List Text → Bool) (xs : List (List Text)) (x : List Text)
    → any f (xs ++ x ∷ []) ≡ (any f xs || f x)
any-append_last f [] x = ground arith
any-append_last f (y ∷ xs) x = ground (arith, any-append_last f xs x)

is_hit-add_keyword :
    (ts : List Text) (s : List Text × List (List Text)) (tokens : List Text)
    → is_hit (add_keyword ts s) tokens ≡ (is_hit s tokens || matches tokens ts)
is_hit-add_keyword [] (single, multi) tokens = ground arith
is_hit-add_keyword (t ∷ []) (single, multi) tokens = ground (arith, any-add t single tokens)
is_hit-add_keyword (t ∷ u ∷ ts) (single, multi) tokens =
    ground (arith, any-append_last (matches_multi_word tokens) multi (t ∷ u ∷ ts))

-- A keyword with tokens, whose tokens stand in the message's.
pub record Blocks (fold : Text → Text) (keywords tokens : List Text) : Type 0 where
  pub keyword : Text
  pub listed : Memᴰ keyword keywords
  pub has_tokens : tokenize fold keyword ≢ []
  pub found : Run (tokenize fold keyword) tokens

any-text_eq_sound :
    (t : Text) (tokens : List Text) → any (λ u. text_eq t u) tokens ≡ true → Run (t ∷ []) tokens
any-text_eq_sound t [] h = cc
any-text_eq_sound t (u ∷ tokens) h = elim (Bool-cases (text_eq t u)) [
  | inl same ↦ record { before = []; after = tokens; split = rw ((text_eq_iff t u).0 same) refl }
  | inr other ↦
      let r = any-text_eq_sound t tokens (rw other at h) in
      record { before = u ∷ r.before; after = r.after; split = ap (λ ts. u ∷ ts) r.split }
]

any-text_eq_complete :
    (t : Text) (before after : List Text) → any (λ u. text_eq t u) (before ++ t ∷ after) ≡ true
any-text_eq_complete t [] after = rw (text_eq_refl t) refl
any-text_eq_complete t (b ∷ before) after = ground (arith, any-text_eq_complete t before after)

matches_iff : (tokens ts : List Text) → (matches tokens ts ≡ true) ↔ ((ts ≢ []) × Run ts tokens)
matches_iff tokens [] = (λ h. cc, λ p. absurd (p.0 refl))
matches_iff tokens (t ∷ []) = (
  λ h. (λ e. cc, any-text_eq_sound t tokens h),
  λ p. ap (any (λ u. text_eq t u)) p.1.split ∙ any-text_eq_complete t p.1.before p.1.after,
)
matches_iff tokens (t ∷ u ∷ ts) =
    let both = matches_multi_word_iff tokens (t ∷ u ∷ ts) in
    (λ h. (λ e. cc, both.0 h), λ p. both.1 p.1)

or_true : (a b : Bool) → (a || b) ≡ true → (a ≡ true) ⊎ (b ≡ true)
or_true true b h = inl refl
or_true false b h = inr h

or_right : (a : Bool) {b : Bool} → b ≡ true → (a || b) ≡ true
or_right true h = refl
or_right false h = h

module _ (fold : Text → Text) (tokens : List Text) where
  add_keywords-keeps :
      (kws : List Text) (s : List Text × List (List Text))
      → is_hit s tokens ≡ true
      → is_hit (add_keywords fold s kws) tokens ≡ true
  unfolding add_keywords
  add_keywords-keeps [] s h = h
  add_keywords-keeps (kw ∷ kws) s h =
      add_keywords-keeps kws (add_keyword (tokenize fold kw) s)
        (is_hit-add_keyword (tokenize fold kw) s tokens ∙ rw h refl)

  add_keywords_sound :
      (kws : List Text) (s : List Text × List (List Text))
      → is_hit (add_keywords fold s kws) tokens ≡ true
      → (is_hit s tokens ≡ true) ⊎ Blocks fold kws tokens
  unfolding add_keywords
  add_keywords_sound [] s h = inl h
  add_keywords_sound (kw ∷ kws) s h =
      elim (add_keywords_sound kws (add_keyword (tokenize fold kw) s) h) [
        | inr b ↦ inr (record {
          keyword = b.keyword;
          listed = Memᴰ.tail b.listed;
          has_tokens = b.has_tokens;
          found = b.found;
        })
        | inl now ↦
            elim (or_true (is_hit s tokens) (matches tokens (tokenize fold kw))
              (sym (is_hit-add_keyword (tokenize fold kw) s tokens) ∙ now)) [
                | inl old ↦ inl old
                | inr this ↦
                    let (has, run) = (matches_iff tokens (tokenize fold kw)).0 this in
                    inr (record {
                      keyword = kw;
                      listed = Memᴰ.head refl;
                      has_tokens = has;
                      found = run;
                    })
              ]
      ]

  add_keywords_complete :
      (kws : List Text) (s : List Text × List (List Text)) (kw : Text)
      → Memᴰ kw kws
      → matches tokens (tokenize fold kw) ≡ true
      → is_hit (add_keywords fold s kws) tokens ≡ true
  unfolding add_keywords
  add_keywords_complete [] s kw m h = elim m [ ]
  add_keywords_complete (k ∷ kws) s kw (Memᴰ.head e) h =
      add_keywords-keeps kws (add_keyword (tokenize fold k) s) (
        is_hit-add_keyword (tokenize fold k) s tokens
        ∙ or_right (is_hit s tokens) (ap (λ x. matches tokens (tokenize fold x)) (sym e) ∙ h))
  add_keywords_complete (k ∷ kws) s kw (Memᴰ.tail m) h =
      add_keywords_complete kws (add_keyword (tokenize fold k) s) kw m h

nothing_hit : (tokens : List Text) → is_hit ([], []) tokens ≡ false
unfolding contains
nothing_hit [] = refl
nothing_hit (t ∷ tokens) = nothing_hit tokens

conjuncts : (a b : Bool) → (a && b) ≡ true → (a ≡ true) × (b ≡ true)
conjuncts true b h = (refl, h)
conjuncts false b h = cc

blocked_flag :
    (fold : Text → Text) (config : BlocklistConfig) (triggers : List TriggerEntry) (s : Text)
    → (evaluate fold (reload fold config triggers) s).blocked
      ≡ (config.enabled && is_hit (add_keywords fold ([], []) config.keywords) (tokenize fold s))
unfolding evaluate reload
blocked_flag fold config triggers s =
    elim (Bool-cases
      (config.enabled && is_hit (add_keywords fold ([], []) config.keywords) (tokenize fold s))) [
        | inl hit ↦ rw (hit, evaluate) refl
        | inr free ↦ rw (free, evaluate) refl
      ]

-- A message is blocked exactly if the blocklist is enabled and has a keyword, of one word or of
-- several, whose tokens stand one after the other among the message's tokens. A keyword without a
-- token blocks nothing.
pub blocked_iff :
    (fold : Text → Text) (config : BlocklistConfig) (triggers : List TriggerEntry) (s : Text)
    → ((evaluate fold (reload fold config triggers) s).blocked ≡ true)
      ↔ ((config.enabled ≡ true) × Blocks fold config.keywords (tokenize fold s))
blocked_iff fold config triggers s =
    let same = blocked_flag fold config triggers s in
    (
      λ h.
          let (on, hit) = conjuncts config.enabled _ (sym same ∙ h) in
          (
            on,
            elim (add_keywords_sound fold (tokenize fold s) config.keywords ([], []) hit) [
              | inl bad ↦ let e : false ≡ true = sym (nothing_hit (tokenize fold s)) ∙ bad in cc
              | inr b ↦ b
            ],
          ),
      λ p.
          same
          ∙ rw (p.0) (
              add_keywords_complete fold (tokenize fold s) config.keywords ([], []) p.1.keyword
                p.1.listed
                ((matches_iff (tokenize fold s) (tokenize fold p.1.keyword)).1
                  (p.1.has_tokens, p.1.found))),
    )
