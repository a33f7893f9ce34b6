-- ===== src/Agent/Hooks/Tests.antt =====
-- A blocklist with a keyword of one word and one of two.
use anonka.Prelude.{◌≡◌, ◌↔◌, refl, true, false, List, [], ◌∷◌, Text, text, text_eq}
use anonka.Prelude.Dicts.{contains, add}
use anonka.Agent.Hooks.{BlocklistConfig, TriggerEntry, tokenize, reload, evaluate}
use anonka.Agent.Hooks.Blocking.{Blocks, blocked_iff}

hooks : Unit {0}
unfolding evaluate reload tokenize contains add text_eq
hooks = tt

abbrev same_text : Text → Text
same_text s = s

abbrev blocklist : BlocklistConfig
blocklist = record {
  enabled = true;
  keywords = text "spam" ∷ text "free  coins!" ∷ text "..." ∷ [];
  message = text "no";
}

abbrev sale : List TriggerEntry
sale = record { keyword = text "sale"; context = text "Offer help."; enabled = true } ∷ []

blocked :
    (evaluate same_text (reload same_text blocklist sale) (text "get free, coins")).blocked ≡ true
unfolding hooks
blocked = refl

not_blocked :
    (evaluate same_text (reload same_text blocklist sale) (text "a free sale...")).blocked ≡ false
unfolding hooks
not_blocked = refl

triggered :
    (evaluate same_text
      (reload same_text blocklist sale)
      (text "a free sale...")).additional_context
    ≡ text "Offer help."
unfolding hooks
triggered = refl

blocked_iff_example :
    ((evaluate same_text (reload same_text blocklist sale) (text "get free, coins")).blocked ≡ true)
    ↔ ((blocklist.enabled ≡ true)
        × Blocks same_text blocklist.keywords (tokenize same_text (text "get free, coins")))
blocked_iff_example = blocked_iff same_text blocklist sale (text "get free, coins")
