-- ===== src/Bot/RateLimiter.antt =====
-- src/bot/rate-limiter.ts: the sliding-window limiter of plugin actions. `now` is `Date.now()`, and a
-- call gives `false` where the source throws. The array of a key is mutated in place, so what a
-- refused call dropped stays dropped.
pub mod Window
pub mod Tests
use anonka.Prelude.{
  ℕ, suc, ◌+◌, Bool, true, false, List, [], ◌∷◌, ◌++◌, Option, none, some, Text, if◌then◌else◌, ltb,
  leb, length, drop,
}
use anonka.Prelude.Dicts.{Dict, lookup, insert}

pub record PluginRateLimiter : Type 0 where
  pub windows : Dict (List ℕ)

unfoldable pub new_limiter : PluginRateLimiter
new_limiter = record { windows = [] }

abbrev pub plugin_key : Text → Text → Text
plugin_key plugin_name action = plugin_name ++ (b':' ∷ action)

-- `t > now - windowMs`; the right side is negative in the source where `now` is small.
abbrev pub is_recent : ℕ → ℕ → ℕ → Bool
is_recent now window_ms t = ltb now (t + window_ms)

abbrev pub next : Option ℕ → Option ℕ
next none = none
next (some n) = some (suc n)

-- `findIndex`, with `none` for -1.
unfoldable pub first_valid : ℕ → ℕ → List ℕ → Option ℕ
first_valid now window_ms [] = none
first_valid now window_ms (t ∷ ts) =
    let rest = first_valid now window_ms ts in
    if is_recent now window_ms t then some 0 else next rest

-- `splice(0, firstValid)`, or the array emptied if nothing is valid.
abbrev pub splice : Option ℕ → List ℕ → List ℕ
splice none ts = []
splice (some n) ts = drop n ts

unfoldable pub remove_expired : ℕ → ℕ → List ℕ → List ℕ
unfolding first_valid
remove_expired now window_ms ts = splice (first_valid now window_ms ts) ts

abbrev pub timestamps_of : Option (List ℕ) → List ℕ
timestamps_of none = []
timestamps_of (some ts) = ts

unfoldable pub check : PluginRateLimiter → Text → ℕ → ℕ → ℕ → PluginRateLimiter × Bool
unfolding remove_expired
check l key limit window_ms now =
    let timestamps = remove_expired now window_ms (timestamps_of (lookup key l.windows)) in
    if leb limit (length timestamps)
    then (record l { windows = insert key timestamps l.windows }, false)
    else (record l { windows = insert key (timestamps ++ now ∷ []) l.windows }, true)

unfoldable pub clear : PluginRateLimiter → PluginRateLimiter
clear l = record l { windows = [] }
