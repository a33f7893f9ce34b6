-- ===== src/Agent/Tools/ModulePermissions/Persisted.antt =====
-- The cache and the table say the same, which is what a map of levels would say.
use anonka.Prelude.{
  and_iff, ◌≡◌, refl, ap, ◌∙◌, Bool, true, false, ◌&&◌, List, [], ◌∷◌, Text, text_eq, text_eq_iff,
  if◌then◌else◌, Bool-cases, inl, inr,
}
use anonka.Prelude.Dicts.{lookup, lookup-delete}
use anonka.Agent.Tools.ModulePermissions.{
  ModuleLevel, open_level, admin_level, disabled_level, Row, ModulePermissions, load_all, level_in,
  get_level, is_row_of, delete_rows, reset_module, reset_all, is_open, is_protected, set_level,
}
use anonka.Agent.Tools.ModulePermissions.Rows.{
  last_level, level-set_cached, level-drop_cached, level-load_from, last_level-append,
  last_level-delete_all, last_level-delete_none, last_level-delete_row, text_eq_comm,
}

-- What a client sees: a level for each chat and module.
abbrev pub Levels : Type 0
Levels = Text → Text → ModuleLevel

pub data Call : Type 0 where
  sets : (chat_id module_name : Text) → ModuleLevel → Call
  resets_module : (chat_id module_name : Text) → Call
  resets_all : (chat_id : Text) → Call

abbrev pub step : ModulePermissions → Call → ModulePermissions
step p (sets chat_id module_name level) = (set_level p chat_id module_name level).0
step p (resets_module chat_id module_name) = reset_module p chat_id module_name
step p (resets_all chat_id) = reset_all p chat_id

unfoldable pub run : ModulePermissions → List Call → ModulePermissions
unfolding set_level reset_module reset_all
run p [] = p
run p (c ∷ cs) = run (step p c) cs

abbrev written : Text → Text → ModuleLevel → Levels → Levels
written chat_id module_name level f c m =
    if text_eq chat_id c && text_eq module_name m then level else f c m

abbrev pub spec_step : Levels → Call → Levels
spec_step f (sets chat_id module_name level) c m =
    if is_protected module_name then f c m else written chat_id module_name level f c m
spec_step f (resets_module chat_id module_name) c m = written chat_id module_name open_level f c m
spec_step f (resets_all chat_id) c m = if text_eq chat_id c then open_level else f c m

abbrev pub spec_run : Levels → List Call → Levels
spec_run f [] = f
spec_run f (c ∷ cs) = spec_run (spec_step f c) cs

-- The cache and the table both say what the map of levels says.
abbrev pub Refines : ModulePermissions → Levels → Type 0
Refines p f = (c m : Text) → (get_level p c m ≡ f c m) × (last_level c m open_level p.rows ≡ f c m)

module _ (p : ModulePermissions) (f : Levels) (same : Refines p f) where
  set_level-Refines :
      (k n : Text) (l : ModuleLevel) → Refines (set_level p k n l).0 (spec_step f (sets k n l))
  unfolding set_level get_level
  set_level-Refines k n l c m = elim (Bool-cases (is_protected n)) [
    | inl refused ↦ rw (refused, set_level) (same c m)
    | inr allowed ↦ elim (Bool-cases (is_open l)) [
      | inl opens ↦
          let is : l ≡ open_level = is_open_level l opens in
          rw (allowed, set_level)
            (rw (opens, is)
              (
                level-drop_cached p.cache k n c m
                    ∙ ap (λ x. if text_eq k c && text_eq n m then open_level else x) (same c m).0,
                last_level-delete_row k n c m p.rows open_level
                    ∙ ap (λ x. if text_eq k c && text_eq n m then open_level else x) (same c m).1,
              ))
      | inr restricts ↦
          rw (allowed, set_level)
            (rw restricts (
              level-set_cached p.cache k n c m l
                  ∙ ap (λ x. if text_eq k c && text_eq n m then l else x) (same c m).0,
              last_level-append (delete_rows (is_row_of k n) p.rows)
                    (record { chat_id = k; module_name = n; level = l }) c m open_level
                  ∙ by_row (text_eq k c && text_eq n m)
                      (last_level-delete_row k n c m p.rows open_level),
            ))
    ]
  ]
    where
      is_open_level : (l : ModuleLevel) → is_open l ≡ true → l ≡ open_level
      is_open_level open_level h = refl
      is_open_level admin_level h = cc
      is_open_level disabled_level h = cc

      by_row :
          (b : Bool) {x : ModuleLevel}
          → x ≡ (if b then open_level else last_level c m open_level p.rows)
          → (if b then l else x) ≡ (if b then l else f c m)
      by_row true e = refl
      by_row false e = e ∙ (same c m).1

  reset_module-Refines :
      (k n : Text) → Refines (reset_module p k n) (spec_step f (resets_module k n))
  unfolding reset_module get_level
  reset_module-Refines k n c m = (
    level-drop_cached p.cache k n c m
        ∙ ap (λ x. if text_eq k c && text_eq n m then open_level else x) (same c m).0,
    last_level-delete_row k n c m p.rows open_level
        ∙ ap (λ x. if text_eq k c && text_eq n m then open_level else x) (same c m).1,
  )

  reset_all-Refines : (k : Text) → Refines (reset_all p k) (spec_step f (resets_all k))
  unfolding reset_all get_level level_in lookup
  reset_all-Refines k c m = elim (Bool-cases (text_eq k c)) [
    | inl here ↦ rw (lookup-delete k c p.cache) (
        rw here (
          refl,
          last_level-delete_all (λ r. text_eq r.chat_id k) c m (λ r at. in_chat r at ∙ here) p.rows
              open_level,
        ))
    | inr other ↦ rw (lookup-delete k c p.cache) (
        rw other (
          (same c m).0,
          last_level-delete_none (λ r. text_eq r.chat_id k) c m (λ r at. in_chat r at ∙ other)
                p.rows open_level
              ∙ (same c m).1,
        ))
  ]
    where
      in_chat : (r : Row) → is_row_of c m r ≡ true → text_eq r.chat_id k ≡ text_eq k c
      in_chat r at =
          rw
            ((text_eq_iff r.chat_id c).0
              ((and_iff (text_eq r.chat_id c) (text_eq r.module_name m)).0 at).0)
            (text_eq_comm c k)

  step-Refines : (call : Call) → Refines (step p call) (spec_step f call)
  step-Refines (sets k n l) = set_level-Refines k n l
  step-Refines (resets_module k n) = reset_module-Refines k n
  step-Refines (resets_all k) = reset_all-Refines k

load_all-Refines :
    (rows : List Row) → Refines (load_all rows) (λ c m. last_level c m open_level rows)
unfolding load_all get_level level_in lookup
load_all-Refines rows c m = (level-load_from [] rows c m, refl)

run_from-Refines :
    (calls : List Call) (p : ModulePermissions) (f : Levels)
    → Refines p f
    → Refines (run p calls) (spec_run f calls)
unfolding run
run_from-Refines [] p f same = same
run_from-Refines (c ∷ cs) p f same =
    run_from-Refines cs (step p c) (spec_step f c) (step-Refines p f same c)

-- Started on any table and after any calls, `getLevel` gives what a plain map of levels gives under the same
-- calls, and so does a new instance on the table the calls have left. In the plain map a level is
-- written unless the module is protected, and a reset writes `open`.
pub run_refines :
    (rows : List Row) (calls : List Call) (c m : Text)
    → (get_level (run (load_all rows) calls) c m
        ≡ spec_run (λ c m. last_level c m open_level rows) calls c m)
      × (get_level (load_all (run (load_all rows) calls).rows) c m
          ≡ spec_run (λ c m. last_level c m open_level rows) calls c m)
run_refines rows calls c m =
    let same =
      run_from-Refines calls (load_all rows) (λ c m. last_level c m open_level rows)
        (load_all-Refines rows) c m in
    (same.0, (load_all-Refines (run (load_all rows) calls).rows c m).0 ∙ same.1)
