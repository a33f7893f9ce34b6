-- ===== src/Agent/Tools/ModulePermissions/Rows.antt =====
-- What the table and the cache say of one chat and module.
use anonka.Prelude.{
  and_iff, ◌≡◌, refl, sym, ap, ◌∙◌, Bool, true, false, ◌&&◌, List, [], ◌∷◌, ◌++◌, Option, none,
  some, Text, text_eq, text_eq_iff, if◌then◌else◌, arith, Bool-cases, Option-cases, inl, inr,
}
use anonka.Prelude.Dicts.{lookup, insert, delete, lookup-insert, lookup-delete}
use anonka.Agent.Tools.ModulePermissions.{
  ModuleLevel, open_level, Row, chat_map, or_open, Cache, set_cached, drop_cached, load_from,
  level_in, is_row_of, delete_rows,
}

-- What the rows say of one chat and module; a later row counts.
unfoldable pub last_level : Text → Text → ModuleLevel → List Row → ModuleLevel
last_level c m d [] = d
last_level c m d (r ∷ rows) = last_level c m (if is_row_of c m r then r.level else d) rows

pub level-set_cached :
    (cache : Cache) (k n c m : Text) (l : ModuleLevel)
    → level_in (set_cached cache k n l) c m
      ≡ (if text_eq k c && text_eq n m then l else level_in cache c m)
unfolding level_in set_cached
level-set_cached cache k n c m l = elim (Bool-cases (text_eq k c)) [
  | inl same ↦
      let is : k ≡ c = (text_eq_iff k c).0 same in
      rw (lookup-insert k c (insert n l (chat_map (lookup k cache))) cache) (
        rw (same, lookup-insert n m l (chat_map (lookup k cache)))
          (ap (λ x. or_open (if text_eq n m then some l else lookup m (chat_map (lookup x cache))))
              is
            ∙ by_module (text_eq n m)))
  | inr other ↦
      rw (lookup-insert k c (insert n l (chat_map (lookup k cache))) cache) (rw other refl)
]
  where
    by_module :
        (b : Bool)
        → or_open (if b then some l else lookup m (chat_map (lookup c cache)))
          ≡ (if b then l else or_open (lookup m (chat_map (lookup c cache))))
    by_module true = refl
    by_module false = refl

pub level-drop_cached :
    (cache : Cache) (k n c m : Text)
    → level_in (drop_cached cache k n) c m
      ≡ (if text_eq k c && text_eq n m then open_level else level_in cache c m)
unfolding level_in drop_cached lookup
level-drop_cached cache k n c m = elim (Option-cases (lookup k cache)) [
  | inl none_yet ↦
      let nothing : level_in cache k m ≡ open_level =
        ap (λ o. or_open (lookup m (chat_map o))) none_yet in
      elim (Bool-cases (text_eq k c)) [
        | inl same ↦
            let is : k ≡ c = (text_eq_iff k c).0 same in
            let gone : level_in cache c m ≡ open_level =
              ap (λ x. level_in cache x m) (sym is) ∙ nothing in
            rw (none_yet, drop_cached) (gone ∙ by_answer (text_eq k c && text_eq n m) gone)
        | inr other ↦ rw (none_yet, drop_cached) (rw other refl)
      ]
  | inr (map, found) ↦
      rw (found, drop_cached)
        (rw (lookup-insert k c (delete n map) cache) (elim (Bool-cases (text_eq k c)) [
          | inl same ↦
              let is : k ≡ c = (text_eq_iff k c).0 same in
              let here : lookup c cache ≡ some map = ap (λ x. lookup x cache) (sym is) ∙ found in
              rw (same, lookup-delete n m map) (rw here (by_module (text_eq n m) (lookup m map)))
          | inr other ↦ rw other refl
        ]))
]
  where
    by_answer :
        (b : Bool)
        → level_in cache c m ≡ open_level
        → open_level ≡ (if b then open_level else level_in cache c m)
    by_answer true e = refl
    by_answer false e = sym e

    by_module :
        (b : Bool) (o : Option ModuleLevel)
        → or_open (if b then none else o) ≡ (if b then open_level else or_open o)
    by_module true o = refl
    by_module false o = refl

pub level-load_from :
    (cache : Cache) (rows : List Row) (c m : Text)
    → level_in (load_from cache rows) c m ≡ last_level c m (level_in cache c m) rows
unfolding load_from last_level
level-load_from cache [] c m = refl
level-load_from cache (r ∷ rows) c m =
    level-load_from (set_cached cache r.chat_id r.module_name r.level) rows c m
    ∙ ap (λ d. last_level c m d rows) (level-set_cached cache r.chat_id r.module_name c m r.level)

pub text_eq_comm : (a b : Text) → text_eq a b ≡ text_eq b a
text_eq_comm a b = ground (arith, text_eq_iff a b, text_eq_iff b a)

pub last_level-append :
    (rows : List Row) (r : Row) (c m : Text) (d : ModuleLevel)
    → last_level c m d (rows ++ r ∷ [])
      ≡ (if is_row_of c m r then r.level else last_level c m d rows)
unfolding last_level
last_level-append [] r c m d = refl
last_level-append (q ∷ rows) r c m d =
    last_level-append rows r c m (if is_row_of c m q then q.level else d)

pub last_level-delete_all :
    (gone : Row → Bool) (c m : Text)
    → ((r : Row) → is_row_of c m r ≡ true → gone r ≡ true)
    → (rows : List Row) (d : ModuleLevel) → last_level c m d (delete_rows gone rows) ≡ d
unfolding last_level delete_rows
last_level-delete_all gone c m all [] d = refl
last_level-delete_all gone c m all (r ∷ rows) d = elim (Bool-cases (gone r)) [
  | inl out ↦ rw (out, delete_rows) (last_level-delete_all gone c m all rows d)
  | inr stays ↦ elim (Bool-cases (is_row_of c m r)) [
    | inl here ↦ let bad : true ≡ false = sym (all r here) ∙ stays in cc
    | inr elsewhere ↦
        rw (stays, delete_rows)
          (ap (λ b. last_level c m (if b then r.level else d) (delete_rows gone rows)) elsewhere
            ∙ last_level-delete_all gone c m all rows d)
  ]
]

pub last_level-delete_none :
    (gone : Row → Bool) (c m : Text)
    → ((r : Row) → is_row_of c m r ≡ true → gone r ≡ false)
    → (rows : List Row) (d : ModuleLevel)
    → last_level c m d (delete_rows gone rows) ≡ last_level c m d rows
unfolding last_level delete_rows
last_level-delete_none gone c m kept [] d = refl
last_level-delete_none gone c m kept (r ∷ rows) d = elim (Bool-cases (gone r)) [
  | inr stays ↦
      rw (stays, delete_rows)
        (last_level-delete_none gone c m kept rows (if is_row_of c m r then r.level else d))
  | inl out ↦ elim (Bool-cases (is_row_of c m r)) [
    | inl here ↦ let bad : true ≡ false = sym out ∙ kept r here in cc
    | inr elsewhere ↦
        rw (out, delete_rows)
          (last_level-delete_none gone c m kept rows d
            ∙ sym (ap (λ b. last_level c m (if b then r.level else d) rows) elsewhere))
  ]
]

same_row :
    (k n c m : Text) (r : Row)
    → is_row_of c m r ≡ true
    → is_row_of k n r ≡ (text_eq k c && text_eq n m)
same_row k n c m r here =
    let (at_c, at_m) = (and_iff (text_eq r.chat_id c) (text_eq r.module_name m)).0 here in
    rw ((text_eq_iff r.chat_id c).0 at_c, (text_eq_iff r.module_name m).0 at_m)
      (ap (λ b. b && text_eq m n) (text_eq_comm c k)
        ∙ ap (λ b. text_eq k c && b) (text_eq_comm m n))

-- The rows without those of one chat and module.
pub last_level-delete_row :
    (k n c m : Text) (rows : List Row) (d : ModuleLevel)
    → last_level c m d (delete_rows (is_row_of k n) rows)
      ≡ (if text_eq k c && text_eq n m then d else last_level c m d rows)
last_level-delete_row k n c m rows d = elim (Bool-cases (text_eq k c && text_eq n m)) [
  | inl same ↦
      rw same (
        last_level-delete_all (is_row_of k n) c m (λ r here. same_row k n c m r here ∙ same) rows d)
  | inr other ↦ rw other (
      last_level-delete_none (is_row_of k n) c m (λ r here. same_row k n c m r here ∙ other) rows d)
]
