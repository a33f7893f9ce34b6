-- ===== src/Agent/Tools/Actions/Rows.antt =====
-- The row of one key under the writes of the table.
use anonka.Prelude.{
  and_iff, ℕ, ◌≤◌, ◌≡◌, ◌↔◌, refl, sym, ap, ◌∙◌, true, false, List, [], ◌∷◌, ◌++◌, none, some, Text,
  text_eq, text_eq_iff, text_eq_refl, if◌then◌else◌, ltb, arith, Bool-cases, inl, inr,
}
use anonka.Agent.Tools.Actions.{Status, Key, Row, same_key, delete_before, find_row, set_result}

pub same_key_iff : (k l : Key) → (same_key k l ≡ true) ↔ (k ≡ l)
same_key_iff k l =
    let (split, _) = and_iff (text_eq k.turn_id l.turn_id) _ in
    let (split', _) = and_iff (text_eq k.tool_name l.tool_name) (text_eq k.args_hash l.args_hash) in
    (
      λ h.
          let turn : k.turn_id ≡ l.turn_id = (text_eq_iff k.turn_id l.turn_id).0 (split h).0 in
          let tool : k.tool_name ≡ l.tool_name =
            (text_eq_iff k.tool_name l.tool_name).0 (split' (split h).1).0 in
          let args : k.args_hash ≡ l.args_hash =
            (text_eq_iff k.args_hash l.args_hash).0 (split' (split h).1).1 in
          ap (λ x. record { turn_id = x; tool_name = k.tool_name; args_hash = k.args_hash }) turn
          ∙ ap (λ x. record { turn_id = l.turn_id; tool_name = x; args_hash = k.args_hash }) tool
          ∙ ap (λ x. record { turn_id = l.turn_id; tool_name = l.tool_name; args_hash = x }) args,
      λ e.
          rw e
            (rw (text_eq_refl l.turn_id, text_eq_refl l.tool_name, text_eq_refl l.args_hash) refl),
    )

-- A row that is young enough stays.
pub find_row-delete_before :
    (time : ℕ) (k : Key) (rows : List Row) (r : Row)
    → find_row k rows ≡ some r
    → time ≤ r.started_at
    → find_row k (delete_before time rows) ≡ some r
unfolding find_row delete_before
find_row-delete_before time k [] r h young = cc
find_row-delete_before time k (q ∷ rows) r h young = elim (Bool-cases (same_key q.key k)) [
  | inl here ↦
      let is : some q ≡ some r = rw (here, find_row) at h in
      let at : q ≡ r = cc in
      let stays : ltb q.started_at time ≡ false =
        ap (λ (x : Row). ltb x.started_at time) at ∙ ground arith in
      rw (stays, delete_before) (rw (here, find_row) is)
  | inr other ↦
      let rest = find_row-delete_before time k rows r (rw (other, find_row) at h) young in
      elim (Bool-cases (ltb q.started_at time)) [
        | inl old ↦ rw (old, delete_before) rest
        | inr kept ↦ rw (kept, delete_before) (rw (other, find_row) rest)
      ]
]

pub find_row-append :
    (k : Key) (rows : List Row) (q r : Row)
    → find_row k rows ≡ some r
    → find_row k (rows ++ q ∷ []) ≡ some r
unfolding find_row
find_row-append k [] q r h = cc
find_row-append k (p ∷ rows) q r h = elim (Bool-cases (same_key p.key k)) [
  | inl here ↦ rw here (rw (here, find_row) at h)
  | inr other ↦ rw other (find_row-append k rows q r (rw (other, find_row) at h))
]

pub find_row-append_none :
    (k : Key) (rows : List Row) (q : Row)
    → find_row k rows ≡ none
    → same_key q.key k ≡ true
    → find_row k (rows ++ q ∷ []) ≡ some q
unfolding find_row
find_row-append_none k [] q h is = rw is refl
find_row-append_none k (p ∷ rows) q h is = elim (Bool-cases (same_key p.key k)) [
  | inl here ↦ let bad : some p ≡ none = rw (here, find_row) at h in cc
  | inr other ↦ rw other (find_row-append_none k rows q (rw (other, find_row) at h) is)
]

pub find_row-set_result :
    (k j : Key) (status : Status) (json : Text) (rows : List Row) (r : Row)
    → find_row k rows ≡ some r
    → find_row k (set_result j status json rows)
      ≡ some (if same_key k j then record r { status = status; result_json = some json } else r)
unfolding find_row set_result
find_row-set_result k j status json [] r h = cc
find_row-set_result k j status json (q ∷ rows) r h = elim (Bool-cases (same_key q.key k)) [
  | inl here ↦
      let is : some q ≡ some r = rw (here, find_row) at h in
      let at : q ≡ r = cc in
      let same_test : same_key q.key j ≡ same_key k j =
        ap (λ x. same_key x j) ((same_key_iff q.key k).0 here) in
      elim (Bool-cases (same_key q.key j)) [
        | inl mine ↦ rw mine (
            rw here (
              ap (λ (x : Row). some (record x { status = status; result_json = some json })) at
              ∙ ap
                  (λ b.
                    some (if b then record r { status = status; result_json = some json } else r))
                  (sym mine ∙ same_test)))
        | inr not_mine ↦ rw not_mine (
            rw here (
              is
              ∙ ap
                  (λ b.
                    some (if b then record r { status = status; result_json = some json } else r))
                  (sym not_mine ∙ same_test)))
      ]
  | inr other ↦
      let rest = find_row-set_result k j status json rows r (rw (other, find_row) at h) in
      elim (Bool-cases (same_key q.key j)) [
        | inl mine ↦ rw mine (rw other rest)
        | inr not_mine ↦ rw not_mine (rw other rest)
      ]
]
