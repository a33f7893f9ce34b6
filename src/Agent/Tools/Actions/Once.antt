-- ===== src/Agent/Tools/Actions/Once.antt =====
-- An action of a turn is started once.
use anonka.Prelude.{
  ℕ, ◌+◌, ◌-◌, ◌≤◌, ◌≡◌, ◌≢◌, refl, ap, ◌∙◌, Bool, true, false, List, [], ◌∷◌, Option, none, some,
  Text, if◌then◌else◌, arith, Option-cases, inl, inr,
}
use anonka.Agent.Tools.Actions.{
  action_retention_ms, ActionExecutionResult, succeeded, failed, Key, Row, same_key, replay,
  delete_before, find_row, new_row, is_settled, status_of, answer, answer_json,
  reserve_action_execution, complete_action_execution, Call, reserved_key, Outcome, result_of, runs,
  replies, already_started, of_reservation, begin_execution, finish_execution, Event, begins,
  finishes, run,
}
use anonka.Agent.Tools.Actions.Rows.{
  same_key_iff, find_row-delete_before, find_row-append, find_row-append_none, find_row-set_result,
}

-- The last result with which a key was completed.
abbrev pub last_result :
    Key → Option ActionExecutionResult → List Event → Option ActionExecutionResult
last_result k o [] = o
last_result k o (begins now c ∷ es) = last_result k o es
last_result k o (finishes none outcome ∷ es) = last_result k o es
last_result k o (finishes (some j) outcome ∷ es) =
    last_result k (if same_key k j then some (result_of outcome) else o) es

-- The executions of the list all begin by then.
abbrev pub BeginBy : ℕ → List Event → Type 0
BeginBy time [] = Unit
BeginBy time (begins now c ∷ es) = (now ≤ time) × BeginBy time es
BeginBy time (finishes k outcome ∷ es) = BeginBy time es

module _ (stringify : ActionExecutionResult → Text) (parse : Text → ActionExecutionResult)
    (writes : (r : ActionExecutionResult) → stringify r ≢ []) where
  -- What a call is answered, given the last result.
  abbrev pub reply : Text → Option ActionExecutionResult → ActionExecutionResult
  reply tool_name none = already_started tool_name
  reply tool_name (some r) = parse (stringify r)

  -- What the row of the key holds, given the last result.
  abbrev holding : Key → ℕ → Option ActionExecutionResult → Row
  holding k time none = new_row k time
  holding k time (some r) = record {
    key = k;
    status = status_of r;
    result_json = some (stringify r);
    started_at = time;
  }

  Held : Key → ℕ → Option ActionExecutionResult → List Row → Type 0
  Held k time o rows = find_row k rows ≡ some (holding k time o)

  reserve-Held :
      (k j : Key) (time now : ℕ) (o : Option ActionExecutionResult) (rows : List Row)
      → now ≤ time + action_retention_ms
      → Held k time o rows
      → find_row k (delete_before (now - action_retention_ms) rows) ≡ some (holding k time o)
        × Held k time o (reserve_action_execution stringify parse rows j now).0
  unfolding reserve_action_execution Held
  reserve-Held k j time now o rows young h =
      let left = delete_before (now - action_retention_ms) rows in
      let there : find_row k left ≡ some (holding k time o) =
        find_row-delete_before (now - action_retention_ms) k rows (holding k time o) h
          (started k time o (omega (arith, young))) in
      (
        there,
        elim (Option-cases (find_row j left)) [
          | inl new ↦ rw new (find_row-append k left (new_row j now) (holding k time o) there)
          | inr (r, known) ↦ rw known there
        ],
      )
    where
      started :
          (k : Key) (time : ℕ) (o : Option ActionExecutionResult)
          → now - action_retention_ms ≤ time
          → now - action_retention_ms ≤ (holding k time o).started_at
      started k time none m = m
      started k time (some r) m = m

  begin-Held :
      (k : Key) (time now : ℕ) (o : Option ActionExecutionResult) (rows : List Row) (c : Call)
      → now ≤ time + action_retention_ms
      → Held k time o rows
      → Held k time o (begin_execution stringify parse rows c now).0
  unfolding begin_execution Held
  begin-Held k time now o rows c young h = elim (Option-cases (reserved_key c)) [
    | inl none_reserved ↦ rw none_reserved h
    | inr (j, reserved) ↦ rw reserved (reserve-Held k j time now o rows young h).1
  ]

  finish-Held :
      (k j : Key) (time : ℕ) (o : Option ActionExecutionResult) (outcome : Outcome)
      (rows : List Row)
      → Held k time o rows
      → Held k time
          (if same_key k j then some (result_of outcome) else o)
          (finish_execution stringify parse rows (some j) outcome)
  unfolding finish_execution complete_action_execution Held
  finish-Held k j time o outcome rows h =
      find_row-set_result k j (status_of (result_of outcome)) (stringify (result_of outcome)) rows
        (holding k time o) h
      ∙ ap some (by_key (same_key k j) o)
    where
      by_key :
          (b : Bool) (o : Option ActionExecutionResult)
          → (if b
              then record (holding k time o) {
                status = status_of (result_of outcome);
                result_json = some (stringify (result_of outcome));
              }
              else holding k time o)
            ≡ holding k time (if b then some (result_of outcome) else o)
      by_key true none = refl
      by_key true (some r) = refl
      by_key false o = refl

  run-Held :
      (k : Key) (time : ℕ) (es : List Event) (o : Option ActionExecutionResult) (rows : List Row)
      → BeginBy (time + action_retention_ms) es
      → Held k time o rows
      → Held k time (last_result k o es) (run stringify parse rows es)
  unfolding run finish_execution
  run-Held k time [] o rows young h = h
  run-Held k time (begins now c ∷ es) o rows (young, later) h =
      run-Held k time es o (begin_execution stringify parse rows c now).0 later
        (begin-Held k time now o rows c young h)
  run-Held k time (finishes none outcome ∷ es) o rows young h = run-Held k time es o rows young h
  run-Held k time (finishes (some j) outcome ∷ es) o rows young h =
      run-Held k time es (if same_key k j then some (result_of outcome) else o)
        (finish_execution stringify parse rows (some j) outcome) young
        (finish-Held k j time o outcome rows h)

  -- A row that is there is an answer, so that nothing starts.
  answers :
      (tool_name : Text) (k : Key) (j : Option Key) (r : Row)
      → of_reservation tool_name k (answer stringify parse r) ≢ runs j
  answers tool_name k j r = by_row r.result_json (is_settled r.status)
    where
      by_row :
          (json : Option Text) (settled : Bool)
          → of_reservation tool_name k (answer_json stringify parse json settled) ≢ runs j
      by_row none settled e = cc
      by_row (some []) settled e = cc
      by_row (some (c ∷ json)) true e = cc
      by_row (some (c ∷ json)) false e = cc

  started-Held :
      (rows : List Row) (c : Call) (k : Key) (time : ℕ)
      → reserved_key c ≡ some k
      → (begin_execution stringify parse rows c time).1 ≡ runs (some k)
      → Held k time none (begin_execution stringify parse rows c time).0
  unfolding begin_execution reserve_action_execution Held
  started-Held rows c k time reserved starts =
      let left = delete_before (time - action_retention_ms) rows in
      elim (Option-cases (find_row k left)) [
        | inl new ↦
            rw reserved (
              rw new (find_row-append_none k left (new_row k time) new ((same_key_iff k k).1 refl)))
        | inr (r, known) ↦
            absurd (answers c.tool_name k (some k) r (rw known at (rw reserved at starts)))
      ]

  answer-holding :
      (tool_name : Text) (k : Key) (time : ℕ) (o : Option ActionExecutionResult)
      → of_reservation tool_name k (answer stringify parse (holding k time o))
        ≡ replies (reply tool_name o)
  answer-holding tool_name k time none = refl
  answer-holding tool_name k time (some r) = ap (of_reservation tool_name k) (
      ap (answer_json stringify parse (some (stringify r))) (settled r.success)
      ∙ by_json (stringify r) (writes r))
    where
      settled : (b : Bool) → is_settled (if b then succeeded else failed) ≡ true
      settled true = refl
      settled false = refl

      by_json :
          (json : Text)
          → json ≢ []
          → answer_json stringify parse (some json) true ≡ replay (parse json)
      by_json [] h = absurd (h refl)
      by_json (c ∷ json) h = refl

  -- Once an action has been started in a turn, a call of it with the same arguments starts nothing, whatever
  -- other executions end in between, and whichever begin, all up to the retention after its start: it
  -- is answered with the last result the action was completed with, as it comes out of the table, or
  -- else told that the outcome is unknown. The one condition on JSON is that it writes no result as an
  -- empty text.
  pub begin_execution_once :
      (rows : List Row) (c d : Call) (k : Key) (time now : ℕ) (es : List Event)
      → reserved_key c ≡ some k
      → reserved_key d ≡ some k
      → (begin_execution stringify parse rows c time).1 ≡ runs (some k)
      → BeginBy (time + action_retention_ms) es
      → now ≤ time + action_retention_ms
      → (begin_execution stringify parse
          (run stringify parse (begin_execution stringify parse rows c time).0 es)
          d
          now).1
        ≡ replies (reply d.tool_name (last_result k none es))
  unfolding begin_execution reserve_action_execution
  begin_execution_once rows c d k time now es of_c of_d starts within young =
      let before = (begin_execution stringify parse rows c time).0 in
      let held = run-Held k time es none before within (started-Held rows c k time of_c starts) in
      let there =
        (reserve-Held k k time now (last_result k none es) (run stringify parse before es) young
          held).0 in
      rw of_d (rw there (answer-holding d.tool_name k time (last_result k none es)))
