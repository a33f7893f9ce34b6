-- ===== src/Agent/Tools/Actions/Tests.antt =====
-- Actions at concrete inputs.
use anonka.Prelude.{
  ◌≡◌, ◌≢◌, refl, Bool, true, false, List, [], ◌∷◌, Option, none, some, Text, text, text_eq, arith,
  ◌==◌, if◌then◌else◌,
}
use anonka.Agent.Tools.Scope.{action}
use anonka.Agent.Tools.Actions.{
  ActionExecutionResult, Key, delete_before, find_row, set_result, reserve_action_execution,
  complete_action_execution, Call, throws, replies, failure, begin_execution, finish_execution,
  Event, begins, finishes, run,
}
use anonka.Agent.Tools.Actions.Once.{reply, begin_execution_once}

acted : Unit {0}
unfolding delete_before find_row set_result reserve_action_execution complete_action_execution
    begin_execution finish_execution run text_eq
acted = tt

-- A result is written as its error, with its success before it.
abbrev written : Bool → Option Text → Text
written true e = 84 ∷ []
written false none = 70 ∷ []
written false (some e) = 70 ∷ e

abbrev stringify : ActionExecutionResult → Text
stringify r = written r.success r.error

abbrev done : ActionExecutionResult
done = record { success = true; data_json = none; error = none }

abbrev parse : Text → ActionExecutionResult
parse [] = done
parse (c ∷ e) = if c == 84 then done else failure e

writes : (r : ActionExecutionResult) → stringify r ≢ []
writes r = by_fields r.success r.error
  where
    by_fields : (b : Bool) (e : Option Text) → written b e ≢ []
    by_fields true e h = cc
    by_fields false none h = cc
    by_fields false (some e) h = cc

abbrev send : Text → Call
send args_hash = record {
  turn_id = some (text "t1");
  tool_name = text "telegram_send_gift";
  category = some action;
  args_hash = args_hash;
}

abbrev sent : Key
sent = record { turn_id = text "t1"; tool_name = text "telegram_send_gift"; args_hash = text "h" }

-- Another gift is begun, and the first one fails.
abbrev events : List Event
events = begins 120 (send (text "i")) ∷ finishes (some sent) (throws (text "timeout")) ∷ []

answered :
    (begin_execution stringify parse
      (run stringify parse (begin_execution stringify parse [] (send (text "h")) 100).0 events)
      (send (text "h"))
      150).1
    ≡ replies (failure (text "timeout"))
unfolding acted
answered = refl

begin_execution_once_example :
    (begin_execution stringify parse
      (run stringify parse (begin_execution stringify parse [] (send (text "h")) 100).0 events)
      (send (text "h"))
      150).1
    ≡ replies
        (reply stringify parse writes (text "telegram_send_gift") (some (failure (text "timeout"))))
unfolding acted
begin_execution_once_example =
    begin_execution_once stringify parse writes [] (send (text "h")) (send (text "h")) sent 100 150
      events refl refl refl (omega arith, tt) (omega arith)
