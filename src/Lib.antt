-- ===== src/Lib.antt =====
-- The verification of the agent's commerce core, Telegram transport, turns, tools and tasks.
--
-- The program is an agent on a Telegram account. Outgoing sends and incoming updates meet in the
-- transport: an outgoing update has to be told apart from a message that the owner typed, incoming
-- messages of a chat are gathered into batches for the agent, and gift service messages go to the
-- profit ledger and not to the model. Sends that fail are classified and retried, plugin actions are
-- limited, and the agent is started and stopped. A batch of messages becomes a turn of the agent, which
-- waits for its session and for a slot; in a turn the agent calls tools, which are authorized by the
-- registry, and which act once only; some of them schedule tasks, which wait for one another. What is
-- modelled is this core:
--
-- Commerce/Events: src/domain/commerce/gift-event.ts, the event that a gift message becomes.
-- Commerce/Ledger: src/domain/commerce/gift-ledger.ts. GiftLedger is the class's maps; process_gift,
--   apply_review, expect_gift and clear_expectation are its methods, each from the ledger to the
--   ledger and the result. A method's later parts, after a value or a map entry is looked at, are
--   functions of their own (process_value, process_sender, process_expectation,
--   process_conversation, apply_found, confirm_review). LedgerCall and run are the calls in any order.
-- Commerce/Amount: src/domain/commerce/stars-amount.ts and src/telegram/stars-amount.ts, the exact
--   texts and splits of amounts, over signed integers without bound, as bigint is.
-- Telegram/Gifts: src/telegram/gift-parser.ts, gift-routing.ts and gift-resolver.ts, from a service
--   action over its event to the ledger's decision. A handler that the routing reports a decision to
--   becomes the list of what was reported.
-- Telegram/Tracker: src/telegram/outgoing-tracker.ts. Both maps of the class lead to the same mutable
--   records, so records stand on a heap and the maps hold addresses. Date.now() is an argument.
-- Telegram/Debounce: src/telegram/debounce.ts. An enqueue that awaits a flush suspends into a
--   continuation; a step resumes it, so every interleaving of calls, timers and resumptions is a list
--   of steps. Sending a batch to its handler records the batch.
-- Telegram/SendResult: src/telegram/send-result.ts, over the fields that it reads of GramJS objects.
-- Telegram/Flood: src/telegram/flood-retry.ts. The gate is its map, with one live timer for each entry;
--   the retry loop gives the list of its actions, with its result.
-- Bot/RateLimiter: src/bot/rate-limiter.ts; false stands for the exception.
-- Agent/Lifecycle: src/agent/lifecycle.ts. The asynchronous parts of start and stop are jobs of the
--   state, and what ends or resumes one is an event, so every interleaving is a list of events.
-- Agent/TurnCoordinator: src/agent/turn-coordinator.ts. A turn is the number of its call of run, and its
--   phase says how far its promise is; the continuations, timers and ends of tasks are events, each of
--   which happens only when the promises allow it.
-- Agent/Tools/Scope: src/agent/tools/scope.ts and security-policy.ts, the ladder of access levels.
-- Agent/Tools/ModulePermissions: src/agent/tools/module-permissions.ts, the table as a list of rows and the
--   cache as a map of maps.
-- Agent/Tools/Registry and Agent/Tools/Authorization: src/agent/tools/registry.ts, the tools, the plugins
--   that own some of them, the configured levels with their table, and checkAccess with execute up to
--   the execution itself.
-- Agent/Tools/Actions: src/memory/action-executions.ts with executeRegistered of registry.ts, in two parts,
--   before and after the executor runs. The hash of the arguments and JSON are parameters.
-- Agent/Hooks: src/agent/hooks/user-hook-evaluator.ts. The case folding and normalisation of Unicode is
--   a parameter, since it goes by tables.
-- Agent/Loop/Batch: src/agent/loop/tool-batch.ts, executeToolBatch. The hooks of the plugins are a function
--   of a state of theirs; each tool that ends is an event, so every order of ends is a list of events.
-- Agent/Loop/Results: recordToolResults and injectDiscoveredTools of the same file, composed as in
--   src/agent/runtime.ts. The texts of results, which other files make, are parameters.
-- Agent/Loop/Errors and Agent/Loop/Turn: the loop of a turn, src/agent/runtime.ts, by rounds of what the
--   model answers and whether the time is up; recoverLlmError of src/agent/loop/llm-iteration.ts,
--   src/agent/provider-fallback.ts, and the classes of errors of src/agent/runtime-utils.ts. Lower
--   case, which goes by the tables of Unicode, is a parameter.
-- Memory/PendingHistory: src/memory/pending-history.ts, with the sanitising of names as a parameter.
-- Memory/Tasks: src/memory/agent/tasks.ts. The tables tasks and task_dependencies are lists of rows; what
--   the constraints of src/memory/schema.ts refuse gives none or false.
-- Telegram/TaskResolver: src/telegram/task-dependency-resolver.ts, over the task store. A trigger's message
--   is recorded, and the store may change between two triggers.
-- Utils/Retry: src/utils/retry.ts, with each attempt as what it settles to and when.
-- Prelude: numbers, texts as lists of UTF-16 code units, decimal printing, and the JavaScript Map and
--   Set with text keys in insertion order.
--
-- Bounds and fuel: the loops are structural recursion over the list that the source iterates, and
-- need no fuel, but for two. The search for a cycle of tasks has one more than the number of
-- dependencies, which is enough since a dependency joins its queue once at most. The cascade of a
-- failure has as fuel any number above that of the pending tasks, which is enough since each
-- recursive call follows a cancellation. The polling loop of classifyOutgoing runs over a list of
-- rounds, each with the calls that are made on the tracker while the loop sleeps and the time
-- after it; it gives none if the rounds end before the loop does. The retry loops recur on the
-- retries that are left. Times and identifiers are natural numbers without a bound, since the
-- source only compares, adds and subtracts them in ranges where a double is exact.
--
-- Not modelled: the logging, the timers' host, the GramJS objects beyond the fields that are
-- read, the language model calls, and of the agent's loop the prompts, streams, sessions and
-- traces, the tools themselves and the lists of tools for the model's context but getForContext,
-- the readers that only list tasks, long-term memory, SQL beyond the tables named above, web
-- interface, command line and configuration.
pub mod Agent
pub mod Bot
pub mod Commerce
pub mod Memory
pub mod Prelude
pub mod Telegram
pub mod Utils
