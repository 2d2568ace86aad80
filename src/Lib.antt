-- ===== src/Lib.antt =====
-- hyprfast drives a browser over the Chrome DevTools Protocol. The development models the part of
-- its runtime that receives the browser's events in order, keeps the state of its targets, frames and
-- elements by them, and decides which element of a page a request means and whether a reference to it
-- may still be used: the directory src/browser_runtime.
--
-- The parts, and how they interact:
--
--   Lifecycle (state.rs: `LifecycleState::check`, `can_transition_to`, `transition_to`) is the gate
--     that every request passes.
--   Error (error.rs: `RuntimeError`, `to_wire`, `from_wire`) is the error type of all parts, and its
--     JSON form between the daemon and its clients.
--   Connection (connection.rs: `Shared`, `dispatch_item`, `interpret_response`) is the transport.
--     Connection/Pipeline is `reader_loop`, `dispatcher_loop` and `drain_ready`, which number the
--     frames, decode the large ones by workers and restore the order of the wire; a schedule is a
--     list of moves of these tasks and of the callers, and `Pipeline.run` applies it.
--     Connection/Lifetime is `shutdown`, which aborts the tasks.
--     Connection/IdHint is `extract_id_prefix`; Connection/Once and Connection/Calls are about calls
--     (`call_with_timeout`, `mark_dead`).
--   Targets (targets.rs: `BrowserTargetManager`) keeps the pages of the browser, their sessions and
--     which is active: Targets and Targets/Events are the handlers of events, Targets/Refs the checks
--     of captured references and `switch_target`, Targets/Reconnect is `handle_reconnect`.
--   DomState (dom_state.rs: `DomState::on_event`, `on_reconnected`, `is_stale`) counts the versions
--     of the live page; it is fed by the events of the browser (connection.rs: `CdpEvent`) in order.
--   Frames (frames.rs: `FrameManager::on_event`, `is_stale_for_frame`, `handle_reconnect`) keeps the
--     frame tree and a version for each frame, by the shared counter of the `DomState`.
--   Elements (element_index.rs: `ElementIndex`) holds the references to elements with the versions
--     at which they were made. Elements/Store is storing, reading, removing and the staleness checks,
--     Elements/Merge is `merge_dom_ax`, Elements/Query the searches, Elements/Selector the CSS
--     selectors, Elements/Resolve the tiers of `ElementIndex::resolve`.
--   DomDiff (dom_diff.rs: `DomDiffEngine`) changes the index by the events of the document and
--     publishes what has changed: DomDiff/Handlers are the handlers, DomDiff/Events `on_event`,
--     `on_event_with_pre` and `on_recovery_invalidation`.
--   Dispatcher (events.rs: `dispatch_loop`) hands each event to the state of the page, the targets, the
--     frames and the engine, in this order.
--   Wait (wait.rs: `wait_for`) is the loop that waits for a condition of the page; what wakes it is a
--     list of turns.
--   Crash (crash_recovery.rs: `handle_cdp_disconnect`; server.rs: `handle_crash_generation_bump`) takes
--     the parts above through the loss of the connection; what the browser answers is an argument,
--     and the events of the new connection are taken to come after the recovery.
--   Recovery (recovery.rs: `RecoveryEngine::recover`) finds a stale reference again, by a ladder of
--     ten tiers. Recovery/Tiers, Recovery/Search and Recovery/Pierce hold the tiers, Recovery/Ladder
--     the loop and Recovery/Outcome the result.
--   Actions (action.rs: `ActionState`, `ActionRecord`; action_journal.rs: `ActionJournal`) is the
--     table of the states of an action, which the executor sets without asking the table, and the
--     journal of actions.
--   Plans (plan.rs: `PlanStep::validate`, `ExecutionPlan::validate`, `execute_with_runtime`) checks a
--     plan and executes its steps until one fails.
--   Base and Json hold what the parts share: operations on texts, maps and 64-bit counters, and the
--     JSON values of serde_json.
--
-- How the code is read:
--
--   An object behind a lock is a record, and a method that changes it returns the new record. The
--   `DomState` that several parts share stands once, inside the record of the frame manager, which
--   stands inside that of the index. A handler of events is split into the reading of the event (a
--   data type with a constructor for each kind) and its application.
--   A counter of 64 bits wraps: `bump` is written with `% 2 ^ 64`. A theorem on an order of versions
--   assumes that the counter does not wrap over the history it is about.
--   Of the transport, the channels between the tasks are lists, the workers a list of jobs of which
--   any may end next, and a response channel is the number of the call that made it. What the
--   callers were sent and what was broadcast are lists in the state. A panic of a task ends the
--   schedule. The loop of `drain_ready` has the length of the buffer as fuel; each turn takes an entry
--   out, and Pipeline/Coverage shows that the loop then stops at a gap.
--   A hash map is an association list. Its order stands for the order of iteration, which Rust
--   leaves open.
--   A panic is `none`: the messages of resolution and recovery cut texts at a byte, which panics
--   inside a character.
--   `decimal` prints with 20 steps of fuel, and a number of 64 bits has at most 20 digits.
--   serde_json is a parameter, the record `Json`; `IsLawful` states that its accessors read what its
--   constructors wrote. `to_lowercase` and `{:?}` of a text are a parameter, the record `Unicode`.
--   The fields of a bounding box, which the code stores and never computes with, are bit patterns.
--
-- Not modelled: asynchronous calls of the browser (`resolve_with_runtime`, `recover_with_runtime`,
-- the evaluation of the conditions in wait.rs), logging, clocks, what action.rs reads from the
-- environment, JSON dumps for diagnosis, connecting and the writer task of the transport, and the
-- other parts of the program: the executor, the daemon's sockets, the decider that asks a remote
-- model, perception, and the desktop's input and output.
pub mod Base
pub mod Json
pub mod Error
pub mod Lifecycle
pub mod Connection
pub mod Targets
pub mod DomState
pub mod Frames
pub mod Elements
pub mod DomDiff
pub mod Crash
pub mod Dispatcher
pub mod Wait
pub mod Recovery
pub mod Actions
pub mod Plans
mod Tests
