-- ===== src/Lib.antt =====
-- The rsactor library: actors on tokio, their references, and the detection of deadlocks.
--
-- An actor is a value with its own task. `spawn` starts the task, which runs
-- `run_actor_lifecycle`: `on_start`, then a loop over five channels, then `on_stop`. Others hold an
-- `ActorRef`, whose calls put a message in the mailbox or the priority channel, and for an ask wait
-- for the reply. A call that loses its message records a dead letter; when the task ends, the drop
-- of its channels records one for each queued message that no caller waits for. With `deadlock-detection`,
-- an ask from inside an actor first registers an edge of a process-global wait-for graph, and panics
-- where the edge would close a cycle; the edge goes when the guard of the caller or the token in
-- the message is dropped.
--
-- Files and code:
--   Identity      src/lib.rs `Identity` and its text.
--   Error         src/error.rs `Operation`, `Channel`, `Error`, their texts, `is_retryable`; Tips:
--                 `debugging_tips`.
--   DeadLetter    src/dead_letter.rs `DeadLetterReason`, `record_erased` and the counter.
--   ActorResult   src/actor_result.rs `ActorFailure`, `ActorResult` and their accessors.
--   Deadlock      src/deadlock.rs. Graph: the map from a caller to its callees, and `remove_edge`.
--                 Search: `has_path` and `find_path`. Edges: `AskEdge`, `register_ask_edge`,
--                 `remove_once`, and the states that a process reaches.
--   Lifecycle     src/actor.rs and the handling of a payload in src/lib.rs. Program: the `Actor` and
--                 `Message` implementations, a record of functions that return, or are cut: they panic, are
--                 suspended at an await, or their task is aborted there. Channels:
--                 `discard_queued_messages`. Envelope: `handle_message` and `process_envelope!`.
--                 State: the loop's variables and `select!`. Arms: its branches. Loop:
--                 `run_actor_lifecycle` and the drop of `LifecycleChannels`.
--   ActorRef      src/actor_ref.rs. Call: what a call is told by tokio and what it comes to. Send:
--                 the asynchronous calls. Blocking: the blocking ones and `run_blocking_on`.
--                 Control: `subscribe_idle`, and `upgrade` of a weak reference. Signals: `kill`,
--                 `stop`, `ask_join` and `downgrade`.
--   Spawn         src/lib.rs `SpawnOptions`, `set_default_mailbox_capacity`, `spawn_with_options`.
--   System        the channels of src/lib.rs, the sends of src/actor_ref.rs and the task of
--                 src/actor.rs together: the messages of a poll come out of the channels.
--   Metrics       src/metrics/collector.rs and src/metrics/snapshot.rs.
--   ActorGraph    the tool in rsactor-graph/src. Model: the data of model.rs. Output: `Output::new`
--                 with the orders that `derive` makes. Focus: view.rs. Render: render.rs, with
--                 Escape for `escape_text`, `escape_record` and `quote_id`, Labels for the labels and
--                 the report, and Dot for `to_dot_with`. Types: `Ty` of types.rs.
--                 Workspace: the selection of workspace.rs. Syntax: what is read of `syn`'s trees.
--                 Crates: crate_tree.rs, with Attributes for `is_cfg_test`, Files for what it asks
--                 the file system, Load for `Crate::load`, and Scan for the crates of `scan` in
--                 lib.rs. Resolve: resolve.rs, with Imports for `flatten_use`, Build for
--                 `Index::build`, Names for the known names, Lookup for `lookup` with its guard,
--                 Paths for `glob_reaches_outside` and Segments for `resolve_segments_scoped`.
--   Base          the helpers that the others share; Tests: the theorems at concrete inputs.
--
-- How the code is read. Tokio is not modelled: what a receiver, a stream, a timer or the runtime
-- answers is data that the definitions are given, a list of polls for a task and a record `Answers`
-- for a call. A task that is given no more polls waits at the select. What a task that is suspended
-- in the actor's code does after that code goes on is that of the run in which it returned.
-- The runtime of a task with a priority channel has a time driver, as `SpawnOptions::with_priority` asks for.
-- For System, a tokio channel is a queue by the interface `Channel`, and senders and polls of the
-- task come in any order.
-- What an actor does is a list of events in order. The locked sections of the wait-for graph are
-- steps of one state, in any order; a removal whose read of the flag came before another removal
-- is a step of its own. Identities compare by their number, and numbers are natural numbers; the
-- `u64` counters of the metrics wrap around as written. Atomic operations of the collector come
-- one after another.
-- The loops of `has_path` and `find_path` run on fuel `enough`, two more than the number of edges:
-- each round takes an element off a stack that starts with one and gets each edge at most once.
--
-- The lookups of resolve.rs run on fuel, one more than the modules times the names that a path or an
-- import can ask for: a lookup stops at a name that is being looked up. Its search through globs has
-- one step for each module and one more, and the load of a crate one for each path that names a
-- file and one more. Those paths are finitely many, as the length of a path is bounded by the
-- system (PATH_MAX on Unix), also where `..` leads to one file by many paths. The load compares
-- paths as text, as the source compares what it joined.
-- What the parser of `syn`, `std::path` and the file system answer is the record `Files`, and what
-- `char` says of a character the record `CharClasses`.
--
-- Not modelled: the order in which tokio wakes tasks, a task that is aborted or never woken between
-- two messages of the priority drain, permits and sends that race with that drain or with the drop
-- of the channels, the quiet period, log lines and tracing spans; `wait_stopped` and the counts of references, which are
-- tokio's; the type-erased handlers of src/handler.rs and src/actor_control.rs, which delegate;
-- the derive macros and the walks of the graph tool over items, types and bodies (discover.rs,
-- calls.rs and `TyCtx::resolve`), which read syntax, and its command line (main.rs); its
-- `to_json` and `dot_to_svg`, which are serde's and Graphviz's, and `load` of its workspace.rs,
-- which runs cargo.
pub mod Base
pub mod Identity
pub mod Error
pub mod ActorResult
pub mod DeadLetter
pub mod Lifecycle
pub mod Deadlock
pub mod ActorRef
pub mod Metrics
pub mod Tests
pub mod Spawn
pub mod System
pub mod ActorGraph
