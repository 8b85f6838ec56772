-- ===== src/Lib.antt =====
-- The core of the chat service in apps/api/app/vnext: what a run of the agent shows to its user,
-- where tool responses are kept and how they are read, which observations back a task checkpoint,
-- how many tokens a request may use, and what a session keeps of its conversation.
--
-- A model's tool calls go through tools/registry.py, which validates them, runs the tools, turns every
-- failure into a result of the call and bounds its size.
--
-- The agent emits events. product/runtime_projection.py turns them into calls of the projector in
-- product/run_state.py and yields a snapshot after each change. A tool's response goes through
-- artifacts/processor.py: a small one stays inline, a large one is stored in artifacts/store.py,
-- and the model sees an observation of bounded size that artifacts/observation.py builds. The model
-- reads more of it with artifact.read, artifacts/retrieval.py, at the paths that artifact.grep,
-- artifacts/grep.py, finds. From the transcript
-- artifacts/lifecycle.py collects what was read, and replaces what a later read shows again, and
-- agent/task_state.py lets a checkpoint of the current task claim it. agent/output_budget.py,
-- agent/context_capacity.py and agent/compaction_budget.py measure requests against the context
-- window.
--
-- A new session starts from the dialogue that product/context.py builds. product/session_history.py
-- records every message of the session and keeps, beside these records, the effective history that
-- the model sees. When that grows too long, agent/evidence_summary_lifecycle.py prepares a
-- compaction of its older part, and the session commits the summary in place of it. A batch of tool
-- calls that the model garbled enters the history as agent/generation_recovery.py writes it.
--
-- The home page shows series that homepage/recent_series.py keeps in a cache shared by requests, which
-- refreshes it in the background and holds refreshes off for a time.
--
-- Files:
--   Prelude: shared helpers: numbers, lists, text, exceptions as values (Raising), dicts as
--     association lists in insertion order (Dict), sorted() (Sort), decimal text (Decimal), and
--     methods that change a state and may raise (Method).
--   Json: JSON values, and the bytes of their canonical serialization (`serialized_size` of
--     artifacts/externalize.py: sorted keys do not change the size, so the order is kept), their
--     text (`dumps`), and Python's `==` on them (Same).
--   RunState: product/run_state.py. Model and Fields have its types, Create the two ways to make a
--     projector, Execution, Answer and Persistence its methods under their own names; Calls is any
--     history of method calls, each with the clock's reading.
--   RuntimeProjection: product/runtime_projection.py over agent/events.py. A list of items stands for
--     what the upstream iterator does: an event, an exception or a cancellation, and the end.
--   Artifacts: Store is artifacts/store.py, Paths and Read are artifacts/retrieval.py, Observation is
--     artifacts/observation.py, Process is artifacts/externalize.py and artifacts/processor.py,
--     Grep is artifacts/grep.py, with its generators as streams of what they yield.
--   Protocol: the messages of llm/protocol.py.
--   Lifecycle: artifacts/lifecycle.py. Observe has `collect_active_artifact_observations`, Cover decides
--     whether a later observation makes an earlier one redundant, Rewrite replaces these by receipts,
--     with the data of agent/transcript_rewrite.py.
--   TaskState: agent/task_state.py. Sources collects the inline sources, Plan makes and advances plans,
--     Coordinator has the methods; History is any history of their calls.
--   Compaction: agent/evidence_summary_lifecycle.py. Bytes measures messages, Groups groups a history,
--     Select selects, prepares and validates a cut, Requests builds the two summary requests and
--     validates their responses.
--   Session: product/session_history.py. Model has its data, Locators, Requests and Commit its methods
--     under their own names (`record_message` is `record`); Calls is any sequence of calls.
--   Context: product/context.py.
--   Recovery: agent/generation_recovery.py.
--   Tools: tools/definition.py and tools/registry.py. Definition has the definition of a tool, Registry
--     the registry and the bound on results, Execute `execute` and Dispatch `execute_many`. The field
--     checks of ToolError are left out, so `execute` returns where they may raise.
--   Budget: agent/limits.py, agent/output_budget.py, agent/context_capacity.py and
--     agent/compaction_budget.py.
--   Homepage: homepage/recent_series.py. Model has its data and what they say of freshness, Select and
--     Candidates the selection and the champions, Service the service, Calls any history of its calls,
--     Redis the hash that the cache is kept in, with the texts of instants and snapshots as arguments.
--   The modules named Tests apply the theorems at concrete inputs.
--
-- State and errors: an object is a record of its attributes, and a method gives its result or its
-- exception together with the new state, so that what is written before a raise stays written. The
-- exceptions of a module are one data type, without their texts.
--
-- Loops are recursion on lists. Two loops drop trailing elements: the one of
-- `_fit_list_result_to_model_budget` counts down from the length of the page, and the one of
-- `_trim_root` has as many rounds as there are fields, each of which drops one, so neither is cut
-- short. The loop of `_group_history` has one round for each message of the history, and each round
-- takes at least one. `execute_many` has one round for each call, and each round answers at least one.
-- `read_pages`, which reads the pages of a search one after another, has at most as many pages as it
-- is given.
--
-- Taken as given: instants and durations are whole microseconds, and an aware datetime is its UTC
-- instant; the numbers in JSON documents are integers; a random token, a uuid and the clock's
-- reading are arguments; the uuid of a session's record is a function of the number of the record,
-- and the limits of a new session are positive; a cut index handed to `commit_compaction` is not
-- negative; the validation of artifact.read and artifact.grep results by pydantic and the reader of
-- manuals are parameters, as are casefold, the validation of a tool's arguments and output, its
-- handler, the result processor of a registry and asyncio.gather; a timeout is whole seconds. On the
-- home page, a request carries the entries that it read from the cache, which a refresh may have
-- changed when the request goes on; a manual request is one step, since it looks at the running
-- refresh before it reads the cache and nothing else starts one under its lock; the end of a refresh
-- is one step, too. What the provider answers a
-- refresh and whether the shared cache takes a write are arguments; of a grep result only the refs of its matches are read; the indices
-- in a path have fewer digits than Python's limit for int().
--
-- Not modelled: the closing of the upstream iterator and other asynchronous mechanics, the
-- rendering of the task context, the agent's runtime, the model clients, the tools themselves and the
-- schemas that describe them, the data providers, the HTTP interface and the web client.
mod Prelude
pub mod Json
pub mod RunState
pub mod RuntimeProjection
pub mod Artifacts
pub mod Budget
pub mod Protocol
pub mod TaskState
pub mod Lifecycle
pub mod Compaction
pub mod Session
pub mod Context
pub mod Recovery
pub mod Tools
pub mod Homepage
