-- ===== src/Lib.antt =====
-- The verification library of the WIN-WSL MCP bridge, a bidirectional bridge for stdio MCP servers
-- between a Windows and a WSL host. Both hosts run a node; one link carries the streams of both
-- directions; a connector keeps an agent's session alive over a lost link; a backend that several
-- clients share takes their requests from one bounded queue and routes their answers back.
--
-- The parts and the files that model them:
-- - Json: the values of `json.loads` and Python's operations on them (`get`, `in`, `==`, truth, the
--   hash key of a dict or set). Json.Keys: dicts and sets keyed by such values. Base: numbers, lists,
--   and dicts keyed by text, in insertion order.
-- - Evidence models stream_evidence.py. Each node observes the bytes of a stream, in both directions,
--   without changing them. Evidence.Framer is `LineFramer` (`feed`, `close`), Evidence.Classify is
--   `_classify_line`, Evidence.Identity holds `canonical_request_id`, `origin_side_for` and
--   `_alias_from_canonical`, and Evidence.Correlator is `StreamCorrelator`, whose dicts by flow are one
--   `Direction` for each flow. Below them stand the proofs, by what they prove.
-- - Engine models connector_engine.py: Engine.Payload the annotations and the error payload,
--   Engine.Recovery the class `Recovery`, with an `Attempt` where hashing an id may raise, the node's lines in
--   Recovery.Node and the failing of requests in Recovery.Failing. Steps.Step is
--   the relation of all calls of a recovery.
-- - Scheduling models `SharedRequestQueue` of bridge_runtime.py: Scheduling.Owners is the ordered dict
--   of lanes, Scheduling.Queue the queue. Queue.Runs.Step is the relation of its operations.
-- - Connector models the class `PersistentConnector` of connector_core.py, which feeds a `Recovery` with
--   the lines of the agent and of the node: `_publish_agent_line`, `_on_session_lost`,
--   `_maybe_reload_engine` and `_establish` (`start_session` up to the reader's start, `finish_session`
--   from the drain of the queue on); Connector.Session is the reader, `_session_loop` and
--   `_handle_node_line`, Connector.Ends its end and `_stdin_loop`,
--   and Connector.Engines `load_engine`, `_scan_engine_dir` and `_plausible_version`. Its threads are not modelled: each method is one step, and what another thread
--   may do between a send and the test behind it is an argument.
-- - Protocol models bridge_protocol.py. Protocol.Modern holds the metadata of modern requests and the
--   envelopes of their results, and below it Modern.Surface what passes between the eras. The rest are the
--   legacy projections : Protocol.Revisions the frozen revisions
--   and the capabilities, Protocol.Tools the tool entries and lists, Protocol.Content the call results.
-- - Registration models checks of bridge_runtime.py: Registration.Concurrency is
--   `_normalize_concurrency`, Registration.Rules `_reject_call_rule` and `_reject_rule_matches`, and
--   Registration.Negotiation `negotiate_mcp_protocol_version`, and Registration.Artifacts
--   `_parse_artifact_extension` and `_artifact_max_chunk`.
-- - Backend models the class `SharedBackend` of bridge_runtime.py, which serves several clients with one
--   JSON-RPC backend on top of the queue of Scheduling. Backend.State is its state; Backend.Task the
--   methods as actions on it, which keep what they changed when they raise. Backend.Requests is
--   `_enqueue_request`, `_request_worker` and the two ways out; Backend.Session the answer to
--   `initialize`; Backend.Responses and Backend.Serving `_route_backend_message`; Backend.Policy the fixed
--   view and the lease; Backend.Departure cancellation, `detach` and `_fail_all_pending`; Backend.Eras
--   `_route_modern_client_message` and `_ensure_backend_session`; Backend.Clients
--   `_route_client_message` and `_handle_initialize`, with Protocol.Modern and Registration.Negotiation as
--   the code calls them; Backend.Lifecycle how generations start, stop and are replaced; Backend.Exit what an
--   exit and its recovery do. Request objects
--   are shared by the queue, the dicts and `current_request`, so the state has a store of them, keyed by
--   their backend ids. asyncio interleaves its tasks at their waits only: what a task does between two
--   waits is one step of Backend.Moves, and a `Later`, a `Cancelled` or a `Detached` says what is left to do. In
--   `_cancel_client_requests`, and elsewhere, the wait of a single write, for the peer to take what is buffered, is no step
--   of its own; the rounds of the loops at the end of `_wait_process` are.
-- - Warehouse models the static capability index of bridge_runtime.py: `_parse_capability_index` and the
--   search, the deduplication and the install plans that start from it; Warehouse.Search and
--   Warehouse.Bounds hold the proofs.
-- - Tests: runs at concrete inputs.
--
-- Bounds and fuel: numbers are the unbounded natural numbers, as Python's integers are unbounded;
-- subtraction stops at 0, which the invariants show is never reached where the source subtracts. The
-- loop of `LineFramer.feed` runs on fuel, one more round than there are bytes: every round that goes
-- on takes a newline, and Evidence.Framer.Scan shows that it ends as the byte-wise reader does. The loop of
-- `_recover_after_exit` runs on fuel too, one round more than the attempts it may make, and Backend.Recovery shows
-- that it then ends.
--
-- Parameters: `json.loads`, `json.dumps` and `str.rstrip` (a record `Codec`), `str.strip` and the regular
-- expression of a revision, the SHA-256 digest of an alias, and for Backend a record `Wire`: `json.dumps` of
-- an id, the size of a message, `fnmatch.fnmatchcase` and the texts of errors; for Warehouse a record `Texts` of text functions; for
-- Connector.Engines a record `Host` of what the disk and the import of a file give. Nothing is assumed of them.
-- The ids that `uuid4` makes are arguments; a step that makes some is one under which no request has yet
-- been filed in its generation.
--
-- Not modelled: sockets, threads, asyncio, SQLite, files, processes and HTTP; locks (each method is one
-- step); NaN among the JSON numbers; texts with lone surrogates, which have no UTF-8 form; the order in
-- which a set of uncertain ids is drained (insertion order here). The installer, the HTTP facades, the
-- registry, the deferred tools, and the node itself are outside the library.
pub mod Base
pub mod Json
pub mod Evidence
pub mod Engine
pub mod Scheduling
pub mod Backend
pub mod Connector
pub mod Protocol
pub mod Registration
pub mod Warehouse
pub mod Tests
