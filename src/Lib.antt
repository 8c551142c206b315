-- ===== src/Lib.antt =====
-- A model of the secure orchestration mesh: an orchestrator that registers agents over gRPC, hands
-- them tasks, checks every packet that they return, and watches them for anomalies; and the agents'
-- side, which keeps a cryptographic session, and executes tasks within a scope of permissions.
--
-- The parts, and the files that model them:
-- - orchestrator/task_scheduler.py, the pool of agents: Scheduler. A method of TaskScheduler is a
--   function from the pool to an outcome and a pool; `with_lock` is `async with self._lock`, and a
--   call that comes when the lock is held has the outcome `waiting`. Scheduler.Calls has the calls as
--   data, so that a history is a list of calls.
-- - orchestrator/guardrail.py, the checks of a packet: Guardrail. `validate_inbound` uses the session
--   (Crypto) and the token issuer (Tokens), in the order of the code.
-- - agent_sdk/crypto.py, the session: Crypto. X25519, HKDF, SHA-256, HMAC and AES-GCM are the fields
--   of the record `Primitives`; `Laws` is what the code relies on: decryption inverts encryption, key
--   agreement is symmetric, and a public key is read back from its bytes.
-- - orchestrator/token_issuer.py, tokens and the map of sessions: Tokens. The package jose is the
--   record `Jose`, with `Laws` for one token: it decodes until its expiry and not after.
-- - agent_sdk/side_channel.py, padding: Padder.
-- - agent_sdk/executor.py, the scope of permissions and the execution of a task: Executor.
-- - orchestrator/audit_trail.py, the log of events: Audit. The table of SQLite is a list of rows;
--   hashlib, hexadecimal and the answer of one query are the record `Hashes`. The loop of
--   `_build_merkle_root` runs on fuel, the number of leaves: for a branching of 2 or more each level
--   has fewer nodes than the one before it. For a branching of 1 the loop of the code does not end,
--   and the model runs out of fuel. Audit.Fresh is about a table with
--   no rows, Audit.Fields about the text that an entry is hashed from.
-- - anomaly/combined_engine.py and the scores of anomaly/isolation_forest.py: Anomaly. The trained model
--   and the error of the LSTM autoencoder are arguments. Anomaly.Adaptive has the adaptive thresholds,
--   with the sums, products and quotients of doubles as a parameter, since they round.
-- - orchestrator/server.py, the handlers of the gRPC service: Server, over Handlers. A handler takes the
--   state of all components and ends with an answer, with an exception, or not at all; `and_then` is
--   the sequence of two awaits. TaskStream is one function of one packet. Handlers run one after the
--   other.
-- - agent_sdk/client.py, the agent's end: Client, its handshake and its handling of one packet, with the
--   packages, the wire format and what is drawn at random in the record `Environment`. Client.Accepted puts the
--   agent's packets before the guardrail.
-- - llm/backend.py, the chain of language models: Provider. A backend is a function that answers or
--   raises.
-- - translator/slm_bridge.py, from a person's words to a task: Bridge, over Provider. Text has Python's
--   operations on texts that the fences of Markdown need; Json has the values of json, with `int` and
--   `float` on them.
-- - llm/incident_reporter.py, the reports on quarantines: Reports, with the cache and the fallback, and
--   children for the answer of a model, the Markdown and the templates.
-- - orchestrator/config.py, the configuration: Config. The sections are records; what pydantic makes of one
--   value and what yaml makes of the file are parameters, as are Python's tables of characters.
-- - orchestrator/websocket_fallback.py, the second transport: Websocket. A frame, a connection and its end
--   are functions of the server's state.
-- - orchestrator/crewai_adapter.py and orchestrator/langgraph_adapter.py: Adapters, over Client. A call of
--   execute_task is its start and its end; rounds of the consumer come in between.
-- - self_update/crawl4ai_pipeline.py: Knowledge, the filter of papers and its ranking, the alerts in a feed,
--   and the knowledge base, whose tables of SQLite are lists of keys.
-- - proto/mesh.proto, the messages: Messages, as records; their wire format is a parameter.
-- - Dict is Python's dict with text keys, an association list in the order of insertion.
--
-- What the code reads from a clock, a random source or a UUID is an argument. A time is a number of
-- ticks of 2^-22 seconds, the spacing of the doubles that time.time() returns. Anomaly scores are whole
-- numbers of units of 2^-1074, so that every nonnegative float has one, and 0.65 is the double nearest
-- to it. Texts of errors and log lines are not modelled, nor is the time a check takes. Only the loop
-- of the Merkle root and its groups run on fuel; the other loops are structural recursion.
--
-- Not modelled: the training and the models of anomaly/, the database of the behavioral logger, the single
-- backends of llm/, the dashboard, the command lines, the crawling of the self update and the scripts: they are input and
-- output, or call other packages throughout.
pub mod Prelude
pub mod Dict
pub mod Text
pub mod Json
pub mod Messages
pub mod Scheduler
pub mod Crypto
pub mod Tokens
pub mod Guardrail
pub mod Padder
pub mod Executor
pub mod Audit
pub mod Anomaly
pub mod Handlers
pub mod Server
pub mod Client
pub mod Provider
pub mod Bridge
pub mod Reports
pub mod Config
pub mod Websocket
pub mod Adapters
pub mod Knowledge
