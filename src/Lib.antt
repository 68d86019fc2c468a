-- ===== src/Lib.antt =====
-- Verification of smolllm-server, an OpenAI-compatible server that sends chat requests to model
-- providers through the library smolllm.
--
-- How the parts interact: `run` (cmd/server/main.go) loads the configuration, sources the env file and
-- listens; a file watcher reloads. Each request but the health check passes the key check; a chat
-- request is decoded, its messages are restored and its options built, and it is answered from the
-- library's reply and recorded by the hook in the ledger and in the credits of the request.
--
-- Files:
-- - Base: shared types, lists, Go strings as lists of code points, Go maps as association lists,
--   `sort.Slice`, results.
-- - Json, Upstream: the data that enters from encoding/json and from the library. Json keeps the
--   literal of a number and repeated members.
-- - Stats and Ledger (internal/ledger/ledger.go): the data, and `Ledger` with `Record` as
--   `record_event`, `pruneLocked` as `prune`, `recordAttemptLocked` as `record_attempt`, `Snapshot`
--   as `snapshot`, `Attempts` as `attempt_counts`, `FirstOutputs` as `first_outputs`. A history is
--   a list of calls, the latest first.
-- - Config (internal/config/config.go): `Load` as `load`, `Validate` as `validate`, `ResolvePath` as
--   `resolve_path`, `loadEnvFile` as `load_env_file`.
-- - Main (cmd/server/main.go): `run` as `start`, `doReload` with `Store.Reload` as `do_reload`,
--   `maskKey` and `parseLevel`; Main/Watch has the loop of `watchConfig` as `watch`, and all of it as
--   `watch_config`. Main/Shutdown has `main`, `run` from NotifyContext on, its watchdog, and `Run` of
--   internal/server/server.go, as acts in any order: `act` is the effect of one, or none where it
--   cannot happen.
-- - Debit and Credit (internal/server/credit.go): the debit of an event; `record` as `record_credit`,
--   `apply`.
-- - Auth (internal/auth/auth.go) and ApiError (internal/apierr/apierr.go, and the error writers of
--   internal/server/handlers.go).
-- - Chat (internal/server/chat.go, response types of internal/llm/types.go): `chatBlocking` as
--   `chat_blocking`, `chatStream` as `chat_stream`, which returns the frames that are written;
--   Chat/Turn has the hook of `chat` and the outcomes of a turn, errors included, as
--   `answer_blocking` and `answer_stream`; Chat/Indexed has `MarshalJSON` of a streamed tool call.
-- - Routes (internal/server/server.go, internal/server/models.go): the routes of `New` and `models`.
-- - Metrics (internal/server/metrics.go): `writeMetrics` as `write_metrics`, a list of lines, and
--   `escapeLabel` as `escape_label`. Accounts (internal/server/account_metrics.go): `record` as
--   `record_account`, `write` as `write_accounts`; the library's circuits are an argument.
-- - Values and Messages (internal/llm/adapter.go): `jsonSubset` as `json_subset`;
--   `restoreToolCallExtras` and `restoreMessageExtras`, for one message as `restore_calls` and
--   `restore_message`, over the messages of openai-go as a record `MessageApi`.
-- - Request (internal/llm/types.go, internal/llm/adapter.go): `UnmarshalJSON` as `unmarshal_json`,
--   `BuildOptions` as `build_options`.
-- - Client: the calls of the library as a record `Library`, and their options.
-- - Handlers (internal/server/chat.go, internal/server/embed.go): the handlers `chat` and
--   `embeddings`, from a body to the response, the ledger and the account counters, composed of
--   Request, Chat/Turn, Ledger and Accounts over `Library`.
-- - Service (internal/server/server.go, internal/server/handlers.go, internal/server/stats.go): the
--   handlers behind the routes and the guard, as steps on the ledger and the account counters that
--   they share.
-- - Wire (the struct tags of internal/llm/types.go, internal/ledger/ledger.go,
--   internal/server/stats.go, internal/apierr/apierr.go and internal/buildinfo/buildinfo.go;
--   `writeChunk` and `writeRaw` of internal/server/chat.go): the answers as JSON values, with
--   readers; Wire/Encode has the compact text of a value with its escapes, Wire/Events the stream
--   of server-sent events and a reader of its data lines. Base/Digits has the decimal digits of a
--   number.
-- - Middleware (internal/server/middleware.go, `chain` of internal/server/server.go): `logMW`,
--   `recoverMW` and `statusRecorder`, on the calls that a handler makes on its writer.
-- - Buildinfo (internal/buildinfo/buildinfo.go): `Current`.
-- - Ids (internal/llm/adapter.go, internal/buildinfo/buildinfo.go): `NewID` as `new_id` and
--   `newInstanceID` as `new_instance_id`, from the bytes drawn.
-- - Adapter (internal/llm/adapter.go, internal/llm/types.go, internal/server/embed.go): the extra
--   fields of `UnmarshalJSON` as `extra_fields`, `passThroughFields` as `pass_through_fields`,
--   `decodeStop` as `decode_stop`, `decodeEmbeddingInput` as `decode_embedding_input`.
-- - Tests: examples of the theorems and runs on concrete values.
--
-- Bounds: all recursion is structural, but for the digits of a number, whose fuel is more than the
-- number. Counters and token numbers are natural numbers: the 64-bit wrap of the source is left out,
-- and instants are not before 1970. Durations are whole nanoseconds, where the source computes with
-- float64 seconds: a sum of waits is exact here and rounded after each addition there, the budgets of
-- a configuration are compared exactly (three times 0.1 s is 0.3 s here and more there), and the
-- configured timeouts are as large as they may be, without NaN and infinities. The count of nanoseconds
-- of a request's timeout is a parameter of which nothing is assumed. The time of Main/Shutdown and
-- Main/Watch is in milliseconds.
--
-- Parameters: the calendar (`UTC().Format(time.DateOnly)`) is a function of the instant; the file
-- system, the YAML decoder and the env-file loader are a record `Host`; what is drawn from
-- crypto/rand and the clock is an argument.
--
-- The messages of openai-go, the prompt and the calls of the library, and what a float64 is are
-- parameters too; what is assumed of them stands at the theorems.
--
-- Not modelled: the bytes of a raw value, a parser of JSON text, the texts of errors, the network,
-- logging but for the request log, a signal after `stop`, the scripts for
-- deployment and monitoring.
mod Base
pub mod Ids
pub mod Json
pub mod Upstream
pub mod Stats
pub mod Ledger
pub mod Config
pub mod Debit
pub mod Credit
pub mod ApiError
pub mod Auth
pub mod Chat
pub mod Main
pub mod Metrics
pub mod Accounts
pub mod Adapter
pub mod Routes
pub mod Values
pub mod Messages
pub mod Request
pub mod Middleware
pub mod Client
pub mod Handlers
pub mod Buildinfo
pub mod Service
pub mod Wire
mod Tests
