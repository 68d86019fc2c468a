-- ===== src/Middleware.antt =====
-- internal/server/middleware.go and `chain` of internal/server/server.go: one request through the
-- middleware. A handler's run is what it calls on its `http.ResponseWriter`, in order, and whether it
-- then panics. Status codes are not informational ones.
pub mod Logged
use smolllm_server.Base.{ℕ, Bool, false, List, [], ◌∷◌, ◌++◌, if◌then◌else◌, codes}
use smolllm_server.ApiError.{ErrorResponse, write}

-- the calls on a writer: `WriteHeader`, `Write` and `Flush`
pub data Action : Type 0 where
  write_header : ℕ → Action
  write_body flush : Action

-- `logger.Info("request", …)` with the status, and `logger.Error("panic recovered", …)`
pub data LogEntry : Type 0 where
  request : ℕ → LogEntry
  panic_recovered : LogEntry

-- what a handler did
pub record Run : Type 0 where
  pub actions : List Action
  pub log : List LogEntry
  pub panics : Bool

-- the field `status` of `statusRecorder` after some calls, which are all passed on
unfoldable pub recorded_status : ℕ → List Action → ℕ
recorded_status status [] = status
recorded_status status (write_header code ∷ rest) = recorded_status code rest
recorded_status status (write_body ∷ rest) = recorded_status status rest
recorded_status status (flush ∷ rest) = recorded_status status rest

-- `logMW`: the line after `next.ServeHTTP` is not reached in a panic
unfoldable pub log_mw : Run → Run
unfolding recorded_status
log_mw next =
    if next.panics
    then next
    else record next { log = next.log ++ request (recorded_status 200 next.actions) ∷ [] }

abbrev pub internal_error : ErrorResponse
internal_error =
    write 500 (codes "internal_error") (codes "server_error") (codes "Internal server error")

-- the calls of `apierr.Write`
abbrev pub error_actions : ErrorResponse → List Action
error_actions e = write_header e.status ∷ write_body ∷ []

-- `recoverMW`
unfoldable pub recover_mw : Run → Run
recover_mw next =
    if next.panics
    then record {
      actions = next.actions ++ error_actions internal_error;
      log = next.log ++ panic_recovered ∷ [];
      panics = false;
    }
    else next

-- `chain`: the first middleware is the outermost
unfoldable pub chain : Run → List (Run → Run) → Run
chain h [] = h
chain h (mw ∷ mws) = mw (chain h mws)

-- `wrapped` in `New`
unfoldable pub wrapped : Run → Run
unfolding chain
wrapped mux = chain mux (recover_mw ∷ log_mw ∷ [])

-- the status that net/http sends: the first one, and 200 where the body comes first
unfoldable pub sent_status : List Action → ℕ
sent_status [] = 200
sent_status (write_header code ∷ rest) = code
sent_status (write_body ∷ rest) = 200
sent_status (flush ∷ rest) = 200
