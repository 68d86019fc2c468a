-- ===== src/Service/Metered.antt =====
-- internal/server/chat.go and internal/server/account_metrics.go: the account counters that requests
-- leave, whatever they are.
use smolllm_server.Accounts.{AccountEvent}
use smolllm_server.Accounts.Counts.{Call, metrics_after}
use smolllm_server.Base.{
  ℕ, ◌≡◌, Option, none, some, List, [], ◌∷◌, if◌then◌else◌, text_eq, Text, Result, ok, err,
  and_then,
}
use smolllm_server.Buildinfo.{Stamps, Runtime}
use smolllm_server.Config.{Config, resolve_model}
use smolllm_server.Handlers
use smolllm_server.Handlers.{Shared, Handled, chat, chat_options}
use smolllm_server.Client.{Library, ClientOption}
use smolllm_server.Json.{Json}
use smolllm_server.Messages.{MessageApi}
use smolllm_server.Request.{ChatRequest, unmarshal_json}
use smolllm_server.Request.Options.{PromptApi, CallOption, BuildError, build_options}
use smolllm_server.Routes
use smolllm_server.Routes.{Handler, Outcome, handled, serve}
use smolllm_server.Service.{Exchange}

-- some events as the calls of the hook of a model, before others
abbrev pub calls_for : Text → List AccountEvent → List Call → List Call
calls_for name [] h = h
calls_for name (e ∷ es) h = record { alias = name; event = e } ∷ calls_for name es h

module _ (date_only : ℕ → Text) (api : MessageApi) (lib : PromptApi api.Message)
    (client : Library api.Message) (float_of : Text → Option Text)
    (decode_messages : Json → Option (List api.Message)) (stamps : Stamps) (process : Runtime) where
  -- the account events of the call that a chat makes
  abbrev pub account_events :
      ChatRequest api.Message → List api.Message → List ClientOption → List AccountEvent
  account_events req prompt opts =
      if req.stream
      then (client.stream prompt opts).account_events
      else (client.ask prompt opts).account_events

  -- a request that is built, with the configuration that is read for the breaker, after some history
  abbrev pub after_built :
      Config
      → ChatRequest api.Message
      → List Call
      → Result BuildError (List api.Message × List CallOption)
      → List Call
  after_built c req h (err e) = h
  after_built c req h (ok (prompt, opts)) =
      if c.server.disable_account_breaker
      then h
      else calls_for req.model (account_events req prompt (chat_options c req.model opts)) h

  abbrev pub after_decoded : Exchange → List Call → Option (ChatRequest api.Message) → List Call
  after_decoded x h none = h
  after_decoded x h (some req) = after_built x.fourth_config req h (
      build_options api lib float_of req (some (resolve_model x.first_config))
        x.second_config.server.request_timeout x.third_config.server.first_output_timeout)

  -- only a chat that reaches its handler reports account events
  abbrev pub after_outcome : Exchange → List Call → Outcome → List Call
  after_outcome x h (handled Routes.chat) =
      after_decoded x h (and_then x.body (unmarshal_json float_of decode_messages))
  after_outcome x h _ = h

  -- the account events of some requests with the models they were reported for, the latest first
  unfoldable pub account_history : List Exchange → List Call
  account_history [] = []
  account_history (x ∷ xs) =
      after_outcome x (account_history xs) (serve x.guard_config x.method x.path x.header)

  -- the counters are those of a history
  abbrev Counts : Shared → List Call → Type 0
  Counts l h = l.accounts ≡ metrics_after client.kind_text h
