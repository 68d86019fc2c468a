-- ===== src/Handlers.antt =====
-- internal/server/chat.go, the handler `chat` down to `chatBlocking` and `chatStream`, and
-- internal/server/embed.go, the handler `embeddings`. A body is the JSON value that it decodes to, or
-- none, and the texts of errors are left out. The library's calls are a parameter: they answer, and
-- have called the hook with events before the answer is used.
pub mod Answers
pub mod Bills
pub mod Vectors
pub mod Writes
use smolllm_server.Accounts.{Kind, AccountEvent, AccountMetrics, new_metrics, record_account}
use smolllm_server.Adapter.{RequestError, decode_embedding_input}
use smolllm_server.ApiError.{ErrorResponse, upstream_error}
use smolllm_server.Base.{
  ℕ, suc, Bool, true, false, not, Option, none, some, List, [], ◌∷◌, ◌++◌, map, if◌then◌else◌, ◌==◌,
  text_eq, Text, trim_space, ℤ, pos, ltb_ℤ, Result, ok, err, and_then,
}
use smolllm_server.Chat.{Fresh, resolved_model}
use smolllm_server.Chat.Turn.{Attempt, Answer, run_hook, answer_blocking, answer_stream}
use smolllm_server.Config.{Config, resolve_model}
use smolllm_server.Credit.{Tally, new_tally}
use smolllm_server.Json.{Json}
use smolllm_server.Ledger.{record_event}
use smolllm_server.Messages.{MessageApi}
use smolllm_server.Request.{ChatRequest, unmarshal_json, EmbeddingRequest, decode_embedding_request}
use smolllm_server.Request.Options.{CallOption, BuildError, PromptApi, build_options}
use smolllm_server.Stats.{Ledger, new}
use smolllm_server.Upstream
use smolllm_server.Upstream.{Failure}
use smolllm_server.Client.{
  Called, ClientOption, EmbedReply, Library, built, with_account_breaker, with_account_event_hook,
  with_dimensions, with_hook, with_logger, with_model,
}

-- `EmbeddingItem` and `EmbeddingResponse`
pub record EmbeddingItem : Type 0 where
  pub index : ℕ
  pub embedding : List Text

pub record EmbeddingResponse : Type 0 where
  pub model : Text
  pub items : List EmbeddingItem
  pub prompt_tokens : ℕ
  pub total_tokens : ℕ

-- why a handler answers 400
pub data Refusal : Type 0 where
  invalid_body no_model : Refusal
  not_built : BuildError → Refusal
  invalid_input : RequestError → Refusal

-- what a handler answers: an error before the library is called, the outcome of a chat, or the
-- outcome of a call for embeddings
pub data Response : Type 0 where
  rejected : Refusal → Response
  answered : Answer → Response
  not_embedded : ErrorResponse → Response
  embedded : EmbeddingResponse → Response

-- what the handlers share, of `handlers`: the ledger and the counters of account events
pub record Shared : Type 0 where
  pub ledger : Ledger
  pub accounts : AccountMetrics

abbrev pub new_shared : Shared
new_shared = record { ledger = new; accounts = new_metrics }

-- a handler's response, with what it leaves of the shared state
pub record Handled : Type 0 where
  pub response : Response
  pub shared : Shared

-- the calls of `ledger.Hook(alias)`
unfoldable pub record_all : (ℕ → Text) → Text → List Attempt → Ledger → Ledger
record_all date_only name [] l = l
record_all date_only name (a ∷ made) l =
    record_event date_only a.now name a.event (record_all date_only name made l)

-- the options of a chat, with the configuration read for the breaker
unfoldable pub chat_options : Config → Text → List CallOption → List ClientOption
chat_options c name opts =
    map built opts
    ++ (with_logger
        ∷ with_hook name
        ∷ (if not c.server.disable_account_breaker
            then with_account_breaker ∷ with_account_event_hook name ∷ []
            else []))

-- the model for which the options carry `accounts.hook`
unfoldable pub account_alias : List ClientOption → Option Text
account_alias [] = none
account_alias (built o ∷ os) = account_alias os
account_alias (with_logger ∷ os) = account_alias os
account_alias (with_account_breaker ∷ os) = account_alias os
account_alias (with_hook name ∷ os) = account_alias os
account_alias (with_account_event_hook name ∷ os) = some name
account_alias (with_model name ∷ os) = account_alias os
account_alias (with_dimensions d ∷ os) = account_alias os

-- the calls of `accounts.hook(alias)`
unfoldable pub record_accounts :
    (Kind → Text) → Text → List AccountEvent → AccountMetrics → AccountMetrics
record_accounts kind_text name [] m = m
record_accounts kind_text name (e ∷ es) m =
    record_account kind_text name e (record_accounts kind_text name es m)

-- the counters after a call with some options
abbrev pub hooked :
    (Kind → Text) → Option Text → List AccountEvent → AccountMetrics → AccountMetrics
hooked kind_text none es m = m
hooked kind_text (some name) es m = record_accounts kind_text name es m

-- the loop over `resp.Embeddings`
unfoldable pub embedding_items : ℕ → List (List Text) → List EmbeddingItem
embedding_items i [] = []
embedding_items i (vec ∷ vecs) =
    record { index = i; embedding = vec } ∷ embedding_items (suc i) vecs

unfoldable pub embedding_response : Text → EmbedReply → EmbeddingResponse
unfolding embedding_items
embedding_response requested resp = record {
  model = resolved_model resp.model requested;
  items = embedding_items 0 resp.vectors;
  prompt_tokens = resp.input_tokens;
  total_tokens = resp.input_tokens;
}

abbrev pub embedding_answer : Text → Result Failure EmbedReply → Response
embedding_answer requested (err e) = not_embedded (upstream_error (Upstream.message e))
embedding_answer requested (ok resp) = embedded (embedding_response requested resp)

unfoldable pub dimension_options : Option ℤ → List ClientOption
dimension_options none = []
dimension_options (some d) = if ltb_ℤ (pos 0) d then with_dimensions d ∷ [] else []

abbrev pub embedding_options : Config → EmbeddingRequest → List ClientOption
embedding_options c req =
    with_model (resolve_model c req.model)
    ∷ with_logger
    ∷ with_hook req.model
    ∷ dimension_options req.dimensions

module _ (date_only : ℕ → Text) (api : MessageApi) (lib : PromptApi api.Message)
    (client : Library api.Message) (float_of : Text → Option Text) where
  abbrev pub includes_usage : Option Bool → Bool
  includes_usage none = false
  includes_usage (some b) = b

  -- a chat after the call of the library, whose hook starts with an empty tally
  abbrev pub billed_chat :
      {A : Type 0}
      → Shared
      → Text
      → List ClientOption
      → (Tally → Result Failure A → Answer)
      → Called A
      → Handled
  billed_chat l name opts make c =
      let (ledger, billing) = run_hook date_only name c.events (l.ledger, new_tally) in
      record {
        response = answered (make billing c.answer);
        shared = record {
          ledger = ledger;
          accounts = hooked client.kind_text (account_alias opts) c.account_events l.accounts;
        };
      }

  -- the branch on `req.Stream`; the writer is a `statusRecorder`, which can flush
  unfoldable pub answer_chat :
      Fresh → Shared → ChatRequest api.Message → List api.Message → List ClientOption → Handled
  answer_chat fresh l req prompt opts =
      if req.stream
      then billed_chat l req.model opts
          (answer_stream fresh true (includes_usage req.stream_options)) (client.stream prompt opts)
      else billed_chat l req.model opts (λ billing. answer_blocking fresh billing req.model)
          (client.ask prompt opts)

  abbrev pub after_build :
      Fresh
      → Shared
      → Config
      → ChatRequest api.Message
      → Result BuildError (List api.Message × List CallOption)
      → Handled
  after_build fresh l c req (err e) = record { response = rejected (not_built e); shared = l }
  after_build fresh l c req (ok (prompt, opts)) =
      answer_chat fresh l req prompt (chat_options c req.model opts)

  -- the four reads of the configuration, between which it may be reloaded
  abbrev pub after_decode :
      Fresh → Shared → (c₁ c₂ c₃ c₄ : Config) → Option (ChatRequest api.Message) → Handled
  after_decode fresh l c₁ c₂ c₃ c₄ none = record { response = rejected invalid_body; shared = l }
  after_decode fresh l c₁ c₂ c₃ c₄ (some req) = after_build fresh l c₄ req (
      build_options api lib float_of req (some (resolve_model c₁)) c₂.server.request_timeout
        c₃.server.first_output_timeout)

  -- `chat`
  unfoldable pub chat :
      (Json → Option (List api.Message))
      → Fresh
      → Shared
      → (c₁ c₂ c₃ c₄ : Config) → Option Json
      → Handled
  unfolding answer_chat
  chat decode_messages fresh l c₁ c₂ c₃ c₄ body =
      after_decode fresh l c₁ c₂ c₃ c₄ (and_then body (unmarshal_json float_of decode_messages))

module _ {Message : Type 0} (date_only : ℕ → Text) (client : Library Message) where
  abbrev pub after_inputs :
      Shared → Config → EmbeddingRequest → Result RequestError (List Text) → Handled
  after_inputs l c req (err e) = record { response = rejected (invalid_input e); shared = l }
  after_inputs l c req (ok inputs) =
      let called = client.embed inputs (embedding_options c req) in
      record {
        response = embedding_answer req.model called.answer;
        shared = record l { ledger = record_all date_only req.model called.events l.ledger };
      }

  abbrev pub after_embedding_decode : Shared → Config → Option EmbeddingRequest → Handled
  after_embedding_decode l c none = record { response = rejected invalid_body; shared = l }
  after_embedding_decode l c (some req) =
      if trim_space req.model == []
      then record { response = rejected no_model; shared = l }
      else after_inputs l c req (decode_embedding_input req.input)

  -- `embeddings`
  unfoldable pub embeddings : Shared → Config → Option Json → Handled
  unfolding embedding_response dimension_options
  embeddings l c body = after_embedding_decode l c (and_then body decode_embedding_request)
