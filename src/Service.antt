-- ===== src/Service.antt =====
-- internal/server/server.go and internal/server/handlers.go: the handlers behind their routes, as
-- steps on the ledger and the account counters that they share. Requests are taken one after another,
-- each with the configurations that it reads, between which any reload may have happened. The circuits
-- of the library's breaker are an argument.
pub mod Guarded
pub mod Metered
use smolllm_server.Accounts.Lines.{AccountCircuit, write_accounts}
use smolllm_server.ApiError.{ErrorResponse}
use smolllm_server.Base.{ℕ, Option, List, [], ◌∷◌, Text}
use smolllm_server.Buildinfo.{Stamps, Runtime, Info, current}
use smolllm_server.Chat.{Fresh}
use smolllm_server.Config.{Config}
use smolllm_server.Handlers
use smolllm_server.Handlers.{Shared, Response, Handled, chat}
use smolllm_server.Client.{Library}
use smolllm_server.Json.{Json}
use smolllm_server.Ledger.{snapshot, attempt_counts, first_outputs, AttemptCount, FirstOutputSample}
use smolllm_server.Metrics.{Line}
use smolllm_server.Messages.{MessageApi}
use smolllm_server.Request.Options.{PromptApi}
use smolllm_server.Routes
use smolllm_server.Routes.{
  Handler, health, models, stats, metrics, version, Outcome, handled, wrong_method, not_found,
  serve, ModelInfo, list_models,
}
use smolllm_server.Stats.{Bucket}

-- a request, what it reads of the time and of the store, and what it draws
pub record Exchange : Type 0 where
  pub method : Text
  pub path : Text
  pub header : Text
  pub body : Option Json
  pub fresh : Fresh
  pub guard_config : Config
  pub first_config : Config
  pub second_config : Config
  pub third_config : Config
  pub fourth_config : Config
  pub circuits : List AccountCircuit

-- what the client gets
pub data Reaction : Type 0 where
  healthy missing bad_method : Reaction
  unauthorized : ErrorResponse → Reaction
  responded : Response → Reaction
  listed : List ModelInfo → Reaction
  reported : List Bucket → Reaction
  exposed : List AttemptCount → List FirstOutputSample → List Line → Reaction
  identified : Info → Reaction

-- `stats`
abbrev pub answer_stats : (ℕ → Text) → ℕ → Shared → Reaction × Shared
answer_stats date_only now l =
    let (kept, rows) = snapshot date_only now l.ledger in
    (reported rows, record l { ledger = kept })

-- `metrics`, up to the text that Metrics makes of the counters and the histograms
abbrev pub answer_metrics : List AccountCircuit → Shared → Reaction
answer_metrics circuits l =
    exposed (attempt_counts l.ledger) (first_outputs l.ledger) (write_accounts l.accounts circuits)

module _ (date_only : ℕ → Text) (api : MessageApi) (lib : PromptApi api.Message)
    (client : Library api.Message) (float_of : Text → Option Text)
    (decode_messages : Json → Option (List api.Message)) (stamps : Stamps) (process : Runtime) where
  abbrev pub of_handled : Handled → Reaction × Shared
  of_handled h = (responded h.response, h.shared)

  -- the handlers: `health`, `chat`, `embeddings`, `models`, `stats`, `metrics` and the function at
  -- `/version`
  unfoldable pub run_handler : Exchange → Shared → Handler → Reaction × Shared
  run_handler x l health = (healthy, l)
  run_handler x l Routes.chat = of_handled (
      chat date_only api lib client float_of decode_messages x.fresh l x.first_config
        x.second_config x.third_config x.fourth_config x.body)
  run_handler x l Routes.embeddings =
      of_handled (Handlers.embeddings date_only client l x.first_config x.body)
  run_handler x l models = (listed (list_models x.fresh.now x.first_config), l)
  run_handler x l stats = answer_stats date_only x.fresh.now l
  run_handler x l metrics = (answer_metrics x.circuits l, l)
  run_handler x l version = (identified (current stamps process), l)

  abbrev pub on_outcome : Exchange → Shared → Outcome → Reaction × Shared
  on_outcome x l (handled h) = run_handler x l h
  on_outcome x l (Routes.denied e) = (unauthorized e, l)
  on_outcome x l wrong_method = (bad_method, l)
  on_outcome x l not_found = (missing, l)

  -- a request through the mux and the guard
  unfoldable pub react : Exchange → Shared → Reaction × Shared
  unfolding run_handler
  react x l = on_outcome x l (serve x.guard_config x.method x.path x.header)

  -- what the handlers share after some requests, the latest first
  unfoldable pub after_requests : List Exchange → Shared → Shared
  unfolding react
  after_requests [] l = l
  after_requests (x ∷ xs) l = (react x (after_requests xs l)).1
