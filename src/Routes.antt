-- ===== src/Routes.antt =====
-- internal/server/server.go: the routes of `New` and their guard; internal/server/models.go: the
-- list of models. Paths are those that `http.ServeMux` does not redirect. A pattern for GET also
-- takes HEAD.
pub mod Guard
pub mod Models
use smolllm_server.ApiError.{ErrorResponse}
use smolllm_server.Auth.{check_key}
use smolllm_server.Base.{
  ℕ, Bool, true, false, ◌&&◌, ◌||◌, Option, none, some, List, [], ◌∷◌, map, any, if◌then◌else◌,
  ◌==◌, text_eq, Text, codes, Dict, text_less, sort_slice,
}
use smolllm_server.Config.{Config}

-- what the routes lead to
pub data Handler : Type 0 where
  health chat embeddings models stats metrics version : Handler

pub record Route : Type 0 where
  pub method : Text
  pub path : Text
  pub handler : Handler
  pub is_guarded : Bool

abbrev guarded : Text → Text → Handler → Route
guarded method path handler = record {
  method = method;
  path = path;
  handler = handler;
  is_guarded = true;
}

-- the calls of `mux.HandleFunc` and `mux.Handle` in `New`
abbrev pub routes : List Route
routes =
    record { method = codes "GET"; path = codes "/healthz"; handler = health; is_guarded = false }
    ∷ guarded (codes "POST") (codes "/v1/chat/completions") chat
    ∷ guarded (codes "POST") (codes "/v1/embeddings") embeddings
    ∷ guarded (codes "GET") (codes "/v1/models") models
    ∷ guarded (codes "GET") (codes "/stats") stats
    ∷ guarded (codes "GET") (codes "/metrics") metrics
    ∷ guarded (codes "GET") (codes "/version") version
    ∷ []

unfoldable pub takes_method : Text → Text → Bool
takes_method pattern method =
    pattern == method || (pattern == codes "GET" && method == codes "HEAD")

-- the route of a request, of a list of routes
unfoldable pub find_route : Text → Text → List Route → Option Route
unfolding takes_method
find_route method path [] = none
find_route method path (r ∷ rs) =
    let later = find_route method path rs in
    if r.path == path && takes_method r.method method then some r else later

pub data Outcome : Type 0 where
  handled : Handler → Outcome
  denied : ErrorResponse → Outcome
  wrong_method not_found : Outcome

-- the guard `authMW`, which reads the key of the configuration at each request
unfoldable pub guard_route : Config → Text → Route → Outcome
guard_route c header r =
    if r.is_guarded
    then elim (check_key c.server.access_key header) [
      | none ↦ handled r.handler
      | some e ↦ denied e
    ]
    else handled r.handler

-- a request with the header `Authorization`, against the configuration at that time
unfoldable pub serve : Config → Text → Text → Text → Outcome
unfolding find_route guard_route
serve c method path header = elim (find_route method path routes) [
  | some r ↦ guard_route c header r
  | none ↦ if any (λ r. r.path == path) routes then wrong_method else not_found
]

-- `ModelInfo`
pub record ModelInfo : Type 0 where
  pub id : Text
  pub object : Text
  pub owned_by : Text
  pub created : ℕ

abbrev pub model_info : ℕ → Text → ModelInfo
model_info now name = record {
  id = name;
  object = codes "model";
  owned_by = codes "smolllm-alias";
  created = now;
}

abbrev pub names : Dict Text Text → List Text
names aliases = map (λ (name, _). name) aliases

-- `models`, the `Data` of the response
unfoldable pub list_models : ℕ → Config → List ModelInfo
list_models now c = map (model_info now) (sort_slice text_less (names c.aliases))
