-- ===== src/Tests/Routing.antt =====
-- Examples of the theorems on routes and turns.
use smolllm_server.Base.{◌≡◌, ◌↔◌, ◌⊎◌, refl, some, List, [], ◌∷◌, codes, text_discrete}
use smolllm_server.Chat.{Fresh}
use smolllm_server.Chat.Turn.{Attempt}
use smolllm_server.Routes
use smolllm_server.Routes.{
  health, metrics, Route, routes, find_route, handled, wrong_method, serve, ModelInfo, names,
  list_models,
}
use smolllm_server.Routes.Guard.{Opens, serve_iff}
use smolllm_server.Tests.{answered, broken}
use smolllm_server.Tests.Configs.{config}

serve_iff_example :
    (serve config (codes "GET") (codes "/metrics") (codes "Bearer sk-1") ≡ handled metrics) ↔ (
      (r : Route) × (find_route (codes "GET") (codes "/metrics") routes ≡ some r)
      × (r.handler ≡ metrics)
      × ((metrics ≡ health) ⊎ Opens config (codes "Bearer sk-1")))
serve_iff_example = serve_iff config (codes "GET") (codes "/metrics") (codes "Bearer sk-1") metrics

serve_test : serve config (codes "POST") (codes "/healthz") [] ≡ wrong_method
unfolding serve find_route Routes.takes_method text_discrete
serve_test = refl

abbrev turn : List Attempt
turn =
    record { now = 5_000_300; event = answered } ∷ record { now = 5_000_200; event = broken } ∷ []

abbrev fresh : Fresh
fresh = record { completion_id = codes "chatcmpl-1"; report_id = codes "r-1"; now = 7 }
