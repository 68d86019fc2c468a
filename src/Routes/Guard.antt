-- ===== src/Routes/Guard.antt =====
-- internal/server/server.go: which requests reach a handler.
use smolllm_server.Auth.{extract_token}
use smolllm_server.Auth.Tokens.{check_key_iff}
use smolllm_server.Base.{
  ◌≡◌, ◌≢◌, ◌↔◌, ◌⊎◌, ap, subst, ◌∙◌, false, ◌&&◌, some, List, [], ◌∷◌, arith, All, ◌==◌, text_eq,
  Text, Option-cases, Bool-cases, inl, inr,
}
use smolllm_server.Config.{Config}
use smolllm_server.Routes.{
  Handler, health, Route, routes, find_route, handled, guard_route, serve, takes_method,
}

-- the header opens the key of the configuration
abbrev pub Opens : Config → Text → Type 0
Opens c header = (extract_token header ≡ c.server.access_key) × (c.server.access_key ≢ [])

-- only the health check is served without a key
abbrev pub GuardsAllButHealth : Route → Type 0
GuardsAllButHealth r = (r.is_guarded ≡ false) ↔ (r.handler ≡ health)

routes-GuardsAllButHealth : All GuardsAllButHealth routes
routes-GuardsAllButHealth = ground arith

found-GuardsAllButHealth :
    (method path : Text) (rs : List Route) {r : Route}
    → All GuardsAllButHealth rs
    → find_route method path rs ≡ some r
    → GuardsAllButHealth r
unfolding find_route
found-GuardsAllButHealth method path [] h e = cc
found-GuardsAllButHealth method path (q ∷ rs) {r} (p, h) e =
    elim (Bool-cases (q.path == path && takes_method q.method method)) [
      | inl here ↦
          let same : q ≡ r = cc (rw (here, find_route) at e) in subst GuardsAllButHealth same p
      | inr there ↦ found-GuardsAllButHealth method path rs h (rw (there, find_route) at e)
    ]

guard_route_iff :
    (c : Config) (header : Text) (r : Route)
    → (guard_route c header r ≡ handled r.handler) ↔ ((r.is_guarded ≡ false) ⊎ Opens c header)
unfolding guard_route
guard_route_iff c header r = ground (arith, check_key_iff c.server.access_key header)

guard_route-handled :
    (c : Config) (header : Text) (r : Route) {x : Handler}
    → guard_route c header r ≡ handled x
    → r.handler ≡ x
unfolding guard_route
guard_route-handled c header r h = ground arith

-- A request reaches a handler exactly if a route of its method and path leads there, and the handler
-- is the health check or the header opens the access key of the configuration at that time.
pub serve_iff :
    (c : Config) (method path header : Text) (x : Handler)
    → (serve c method path header ≡ handled x) ↔ (
        (r : Route) × (find_route method path routes ≡ some r)
        × (r.handler ≡ x)
        × ((x ≡ health) ⊎ Opens c header))
unfolding serve
serve_iff c method path header x = elim (Option-cases (find_route method path routes)) [
  | inl none_found ↦ (
    λ h. absurd (ground (arith, rw (none_found, serve) at h)),
    λ h. absurd (ground (arith, none_found, h.1)),
  )
  | inr (r, found) ↦
      let safe = found-GuardsAllButHealth method path routes routes-GuardsAllButHealth found in
      let passes = guard_route_iff c header r in
      (
        λ h.
            let g : guard_route c header r ≡ handled x = rw (found, serve) at h in
            let e = guard_route-handled c header r g in
            (r, found, e, ground (arith, passes, safe, g, e)),
        λ h.
            let same : r ≡ h.0 = cc (found, h.1) in
            let e : r.handler ≡ x = ap (λ q. q.handler) same ∙ h.2 in
            rw (found, serve) (ground (arith, passes, safe, e, h.3)),
      )
]
