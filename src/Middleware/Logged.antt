-- ===== src/Middleware/Logged.antt =====
-- internal/server/middleware.go: what a request leaves in the log, against what the client gets.
use smolllm_server.Base.{ℕ, ◌≡◌, refl, Bool, true, false, List, [], ◌∷◌}
use smolllm_server.Middleware.{
  Action, write_header, write_body, flush, request, panic_recovered, Run, recorded_status, log_mw,
  recover_mw, chain, wrapped, sent_status,
}

-- no status after what is already sent
abbrev pub IsHeaderless : List Action → Type 0
IsHeaderless [] = Unit
IsHeaderless (write_header code ∷ rest) = ⊥
IsHeaderless (write_body ∷ rest) = IsHeaderless rest
IsHeaderless (flush ∷ rest) = IsHeaderless rest

-- a status at most once, and before the body
abbrev pub IsOrderly : List Action → Type 0
IsOrderly [] = Unit
IsOrderly (write_header code ∷ rest) = IsHeaderless rest
IsOrderly (write_body ∷ rest) = IsHeaderless rest
IsOrderly (flush ∷ rest) = IsHeaderless rest

recorded_status-IsHeaderless :
    (status : ℕ) (rest : List Action) → IsHeaderless rest → recorded_status status rest ≡ status
unfolding recorded_status
recorded_status-IsHeaderless status [] h = refl
recorded_status-IsHeaderless status (write_header code ∷ rest) h = absurd h
recorded_status-IsHeaderless status (write_body ∷ rest) h =
    recorded_status-IsHeaderless status rest h
recorded_status-IsHeaderless status (flush ∷ rest) h = recorded_status-IsHeaderless status rest h

recorded_status-sent_status :
    (rest : List Action) → IsOrderly rest → recorded_status 200 rest ≡ sent_status rest
unfolding recorded_status sent_status
recorded_status-sent_status [] h = refl
recorded_status-sent_status (write_header code ∷ rest) h = recorded_status-IsHeaderless code rest h
recorded_status-sent_status (write_body ∷ rest) h = recorded_status-IsHeaderless 200 rest h
recorded_status-sent_status (flush ∷ rest) h = recorded_status-IsHeaderless 200 rest h

-- a run of the routes, which log nothing themselves
abbrev pub plain_run : List Action → Bool → Run
plain_run rest panics = record { actions = rest; log = []; panics = panics }

-- For a handler that sets a status at most once and before the body, and that panics or not, the
-- wrapped handler never panics. Without a panic the client gets what the handler wrote, and the log
-- one line with the status that the client got. In a panic the log gets the line of the panic and
-- none of the request, and the client gets status 500 if nothing was sent before, and otherwise the
-- status already sent.
pub wrapped_cases :
    (rest : List Action)
    → IsOrderly rest
    → (wrapped (plain_run rest false)
        ≡ record { actions = rest; log = request (sent_status rest) ∷ []; panics = false })
      × ((wrapped (plain_run rest true)).panics ≡ false)
      × ((wrapped (plain_run rest true)).log ≡ panic_recovered ∷ [])
      × (sent_status (wrapped (plain_run [] true)).actions ≡ 500)
      × ((a : Action)
          → sent_status (wrapped (plain_run (a ∷ rest) true)).actions ≡ sent_status (a ∷ rest))
unfolding wrapped log_mw recover_mw chain sent_status
wrapped_cases rest orderly =
    (rw (recorded_status-sent_status rest orderly) refl, refl, refl, refl, first)
  where
    first :
        (a : Action)
        → sent_status (wrapped (plain_run (a ∷ rest) true)).actions ≡ sent_status (a ∷ rest)
    first (write_header code) = refl
    first write_body = refl
    first flush = refl
