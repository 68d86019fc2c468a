-- ===== src/Handlers/Writes.antt =====
-- internal/server/chat.go and internal/server/embed.go: the calls that the handlers make on their
-- writer, under the middleware of internal/server/middleware.go.
use smolllm_server.ApiError.{bad_request}
use smolllm_server.Base.{ℕ, ◌≡◌, refl, false, List, [], ◌∷◌}
use smolllm_server.Chat.{Frame}
use smolllm_server.Chat.Turn.{Answer, completion, frames, refused, unsupported}
use smolllm_server.Handlers.{Response, rejected, answered, not_embedded, embedded}
use smolllm_server.Middleware.{
  Action, write_header, write_body, flush, request, error_actions, wrapped, sent_status,
}
use smolllm_server.Middleware.Logged.{IsHeaderless, IsOrderly, plain_run, wrapped_cases}

-- `writeRaw` for each frame
unfoldable pub frame_actions : List Frame → List Action
frame_actions [] = []
frame_actions (f ∷ fs) = write_body ∷ flush ∷ frame_actions fs

unfoldable pub answer_actions : Answer → List Action
unfolding frame_actions
answer_actions (completion c) = write_body ∷ []
answer_actions (frames fs) = write_header 200 ∷ frame_actions fs
answer_actions (refused report e) = error_actions e
answer_actions (unsupported e) = error_actions e

-- what the handlers write; the text of a refusal is left out
unfoldable pub response_actions : Response → List Action
unfolding answer_actions
response_actions (rejected why) = error_actions (bad_request [])
response_actions (answered a) = answer_actions a
response_actions (not_embedded e) = error_actions e
response_actions (embedded r) = write_body ∷ []

-- the status of a response
abbrev pub answer_status : Answer → ℕ
answer_status (completion c) = 200
answer_status (frames fs) = 200
answer_status (refused report e) = e.status
answer_status (unsupported e) = e.status

abbrev pub status_of : Response → ℕ
status_of (rejected why) = 400
status_of (answered a) = answer_status a
status_of (not_embedded e) = e.status
status_of (embedded r) = 200

frame_actions-IsHeaderless : (fs : List Frame) → IsHeaderless (frame_actions fs)
unfolding frame_actions
frame_actions-IsHeaderless [] = tt
frame_actions-IsHeaderless (f ∷ fs) = frame_actions-IsHeaderless fs

response_actions-IsOrderly : (r : Response) → IsOrderly (response_actions r)
unfolding response_actions answer_actions
response_actions-IsOrderly (rejected why) = tt
response_actions-IsOrderly (answered (completion c)) = tt
response_actions-IsOrderly (answered (frames fs)) = frame_actions-IsHeaderless fs
response_actions-IsOrderly (answered (refused report e)) = tt
response_actions-IsOrderly (answered (unsupported e)) = tt
response_actions-IsOrderly (not_embedded e) = tt
response_actions-IsOrderly (embedded r) = tt

sent_status-response_actions : (r : Response) → sent_status (response_actions r) ≡ status_of r
unfolding response_actions answer_actions sent_status
sent_status-response_actions (rejected why) = refl
sent_status-response_actions (answered (completion c)) = refl
sent_status-response_actions (answered (frames fs)) = refl
sent_status-response_actions (answered (refused report e)) = refl
sent_status-response_actions (answered (unsupported e)) = refl
sent_status-response_actions (not_embedded e) = refl
sent_status-response_actions (embedded r) = refl

-- Whatever `chat` or `embeddings` responds, the client gets status 400 for a request that is refused,
-- the status of the error where the library fails, and 200 for an answer, streamed or not, and the
-- request log has one line with that same status.
pub wrapped-response_actions :
    (r : Response)
    → (wrapped (plain_run (response_actions r) false)
        ≡ record { actions = response_actions r; log = request (status_of r) ∷ []; panics = false })
      × (sent_status (response_actions r) ≡ status_of r)
wrapped-response_actions r =
    let (through, _, _, _, _) = wrapped_cases (response_actions r) (response_actions-IsOrderly r) in
    (rw (sent_status-response_actions r) at through, sent_status-response_actions r)
