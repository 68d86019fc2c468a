-- ===== src/Chat/Turn.antt =====
-- internal/server/chat.go: the hook of `chat` and the outcomes of a turn, errors included. The events
-- of a turn are those that the library reports before its call is over, the latest first.
use smolllm_server.Base.{
  ℕ, ◌≡◌, ◌≢◌, ◌↔◌, refl, ap, ◌∙◌, Bool, true, false, Option, none, some, List, [], ◌∷◌, ◌++◌, map,
  Text, codes, length, All, Result, ok, err, length-map,
}
use smolllm_server.ApiError.{ErrorResponse, upstream_error}
use smolllm_server.Chat.{Fresh, ChatCompletion, Frame, chat_blocking, chat_stream}
use smolllm_server.Credit.{Tally, CreditReport, new_tally, record_credit, tallied, apply}
use smolllm_server.Debit.{debit_of}
use smolllm_server.Credit.Complete.{report_complete_iff}
use smolllm_server.Credit.Exact.{debits}
use smolllm_server.Ledger.{record_event}
use smolllm_server.Stats.{Ledger}
use smolllm_server.Ledger.Attempts.{Call, recorded}
use smolllm_server.Upstream
use smolllm_server.Upstream.{RequestEvent, Failure, Reply, StreamReply}

-- an event and the time at which it is recorded
pub record Attempt : Type 0 where
  pub now : ℕ
  pub event : RequestEvent

-- the hook that `chat` installs: `ledgerHook(e)` and `billing.record(e)`
module _ (date_only : ℕ → Text) (alias : Text) where
  unfoldable pub on_event : Attempt → Ledger × Tally → Ledger × Tally
  on_event a (l, b) = (record_event date_only a.now alias a.event l, record_credit a.event b)

  unfoldable pub run_hook : List Attempt → Ledger × Tally → Ledger × Tally
  unfolding on_event
  run_hook [] s = s
  run_hook (a ∷ h) s = on_event a (run_hook h s)

-- What a client gets: an answer, a stream of frames, or an error. `refused` carries the headers that
-- `errorHeaders` sets.
pub data Answer : Type 0 where
  completion : ChatCompletion → Answer
  frames : List Frame → Answer
  refused : CreditReport → ErrorResponse → Answer
  unsupported : ErrorResponse → Answer

-- `errorHeaders` and `upstreamError`
unfoldable pub refuse : Fresh → Tally → Failure → Answer
refuse fresh billing e =
    refused (apply fresh.report_id billing).1 (upstream_error (Upstream.message e))

-- `chatBlocking`, by the outcome of `smolllm.Ask`
unfoldable pub answer_blocking : Fresh → Tally → Text → Result Failure Reply → Answer
unfolding refuse
answer_blocking fresh billing requested (err e) = refuse fresh billing e
answer_blocking fresh billing requested (ok resp) =
    completion (chat_blocking fresh billing requested resp)

-- `chatStream`, by whether the writer can flush and the outcome of `smolllm.Stream`
unfoldable pub answer_stream : Fresh → Bool → Bool → Tally → Result Failure StreamReply → Answer
unfolding refuse
answer_stream fresh false include billing r =
    unsupported (upstream_error (codes "streaming not supported by this server"))
answer_stream fresh true include billing (err e) = refuse fresh billing e
answer_stream fresh true include billing (ok s) = frames (chat_stream fresh include billing s)

abbrev pub events_of : List Attempt → List RequestEvent
events_of = map (λ a. a.event)

abbrev pub calls_under : Text → List Attempt → List Call
calls_under alias = map (λ a. record { now = a.now; alias = alias; event = a.event })

-- The hook of a turn adds each of its events once to the ledger of the server, under the model that
-- the client asked for and on top of all that was recorded before, and once to the credits of the
-- turn, which hold the events of no other turn.
pub run_hook-recorded :
    (date_only : ℕ → Text) (alias : Text) (made : List Attempt) (h : List Call)
    → run_hook date_only alias made (recorded date_only h, new_tally)
      ≡ (recorded date_only (calls_under alias made ++ h), tallied (events_of made))
unfolding run_hook on_event recorded tallied
run_hook-recorded date_only alias [] h = refl
run_hook-recorded date_only alias (a ∷ made) h =
    ap (on_event date_only alias a) (run_hook-recorded date_only alias made h)

-- the credits that come with an outcome, if any do
abbrev pub report_of : Answer → Option CreditReport
report_of (completion c) = some c.usage.credits
report_of (refused r _) = some r
report_of _ = none

report_of-answer_blocking :
    (fresh : Fresh) (billing : Tally) (requested : Text) (outcome : Result Failure Reply)
    → report_of (answer_blocking fresh billing requested outcome)
      ≡ some (apply fresh.report_id billing).1
unfolding answer_blocking chat_blocking
report_of-answer_blocking fresh billing requested (ok resp) = refl
report_of-answer_blocking fresh billing requested (err e) = refl

-- The blocking outcome of a turn tells the client its credits, whether the call succeeds or fails,
-- and the report is that of the events of this turn: it counts them all, those with an accepted
-- debit, and is complete exactly if there is an event and each has such a debit.
pub answer_blocking-report :
    (date_only : ℕ → Text) (alias : Text) (made : List Attempt) (h : List Call) (fresh : Fresh)
    (outcome : Result Failure Reply)
    → let billing = (run_hook date_only alias made (recorded date_only h, new_tally)).1 in
      (r : CreditReport) × (report_of (answer_blocking fresh billing alias outcome) ≡ some r)
      × (r.attempts ≡ length made)
      × (r.known_attempts ≡ length (debits (events_of made)))
      × ((r.complete ≡ true)
          ↔ ((events_of made ≢ []) × All (λ e. debit_of e ≢ none) (events_of made)))
answer_blocking-report date_only alias made h fresh outcome =
    let state = ap (λ s. s.1) (run_hook-recorded date_only alias made h) in
    let (attempts, known, complete, _) = report_complete_iff (events_of made) fresh.report_id in
    rw state (
      (apply fresh.report_id (tallied (events_of made))).1,
      report_of-answer_blocking fresh (tallied (events_of made)) alias outcome,
      attempts ∙ length-map (λ a. a.event) made,
      known,
      complete,
    )
