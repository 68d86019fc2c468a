-- ===== src/Handlers/Bills.antt =====
-- internal/server/chat.go: the credit report that a chat answers with, against the ledger.
use smolllm_server.Base.{
  ℕ, ◌≡◌, refl, ap, Bool, true, ◌&&◌, Option, none, some, List, [], ◌∷◌, arith, if◌then◌else◌, ltb,
  ◌==◌, text_eq, Text, length, Result, ok, err, Bool-cases, inl, inr, All, All-append,
}
use smolllm_server.Chat.{
  Fresh, CompletionUsage, Frame, chunk, done, chat_blocking, chat_stream, stream_loop, ending,
  usage_frames, tools_frame,
}
use smolllm_server.Config.{Config}
use smolllm_server.Credit.{CreditReport, Tally, new_tally, apply, tallied}
use smolllm_server.Json.{Json}
use smolllm_server.Messages.{MessageApi}
use smolllm_server.Request.{ChatRequest}
use smolllm_server.Request.Options.{PromptApi}
use smolllm_server.Handlers.{
  Shared, Response, rejected, answered, not_embedded, embedded, Handled, record_all, answer_chat,
}
use smolllm_server.Client.{ClientOption, Library}
use smolllm_server.Chat.Turn.{
  Attempt, Answer, completion, frames, refused, unsupported, on_event, run_hook, answer_blocking,
  answer_stream, events_of,
}
use smolllm_server.Stats.{Ledger}
use smolllm_server.Upstream.{Usage, Failure, Reply, StreamReply, StreamEvent, piece, client_gone}

abbrev pub UsageHas : CreditReport → Option CompletionUsage → Type 0
UsageHas r none = Unit
UsageHas r (some u) = u.credits ≡ r

-- a frame whose usage, if it has one, has the report
abbrev pub FrameHas : CreditReport → Frame → Type 0
FrameHas r (chunk c) = UsageHas r c.usage
FrameHas r done = Unit

-- a response whose every credit report is this one
abbrev pub AnswerHas : CreditReport → Answer → Type 0
AnswerHas r (completion c) = c.usage.credits ≡ r
AnswerHas r (frames fs) = All (FrameHas r) fs
AnswerHas r (refused q _) = q ≡ r
AnswerHas r (unsupported _) = Unit

abbrev pub ResponseHas : CreditReport → Response → Type 0
ResponseHas r (answered a) = AnswerHas r a
ResponseHas r (rejected _) = Unit
ResponseHas r (not_embedded _) = Unit
ResponseHas r (embedded _) = Unit

module _ (fresh : Fresh) (model : Text) (include : Bool) (billing : Tally) where
  abbrev report : CreditReport
  report = (apply fresh.report_id billing).1

  usage_frames-FrameHas :
      (u : Usage) → All (FrameHas report) (usage_frames fresh model include billing u)
  unfolding usage_frames
  usage_frames-FrameHas u = ground arith

  ending-FrameHas :
      (s : StreamReply) (o : Option Failure)
      → All (FrameHas report) (ending fresh model include billing s o)
  unfolding ending
  ending-FrameHas s (some e) =
      (tt, All-append (FrameHas report) _ (done ∷ []) (usage_frames-FrameHas s.usage) (tt, tt))
  ending-FrameHas s none =
      All-append (FrameHas report)
        (if ltb 0 (length s.tool_calls) then tools_frame fresh model s.tool_calls ∷ [] else []) _
        (elim (Bool-cases (ltb 0 (length s.tool_calls))) [
          | inl some_calls ↦ rw some_calls (tt, tt)
          | inr no_calls ↦ rw no_calls tt
        ])
        (tt, All-append (FrameHas report) _ (done ∷ []) (usage_frames-FrameHas s.usage) (tt, tt))

  stream_loop-FrameHas :
      (s : StreamReply) (es : List StreamEvent)
      → All (FrameHas report) (stream_loop fresh model include billing s es)
  unfolding stream_loop
  stream_loop-FrameHas s [] = ending-FrameHas s s.failure
  stream_loop-FrameHas s (client_gone ∷ es) = tt
  stream_loop-FrameHas s (piece c r ∷ es) = elim (Bool-cases (c == [] && r == [])) [
    | inl empty ↦ rw empty (stream_loop-FrameHas s es)
    | inr full ↦ rw full (tt, stream_loop-FrameHas s es)
  ]

chat_stream-FrameHas :
    (fresh : Fresh) (include : Bool) (billing : Tally) (s : StreamReply)
    → All (FrameHas (apply fresh.report_id billing).1) (chat_stream fresh include billing s)
unfolding chat_stream
chat_stream-FrameHas fresh include billing s =
    (tt, stream_loop-FrameHas fresh s.model include billing s s.events)

answer_blocking-AnswerHas :
    (fresh : Fresh) (billing : Tally) (name : Text) (r : Result Failure Reply)
    → AnswerHas (apply fresh.report_id billing).1 (answer_blocking fresh billing name r)
unfolding answer_blocking chat_blocking
answer_blocking-AnswerHas fresh billing name (err e) = refl
answer_blocking-AnswerHas fresh billing name (ok reply) = refl

answer_stream-AnswerHas :
    (fresh : Fresh) (include : Bool) (billing : Tally) (r : Result Failure StreamReply)
    → AnswerHas (apply fresh.report_id billing).1 (answer_stream fresh true include billing r)
unfolding answer_stream
answer_stream-AnswerHas fresh include billing (err e) = refl
answer_stream-AnswerHas fresh include billing (ok reply) =
    chat_stream-FrameHas fresh include billing reply

run_hook-record_all :
    (date_only : ℕ → Text) (name : Text) (made : List Attempt) (l : Ledger)
    → run_hook date_only name made (l, new_tally)
      ≡ (record_all date_only name made l, tallied (events_of made))
unfolding run_hook record_all tallied
run_hook-record_all date_only name [] l = refl
run_hook-record_all date_only name (a ∷ made) l =
    ap (on_event date_only name a) (run_hook-record_all date_only name made l)

-- the ledger with some events, and a response that reports their credits
abbrev pub IsBilledAs : (ℕ → Text) → Fresh → Ledger → Text → List Attempt → Handled → Type 0
IsBilledAs date_only fresh l name made h =
    (h.shared.ledger ≡ record_all date_only name made l)
    × ResponseHas (apply fresh.report_id (tallied (events_of made))).1 h.response

module _ (date_only : ℕ → Text) (api : MessageApi) (lib : PromptApi api.Message)
    (client : Library api.Message) (float_of : Text → Option Text) where
  -- the events of the call that a request leads to
  abbrev pub call_events :
      ChatRequest api.Message → List api.Message → List ClientOption → List Attempt
  call_events req prompt opts =
      if req.stream then (client.stream prompt opts).events else (client.ask prompt opts).events

  pub answer_chat-IsBilledAs :
      (fresh : Fresh) (l : Shared) (req : ChatRequest api.Message) (prompt : List api.Message)
      (opts : List ClientOption)
      → IsBilledAs date_only fresh l.ledger req.model
          (call_events req prompt opts)
          (answer_chat date_only api lib client float_of fresh l req prompt opts)
  unfolding answer_chat
  answer_chat-IsBilledAs fresh l req prompt opts = elim (Bool-cases req.stream) [
    | inl streams ↦
        rw
          (
            streams,
            run_hook-record_all date_only req.model (client.stream prompt opts).events l.ledger,
          )
          (refl, answer_stream-AnswerHas fresh _ _ (client.stream prompt opts).answer)
    | inr blocks ↦
        rw
          (blocks, run_hook-record_all date_only req.model (client.ask prompt opts).events l.ledger)
          (refl, answer_blocking-AnswerHas fresh _ _ (client.ask prompt opts).answer)
  ]
