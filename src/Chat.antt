-- ===== src/Chat.antt =====
-- internal/server/chat.go with the response shapes of internal/llm/types.go: the blocking answer
-- and the frames of the streamed one. A frame is a value here; Wire encodes it.
pub mod Protocol
pub mod Content
pub mod Finish
pub mod Indexed
pub mod Turn
use smolllm_server.Base.{
  ℕ, ◌+◌, Bool, not, ◌&&◌, ◌||◌, Option, none, some, List, [], ◌∷◌, ◌++◌, if◌then◌else◌, ltb, eqb,
  ◌==◌, text_eq, Text, codes, length,
}
use smolllm_server.Credit.{Tally, CreditReport, apply}
use smolllm_server.Json.{Json}
use smolllm_server.Upstream
use smolllm_server.Upstream.{Usage, Reply, StreamReply, StreamEvent, piece, client_gone, Failure}

-- `CompletionUsage` without the credit fields, which `apply` fills
pub record TokenUsage : Type 0 where
  pub prompt_tokens : ℕ
  pub completion_tokens : ℕ
  pub total_tokens : ℕ
  pub cached_tokens : Option ℕ
  pub cache_creation_input_tokens : Option ℕ

-- `CompletionUsage`
pub record CompletionUsage : Type 0 where
  pub credits : CreditReport
  pub tokens : TokenUsage

-- `usageFor`
unfoldable pub usage_for : Usage → TokenUsage
usage_for u = record {
  prompt_tokens = u.input_tokens;
  completion_tokens = u.output_tokens;
  total_tokens = u.input_tokens + u.output_tokens;
  cached_tokens = if u.cache_read_reported then some u.cache_read_tokens else none;
  cache_creation_input_tokens = if u.cache_write_reported then some u.cache_write_tokens else none;
}

-- `billing.apply(usageFor(u))`
abbrev pub billed : Text → Tally → Usage → CompletionUsage
billed fresh b u = record { credits = (apply fresh b).1; tokens = usage_for u }

-- `resolvedModel`
unfoldable pub resolved_model : Text → Text → Text
resolved_model actual requested = if not (actual == []) then actual else requested

-- `finishReasonForTurn`
unfoldable pub finish_reason_for_turn : Text → ℕ → Text
finish_reason_for_turn reason tool_calls =
    if ltb 0 tool_calls then codes "tool_calls" else if reason == [] then codes "stop" else reason

-- `ChatCompletion` with its one choice
pub record ChatCompletion : Type 0 where
  pub id : Text
  pub created : ℕ
  pub model : Text
  pub role : Text
  pub content : Option Text
  pub reasoning_content : Text
  pub tool_calls : List Json
  pub finish_reason : Text
  pub usage : CompletionUsage

-- What is drawn or read when an answer is built: identifiers and the time.
pub record Fresh : Type 0 where
  pub completion_id : Text
  pub report_id : Text
  pub now : ℕ

-- `chatBlocking`, after `smolllm.Ask` has answered
unfoldable pub chat_blocking : Fresh → Tally → Text → Reply → ChatCompletion
chat_blocking fresh billing requested resp = record {
  id = fresh.completion_id;
  created = fresh.now;
  model = resolved_model resp.model requested;
  role = codes "assistant";
  content =
      if not (resp.text == []) || eqb (length resp.tool_calls) 0 then some resp.text else none;
  reasoning_content = resp.reasoning;
  tool_calls = resp.tool_calls;
  finish_reason = finish_reason_for_turn resp.finish_reason (length resp.tool_calls);
  usage = billed fresh.report_id billing resp.usage;
}

-- `DeltaToolCall`
pub record DeltaToolCall : Type 0 where
  pub index : ℕ
  pub call : Json

-- `ChatDelta`
pub record Delta : Type 0 where
  pub role : Text
  pub content : Text
  pub reasoning_content : Text
  pub tool_calls : List DeltaToolCall

-- `ChatChoiceDelta`, always at index 0
pub record Choice : Type 0 where
  pub delta : Delta
  pub finish_reason : Option Text

-- `ChatCompletionChunk`; the error is the message of an `api_error`
pub record Chunk : Type 0 where
  pub id : Text
  pub created : ℕ
  pub model : Text
  pub choices : List Choice
  pub usage : Option CompletionUsage
  pub error : Option Text

-- one `data:` line of the response
pub data Frame : Type 0 where
  chunk : Chunk → Frame
  done : Frame

abbrev empty_delta : Delta
empty_delta = record { role = []; content = []; reasoning_content = []; tool_calls = [] }

-- `deltas`
unfoldable pub indexed : ℕ → List Json → List DeltaToolCall
indexed i [] = []
indexed i (c ∷ cs) = record { index = i; call = c } ∷ indexed (i + 1) cs

module _ (fresh : Fresh) (model : Text) where
  abbrev plain_chunk : List Choice → Chunk
  plain_chunk choices = record {
    id = fresh.completion_id;
    created = fresh.now;
    model = model;
    choices = choices;
    usage = none;
    error = none;
  }

  abbrev delta_frame : Delta → Frame
  delta_frame d = chunk (plain_chunk (record { delta = d; finish_reason = none } ∷ []))

  abbrev finish_choice : Text → List Choice
  finish_choice reason = record { delta = empty_delta; finish_reason = some reason } ∷ []

  abbrev role_frame : Frame
  role_frame = delta_frame (record empty_delta { role = codes "assistant" })

  abbrev piece_frame : Text → Text → Frame
  piece_frame c r = delta_frame (record empty_delta { content = c; reasoning_content = r })

  abbrev pub tools_frame : List Json → Frame
  tools_frame calls = delta_frame (record empty_delta { tool_calls = indexed 0 calls })

  abbrev finish_frame : Text → Frame
  finish_frame reason = chunk (plain_chunk (finish_choice reason))

  abbrev error_frame : Text → Frame
  error_frame m =
      let c = plain_chunk (finish_choice (codes "error")) in chunk (record c { error = some m })

  -- `writeUsageFrame`
  unfoldable pub usage_frames : Bool → Tally → Usage → List Frame
  usage_frames include billing u =
      let c = plain_chunk [] in
      if not include
      then []
      else chunk (record c { usage = some (billed fresh.report_id billing u) }) ∷ []

  -- what follows the stream, by the error of `Wait`
  unfoldable pub ending : Bool → Tally → StreamReply → Option Failure → List Frame
  unfolding usage_frames
  ending include billing s (some e) =
      error_frame (Upstream.message e) ∷ (usage_frames include billing s.usage ++ done ∷ [])
  ending include billing s none =
      let reason = finish_reason_for_turn s.finish_reason (length s.tool_calls) in
      (if ltb 0 (length s.tool_calls) then tools_frame s.tool_calls ∷ [] else [])
      ++ (finish_frame reason ∷ (usage_frames include billing s.usage ++ done ∷ []))

  -- `streamLoop` and what follows it
  unfoldable pub stream_loop : Bool → Tally → StreamReply → List StreamEvent → List Frame
  unfolding ending
  stream_loop include billing s [] = ending include billing s s.failure
  stream_loop include billing s (client_gone ∷ es) = []
  stream_loop include billing s (piece c r ∷ es) =
      let rest = stream_loop include billing s es in
      if c == [] && r == [] then rest else piece_frame c r ∷ rest

-- `chatStream`, after `smolllm.Stream` has answered: the frames written
unfoldable pub chat_stream : Fresh → Bool → Tally → StreamReply → List Frame
unfolding stream_loop
chat_stream fresh include billing s =
    role_frame fresh s.model ∷ stream_loop fresh s.model include billing s s.events
