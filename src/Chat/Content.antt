-- ===== src/Chat/Content.antt =====
-- internal/server/chat.go: what the frames of a streamed answer add up to, for a client that puts
-- them together, against the blocking answer.
use smolllm_server.Base.{
  ℕ, ◌+◌, sym, text_discrete, ◌≡◌, refl, ap, ap₂, ◌∙◌, Bool, true, Option, none, some, List, [],
  ◌∷◌, ◌++◌, if◌then◌else◌, text_eq, Text, codes, arith, length, all, append-nil, ◌⊎◌, inl, inr,
}
use smolllm_server.Chat.{
  Fresh, Choice, Frame, chunk, done, chat_stream, stream_loop, ending, indexed, DeltaToolCall,
  chat_blocking, finish_reason_for_turn, CompletionUsage, billed,
}
use smolllm_server.Chat.Protocol.{stays, finish_of}
use smolllm_server.Credit.{Tally}
use smolllm_server.Json.{Json}
use smolllm_server.Upstream.{StreamReply, StreamEvent, piece, client_gone, Failure, Reply}

abbrev deltas_content : List Choice → Text
deltas_content [] = []
deltas_content (c ∷ cs) = c.delta.content ++ deltas_content cs

abbrev deltas_reasoning : List Choice → Text
deltas_reasoning [] = []
deltas_reasoning (c ∷ cs) = c.delta.reasoning_content ++ deltas_reasoning cs

abbrev deltas_calls : List Choice → List DeltaToolCall
deltas_calls [] = []
deltas_calls (c ∷ cs) = c.delta.tool_calls ++ deltas_calls cs

-- what a client has put together: the text, the reasoning, the tool calls, and of the last frame
-- that says so the finish reason and the usage
unfoldable pub content_of : List Frame → Text
content_of [] = []
content_of (done ∷ fs) = content_of fs
content_of (chunk c ∷ fs) = deltas_content c.choices ++ content_of fs

unfoldable pub reasoning_of : List Frame → Text
reasoning_of [] = []
reasoning_of (done ∷ fs) = reasoning_of fs
reasoning_of (chunk c ∷ fs) = deltas_reasoning c.choices ++ reasoning_of fs

unfoldable pub calls_of : List Frame → List DeltaToolCall
calls_of [] = []
calls_of (done ∷ fs) = calls_of fs
calls_of (chunk c ∷ fs) = deltas_calls c.choices ++ calls_of fs

abbrev or_else {ℓ} : {A : Type ℓ} → Option A → Option A → Option A
or_else none b = b
or_else (some a) b = some a

unfoldable pub reason_of : List Frame → Option Text
reason_of [] = none
reason_of (done ∷ fs) = reason_of fs
reason_of (chunk c ∷ fs) = or_else (finish_of c) (reason_of fs)

unfoldable pub usage_of : List Frame → Option CompletionUsage
usage_of [] = none
usage_of (done ∷ fs) = usage_of fs
usage_of (chunk c ∷ fs) = or_else c.usage (usage_of fs)

unfoldable pub streamed_content : List StreamEvent → Text
streamed_content [] = []
streamed_content (client_gone ∷ es) = []
streamed_content (piece c r ∷ es) = c ++ streamed_content es

unfoldable pub streamed_reasoning : List StreamEvent → Text
streamed_reasoning [] = []
streamed_reasoning (client_gone ∷ es) = []
streamed_reasoning (piece c r ∷ es) = r ++ streamed_reasoning es

-- the calls of a turn with their places, from a place on
unfoldable pub placed : ℕ → List Json → List DeltaToolCall
placed i [] = []
placed i (c ∷ cs) = record { index = i; call = c } ∷ placed (i + 1) cs

placed-indexed : (i : ℕ) (cs : List Json) → indexed i cs ≡ placed i cs
unfolding indexed placed
placed-indexed i [] = refl
placed-indexed i (c ∷ cs) = rw (placed-indexed (i + 1) cs) refl

-- why a turn that succeeds ends: for its tool calls, for what the provider says, or by itself
abbrev pub reason_of_turn : Text → List Json → Text
reason_of_turn reason (c ∷ cs) = codes "tool_calls"
reason_of_turn [] [] = codes "stop"
reason_of_turn (c ∷ reason) [] = c ∷ reason

reason_of_turn-finish_reason :
    (reason : Text) (cs : List Json)
    → finish_reason_for_turn reason (length cs) ≡ reason_of_turn reason cs
unfolding finish_reason_for_turn text_discrete
reason_of_turn-finish_reason [] [] = refl
reason_of_turn-finish_reason (c ∷ reason) [] = refl
reason_of_turn-finish_reason [] (c ∷ cs) = ground arith
reason_of_turn-finish_reason (d ∷ reason) (c ∷ cs) = ground arith

abbrev pub calls_at_end : Option Failure → StreamReply → List DeltaToolCall
calls_at_end (some _) s = []
calls_at_end none s = placed 0 s.tool_calls

abbrev pub reason_at_end : Option Failure → StreamReply → Text
reason_at_end (some _) s = codes "error"
reason_at_end none s = reason_of_turn s.finish_reason s.tool_calls

abbrev pub get_or : Option Text → Text → Text
get_or none d = d
get_or (some t) d = t

calls_cases : (l : List Json) → (l ≡ []) ⊎ ((c : Json) × (cs : List Json) × (l ≡ c ∷ cs))
calls_cases [] = inl refl
calls_cases (c ∷ cs) = inr (c, cs, refl)

module _ (fresh : Fresh) (include : Bool) (billing : Tally) (s : StreamReply) where
  ending-content : (o : Option Failure) → content_of (ending fresh s.model include billing s o) ≡ []
  unfolding content_of ending
  ending-content (some e) = ground arith
  ending-content none = ground arith

  ending-reasoning :
      (o : Option Failure) → reasoning_of (ending fresh s.model include billing s o) ≡ []
  unfolding reasoning_of ending
  ending-reasoning (some e) = ground arith
  ending-reasoning none = ground arith

  loop-content :
      (es : List StreamEvent)
      → content_of (stream_loop fresh s.model include billing s es) ≡ streamed_content es
  unfolding content_of stream_loop streamed_content
  loop-content [] = ending-content s.failure
  loop-content (client_gone ∷ es) = refl
  loop-content (piece c r ∷ es) = ground (arith, append-nil c, loop-content es)

  loop-reasoning :
      (es : List StreamEvent)
      → reasoning_of (stream_loop fresh s.model include billing s es) ≡ streamed_reasoning es
  unfolding reasoning_of stream_loop streamed_reasoning
  loop-reasoning [] = ending-reasoning s.failure
  loop-reasoning (client_gone ∷ es) = refl
  loop-reasoning (piece c r ∷ es) = ground (arith, append-nil r, loop-reasoning es)

  -- What a client reads off the end of a stream, by the error of the stream.
  abbrev Ends : Option Failure → List Frame → Type 0
  Ends o fs =
      (calls_of fs ≡ calls_at_end o s)
      × (reason_of fs ≡ some (reason_at_end o s))
      × (usage_of fs ≡ (if include then some (billed fresh.report_id billing s.usage) else none))

  ending-Ends : (o : Option Failure) → Ends o (ending fresh s.model include billing s o)
  unfolding ending calls_of reason_of usage_of indexed
  ending-Ends (some e) = ground arith
  ending-Ends none =
      rw
        (
          ← placed-indexed 0 s.tool_calls,
          ← reason_of_turn-finish_reason s.finish_reason s.tool_calls,
        )
        (elim (calls_cases s.tool_calls) [
          | inl empty ↦ rw (empty, ending) (ground arith)
          | inr (c, cs, more) ↦ rw (more, ending) (ground (arith, append-nil (indexed 1 cs)))
        ])

  loop-Ends :
      (es : List StreamEvent)
      → all stays es ≡ true
      → Ends s.failure (stream_loop fresh s.model include billing s es)
  unfolding stream_loop calls_of reason_of usage_of
  loop-Ends [] h = ending-Ends s.failure
  loop-Ends (client_gone ∷ es) h = cc
  loop-Ends (piece c r ∷ es) h = ground (arith, loop-Ends es h)

  -- If the client stays, what it puts together from the frames is what the provider sent: the text
  -- and the reasoning in order and nothing else; of a turn that succeeds the tool calls with their
  -- positions and the finish reason, "tool_calls" if there are any, else the provider's or "stop", of a turn that fails no calls and "error"; and the billed usage
  -- exactly if it asked for it, on both.
  pub chat_stream-content :
      all stays s.events ≡ true
      → (content_of (chat_stream fresh include billing s) ≡ streamed_content s.events)
        × (reasoning_of (chat_stream fresh include billing s) ≡ streamed_reasoning s.events)
        × (calls_of (chat_stream fresh include billing s) ≡ calls_at_end s.failure s)
        × (reason_of (chat_stream fresh include billing s) ≡ some (reason_at_end s.failure s))
        × (usage_of (chat_stream fresh include billing s)
            ≡ (if include then some (billed fresh.report_id billing s.usage) else none))
  unfolding chat_stream content_of reasoning_of calls_of reason_of usage_of
  chat_stream-content h =
      let e = loop-Ends s.events h in
      (loop-content s.events, loop-reasoning s.events, e.0, e.1, e.2)

-- The stream `s`, whose client stays, and the answer `a` are one turn that succeeds.
pub record SameTurn (s : StreamReply) (a : Reply) : Type 0 where
  pub stay : all stays s.events ≡ true
  pub success : s.failure ≡ none
  pub text : streamed_content s.events ≡ a.text
  pub reasoning : streamed_reasoning s.events ≡ a.reasoning
  pub calls : s.tool_calls ≡ a.tool_calls
  pub reason : s.finish_reason ≡ a.finish_reason
  pub usage : s.usage ≡ a.usage

-- The blocking answer and the frames of a completed stream of the same turn tell the client the
-- same: text, reasoning, tool calls, finish reason and usage.
pub chat_stream-chat_blocking :
    (fresh : Fresh) (billing : Tally) (requested : Text) (s : StreamReply) (a : Reply)
    → SameTurn s a
    → let frames = chat_stream fresh true billing s in
      let answer = chat_blocking fresh billing requested a in
      (content_of frames ≡ get_or answer.content [])
      × (reasoning_of frames ≡ answer.reasoning_content)
      × (calls_of frames ≡ indexed 0 answer.tool_calls)
      × (reason_of frames ≡ some answer.finish_reason)
      × (usage_of frames ≡ some answer.usage)
unfolding chat_blocking
chat_stream-chat_blocking fresh billing requested s a t =
    let c = chat_stream-content fresh true billing s t.stay in
    (
      c.0 ∙ t.text ∙ ground arith,
      c.1 ∙ t.reasoning,
      c.2
          ∙ ap (λ o. calls_at_end o s) t.success
          ∙ ap (placed 0) t.calls
          ∙ sym (placed-indexed 0 a.tool_calls),
      c.3
          ∙ ap (λ o. some (reason_at_end o s)) t.success
          ∙ ap₂ (λ r l. some (reason_of_turn r l)) t.reason t.calls
          ∙ ap some (sym (reason_of_turn-finish_reason a.finish_reason a.tool_calls)),
      c.4 ∙ ap (λ u. some (billed fresh.report_id billing u)) t.usage,
    )
