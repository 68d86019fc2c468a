-- ===== src/Chat/Finish.antt =====
-- internal/server/chat.go: `finishReasonForTurn`, `usageFor` and `resolvedModel`.
use smolllm_server.Base.{
  ℕ, ◌+◌, ◌<◌, ◌≡◌, ◌≢◌, ◌↔◌, ◌⊎◌, false, none, [], arith, text_eq, Text, codes, length_zero,
}
use smolllm_server.Chat.{finish_reason_for_turn, usage_for, chat_blocking, Fresh}
use smolllm_server.Credit.{Tally}
use smolllm_server.Upstream.{Reply}

-- A turn is reported as "tool_calls" exactly if it has tool calls or the provider says so itself, as
-- "stop" exactly if it has none and the provider says that or nothing, by the provider's own reason
-- where it has no calls and a reason, and never without a reason.
pub finish_reason_for_turn_cases :
    (reason : Text) (calls : ℕ)
    → let f = finish_reason_for_turn reason calls in
      ((f ≡ codes "tool_calls") ↔ ((0 < calls) ⊎ (reason ≡ codes "tool_calls")))
      × ((f ≡ codes "stop") ↔ ((calls ≡ 0) × ((reason ≡ []) ⊎ (reason ≡ codes "stop"))))
      × ((0 < calls) ⊎ (reason ≡ []) ⊎ (f ≡ reason))
      × (f ≢ [])
unfolding finish_reason_for_turn
finish_reason_for_turn_cases reason calls = ground arith

-- In a blocking answer the content is null exactly if there is no text and there are tool calls;
-- the cached tokens and the written tokens stand in the usage exactly if the provider reported them,
-- a reported zero included; and the total is the sum of the prompt and the completion.
pub chat_blocking_cases :
    (fresh : Fresh) (billing : Tally) (requested : Text) (a : Reply)
    → let answer = chat_blocking fresh billing requested a in
      ((answer.content ≡ none) ↔ ((a.text ≡ []) × (a.tool_calls ≢ [])))
      × ((answer.usage.tokens.cached_tokens ≡ none) ↔ (a.usage.cache_read_reported ≡ false))
      × ((answer.usage.tokens.cache_creation_input_tokens ≡ none)
          ↔ (a.usage.cache_write_reported ≡ false))
      × (answer.usage.tokens.total_tokens
          ≡ answer.usage.tokens.prompt_tokens + answer.usage.tokens.completion_tokens)
unfolding chat_blocking usage_for
chat_blocking_cases fresh billing requested a = ground (arith, length_zero a.tool_calls)
