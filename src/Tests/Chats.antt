-- ===== src/Tests/Chats.antt =====
-- Examples of the theorems on chat answers.
use smolllm_server.Base.{◌≡◌, refl, true, none, some, [], ◌∷◌, codes}
use smolllm_server.Chat.{Fresh, chat_stream, chat_blocking, indexed, billed}
use smolllm_server.Chat.Content.{
  content_of, reasoning_of, calls_of, reason_of, usage_of, streamed_content, streamed_reasoning,
  calls_at_end, reason_at_end, get_or, SameTurn, chat_stream-content, chat_stream-chat_blocking,
}
use smolllm_server.Chat.Protocol.{opening, ended, follow, chat_stream-follow}
use smolllm_server.Credit.{new_tally}
use smolllm_server.Tests.{streamed, reply}
use smolllm_server.Upstream.{StreamReply, piece, client_gone}

abbrev fresh : Fresh
fresh = record { completion_id = codes "chatcmpl-1"; report_id = codes "r-1"; now = 7 }

chat_stream-follow_example :
    follow true opening (chat_stream fresh true new_tally streamed) ≡ some ended
chat_stream-follow_example = chat_stream-follow fresh true new_tally streamed refl

chat_stream-content_example :
    (content_of (chat_stream fresh true new_tally streamed) ≡ streamed_content streamed.events)
    × (reasoning_of (chat_stream fresh true new_tally streamed)
        ≡ streamed_reasoning streamed.events)
    × (calls_of (chat_stream fresh true new_tally streamed) ≡ calls_at_end none streamed)
    × (reason_of (chat_stream fresh true new_tally streamed) ≡ some (reason_at_end none streamed))
    × (usage_of (chat_stream fresh true new_tally streamed)
        ≡ some (billed fresh.report_id new_tally streamed.usage))
chat_stream-content_example = chat_stream-content fresh true new_tally streamed refl

same_turn : SameTurn streamed reply
unfolding streamed_content streamed_reasoning
same_turn = record {
  stay = refl;
  success = refl;
  text = refl;
  reasoning = refl;
  calls = refl;
  reason = refl;
  usage = refl;
}

chat_stream-chat_blocking_example :
    let frames = chat_stream fresh true new_tally streamed in
    let answer = chat_blocking fresh new_tally (codes "fast") reply in
    (content_of frames ≡ get_or answer.content [])
    × (reasoning_of frames ≡ answer.reasoning_content)
    × (calls_of frames ≡ indexed 0 answer.tool_calls)
    × (reason_of frames ≡ some answer.finish_reason)
    × (usage_of frames ≡ some answer.usage)
chat_stream-chat_blocking_example =
    chat_stream-chat_blocking fresh new_tally (codes "fast") streamed reply same_turn

abbrev left : StreamReply
left = record streamed { events = piece (codes "hel") [] ∷ client_gone ∷ [] }
