-- ===== src/Tests/Wiring.antt =====
-- Examples of the theorems on the answers as they are sent.
use smolllm_server.Base.{◌≡◌, refl, true, some, [], ◌∷◌, All, codes}
use smolllm_server.Chat.{chat_stream, chat_blocking}
use smolllm_server.Credit.{new_tally}
use smolllm_server.Json.{num, obj, member, end}
use smolllm_server.Tests.{reply, streamed}
use smolllm_server.Tests.Handling.{fresh}
use smolllm_server.Upstream.{StreamReply}
use smolllm_server.Wire.Answers.{read_completion, read_completion-completion_json}
use smolllm_server.Wire.Bodies.{completion_json}
use smolllm_server.Wire.Events.{read_events, stream_text, payloads}
use smolllm_server.Wire.Streams.{
  ReadsAsWritten, chat_stream-ReadsAsWritten, read_events-stream_text,
}

-- a stream with a call that is an object
abbrev calling : StreamReply
calling = record streamed { tool_calls = obj (member (codes "id") (num (codes "7")) end) ∷ [] }

chat_stream-ReadsAsWritten_example : All ReadsAsWritten (chat_stream fresh true new_tally calling)
chat_stream-ReadsAsWritten_example = chat_stream-ReadsAsWritten fresh true new_tally calling

read_events-stream_text_example :
    read_events (stream_text (chat_stream fresh true new_tally calling))
    ≡ payloads (chat_stream fresh true new_tally calling)
read_events-stream_text_example =
    read_events-stream_text fresh true new_tally calling ((refl, tt), tt)

read_completion-completion_json_example :
    read_completion (completion_json (chat_blocking fresh new_tally (codes "fast") reply))
    ≡ some (chat_blocking fresh new_tally (codes "fast") reply)
read_completion-completion_json_example =
    read_completion-completion_json fresh new_tally (codes "fast") reply
