-- ===== src/Wire/Streams.antt =====
-- internal/server/chat.go: the frames of a streamed answer on the wire.
use smolllm_server.Base.{
  Option, none, false, ◌≡◌, refl, Bool, true, some, List, [], ◌∷◌, Text, text_eq, and_then-eq-some,
  some-inj, subst, All, All-map, All-of, Option-cases, inl, inr,
}
use smolllm_server.Chat.{Chunk, Frame, chunk, done, Fresh, chat_stream}
use smolllm_server.Credit.{Tally}
use smolllm_server.Upstream.{StreamReply}
use smolllm_server.Wire.{marshal_chunk, marshal_choices, chunk_json}
use smolllm_server.Wire.Calls.{has_objects, Pairwise, CarriesCalls, marshal_choices-none}
use smolllm_server.Wire.Chunks.{forget_calls, read_chunk-chunk_json}
use smolllm_server.Wire.Encode.{json_text}
use smolllm_server.Wire.Encode.Frames.{chunk_json-HasLiterals}
use smolllm_server.Wire.Encode.Lines.{is_plain, HasLiterals, is_plain-json_text}
use smolllm_server.Wire.Encode.Literals.{marshal_choices-ChoiceLiterals}
use smolllm_server.Wire.Events.{payload, payloads, stream_text, read_events}
use smolllm_server.Wire.Events.Framed.{read_events-write_all}
use smolllm_server.Wire.Read.{read_chunk}
use smolllm_server.Wire.Sound.{IsSound, chat_stream-IsSound}

-- a frame that is written is read as such, with all that the frame has; one that is not written has a
-- call that is no object
abbrev pub IsWrittenAs : Chunk → Option Chunk → Type 0
IsWrittenAs c none = has_objects c.choices ≡ false
IsWrittenAs c (some written) =
    (read_chunk (chunk_json written) ≡ some written)
    × (forget_calls written ≡ forget_calls c)
    × Pairwise CarriesCalls c.choices written.choices

abbrev pub ReadsAsWritten : Frame → Type 0
ReadsAsWritten done = Unit {0}
ReadsAsWritten (chunk c) = IsWrittenAs c (marshal_chunk c)

marshal_chunk-none : (c : Chunk) → marshal_chunk c ≡ none → has_objects c.choices ≡ false
unfolding marshal_chunk
marshal_chunk-none c h = elim (Option-cases (marshal_choices c.choices)) [
  | inl bad ↦ marshal_choices-none c.choices bad
  | inr (choices, good) ↦ cc (rw good at h)
]

frame-ReadsAsWritten : (f : Frame) → IsSound (λ j. Unit {0}) f → ReadsAsWritten f
frame-ReadsAsWritten done h = tt
frame-ReadsAsWritten (chunk c) (_, h) = elim (Option-cases (marshal_chunk c)) [
  | inl skipped ↦ rw skipped (marshal_chunk-none c skipped)
  | inr (written, wrote) ↦ rw wrote (read_chunk-chunk_json c h wrote)
]

-- A client that reads the frames of a streamed answer by the names of their fields finds in each of them
-- all that was put into it, although empty fields are left out: the identifier, the time, the model, each
-- choice with its role, text, reasoning, finish reason and calls, the usage with its exact credits, and
-- the error. The calls are in order, each with its position as `index` and with the value that it has
-- under every other name. Only a frame with a call that is no object is not written at all.
pub chat_stream-ReadsAsWritten :
    (fresh : Fresh) (include : Bool) (b : Tally) (s : StreamReply)
    → All ReadsAsWritten (chat_stream fresh include b s)
chat_stream-ReadsAsWritten fresh include b s =
    All-map frame-ReadsAsWritten (chat_stream fresh include b s) (
      chat_stream-IsSound (λ j. Unit {0}) fresh include b s
        (All-of (λ j. Unit {0}) (λ j. tt) s.tool_calls))

payload-is_plain :
    (f : Frame) {p : Text} → IsSound HasLiterals f → payload f ≡ some p → is_plain p ≡ true
unfolding payload marshal_chunk
payload-is_plain done h e = subst (λ p. is_plain p ≡ true) (some-inj e) refl
payload-is_plain (chunk c) (h, _) e =
    let (w, m, p) = and_then-eq-some (marshal_chunk c) _ e in
    let (choices, encoded, whole) = and_then-eq-some (marshal_choices c.choices) _ m in
    let literals = marshal_choices-ChoiceLiterals c.choices h encoded in
    let written : Chunk = record c { choices = choices } in
    let same : written ≡ w = some-inj whole in
    subst (λ t. is_plain t ≡ true) (some-inj p)
      (subst (λ v. is_plain (json_text (chunk_json v)) ≡ true) same
        (is_plain-json_text (chunk_json written) (chunk_json-HasLiterals written literals)))

payloads-is_plain :
    (fs : List Frame) → All (IsSound HasLiterals) fs → All (λ p. is_plain p ≡ true) (payloads fs)
unfolding payloads
payloads-is_plain [] h = tt
payloads-is_plain (f ∷ fs) (h, hs) = elim (Option-cases (payload f)) [
  | inl skipped ↦ rw skipped (payloads-is_plain fs hs)
  | inr (p, wrote) ↦ rw wrote (payload-is_plain f h wrote, payloads-is_plain fs hs)
]

-- The body of a streamed answer is taken apart by a client into exactly the texts that were written, one
-- event for each frame that can be encoded, in order: no text of a provider, whatever it holds, breaks
-- an event or makes one up, if the number literals in the encoded tool calls have no control characters.
pub read_events-stream_text :
    (fresh : Fresh) (include : Bool) (b : Tally) (s : StreamReply)
    → All HasLiterals s.tool_calls
    → read_events (stream_text (chat_stream fresh include b s))
      ≡ payloads (chat_stream fresh include b s)
read_events-stream_text fresh include b s h =
    read_events-write_all (payloads (chat_stream fresh include b s)) (
      payloads-is_plain (chat_stream fresh include b s)
        (chat_stream-IsSound HasLiterals fresh include b s h))
