-- ===== src/Wire/Sound.antt =====
-- internal/server/chat.go: the calls and the credits in the frames of a streamed answer.
use smolllm_server.Base.{
  ℕ, ◌+◌, Bool, true, false, ◌&&◌, Option, none, some, List, [], ◌∷◌, Text, ltb, ◌==◌, text_eq,
  length, All, All-append, Bool-cases, inl, inr,
}
use smolllm_server.Chat.{
  DeltaToolCall, Choice, Frame, chunk, done, Fresh, indexed, usage_frames, ending, stream_loop,
  chat_stream,
}
use smolllm_server.Credit.{Tally}
use smolllm_server.Json.{Json}
use smolllm_server.Upstream.{StreamReply, StreamEvent, piece, client_gone, Failure, Usage}
use smolllm_server.Wire.Chunks.{HasDecimals}
use smolllm_server.Wire.Credits.{apply-HasDecimal}

module _ (Q : Json → Type 0) where
  -- the calls of a frame have a property, and its credit is a decimal
  abbrev pub IsSound : Frame → Type 0
  IsSound done = Unit {0}
  IsSound (chunk c) =
      All (λ (i : Choice). All (λ (d : DeltaToolCall). Q d.call) i.delta.tool_calls) c.choices
      × HasDecimals c.usage

  indexed-All :
      (i : ℕ) (calls : List Json)
      → All Q calls
      → All (λ (d : DeltaToolCall). Q d.call) (indexed i calls)
  unfolding indexed
  indexed-All i [] h = tt
  indexed-All i (c ∷ cs) (h, hs) = (h, indexed-All (i + 1) cs hs)

  usage_frames-IsSound :
      (fresh : Fresh) (model : Text) (include : Bool) (b : Tally) (u : Usage)
      → All IsSound (usage_frames fresh model include b u)
  unfolding usage_frames
  usage_frames-IsSound fresh model true b u = ((tt, apply-HasDecimal fresh.report_id b), tt)
  usage_frames-IsSound fresh model false b u = tt

  ending-IsSound :
      (fresh : Fresh) (model : Text) (include : Bool) (b : Tally) (s : StreamReply)
      (f : Option Failure)
      → All Q s.tool_calls
      → All IsSound (ending fresh model include b s f)
  unfolding ending
  ending-IsSound fresh model include b s (some e) h = (
    ((tt, tt), tt),
    All-append IsSound _ _ (usage_frames-IsSound fresh model include b s.usage) (tt, tt),
  )
  ending-IsSound fresh model include b s none h =
      let last =
        All-append IsSound (usage_frames fresh model include b s.usage) (done ∷ [])
          (usage_frames-IsSound fresh model include b s.usage) (tt, tt) in
      elim (Bool-cases (ltb 0 (length s.tool_calls))) [
        | inl called ↦ rw called (((indexed-All 0 s.tool_calls h, tt), tt), (((tt, tt), tt), last))
        | inr silent ↦ rw silent (((tt, tt), tt), last)
      ]

  stream_loop-IsSound :
      (fresh : Fresh) (model : Text) (include : Bool) (b : Tally) (s : StreamReply)
      (es : List StreamEvent)
      → All Q s.tool_calls
      → All IsSound (stream_loop fresh model include b s es)
  unfolding stream_loop
  stream_loop-IsSound fresh model include b s [] h =
      ending-IsSound fresh model include b s s.failure h
  stream_loop-IsSound fresh model include b s (client_gone ∷ es) h = tt
  stream_loop-IsSound fresh model include b s (piece c r ∷ es) h =
      elim (Bool-cases (c == [] && r == [])) [
        | inl blank ↦ rw blank (stream_loop-IsSound fresh model include b s es h)
        | inr full ↦ rw full (((tt, tt), tt), stream_loop-IsSound fresh model include b s es h)
      ]

  pub chat_stream-IsSound :
      (fresh : Fresh) (include : Bool) (b : Tally) (s : StreamReply)
      → All Q s.tool_calls
      → All IsSound (chat_stream fresh include b s)
  unfolding chat_stream
  chat_stream-IsSound fresh include b s h =
      (((tt, tt), tt), stream_loop-IsSound fresh s.model include b s s.events h)
