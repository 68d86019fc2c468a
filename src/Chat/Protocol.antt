-- ===== src/Chat/Protocol.antt =====
-- internal/server/chat.go: the order of the frames of a streamed answer.
use smolllm_server.Base.{
  ◌≡◌, refl, Bool, true, false, not, ◌&&◌, Option, none, some, List, [], ◌∷◌, if◌then◌else◌, ◌==◌,
  text_eq, text_discrete, Text, codes, arith, all,
}
use smolllm_server.Chat.{Fresh, Chunk, Frame, chunk, done, chat_stream, stream_loop, ending}
use smolllm_server.Credit.{Tally}
use smolllm_server.Upstream.{StreamReply, StreamEvent, piece, client_gone, Failure}

abbrev pub finish_of : Chunk → Option Text
finish_of c = elim c.choices [ [] ↦ none | d ∷ _ ↦ d.finish_reason ]

abbrev is_some {ℓ} : {A : Type ℓ} → Option A → Bool
is_some none = false
is_some (some _) = true

abbrev has_choice : Chunk → Bool
has_choice c = elim c.choices [ [] ↦ false | _ ∷ _ ↦ true ]

-- a frame that carries a piece of the answer and nothing of its end
abbrev pub is_delta : Chunk → Bool
is_delta c =
    has_choice c && not (is_some (finish_of c)) && not (is_some c.usage) && not (is_some c.error)

abbrev pub names_role : Chunk → Bool
names_role c = elim c.choices [ [] ↦ false | d ∷ _ ↦ d.delta.role == codes "assistant" ]

-- a frame with no choice that carries the usage
abbrev pub is_usage : Chunk → Bool
is_usage c = not (has_choice c) && is_some c.usage

-- where a client stands in a stream
pub data Phase : Type 0 where
  opening body finished closing ended : Phase

-- one frame in a phase; `none` is a frame out of order
unfoldable pub advance : Bool → Phase → Frame → Option Phase
advance include opening (chunk c) = if names_role c && is_delta c then some body else none
advance include body (chunk c) =
    if is_some (finish_of c) && not (is_some c.usage)
    then some (if include then finished else closing)
    else if is_delta c
    then some body
    else none
advance include finished (chunk c) = if is_usage c then some closing else none
advance include closing done = some ended
advance _ _ _ = none

-- the phase after some frames
unfoldable pub follow : Bool → Phase → List Frame → Option Phase
unfolding advance
follow include p [] = some p
follow include p (f ∷ fs) = elim (advance include p f) [
  | none ↦ none
  | some q ↦ follow include q fs
]

abbrev pub stays : StreamEvent → Bool
stays client_gone = false
stays (piece _ _) = true

module _ (fresh : Fresh) (include : Bool) (billing : Tally) (s : StreamReply) where
  follow-ending :
      (o : Option Failure)
      → follow include body (ending fresh s.model include billing s o) ≡ some ended
  unfolding follow ending
  follow-ending (some e) = ground arith
  follow-ending none = ground arith

  follow-stream_loop :
      (es : List StreamEvent)
      → all stays es ≡ true
      → follow include body (stream_loop fresh s.model include billing s es) ≡ some ended
  unfolding follow stream_loop
  follow-stream_loop [] h = follow-ending s.failure
  follow-stream_loop (client_gone ∷ es) h = cc
  follow-stream_loop (piece c r ∷ es) h = ground (arith, follow-stream_loop es h)

  -- If the client stays, the frames of a stream come in order, whether the turn succeeds or fails:
  -- one that names the role, any number that carry pieces, exactly one with a finish reason, the
  -- usage exactly if it was asked for, and last the closing frame, which is sent once.
  pub chat_stream-follow :
      all stays s.events ≡ true
      → follow include opening (chat_stream fresh include billing s) ≡ some ended
  unfolding follow chat_stream text_discrete
  chat_stream-follow h = follow-stream_loop s.events h

  follow_gone :
      (es : List StreamEvent)
      → all stays es ≡ false
      → follow include body (stream_loop fresh s.model include billing s es) ≡ some body
  unfolding follow stream_loop
  follow_gone [] h = cc
  follow_gone (client_gone ∷ es) h = refl
  follow_gone (piece c r ∷ es) h = ground (arith, follow_gone es h)

  -- If the client leaves while the stream runs, the frames written stop among the pieces: there is
  -- no finish reason, no usage and no closing frame.
  pub chat_stream_gone :
      all stays s.events ≡ false
      → follow include opening (chat_stream fresh include billing s) ≡ some body
  unfolding follow chat_stream text_discrete
  chat_stream_gone h = follow_gone s.events h
