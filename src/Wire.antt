-- ===== src/Wire.antt =====
-- internal/llm/types.go: what encoding/json makes of a streamed frame by the tags of its types, as a JSON
-- value. A tool call is the value that the library encodes it as. A client's way to read the values, and
-- the texts on the wire, stand in the modules below.
pub mod Fields
pub mod Read
pub mod Decimals
pub mod Usage
pub mod Calls
pub mod Chunks
pub mod Encode
pub mod Bodies
pub mod Answers
pub mod Events
pub mod Credits
pub mod Sound
pub mod Streams
use smolllm_server.Base.{
  ℕ, zero, suc, ◌-◌, and_then, Option, none, some, List, [], ◌∷◌, ◌++◌, map, Text, codes, decimal,
  length, replicate,
}
use smolllm_server.Chat.{CompletionUsage, DeltaToolCall, Delta, Choice, Chunk}
use smolllm_server.Chat.Indexed.{marshal_delta}
use smolllm_server.Credit.{Decimal}
use smolllm_server.Json.{
  Json, null, bool, num, str, arr, obj, Items, nil, cons, Members, end, member,
}

-- the fields of a struct, in order; none where `omitempty` leaves one out
abbrev pub Fields : Type 0
Fields = List (Text × Option Json)

unfoldable pub present : Fields → Members
present [] = end
present ((k, none) ∷ fs) = present fs
present ((k, some v) ∷ fs) = member k v (present fs)

abbrev pub struct : Fields → Json
struct fs = obj (present fs)

abbrev pub int : ℕ → Json
int n = num (decimal n)

abbrev pub array : List Json → Items
array [] = nil
array (v ∷ vs) = cons v (array vs)

-- `omitempty` at a string, at a slice and at a pointer
abbrev pub unless_empty : Text → Option Json
unless_empty [] = none
unless_empty (c ∷ s) = some (str (c ∷ s))

abbrev pub unless_no_items : List Json → Option Json
unless_no_items [] = none
unless_no_items (v ∷ vs) = some (arr (array (v ∷ vs)))

abbrev pub unless_nil {ℓ} : {A : Type ℓ} → (A → Json) → Option A → Option Json
unless_nil f none = none
unless_nil f (some a) = some (f a)

-- a pointer without `omitempty`
abbrev pub or_null : Option Text → Json
or_null none = null
or_null (some s) = str s

-- `Rat.FloatString` as a text
abbrev padded : ℕ → Text → Text
padded places digits = replicate (places - length digits) b'0' ++ digits

abbrev pub point : ℕ
point = b'.'

unfoldable pub decimal_text : Decimal → Text
decimal_text d = elim d.places [
  | zero ↦ decimal d.whole
  | suc n ↦ decimal d.whole ++ (point ∷ padded (suc n) (decimal d.fraction))
]

-- `CompletionUsage`
abbrev pub usage_fields : CompletionUsage → Fields
usage_fields u =
    (codes "credit", unless_nil (λ d. num (decimal_text d)) u.credits.credit)
    ∷ (codes "credit_report_id", unless_empty u.credits.report_id)
    ∷ (codes "credit_complete", some (bool u.credits.complete))
    ∷ (codes "credit_attempts", some (int u.credits.attempts))
    ∷ (codes "credit_known_attempts", some (int u.credits.known_attempts))
    ∷ (codes "prompt_tokens", some (int u.tokens.prompt_tokens))
    ∷ (codes "completion_tokens", some (int u.tokens.completion_tokens))
    ∷ (codes "total_tokens", some (int u.tokens.total_tokens))
    ∷ (
      codes "prompt_tokens_details",
      unless_nil (λ n. struct ((codes "cached_tokens", some (int n)) ∷ [])) u.tokens.cached_tokens,
    )
    ∷ (codes "cache_creation_input_tokens", unless_nil int u.tokens.cache_creation_input_tokens)
    ∷ []

unfoldable pub usage_json : CompletionUsage → Json
usage_json u = struct (usage_fields u)

-- `ChatDelta`
abbrev pub delta_fields : Delta → Fields
delta_fields d =
    (codes "role", unless_empty d.role)
    ∷ (codes "content", unless_empty d.content)
    ∷ (codes "reasoning_content", unless_empty d.reasoning_content)
    ∷ (codes "tool_calls", unless_no_items (map (λ (c : DeltaToolCall). c.call) d.tool_calls))
    ∷ []

unfoldable pub delta_json : Delta → Json
delta_json d = struct (delta_fields d)

-- `ChatChoiceDelta`
abbrev pub choice_fields : Choice → Fields
choice_fields c =
    (codes "index", some (int 0))
    ∷ (codes "delta", some (delta_json c.delta))
    ∷ (codes "finish_reason", some (or_null c.finish_reason))
    ∷ []

unfoldable pub choice_json : Choice → Json
choice_json c = struct (choice_fields c)

-- `ChatStreamError`
abbrev pub stream_error_json : Text → Json
stream_error_json m =
    struct ((codes "message", some (str m)) ∷ (codes "type", some (str (codes "api_error"))) ∷ [])

-- `ChatCompletionChunk`, of which every tool call is already what `MarshalJSON` makes of it
abbrev pub chunk_fields : Chunk → Fields
chunk_fields c =
    (codes "id", some (str c.id))
    ∷ (codes "object", some (str (codes "chat.completion.chunk")))
    ∷ (codes "created", some (int c.created))
    ∷ (codes "model", some (str c.model))
    ∷ (codes "choices", some (arr (array (map choice_json c.choices))))
    ∷ (codes "usage", unless_nil usage_json c.usage)
    ∷ (codes "error", unless_nil stream_error_json c.error)
    ∷ []

unfoldable pub chunk_json : Chunk → Json
chunk_json c = struct (chunk_fields c)

-- `MarshalJSON` of the calls of a delta: each call is replaced by what it is encoded as
unfoldable pub marshal_calls : List DeltaToolCall → Option (List DeltaToolCall)
marshal_calls [] = some []
marshal_calls (d ∷ ds) =
    and_then (marshal_delta (some d.call) (decimal d.index))
      (λ written. and_then (marshal_calls ds) (λ rest. some (record d { call = written } ∷ rest)))

unfoldable pub marshal_choices : List Choice → Option (List Choice)
unfolding marshal_calls
marshal_choices [] = some []
marshal_choices (c ∷ cs) =
    let d = c.delta in
    and_then (marshal_calls d.tool_calls) (λ calls.
      and_then (marshal_choices cs)
        (λ rest. some (record c { delta = record d { tool_calls = calls } } ∷ rest)))

-- a frame with its calls encoded; none where one of them cannot be
unfoldable pub marshal_chunk : Chunk → Option Chunk
unfolding marshal_choices
marshal_chunk c =
    and_then (marshal_choices c.choices) (λ choices. some (record c { choices = choices }))
