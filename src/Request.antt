-- ===== src/Request.antt =====
-- internal/llm/types.go: `ChatRequest` with its `UnmarshalJSON`, and `EmbeddingRequest`. A float64 is
-- the text that stands for it, as `float_of` finds it for a literal. The messages are those of
-- Messages, and what github.com/openai/openai-go decodes them to is a parameter. The raw fields are
-- read from the members of the request, which are kept; no two members name the field `messages`.
pub mod Options
pub mod Accepted
pub mod Safe
use smolllm_server.Adapter.{decode_field}
use smolllm_server.Base.{
  Bool, false, Option, none, some, List, [], ◌∷◌, if◌then◌else◌, ◌==◌, text_eq, Text, codes, Dict,
  ℤ, and_then,
}
use smolllm_server.Debit.Numbers.{fold_name, atoi}
use smolllm_server.Json.{Json, null, bool, num, str, arr, obj, Members, end, member, members, items}

-- `ChatRequest`; `stream_options` is its one field
pub record ChatRequest (Message : Type 0) : Type 0 where
  pub model : Text
  pub messages : List Message
  pub stream : Bool
  pub temperature : Option Text
  pub top_p : Option Text
  pub reasoning_effort : Option Text
  pub max_tokens : Option ℤ
  pub seed : Option ℤ
  pub n : Option ℤ
  pub timeout : Option Text
  pub stream_options : Option Bool
  pub raw_messages : List Json
  pub members : Dict Text Json

-- decoding a value into a field: a `string` and a `bool`, which null leaves as they are
unfoldable pub into_string : Text → Json → Option Text
into_string s (str t) = some t
into_string s null = some s
into_string s _ = none

unfoldable pub into_bool : Bool → Json → Option Bool
into_bool b (bool c) = some c
into_bool b null = some b
into_bool b _ = none

-- a `*string`, a `*int` and a `*float64`, which null sets to nil
unfoldable pub into_string_pointer : Json → Option (Option Text)
into_string_pointer (str t) = some (some t)
into_string_pointer null = some none
into_string_pointer _ = none

unfoldable pub into_int_pointer : Json → Option (Option ℤ)
into_int_pointer (num t) = and_then (atoi t) (λ i. some (some i))
into_int_pointer null = some none
into_int_pointer _ = none

unfoldable pub into_float_pointer : (Text → Option Text) → Json → Option (Option Text)
into_float_pointer float_of (num t) = and_then (float_of t) (λ f. some (some f))
into_float_pointer float_of null = some none
into_float_pointer float_of _ = none

-- the struct of `stream_options`, whose pointer may be set already
abbrev pub flag_of : Option Bool → Bool
flag_of none = false
flag_of (some b) = b

unfoldable pub into_usage_flag : Bool → Members → Option Bool
unfolding into_bool
into_usage_flag b end = some b
into_usage_flag b (member k v ms) =
    if fold_name k == codes "include_usage"
    then and_then (into_bool b v) (λ c. into_usage_flag c ms)
    else into_usage_flag b ms

unfoldable pub into_stream_options : Option Bool → Json → Option (Option Bool)
unfolding into_usage_flag
into_stream_options o null = some none
into_stream_options o (obj ms) = and_then (into_usage_flag (flag_of o) ms) (λ b. some (some b))
into_stream_options o _ = none

-- a `[]json.RawMessage`
unfoldable pub into_raw_list : Json → Option (List Json)
into_raw_list (arr vs) = some (items vs)
into_raw_list null = some []
into_raw_list _ = none

module _ {Message : Type 0} (float_of : Text → Option Text)
    (decode_messages : Json → Option (List Message)) where
  abbrev pub blank_request : Dict Text Json → ChatRequest Message
  blank_request ms = record {
    model = [];
    messages = [];
    stream = false;
    temperature = none;
    top_p = none;
    reasoning_effort = none;
    max_tokens = none;
    seed = none;
    n = none;
    timeout = none;
    stream_options = none;
    raw_messages = [];
    members = ms;
  }

  -- one member of the object, by the name of its field in any case
  unfoldable pub set_field : Text → Json → ChatRequest Message → Option (ChatRequest Message)
  set_field name v r =
      if name == codes "model"
      then and_then (into_string r.model v) (λ x. some (record r { model = x }))
      else if name == codes "messages"
      then and_then (decode_messages v) (λ x.
        and_then (into_raw_list v) (λ y. some (record r { messages = x; raw_messages = y })))
      else if name == codes "stream"
      then and_then (into_bool r.stream v) (λ x. some (record r { stream = x }))
      else if name == codes "temperature"
      then and_then (into_float_pointer float_of v) (λ x. some (record r { temperature = x }))
      else if name == codes "top_p"
      then and_then (into_float_pointer float_of v) (λ x. some (record r { top_p = x }))
      else if name == codes "reasoning_effort"
      then and_then (into_string_pointer v) (λ x. some (record r { reasoning_effort = x }))
      else if name == codes "max_tokens"
      then and_then (into_int_pointer v) (λ x. some (record r { max_tokens = x }))
      else if name == codes "seed"
      then and_then (into_int_pointer v) (λ x. some (record r { seed = x }))
      else if name == codes "n"
      then and_then (into_int_pointer v) (λ x. some (record r { n = x }))
      else if name == codes "timeout"
      then and_then (into_float_pointer float_of v) (λ x. some (record r { timeout = x }))
      else if name == codes "stream_options"
      then and_then (into_stream_options r.stream_options v)
          (λ x. some (record r { stream_options = x }))
      else some r

  unfoldable pub set_fields : Dict Text Json → ChatRequest Message → Option (ChatRequest Message)
  unfolding set_field
  set_fields [] r = some r
  set_fields ((k, v) ∷ ms) r = and_then (set_field (fold_name k) v r) (λ s. set_fields ms s)

  -- `UnmarshalJSON`; null is taken as an object without members
  unfoldable pub unmarshal_json : Json → Option (ChatRequest Message)
  unfolding set_fields
  unmarshal_json null = some (blank_request [])
  unmarshal_json (obj ms) = set_fields (members ms) (blank_request (members ms))
  unmarshal_json _ = none

-- a raw field of the request
abbrev pub raw_field : {Message : Type 0} → ChatRequest Message → Text → Option Json
raw_field req name = decode_field name req.members

-- `EmbeddingRequest`, decoded
pub record EmbeddingRequest : Type 0 where
  pub model : Text
  pub input : Option Json
  pub dimensions : Option ℤ

unfoldable pub set_embedding_field : Text → Json → EmbeddingRequest → Option EmbeddingRequest
set_embedding_field name v r =
    if name == codes "model"
    then and_then (into_string r.model v) (λ x. some (record r { model = x }))
    else if name == codes "input"
    then some (record r { input = some v })
    else if name == codes "dimensions"
    then and_then (into_int_pointer v) (λ x. some (record r { dimensions = x }))
    else some r

unfoldable pub set_embedding_fields : Dict Text Json → EmbeddingRequest → Option EmbeddingRequest
unfolding set_embedding_field
set_embedding_fields [] r = some r
set_embedding_fields ((k, v) ∷ ms) r =
    and_then (set_embedding_field (fold_name k) v r) (λ s. set_embedding_fields ms s)

unfoldable pub decode_embedding_request : Json → Option EmbeddingRequest
unfolding set_embedding_fields
decode_embedding_request null = some (record { model = []; input = none; dimensions = none })
decode_embedding_request (obj ms) =
    set_embedding_fields (members ms) (record { model = []; input = none; dimensions = none })
decode_embedding_request _ = none
