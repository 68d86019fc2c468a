-- ===== src/Messages.antt =====
-- internal/llm/adapter.go: the helpers of `restoreToolCallExtras` and `restoreMessageExtras`. A raw
-- message is a JSON value in which no two members name the field `tool_calls`; the bytes of a value
-- (spaces, escapes) are not told apart. The messages of github.com/openai/openai-go are a parameter.
pub mod Restore
pub mod Maps
pub mod Stripped
pub mod Survival
pub mod Aligned
pub mod Calls
use smolllm_server.Adapter.{decode_map, decode_field, is_among}
use smolllm_server.Base.{
  ℕ, Bool, true, false, not, Option, none, some, List, [], ◌∷◌, all, map, if◌then◌else◌, ◌==◌,
  text_eq, Text, codes, Dict, lookup, retain, text_less, sort_slice, and_then,
}
use smolllm_server.Json.{Json, null, arr, obj, Items, nil, cons, Members, end, member, members}

-- the pointers of `openai.ChatCompletionMessageParamUnion`
pub data Variant : Type 0 where
  of_developer of_system of_user of_assistant of_tool of_function : Variant

-- What the code uses of the messages: which pointers are set, for each entry of
-- `OfAssistant.ToolCalls` whether its `OfFunction` is set, `json.Marshal`, and `SetExtraFields` of a
-- variant and of the function call at a position.
pub record MessageApi : Type 1 where
  pub Message : Type 0
  pub is_set : Variant → Message → Bool
  pub tool_calls : Message → List Bool
  pub marshal : Message → Option Json
  pub set_extra_fields : Variant → Dict Text Json → Message → Message
  pub set_call_extra_fields : ℕ → Dict Text Json → Message → Message

pub data RestoreError : Type 0 where
  decode_calls re_encode decode_message decode_encoded : ℕ → RestoreError

-- decoding into a `map[string]json.RawMessage`: null leaves a nil map
unfoldable pub decode_object : Json → Option (Dict Text Json)
decode_object null = some []
decode_object (obj ms) = some (decode_map [] (members ms))
decode_object _ = none

unfoldable pub decode_objects : Items → Option (List (Dict Text Json))
unfolding decode_object
decode_objects nil = some []
decode_objects (cons v vs) =
    and_then (decode_object v) (λ m. and_then (decode_objects vs) (λ ms. some (m ∷ ms)))

-- decoding into a `[]map[string]json.RawMessage`
unfoldable pub decode_calls_value : Json → Option (List (Dict Text Json))
unfolding decode_objects
decode_calls_value null = some []
decode_calls_value (arr vs) = decode_objects vs
decode_calls_value _ = none

-- the field `ToolCalls` of the envelope, which a missing member leaves empty
abbrev pub decode_calls_field : Option Json → Option (List (Dict Text Json))
decode_calls_field none = some []
decode_calls_field (some v) = decode_calls_value v

unfoldable pub decode_envelope : Json → Option (List (Dict Text Json))
unfolding decode_calls_value
decode_envelope null = some []
decode_envelope (obj ms) = decode_calls_field (decode_field (codes "tool_calls") (members ms))
decode_envelope _ = none

abbrev pub call_keys : List Text
call_keys = codes "id" ∷ codes "type" ∷ codes "function" ∷ codes "index" ∷ []

-- the `extra` of one call
unfoldable pub call_extra : Dict Text Json → Dict Text Json
call_extra raw_call = retain (λ (k : Text). not (is_among k call_keys)) raw_call

abbrev pub is_empty : Dict Text Json → Bool
is_empty [] = true
is_empty (_ ∷ _) = false

-- `json.Marshal` of a map, which writes the keys in order
abbrev pub key_less : Text × Json → Text × Json → Bool
key_less (j, _) (k, _) = text_less j k

abbrev pub as_members : Dict Text Json → Members
as_members [] = end
as_members ((k, v) ∷ m) = member k v (as_members m)

-- A nil map, which only null leaves, is written as null.
abbrev pub encode_calls : Items → List (Dict Text Json) → Items
encode_calls (cons null vs) (_ ∷ ms) = cons null (encode_calls vs ms)
encode_calls (cons _ vs) (m ∷ ms) =
    cons (obj (as_members (sort_slice key_less m))) (encode_calls vs ms)
encode_calls _ _ = nil

abbrev pub index_key : Text
index_key = codes "index"

abbrev pub without_index : Dict Text Json → Dict Text Json
without_index call = retain (λ (k : Text). not (k == index_key)) call

abbrev pub is_present : Option Json → Bool
is_present none = false
is_present (some _) = true

abbrev pub no_index : Dict Text Json → Bool
no_index call = not (is_present (lookup index_key call))

-- `stripToolCallIndexes`; encoding what was decoded does not fail
unfoldable pub strip_calls : Items → Option (List (Dict Text Json)) → Json
strip_calls vs none = arr vs
strip_calls vs (some calls) =
    if all no_index calls then arr vs else arr (encode_calls vs (map without_index calls))

unfoldable pub strip_tool_call_indexes : Json → Json
unfolding strip_calls decode_objects
strip_tool_call_indexes (arr vs) = strip_calls vs (decode_objects vs)
strip_tool_call_indexes raw = raw
