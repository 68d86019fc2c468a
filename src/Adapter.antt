-- ===== src/Adapter.antt =====
-- internal/llm/adapter.go and the request types of internal/llm/types.go: from a chat request to the
-- options of a library call, and the inputs of internal/server/embed.go. A request is the list of
-- its members; what the openai decoder makes of the messages and the fields of the prompt are left
-- out. Floats are the integers of Config, in nanoseconds.
pub mod Fields
pub mod Inputs
use smolllm_server.Base.{
  ℕ, suc, Bool, true, false, not, ◌||◌, Option, none, some, List, [], ◌∷◌, any, if◌then◌else◌, ◌==◌,
  text_eq, text_discrete, Text, codes, trim_space, Dict, lookup, insert, retain, Result, ok, err,
}
use smolllm_server.Debit.Numbers.{fold_name}
use smolllm_server.Json.{Json, null, str, arr, obj, Items, nil, cons, end}

-- `isJSONNullOrEmpty`; a field that is missing is an empty raw message
unfoldable pub is_json_null_or_empty : Option Json → Bool
is_json_null_or_empty none = true
is_json_null_or_empty (some null) = true
is_json_null_or_empty (some (arr nil)) = true
is_json_null_or_empty (some (obj end)) = true
is_json_null_or_empty (some _) = false

-- decoding into a `[]string`: null leaves the empty string
unfoldable pub string_items : Items → Option (List Text)
string_items nil = some []
string_items (cons (str s) vs) = elim (string_items vs) [ none ↦ none | some l ↦ some (s ∷ l) ]
string_items (cons null vs) = elim (string_items vs) [ none ↦ none | some l ↦ some ([] ∷ l) ]
string_items (cons _ vs) = none

pub data RequestError : Type 0 where
  empty_stop stop_not_strings empty_stop_entry : RequestError
  no_input empty_input input_not_strings empty_input_list : RequestError
  empty_input_entry : ℕ → RequestError

abbrev is_blank : Text → Bool
is_blank s = trim_space s == []

-- the array case of `decodeStop`
unfoldable pub stop_entries : Option (List Text) → Result RequestError (List Text)
stop_entries none = err stop_not_strings
stop_entries (some []) = err empty_stop
stop_entries (some (s ∷ l)) = if any is_blank (s ∷ l) then err empty_stop_entry else ok (s ∷ l)

-- `decodeStop`
unfoldable pub decode_stop : Option Json → Result RequestError (List Text)
unfolding stop_entries
decode_stop (some (str s)) = if is_blank s then err empty_stop else ok (s ∷ [])
decode_stop (some (arr (cons v vs))) = stop_entries (string_items (cons v vs))
decode_stop raw = if is_json_null_or_empty raw then ok [] else err stop_not_strings

-- the position of the first empty text, from a position on
unfoldable pub first_empty : ℕ → List Text → Option ℕ
first_empty i [] = none
first_empty i (s ∷ l) = let later = first_empty (suc i) l in if s == [] then some i else later

unfoldable pub input_entries : Option (List Text) → Result RequestError (List Text)
unfolding first_empty
input_entries none = err input_not_strings
input_entries (some []) = err empty_input_list
input_entries (some (s ∷ l)) = elim (first_empty 0 (s ∷ l)) [
  | some i ↦ err (empty_input_entry i)
  | none ↦ ok (s ∷ l)
]

-- `decodeEmbeddingInput`; null decodes to the empty string
unfoldable pub decode_embedding_input : Option Json → Result RequestError (List Text)
unfolding input_entries
decode_embedding_input none = err no_input
decode_embedding_input (some (str s)) = if s == [] then err empty_input else ok (s ∷ [])
decode_embedding_input (some null) = err empty_input
decode_embedding_input (some (arr vs)) = input_entries (string_items vs)
decode_embedding_input (some _) = err input_not_strings

abbrev pub modeled_keys : List Text
modeled_keys =
    codes "model"
    ∷ codes "messages"
    ∷ codes "stream"
    ∷ codes "temperature"
    ∷ codes "top_p"
    ∷ codes "reasoning_effort"
    ∷ codes "max_tokens"
    ∷ codes "stop"
    ∷ codes "seed"
    ∷ codes "n"
    ∷ codes "timeout"
    ∷ codes "tools"
    ∷ codes "tool_choice"
    ∷ codes "parallel_tool_calls"
    ∷ codes "response_format"
    ∷ codes "functions"
    ∷ []

abbrev pub dropped_keys : List Text
dropped_keys = codes "stream" ∷ codes "stream_options" ∷ codes "messages" ∷ codes "model" ∷ []

abbrev pub is_among : Text → List Text → Bool
is_among k keys = any (λ (j : Text). k == j) keys

-- the members as a Go map: a later member replaces an earlier one of the same name
unfoldable pub decode_map : Dict Text Json → Dict Text Json → Dict Text Json
decode_map m [] = m
decode_map m ((k, v) ∷ rest) = decode_map (insert k v m) rest

abbrev pub is_extra : Text → Bool
is_extra k = not (is_among k modeled_keys || is_among k dropped_keys)

-- `extraFields`, as `UnmarshalJSON` sets it
unfoldable pub extra_fields : Dict Text Json → Dict Text Json
unfolding decode_map
extra_fields ms = retain is_extra (decode_map [] ms)

-- the field of a struct: the last member whose name matches, in any case
unfoldable pub decode_field : Text → Dict Text Json → Option Json
decode_field name [] = none
decode_field name ((k, v) ∷ rest) = elim (decode_field name rest) [
  | some w ↦ some w
  | none ↦ if fold_name k == name then some v else none
]

-- one of the four fields that are forwarded, in front of others
unfoldable pub with_field : Text → Option Json → Dict Text Json → Dict Text Json
with_field name none fields = fields
with_field name (some v) fields =
    if is_json_null_or_empty (some v) then fields else insert name v fields

-- the loop over `extraFields`: a name that is taken keeps its value
unfoldable pub with_extras : Dict Text Json → Dict Text Json → Dict Text Json
with_extras fields [] = fields
with_extras fields ((k, v) ∷ rest) = elim (lookup k fields) [
  | none ↦ with_extras (insert k v fields) rest
  | some _ ↦ with_extras fields rest
]

abbrev pub forwarded_keys : List Text
forwarded_keys =
    codes "tools" ∷ codes "tool_choice" ∷ codes "parallel_tool_calls" ∷ codes "response_format" ∷ []

unfoldable pub named_fields : List Text → Dict Text Json → Dict Text Json
unfolding decode_field with_field
named_fields [] ms = []
named_fields (k ∷ ks) ms = with_field k (decode_field k ms) (named_fields ks ms)

-- `passThroughFields` of a request with the members `ms`
unfoldable pub pass_through_fields : Dict Text Json → Dict Text Json
unfolding named_fields with_extras extra_fields
pass_through_fields ms = with_extras (named_fields forwarded_keys ms) (extra_fields ms)
