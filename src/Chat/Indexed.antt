-- ===== src/Chat/Indexed.antt =====
-- internal/llm/types.go: `MarshalJSON` of a `DeltaToolCall`. What the call itself is encoded as, or
-- that its encoding fails, is an argument, and so are the digits of the index.
use smolllm_server.Base.{
  ◌≡◌, refl, ◌∙◌, Option, none, some, [], if◌then◌else◌, ◌==◌, text_eq, Text, Dict, lookup, insert,
  lookup-insert, insert-NodupKeys, sort_slice,
}
use smolllm_server.Adapter.{decode_map}
use smolllm_server.Json.{Json, null, num, obj, Members, members}
use smolllm_server.Messages.{decode_object, key_less, as_members, index_key}
use smolllm_server.Messages.Maps.{decode_object-NodupKeys, lookup-written}

-- `fields["index"] = index`, and the encoding of the map
abbrev pub with_index : Text → Option (Dict Text Json) → Option Json
with_index digits none = none
with_index digits (some fields) =
    some (obj (as_members (sort_slice key_less (insert index_key (num digits) fields))))

-- the fields of the call; a call that is encoded as null leaves a nil map, at which the assignment
-- panics, and has no result either
abbrev pub decoded_call : Option Json → Option (Dict Text Json)
decoded_call none = none
decoded_call (some null) = none
decoded_call (some encoded) = decode_object encoded

-- `MarshalJSON`
unfoldable pub marshal_delta : Option Json → Text → Option Json
marshal_delta encoded digits = with_index digits (decoded_call encoded)

-- A tool call in a streamed frame has the keys and values of the call that it is made of, an object,
-- and its position as `index`, whatever the call has under that key.
pub lookup-marshal_delta :
    (ms : Members) (digits : Text)
    → (written : Json) × (after : Dict Text Json) × (marshal_delta (some (obj ms)) digits
        ≡ some written)
      × (decode_object written ≡ some after)
      × ((k : Text)
          → lookup k after
            ≡ (if index_key == k then some (num digits) else lookup k (decode_map [] (members ms))))
unfolding marshal_delta decode_object
lookup-marshal_delta ms digits =
    let fields : Dict Text Json = decode_map [] (members ms) in
    (
      obj (as_members (sort_slice key_less (insert index_key (num digits) fields))),
      _,
      refl,
      refl,
      λ k.
          lookup-written k (insert index_key (num digits) fields)
            (insert-NodupKeys index_key (num digits) fields (decode_object-NodupKeys (obj ms) refl))
          ∙ lookup-insert k index_key (num digits) fields,
    )
