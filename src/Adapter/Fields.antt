-- ===== src/Adapter/Fields.antt =====
-- internal/llm/adapter.go: which members of a request reach the provider.
use smolllm_server.Base.{
  Bool, not, ◌||◌, codes, ◌≡◌, refl, ◌∙◌, true, false, Option, none, some, List, [], ◌∷◌, arith,
  if◌then◌else◌, ◌==◌, text_eq, Text, Dict, lookup, insert, lookup-insert, lookup-retain,
  Bool-cases, Option-cases, inl, inr, or_else, or_else-none,
}
use smolllm_server.Adapter.{
  is_json_null_or_empty, is_among, decode_map, is_extra, extra_fields, decode_field, with_field,
  with_extras, forwarded_keys, named_fields, pass_through_fields,
}
use smolllm_server.Json.{Json}

-- the value of the last member with a name
unfoldable pub last_value : Text → Dict Text Json → Option Json
last_value k [] = none
last_value k ((j, v) ∷ ms) = or_else (last_value k ms) (if j == k then some v else none)

lookup-decode_map :
    (k : Text) (m ms : Dict Text Json)
    → lookup k (decode_map m ms) ≡ or_else (last_value k ms) (lookup k m)
unfolding decode_map last_value
lookup-decode_map k m [] = refl
lookup-decode_map k m ((j, v) ∷ ms) =
    ground (arith, lookup-decode_map k (insert j v m) ms, lookup-insert k j v m)

lookup-with_extras :
    (k : Text) (fields extras : Dict Text Json)
    → lookup k (with_extras fields extras) ≡ or_else (lookup k fields) (lookup k extras)
unfolding with_extras lookup
lookup-with_extras k fields [] = ground arith
lookup-with_extras k fields ((j, v) ∷ rest) = elim (Option-cases (lookup j fields)) [
  | inl free ↦
      rw (free, with_extras)
        (ground
          (arith, lookup-with_extras k (insert j v fields) rest, lookup-insert k j v fields, free))
  | inr (w, taken) ↦
      rw (taken, with_extras) (ground (arith, lookup-with_extras k fields rest, taken))
]

-- a field's value if it is worth forwarding
abbrev pub present : Option Json → Option Json
present o = if is_json_null_or_empty o then none else o

lookup-with_field :
    (k name : Text) (o : Option Json) (fields : Dict Text Json)
    → lookup k (with_field name o fields)
      ≡ (if name == k then or_else (present o) (lookup k fields) else lookup k fields)
unfolding with_field
lookup-with_field k name none fields = unfold is_json_null_or_empty in ground arith
lookup-with_field k name (some v) fields = ground (arith, lookup-insert k name v fields)

lookup-named_fields :
    (k : Text) (names : List Text) (ms : Dict Text Json)
    → lookup k (named_fields names ms)
      ≡ (if is_among k names then present (decode_field k ms) else none)
unfolding named_fields lookup
lookup-named_fields k [] ms = refl
lookup-named_fields k (n ∷ ns) ms = ground (
  arith,
  lookup-with_field k n (decode_field n ms) (named_fields ns ms),
  lookup-named_fields k ns ms,
)

if_not : (b : Bool) (o : Option Json) → (if not b then o else none) ≡ (if b then none else o)
if_not true o = refl
if_not false o = refl

is_extra-forwarded : (k : Text) → is_among k forwarded_keys ≡ true → is_extra k ≡ false
is_extra-forwarded k h = ground arith

lookup-extra_fields :
    (k : Text) (ms : Dict Text Json)
    → lookup k (extra_fields ms) ≡ (if is_extra k then last_value k ms else none)
unfolding extra_fields
lookup-extra_fields k ms =
    let nothing : Dict Text Json = [] in
    let none_before : lookup k nothing ≡ none = unfold lookup in refl in
    lookup-retain is_extra k (decode_map [] ms)
    ∙ rw (lookup-decode_map k [] ms, none_before, or_else-none (last_value k ms)) refl

-- the fields that are passed on by their names
abbrev pub is_passed_on : Text → Bool
is_passed_on k =
    k == codes "tools"
    || k == codes "tool_choice"
    || k == codes "parallel_tool_calls"
    || k == codes "response_format"

-- the other fields that the server reads, and `stream_options`, which the library reserves
abbrev pub is_kept_back : Text → Bool
is_kept_back k =
    k == codes "model"
    || k == codes "messages"
    || k == codes "stream"
    || k == codes "temperature"
    || k == codes "top_p"
    || k == codes "reasoning_effort"
    || k == codes "max_tokens"
    || k == codes "stop"
    || k == codes "seed"
    || k == codes "n"
    || k == codes "timeout"
    || k == codes "functions"
    || k == codes "stream_options"

is_among-forwarded_keys : (k : Text) → is_among k forwarded_keys ≡ is_passed_on k
is_among-forwarded_keys k = ground arith

is_extra-is_kept_back : (k : Text) → is_passed_on k ≡ false → is_extra k ≡ not (is_kept_back k)
is_extra-is_kept_back k h = ground (arith, h)

-- The body that is merged into the provider's request has under each name: for `tools`, `tool_choice`,
-- `parallel_tool_calls` and `response_format` the value of the request if that is not null or empty;
-- for the other names that the server reads or the library reserves (`model`, `messages`, `stream`,
-- `temperature`, `top_p`, `reasoning_effort`, `max_tokens`, `stop`, `seed`, `n`, `timeout`,
-- `functions`, `stream_options`) nothing; and for every other name the member of the request as it was
-- sent.
pub lookup-pass_through_fields :
    (k : Text) (ms : Dict Text Json)
    → lookup k (pass_through_fields ms) ≡ (
        if is_passed_on k
        then present (decode_field k ms)
        else if is_kept_back k
        then none
        else last_value k ms)
unfolding pass_through_fields
lookup-pass_through_fields k ms =
    lookup-with_extras k (named_fields forwarded_keys ms) (extra_fields ms)
    ∙ rw
        (
          lookup-named_fields k forwarded_keys ms,
          lookup-extra_fields k ms,
          is_among-forwarded_keys k,
        )
        (elim (Bool-cases (is_passed_on k)) [
          | inl forwarded ↦
              rw (forwarded, is_extra-forwarded k (is_among-forwarded_keys k ∙ forwarded))
                (or_else-none (present (decode_field k ms)))
          | inr rest ↦
              rw (rest, is_extra-is_kept_back k rest) (if_not (is_kept_back k) (last_value k ms))
        ])
