-- ===== src/Wire/Chunks.antt =====
-- internal/llm/types.go: what a client reads of an encoded `ChatCompletionChunk`.
use smolllm_server.Base.{
  ◌≡◌, refl, ap, ◌∙◌, Option, none, some, List, [], ◌∷◌, map, Text, codes, and_then-eq-some,
  some-inj, text_discrete, decimal, read_decimal-decimal, All, All-map,
}
use smolllm_server.Chat.{CompletionUsage, DeltaToolCall, Delta, Choice, Chunk}
use smolllm_server.Chat.Indexed.{marshal_delta}
use smolllm_server.Json.{Json, null, num}
use smolllm_server.Messages.{index_key}
use smolllm_server.Wire.{
  array, unless_no_items, or_null, usage_json, delta_json, choice_json, chunk_json,
  stream_error_json, marshal_calls, marshal_choices, marshal_chunk,
}
use smolllm_server.Wire.Calls.{
  Pairwise, CarriesCalls, field-marshal_delta, marshal_choices-CarriesCalls,
}
use smolllm_server.Wire.Fields.{field, find, distinct, field-struct}
use smolllm_server.Wire.Read.{
  text_or_null, read_items, array_or_empty, read_call, delta_of, read_delta, choice_of, read_choice,
  error_of, chunk_of, read_chunk, read_usage,
}
use smolllm_server.Wire.Usage.{
  HasDecimal, ReadsBack, read-struct, text_or_empty-unless_empty, optional-unless_nil,
  read_usage-usage_json,
}

index-marshal_delta :
    (encoded : Json) (digits : Text) {written : Json}
    → marshal_delta (some encoded) digits ≡ some written
    → field index_key written ≡ some (num digits)
unfolding text_discrete
index-marshal_delta encoded digits h = field-marshal_delta encoded digits h index_key

-- a call that is read with its index from the value it is written as
abbrev IsIndexed : DeltaToolCall → Type 0
IsIndexed d = read_call d.call ≡ some d

pub read_items-array {ℓ} :
    {A : Type ℓ} (f : Json → Option A) (g : A → Json) (l : List A)
    → All (λ a. f (g a) ≡ some a) l
    → read_items f (array (map g l)) ≡ some l
unfolding read_items
read_items-array f g [] h = refl
read_items-array f g (a ∷ l) (h, hs) = rw (h, read_items-array f g l hs) refl

calls-read :
    (calls : List DeltaToolCall)
    → All IsIndexed calls
    → array_or_empty read_call (unless_no_items (map (λ (c : DeltaToolCall). c.call) calls))
      ≡ some calls
calls-read [] h = refl
calls-read (c ∷ cs) h = read_items-array read_call (λ (c : DeltaToolCall). c.call) (c ∷ cs) h

read_delta-delta_json :
    (d : Delta) → All IsIndexed d.tool_calls → read_delta (delta_json d) ≡ some d
unfolding delta_json delta_of find distinct text_discrete
read_delta-delta_json d h =
    read-struct delta_of _ refl
    ∙ rw
        (
          text_or_empty-unless_empty d.role,
          text_or_empty-unless_empty d.content,
          text_or_empty-unless_empty d.reasoning_content,
          calls-read d.tool_calls h,
        )
        refl

pub text_or_null-or_null : (o : Option Text) → text_or_null (or_null o) ≡ some o
text_or_null-or_null none = refl
text_or_null-or_null (some s) = refl

read_choice-choice_json :
    (c : Choice) → All IsIndexed c.delta.tool_calls → read_choice (choice_json c) ≡ some c
unfolding choice_json choice_of find distinct text_discrete
read_choice-choice_json c h =
    read-struct choice_of _ refl
    ∙ rw (read_delta-delta_json c.delta h, text_or_null-or_null c.finish_reason) refl

ReadsBack-error : (o : Option Text) → ReadsBack error_of stream_error_json o
unfolding find distinct text_discrete
ReadsBack-error none = tt
ReadsBack-error (some m) = rw (field-struct (codes "message") _ refl) refl

-- what is left of a frame without the values of its calls
abbrev pub forget_call : DeltaToolCall → DeltaToolCall
forget_call c = record c { call = null }

abbrev pub forget_choice : Choice → Choice
forget_choice c =
    let d = c.delta in record c { delta = record d { tool_calls = map forget_call d.tool_calls } }

abbrev pub forget_calls : Chunk → Chunk
forget_calls c = record c { choices = map forget_choice c.choices }

marshal_calls-IsIndexed :
    (ds : List DeltaToolCall) {ws : List DeltaToolCall}
    → marshal_calls ds ≡ some ws
    → All IsIndexed ws × (map forget_call ws ≡ map forget_call ds)
unfolding marshal_calls
marshal_calls-IsIndexed [] h = let e = some-inj h in rw (← e) (tt, refl)
marshal_calls-IsIndexed (d ∷ ds) h =
    let (written, one, more) =
      and_then-eq-some (marshal_delta (some d.call) (decimal d.index)) _ h in
    let (rest, others, all_of) = and_then-eq-some (marshal_calls ds) _ more in
    let (indexed, same) = marshal_calls-IsIndexed ds others in
    let e = some-inj all_of in
    rw (← e) (
      (
        rw (index-marshal_delta d.call (decimal d.index) one, read_decimal-decimal d.index) refl,
        indexed,
      ),
      ap (λ l. forget_call d ∷ l) same,
    )

abbrev AreIndexed : List Choice → Type 0
AreIndexed = All (λ (c : Choice). All IsIndexed c.delta.tool_calls)

marshal_choices-AreIndexed :
    (cs : List Choice) {ws : List Choice}
    → marshal_choices cs ≡ some ws
    → AreIndexed ws × (map forget_choice ws ≡ map forget_choice cs)
unfolding marshal_choices
marshal_choices-AreIndexed [] h = let e = some-inj h in rw (← e) (tt, refl)
marshal_choices-AreIndexed (c ∷ cs) h =
    let (calls, one, more) = and_then-eq-some (marshal_calls c.delta.tool_calls) _ h in
    let (rest, others, all_of) = and_then-eq-some (marshal_choices cs) _ more in
    let (indexed, same) = marshal_choices-AreIndexed cs others in
    let (here, alike) = marshal_calls-IsIndexed c.delta.tool_calls one in
    let e = some-inj all_of in rw (← e) ((here, indexed), rw (alike, same) refl)

choices-read :
    (cs : List Choice)
    → AreIndexed cs
    → read_items read_choice (array (map choice_json cs)) ≡ some cs
choices-read cs h =
    read_items-array read_choice choice_json cs (All-map (λ c. read_choice-choice_json c) cs h)

-- the decimal of a frame's usage
abbrev pub HasDecimals : Option CompletionUsage → Type 0
HasDecimals none = Unit {0}
HasDecimals (some u) = HasDecimal u.credits.credit

ReadsBack-usage : (o : Option CompletionUsage) → HasDecimals o → ReadsBack read_usage usage_json o
ReadsBack-usage none h = tt
ReadsBack-usage (some u) h = read_usage-usage_json u h

read_back :
    (c : Chunk) → HasDecimals c.usage → AreIndexed c.choices → read_chunk (chunk_json c) ≡ some c
unfolding chunk_json chunk_of find distinct text_discrete
read_back c h indexed =
    let usage = optional-unless_nil read_usage usage_json c.usage (ReadsBack-usage c.usage h) in
    let error = optional-unless_nil error_of stream_error_json c.error (ReadsBack-error c.error) in
    read-struct chunk_of _ refl
    ∙ rw (read_decimal-decimal c.created, choices-read c.choices indexed, usage, error) refl

-- A client that reads a streamed frame finds all that was put into it, although empty fields are left
-- out: of a frame whose tool calls can be encoded and whose credit is a decimal, the identifier, the
-- time, the model, each choice with its role, text, reasoning, finish reason and calls, the usage with
-- its credits, and the error; the calls are in their order with their positions, each with the values
-- that it has under every name but `index`.
pub read_chunk-chunk_json :
    (c : Chunk) {written : Chunk}
    → HasDecimals c.usage
    → marshal_chunk c ≡ some written
    → (read_chunk (chunk_json written) ≡ some written)
      × (forget_calls written ≡ forget_calls c)
      × Pairwise CarriesCalls c.choices written.choices
unfolding marshal_chunk
read_chunk-chunk_json c {written} h m =
    let (choices, encoded, e) = and_then-eq-some (marshal_choices c.choices) _ m in
    let (indexed, same) = marshal_choices-AreIndexed c.choices encoded in
    let whole = some-inj e in
    rw (← whole) (
      read_back (record c { choices = choices }) h indexed,
      rw same refl,
      marshal_choices-CarriesCalls c.choices encoded,
    )
