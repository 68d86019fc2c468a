-- ===== src/Wire/Read.antt =====
-- internal/llm/types.go: how a client reads the answers, by the names of the fields that the API
-- documents. It takes a field that is absent for an empty one.
use smolllm_server.Base.{
  ℕ, Bool, Option, none, some, List, [], ◌∷◌, Text, codes, eqb, length, if◌then◌else◌, and_then,
  read_decimal,
}
use smolllm_server.Chat.{CompletionUsage, DeltaToolCall, Delta, Choice, Chunk}
use smolllm_server.Credit.{Decimal}
use smolllm_server.Json.{Json, null, bool, num, str, arr, Items, nil, cons}
use smolllm_server.Wire.{point}
use smolllm_server.Wire.Fields.{field}

-- the values at the names of an object
abbrev pub Getter : Type 0
Getter = Text → Option Json

infixl 5 ◌>>=◌
abbrev ◌>>=◌ {ℓ κ} : {A : Type ℓ} {B : Type κ} → Option A → (A → Option B) → Option B
m >>= f = and_then m f

abbrev pub read_text : Json → Option Text
read_text (str s) = some s
read_text _ = none

abbrev pub read_nat : Json → Option ℕ
read_nat (num t) = read_decimal t
read_nat _ = none

abbrev pub read_bool : Json → Option Bool
read_bool (bool b) = some b
read_bool _ = none

abbrev pub text_or_null : Json → Option (Option Text)
text_or_null null = some none
text_or_null (str s) = some (some s)
text_or_null _ = none

abbrev pub required {ℓ} : {A : Type ℓ} → (Json → Option A) → Option Json → Option A
required f none = none
required f (some v) = f v

abbrev pub optional {ℓ} : {A : Type ℓ} → (Json → Option A) → Option Json → Option (Option A)
optional f none = some none
optional f (some v) = and_then (f v) (λ a. some (some a))

abbrev pub text_or_empty : Option Json → Option Text
text_or_empty none = some []
text_or_empty (some v) = read_text v

unfoldable pub read_items {ℓ} : {A : Type ℓ} → (Json → Option A) → Items → Option (List A)
read_items f nil = some []
read_items f (cons v vs) = and_then (f v) (λ a. and_then (read_items f vs) (λ l. some (a ∷ l)))

abbrev pub read_array {ℓ} : {A : Type ℓ} → (Json → Option A) → Json → Option (List A)
read_array f (arr vs) = read_items f vs
read_array f _ = none

abbrev pub array_or_empty {ℓ} : {A : Type ℓ} → (Json → Option A) → Option Json → Option (List A)
array_or_empty f none = some []
array_or_empty f (some v) = read_array f v

-- a number with digits behind a point, as it is written
unfoldable pub cut : Text → Text × Option Text
cut [] = ([], none)
cut (c ∷ s) = if eqb c point then ([], some s) else (c ∷ (cut s).0, (cut s).1)

abbrev pub fixed_of : Text × Option Text → Option Decimal
fixed_of (w, none) =
    and_then (read_decimal w) (λ n. some (record { whole = n; fraction = 0; places = 0 }))
fixed_of (w, some f) = do
  n ← read_decimal w
  m ← read_decimal f
  some (record { whole = n; fraction = m; places = length f })

abbrev pub read_fixed : Json → Option Decimal
read_fixed (num t) = fixed_of (cut t)
read_fixed _ = none

abbrev pub cached_of : Json → Option ℕ
cached_of j = required read_nat (field (codes "cached_tokens") j)

-- `CompletionUsage`
unfoldable pub usage_of : Getter → Option CompletionUsage
usage_of get = do
  credit ← optional read_fixed (get (codes "credit"))
  id ← text_or_empty (get (codes "credit_report_id"))
  complete ← required read_bool (get (codes "credit_complete"))
  attempts ← required read_nat (get (codes "credit_attempts"))
  known ← required read_nat (get (codes "credit_known_attempts"))
  prompt ← required read_nat (get (codes "prompt_tokens"))
  completion ← required read_nat (get (codes "completion_tokens"))
  total ← required read_nat (get (codes "total_tokens"))
  cached ← optional cached_of (get (codes "prompt_tokens_details"))
  written ← optional read_nat (get (codes "cache_creation_input_tokens"))
  some (record {
    credits = record {
      credit = credit;
      report_id = id;
      complete = complete;
      attempts = attempts;
      known_attempts = known;
    };
    tokens = record {
      prompt_tokens = prompt;
      completion_tokens = completion;
      total_tokens = total;
      cached_tokens = cached;
      cache_creation_input_tokens = written;
    };
  })

abbrev pub read_usage : Json → Option CompletionUsage
read_usage j = usage_of (λ k. field k j)

-- `DeltaToolCall`: the index, and the value that it was read from
abbrev pub read_call : Json → Option DeltaToolCall
read_call j =
    and_then (required read_nat (field (codes "index") j))
      (λ i. some (record { index = i; call = j }))

-- `ChatDelta`
unfoldable pub delta_of : Getter → Option Delta
delta_of get = do
  role ← text_or_empty (get (codes "role"))
  content ← text_or_empty (get (codes "content"))
  reasoning ← text_or_empty (get (codes "reasoning_content"))
  calls ← array_or_empty read_call (get (codes "tool_calls"))
  some
      (record { role = role; content = content; reasoning_content = reasoning; tool_calls = calls })

abbrev pub read_delta : Json → Option Delta
read_delta j = delta_of (λ k. field k j)

-- `ChatChoiceDelta`
unfoldable pub choice_of : Getter → Option Choice
choice_of get = do
  delta ← required read_delta (get (codes "delta"))
  reason ← required text_or_null (get (codes "finish_reason"))
  some (record { delta = delta; finish_reason = reason })

abbrev pub read_choice : Json → Option Choice
read_choice j = choice_of (λ k. field k j)

abbrev pub error_of : Json → Option Text
error_of j = required read_text (field (codes "message") j)

-- `ChatCompletionChunk`
unfoldable pub chunk_of : Getter → Option Chunk
chunk_of get = do
  id ← required read_text (get (codes "id"))
  created ← required read_nat (get (codes "created"))
  model ← required read_text (get (codes "model"))
  choices ← required (read_array read_choice) (get (codes "choices"))
  usage ← optional read_usage (get (codes "usage"))
  error ← optional error_of (get (codes "error"))
  some (record {
    id = id;
    created = created;
    model = model;
    choices = choices;
    usage = usage;
    error = error;
  })

abbrev pub read_chunk : Json → Option Chunk
read_chunk j = chunk_of (λ k. field k j)
