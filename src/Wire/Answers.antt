-- ===== src/Wire/Answers.antt =====
-- internal/llm/types.go and internal/server/stats.go: what a client reads of an answer that is not streamed.
use smolllm_server.Base.{
  ◌≡◌, refl, ◌∙◌, Option, none, some, List, [], ◌∷◌, Text, codes, and_then, text_discrete,
  read_decimal-decimal, All-of,
}
use smolllm_server.Chat.{ChatCompletion, Fresh, chat_blocking}
use smolllm_server.Credit.{Tally}
use smolllm_server.Upstream.{Reply}
use smolllm_server.Wire.Credits.{apply-HasDecimal}
use smolllm_server.Json.{Json, arr, cons}
use smolllm_server.Stats.{Bucket}
use smolllm_server.Wire.{array, unless_no_items}
use smolllm_server.Wire.Bodies.{
  completion_json, message_json, only_choice_json, bucket_json, stats_json,
}
use smolllm_server.Wire.Chunks.{read_items-array, text_or_null-or_null}
use smolllm_server.Wire.Fields.{field, find, distinct, field-struct}
use smolllm_server.Wire.Read.{
  Getter, read_text, read_nat, read_usage, required, text_or_null, text_or_empty, array_or_empty,
  read_array, read_items,
}
use smolllm_server.Wire.Usage.{
  HasDecimal, read-struct, text_or_empty-unless_empty, read_usage-usage_json,
}

infixl 5 ◌>>=◌
abbrev ◌>>=◌ {ℓ κ} : {A : Type ℓ} {B : Type κ} → Option A → (A → Option B) → Option B
m >>= f = and_then m f

-- the first of the choices
abbrev pub first_item : Json → Option Json
first_item (arr (cons v vs)) = some v
first_item _ = none

-- `ChatMessage`, as the fields of an answer
pub record Message : Type 0 where
  pub role : Text
  pub content : Option Text
  pub reasoning_content : Text
  pub tool_calls : List Json

unfoldable pub message_of : Getter → Option Message
message_of get = do
  role ← required read_text (get (codes "role"))
  content ← required text_or_null (get (codes "content"))
  reasoning ← text_or_empty (get (codes "reasoning_content"))
  calls ← array_or_empty some (get (codes "tool_calls"))
  some
      (record { role = role; content = content; reasoning_content = reasoning; tool_calls = calls })

abbrev read_message : Json → Option Message
read_message j = message_of (λ k. field k j)

abbrev pub Choice : Type 0
Choice = Message × Text

unfoldable pub choice_of : Getter → Option Choice
choice_of get = do
  message ← required read_message (get (codes "message"))
  reason ← required read_text (get (codes "finish_reason"))
  some (message, reason)

abbrev read_choice : Json → Option Choice
read_choice j = choice_of (λ k. field k j)

abbrev read_choices : Json → Option Choice
read_choices j = and_then (first_item j) read_choice

-- `ChatCompletion`
unfoldable pub completion_of : Getter → Option ChatCompletion
completion_of get = do
  id ← required read_text (get (codes "id"))
  created ← required read_nat (get (codes "created"))
  model ← required read_text (get (codes "model"))
  choice ← required read_choices (get (codes "choices"))
  usage ← required read_usage (get (codes "usage"))
  some (record {
    id = id;
    created = created;
    model = model;
    role = choice.0.role;
    content = choice.0.content;
    reasoning_content = choice.0.reasoning_content;
    tool_calls = choice.0.tool_calls;
    finish_reason = choice.1;
    usage = usage;
  })

abbrev pub read_completion : Json → Option ChatCompletion
read_completion j = completion_of (λ k. field k j)

message_of_completion : ChatCompletion → Message
message_of_completion c = record {
  role = c.role;
  content = c.content;
  reasoning_content = c.reasoning_content;
  tool_calls = c.tool_calls;
}

items-read : (l : List Json) → read_items some (array l) ≡ some l
unfolding read_items
items-read [] = refl
items-read (v ∷ vs) = rw (items-read vs) refl

values-read : (l : List Json) → array_or_empty some (unless_no_items l) ≡ some l
values-read [] = refl
values-read (v ∷ vs) = items-read (v ∷ vs)

read_message-message_json :
    (c : ChatCompletion) → read_message (message_json c) ≡ some (message_of_completion c)
unfolding message_of find distinct text_discrete message_of_completion
read_message-message_json c =
    read-struct message_of _ refl
    ∙ rw
        (
          text_or_null-or_null c.content,
          text_or_empty-unless_empty c.reasoning_content,
          values-read c.tool_calls,
        )
        refl

read_choice-only_choice_json :
    (c : ChatCompletion)
    → read_choice (only_choice_json c) ≡ some (message_of_completion c, c.finish_reason)
unfolding choice_of find distinct text_discrete
read_choice-only_choice_json c =
    read-struct choice_of _ refl ∙ rw (read_message-message_json c) refl

completion-read :
    (c : ChatCompletion)
    → HasDecimal c.usage.credits.credit
    → read_completion (completion_json c) ≡ some c
unfolding completion_json completion_of find distinct text_discrete message_of_completion
completion-read c h =
    read-struct completion_of _ refl
    ∙ rw
        (
          read_decimal-decimal c.created,
          read_choice-only_choice_json c,
          read_usage-usage_json c.usage h,
        )
        refl

-- A client that reads a blocking answer by the names of its fields finds in it all that was put into it,
-- although empty fields are left out: the identifier, the time, the model, the message with its text or
-- the absence of one, its reasoning and its calls, the finish reason, and the usage with its exact credits.
pub read_completion-completion_json :
    (fresh : Fresh) (b : Tally) (requested : Text) (resp : Reply)
    → read_completion (completion_json (chat_blocking fresh b requested resp))
      ≡ some (chat_blocking fresh b requested resp)
unfolding chat_blocking
read_completion-completion_json fresh b requested resp =
    completion-read (chat_blocking fresh b requested resp) (apply-HasDecimal fresh.report_id b)

-- `Bucket`
unfoldable pub bucket_of : Getter → Option Bucket
bucket_of get = do
  day ← required read_text (get (codes "day"))
  alias ← required read_text (get (codes "alias"))
  provider ← required read_text (get (codes "provider"))
  model ← required read_text (get (codes "model"))
  requests ← required read_nat (get (codes "requests"))
  failures ← required read_nat (get (codes "failures"))
  input ← required read_nat (get (codes "input_tokens"))
  output ← required read_nat (get (codes "output_tokens"))
  read ← required read_nat (get (codes "cache_read_tokens"))
  written ← required read_nat (get (codes "cache_write_tokens"))
  reported ← required read_nat (get (codes "cache_reported_requests"))
  reported_input ← required read_nat (get (codes "cache_reported_input_tokens"))
  estimated ← required read_nat (get (codes "estimated_requests"))
  some (record {
    day = day;
    alias = alias;
    provider = provider;
    model = model;
    requests = requests;
    failures = failures;
    input_tokens = input;
    output_tokens = output;
    cache_read_tokens = read;
    cache_write_tokens = written;
    cache_reported_requests = reported;
    cache_reported_input_tokens = reported_input;
    estimated_requests = estimated;
  })

abbrev pub read_bucket : Json → Option Bucket
read_bucket j = bucket_of (λ k. field k j)

abbrev pub read_stats : Json → Option (List Bucket)
read_stats j = required (read_array read_bucket) (field (codes "buckets") j)

read_bucket-bucket_json : (b : Bucket) → read_bucket (bucket_json b) ≡ some b
unfolding bucket_json bucket_of find distinct text_discrete
read_bucket-bucket_json b =
    read-struct bucket_of _ refl
    ∙ rw
        (
          read_decimal-decimal b.requests,
          read_decimal-decimal b.failures,
          read_decimal-decimal b.input_tokens,
          read_decimal-decimal b.output_tokens,
          read_decimal-decimal b.cache_read_tokens,
          read_decimal-decimal b.cache_write_tokens,
          read_decimal-decimal b.cache_reported_requests,
          read_decimal-decimal b.cache_reported_input_tokens,
          read_decimal-decimal b.estimated_requests,
        )
        refl

pub read_stats-stats_json : (rows : List Bucket) → read_stats (stats_json rows) ≡ some rows
unfolding stats_json find distinct text_discrete
read_stats-stats_json rows =
    rw (field-struct (codes "buckets") _ refl)
      (read_items-array read_bucket bucket_json rows (All-of _ read_bucket-bucket_json rows))
