-- ===== src/Wire/Usage.antt =====
-- internal/llm/types.go: what a client reads of an encoded `CompletionUsage`.
use smolllm_server.Base.{
  ℕ, ◌≡◌, refl, ap, ◌∙◌, fun_ext, true, Option, none, some, [], ◌∷◌, Text, codes, text_discrete,
  read_decimal-decimal,
}
use smolllm_server.Chat.{CompletionUsage}
use smolllm_server.Credit.{Decimal}
use smolllm_server.Json.{Json, num}
use smolllm_server.Wire.{Fields, struct, unless_empty, unless_nil, decimal_text, usage_json, int}
use smolllm_server.Wire.Decimals.{IsDecimal, read_fixed-decimal_text}
use smolllm_server.Wire.Fields.{field, find, distinct, field-struct}
use smolllm_server.Wire.Read.{
  Getter, usage_of, read_usage, read_nat, optional, text_or_empty, read_fixed, cached_of,
}

-- a reader by names sees the fields of the struct
pub read-struct {ℓ} :
    {A : Type ℓ} (f : Getter → Option A) (fs : Fields)
    → distinct fs ≡ true
    → f (λ k. field k (struct fs)) ≡ f (λ k. find k fs)
read-struct f fs d = ap f (fun_ext (λ k. field-struct k fs d))

pub text_or_empty-unless_empty : (s : Text) → text_or_empty (unless_empty s) ≡ some s
text_or_empty-unless_empty [] = refl
text_or_empty-unless_empty (c ∷ s) = refl

abbrev pub ReadsBack {ℓ} : {A : Type ℓ} → (Json → Option A) → (A → Json) → Option A → Type ℓ
ReadsBack f g none = Unit
ReadsBack f g (some a) = f (g a) ≡ some a

pub optional-unless_nil {ℓ} :
    {A : Type ℓ} (f : Json → Option A) (g : A → Json) (o : Option A)
    → ReadsBack f g o
    → optional f (unless_nil g o) ≡ some o
optional-unless_nil f g none h = refl
optional-unless_nil f g (some a) h = rw h refl

abbrev pub HasDecimal : Option Decimal → Type 0
HasDecimal none = Unit {0}
HasDecimal (some d) = IsDecimal d

cached_json : ℕ → Json
cached_json n = struct ((codes "cached_tokens", some (int n)) ∷ [])

credit_json : Decimal → Json
credit_json d = num (decimal_text d)

ReadsBack-credit : (o : Option Decimal) → HasDecimal o → ReadsBack read_fixed credit_json o
unfolding credit_json
ReadsBack-credit none h = tt
ReadsBack-credit (some d) h = read_fixed-decimal_text d h

ReadsBack-cached : (o : Option ℕ) → ReadsBack cached_of cached_json o
unfolding cached_json find distinct text_discrete
ReadsBack-cached none = tt
ReadsBack-cached (some n) =
    rw (field-struct (codes "cached_tokens") ((codes "cached_tokens", some (int n)) ∷ []) refl)
      (read_decimal-decimal n)

ReadsBack-int : (o : Option ℕ) → ReadsBack read_nat int o
ReadsBack-int none = tt
ReadsBack-int (some n) = read_decimal-decimal n

pub read_usage-usage_json :
    (u : CompletionUsage) → HasDecimal u.credits.credit → read_usage (usage_json u) ≡ some u
unfolding usage_json usage_of find distinct text_discrete cached_json credit_json
read_usage-usage_json u h =
    let credit =
      optional-unless_nil read_fixed credit_json u.credits.credit
        (ReadsBack-credit u.credits.credit h) in
    let cached =
      optional-unless_nil cached_of cached_json u.tokens.cached_tokens
        (ReadsBack-cached u.tokens.cached_tokens) in
    let written =
      optional-unless_nil read_nat int u.tokens.cache_creation_input_tokens
        (ReadsBack-int u.tokens.cache_creation_input_tokens) in
    read-struct usage_of _ refl
    ∙ rw
        (
          credit,
          text_or_empty-unless_empty u.credits.report_id,
          read_decimal-decimal u.credits.attempts,
          read_decimal-decimal u.credits.known_attempts,
          read_decimal-decimal u.tokens.prompt_tokens,
          read_decimal-decimal u.tokens.completion_tokens,
          read_decimal-decimal u.tokens.total_tokens,
          cached,
          written,
        )
        refl
