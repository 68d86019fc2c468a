-- ===== src/Wire/Encode/Frames.antt =====
-- internal/llm/types.go: the number literals of an encoded frame, field by field.
use smolllm_server.Base.{
  ℕ, zero, suc, ◌-◌, ◌≡◌, refl, true, Option, none, some, List, [], ◌∷◌, map, Text, codes, leb,
  all-append, text_eq, decimal, replicate, length, All, All-map,
}
use smolllm_server.Chat.{CompletionUsage, DeltaToolCall, Delta, Choice, Chunk}
use smolllm_server.Json.{Json, num, str}
use smolllm_server.Wire.{
  Fields, present, struct, array, unless_empty, unless_no_items, unless_nil, or_null, int,
  decimal_text, padded, point, usage_fields, delta_fields, choice_fields, chunk_fields, usage_json,
  delta_json, choice_json, chunk_json, stream_error_json,
}
use smolllm_server.Wire.Encode.Literals.{is_plain-decimal, CallLiterals, ChoiceLiterals}
use smolllm_server.Wire.Encode.Lines.{is_plain, HasLiterals, HaveLiterals, MembersHaveLiterals}

is_plain-zeros : (k : ℕ) → is_plain (replicate k b'0') ≡ true
is_plain-zeros zero = refl
is_plain-zeros (suc k) = is_plain-zeros k

is_plain-places :
    (whole fraction places : ℕ)
    → is_plain (decimal_text (record { whole = whole; fraction = fraction; places = places }))
      ≡ true
unfolding decimal_text
is_plain-places w f zero = is_plain-decimal w
is_plain-places w f (suc n) =
    rw
      (
        all-append (leb 32) (decimal w) (point ∷ padded (suc n) (decimal f)),
        is_plain-decimal w,
        all-append (leb 32) (replicate (suc n - length (decimal f)) b'0') (decimal f),
        is_plain-zeros (suc n - length (decimal f)),
      )
      (is_plain-decimal f)

-- the values of fields that are not left out
abbrev OptLiterals : Option Json → Type 0
OptLiterals none = Unit {0}
OptLiterals (some v) = HasLiterals v

abbrev FieldLiterals : Fields → Type 0
FieldLiterals [] = Unit {0}
FieldLiterals ((k, v) ∷ fs) = OptLiterals v × FieldLiterals fs

present-HaveLiterals : (fs : Fields) → FieldLiterals fs → MembersHaveLiterals (present fs)
unfolding present
present-HaveLiterals [] h = tt
present-HaveLiterals ((k, none) ∷ fs) (h, hs) = present-HaveLiterals fs hs
present-HaveLiterals ((k, some v) ∷ fs) (h, hs) = (h, present-HaveLiterals fs hs)

unless_empty-Opt : (s : Text) → OptLiterals (unless_empty s)
unless_empty-Opt [] = tt
unless_empty-Opt (c ∷ s) = tt

unless_nil-Opt {ℓ} :
    {A : Type ℓ} (f : A → Json) (o : Option A)
    → ((a : A) → HasLiterals (f a))
    → OptLiterals (unless_nil f o)
unless_nil-Opt f none h = tt
unless_nil-Opt f (some a) h = h a

or_null-HasLiterals : (o : Option Text) → HasLiterals (or_null o)
or_null-HasLiterals none = tt
or_null-HasLiterals (some s) = tt

cached_json : ℕ → Json
cached_json n = struct ((codes "cached_tokens", some (int n)) ∷ [])

usage_json-HasLiterals : (u : CompletionUsage) → HasLiterals (usage_json u)
unfolding usage_json cached_json
usage_json-HasLiterals u = present-HaveLiterals (usage_fields u) (
    (
      unless_nil-Opt (λ d. num (decimal_text d)) u.credits.credit
          (λ d. is_plain-places d.whole d.fraction d.places),
      (
        unless_empty-Opt u.credits.report_id,
        (
          tt,
          (
            is_plain-decimal u.credits.attempts,
            (
              is_plain-decimal u.credits.known_attempts,
              (
                is_plain-decimal u.tokens.prompt_tokens,
                (
                  is_plain-decimal u.tokens.completion_tokens,
                  (
                    is_plain-decimal u.tokens.total_tokens,
                    (
                      unless_nil-Opt cached_json u.tokens.cached_tokens (λ n.
                          present-HaveLiterals ((codes "cached_tokens", some (int n)) ∷ [])
                            (is_plain-decimal n, tt)),
                      (
                        unless_nil-Opt int u.tokens.cache_creation_input_tokens is_plain-decimal,
                        tt,
                      ),
                    ),
                  ),
                ),
              ),
            ),
          ),
        ),
      ),
    ))

array-HaveLiterals {ℓ} :
    {A : Type ℓ} (f : A → Json) (l : List A)
    → All (λ a. HasLiterals (f a)) l
    → HaveLiterals (array (map f l))
array-HaveLiterals f [] h = tt
array-HaveLiterals f (a ∷ l) (h, hs) = (h, array-HaveLiterals f l hs)

calls-Opt :
    (ds : List DeltaToolCall)
    → All CallLiterals ds
    → OptLiterals (unless_no_items (map (λ (c : DeltaToolCall). c.call) ds))
calls-Opt [] h = tt
calls-Opt (d ∷ ds) h = array-HaveLiterals (λ (c : DeltaToolCall). c.call) (d ∷ ds) h

delta_json-HasLiterals : (d : Delta) → All CallLiterals d.tool_calls → HasLiterals (delta_json d)
unfolding delta_json
delta_json-HasLiterals d h = present-HaveLiterals (delta_fields d) (
    (
      unless_empty-Opt d.role,
      (
        unless_empty-Opt d.content,
        (unless_empty-Opt d.reasoning_content, (calls-Opt d.tool_calls h, tt)),
      ),
    ))

choice_json-HasLiterals : (c : Choice) → ChoiceLiterals c → HasLiterals (choice_json c)
unfolding choice_json
choice_json-HasLiterals c h = present-HaveLiterals (choice_fields c) (
    (
      is_plain-decimal 0,
      (delta_json-HasLiterals c.delta h, (or_null-HasLiterals c.finish_reason, tt)),
    ))

pub chunk_json-HasLiterals : (c : Chunk) → All ChoiceLiterals c.choices → HasLiterals (chunk_json c)
unfolding chunk_json
chunk_json-HasLiterals c h = present-HaveLiterals (chunk_fields c) (
    (
      tt,
      (
        tt,
        (
          is_plain-decimal c.created,
          (
            tt,
            (
              array-HaveLiterals choice_json c.choices
                  (All-map choice_json-HasLiterals c.choices h),
              (
                unless_nil-Opt usage_json c.usage usage_json-HasLiterals,
                (
                  unless_nil-Opt stream_error_json c.error (λ m.
                      present-HaveLiterals
                        ((codes "message", some (str m))
                          ∷ (codes "type", some (str (codes "api_error")))
                          ∷ [])
                        (tt, (tt, tt))),
                  tt,
                ),
              ),
            ),
          ),
        ),
      ),
    ))
