-- ===== src/Request/Accepted.antt =====
-- internal/llm/adapter.go: which requests `BuildOptions` accepts.
use smolllm_server.Adapter.{is_json_null_or_empty, decode_stop, RequestError}
use smolllm_server.Base.{
  ◌≡◌, ◌≢◌, ◌↔◌, refl, ap, true, false, Option, none, some, List, [], ◌∷◌, arith, text_eq, Text,
  codes, trim_space, ℤ, pos, negsuc, ltb_ℤ, leb_ℤ, Result, ok, err, ◌>>=◌, >>=-eq-ok, Bool-cases,
  inl, inr,
}
use smolllm_server.Json.{Json, null, arr, obj, nil, end}
use smolllm_server.Messages.{MessageApi}
use smolllm_server.Request.{ChatRequest, raw_field}
use smolllm_server.Request.Options.{
  CallOption, PromptApi, relabel, check_count, is_nil, check_request, max_tokens_options,
  stop_options, timeout_options, build_prompt, build_options, invalid_stop, with_stop,
  with_max_tokens, with_timeout,
}

-- a result that is no error
abbrev pub Succeeds {ℓ κ} : {E : Type ℓ} {A : Type κ} → Result E A → Type (ℓ ⊔ κ)
Succeeds {A = A} r = (a : A) × (r ≡ ok a)

Succeeds->>= {ℓ κ μ} :
    {E : Type ℓ} {A : Type κ} {B : Type μ} (r : Result E A) (next : A → Result E B) {a : A}
    → r ≡ ok a
    → Succeeds (next a)
    → Succeeds (r >>= next)
Succeeds->>= r next e s = rw e s

abbrev pub IsOne : Option ℤ → Type 0
IsOne none = Unit
IsOne (some i) = i ≡ pos 1

abbrev pub IsPositive : Option ℤ → Type 0
IsPositive none = Unit
IsPositive (some i) = ltb_ℤ (pos 0) i ≡ true

abbrev pub IsNotNegative : {Message : Type 0} → PromptApi Message → Option Text → Type 0
IsNotNegative lib none = Unit
IsNotNegative lib (some t) = lib.is_negative t ≡ false

check_count_iff : (o : Option ℤ) → (check_count o ≡ ok tt) ↔ IsOne o
unfolding check_count
check_count_iff none = ground arith
check_count_iff (some (pos i)) =
    (λ h. ap pos (ground (arith, h)), λ h. let e : i ≡ 1 = cc h in rw e refl)
check_count_iff (some (negsuc i)) = (λ h. absurd (ground (arith, h)), λ h. cc h)

is_nil_iff {ℓ} : {A : Type ℓ} (l : List A) → (is_nil l ≡ false) ↔ (l ≢ [])
is_nil_iff [] = ((λ h. cc h), (λ h. absurd (h refl)))
is_nil_iff (x ∷ l) = ((λ h e. cc e), (λ h. refl))

check_request_iff :
    {Message : Type 0} (req : ChatRequest Message)
    → (check_request req ≡ ok tt) ↔ (
        (trim_space req.model ≢ [])
        × (req.messages ≢ [])
        × (is_json_null_or_empty (raw_field req (codes "functions")) ≡ true)
        × IsOne req.n)
unfolding check_request
check_request_iff req = ground (arith, is_nil_iff req.messages, check_count_iff req.n)

max_tokens_options_iff : (o : Option ℤ) → Succeeds (max_tokens_options o) ↔ IsPositive o
unfolding max_tokens_options
max_tokens_options_iff none = (λ _. tt, λ _. (_, refl))
max_tokens_options_iff (some i) = elim (Bool-cases (leb_ℤ i (pos 0))) [
  | inl low ↦ ((λ (_, e). cc (rw low at e)), (λ h. absurd (ground (arith, low, h))))
  | inr high ↦ ((λ h. ground (arith, high)), (λ h. (with_max_tokens i ∷ [], rw high refl)))
]

chain_iff {ℓ} :
    {A : Type ℓ} (r : Result RequestError A) (make : A → List CallOption)
    → Succeeds (relabel invalid_stop r >>= λ a. ok (make a)) ↔ Succeeds r
chain_iff (err e) make = ((λ (_, h). cc h), (λ (_, h). cc h))
chain_iff (ok a) make = ((λ _. (a, refl)), (λ _. (make a, refl)))

decode_stop_empty : (raw : Option Json) → is_json_null_or_empty raw ≡ true → decode_stop raw ≡ ok []
unfolding decode_stop is_json_null_or_empty
decode_stop_empty none h = refl
decode_stop_empty (some null) h = refl
decode_stop_empty (some (arr nil)) h = refl
decode_stop_empty (some (obj end)) h = refl
decode_stop_empty (some v) h = cc h

stop_options_iff : (raw : Option Json) → Succeeds (stop_options raw) ↔ Succeeds (decode_stop raw)
unfolding stop_options
stop_options_iff raw = elim (Bool-cases (is_json_null_or_empty raw)) [
  | inl empty ↦ ((λ _. ([], decode_stop_empty raw empty)), (λ _. ([], rw empty refl)))
  | inr full ↦ rw full (chain_iff (decode_stop raw) (λ stops. with_stop stops ∷ []))
]

timeout_options_iff :
    {Message : Type 0} (lib : PromptApi Message) (default : ℤ) (o : Option Text)
    → Succeeds (timeout_options lib default o) ↔ IsNotNegative lib o
unfolding timeout_options
timeout_options_iff lib default none = (λ _. tt, λ _. (_, refl))
timeout_options_iff lib default (some t) = elim (Bool-cases (lib.is_negative t)) [
  | inl negative ↦ ((λ (_, e). cc (rw negative at e)), (λ h. cc (negative, h)))
  | inr fine ↦ ((λ h. fine), (λ h. (with_timeout (lib.nanoseconds t) ∷ [], rw fine refl)))
]

module _ (api : MessageApi) (lib : PromptApi api.Message) (float_of : Text → Option Text)
    (req : ChatRequest api.Message) where
  -- what a request must be
  abbrev pub Acceptable : Type 0
  Acceptable =
      (trim_space req.model ≢ [])
      × (req.messages ≢ [])
      × (is_json_null_or_empty (raw_field req (codes "functions")) ≡ true)
      × IsOne req.n
      × Succeeds (build_prompt api lib float_of req)
      × IsPositive req.max_tokens
      × Succeeds (decode_stop (raw_field req (codes "stop")))
      × IsNotNegative lib req.timeout

  -- `BuildOptions` answers without an error exactly if the model is not blank, there are messages,
  -- no functions are given, `n` is absent or 1, the messages can be restored and are valid,
  -- `max_tokens` is absent or positive, the stop texts decode, and the timeout is absent or not
  -- negative. Aliases and the configured timeouts have no part in it.
  pub build_options-Succeeds :
      (resolve : Option (Text → Text)) (default : ℤ) (first_output : Option ℤ)
      → Succeeds (build_options api lib float_of req resolve default first_output) ↔ Acceptable
  unfolding build_options
  build_options-Succeeds resolve default first_output = (
    λ (_, e).
        let (_, checked, e1) = >>=-eq-ok (check_request req) _ e in
        let (prompt, built, e2) = >>=-eq-ok (build_prompt api lib float_of req) _ e1 in
        let (_, tokens, e3) = >>=-eq-ok (max_tokens_options req.max_tokens) _ e2 in
        let (_, stops, e4) = >>=-eq-ok (stop_options (raw_field req (codes "stop"))) _ e3 in
        let (_, timeouts, _) = >>=-eq-ok (timeout_options lib default req.timeout) _ e4 in
        let (model, messages, functions, n) = (check_request_iff req).0 checked in
        (
          model,
          messages,
          functions,
          n,
          (prompt, built),
          (max_tokens_options_iff req.max_tokens).0 (_, tokens),
          (stop_options_iff (raw_field req (codes "stop"))).0 (_, stops),
          (timeout_options_iff lib default req.timeout).0 (_, timeouts),
        ),
    λ (model, messages, functions, n, (prompt, built), tokens, stops, timeout).
        let checked = (check_request_iff req).1 (model, messages, functions, n) in
        let (_, t) = (max_tokens_options_iff req.max_tokens).1 tokens in
        let (_, s) = (stop_options_iff (raw_field req (codes "stop"))).1 stops in
        let (_, u) = (timeout_options_iff lib default req.timeout).1 timeout in
        Succeeds->>= (check_request req) _ checked (
          Succeeds->>= (build_prompt api lib float_of req) _ built (
            Succeeds->>= (max_tokens_options req.max_tokens) _ t (
              Succeeds->>= (stop_options (raw_field req (codes "stop"))) _ s
                (Succeeds->>= (timeout_options lib default req.timeout) _ u (_, refl))))),
  )
