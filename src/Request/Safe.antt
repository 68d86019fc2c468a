-- ===== src/Request/Safe.antt =====
-- internal/llm/adapter.go: what `BuildOptions` hands to the library.
use smolllm_server.Adapter.{is_json_null_or_empty, decode_stop, pass_through_fields, RequestError}
use smolllm_server.Adapter.Fields.{lookup-pass_through_fields}
use smolllm_server.Adapter.Inputs.{decode_stop_solid}
use smolllm_server.Base.{
  ◌≡◌, ◌≢◌, refl, true, false, Option, none, some, List, [], ◌∷◌, ◌++◌, arith, text_eq,
  text_discrete, Text, trim_space, Dict, lookup, ℤ, pos, codes, ltb_ℤ, leb_ℤ, Result, ok, err,
  ◌>>=◌, Bool-cases, inl, inr, subst, ok-inj, AllOk, >>=-AllOk, All, All-append,
}
use smolllm_server.Json.{Json}
use smolllm_server.Messages.{MessageApi}
use smolllm_server.Request.{ChatRequest, raw_field}
use smolllm_server.Request.Options.{
  CallOption, with_model, with_temperature, with_top_p, with_reasoning_effort, with_max_tokens,
  with_seed, with_stop, with_extra_body, with_timeout, with_first_output_timeout, PromptApi,
  relabel, invalid_stop, option_of, max_tokens_options, stop_options, reasoning_options,
  body_options, timeout_options, build_prompt, build_options, check_request, check_prompt,
  not_restored, all_options,
}

-- no key that `smolllm.WithExtraBody` panics at
abbrev pub IsUnreserved : Dict Text Json → Type 0
IsUnreserved fields =
    (lookup (codes "stream") fields ≡ none)
    × (lookup (codes "stream_options") fields ≡ none)
    × (lookup (codes "messages") fields ≡ none)
    × (lookup (codes "model") fields ≡ none)

-- the count of nanoseconds of a timeout of the request that is not negative, or a positive default
abbrev pub IsTimeout : {Message : Type 0} → PromptApi Message → ℤ → Option Text → ℤ → Type 0
IsTimeout lib default (some t) d = (lib.is_negative t ≡ false) × (d ≡ lib.nanoseconds t)
IsTimeout lib default none d = (ltb_ℤ (pos 0) default ≡ true) × (d ≡ default)

-- what the library may be given, with what a timeout may be
abbrev pub IsSafe : (ℤ → Type 0) → CallOption → Type 0
IsSafe T (with_max_tokens i) = ltb_ℤ (pos 0) i ≡ true
IsSafe T (with_stop stops) = All (λ s. trim_space s ≢ []) stops
IsSafe T (with_extra_body fields) = (fields ≢ []) × IsUnreserved fields
IsSafe T (with_reasoning_effort s) = trim_space s ≢ []
IsSafe T (with_timeout t) = T t
IsSafe T (with_model _) = Unit
IsSafe T (with_temperature _) = Unit
IsSafe T (with_top_p _) = Unit
IsSafe T (with_seed _) = Unit
IsSafe T (with_first_output_timeout _) = Unit

pass_through_fields-IsUnreserved : (ms : Dict Text Json) → IsUnreserved (pass_through_fields ms)
unfolding text_discrete
pass_through_fields-IsUnreserved ms = (
  lookup-pass_through_fields (codes "stream") ms,
  lookup-pass_through_fields (codes "stream_options") ms,
  lookup-pass_through_fields (codes "messages") ms,
  lookup-pass_through_fields (codes "model") ms,
)

module _ (T : ℤ → Type 0) where
  abbrev SafeList : Type 0
  SafeList = (opts : List CallOption) × All (IsSafe T) opts

  infixl 20 ◌⊕◌
  abbrev ◌⊕◌ : SafeList → SafeList → SafeList
  (xs, h) ⊕ (ys, k) = (xs ++ ys, All-append (IsSafe T) xs ys h k)

  body_options-IsSafe :
      (fields : Dict Text Json) → IsUnreserved fields → All (IsSafe T) (body_options fields)
  body_options-IsSafe [] free = tt
  body_options-IsSafe (f ∷ fields) free = (((λ e. cc e), free), tt)

  max_tokens_options-IsSafe :
      (o : Option ℤ) {opts : List CallOption} → max_tokens_options o ≡ ok opts → All (IsSafe T) opts
  unfolding max_tokens_options
  max_tokens_options-IsSafe none e = subst (All (IsSafe T)) (ok-inj e) tt
  max_tokens_options-IsSafe (some i) e = elim (Bool-cases (leb_ℤ i (pos 0))) [
    | inl low ↦ cc (rw low at e)
    | inr high ↦ subst (All (IsSafe T)) (ok-inj (rw high at e)) (ground (arith, high), tt)
  ]

  relabelled_stops-IsSafe :
      (r : Result RequestError (List Text)) {opts : List CallOption}
      → ((l : List Text) → r ≡ ok l → All (λ s. trim_space s ≢ []) l)
      → (relabel invalid_stop r >>= λ stops. ok (with_stop stops ∷ [])) ≡ ok opts
      → All (IsSafe T) opts
  relabelled_stops-IsSafe (err x) solid e = cc e
  relabelled_stops-IsSafe (ok l) {opts} solid e =
      subst (All (IsSafe T)) (ok-inj e) (solid l refl, tt)

  stop_options-IsSafe :
      (raw : Option Json) {opts : List CallOption}
      → stop_options raw ≡ ok opts
      → All (IsSafe T) opts
  unfolding stop_options
  stop_options-IsSafe raw {opts} e = elim (Bool-cases (is_json_null_or_empty raw)) [
    | inl empty ↦ subst (All (IsSafe T)) (ok-inj (rw empty at e)) tt
    | inr full ↦
        relabelled_stops-IsSafe (decode_stop raw) (λ l. decode_stop_solid raw) (rw full at e)
  ]

  option_of-IsSafe {ℓ} :
      {A : Type ℓ} (make : A → CallOption)
      → ((a : A) → IsSafe T (make a))
      → (o : Option A) → All (IsSafe T) (option_of make o)
  option_of-IsSafe make safe none = tt
  option_of-IsSafe make safe (some a) = (safe a, tt)

  reasoning_options-IsSafe : (o : Option Text) → All (IsSafe T) (reasoning_options o)
  unfolding reasoning_options
  reasoning_options-IsSafe none = tt
  reasoning_options-IsSafe (some s) = ground arith

  all_options-IsSafe :
      {Message : Type 0} (req : ChatRequest Message) (resolve : Option (Text → Text))
      (tokens stops timeouts : List CallOption) (first_output : Option ℤ)
      → All (IsSafe T) tokens
      → All (IsSafe T) stops
      → All (IsSafe T) timeouts
      → All (IsSafe T) (all_options req resolve tokens stops timeouts first_output)
  unfolding all_options
  all_options-IsSafe req resolve tokens stops timeouts first_output t s u = (
    tt,
    ((_, option_of-IsSafe with_temperature (λ _. tt) req.temperature)
        ⊕ (_, option_of-IsSafe with_top_p (λ _. tt) req.top_p)
        ⊕ (tokens, t)
        ⊕ (stops, s)
        ⊕ (_, option_of-IsSafe with_seed (λ _. tt) req.seed)
        ⊕ (_, reasoning_options-IsSafe req.reasoning_effort)
        ⊕ (
          _,
          body_options-IsSafe (pass_through_fields req.members)
              (pass_through_fields-IsUnreserved req.members),
        )
        ⊕ (timeouts, u)
        ⊕ (_, option_of-IsSafe with_first_output_timeout (λ _. tt) first_output)).1,
  )

check_prompt-eq {ℓ} :
    {A : Type ℓ} (o : Option Text) (prompt : A) {p : A}
    → check_prompt o prompt ≡ ok p
    → (o ≡ none) × (prompt ≡ p)
check_prompt-eq none prompt e = (refl, ok-inj e)
check_prompt-eq (some problem) prompt e = cc e

module _ (api : MessageApi) (lib : PromptApi api.Message) (float_of : Text → Option Text) where
  timeout_options-IsSafe :
      (default : ℤ) (o : Option Text) {opts : List CallOption}
      → timeout_options lib default o ≡ ok opts
      → All (IsSafe (IsTimeout lib default o)) opts
  unfolding timeout_options
  timeout_options-IsSafe default none e =
      let Safe = IsSafe (IsTimeout lib default none) in
      subst (All Safe) (ok-inj e) (elim (Bool-cases (ltb_ℤ (pos 0) default)) [
        | inl positive ↦ rw positive ((positive, refl), tt)
        | inr zero_or_less ↦ rw zero_or_less tt
      ])
  timeout_options-IsSafe default (some t) e = elim (Bool-cases (lib.is_negative t)) [
    | inl negative ↦ cc (rw negative at e)
    | inr fine ↦
        subst (All (IsSafe (IsTimeout lib default (some t)))) (ok-inj (rw fine at e))
          ((fine, refl), tt)
  ]

  build_prompt-validate :
      (req : ChatRequest api.Message)
      → AllOk (λ prompt. lib.validate prompt ≡ none) (build_prompt api lib float_of req)
  unfolding build_prompt
  build_prompt-validate req = >>=-AllOk (relabel not_restored _) _ (λ messages _ prompt e.
      let (valid, same) = check_prompt-eq (lib.validate messages) messages e in
      subst (λ m. lib.validate m ≡ none) same valid)

  build_options-AllOk :
      (req : ChatRequest api.Message) (resolve : Option (Text → Text)) (default : ℤ)
      (first_output : Option ℤ)
      → AllOk
          (λ (prompt, opts).
            (lib.validate prompt ≡ none) × All (IsSafe (IsTimeout lib default req.timeout)) opts)
          (build_options api lib float_of req resolve default first_output)
  unfolding build_options
  build_options-AllOk req resolve default first_output = >>=-AllOk (check_request req) _ (λ _ _.
      >>=-AllOk (build_prompt api lib float_of req) _ (λ prompt built.
        >>=-AllOk (max_tokens_options req.max_tokens) _ (λ tokens t.
          >>=-AllOk (stop_options (raw_field req (codes "stop"))) _ (λ stops s.
            >>=-AllOk (timeout_options lib default req.timeout) _ (λ timeouts u r e.
              subst
                (λ (p, opts).
                  (lib.validate p ≡ none) × All (IsSafe (IsTimeout lib default req.timeout)) opts)
                (ok-inj e)
                (
                  build_prompt-validate req prompt built,
                  all_options-IsSafe (IsTimeout lib default req.timeout) req resolve tokens stops
                      timeouts first_output
                      (max_tokens_options-IsSafe (IsTimeout lib default req.timeout) req.max_tokens
                        t)
                      (stop_options-IsSafe (IsTimeout lib default req.timeout)
                        (raw_field req (codes "stop")) s)
                      (timeout_options-IsSafe default req.timeout u),
                ))))))

  -- Whatever the request and the configuration, the prompt that `BuildOptions` answers is valid, and
  -- its options are within their bounds: the token limit is positive, no stop text and no reasoning
  -- effort is blank, a timeout is the count of nanoseconds of the request's, which is not negative, or
  -- without one the configured default, which is positive, and the extra body is not empty and has
  -- none of the keys at which the library panics: `stream`, `stream_options`, `messages`, `model`.
  pub build_options-IsSafe :
      (req : ChatRequest api.Message) (resolve : Option (Text → Text)) (default : ℤ)
      (first_output : Option ℤ) {prompt : List api.Message} {opts : List CallOption}
      → build_options api lib float_of req resolve default first_output ≡ ok (prompt, opts)
      → (lib.validate prompt ≡ none) × All (IsSafe (IsTimeout lib default req.timeout)) opts
  build_options-IsSafe req resolve default first_output {prompt} {opts} e =
      build_options-AllOk req resolve default first_output (prompt, opts) e
