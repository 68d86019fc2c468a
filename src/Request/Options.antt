-- ===== src/Request/Options.antt =====
-- internal/llm/adapter.go: `BuildOptions`, for a request that is not nil. The messages of the prompt,
-- its `Validate`, the sign of a float64 and its count of nanoseconds are parameters.
use smolllm_server.Adapter.{is_json_null_or_empty, decode_stop, pass_through_fields, RequestError}
use smolllm_server.Base.{
  Bool, true, false, not, ◌&&◌, Option, none, some, List, [], ◌∷◌, ◌++◌, if◌then◌else◌, ◌==◌,
  text_eq, Text, codes, trim_space, Dict, ℤ, pos, ltb_ℤ, leb_ℤ, Result, ok, err, ◌>>=◌,
}
use smolllm_server.Json.{Json}
use smolllm_server.Messages.{MessageApi, RestoreError}
use smolllm_server.Messages.Restore.{restore_tool_call_extras, restore_message_extras}
use smolllm_server.Request.{ChatRequest, raw_field}

-- the calls of `smolllm.With…`, durations in nanoseconds
pub data CallOption : Type 0 where
  with_model with_temperature with_top_p with_reasoning_effort : Text → CallOption
  with_max_tokens with_seed : ℤ → CallOption
  with_stop : List Text → CallOption
  with_extra_body : Dict Text Json → CallOption
  with_timeout with_first_output_timeout : ℤ → CallOption

pub data BuildError : Type 0 where
  no_model no_messages functions_given : BuildError
  more_than_one_answer max_tokens_not_positive : ℤ → BuildError
  negative_timeout : Text → BuildError
  invalid_stop : RequestError → BuildError
  not_restored : RestoreError → BuildError
  invalid_prompt : Text → BuildError

-- the library's part: `PromptFromMessages` and `Validate`, and what is asked of a float64
pub record PromptApi (Message : Type 0) : Type 0 where
  pub prompt_messages : List Message → List Message
  pub validate : List Message → Option Text
  pub is_negative : Text → Bool
  pub nanoseconds : Text → ℤ

abbrev pub relabel {ℓ κ μ} :
    {E : Type ℓ} {F : Type κ} {A : Type μ} → (E → F) → Result E A → Result F A
relabel label (err e) = err (label e)
relabel label (ok a) = ok a

abbrev pub option_of {ℓ} : {A : Type ℓ} → (A → CallOption) → Option A → List CallOption
option_of make none = []
option_of make (some a) = make a ∷ []

-- the checks of `n`, and those in front of it
unfoldable pub check_count : Option ℤ → Result BuildError (Unit {0})
check_count none = ok tt
check_count (some i) =
    if leb_ℤ (pos 1) i && leb_ℤ i (pos 1) then ok tt else err (more_than_one_answer i)

abbrev pub is_nil {ℓ} : {A : Type ℓ} → List A → Bool
is_nil [] = true
is_nil (_ ∷ _) = false

unfoldable pub check_request :
    {Message : Type 0} → ChatRequest Message → Result BuildError (Unit {0})
unfolding check_count
check_request req =
    if trim_space req.model == []
    then err no_model
    else if is_nil req.messages
    then err no_messages
    else if not (is_json_null_or_empty (raw_field req (codes "functions")))
    then err functions_given
    else check_count req.n

unfoldable pub max_tokens_options : Option ℤ → Result BuildError (List CallOption)
max_tokens_options none = ok []
max_tokens_options (some i) =
    if leb_ℤ i (pos 0) then err (max_tokens_not_positive i) else ok (with_max_tokens i ∷ [])

unfoldable pub stop_options : Option Json → Result BuildError (List CallOption)
stop_options raw =
    if is_json_null_or_empty raw
    then ok []
    else relabel invalid_stop (decode_stop raw) >>= λ stops. ok (with_stop stops ∷ [])

unfoldable pub reasoning_options : Option Text → List CallOption
reasoning_options none = []
reasoning_options (some s) = if trim_space s == [] then [] else with_reasoning_effort s ∷ []

abbrev pub body_options : Dict Text Json → List CallOption
body_options [] = []
body_options (f ∷ fields) = with_extra_body (f ∷ fields) ∷ []

-- a positive default applies where the request has no timeout
unfoldable pub timeout_options :
    {Message : Type 0} → PromptApi Message → ℤ → Option Text → Result BuildError (List CallOption)
timeout_options lib default (some t) =
    if lib.is_negative t
    then err (negative_timeout t)
    else ok (with_timeout (lib.nanoseconds t) ∷ [])
timeout_options lib default none =
    ok (if ltb_ℤ (pos 0) default then with_timeout default ∷ [] else [])

abbrev pub check_prompt {ℓ} : {A : Type ℓ} → Option Text → A → Result BuildError A
check_prompt (some problem) prompt = err (invalid_prompt problem)
check_prompt none prompt = ok prompt

abbrev pub resolved : Option (Text → Text) → Text → Text
resolved none model = model
resolved (some resolve) model = resolve model

-- the options in the order of the calls of `append`
unfoldable pub all_options :
    {Message : Type 0}
    → ChatRequest Message
    → Option (Text → Text)
    → (tokens stops timeouts : List CallOption) → Option ℤ
    → List CallOption
all_options req resolve tokens stops timeouts first_output =
    with_model (resolved resolve req.model)
    ∷ (option_of with_temperature req.temperature
        ++ option_of with_top_p req.top_p
        ++ tokens
        ++ stops
        ++ option_of with_seed req.seed
        ++ reasoning_options req.reasoning_effort
        ++ body_options (pass_through_fields req.members)
        ++ timeouts
        ++ option_of with_first_output_timeout first_output)

module _ (api : MessageApi) (lib : PromptApi api.Message) (float_of : Text → Option Text) where
  -- the messages of the prompt, restored and validated
  unfoldable pub build_prompt : ChatRequest api.Message → Result BuildError (List api.Message)
  build_prompt req =
      relabel not_restored (
        restore_tool_call_extras api req.raw_messages (lib.prompt_messages req.messages)
        >>= restore_message_extras api float_of req.raw_messages)
      >>= λ messages. check_prompt (lib.validate messages) messages

  -- `BuildOptions`
  unfoldable pub build_options :
      ChatRequest api.Message
      → Option (Text → Text)
      → ℤ
      → Option ℤ
      → Result BuildError (List api.Message × List CallOption)
  build_options req resolve default first_output = check_request req >>= λ _.
      build_prompt req >>= λ prompt. max_tokens_options req.max_tokens >>= λ tokens.
      stop_options (raw_field req (codes "stop")) >>= λ stops.
      timeout_options lib default req.timeout >>= λ timeouts.
      ok (prompt, all_options req resolve tokens stops timeouts first_output)
