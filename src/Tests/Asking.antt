-- ===== src/Tests/Asking.antt =====
-- Examples of the theorems on the requests of chats and the options of their calls.
use smolllm_server.Adapter
use smolllm_server.Adapter.{decode_map, decode_stop, pass_through_fields, decode_embedding_input}
use smolllm_server.Base.{
  ◌≡◌, ◌↔◌, refl, false, Option, none, some, List, [], ◌∷◌, text_eq, text_discrete, Text, codes,
  Dict, lookup, insert, retain, pos, ok, All, trim_space,
}
use smolllm_server.Debit.Numbers.{fold_name, atoi}
use smolllm_server.Json.{Json, num, str, arr, obj, nil, cons, end, member}
use smolllm_server.Messages.{as_members, decode_object}
use smolllm_server.Messages.Restore.{
  restore_tool_call_extras, restore_message_extras, restore_each, restore_calls, restore_message,
  message_variant, message_extra, member_extra, restorer_owns_tool_calls,
}
use smolllm_server.Request.{
  ChatRequest, unmarshal_json, set_fields, set_field, into_string, into_raw_list, into_int_pointer,
  into_float_pointer,
}
use smolllm_server.Request.Options.{
  CallOption, with_model, with_max_tokens, with_timeout, PromptApi, build_options, check_request,
  check_count, build_prompt, max_tokens_options, stop_options, timeout_options, reasoning_options,
  all_options,
}
use smolllm_server.Request.Accepted.{Succeeds, Acceptable, build_options-Succeeds}
use smolllm_server.Request.Safe.{IsSafe, IsTimeout, build_options-IsSafe}
use smolllm_server.Tests.Restoring.{user_api, greeted, as_written}
use smolllm_server.Values.{decode_any, value_subset, json_subset}

-- a request with one message, a token limit and a timeout
abbrev pub asking : Json
asking = obj (
    member (codes "model") (str (codes "fast")) (
      member (codes "messages") (arr (cons (obj (as_members greeted.0)) nil)) (
        member (codes "max_tokens") (num (codes "16"))
          (member (codes "timeout") (num (codes "2")) end))))

abbrev pub one_message : Json → Option (List (Dict Text Json × Dict Text Json))
one_message v = some (greeted ∷ [])

abbrev pub prompts : PromptApi (Dict Text Json × Dict Text Json)
prompts = record {
  prompt_messages = λ ms. ms;
  validate = λ ms. none;
  is_negative = λ t. false;
  nanoseconds = λ t. pos 2_000_000_000;
}

abbrev pub asked_request : ChatRequest (Dict Text Json × Dict Text Json)
asked_request = record {
  model = codes "fast";
  messages = greeted ∷ [];
  stream = false;
  temperature = none;
  top_p = none;
  reasoning_effort = none;
  max_tokens = some (pos 16);
  seed = none;
  n = none;
  timeout = some (codes "2");
  stream_options = none;
  raw_messages = obj (as_members greeted.0) ∷ [];
  members =
      (codes "model", str (codes "fast"))
      ∷ (codes "messages", arr (cons (obj (as_members greeted.0)) nil))
      ∷ (codes "max_tokens", num (codes "16"))
      ∷ (codes "timeout", num (codes "2"))
      ∷ [];
}

pub asking_test : unmarshal_json as_written one_message asking ≡ some asked_request
unfolding unmarshal_json set_fields set_field into_string into_raw_list into_int_pointer
    into_float_pointer fold_name atoi text_discrete
asking_test = refl

abbrev pub asked_options : List CallOption
asked_options =
    with_model (codes "gpt-5") ∷ with_max_tokens (pos 16) ∷ with_timeout (pos 2_000_000_000) ∷ []

built_test :
    build_options user_api prompts as_written asked_request
      (some (λ name. codes "gpt-5"))
      (pos 0)
      none
    ≡ ok (greeted ∷ [], asked_options)
unfolding build_options check_request check_count build_prompt restore_tool_call_extras
    restore_message_extras restore_each restore_calls restore_message message_variant decode_object
    decode_map message_extra member_extra json_subset decode_any value_subset
    restorer_owns_tool_calls max_tokens_options stop_options timeout_options reasoning_options
    all_options pass_through_fields Adapter.named_fields Adapter.with_field Adapter.with_extras
    Adapter.extra_fields Adapter.decode_field Adapter.is_json_null_or_empty fold_name lookup insert
    retain text_discrete trim_space decode_stop
built_test = refl

build_options-IsSafe_example :
    (prompts.validate (greeted ∷ []) ≡ none)
    × All (IsSafe (IsTimeout prompts (pos 0) asked_request.timeout)) asked_options
build_options-IsSafe_example =
    build_options-IsSafe user_api prompts as_written asked_request (some (λ name. codes "gpt-5"))
      (pos 0) none built_test

build_options-Succeeds_example :
    Succeeds (
      build_options user_api prompts as_written asked_request
        (some (λ name. codes "gpt-5"))
        (pos 0)
        none)
    ↔ Acceptable user_api prompts as_written asked_request
build_options-Succeeds_example =
    build_options-Succeeds user_api prompts as_written asked_request (some (λ name. codes "gpt-5"))
      (pos 0) none
