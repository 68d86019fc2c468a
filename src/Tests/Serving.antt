-- ===== src/Tests/Serving.antt =====
-- Examples of the theorems on the server as a whole.
use smolllm_server.Accounts.{AccountId, TransitionKey, LegKey, SkipKey}
use smolllm_server.Auth.{check_key, check_token, extract_token}
use smolllm_server.Base.{
  ◌≡◌, refl, false, some, [], ◌∷◌, List, Text, codes, text_discrete, trim_space, has_prefix,
  to_lower,
}
use smolllm_server.Config.{Config}
use smolllm_server.Handlers.{new_shared}
use smolllm_server.Ledger.Invariant.{IsValid}
use smolllm_server.Service.{Exchange, after_requests}
use smolllm_server.Service.Guarded.{opening, after_requests-IsValid, after_requests-opening}
use smolllm_server.Tests.{day_of}
use smolllm_server.Tests.Asking.{asking, one_message, prompts}
use smolllm_server.Tests.Handling.{client, fresh, aliases, process, stamps}
use smolllm_server.Tests.Restoring.{user_api, as_written}

abbrev exchange : Text → Exchange
exchange header = record {
  method = codes "POST";
  path = codes "/v1/chat/completions";
  header = header;
  body = some asking;
  fresh = fresh;
  guard_config = aliases;
  first_config = aliases;
  second_config = aliases;
  third_config = aliases;
  fourth_config = aliases;
  circuits = [];
}

abbrev exchanges : List Exchange
exchanges = exchange (codes "Bearer key") ∷ exchange (codes "Bearer other") ∷ []

after_requests-IsValid_example :
    IsValid
      (after_requests day_of user_api prompts client as_written one_message stamps process exchanges
        new_shared).ledger
after_requests-IsValid_example =
    after_requests-IsValid day_of user_api prompts client as_written one_message stamps process
      exchanges

after_requests-opening_example :
    after_requests day_of user_api prompts client as_written one_message stamps process exchanges
      new_shared
    ≡ after_requests day_of user_api prompts client as_written one_message stamps process
        (opening exchanges)
        new_shared
after_requests-opening_example =
    after_requests-opening day_of user_api prompts client as_written one_message stamps process
      exchanges new_shared

opening_test : opening exchanges ≡ exchange (codes "Bearer key") ∷ []
unfolding text_discrete trim_space check_key check_token extract_token has_prefix to_lower
opening_test = refl

-- a server whose breaker is on
abbrev with_breaker : Config
with_breaker =
    let s = aliases.server in
    record aliases { server = record s { disable_account_breaker = false } }

abbrev metered : Exchange
metered = let x = exchange (codes "Bearer key") in record x { fourth_config = with_breaker }

abbrev openai_account : AccountId
openai_account = record { provider = codes "openai"; account = codes "a1" }

abbrev opened_key : TransitionKey
opened_key = record { id = openai_account; transition = codes "open" }

abbrev leg : LegKey
leg = record { alias = codes "fast"; id = openai_account; model = codes "gpt-5" }

abbrev skip_key : SkipKey
skip_key = record { leg = leg; reason = codes "quota" }
