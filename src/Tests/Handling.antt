-- ===== src/Tests/Handling.antt =====
-- Examples of the theorems on the handlers and on what they write.
use smolllm_server.Accounts.{
  Kind, opened, closed, skipped, probing, fail_open, unrecognized, other, AccountEvent,
}
use smolllm_server.Adapter
use smolllm_server.Adapter.{decode_embedding_input}
use smolllm_server.Base.{
  ◌≡◌, ◌≢◌, ◌↔◌, refl, true, false, none, some, List, [], ◌∷◌, ==_iff, text_eq, text_discrete, Text,
  codes, Dict, pos, ok, trim_space,
}
use smolllm_server.Buildinfo.{Stamps, Runtime}
use smolllm_server.Chat.{Fresh, done}
use smolllm_server.Chat.Turn.{Attempt, frames}
use smolllm_server.Config.{Config}
use smolllm_server.Handlers.{new_shared, EmbeddingResponse, embedded, chat, embeddings}
use smolllm_server.Client.{Library}
use smolllm_server.Handlers.Answers.{IsRejected, Accepted, chat-IsRejected}
use smolllm_server.Handlers
use smolllm_server.Handlers.Writes.{response_actions, answer_actions, frame_actions}
use smolllm_server.Json.{Json, str, arr, obj, nil, cons, end, member}
use smolllm_server.Middleware.{
  flush, Action, write_header, write_body, request, panic_recovered, wrapped, sent_status,
}
use smolllm_server.Middleware.Logged.{plain_run, wrapped_cases}
use smolllm_server.Tests.{day_of, answered, broken, reply, streamed}
use smolllm_server.Tests.Restoring.{user_api, as_written}
use smolllm_server.Tests.Asking.{asking, one_message, prompts}

wrapped_cases_example :
    (wrapped (plain_run (write_header 404 ∷ write_body ∷ []) false) ≡ record {
      actions = write_header 404 ∷ write_body ∷ [];
      log = request 404 ∷ [];
      panics = false;
    })
    × ((wrapped (plain_run (write_header 404 ∷ write_body ∷ []) true)).panics ≡ false)
    × ((wrapped (plain_run (write_header 404 ∷ write_body ∷ []) true)).log ≡ panic_recovered ∷ [])
    × (sent_status (wrapped (plain_run [] true)).actions ≡ 500)
    × ((a : Action)
        → sent_status (wrapped (plain_run (a ∷ write_header 404 ∷ write_body ∷ []) true)).actions
          ≡ sent_status (a ∷ write_header 404 ∷ write_body ∷ []))
unfolding sent_status
wrapped_cases_example = wrapped_cases (write_header 404 ∷ write_body ∷ []) tt

abbrev pub stamps : Stamps
stamps = record {
  server_revision = codes "unknown";
  library_revision = codes "0123456789abcdef0123456789abcdef01234567";
  source_clean = codes "true";
}

abbrev pub process : Runtime
process = record {
  goos = codes "linux";
  goarch = codes "arm64";
  go_version = codes "go1.25";
  instance_id = codes "00";
  pid = 7;
}

abbrev pub aliases : Config
aliases = record {
  server = record {
    bind = codes ":11435";
    access_key = codes "key";
    env_file = [];
    log_level = codes "info";
    request_timeout = pos 0;
    first_output_timeout = none;
    client_header_timeout = pos 0;
    disable_account_breaker = true;
  };
  aliases = (codes "fast", codes "gpt-5") ∷ [];
}

abbrev attempts : List Attempt
attempts =
    record { now = 5_000_200; event = answered } ∷ record { now = 5_000_100; event = broken } ∷ []

abbrev pub kind_text : Kind → Text
kind_text opened = codes "open"
kind_text closed = codes "close"
kind_text skipped = codes "skip"
kind_text probing = codes "probe"
kind_text fail_open = codes "fail_open"
kind_text unrecognized = codes "unrecognized_429"
kind_text (other t) = t

-- an account that the breaker takes out
abbrev account_event : AccountEvent
account_event = record {
  kind = opened;
  provider = codes "openai";
  account = codes "a1";
  model_name = codes "gpt-5";
  skip_reason = [];
}

-- a library that answers after one failed attempt
abbrev pub client : Library (Dict Text Json × Dict Text Json)
client = record {
  kind_text = kind_text;
  ask = λ prompt opts. record {
    events = attempts;
    account_events = account_event ∷ [];
    answer = ok reply;
  };
  stream = λ prompt opts. record {
    events = attempts;
    account_events = account_event ∷ [];
    answer = ok streamed;
  };
  embed = λ inputs opts. record {
    events = attempts;
    account_events = account_event ∷ [];
    answer = ok (record {
      model = codes "gpt";
      vectors = (codes "0.5" ∷ []) ∷ (codes "0.25" ∷ []) ∷ [];
      input_tokens = 4;
    });
  };
}

abbrev pub fresh : Fresh
fresh = record { completion_id = codes "chatcmpl-0"; report_id = codes "r"; now = 5_000_300 }

chat-IsRejected_example :
    IsRejected
      (chat day_of user_api prompts client as_written one_message fresh new_shared aliases aliases
        aliases aliases
        (some asking)).response
    ↔ (¬ Accepted user_api prompts as_written one_message (some asking))
chat-IsRejected_example =
    chat-IsRejected day_of user_api prompts client as_written one_message fresh new_shared aliases
      aliases aliases aliases (some asking)

abbrev to_embed : Json
to_embed = obj (
    member (codes "model") (str (codes "fast"))
      (member (codes "input") (arr (cons (str (codes "a")) (cons (str (codes "b")) nil))) end))

named : trim_space (codes "fast") ≢ []
unfolding trim_space text_discrete
named e = let same : false ≡ true = (==_iff (trim_space (codes "fast")) []).1 e in cc same

streamed_test :
    response_actions (Handlers.answered (frames (done ∷ [])))
    ≡ write_header 200 ∷ write_body ∷ flush ∷ []
unfolding response_actions answer_actions frame_actions
streamed_test = refl
