-- ===== src/Tests.antt =====
-- Values for the tests and the examples.
mod Ledgers
mod Configs
mod Processes
mod Credits
mod Chats
mod Keys
mod Reports
mod Requests
mod Routing
mod Restoring
mod Asking
mod Handling
mod Serving
mod Stopping
mod Wiring
use smolllm_server.Base.{ℕ, ◌/◌, true, false, none, some, List, [], ◌∷◌, Text, codes}
use smolllm_server.Json.{Json, str, num, obj, member, end}
use smolllm_server.Ledger.Attempts.{Call}
use smolllm_server.Upstream.{failed, RequestEvent, Usage, Reply, StreamReply, piece}

-- a calendar: the number of the day as a text
abbrev pub day_of : ℕ → Text
day_of t = t / 86400 ∷ []

abbrev pub usage_with : Text → Json
usage_with credit = obj (member (codes "credit") (num credit) end)

abbrev pub answered : RequestEvent
answered = record {
  timestamp = 5_000_000;
  provider = codes "openai";
  model_name = codes "gpt";
  error = none;
  input_tokens = 120;
  output_tokens = 30;
  cache_read_tokens = 100;
  cache_write_tokens = 0;
  cache_read_reported = true;
  estimated = false;
  first_output_timeout = false;
  first_output_phase = [];
  streaming = true;
  ttft = 1_500_000_000;
  raw_usage = some (usage_with (codes "0.25"));
}

abbrev pub slow : RequestEvent
slow = record answered { ttft = 400_000_000_000; raw_usage = some (usage_with (codes "1.5e1")) }

abbrev pub broken : RequestEvent
broken = record answered { error = some (failed (codes "no route")); ttft = 0; raw_usage = none }

abbrev pub call_of : RequestEvent → Call
call_of e = record { now = 5_000_100; alias = codes "fast"; event = e }

abbrev pub history : List Call
history = call_of broken ∷ call_of slow ∷ call_of answered ∷ []

abbrev pub lookup_call : Json
lookup_call = str (codes "lookup")

abbrev pub some_usage : Usage
some_usage = record {
  input_tokens = 7;
  output_tokens = 3;
  cache_read_tokens = 0;
  cache_write_tokens = 0;
  cache_read_reported = true;
  cache_write_reported = false;
}

abbrev pub reply : Reply
reply = record {
  model = codes "gpt";
  text = codes "hello";
  reasoning = codes "hm";
  tool_calls = lookup_call ∷ [];
  finish_reason = codes "stop";
  usage = some_usage;
}

abbrev pub streamed : StreamReply
streamed = record {
  model = codes "gpt";
  events = piece (codes "hel") [] ∷ piece [] [] ∷ piece (codes "lo") (codes "hm") ∷ [];
  failure = none;
  tool_calls = lookup_call ∷ [];
  finish_reason = codes "stop";
  usage = some_usage;
}
