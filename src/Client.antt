-- ===== src/Client.antt =====
-- Package smolllm (github.com/rocry/smolllm-go) as internal/server/chat.go and
-- internal/server/embed.go call it: the options of a call, and the calls as a parameter.
use smolllm_server.Accounts.{Kind, AccountEvent}
use smolllm_server.Base.{ℕ, List, text_eq, Text, ℤ, Result}
use smolllm_server.Chat.Turn.{Attempt}
use smolllm_server.Request.Options.{CallOption}
use smolllm_server.Upstream.{Failure, Reply, StreamReply}

-- the options of a call: those of `BuildOptions`, and those that the handlers append
pub data ClientOption : Type 0 where
  built : CallOption → ClientOption
  with_logger with_account_breaker : ClientOption
  with_hook with_account_event_hook : Text → ClientOption
  with_model : Text → ClientOption
  with_dimensions : ℤ → ClientOption

-- a call of the library: the events of its attempts and of its accounts, which it gives to the hooks that
-- the options carry, the latest first, and the answer
pub record Called (A : Type 0) : Type 0 where
  pub events : List Attempt
  pub account_events : List AccountEvent
  pub answer : Result Failure A

-- the response of `smolllm.Embed`; a vector is the list of its literals
pub record EmbedReply : Type 0 where
  pub model : Text
  pub vectors : List (List Text)
  pub input_tokens : ℕ

-- `smolllm.Ask`, `smolllm.Stream` and `smolllm.Embed`, and the text of a kind of account event
pub record Library (Message : Type 0) : Type 0 where
  pub kind_text : Kind → Text
  pub ask : List Message → List ClientOption → Called Reply
  pub stream : List Message → List ClientOption → Called StreamReply
  pub embed : List Text → List ClientOption → Called EmbedReply
