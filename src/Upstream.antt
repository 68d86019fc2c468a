-- ===== src/Upstream.antt =====
-- What the program reads of package smolllm (github.com/rocry/smolllm-go), which is not part of
-- this repository: the fields of its events and replies, and no behaviour.
use smolllm_server.Base.{ℕ, Bool, Option, List, Text}
use smolllm_server.Json.{Json}

-- `event.Error`, as far as `errors.Is(err, context.Canceled)` and `err.Error()` tell
pub data Failure : Type 0 where
  canceled : Text → Failure
  failed : Text → Failure

-- `smolllm.RequestEvent`: the timestamp in seconds, `TTFT` in nanoseconds
pub record RequestEvent : Type 0 where
  pub timestamp : ℕ
  pub provider : Text
  pub model_name : Text
  pub error : Option Failure
  pub input_tokens : ℕ
  pub output_tokens : ℕ
  pub cache_read_tokens : ℕ
  pub cache_write_tokens : ℕ
  pub cache_read_reported : Bool
  pub estimated : Bool
  pub first_output_timeout : Bool
  pub first_output_phase : Text
  pub streaming : Bool
  pub ttft : ℕ
  pub raw_usage : Option Json

-- `smolllm.Usage`
pub record Usage : Type 0 where
  pub input_tokens : ℕ
  pub output_tokens : ℕ
  pub cache_read_tokens : ℕ
  pub cache_write_tokens : ℕ
  pub cache_read_reported : Bool
  pub cache_write_reported : Bool

-- `err.Error()`
abbrev pub message : Failure → Text
message (canceled m) = m
message (failed m) = m

-- the response of `smolllm.Ask`; a `ToolCall` is the JSON value that it is encoded as
pub record Reply : Type 0 where
  pub model : Text
  pub text : Text
  pub reasoning : Text
  pub tool_calls : List Json
  pub finish_reason : Text
  pub usage : Usage

-- What the stream of `smolllm.Stream` brings, in order: pieces of content and reasoning, or the end
-- of the client's request context. The list ends where the channel is closed.
pub data StreamEvent : Type 0 where
  piece : (content reasoning : Text) → StreamEvent
  client_gone : StreamEvent

-- the response of `smolllm.Stream`: `failure` is the error of `Wait` after the channel is closed
pub record StreamReply : Type 0 where
  pub model : Text
  pub events : List StreamEvent
  pub failure : Option Failure
  pub tool_calls : List Json
  pub finish_reason : Text
  pub usage : Usage
