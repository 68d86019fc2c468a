-- ===== src/ApiError.antt =====
-- internal/apierr/apierr.go and the two error writers of internal/server/handlers.go.
use smolllm_server.Base.{ℕ, [], Text, codes}

-- `Detail`; `code` and `param` are empty where the source does not set them
pub record Detail : Type 0 where
  pub message : Text
  pub kind : Text
  pub code : Text
  pub param : Text

-- an error response: the status, and the envelope as its body
pub record ErrorResponse : Type 0 where
  pub status : ℕ
  pub content_type : Text
  pub error : Detail

abbrev pub json_type : Text
json_type = codes "application/json; charset=utf-8"

-- `Write`
abbrev pub write : ℕ → Text → Text → Text → ErrorResponse
write status code kind message = record {
  status = status;
  content_type = json_type;
  error = record { message = message; kind = kind; code = code; param = [] };
}

-- `WriteParam`
abbrev pub write_param : ℕ → Text → Text → Text → Text → ErrorResponse
write_param status code kind message param = record {
  status = status;
  content_type = json_type;
  error = record { message = message; kind = kind; code = code; param = param };
}

-- `badRequest`
abbrev pub bad_request : Text → ErrorResponse
bad_request message = write 400 (codes "invalid_request") (codes "invalid_request_error") message

-- `upstreamError`
abbrev pub upstream_error : Text → ErrorResponse
upstream_error message = write 502 (codes "upstream_error") (codes "api_error") message
