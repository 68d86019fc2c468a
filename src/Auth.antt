-- ===== src/Auth.antt =====
-- internal/auth/auth.go: the bearer token of a request and the check that guards a route.
pub mod Tokens
use smolllm_server.Base.{
  not, Option, none, some, [], if◌then◌else◌, ◌==◌, text_eq, text_discrete, Text, codes, trim_space,
  to_lower, has_prefix, drop,
}
use smolllm_server.ApiError.{ErrorResponse, write}

-- `extractToken`
unfoldable pub extract_token : Text → Text
extract_token header =
    let trimmed = trim_space header in
    if trimmed == []
    then []
    else if has_prefix (to_lower trimmed) (codes "bearer ")
    then trim_space (drop 7 trimmed)
    else trimmed

-- The check of `Middleware` on a token: the error that is written, or none where the next handler is
-- called. `ConstantTimeCompare` returns 1 exactly for equal texts.
unfoldable pub check_token : Text → Text → Option ErrorResponse
check_token key token =
    if token == []
    then some (
        write 401 (codes "missing_api_key") (codes "invalid_request_error")
          (codes "Missing API key in Authorization header"))
    else if not (token == key)
    then some (
        write 401 (codes "invalid_api_key") (codes "invalid_request_error")
          (codes "Invalid API key"))
    else none

-- `Middleware`, for the key that `keyFn` returns and the header `Authorization`
unfoldable pub check_key : Text → Text → Option ErrorResponse
unfolding check_token
check_key key header = check_token key (extract_token header)
