-- ===== src/Wire/Bodies.antt =====
-- The bodies of the answers that are not streamed, as JSON values: internal/llm/types.go,
-- internal/server/handlers.go, internal/server/stats.go, internal/server/models.go,
-- internal/buildinfo/buildinfo.go and internal/apierr/apierr.go. The vectors of an embedding are lists of
-- literals.
use smolllm_server.ApiError.{ErrorResponse}
use smolllm_server.Base.{some, List, [], ◌∷◌, map, codes}
use smolllm_server.Buildinfo.{Info}
use smolllm_server.Chat.{ChatCompletion}
use smolllm_server.Handlers.{EmbeddingItem, EmbeddingResponse}
use smolllm_server.Json.{Json, bool, num, str, arr, nil, cons}
use smolllm_server.Routes.{ModelInfo}
use smolllm_server.Stats.{Bucket}
use smolllm_server.Wire.{
  Fields, struct, int, array, unless_empty, unless_no_items, or_null, usage_json,
}

-- `ChatMessage`, `ChatChoice` and `ChatCompletion`
abbrev pub message_json : ChatCompletion → Json
message_json c = struct (
    (codes "role", some (str c.role))
    ∷ (codes "content", some (or_null c.content))
    ∷ (codes "reasoning_content", unless_empty c.reasoning_content)
    ∷ (codes "tool_calls", unless_no_items c.tool_calls)
    ∷ [])

abbrev pub only_choice_json : ChatCompletion → Json
only_choice_json c = struct (
    (codes "index", some (int 0))
    ∷ (codes "message", some (message_json c))
    ∷ (codes "finish_reason", some (str c.finish_reason))
    ∷ [])

abbrev pub completion_fields : ChatCompletion → Fields
completion_fields c =
    (codes "id", some (str c.id))
    ∷ (codes "object", some (str (codes "chat.completion")))
    ∷ (codes "created", some (int c.created))
    ∷ (codes "model", some (str c.model))
    ∷ (codes "choices", some (arr (cons (only_choice_json c) nil)))
    ∷ (codes "usage", some (usage_json c.usage))
    ∷ []

unfoldable pub completion_json : ChatCompletion → Json
completion_json c = struct (completion_fields c)

-- `Bucket`, and the `statsResponse` of `stats`
abbrev pub bucket_fields : Bucket → Fields
bucket_fields b =
    (codes "day", some (str b.day))
    ∷ (codes "alias", some (str b.alias))
    ∷ (codes "provider", some (str b.provider))
    ∷ (codes "model", some (str b.model))
    ∷ (codes "requests", some (int b.requests))
    ∷ (codes "failures", some (int b.failures))
    ∷ (codes "input_tokens", some (int b.input_tokens))
    ∷ (codes "output_tokens", some (int b.output_tokens))
    ∷ (codes "cache_read_tokens", some (int b.cache_read_tokens))
    ∷ (codes "cache_write_tokens", some (int b.cache_write_tokens))
    ∷ (codes "cache_reported_requests", some (int b.cache_reported_requests))
    ∷ (codes "cache_reported_input_tokens", some (int b.cache_reported_input_tokens))
    ∷ (codes "estimated_requests", some (int b.estimated_requests))
    ∷ []

unfoldable pub bucket_json : Bucket → Json
bucket_json b = struct (bucket_fields b)

unfoldable pub stats_json : List Bucket → Json
stats_json rows = struct ((codes "buckets", some (arr (array (map bucket_json rows)))) ∷ [])

-- `ModelInfo` and `ModelsResponse`
abbrev pub model_json : ModelInfo → Json
model_json m = struct (
    (codes "id", some (str m.id))
    ∷ (codes "object", some (str m.object))
    ∷ (codes "owned_by", some (str m.owned_by))
    ∷ (codes "created", some (int m.created))
    ∷ [])

unfoldable pub models_json : List ModelInfo → Json
models_json l = struct (
    (codes "object", some (str (codes "list")))
    ∷ (codes "data", some (arr (array (map model_json l))))
    ∷ [])

-- `EmbeddingItem`, `EmbeddingUsage` and `EmbeddingResponse`
abbrev pub embedding_item_json : EmbeddingItem → Json
embedding_item_json e = struct (
    (codes "object", some (str (codes "embedding")))
    ∷ (codes "index", some (int e.index))
    ∷ (codes "embedding", some (arr (array (map num e.embedding))))
    ∷ [])

unfoldable pub embedding_json : EmbeddingResponse → Json
embedding_json r = struct (
    (codes "object", some (str (codes "list")))
    ∷ (codes "data", some (arr (array (map embedding_item_json r.items))))
    ∷ (codes "model", some (str r.model))
    ∷ (
      codes "usage",
      some (
          struct (
            (codes "prompt_tokens", some (int r.prompt_tokens))
            ∷ (codes "total_tokens", some (int r.total_tokens))
            ∷ [])),
    )
    ∷ [])

-- `Info`
unfoldable pub info_json : Info → Json
info_json i = struct (
    (codes "schema_version", some (int i.schema_version))
    ∷ (codes "server_revision", some (str i.server_revision))
    ∷ (codes "library_revision", some (str i.library_revision))
    ∷ (codes "source_clean", some (bool i.source_clean))
    ∷ (codes "goos", some (str i.runtime.goos))
    ∷ (codes "goarch", some (str i.runtime.goarch))
    ∷ (codes "go_version", some (str i.runtime.go_version))
    ∷ (codes "instance_id", some (str i.runtime.instance_id))
    ∷ (codes "pid", some (int i.runtime.pid))
    ∷ [])

-- `Detail` and `Body`
unfoldable pub error_json : ErrorResponse → Json
error_json e = struct (
    (
      codes "error",
      some (
          struct (
            (codes "message", some (str e.error.message))
            ∷ (codes "type", some (str e.error.kind))
            ∷ (codes "code", unless_empty e.error.code)
            ∷ (codes "param", unless_empty e.error.param)
            ∷ [])),
    )
    ∷ [])

-- the answer of `health`
abbrev pub health_json : Json
health_json = struct ((codes "status", some (str (codes "ok"))) ∷ [])
