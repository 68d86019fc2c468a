-- ===== src/Handlers/Answers.antt =====
-- internal/server/chat.go and internal/server/embed.go: when the handlers refuse a request, and what
-- they bill and answer otherwise.
use smolllm_server.Base.{
  ℕ, ◌≡◌, ◌↔◌, refl, Option, none, some, List, text_eq, Text, Result, ok, err, and_then, Bool-cases,
  inl, inr, subst, sym, some-inj,
}
use smolllm_server.Chat.{Fresh}
use smolllm_server.Config.{Config}
use smolllm_server.Json.{Json}
use smolllm_server.Messages.{MessageApi}
use smolllm_server.Request.{ChatRequest, unmarshal_json}
use smolllm_server.Request.Options.{CallOption, BuildError, PromptApi}
use smolllm_server.Request.Accepted.{Succeeds, Acceptable, build_options-Succeeds}
use smolllm_server.Handlers.{
  Shared, Response, rejected, answered, not_embedded, embedded, chat_options, answer_chat,
  after_build, after_decode, chat,
}
use smolllm_server.Client.{ClientOption, Library}

abbrev pub IsRejected : Response → Type 0
IsRejected (rejected _) = Unit
IsRejected (answered _) = ⊥
IsRejected (not_embedded _) = ⊥
IsRejected (embedded _) = ⊥

module _ (api : MessageApi) (lib : PromptApi api.Message) (float_of : Text → Option Text) where
  -- a request in the body that `BuildOptions` accepts
  abbrev pub Accepted : (Json → Option (List api.Message)) → Option Json → Type 0
  Accepted decode_messages body =
      (req : ChatRequest api.Message) × (and_then body (unmarshal_json float_of decode_messages)
        ≡ some req)
      × Acceptable api lib float_of req

module _ (date_only : ℕ → Text) (api : MessageApi) (lib : PromptApi api.Message)
    (client : Library api.Message) (float_of : Text → Option Text) where
  answer_chat-IsRejected :
      (fresh : Fresh) (l : Shared) (req : ChatRequest api.Message) (prompt : List api.Message)
      (opts : List ClientOption)
      → ¬ IsRejected
          (answer_chat date_only api lib client float_of fresh l req prompt opts).response
  unfolding answer_chat
  answer_chat-IsRejected fresh l req prompt opts = elim (Bool-cases req.stream) [
    | inl streams ↦ rw streams (λ h. h)
    | inr blocks ↦ rw blocks (λ h. h)
  ]

  after_build-IsRejected :
      (fresh : Fresh) (l : Shared) (c : Config) (req : ChatRequest api.Message)
      (r : Result BuildError (List api.Message × List CallOption))
      → IsRejected (after_build date_only api lib client float_of fresh l c req r).response
        ↔ (¬ Succeeds r)
  after_build-IsRejected fresh l c req (err e) = ((λ _ (_, s). cc s), (λ _. tt))
  after_build-IsRejected fresh l c req (ok (prompt, opts)) = (
    (λ h. absurd (answer_chat-IsRejected fresh l req prompt (chat_options c req.model opts) h)),
    (λ h. absurd (h (_, refl))),
  )

  after_decode-IsRejected :
      (fresh : Fresh) (l : Shared) (c₁ c₂ c₃ c₄ : Config) (o : Option (ChatRequest api.Message))
      → IsRejected (after_decode date_only api lib client float_of fresh l c₁ c₂ c₃ c₄ o).response
        ↔ (¬ ((req : ChatRequest api.Message) × (o ≡ some req) × Acceptable api lib float_of req))
  after_decode-IsRejected fresh l c₁ c₂ c₃ c₄ none = ((λ _ (_, e, _). cc e), (λ _. tt))
  after_decode-IsRejected fresh l c₁ c₂ c₃ c₄ (some req) =
      let build = build_options-Succeeds api lib float_of req _ _ _ in
      let answered = after_build-IsRejected fresh l c₄ req _ in
      (
        (λ h (_, e, a).
            answered.0 h (build.1 (subst (Acceptable api lib float_of) (sym (some-inj e)) a))),
        (λ h. answered.1 (λ s. h (req, refl, build.0 s))),
      )

  -- A chat is refused exactly if its body is no request that `BuildOptions` accepts, whatever the
  -- configurations read on the way and whatever the library would answer.
  pub chat-IsRejected :
      (decode_messages : Json → Option (List api.Message)) (fresh : Fresh) (l : Shared)
      (c₁ c₂ c₃ c₄ : Config) (body : Option Json)
      → IsRejected
          (chat date_only api lib client float_of decode_messages fresh l c₁ c₂ c₃ c₄ body).response
        ↔ (¬ Accepted api lib float_of decode_messages body)
  unfolding chat
  chat-IsRejected decode_messages fresh l c₁ c₂ c₃ c₄ body =
      after_decode-IsRejected fresh l c₁ c₂ c₃ c₄
        (and_then body (unmarshal_json float_of decode_messages))
