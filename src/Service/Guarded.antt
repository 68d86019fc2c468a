-- ===== src/Service/Guarded.antt =====
-- internal/server/server.go: the ledger that requests leave, whatever they are.
use smolllm_server.Auth.{check_key}
use smolllm_server.Auth.Tokens.{check_key_iff}
use smolllm_server.Base.{
  ℕ, ◌≡◌, refl, ap, sym, ◌∙◌, Bool, true, false, Option, none, some, List, [], ◌∷◌, if◌then◌else◌,
  ◌==◌, text_eq, Text, trim_space, Result, ok, err, subst, Bool-cases, inl, inr, ◌⊎◌,
}
use smolllm_server.Adapter.{RequestError, decode_embedding_input}
use smolllm_server.Buildinfo.{Stamps, Runtime}
use smolllm_server.Chat.{Fresh}
use smolllm_server.Chat.Turn.{Attempt}
use smolllm_server.Config.{Config}
use smolllm_server.Handlers
use smolllm_server.Handlers.{
  Shared, new_shared, Handled, chat, after_decode, after_build, answer_chat, record_all,
  chat_options, after_inputs, after_embedding_decode,
}
use smolllm_server.Client.{Library}
use smolllm_server.Handlers.Bills.{answer_chat-IsBilledAs}
use smolllm_server.Json.{Json}
use smolllm_server.Ledger.Invariant.{IsValid, record_event-IsValid, snapshot-IsValid, new-IsValid}
use smolllm_server.Messages.{MessageApi}
use smolllm_server.Request.{ChatRequest, EmbeddingRequest}
use smolllm_server.Request.Options.{PromptApi, CallOption, BuildError}
use smolllm_server.Routes
use smolllm_server.Routes.{
  Handler, health, models, stats, metrics, version, Outcome, handled, wrong_method, not_found,
  serve,
}
use smolllm_server.Routes.Guard.{serve_iff, Opens}
use smolllm_server.Service.{Exchange, run_handler, on_outcome, react, after_requests}
use smolllm_server.Stats.{Ledger}

record_all-IsValid :
    (date_only : ℕ → Text) (name : Text) (made : List Attempt) (l : Ledger)
    → IsValid l
    → IsValid (record_all date_only name made l)
unfolding record_all
record_all-IsValid date_only name [] l v = v
record_all-IsValid date_only name (a ∷ made) l v =
    record_event-IsValid date_only a.now name a.event (record_all date_only name made l)
      (record_all-IsValid date_only name made l v)

-- whether the header of a request opens the key that the guard reads
abbrev is_none {ℓ} : {A : Type ℓ} → Option A → Bool
is_none none = true
is_none (some _) = false

abbrev pub opens : Exchange → Bool
opens x = is_none (check_key x.guard_config.server.access_key x.header)

abbrev pub opening : List Exchange → List Exchange
opening [] = []
opening (x ∷ xs) = let rest = opening xs in if opens x then x ∷ rest else rest

shut : (x : Exchange) → Opens x.guard_config x.header → opens x ≡ false → ⊥
shut x key closed =
    let free = (check_key_iff x.guard_config.server.access_key x.header).1 key in
    let wrong : true ≡ false = rw free at closed in cc wrong

module _ (date_only : ℕ → Text) (api : MessageApi) (lib : PromptApi api.Message)
    (client : Library api.Message) (float_of : Text → Option Text)
    (decode_messages : Json → Option (List api.Message)) (stamps : Stamps) (process : Runtime) where
  after_build-IsValid :
      (fresh : Fresh) (l : Shared) (c : Config) (req : ChatRequest api.Message)
      (r : Result BuildError (List api.Message × List CallOption))
      → IsValid l.ledger
      → IsValid (after_build date_only api lib client float_of fresh l c req r).shared.ledger
  after_build-IsValid fresh l c req (err e) v = v
  after_build-IsValid fresh l c req (ok (prompt, opts)) v =
      let sent = chat_options c req.model opts in
      let (same, _) =
        answer_chat-IsBilledAs date_only api lib client float_of fresh l req prompt sent in
      subst IsValid (sym same) (record_all-IsValid date_only req.model _ l.ledger v)

  after_decode-IsValid :
      (fresh : Fresh) (l : Shared) (c₁ c₂ c₃ c₄ : Config) (o : Option (ChatRequest api.Message))
      → IsValid l.ledger
      → IsValid (after_decode date_only api lib client float_of fresh l c₁ c₂ c₃ c₄ o).shared.ledger
  after_decode-IsValid fresh l c₁ c₂ c₃ c₄ none v = v
  after_decode-IsValid fresh l c₁ c₂ c₃ c₄ (some req) v = after_build-IsValid fresh l c₄ req _ v

  after_inputs-IsValid :
      (l : Shared) (c : Config) (req : EmbeddingRequest) (r : Result RequestError (List Text))
      → IsValid l.ledger
      → IsValid (after_inputs date_only client l c req r).shared.ledger
  after_inputs-IsValid l c req (err e) v = v
  after_inputs-IsValid l c req (ok inputs) v = record_all-IsValid date_only req.model _ l.ledger v

  after_embedding_decode-IsValid :
      (l : Shared) (c : Config) (o : Option EmbeddingRequest)
      → IsValid l.ledger
      → IsValid (after_embedding_decode date_only client l c o).shared.ledger
  after_embedding_decode-IsValid l c none v = v
  after_embedding_decode-IsValid l c (some req) v = elim (Bool-cases (trim_space req.model == [])) [
    | inl blank ↦ rw blank v
    | inr named ↦ rw named (after_inputs-IsValid l c req (decode_embedding_input req.input) v)
  ]

  run_handler-IsValid :
      (x : Exchange) (l : Shared) (h : Handler)
      → IsValid l.ledger
      → IsValid
          (run_handler date_only api lib client float_of decode_messages stamps process x l
            h).1.ledger
  unfolding run_handler chat Handlers.embeddings
  run_handler-IsValid x l health v = v
  run_handler-IsValid x l Routes.chat v =
      after_decode-IsValid x.fresh l x.first_config x.second_config x.third_config x.fourth_config _
        v
  run_handler-IsValid x l Routes.embeddings v = after_embedding_decode-IsValid l x.first_config _ v
  run_handler-IsValid x l models v = v
  run_handler-IsValid x l stats v = snapshot-IsValid date_only x.fresh.now l.ledger v
  run_handler-IsValid x l metrics v = v
  run_handler-IsValid x l version v = v

  on_outcome-IsValid :
      (x : Exchange) (l : Shared) (o : Outcome)
      → IsValid l.ledger
      → IsValid
          (on_outcome date_only api lib client float_of decode_messages stamps process x l
            o).1.ledger
  on_outcome-IsValid x l (handled h) v = run_handler-IsValid x l h v
  on_outcome-IsValid x l (Routes.denied e) v = v
  on_outcome-IsValid x l wrong_method v = v
  on_outcome-IsValid x l not_found v = v

  -- After any requests, to whatever paths, with whatever bodies and answers of the library, and
  -- whatever configurations are loaded between their reads, the ledger of the server is valid: one
  -- entry for each key, buckets under their own keys with no more failures, cache reports or
  -- estimates than requests, and histograms whose counts add up.
  pub after_requests-IsValid :
      (xs : List Exchange)
      → IsValid
          (after_requests date_only api lib client float_of decode_messages stamps process xs
            new_shared).ledger
  unfolding after_requests react
  after_requests-IsValid [] = new-IsValid
  after_requests-IsValid (x ∷ xs) =
      on_outcome-IsValid x _ (serve x.guard_config x.method x.path x.header)
        (after_requests-IsValid xs)

  on_outcome-closed :
      (x : Exchange) (l : Shared) (o : Outcome)
      → opens x ≡ false
      → serve x.guard_config x.method x.path x.header ≡ o
      → (on_outcome date_only api lib client float_of decode_messages stamps process x l o).1 ≡ l
  unfolding run_handler
  on_outcome-closed x l (handled h) closed e =
      let (_, _, _, why) = (serve_iff x.guard_config x.method x.path x.header h).0 e in
      harmless h why
    where
      harmless :
          (h : Handler)
          → (h ≡ health) ⊎ Opens x.guard_config x.header
          → (run_handler date_only api lib client float_of decode_messages stamps process x l h).1
            ≡ l
      harmless h (inl public) = rw public refl
      harmless h (inr key) = absurd (shut x key closed)
  on_outcome-closed x l (Routes.denied e) closed _ = refl
  on_outcome-closed x l wrong_method closed _ = refl
  on_outcome-closed x l not_found closed _ = refl

  -- Requests whose header does not open the key that the guard reads leave no trace in what the
  -- handlers share, the ledger and the account counters: it is the same as if only the others had
  -- been made.
  pub after_requests-opening :
      (xs : List Exchange) (l : Shared)
      → after_requests date_only api lib client float_of decode_messages stamps process xs l
        ≡ after_requests date_only api lib client float_of decode_messages stamps process
            (opening xs)
            l
  unfolding after_requests react
  after_requests-opening [] l = refl
  after_requests-opening (x ∷ xs) l = elim (Bool-cases (opens x)) [
    | inl let_in ↦ rw let_in (
        ap (λ m. (react date_only api lib client float_of decode_messages stamps process x m).1)
          (after_requests-opening xs l))
    | inr closed ↦ rw closed (
        on_outcome-closed x _ (serve x.guard_config x.method x.path x.header) closed refl
        ∙ after_requests-opening xs l)
  ]
