-- ===== src/Handlers/Vectors.antt =====
-- internal/server/embed.go: when the handler `embeddings` refuses a request, and its answer.
use smolllm_server.Adapter.{decode_embedding_input, RequestError}
use smolllm_server.Base.{
  ℕ, zero, suc, ◌+◌, ◌≡◌, ◌≢◌, ◌↔◌, refl, sym, Option, none, some, List, [], ◌∷◌, arith, ◌==◌,
  ==_iff, ==_ne, text_eq, Text, trim_space, length, get_elem?, Result, ok, err, and_then, some-inj,
  subst, Bool-cases, inl, inr,
}
use smolllm_server.Config.{Config}
use smolllm_server.Json.{Json}
use smolllm_server.Request.{EmbeddingRequest, decode_embedding_request}
use smolllm_server.Request.Accepted.{Succeeds}
use smolllm_server.Handlers.{
  Shared, EmbeddingItem, EmbeddingResponse, embedded, embedding_items, embedding_response,
  embedding_answer, embedding_options, after_inputs, after_embedding_decode, embeddings,
}
use smolllm_server.Client.{EmbedReply, Library}
use smolllm_server.Handlers.Answers.{IsRejected}
use smolllm_server.Upstream.{Failure}

-- the item at a position
abbrev pub item_of : ℕ → Option (List Text) → Option EmbeddingItem
item_of i none = none
item_of i (some v) = some (record { index = i; embedding = v })

get_elem?-embedding_items :
    (start i at_ : ℕ) (vectors : List (List Text))
    → at_ ≡ start + i
    → get_elem? (embedding_items start vectors) i ≡ item_of at_ (get_elem? vectors i)
unfolding embedding_items
get_elem?-embedding_items start i n [] e = refl
get_elem?-embedding_items start zero n (v ∷ vs) e =
    let same : start ≡ n = omega (arith, e) in rw same refl
get_elem?-embedding_items start (suc i) n (v ∷ vs) e =
    get_elem?-embedding_items (suc start) i n vs (omega (arith, e))

length-embedding_items :
    (start : ℕ) (vectors : List (List Text))
    → length (embedding_items start vectors) ≡ length vectors
unfolding embedding_items
length-embedding_items start [] = refl
length-embedding_items start (v ∷ vs) = omega (arith, length-embedding_items (suc start) vs)

embedding_answer-IsRejected :
    (name : Text) (r : Result Failure EmbedReply) → ¬ IsRejected (embedding_answer name r)
embedding_answer-IsRejected name (err e) h = h
embedding_answer-IsRejected name (ok resp) h = h

-- a request with a model and with inputs that decode
abbrev pub IsEmbeddable : EmbeddingRequest → Type 0
IsEmbeddable req = (trim_space req.model ≢ []) × Succeeds (decode_embedding_input req.input)

module _ {Message : Type 0} (date_only : ℕ → Text) (client : Library Message) where
  after_inputs-IsRejected :
      (l : Shared) (c : Config) (req : EmbeddingRequest) (r : Result RequestError (List Text))
      → IsRejected (after_inputs date_only client l c req r).response ↔ (¬ Succeeds r)
  after_inputs-IsRejected l c req (err e) = ((λ _ (_, s). cc s), (λ _. tt))
  after_inputs-IsRejected l c req (ok inputs) =
      ((λ h. absurd (embedding_answer-IsRejected req.model _ h)), (λ h. absurd (h (inputs, refl))))

  after_embedding_decode-IsRejected :
      (l : Shared) (c : Config) (o : Option EmbeddingRequest)
      → IsRejected (after_embedding_decode date_only client l c o).response
        ↔ (¬ ((req : EmbeddingRequest) × (o ≡ some req) × IsEmbeddable req))
  after_embedding_decode-IsRejected l c none = ((λ _ (_, e, _). cc e), (λ _. tt))
  after_embedding_decode-IsRejected l c (some req) =
      elim (Bool-cases (trim_space req.model == [])) [
        | inl blank ↦ rw blank (
          (λ _ (_, e, (model, _)).
              subst (λ r. trim_space r.model ≢ []) (sym (some-inj e)) model
                ((==_iff (trim_space req.model) []).0 blank)),
          (λ _. tt),
        )
        | inr named ↦
            let answered = after_inputs-IsRejected l c req (decode_embedding_input req.input) in
            let model : trim_space req.model ≢ [] = ground (arith, named) in
            rw named (
              (λ h (_, e, (_, s)).
                  answered.0 h
                    (subst (λ r. Succeeds (decode_embedding_input r.input)) (sym (some-inj e)) s)),
              (λ h. answered.1 (λ s. h (req, refl, (model, s)))),
            )
      ]

  -- A request for embeddings is refused exactly if its body decodes to no request with a model that
  -- is not blank and with inputs that decode.
  pub embeddings-IsRejected :
      (l : Shared) (c : Config) (body : Option Json)
      → IsRejected (embeddings date_only client l c body).response ↔ (
          ¬ (
            (req : EmbeddingRequest) × (and_then body decode_embedding_request ≡ some req)
            × IsEmbeddable req))
  unfolding embeddings
  embeddings-IsRejected l c body =
      after_embedding_decode-IsRejected l c (and_then body decode_embedding_request)

  -- For a request that is not refused, whose inputs the library embeds, the answer has one item for
  -- each vector, in the library's order, and each item has its own position as its index.
  pub embeddings-items :
      (l : Shared) (c : Config) (body : Option Json) {req : EmbeddingRequest} {inputs : List Text}
      {resp : EmbedReply}
      → and_then body decode_embedding_request ≡ some req
      → trim_space req.model ≢ []
      → decode_embedding_input req.input ≡ ok inputs
      → (client.embed inputs (embedding_options c req)).answer ≡ ok resp
      → (r : EmbeddingResponse) × ((embeddings date_only client l c body).response ≡ embedded r)
        × (length r.items ≡ length resp.vectors)
        × ((i : ℕ) → get_elem? r.items i ≡ item_of i (get_elem? resp.vectors i))
  unfolding embeddings embedding_response
  embeddings-items l c body {req} {inputs} {resp} decoded model given answered = (
    embedding_response req.model resp,
    rw (decoded, ==_ne (trim_space req.model) [] model, given, answered) refl,
    length-embedding_items 0 resp.vectors,
    λ i. get_elem?-embedding_items 0 i i resp.vectors (omega arith),
  )
