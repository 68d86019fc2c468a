-- ===== src/Messages/Aligned.antt =====
-- internal/llm/adapter.go: the loops of `restoreToolCallExtras` and `restoreMessageExtras` over the
-- messages of a request.
use smolllm_server.Base.{
  ℕ, suc, ◌≡◌, ◌↔◌, refl, Option, true, List, [], ◌∷◌, arith, length, eqb, Text, Result, ok,
  >>=-eq-ok,
}
use smolllm_server.Json.{Json}
use smolllm_server.Messages.{MessageApi, RestoreError}
use smolllm_server.Messages.Restore.{
  restore_each, restore_calls, restore_message, restore_tool_call_extras, restore_message_extras,
}

module _ (api : MessageApi) where
  -- each message restored with the raw one in its place, at its position from `i` on
  abbrev pub Each :
      (ℕ → Json → api.Message → Result RestoreError api.Message)
      → ℕ
      → List Json
      → List api.Message
      → List api.Message
      → Type 0
  Each restore i [] [] [] = Unit
  Each restore i (raw ∷ raws) (m ∷ ms) (n ∷ ns) =
      (restore i raw m ≡ ok n) × Each restore (suc i) raws ms ns
  Each restore i _ _ _ = ⊥

  restore_each-Each :
      (restore : ℕ → Json → api.Message → Result RestoreError api.Message) (i : ℕ)
      (raws : List Json) (ms ns : List api.Message)
      → length raws ≡ length ms
      → (restore_each api restore i raws ms ≡ ok ns) ↔ Each restore i raws ms ns
  unfolding restore_each
  restore_each-Each restore i [] [] [] e = ((λ _. tt), (λ _. refl))
  restore_each-Each restore i [] [] (n ∷ ns) e = ((λ h. cc h), (λ h. absurd h))
  restore_each-Each restore i [] (m ∷ ms) ns e = absurd (omega (arith, e))
  restore_each-Each restore i (raw ∷ raws) [] ns e = absurd (omega (arith, e))
  restore_each-Each restore i (raw ∷ raws) (m ∷ ms) [] e = (
    λ h.
        let (n, _, rest) = >>=-eq-ok (restore i raw m) _ h in
        let (ns, _, end) = >>=-eq-ok (restore_each api restore (suc i) raws ms) _ rest in cc end,
    λ h. absurd h,
  )
  restore_each-Each restore i (raw ∷ raws) (m ∷ ms) (n ∷ ns) e =
      let later = restore_each-Each restore (suc i) raws ms ns (omega (arith, e)) in
      (
        λ h.
            let (p, first, rest) = >>=-eq-ok (restore i raw m) _ h in
            let (ps, others, end) = >>=-eq-ok (restore_each api restore (suc i) raws ms) _ rest in
            (cc (first, end), later.0 (cc (others, end))),
        λ (first, others). rw (first, later.1 others) refl,
      )

  -- For as many raw messages as messages, each of the two passes ends without an error exactly if each
  -- of its results is the message restored by the raw one in its own place: no message is restored
  -- from another one, and one that cannot be restored fails the request.
  pub restore_message_extras-Each :
      (float_of : Text → Option Text) (raws : List Json) (ms ns : List api.Message)
      → length raws ≡ length ms
      → ((restore_tool_call_extras api raws ms ≡ ok ns) ↔ Each (restore_calls api) 0 raws ms ns)
        × ((restore_message_extras api float_of raws ms ≡ ok ns)
            ↔ Each (restore_message api float_of) 0 raws ms ns)
  unfolding restore_tool_call_extras restore_message_extras
  restore_message_extras-Each float_of raws ms ns e =
      let same : eqb (length raws) (length ms) ≡ true = ground (arith, e) in
      rw same (
        restore_each-Each (restore_calls api) 0 raws ms ns e,
        restore_each-Each (restore_message api float_of) 0 raws ms ns e,
      )
