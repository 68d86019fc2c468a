-- ===== src/Messages/Restore.antt =====
-- internal/llm/adapter.go: `restoreToolCallExtras` and `restoreMessageExtras`, for one message and for
-- the messages of a request.
use smolllm_server.Base.{
  ℕ, suc, Bool, false, not, ◌&&◌, Option, none, some, List, [], ◌∷◌, all, length, if◌then◌else◌,
  eqb, ◌==◌, text_eq, Text, codes, Dict, lookup, Result, ok, err, ◌>>=◌,
}
use smolllm_server.Json.{Json}
use smolllm_server.Values.{json_subset}
use smolllm_server.Messages.{
  MessageApi, RestoreError, Variant, call_extra, decode_calls, decode_encoded, decode_envelope,
  decode_message, decode_object, is_empty, of_assistant, of_developer, of_function, of_system,
  of_tool, of_user, re_encode, strip_tool_call_indexes,
}

-- one entry of a map, if there is one
abbrev pub with_extra : Text → Option Json → Dict Text Json → Dict Text Json
with_extra k none rest = rest
with_extra k (some v) rest = (k, v) ∷ rest

module _ (float_of : Text → Option Text) where
  -- what the second pass sets for a raw member, of a message that was encoded as `encoded`
  abbrev pub survives_in : Json → Option Json → Bool
  survives_in v none = false
  survives_in v (some u) = json_subset float_of v u

  unfoldable pub member_extra : Bool → Dict Text Json → Text → Json → Option Json
  member_extra owned encoded k v =
      if k == codes "tool_calls"
      then if owned then none else some (strip_tool_call_indexes v)
      else if survives_in v (lookup k encoded)
      then none
      else some v

  -- the map `extra` of `restoreMessageExtras`, from the raw members
  unfoldable pub message_extra : Bool → Dict Text Json → Dict Text Json → Dict Text Json
  unfolding member_extra
  message_extra owned encoded [] = []
  message_extra owned encoded ((k, v) ∷ raw) =
      with_extra k (member_extra owned encoded k v) (message_extra owned encoded raw)

module _ (api : MessageApi) where
  -- `messageVariant`
  unfoldable pub message_variant : api.Message → Option Variant
  message_variant m =
      if api.is_set of_developer m
      then some of_developer
      else if api.is_set of_system m
      then some of_system
      else if api.is_set of_user m
      then some of_user
      else if api.is_set of_assistant m
      then some of_assistant
      else if api.is_set of_tool m
      then some of_tool
      else if api.is_set of_function m
      then some of_function
      else none

  -- the calls of a message with `OfAssistant` set
  abbrev pub calls_of : api.Message → List Bool
  calls_of m = if api.is_set of_assistant m then api.tool_calls m else []

  -- `restorerOwnsToolCalls`
  abbrev pub all_functions : List Bool → Bool
  all_functions [] = false
  all_functions (f ∷ fs) = all (λ is_function. is_function) (f ∷ fs)

  unfoldable pub restorer_owns_tool_calls : api.Message → Bool
  restorer_owns_tool_calls m = all_functions (calls_of m)

  -- the loop over the raw calls of one message, from position `j` on
  unfoldable pub set_calls : ℕ → List Bool → List (Dict Text Json) → api.Message → api.Message
  unfolding call_extra
  set_calls j (is_function ∷ fs) (raw_call ∷ calls) m =
      let extra = call_extra raw_call in
      set_calls (suc j) fs calls
        (if is_function && not (is_empty extra) then api.set_call_extra_fields j extra m else m)
  set_calls j _ _ m = m

  -- `restoreToolCallExtras` for one message, at position `i`
  abbrev pub with_calls :
      ℕ → List Bool → Option (List (Dict Text Json)) → api.Message → Result RestoreError api.Message
  with_calls i fs none m = err (decode_calls i)
  with_calls i fs (some calls) m =
      if eqb (length calls) (length fs) then ok (set_calls 0 fs calls m) else ok m

  abbrev pub on_calls : ℕ → List Bool → Json → api.Message → Result RestoreError api.Message
  on_calls i [] raw m = ok m
  on_calls i (f ∷ fs) raw m = with_calls i (f ∷ fs) (decode_envelope raw) m

  unfoldable pub restore_calls : ℕ → Json → api.Message → Result RestoreError api.Message
  unfolding set_calls decode_envelope
  restore_calls i raw m = on_calls i (calls_of m) raw m

  abbrev pub set_extra : Variant → Dict Text Json → api.Message → api.Message
  set_extra variant [] m = m
  set_extra variant (x ∷ extra) m = api.set_extra_fields variant (x ∷ extra) m

  -- the loop over the messages, which stops at the first error
  unfoldable pub restore_each :
      (ℕ → Json → api.Message → Result RestoreError api.Message)
      → ℕ
      → List Json
      → List api.Message
      → Result RestoreError (List api.Message)
  restore_each restore i (raw ∷ raws) (m ∷ ms) =
      restore i raw m >>= λ n. restore_each restore (suc i) raws ms >>= λ ns. ok (n ∷ ns)
  restore_each restore i _ ms = ok ms

  abbrev pub restore_aligned :
      (ℕ → Json → api.Message → Result RestoreError api.Message)
      → List Json
      → List api.Message
      → Result RestoreError (List api.Message)
  restore_aligned restore raws ms =
      if eqb (length raws) (length ms) then restore_each restore 0 raws ms else ok ms

  -- `restoreToolCallExtras`
  unfoldable pub restore_tool_call_extras :
      List Json → List api.Message → Result RestoreError (List api.Message)
  unfolding restore_each
  restore_tool_call_extras raws ms = restore_aligned restore_calls raws ms

module _ (api : MessageApi) (float_of : Text → Option Text) where
  -- `restoreMessageExtras` for one message, at position `i`, once the message is encoded, the raw
  -- one is decoded, and the encoded one is decoded
  abbrev pub with_maps :
      ℕ
      → Variant
      → Option (Dict Text Json)
      → Option (Dict Text Json)
      → api.Message
      → Result RestoreError api.Message
  with_maps i variant none encoded m = err (decode_message i)
  with_maps i variant (some raw) none m = err (decode_encoded i)
  with_maps i variant (some raw) (some encoded) m = ok (
      set_extra api variant (message_extra float_of (restorer_owns_tool_calls api m) encoded raw) m)

  abbrev pub with_encoded :
      ℕ → Variant → Json → Option Json → api.Message → Result RestoreError api.Message
  with_encoded i variant raw none m = err (re_encode i)
  with_encoded i variant raw (some encoded) m =
      with_maps i variant (decode_object raw) (decode_object encoded) m

  abbrev pub with_variant :
      ℕ → Option Variant → Json → api.Message → Result RestoreError api.Message
  with_variant i none raw m = ok m
  with_variant i (some variant) raw m = with_encoded i variant raw (api.marshal m) m

  unfoldable pub restore_message : ℕ → Json → api.Message → Result RestoreError api.Message
  restore_message i raw m = with_variant i (message_variant api m) raw m

  -- `restoreMessageExtras`
  unfoldable pub restore_message_extras :
      List Json → List api.Message → Result RestoreError (List api.Message)
  unfolding restore_each
  restore_message_extras raws ms = restore_aligned api restore_message raws ms
