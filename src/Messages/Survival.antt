-- ===== src/Messages/Survival.antt =====
-- internal/llm/adapter.go: `restoreMessageExtras`, what it puts back into a message.
use smolllm_server.Base.{
  ℕ, ◌≡◌, ◌≢◌, refl, ap, sym, ◌∙◌, Bool, true, Option, none, some, [], ◌∷◌, arith, if◌then◌else◌,
  ◌==◌, ==_iff, ==_refl, ==_ne, text_eq, Text, codes, Dict, lookup, NodupKeys, and_then, or_else,
  or_else-none, Bool-cases, inl, inr, ◌⊎◌, ok,
}
use smolllm_server.Json.{Json}
use smolllm_server.Messages.{MessageApi, Variant, decode_object}
use smolllm_server.Messages.Restore.{
  message_variant, restorer_owns_tool_calls, survives_in, member_extra, with_extra, message_extra,
  set_extra, restore_message,
}
use smolllm_server.Messages.Maps.{decode_object-NodupKeys, lookup-nil}
use smolllm_server.Values.{json_subset}

-- `json.Marshal` gives an object with these members.
abbrev pub Encodes : (api : MessageApi) → api.Message → Dict Text Json → Type 0
Encodes api m encoded = (v : Json) × (api.marshal m ≡ some v) × (decode_object v ≡ some encoded)

-- What the library says of `SetExtraFields`, of a message that has no extra fields yet: when it is
-- encoded, the fields override those of the same name.
abbrev pub Overrides : (api : MessageApi) → api.Message → Type 0
Overrides api m =
    (variant : Variant) (x encoded : Dict Text Json)
    → api.is_set variant m ≡ true
    → Encodes api m encoded
    → (after : Dict Text Json) × Encodes api (api.set_extra_fields variant x m) after
      × ((k : Text) → lookup k after ≡ or_else (lookup k x) (lookup k encoded))

message_variant-is_set :
    (api : MessageApi) (m : api.Message) {variant : Variant}
    → message_variant api m ≡ some variant
    → api.is_set variant m ≡ true
unfolding message_variant
message_variant-is_set api m {variant} e = ground (arith, e)

lookup-with_extra :
    (i k : Text) (o : Option Json) (rest : Dict Text Json)
    → lookup i (with_extra k o rest) ≡ (if k == i then or_else o (lookup i rest) else lookup i rest)
unfolding lookup
lookup-with_extra i k none rest = ground arith
lookup-with_extra i k (some v) rest = ground arith

empty_of_lookup : (m : Dict Text Json) → ((k : Text) → lookup k m ≡ none) → m ≡ []
unfolding lookup
empty_of_lookup [] h = refl
empty_of_lookup ((k, v) ∷ m) h = let found : some v ≡ none = rw (==_refl k) at (h k) in cc found

-- What the raw members `raw` ask for at a key, of a message that was encoded as `encoded`.
abbrev pub asked :
    (Text → Option Text) → Bool → Dict Text Json → Dict Text Json → Text → Option Json
asked float_of owned encoded raw k = and_then (lookup k raw) (member_extra float_of owned encoded k)

module _ (float_of : Text → Option Text) (owned : Bool) (encoded : Dict Text Json) where
  lookup-message_extra :
      (i : Text) (raw : Dict Text Json)
      → NodupKeys raw
      → lookup i (message_extra float_of owned encoded raw) ≡ asked float_of owned encoded raw i
  unfolding message_extra lookup
  lookup-message_extra i [] u = refl
  lookup-message_extra i ((k, v) ∷ raw) (fresh, u) =
      lookup-with_extra i k (member_extra float_of owned encoded k v)
        (message_extra float_of owned encoded raw)
      ∙ rw (lookup-message_extra i raw u) (elim (Bool-cases (k == i)) [
        | inl same ↦
            let here = (==_iff k i).0 same in
            rw
              (
                same,
                ap (λ j. lookup j raw) (sym here) ∙ fresh,
                or_else-none (member_extra float_of owned encoded k v),
              )
              (ap (λ j. member_extra float_of owned encoded j v) here)
        | inr other ↦ rw other refl
      ])

  message_extra-none :
      (raw : Dict Text Json)
      → NodupKeys raw
      → ((k : Text) → asked float_of owned encoded raw k ≡ none)
      → message_extra float_of owned encoded raw ≡ []
  message_extra-none raw u h =
      empty_of_lookup (message_extra float_of owned encoded raw)
        (λ k. lookup-message_extra k raw u ∙ h k)

member_extra-survives :
    (float_of : Text → Option Text) (owned : Bool) (encoded : Dict Text Json) (k : Text) (v : Json)
    → k ≢ codes "tool_calls"
    → (u : Json) × (or_else (member_extra float_of owned encoded k v) (lookup k encoded) ≡ some u)
      × ((u ≡ v) ⊎ (json_subset float_of v u ≡ true))
unfolding member_extra
member_extra-survives float_of owned encoded k v other =
    rw (==_ne k (codes "tool_calls") other) (survivor (lookup k encoded))
  where
    survivor :
        (o : Option Json)
        → (u : Json) × (or_else (if survives_in float_of v o then none else some v) o ≡ some u)
          × ((u ≡ v) ⊎ (json_subset float_of v u ≡ true))
    survivor none = (v, refl, inl refl)
    survivor (some g) = elim (Bool-cases (json_subset float_of v g)) [
      | inl kept ↦ (g, rw kept refl, inr kept)
      | inr lost ↦ (v, rw lost refl, inl refl)
    ]

module _ (api : MessageApi) (float_of : Text → Option Text) where
  set_extra-Encodes :
      (variant : Variant) (x : Dict Text Json) (m : api.Message) (encoded : Dict Text Json)
      → Overrides api m
      → api.is_set variant m ≡ true
      → Encodes api m encoded
      → (after : Dict Text Json) × Encodes api (set_extra api variant x m) after
        × ((k : Text) → lookup k after ≡ or_else (lookup k x) (lookup k encoded))
  set_extra-Encodes variant [] m encoded _ here e = (encoded, e, λ k. rw (lookup-nil k) refl)
  set_extra-Encodes variant (f ∷ x) m encoded overrides here e =
      overrides variant (f ∷ x) encoded here e

  -- For a message of a known variant that has no extra fields yet and is encoded as an object, and
  -- whose raw form is an object, `restoreMessageExtras` succeeds, and the message is then encoded
  -- with, under each key, the raw value where it has to be put back and the encoded value of before
  -- everywhere else.
  pub restore_message-lookup :
      (i : ℕ) (raw : Json) (m : api.Message) {variant : Variant} {encoded sent : Dict Text Json}
      → Overrides api m
      → message_variant api m ≡ some variant
      → Encodes api m encoded
      → decode_object raw ≡ some sent
      → (restored : api.Message) × (after : Dict Text Json) × (restore_message api float_of i raw m
          ≡ ok restored)
        × Encodes api restored after
        × ((k : Text)
            → lookup k after
              ≡ or_else
                  (asked float_of (restorer_owns_tool_calls api m) encoded sent k)
                  (lookup k encoded))
  unfolding restore_message
  restore_message-lookup i raw m {variant} {encoded} {sent} overrides known (v, marshalled, decoded)
        dr =
      let owned = restorer_owns_tool_calls api m in
      let extra = message_extra float_of owned encoded sent in
      let (after, e, all) =
        set_extra-Encodes variant extra m encoded overrides (message_variant-is_set api m known)
          (v, marshalled, decoded) in
      (
        set_extra api variant extra m,
        after,
        rw (known, marshalled, dr, decoded) refl,
        e,
        λ k.
            all k
            ∙ ap (λ o. or_else o (lookup k encoded))
                (lookup-message_extra float_of owned encoded k sent
                  (decode_object-NodupKeys raw dr)),
      )

  -- For a message of a known variant that has no extra fields yet and is encoded as an object, and
  -- whose raw form is an object, `restoreMessageExtras` succeeds and no key of the raw message is
  -- lost: a raw member other than `tool_calls` is found in the encoding of the restored message,
  -- with the value as it was sent or with one that `jsonSubset` finds the sent value in.
  pub restore_message-survives :
      (i : ℕ) (raw : Json) (m : api.Message) {variant : Variant} {encoded sent : Dict Text Json}
      → Overrides api m
      → message_variant api m ≡ some variant
      → Encodes api m encoded
      → decode_object raw ≡ some sent
      → (k : Text) (v : Json) → k ≢ codes "tool_calls"
      → lookup k sent ≡ some v
      → (restored : api.Message) × (after : Dict Text Json) × (restore_message api float_of i raw m
          ≡ ok restored)
        × Encodes api restored after
        × (u : Json) × (lookup k after ≡ some u)
        × ((u ≡ v) ⊎ (json_subset float_of v u ≡ true))
  restore_message-survives i raw m {encoded} {sent} overrides known e dr k v other there =
      let (restored, after, result, again, all) =
        restore_message-lookup i raw m overrides known e dr in
      let owned = restorer_owns_tool_calls api m in
      let (u, found, same) = member_extra-survives float_of owned encoded k v other in
      (restored, after, result, again, u, all k ∙ rw there found, same)

  -- For a message of a known variant that is encoded as an object, and whose raw form is an object,
  -- `restoreMessageExtras` does not touch the message if the encoding asks for nothing: every raw
  -- member survives in it, and `tool_calls` is absent or left to `restoreToolCallExtras`.
  pub restore_message-lossless :
      (i : ℕ) (raw : Json) (m : api.Message) {variant : Variant} {encoded sent : Dict Text Json}
      → message_variant api m ≡ some variant
      → Encodes api m encoded
      → decode_object raw ≡ some sent
      → ((k : Text) → asked float_of (restorer_owns_tool_calls api m) encoded sent k ≡ none)
      → restore_message api float_of i raw m ≡ ok m
  unfolding restore_message
  restore_message-lossless i raw m {encoded} {sent} known (v, marshalled, decoded) dr nothing =
      let none_lost =
        message_extra-none float_of (restorer_owns_tool_calls api m) encoded sent
          (decode_object-NodupKeys raw dr) nothing in
      rw (known, marshalled, dr, decoded, none_lost) refl
