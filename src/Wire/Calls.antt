-- ===== src/Wire/Calls.antt =====
-- internal/llm/types.go: what a frame carries of the tool calls that it is made of, after `MarshalJSON`
-- of each.
use smolllm_server.Base.{
  ◌≡◌, refl, sym, ◌∙◌, Bool, true, false, none, some, List, [], ◌∷◌, Text, codes, ◌==◌, text_eq,
  if◌then◌else◌, and_then-eq-some, some-inj, decimal, subst, arith, all, Option-cases, inl, inr,
}
use smolllm_server.Chat.{DeltaToolCall, Choice}
use smolllm_server.Chat.Indexed.{marshal_delta, lookup-marshal_delta}
use smolllm_server.Json.{Json, null, bool, num, str, arr, obj}
use smolllm_server.Messages.{decode_object}
use smolllm_server.Wire.{marshal_calls, marshal_choices}
use smolllm_server.Wire.Fields.{field}

abbrev is_object : Json → Bool
is_object (obj ms) = true
is_object _ = false

-- whether every call of some choices is an object
abbrev pub has_objects : List Choice → Bool
has_objects cs =
    all (λ (c : Choice). all (λ (d : DeltaToolCall). is_object d.call) c.delta.tool_calls) cs

-- two lists of one length, related position by position
abbrev pub Pairwise {ℓ} : {A : Type ℓ} → (A → A → Type 0) → List A → List A → Type 0
Pairwise R [] [] = Unit
Pairwise R (a ∷ xs) (b ∷ bs) = R a b × Pairwise R xs bs
Pairwise R [] (b ∷ bs) = ⊥
Pairwise R (a ∷ xs) [] = ⊥

-- the encoded call has its position as `index`, and under every other name what the call has there
abbrev pub CarriesCall : DeltaToolCall → DeltaToolCall → Type 0
CarriesCall d written =
    (k : Text)
    → field k written.call
      ≡ (if codes "index" == k then some (num (decimal d.index)) else field k d.call)

abbrev pub CarriesCalls : Choice → Choice → Type 0
CarriesCalls c written = Pairwise CarriesCall c.delta.tool_calls written.delta.tool_calls

pub field-marshal_delta :
    (encoded : Json) (digits : Text) {written : Json}
    → marshal_delta (some encoded) digits ≡ some written
    → (k : Text)
    → field k written ≡ (if codes "index" == k then some (num digits) else field k encoded)
unfolding marshal_delta field decode_object
field-marshal_delta (obj ms) digits h k =
    let (w, after, wrote, decoded, at) = lookup-marshal_delta ms digits in
    subst (λ v. field k v ≡ (if codes "index" == k then some (num digits) else field k (obj ms)))
      (some-inj (sym wrote ∙ h)) (rw decoded (at k))
field-marshal_delta null digits h k = cc
field-marshal_delta (bool b) digits h k = cc
field-marshal_delta (num t) digits h k = cc
field-marshal_delta (str s) digits h k = cc
field-marshal_delta (arr vs) digits h k = cc

pub marshal_calls-CarriesCall :
    (ds : List DeltaToolCall) {ws : List DeltaToolCall}
    → marshal_calls ds ≡ some ws
    → Pairwise CarriesCall ds ws
unfolding marshal_calls
marshal_calls-CarriesCall [] h = let e = some-inj h in rw (← e) tt
marshal_calls-CarriesCall (d ∷ ds) h =
    let (written, one, more) =
      and_then-eq-some (marshal_delta (some d.call) (decimal d.index)) _ h in
    let (rest, others, all_of) = and_then-eq-some (marshal_calls ds) _ more in
    let e = some-inj all_of in
    rw (← e) (field-marshal_delta d.call (decimal d.index) one, marshal_calls-CarriesCall ds others)

pub marshal_choices-CarriesCalls :
    (cs : List Choice) {ws : List Choice}
    → marshal_choices cs ≡ some ws
    → Pairwise CarriesCalls cs ws
unfolding marshal_choices
marshal_choices-CarriesCalls [] h = let e = some-inj h in rw (← e) tt
marshal_choices-CarriesCalls (c ∷ cs) h =
    let (calls, one, more) = and_then-eq-some (marshal_calls c.delta.tool_calls) _ h in
    let (rest, others, all_of) = and_then-eq-some (marshal_choices cs) _ more in
    let e = some-inj all_of in
    rw (← e)
      (marshal_calls-CarriesCall c.delta.tool_calls one, marshal_choices-CarriesCalls cs others)

-- a call that cannot be encoded is no object
marshal_delta-none :
    (encoded : Json) (digits : Text)
    → marshal_delta (some encoded) digits ≡ none
    → is_object encoded ≡ false
unfolding marshal_delta decode_object
marshal_delta-none (obj ms) digits h = cc
marshal_delta-none null digits h = refl
marshal_delta-none (bool b) digits h = refl
marshal_delta-none (num t) digits h = refl
marshal_delta-none (str s) digits h = refl
marshal_delta-none (arr vs) digits h = refl

marshal_calls-none :
    (ds : List DeltaToolCall)
    → marshal_calls ds ≡ none
    → all (λ (d : DeltaToolCall). is_object d.call) ds ≡ false
unfolding marshal_calls
marshal_calls-none [] h = cc
marshal_calls-none (d ∷ ds) h =
    elim (Option-cases (marshal_delta (some d.call) (decimal d.index))) [
      | inl bad ↦ rw (marshal_delta-none d.call (decimal d.index) bad) refl
      | inr (written, good) ↦ elim (Option-cases (marshal_calls ds)) [
        | inl bad ↦ rw (marshal_calls-none ds bad) (ground arith)
        | inr (rest, fine) ↦ cc (rw (good, fine) at h)
      ]
    ]

pub marshal_choices-none : (cs : List Choice) → marshal_choices cs ≡ none → has_objects cs ≡ false
unfolding marshal_choices
marshal_choices-none [] h = cc
marshal_choices-none (c ∷ cs) h = elim (Option-cases (marshal_calls c.delta.tool_calls)) [
  | inl bad ↦ rw (marshal_calls-none c.delta.tool_calls bad) refl
  | inr (calls, good) ↦ elim (Option-cases (marshal_choices cs)) [
    | inl bad ↦ rw (marshal_choices-none cs bad) (ground arith)
    | inr (rest, fine) ↦ cc (rw (good, fine) at h)
  ]
]
