-- ===== src/Messages/Stripped.antt =====
-- internal/llm/adapter.go: what `stripToolCallIndexes` leaves of the raw calls.
use smolllm_server.Base.{
  ◌≡◌, refl, ap, ◌∙◌, true, false, not, Option, none, some, List, [], ◌∷◌, all, map, arith,
  if◌then◌else◌, ◌==◌, ==_iff, text_eq, Text, Dict, lookup, NodupKeys, lookup-retain,
  retain-NodupKeys, sort_slice, and_then-eq-some, Bool-cases, inl, inr, &&_elim, some-inj, subst,
}
use smolllm_server.Json.{Json, null, arr, obj, Items, nil, cons}
use smolllm_server.Messages.{
  decode_object, decode_objects, decode_calls_value, key_less, as_members, encode_calls, index_key,
  without_index, is_present, no_index, strip_calls, strip_tool_call_indexes,
}
use smolllm_server.Messages.Maps.{decode_object-NodupKeys, lookup-written}

-- the same keys and values but for the key `index`
abbrev pub SameButIndex : Dict Text Json → Dict Text Json → Type 0
SameButIndex call stripped =
    (k : Text) → lookup k stripped ≡ (if k == index_key then none else lookup k call)

-- as many calls, each the same but for the key `index`
abbrev pub Stripped : List (Dict Text Json) → List (Dict Text Json) → Type 0
Stripped [] [] = Unit
Stripped (c ∷ cs) (d ∷ ds) = SameButIndex c d × Stripped cs ds
Stripped _ _ = ⊥

without_index-SameButIndex : (call : Dict Text Json) → SameButIndex call (without_index call)
without_index-SameButIndex call k =
    lookup-retain (λ (j : Text). not (j == index_key)) k call ∙ ground arith

written-SameButIndex :
    (call : Dict Text Json)
    → NodupKeys call
    → (d : Dict Text Json) × (decode_object
          (obj (as_members (sort_slice key_less (without_index call))))
        ≡ some d)
      × SameButIndex call d
unfolding decode_object
written-SameButIndex call u = (
  _,
  refl,
  λ k.
      lookup-written k (without_index call)
        (retain-NodupKeys (λ (j : Text). not (j == index_key)) call u)
      ∙ without_index-SameButIndex call k,
)

decode_objects-cons :
    (v : Json) (vs : Items) {m : Dict Text Json} {ms : List (Dict Text Json)}
    → decode_object v ≡ some m
    → decode_objects vs ≡ some ms
    → decode_objects (cons v vs) ≡ some (m ∷ ms)
unfolding decode_objects
decode_objects-cons v vs e es = rw (e, es) refl

-- one entry of the list of calls, written again
reread :
    (v : Json) (vs : Items) (call : Dict Text Json) (calls : List (Dict Text Json))
    {ds : List (Dict Text Json)}
    → decode_object v ≡ some call
    → decode_objects (encode_calls vs (map without_index calls)) ≡ some ds
    → (d : Dict Text Json) × (decode_objects
          (encode_calls (cons v vs) (map without_index (call ∷ calls)))
        ≡ some (d ∷ ds))
      × SameButIndex call d
unfolding decode_object
reread null vs call calls e es =
    let empty : [] ≡ call = cc e in
    (
      [],
      decode_objects-cons null _ refl es,
      subst (λ c. SameButIndex c []) empty (λ k. unfold lookup in ground arith),
    )
reread (obj ms) vs call calls e es =
    let (d, written, same) = written-SameButIndex call (decode_object-NodupKeys (obj ms) e) in
    (d, decode_objects-cons _ _ written es, same)
reread v vs call calls e es = cc

encode_calls-Stripped :
    (vs : Items) {calls : List (Dict Text Json)}
    → decode_objects vs ≡ some calls
    → (ds : List (Dict Text Json)) × (decode_objects (encode_calls vs (map without_index calls))
        ≡ some ds)
      × Stripped calls ds
unfolding decode_objects
encode_calls-Stripped nil e =
    subst
      (λ cs.
        (ds : List (Dict Text Json)) × (decode_objects (encode_calls nil (map without_index cs))
          ≡ some ds)
        × Stripped cs ds)
      (some-inj e) ([], refl, tt)
encode_calls-Stripped (cons v vs) {calls} e =
    let (c, here, rest) = and_then-eq-some (decode_object v) _ e in
    let (cs, later, whole) = and_then-eq-some (decode_objects vs) _ rest in
    let (ds, again, same) = encode_calls-Stripped vs later in
    let (d, first, same_first) = reread v vs c cs here again in
    subst
      (λ cs.
        (ds : List (Dict Text Json)) × (decode_objects
            (encode_calls (cons v vs) (map without_index cs))
          ≡ some ds)
        × Stripped cs ds)
      (some-inj whole) (d ∷ ds, first, (same_first, same))

absent : (o : Option Json) → is_present o ≡ false → o ≡ none
absent none h = refl
absent (some v) h = cc

no_index-SameButIndex :
    (call : Dict Text Json) → is_present (lookup index_key call) ≡ false → SameButIndex call call
no_index-SameButIndex call none_there k = elim (Bool-cases (k == index_key)) [
  | inl same ↦ rw same (
      ap (λ j. lookup j call) ((==_iff k index_key).0 same)
      ∙ absent (lookup index_key call) none_there)
  | inr other ↦ rw other refl
]

no_index-Stripped :
    (calls : List (Dict Text Json)) → all no_index calls ≡ true → Stripped calls calls
no_index-Stripped [] h = tt
no_index-Stripped (c ∷ cs) h =
    let (first, rest) = &&_elim (no_index c) _ h in
    (no_index-SameButIndex c (ground (arith, first)), no_index-Stripped cs rest)

-- `stripToolCallIndexes` keeps every call of a value that decodes to a list of calls, in order, and
-- what it answers decodes to the same calls with the same keys and values, the key `index` alone
-- taken from each.
pub strip_tool_call_indexes-Stripped :
    (raw : Json) {calls : List (Dict Text Json)}
    → decode_calls_value raw ≡ some calls
    → (stripped : List (Dict Text Json)) × (decode_calls_value (strip_tool_call_indexes raw)
        ≡ some stripped)
      × Stripped calls stripped
unfolding strip_tool_call_indexes decode_calls_value strip_calls
strip_tool_call_indexes-Stripped null e =
    subst
      (λ cs. (ds : List (Dict Text Json)) × (decode_calls_value null ≡ some ds) × Stripped cs ds)
      (some-inj e) ([], refl, tt)
strip_tool_call_indexes-Stripped (arr vs) {calls} e = elim (Bool-cases (all no_index calls)) [
  | inl none_there ↦ (calls, rw (e, none_there) e, no_index-Stripped calls none_there)
  | inr some_there ↦
      let (ds, again, same) = encode_calls-Stripped vs e in (ds, rw (e, some_there) again, same)
]
strip_tool_call_indexes-Stripped raw e = cc
