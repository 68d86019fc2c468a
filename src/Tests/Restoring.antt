-- ===== src/Tests/Restoring.antt =====
-- Examples of the theorems on restored messages.
use smolllm_server.Adapter.{decode_map, decode_field}
use smolllm_server.Base.{
  ℕ, ◌≡◌, ◌≢◌, ◌↔◌, ◌⊎◌, refl, ◌∙◌, ap, sym, Bool, true, false, Option, none, some, List, [], ◌∷◌,
  arith, if◌then◌else◌, ◌==◌, text_eq, text_discrete, Text, codes, Dict, lookup, insert, retain,
  NodupKeys, lookup-insert, insert-NodupKeys, or_else, some-inj, Bool-cases, inl, inr, ==_iff,
  subst, and_then, ok, get_elem?, eqb, sort_slice, text_less, insert_sorted,
}
use smolllm_server.Debit.Numbers.{fold_name}
use smolllm_server.Json.{Json, null, num, str, arr, obj, nil, cons, end, member, members}
use smolllm_server.Messages.{
  MessageApi, Variant, of_user, as_members, decode_object, decode_objects, decode_calls_value,
  decode_envelope, strip_tool_call_indexes, strip_calls,
}
use smolllm_server.Messages.Restore.{
  message_variant, restorer_owns_tool_calls, member_extra, message_extra, restore_message,
  restore_calls, restore_tool_call_extras, restore_message_extras,
}
use smolllm_server.Messages.Calls.{extra_after, IsCallSetter, restore_calls-extra_at}
use smolllm_server.Messages.Maps.{lookup-as_members}
use smolllm_server.Messages.Stripped.{Stripped, strip_tool_call_indexes-Stripped}
use smolllm_server.Messages.Aligned.{Each, restore_message_extras-Each}
use smolllm_server.Messages.Survival.{Encodes, Overrides, asked, restore_message-survives}
use smolllm_server.Values.{decode_any, value_subset, json_subset}
use smolllm_server.Values.Decoded.{json_subset_iff}
use smolllm_server.Values.Paths.{Survives}

-- floats that are told apart by their literals
abbrev pub as_written : Text → Option Text
as_written t = some t

-- user messages: the fields that are modelled, and the extra ones
abbrev pub overlay : Dict Text Json → Dict Text Json → Dict Text Json
overlay [] fields = fields
overlay ((k, v) ∷ extra) fields = insert k v (overlay extra fields)

abbrev is_user : Variant → Bool
is_user of_user = true
is_user _ = false

abbrev pub user_api : MessageApi
user_api = record {
  Message = Dict Text Json × Dict Text Json;
  is_set = λ variant m. is_user variant;
  tool_calls = λ m. [];
  marshal = λ (fields, extra). some (obj (as_members (overlay extra fields)));
  set_extra_fields = λ variant x (fields, extra). (fields, x);
  set_call_extra_fields = λ i x m. m;
}

abbrev pub greeting : Dict Text Json
greeting = (codes "role", str (codes "user")) ∷ (codes "content", str (codes "hi")) ∷ []

abbrev pub greeted : Dict Text Json × Dict Text Json
greeted = (greeting, [])

greeting-NodupKeys : NodupKeys greeting
unfolding lookup text_discrete
greeting-NodupKeys = (refl, (refl, tt))

overlay-NodupKeys :
    (extra fields : Dict Text Json) → NodupKeys fields → NodupKeys (overlay extra fields)
overlay-NodupKeys [] fields u = u
overlay-NodupKeys ((k, v) ∷ extra) fields u =
    insert-NodupKeys k v (overlay extra fields) (overlay-NodupKeys extra fields u)

lookup-overlay :
    (k : Text) (extra fields : Dict Text Json)
    → lookup k (overlay extra fields) ≡ or_else (lookup k extra) (lookup k fields)
unfolding lookup
lookup-overlay k [] fields = refl
lookup-overlay k ((j, v) ∷ extra) fields =
    ground (arith, lookup-insert k j v (overlay extra fields), lookup-overlay k extra fields)

written_greeting : Encodes user_api greeted (decode_map [] (members (as_members greeting)))
unfolding decode_object
written_greeting = (obj (as_members greeting), refl, refl)

-- the members that a message is encoded with, found again
lookup-encoded :
    (k : Text) {encoded : Dict Text Json}
    → Encodes user_api greeted encoded
    → lookup k encoded ≡ lookup k greeting
unfolding decode_object
lookup-encoded k {encoded} (v, written, decoded) =
    let same : obj (as_members greeting) ≡ v = cc written in
    let again : decode_map [] (members (as_members greeting)) ≡ encoded =
      some-inj (ap decode_object same ∙ decoded) in
    ap (lookup k) (sym again) ∙ lookup-as_members k greeting greeting-NodupKeys

greeted-Overrides : Overrides user_api greeted
unfolding decode_object
greeted-Overrides variant x encoded here e = (
  _,
  (obj (as_members (overlay x greeting)), refl, refl),
  λ k.
      lookup-as_members k (overlay x greeting) (overlay-NodupKeys x greeting greeting-NodupKeys)
      ∙ lookup-overlay k x greeting
      ∙ ap (or_else (lookup k x)) (sym (lookup-encoded k e)),
)

abbrev marked : Json
marked = obj (member (codes "cache_control") (str (codes "x")) (as_members greeting))

user_known : message_variant user_api greeted ≡ some of_user
unfolding message_variant
user_known = refl

not_calls : codes "cache_control" ≢ codes "tool_calls"
unfolding text_discrete
not_calls e =
    let same : false ≡ true = (==_iff (codes "cache_control") (codes "tool_calls")).1 e in cc same

restore_message-survives_example :
    (restored : Dict Text Json × Dict Text Json) × (after : Dict Text Json) × (restore_message
        user_api as_written 0 marked greeted
      ≡ ok restored)
    × Encodes user_api restored after
    × (u : Json) × (lookup (codes "cache_control") after ≡ some u)
    × ((u ≡ str (codes "x")) ⊎ (json_subset as_written (str (codes "x")) u ≡ true))
unfolding decode_object decode_map lookup insert text_discrete
restore_message-survives_example =
    restore_message-survives user_api as_written 0 marked greeted greeted-Overrides user_known
      written_greeting refl (codes "cache_control") (str (codes "x")) not_calls refl

-- the mark is put back
marked_test :
    restore_message user_api as_written 0 marked greeted
    ≡ ok (greeting, (codes "cache_control", str (codes "x")) ∷ [])
unfolding restore_message message_variant decode_object decode_map lookup insert text_discrete
    message_extra json_subset decode_any value_subset restorer_owns_tool_calls
marked_test = refl

not_there :
    (k : Text)
    → (codes "role" == k) ≡ false
    → (codes "content" == k) ≡ false
    → lookup k greeting ≡ none
unfolding lookup
not_there k other last = rw (other, last) refl

nothing_asked : (k : Text) → asked as_written false greeting greeting k ≡ none
unfolding lookup text_discrete member_extra json_subset decode_any value_subset
nothing_asked k = elim (Bool-cases (codes "role" == k)) [
  | inl role ↦
      subst (λ j. asked as_written false greeting greeting j ≡ none)
        ((==_iff (codes "role") k).0 role) refl
  | inr other ↦ elim (Bool-cases (codes "content" == k)) [
    | inl content ↦
        subst (λ j. asked as_written false greeting greeting j ≡ none)
          ((==_iff (codes "content") k).0 content) refl
    | inr last ↦
        ap (λ o. and_then o (member_extra as_written false greeting k)) (not_there k other last)
  ]
]

json_subset_iff_example :
    (json_subset as_written (arr (cons (num (codes "1")) nil)) (arr nil) ≡ true) ↔ (
      (w : Json) × (g : Json) × (decode_any as_written (arr (cons (num (codes "1")) nil)) ≡ some w)
      × (decode_any as_written (arr nil) ≡ some g)
      × Survives w g)
json_subset_iff_example = json_subset_iff as_written (arr (cons (num (codes "1")) nil)) (arr nil)

abbrev one_call : Json
one_call = obj (
    member (codes "index") (num (codes "0"))
      (member (codes "id") (str (codes "a")) (member (codes "signature") (str (codes "s")) end)))

abbrev decoded_call : Dict Text Json
decoded_call =
    (codes "index", num (codes "0"))
    ∷ (codes "id", str (codes "a"))
    ∷ (codes "signature", str (codes "s"))
    ∷ []

strip_tool_call_indexes-Stripped_example :
    (stripped : List (Dict Text Json)) × (decode_calls_value
        (strip_tool_call_indexes (arr (cons one_call (cons null nil))))
      ≡ some stripped)
    × Stripped (decoded_call ∷ [] ∷ []) stripped
unfolding decode_calls_value decode_objects decode_object decode_map insert text_discrete
strip_tool_call_indexes-Stripped_example =
    strip_tool_call_indexes-Stripped (arr (cons one_call (cons null nil))) refl

strip_test :
    strip_tool_call_indexes (arr (cons one_call nil))
    ≡ arr (
        cons
          (obj (
            member
              (codes "id")
              (str (codes "a"))
              (member (codes "signature") (str (codes "s")) end)))
          nil)
unfolding strip_tool_call_indexes strip_calls decode_objects decode_object decode_map insert
    text_discrete lookup retain sort_slice insert_sorted text_less
strip_test = refl

-- an assistant message with a function call and another call, by the extra fields of its calls
abbrev call_api : MessageApi
call_api = record {
  Message = ℕ → Dict Text Json;
  is_set = λ variant m. true;
  tool_calls = λ m. true ∷ false ∷ [];
  marshal = λ m. none;
  set_extra_fields = λ variant x m. m;
  set_call_extra_fields = λ i x m j. if eqb i j then x else m j;
}

abbrev no_extra : ℕ → Dict Text Json
no_extra j = []

replaces : IsCallSetter call_api (λ j m. m j)
replaces i j x m = refl

abbrev turn : Json
turn = obj (member (codes "tool_calls") (arr (cons one_call (cons one_call nil))) end)

restore_calls-extra_at_example :
    (m' : ℕ → Dict Text Json) × (restore_calls call_api 0 turn no_extra ≡ ok m')
    × ((j : ℕ)
        → m' j
          ≡ extra_after
              (get_elem? (true ∷ false ∷ []) j)
              (get_elem? (decoded_call ∷ decoded_call ∷ []) j)
              [])
unfolding decode_envelope decode_calls_value decode_objects decode_object decode_map decode_field
    fold_name insert text_discrete
restore_calls-extra_at_example =
    restore_calls-extra_at call_api (λ j m. m j) replaces 0 turn no_extra refl refl

restore_message_extras-Each_example :
    ((restore_tool_call_extras user_api (marked ∷ []) (greeted ∷ []) ≡ ok (greeted ∷ []))
      ↔ Each user_api (restore_calls user_api) 0 (marked ∷ []) (greeted ∷ []) (greeted ∷ []))
    × ((restore_message_extras user_api as_written (marked ∷ []) (greeted ∷ []) ≡ ok (greeted ∷ []))
        ↔ Each user_api
            (restore_message user_api as_written)
            0
            (marked ∷ [])
            (greeted ∷ [])
            (greeted ∷ []))
restore_message_extras-Each_example =
    restore_message_extras-Each user_api as_written (marked ∷ []) (greeted ∷ []) (greeted ∷ []) refl
