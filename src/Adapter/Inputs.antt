-- ===== src/Adapter/Inputs.antt =====
-- internal/llm/adapter.go, `decodeStop`, and internal/server/embed.go, `decodeEmbeddingInput`: which
-- values are accepted, and as which texts.
use smolllm_server.Base.{
  ℕ, ◌≡◌, ◌≢◌, ◌↔◌, refl, false, Option, none, some, List, [], ◌∷◌, any, arith, ◌==◌, text_eq, Text,
  trim_space, ok, All, Option-cases, inl, inr, suc,
}
use smolllm_server.Adapter.{
  is_json_null_or_empty, string_items, stop_entries, decode_stop, first_empty, input_entries,
  decode_embedding_input,
}
use smolllm_server.Json.{Json, null, bool, num, str, arr, obj, Items, nil, cons, end, member}

-- the array of some texts
unfoldable pub items_of : List Text → Items
items_of [] = nil
items_of (s ∷ l) = cons (str s) (items_of l)

string_items-items_of : (l : List Text) → string_items (items_of l) ≡ some l
unfolding string_items items_of
string_items-items_of [] = refl
string_items-items_of (s ∷ l) = ground (arith, string_items-items_of l)

any_blank_iff :
    (l : List Text) → (any (λ s. trim_space s == []) l ≡ false) ↔ All (λ s. trim_space s ≢ []) l
any_blank_iff [] = (λ _. tt, λ _. refl)
any_blank_iff (s ∷ l) = ground (arith, any_blank_iff l)

first_empty_iff : (i : ℕ) (l : List Text) → (first_empty i l ≡ none) ↔ All (λ s. s ≢ []) l
unfolding first_empty
first_empty_iff i [] = (λ _. tt, λ _. refl)
first_empty_iff i (s ∷ l) = ground (arith, first_empty_iff (suc i) l)

-- A list of stop texts that is not empty is accepted as it stands exactly if none of them is blank.
pub decode_stop-items_of :
    (s : Text) (l : List Text)
    → (decode_stop (some (arr (items_of (s ∷ l)))) ≡ ok (s ∷ l))
      ↔ All (λ t. trim_space t ≢ []) (s ∷ l)
unfolding decode_stop items_of
decode_stop-items_of s l = ground (arith, string_items-items_of (s ∷ l), any_blank_iff (s ∷ l))

input_entries_iff :
    (l : List Text) → (input_entries (some l) ≡ ok l) ↔ ((l ≢ []) × All (λ t. t ≢ []) l)
unfolding input_entries
input_entries_iff [] = ground arith
input_entries_iff (s ∷ l) = elim (Option-cases (first_empty 0 (s ∷ l))) [
  | inl full ↦
      (λ _. ((λ e. cc), (first_empty_iff 0 (s ∷ l)).0 full), λ _. rw (full, input_entries) refl)
  | inr (i, empty) ↦
      (λ h. cc (rw (empty, input_entries) at h), λ h. cc (empty, (first_empty_iff 0 (s ∷ l)).1 h.1))
]

-- A list of embedding inputs is accepted as it stands exactly if it is not empty and no input is
-- empty; a single input is accepted exactly if it is not empty.
pub decode_embedding_input-items_of :
    (l : List Text) (s : Text)
    → ((decode_embedding_input (some (arr (items_of l))) ≡ ok l) ↔ ((l ≢ []) × All (λ t. t ≢ []) l))
      × ((decode_embedding_input (some (str s)) ≡ ok (s ∷ [])) ↔ (s ≢ []))
unfolding decode_embedding_input
decode_embedding_input-items_of l s =
    (rw (string_items-items_of l) (input_entries_iff l), ground arith)

stop_entries_solid :
    (o : Option (List Text)) {l : List Text}
    → stop_entries o ≡ ok l
    → All (λ t. trim_space t ≢ []) l
unfolding stop_entries
stop_entries_solid none h = cc
stop_entries_solid (some []) h = cc
stop_entries_solid (some (s ∷ l)) h = ground (arith, any_blank_iff (s ∷ l))

-- Whatever is accepted as stop texts, from whatever JSON value, has no blank text in it.
pub decode_stop_solid :
    (raw : Option Json) {l : List Text} → decode_stop raw ≡ ok l → All (λ t. trim_space t ≢ []) l
unfolding decode_stop is_json_null_or_empty
decode_stop_solid none h = ground arith
decode_stop_solid (some null) h = ground arith
decode_stop_solid (some (bool b)) h = cc
decode_stop_solid (some (num n)) h = cc
decode_stop_solid (some (str s)) h = ground arith
decode_stop_solid (some (arr nil)) h = ground arith
decode_stop_solid (some (arr (cons v vs))) h = stop_entries_solid (string_items (cons v vs)) h
decode_stop_solid (some (obj end)) h = ground arith
decode_stop_solid (some (obj (member k v ms))) h = cc
