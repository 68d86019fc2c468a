-- ===== src/Wire/Encode/Literals.antt =====
-- internal/llm/types.go: the number literals of encoded tool calls.
use smolllm_server.Adapter.{decode_map}
use smolllm_server.Base.{
  ℕ, ◌≡◌, refl, true, some, List, [], ◌∷◌, Text, all, arith, Bool-cases, inl, inr, Dict, insert,
  insert_sorted, sort_slice, ◌==◌, text_eq, decimal, all-decimal, is_decimal_digit,
  and_then-eq-some, some-inj, subst, All, text_less,
}
use smolllm_server.Chat.{DeltaToolCall, Choice}
use smolllm_server.Chat.Indexed.{marshal_delta}
use smolllm_server.Json.{Json, null, bool, num, str, arr, obj, Members, end, member, members}
use smolllm_server.Messages.{decode_object, key_less, as_members, index_key}
use smolllm_server.Wire.{marshal_calls, marshal_choices}
use smolllm_server.Wire.Encode.Lines.{is_plain, HasLiterals, MembersHaveLiterals}

-- the values of a map
abbrev DictLiterals : Dict Text Json → Type 0
DictLiterals [] = Unit {0}
DictLiterals ((k, v) ∷ m) = HasLiterals v × DictLiterals m

insert-DictLiterals :
    (k : Text) (v : Json) (m : Dict Text Json)
    → HasLiterals v
    → DictLiterals m
    → DictLiterals (insert k v m)
unfolding insert
insert-DictLiterals k v [] h hs = (h, tt)
insert-DictLiterals k v ((j, w) ∷ m) h (first, hs) = elim (Bool-cases (j == k)) [
  | inl same ↦ rw same (h, hs)
  | inr other ↦ rw other (first, insert-DictLiterals k v m h hs)
]

members-DictLiterals : (ms : Members) → MembersHaveLiterals ms → DictLiterals (members ms)
members-DictLiterals end h = tt
members-DictLiterals (member k v ms) (h, hs) = (h, members-DictLiterals ms hs)

decode_map-DictLiterals :
    (m ms : Dict Text Json) → DictLiterals m → DictLiterals ms → DictLiterals (decode_map m ms)
unfolding decode_map
decode_map-DictLiterals m [] h hs = h
decode_map-DictLiterals m ((k, v) ∷ ms) h (first, hs) =
    decode_map-DictLiterals (insert k v m) ms (insert-DictLiterals k v m first h) hs

insert_sorted-DictLiterals :
    (k : Text) (v : Json) (m : Dict Text Json)
    → HasLiterals v
    → DictLiterals m
    → DictLiterals (insert_sorted key_less (k, v) m)
unfolding insert_sorted
insert_sorted-DictLiterals k v [] h hs = (h, tt)
insert_sorted-DictLiterals k v ((j, w) ∷ m) h (first, hs) = elim (Bool-cases (text_less j k)) [
  | inl before ↦ rw before (first, insert_sorted-DictLiterals k v m h hs)
  | inr after ↦ rw after (h, (first, hs))
]

sort_slice-DictLiterals :
    (m : Dict Text Json) → DictLiterals m → DictLiterals (sort_slice key_less m)
unfolding sort_slice
sort_slice-DictLiterals [] h = tt
sort_slice-DictLiterals ((k, v) ∷ m) (h, hs) =
    insert_sorted-DictLiterals k v (sort_slice key_less m) h (sort_slice-DictLiterals m hs)

as_members-HaveLiterals : (m : Dict Text Json) → DictLiterals m → MembersHaveLiterals (as_members m)
as_members-HaveLiterals [] h = tt
as_members-HaveLiterals ((k, v) ∷ m) (h, hs) = (h, as_members-HaveLiterals m hs)

marshal_delta-HasLiterals :
    (encoded : Json) (digits : Text) {written : Json}
    → HasLiterals encoded
    → is_plain digits ≡ true
    → marshal_delta (some encoded) digits ≡ some written
    → HasLiterals written
unfolding marshal_delta decode_object
marshal_delta-HasLiterals (obj ms) digits h d e =
    let fields = decode_map [] (members ms) in
    subst HasLiterals (some-inj e) (
      as_members-HaveLiterals (sort_slice key_less (insert index_key (num digits) fields)) (
        sort_slice-DictLiterals (insert index_key (num digits) fields) (
          insert-DictLiterals index_key (num digits) fields d
            (decode_map-DictLiterals [] (members ms) tt (members-DictLiterals ms h)))))
marshal_delta-HasLiterals null digits h d e = cc
marshal_delta-HasLiterals (bool b) digits h d e = cc
marshal_delta-HasLiterals (num t) digits h d e = cc
marshal_delta-HasLiterals (str s) digits h d e = cc
marshal_delta-HasLiterals (arr vs) digits h d e = cc

is_plain-digits : (s : Text) → all is_decimal_digit s ≡ true → is_plain s ≡ true
is_plain-digits [] h = refl
is_plain-digits (c ∷ s) h = ground (arith, is_plain-digits s)

pub is_plain-decimal : (n : ℕ) → is_plain (decimal n) ≡ true
is_plain-decimal n = is_plain-digits (decimal n) (all-decimal n)

-- the values of the calls of a frame
abbrev pub CallLiterals : DeltaToolCall → Type 0
CallLiterals c = HasLiterals c.call

abbrev pub ChoiceLiterals : Choice → Type 0
ChoiceLiterals c = All CallLiterals c.delta.tool_calls

marshal_calls-CallLiterals :
    (ds : List DeltaToolCall) {ws : List DeltaToolCall}
    → All CallLiterals ds
    → marshal_calls ds ≡ some ws
    → All CallLiterals ws
unfolding marshal_calls
marshal_calls-CallLiterals [] h e = subst (All CallLiterals) (some-inj e) tt
marshal_calls-CallLiterals (d ∷ ds) (h, hs) e =
    let (written, one, more) =
      and_then-eq-some (marshal_delta (some d.call) (decimal d.index)) _ e in
    let (rest, others, whole) = and_then-eq-some (marshal_calls ds) _ more in
    subst (All CallLiterals) (some-inj whole) (
      marshal_delta-HasLiterals d.call (decimal d.index) h (is_plain-decimal d.index) one,
      marshal_calls-CallLiterals ds hs others,
    )

pub marshal_choices-ChoiceLiterals :
    (cs : List Choice) {ws : List Choice}
    → All ChoiceLiterals cs
    → marshal_choices cs ≡ some ws
    → All ChoiceLiterals ws
unfolding marshal_choices
marshal_choices-ChoiceLiterals [] h e = subst (All ChoiceLiterals) (some-inj e) tt
marshal_choices-ChoiceLiterals (c ∷ cs) (h, hs) e =
    let (calls, one, more) = and_then-eq-some (marshal_calls c.delta.tool_calls) _ e in
    let (rest, others, whole) = and_then-eq-some (marshal_choices cs) _ more in
    subst (All ChoiceLiterals) (some-inj whole) (
      marshal_calls-CallLiterals c.delta.tool_calls h one,
      marshal_choices-ChoiceLiterals cs hs others,
    )
