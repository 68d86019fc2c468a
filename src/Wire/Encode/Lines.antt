-- ===== src/Wire/Encode/Lines.antt =====
-- The text of an encoded value stays on one line.
use smolllm_server.Base.{
  ℕ, ◌≡◌, refl, Bool, true, false, [], ◌∷◌, ◌++◌, Text, leb, all, all-append, arith,
}
use smolllm_server.Json.{
  Json, null, bool, num, str, arr, obj, Items, nil, cons, Members, end, member,
}
use smolllm_server.Wire.Encode.{escaped_char, escaped, quoted, json_text, rest_items, rest_members}

-- a text without control characters
abbrev pub is_plain : Text → Bool
is_plain = all (leb 32)

-- a value whose number literals have no control characters, as those of JSON
abbrev mutual
  pub HasLiterals : Json → Type 0
  HasLiterals (num t) = is_plain t ≡ true
  HasLiterals (arr vs) = HaveLiterals vs
  HasLiterals (obj ms) = MembersHaveLiterals ms
  HasLiterals _ = Unit {0}

  pub HaveLiterals : Items → Type 0
  HaveLiterals nil = Unit {0}
  HaveLiterals (cons v vs) = HasLiterals v × HaveLiterals vs

  pub MembersHaveLiterals : Members → Type 0
  MembersHaveLiterals end = Unit {0}
  MembersHaveLiterals (member k v ms) = HasLiterals v × MembersHaveLiterals ms

is_plain-escaped_char : (c : ℕ) → is_plain (escaped_char c) ≡ true
unfolding escaped_char
is_plain-escaped_char c = ground arith

is_plain-escaped : (s : Text) → is_plain (escaped s) ≡ true
unfolding escaped
is_plain-escaped [] = refl
is_plain-escaped (c ∷ s) =
    rw (all-append (leb 32) (escaped_char c) (escaped s), is_plain-escaped_char c)
      (is_plain-escaped s)

is_plain-append : (s t : Text) → is_plain s ≡ true → is_plain t ≡ true → is_plain (s ++ t) ≡ true
is_plain-append s t h k = rw (all-append (leb 32) s t, h) k

is_plain-quoted : (s : Text) → is_plain (quoted s) ≡ true
is_plain-quoted s = is_plain-append (escaped s) _ (is_plain-escaped s) refl

mutual
  unfolding json_text rest_items rest_members

  is_plain-value : (v : Json) → HasLiterals v → is_plain (json_text v) ≡ true
  is_plain-value null h = refl
  is_plain-value (bool true) h = refl
  is_plain-value (bool false) h = refl
  is_plain-value (num t) h = h
  is_plain-value (str s) h = is_plain-quoted s
  is_plain-value (arr nil) h = refl
  is_plain-value (arr (cons v vs)) h =
      is_plain-append (json_text v) _ (is_plain-value v h.0) (is_plain-rest_items vs h.1)
  is_plain-value (obj end) h = refl
  is_plain-value (obj (member k v ms)) h =
      is_plain-append (quoted k) _ (is_plain-quoted k)
        (is_plain-append (json_text v) _ (is_plain-value v h.0) (is_plain-rest_members ms h.1))

  is_plain-rest_items : (vs : Items) → HaveLiterals vs → is_plain (rest_items vs) ≡ true
  is_plain-rest_items nil h = refl
  is_plain-rest_items (cons v vs) h =
      is_plain-append (json_text v) _ (is_plain-value v h.0) (is_plain-rest_items vs h.1)

  is_plain-rest_members :
      (ms : Members) → MembersHaveLiterals ms → is_plain (rest_members ms) ≡ true
  is_plain-rest_members end h = refl
  is_plain-rest_members (member k v ms) h =
      is_plain-append (quoted k) _ (is_plain-quoted k)
        (is_plain-append (json_text v) _ (is_plain-value v h.0) (is_plain-rest_members ms h.1))

pub is_plain-json_text : (v : Json) → HasLiterals v → is_plain (json_text v) ≡ true
is_plain-json_text v h = is_plain-value v h
