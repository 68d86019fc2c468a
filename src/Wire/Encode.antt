-- ===== src/Wire/Encode.antt =====
-- The text that encoding/json makes of a value (internal/server/chat.go, `json.Marshal` and
-- `json.NewEncoder`), with the escapes of its default for HTML. A text is the code points of a string
-- that is valid UTF-8.
pub mod Lines
pub mod Literals
pub mod Frames
use smolllm_server.Base.{
  hex_digit, ℕ, ◌+◌, ◌/◌, ◌%◌, Bool, true, false, ◌||◌, [], ◌∷◌, ◌++◌, Text, codes, eqb, ltb,
  if◌then◌else◌, mem_char,
}
use smolllm_server.Json.{
  Json, null, bool, num, str, arr, obj, Items, nil, cons, Members, end, member,
}

abbrev quotes : ℕ
quotes = 0x22

abbrev backslash : ℕ
backslash = 0x5c

-- `\u` and four hexadecimal digits
abbrev pub unicode_escape : ℕ → Text
unicode_escape c =
    backslash
    ∷ b'u'
    ∷ hex_digit (c / 4096 % 16)
    ∷ hex_digit (c / 256 % 16)
    ∷ hex_digit (c / 16 % 16)
    ∷ hex_digit (c % 16)
    ∷ []

-- the characters that are escaped by their code: `<`, `>`, `&` and the two line separators
abbrev special_codes : Text
special_codes = b'<' ∷ b'>' ∷ b'&' ∷ 0x2028 ∷ 0x2029 ∷ []

unfoldable pub escaped_char : ℕ → Text
escaped_char c =
    if eqb c quotes || eqb c backslash
    then backslash ∷ c ∷ []
    else if eqb c 8
    then backslash ∷ b'b' ∷ []
    else if eqb c 12
    then backslash ∷ b'f' ∷ []
    else if eqb c 10
    then backslash ∷ b'n' ∷ []
    else if eqb c 13
    then backslash ∷ b'r' ∷ []
    else if eqb c 9
    then backslash ∷ b't' ∷ []
    else if ltb c 32 || mem_char c special_codes
    then unicode_escape c
    else c ∷ []

unfoldable pub escaped : Text → Text
unfolding escaped_char
escaped [] = []
escaped (c ∷ s) = escaped_char c ++ escaped s

abbrev pub quoted : Text → Text
quoted s = quotes ∷ (escaped s ++ (quotes ∷ []))

abbrev pub bool_text : Bool → Text
bool_text true = codes "true"
bool_text false = codes "false"

-- the compact text of a value
unfoldable mutual
  unfolding escaped

  pub json_text : Json → Text
  json_text null = codes "null"
  json_text (bool b) = bool_text b
  json_text (num t) = t
  json_text (str s) = quoted s
  json_text (arr nil) = codes "[]"
  json_text (arr (cons v vs)) = b'[' ∷ (json_text v ++ rest_items vs)
  json_text (obj end) = codes "{}"
  json_text (obj (member k v ms)) = b'{' ∷ (quoted k ++ (b':' ∷ (json_text v ++ rest_members ms)))

  pub rest_items : Items → Text
  rest_items nil = codes "]"
  rest_items (cons v vs) = b',' ∷ (json_text v ++ rest_items vs)

  pub rest_members : Members → Text
  rest_members end = codes "}"
  rest_members (member k v ms) = b',' ∷ (quoted k ++ (b':' ∷ (json_text v ++ rest_members ms)))
