-- ===== src/Debit/Numbers.antt =====
-- internal/server/credit.go, `record`: the checks of encoding/json on the text of a credit and its
-- decoding, `strings.FieldsFunc` at the letter e, and `strconv.Atoi`.
use smolllm_server.Base.{
  ℕ, zero, suc, ◌+◌, ◌-◌, ◌*◌, ◌^◌, Bool, true, false, not, ◌&&◌, ◌||◌, Option, none, some, List,
  [], ◌∷◌, ◌++◌, map, if◌then◌else◌, ltb, leb, eqb, ◌==◌, text_eq, Text, codes, ℤ, pos, negsuc,
  pos_part, neg_part,
}
use smolllm_server.Json.{Json, null, num, str, obj, Members, end, member}

abbrev is_digit : ℕ → Bool
is_digit c = leb b'0' c && leb c b'9'

all_digits : Text → Bool
all_digits [] = true
all_digits (c ∷ s) = is_digit c && all_digits s

some_digits : Text → Bool
some_digits [] = false
some_digits (c ∷ s) = all_digits (c ∷ s)

-- the text before and behind the first character that passes a test, if there is one
cut : (ℕ → Bool) → Text → Text × Option Text
cut p [] = ([], none)
cut p (c ∷ s) = let (before, behind) = cut p s in if p c then ([], some s) else (c ∷ before, behind)

abbrev is_e : ℕ → Bool
is_e c = eqb c b'e' || eqb c b'E'

valid_int : Text → Bool
valid_int [] = false
valid_int (c ∷ []) = is_digit c
valid_int (c ∷ d ∷ s) = is_digit c && not (eqb c b'0') && all_digits (d ∷ s)

valid_exponent : Option Text → Bool
valid_exponent none = true
valid_exponent (some []) = false
valid_exponent (some (c ∷ s)) =
    if eqb c b'+' || eqb c b'-' then some_digits s else all_digits (c ∷ s)

valid_fraction : Option Text → Bool
valid_fraction none = true
valid_fraction (some s) = some_digits s

unfoldable pub unsigned : Text → Text
unsigned [] = []
unsigned (c ∷ s) = if eqb c b'-' then s else c ∷ s

-- encoding/json's test of a quoted `json.Number`
unfoldable pub valid_number : Text → Bool
unfolding some_digits all_digits cut valid_int valid_exponent valid_fraction unsigned
valid_number t =
    let (mantissa, exponent) = cut is_e (unsigned t) in
    let (whole, fraction) = cut (λ c. eqb c b'.') mantissa in
    valid_int whole && valid_fraction fraction && valid_exponent exponent

-- how encoding/json compares a member's name with a field's name
unfoldable pub fold_name : Text → Text
fold_name s =
    map
      (λ c.
        if leb b'A' c && leb c b'Z'
        then c + 32
        else if eqb c 0x17f
        then b's'
        else if eqb c 0x212a
        then b'k'
        else c)
      s

-- `none` is a decoding error, `some none` a nil pointer
number_pointer : Json → Option (Option Text)
number_pointer null = some none
number_pointer (num t) = some (some t)
number_pointer (str t) = if valid_number t then some (some t) else none
number_pointer _ = none

-- the members of the struct with the field `credit`, a later member over an earlier one
credit_member : Members → Option Text → Option (Option Text)
credit_member end seen = some seen
credit_member (member k v ms) seen =
    let next : Option (Option Text) = elim (number_pointer v) [
      | none ↦ none
      | some p ↦ credit_member ms p
    ] in
    let skip = credit_member ms seen in if fold_name k == codes "credit" then next else skip

-- `json.Unmarshal(e.RawUsage, &raw)`, for `raw.Credit`
unfoldable pub decode_credit : Option Json → Option (Option Text)
unfolding number_pointer credit_member
decode_credit (some (obj ms)) = credit_member ms none
decode_credit (some null) = some none
decode_credit _ = none

last_member : Text → Members → Option Json
last_member k end = none
last_member k (member j v ms) = elim (last_member k ms) [
  | some w ↦ some w
  | none ↦ if j == k then some v else none
]

is_quoted : Option Json → Bool
is_quoted none = true
is_quoted (some (str _)) = true
is_quoted (some _) = false

-- whether `fields["credit"]` is there and is no string
unfoldable pub unquoted : Option Json → Bool
unfolding last_member is_quoted
unquoted (some (obj ms)) = not (is_quoted (last_member (codes "credit") ms))
unquoted _ = false

-- `strings.FieldsFunc` at the letter e: the parts that are not empty
fields_from : Text → Text → List Text
fields_from [] [] = []
fields_from (c ∷ cur) [] = (c ∷ cur) ∷ []
fields_from [] (c ∷ s) = fields_from (if eqb c b'e' then [] else c ∷ []) s
fields_from (d ∷ cur) (c ∷ s) =
    let closed = (d ∷ cur) ∷ fields_from [] s in
    let longer = fields_from (d ∷ (cur ++ c ∷ [])) s in if eqb c b'e' then closed else longer

unfoldable pub fields_e : Text → List Text
unfolding fields_from
fields_e s = fields_from [] s

unfoldable pub digits_from : ℕ → Text → Option ℕ
digits_from acc [] = some acc
digits_from acc (c ∷ s) =
    let rest = digits_from (acc * 10 + (c - b'0')) s in if is_digit c then rest else none

unfoldable pub decimal : Text → Option ℕ
decimal [] = none
decimal (c ∷ s) = digits_from 0 (c ∷ s)

abbrev pub in_int64 : ℤ → Option ℤ
in_int64 z = if ltb (pos_part z) (2 ^ 63) && leb (neg_part z) (2 ^ 63) then some z else none

pub negated : ℕ → ℤ
negated zero = pos 0
negated (suc n) = negsuc n

-- `strconv.Atoi`
unfoldable pub atoi : Text → Option ℤ
unfolding digits_from decimal negated
atoi [] = none
atoi (c ∷ s) =
    if eqb c b'-'
    then elim (decimal s) [ none ↦ none | some n ↦ in_int64 (negated n) ]
    else elim (if eqb c b'+' then decimal s else decimal (c ∷ s)) [
      | none ↦ none
      | some n ↦ in_int64 (pos n)
    ]
