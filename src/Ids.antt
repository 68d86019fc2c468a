-- ===== src/Ids.antt =====
-- The identifiers drawn from crypto/rand: `NewID` of internal/llm/adapter.go and `newInstanceID` of
-- internal/buildinfo/buildinfo.go. The bytes drawn are an argument.
use smolllm_server.Base.{
  ℕ, ◌+◌, ◌-◌, ◌*◌, ◌/◌, ◌%◌, ◌<◌, ◌≡◌, refl, sym, ap, ◌∙◌, Bool, true, Option, none, some, List,
  [], ◌∷◌, ◌++◌, if◌then◌else◌, ltb, Text, codes, length, all, hex_digit, arith, drop, subst,
  some-inj,
}
use smolllm_server.Buildinfo.{is_lower_hex}

-- `hex.EncodeToString`
unfoldable pub hex_text : List ℕ → Text
hex_text [] = []
hex_text (b ∷ bs) = hex_digit (b / 16) ∷ hex_digit (b % 16) ∷ hex_text bs

-- `NewID`, from the bytes that `rand.Read` put into `buf`
unfoldable pub new_id : List ℕ → Text
new_id bytes = codes "chatcmpl-" ++ hex_text bytes

-- `newInstanceID`, from the bytes that were drawn; with none it panics
unfoldable pub new_instance_id : Option (List ℕ) → Option Text
new_instance_id none = none
new_instance_id (some bytes) = some (hex_text bytes)

-- what a digit stands for
abbrev digit_value : ℕ → ℕ
digit_value c = if ltb c b'a' then c - b'0' else c - 87

unfoldable read_hex : Text → List ℕ
read_hex (c ∷ d ∷ s) = (digit_value c * 16 + digit_value d) ∷ read_hex s
read_hex s = []

digit_value-hex_digit : (n : ℕ) → n < 16 → digit_value (hex_digit n) ≡ n
digit_value-hex_digit n h = ground arith

is_lower_hex-hex_digit : (n : ℕ) → n < 16 → is_lower_hex (hex_digit n) ≡ true
is_lower_hex-hex_digit n h = ground arith

-- numbers that are bytes
abbrev is_byte : ℕ → Bool
is_byte b = ltb b 256

read_hex-hex_text : (bs : List ℕ) → all is_byte bs ≡ true → read_hex (hex_text bs) ≡ bs
unfolding read_hex hex_text
read_hex-hex_text [] h = refl
read_hex-hex_text (b ∷ bs) h =
    let small : b < 256 = ground (arith, h) in
    let others : all is_byte bs ≡ true = ground (arith, h) in
    let whole : b / 16 * 16 + b % 16 ≡ b = omega arith in
    rw
      (
        digit_value-hex_digit (b / 16) (omega arith),
        digit_value-hex_digit (b % 16) (omega arith),
        whole,
        read_hex-hex_text bs others,
      )
      refl

length-hex_text : (bs : List ℕ) → length (hex_text bs) ≡ length bs * 2
unfolding hex_text
length-hex_text [] = refl
length-hex_text (b ∷ bs) = omega (arith, length-hex_text bs)

all-hex_text : (bs : List ℕ) → all is_byte bs ≡ true → all is_lower_hex (hex_text bs) ≡ true
unfolding hex_text
all-hex_text [] h = refl
all-hex_text (b ∷ bs) h =
    let small : b < 256 = ground (arith, h) in
    let others : all is_byte bs ≡ true = ground (arith, h) in
    rw
      (is_lower_hex-hex_digit (b / 16) (omega arith), is_lower_hex-hex_digit (b % 16) (omega arith))
      (all-hex_text bs others)

-- the text behind the prefix of an identifier
abbrev behind : Text → Text
behind s = drop 9 s

-- Identifiers that were drawn from different bytes are different, whatever the bytes are.
new_id-injective :
    (cs bs : List ℕ)
    → all is_byte cs ≡ true
    → all is_byte bs ≡ true
    → new_id cs ≡ new_id bs
    → cs ≡ bs
unfolding new_id
new_id-injective cs bs h k same =
    sym (read_hex-hex_text cs h) ∙ ap (λ s. read_hex (behind s)) same ∙ read_hex-hex_text bs k

-- An instance identifier that was drawn has two lower-case hexadecimal digits for each byte.
new_instance_id-digits :
    (bs : List ℕ) (s : Text)
    → all is_byte bs ≡ true
    → new_instance_id (some bs) ≡ some s
    → (all is_lower_hex s ≡ true) × (length s ≡ length bs * 2)
unfolding new_instance_id
new_instance_id-digits bs s h drawn =
    let same = some-inj drawn in
    subst (λ t. (all is_lower_hex t ≡ true) × (length t ≡ length bs * 2)) same
      (all-hex_text bs h, length-hex_text bs)
