-- ===== src/Base/Strings.antt =====
-- Go strings as lists of code points, and the functions of package `strings` that the program
-- calls: TrimSpace, ToLower, HasPrefix, Split, ContainsAny, Repeat and the order `<`.
use Prim.Native.Nat.{ℕ, ◌+◌}
use Prim.Native.Char.{code}
use Prim.Native.String.{String}
use mathlib.Core.Path.{◌≡◌, refl}
use mathlib.Core.Logic.{inl, inr}
use mathlib.Core.Bool.{Bool, true, false, not, ◌&&◌, ◌||◌}
use mathlib.Core.List.{List, [], ◌∷◌, ◌++◌, map, reverse}
use native.Mathlib.Omega.{arith}
use smolllm_server.Base.Tests.{ltb, leb, eqb, if◌then◌else◌, Bool-cases}
use smolllm_server.Base.Equality.{◌==◌, text_eq}
use smolllm_server.Base.Lists.{any}

abbrev pub Text : Type 0
Text = List ℕ

abbrev pub codes : String → Text
codes String.[] = []
codes (String.◌∷◌ c s) = code c ∷ codes s

-- `unicode.IsSpace`
unfoldable pub is_space : ℕ → Bool
is_space c =
    (leb 9 c && leb c 13)
    || eqb c 32
    || eqb c 0x85
    || eqb c 0xa0
    || eqb c 0x1680
    || (leb 0x2000 c && leb c 0x200a)
    || eqb c 0x2028
    || eqb c 0x2029
    || eqb c 0x202f
    || eqb c 0x205f
    || eqb c 0x3000

unfoldable pub trim_left : Text → Text
trim_left [] = []
trim_left (c ∷ s) = let rest = trim_left s in if is_space c then rest else c ∷ s

-- `strings.TrimSpace`
unfoldable pub trim_space : Text → Text
unfolding is_space trim_left
trim_space s = reverse (trim_left (reverse (trim_left s)))

-- `unicode.ToLower` on ASCII letters and on the two other letters whose lower case is ASCII.
-- Every other letter's lower case is not ASCII, and is left as it is.
unfoldable pub lower : ℕ → ℕ
lower c =
    if leb b'A' c && leb c b'Z'
    then c + 32
    else if eqb c 0x130
    then b'i'
    else if eqb c 0x212a
    then b'k'
    else c

-- `strings.ToLower`, as far as a comparison with ASCII text can tell
unfoldable pub to_lower : Text → Text
unfolding lower
to_lower s = map lower s

unfoldable pub has_prefix : Text → Text → Bool
has_prefix s [] = true
has_prefix [] (p ∷ ps) = false
has_prefix (c ∷ s) (p ∷ ps) = eqb c p && has_prefix s ps

split_from : ℕ → Text → Text → List Text
split_from sep cur [] = cur ∷ []
split_from sep cur (c ∷ s) =
    let closed = cur ∷ split_from sep [] s in
    let longer = split_from sep (cur ++ c ∷ []) s in if eqb c sep then closed else longer

-- `strings.Split` at a separator of one character
unfoldable pub split : ℕ → Text → List Text
unfolding split_from
split sep s = split_from sep [] s

abbrev pub mem_char : ℕ → Text → Bool
mem_char c [] = false
mem_char c (x ∷ xs) = eqb c x || mem_char c xs

-- `strings.ContainsAny`
unfoldable pub contains_any : Text → Text → Bool
contains_any s chars = any (λ c. mem_char c chars) s

-- the order `<` on strings: UTF-8 keeps the order of the code points
unfoldable pub text_less : Text → Text → Bool
text_less a [] = false
text_less [] (d ∷ b) = true
text_less (c ∷ a) (d ∷ b) = if ltb c d then true else if eqb c d then text_less a b else false

pub text_less_irrefl : (a : Text) → text_less a a ≡ false
unfolding text_less
text_less_irrefl [] = refl
text_less_irrefl (c ∷ a) = ground (arith, text_less_irrefl a)

pub text_less_trans :
    (a b c : Text) → text_less a b ≡ true → text_less b c ≡ true → text_less a c ≡ true
unfolding text_less
text_less_trans a b [] p q = ground arith
text_less_trans a [] (z ∷ c) p q = ground arith
text_less_trans [] (y ∷ b) (z ∷ c) p q = refl
text_less_trans (x ∷ a) (y ∷ b) (z ∷ c) p q = ground (arith, text_less_trans a b c)

pub text_less_total : (a b : Text) → text_less a b ≡ false → text_less b a ≡ false → a ≡ b
unfolding text_less
text_less_total [] [] p q = refl
text_less_total [] (y ∷ b) p q = cc
text_less_total (x ∷ a) [] p q = cc
text_less_total (x ∷ a) (y ∷ b) p q = ground (arith, text_less_total a b)

pub text_less_cotrans :
    (a b c : Text) → text_less a b ≡ false → text_less b c ≡ false → text_less a c ≡ false
text_less_cotrans a b c p q = elim (Bool-cases (text_less b a)) [
  | inl ba ↦ elim (Bool-cases (text_less a c)) [
    | inl ac ↦ cc (text_less_trans b a c ba ac)
    | inr ac ↦ ac
  ]
  | inr ba ↦ rw (text_less_total a b p ba) q
]

-- one line of a chain of comparisons: `if a != b { return a < b }`
abbrev pub order_by : Text → Text → Bool → Bool
order_by a b rest = if not (a == b) then text_less a b else rest
