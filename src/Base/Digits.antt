-- ===== src/Base/Digits.antt =====
-- The decimal form of a number, as `strconv.Itoa` writes it, and how it is read.
use Prim.Native.Nat.{ℕ, zero, suc, ◌+◌, ◌-◌, ◌*◌, ◌/◌, ◌%◌, ◌^◌, ◌≤◌, ◌<◌}
use mathlib.Core.Path.{◌≡◌, refl, ap, ◌∙◌}
use mathlib.Core.Logic.{inl, inr}
use mathlib.Core.Bool.{Bool, true, ◌&&◌}
use mathlib.Core.Option.{Option, none, some}
use mathlib.Core.List.{[], ◌∷◌}
use native.Mathlib.Nat.{pow-suc}
use native.Mathlib.Omega.{arith}
use smolllm_server.Base.Tests.{ltb, leb, if◌then◌else◌, Bool-cases}
use smolllm_server.Base.Lists.{length, all}
use smolllm_server.Base.Strings.{Text}

abbrev digit_of : ℕ → ℕ
digit_of n = n + b'0'

-- the digits of a number, before a text; the fuel is more than the number
unfoldable pub write_digits : ℕ → ℕ → Text → Text
write_digits zero n rest = rest
write_digits (suc fuel) n rest =
    let longer = write_digits fuel (n / 10) (digit_of (n % 10) ∷ rest) in
    if ltb n 10 then digit_of n ∷ rest else longer

unfoldable pub decimal : ℕ → Text
unfolding write_digits
decimal n = write_digits (suc n) n []

-- a lower-case hexadecimal digit
abbrev pub hex_digit : ℕ → ℕ
hex_digit n = if ltb n 10 then n + b'0' else n + 87

abbrev pub is_decimal_digit : ℕ → Bool
is_decimal_digit c = leb b'0' c && leb c b'9'

-- what the digits of a text add to a number before them
unfoldable pub read_digits : ℕ → Text → Option ℕ
read_digits n [] = some n
read_digits n (c ∷ s) =
    let more = read_digits (n * 10 + (c - b'0')) s in if is_decimal_digit c then more else none

unfoldable pub read_decimal : Text → Option ℕ
unfolding read_digits
read_decimal [] = none
read_decimal (c ∷ s) = read_digits 0 (c ∷ s)

read_digits-digit :
    (n d : ℕ) (rest : Text)
    → d < 10
    → read_digits n (digit_of d ∷ rest) ≡ read_digits (n * 10 + d) rest
unfolding read_digits
read_digits-digit n d rest h =
    let value : d + b'0' - b'0' ≡ d = omega arith in
    let low : leb b'0' (d + b'0') ≡ true = ground arith in
    let high : leb (d + b'0') b'9' ≡ true = ground arith in rw (low, high, value) refl

read_digits-write_digits :
    (fuel n : ℕ) (rest : Text)
    → n < fuel
    → read_digits 0 (write_digits fuel n rest) ≡ read_digits n rest
unfolding write_digits
read_digits-write_digits zero n rest h = absurd (omega arith)
read_digits-write_digits (suc fuel) n rest h = elim (Bool-cases (ltb n 10)) [
  | inl small ↦
      let alone : 0 * 10 + n ≡ n = omega arith in
      rw small (read_digits-digit 0 n rest (ground arith) ∙ ap (λ m. read_digits m rest) alone)
  | inr large ↦
      let whole : n / 10 * 10 + n % 10 ≡ n = omega arith in
      let big : 10 ≤ n = ground arith in
      rw large (
        read_digits-write_digits fuel (n / 10) (digit_of (n % 10) ∷ rest) (omega arith)
        ∙ read_digits-digit (n / 10) (n % 10) rest (omega arith)
        ∙ ap (λ m. read_digits m rest) whole)
]

all-write_digits :
    (fuel n : ℕ) (rest : Text)
    → n < fuel
    → all is_decimal_digit rest ≡ true
    → all is_decimal_digit (write_digits fuel n rest) ≡ true
unfolding write_digits
all-write_digits zero n rest h k = absurd (omega arith)
all-write_digits (suc fuel) n rest h k = elim (Bool-cases (ltb n 10)) [
  | inl small ↦ rw small (ground arith)
  | inr large ↦
      let digit : all is_decimal_digit (digit_of (n % 10) ∷ rest) ≡ true =
        let below : n % 10 < 10 = omega arith in ground arith in
      let big : 10 ≤ n = ground arith in
      rw large (all-write_digits fuel (n / 10) (digit_of (n % 10) ∷ rest) (omega arith) digit)
]

-- the digits of a number are at most as many as those of a bound
length-write_digits :
    (fuel n k : ℕ) (rest : Text)
    → n < fuel
    → n < 10 ^ suc k
    → length (write_digits fuel n rest) ≤ suc k + length rest
unfolding write_digits
length-write_digits zero n k rest h b = absurd (omega arith)
length-write_digits (suc fuel) n zero rest h b =
    let small : ltb n 10 ≡ true = ground arith in rw small (omega arith)
length-write_digits (suc fuel) n (suc k) rest h b = elim (Bool-cases (ltb n 10)) [
  | inl small ↦ rw small (omega arith)
  | inr large ↦
      let big : 10 ≤ n = ground arith in
      let below : n / 10 < 10 ^ suc k = omega (arith, pow-suc 10 (suc k)) in
      rw large (
        omega (
          arith,
          length-write_digits fuel (n / 10) k (digit_of (n % 10) ∷ rest) (omega arith) below,
        ))
]

pub all-decimal : (n : ℕ) → all is_decimal_digit (decimal n) ≡ true
unfolding decimal
all-decimal n = all-write_digits (suc n) n [] (omega arith) refl

pub length-decimal-le : (n k : ℕ) → n < 10 ^ suc k → length (decimal n) ≤ suc k
unfolding decimal
length-decimal-le n k b = omega (arith, length-write_digits (suc n) n k [] (omega arith) b)

pub read_digits-decimal : (n : ℕ) → read_digits 0 (decimal n) ≡ some n
unfolding decimal read_digits
read_digits-decimal n = read_digits-write_digits (suc n) n [] (omega arith)

read_decimal-some :
    (s : Text) {n : ℕ} → read_digits 0 s ≡ some n → 0 < length s → read_decimal s ≡ some n
unfolding read_decimal
read_decimal-some [] h l = absurd (omega arith)
read_decimal-some (c ∷ s) h l = h

write_digits-longer : (fuel n : ℕ) (rest : Text) → length rest ≤ length (write_digits fuel n rest)
unfolding write_digits
write_digits-longer zero n rest = omega arith
write_digits-longer (suc fuel) n rest = elim (Bool-cases (ltb n 10)) [
  | inl small ↦ rw small (omega arith)
  | inr large ↦
      rw large (omega (arith, write_digits-longer fuel (n / 10) (digit_of (n % 10) ∷ rest)))
]

write_digits-ne : (fuel n : ℕ) (rest : Text) → 0 < fuel → 0 < length (write_digits fuel n rest)
unfolding write_digits
write_digits-ne zero n rest h = absurd (omega arith)
write_digits-ne (suc fuel) n rest h = elim (Bool-cases (ltb n 10)) [
  | inl small ↦ rw small (omega arith)
  | inr large ↦
      let d = digit_of (n % 10) in
      rw large (omega (arith, write_digits-longer fuel (n / 10) (d ∷ rest)))
]

pub read_decimal-decimal : (n : ℕ) → read_decimal (decimal n) ≡ some n
unfolding decimal
read_decimal-decimal n =
    read_decimal-some (decimal n) (read_digits-decimal n)
      (write_digits-ne (suc n) n [] (omega arith))
