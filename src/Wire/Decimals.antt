-- ===== src/Wire/Decimals.antt =====
-- internal/server/credit.go: a credit as the decimal text that is sent, and how it is read.
use smolllm_server.Base.{
  ℕ, zero, suc, ◌-◌, ◌^◌, ◌<◌, ◌≡◌, refl, ◌∙◌, true, none, some, [], ◌∷◌, ◌++◌, Text, length, all,
  length-append, length-replicate, replicate, read_decimal, read_digits, decimal, is_decimal_digit,
  all-decimal, length-decimal-le, read_digits-decimal, read_decimal-decimal, arith,
}
use smolllm_server.Credit.{Decimal}
use smolllm_server.Json.{num}
use smolllm_server.Wire.{decimal_text, point, padded}
use smolllm_server.Wire.Read.{cut, fixed_of, read_fixed}

-- a decimal whose fraction has no more digits than it has places
abbrev pub IsDecimal : Decimal → Type 0
IsDecimal d = d.fraction < 10 ^ d.places

cut-digits : (w : Text) → all is_decimal_digit w ≡ true → cut w ≡ (w, none)
unfolding cut
cut-digits [] h = refl
cut-digits (c ∷ w) h = ground (arith, cut-digits w)

cut-point : (w s : Text) → all is_decimal_digit w ≡ true → cut (w ++ (point ∷ s)) ≡ (w, some s)
unfolding cut
cut-point [] s h = refl
cut-point (c ∷ w) s h = ground (arith, cut-point w s)

read_digits-zeros : (k : ℕ) (s : Text) → read_digits 0 (replicate k b'0' ++ s) ≡ read_digits 0 s
unfolding read_digits
read_digits-zeros zero s = refl
read_digits-zeros (suc k) s = read_digits-zeros k s

length-padded : (n f : ℕ) → f < 10 ^ suc n → length (padded (suc n) (decimal f)) ≡ suc n
length-padded n f h = omega (
  arith,
  length-append (replicate (suc n - length (decimal f)) b'0') (decimal f),
  length-replicate {A = ℕ} (suc n - length (decimal f)) b'0',
  length-decimal-le f n h,
)

read_decimal-of_digits :
    (s : Text) {n : ℕ} → 0 < length s → read_digits 0 s ≡ some n → read_decimal s ≡ some n
unfolding read_decimal
read_decimal-of_digits [] l h = absurd (omega arith)
read_decimal-of_digits (c ∷ s) l h = h

read_decimal-padded :
    (n f : ℕ) → f < 10 ^ suc n → read_decimal (padded (suc n) (decimal f)) ≡ some f
read_decimal-padded n f h =
    read_decimal-of_digits (padded (suc n) (decimal f)) (omega (arith, length-padded n f h))
      (read_digits-zeros (suc n - length (decimal f)) (decimal f) ∙ read_digits-decimal f)

fixed_of-places :
    (whole fraction places : ℕ)
    → fraction < 10 ^ places
    → fixed_of (cut (decimal_text (record { whole = whole; fraction = fraction; places = places })))
      ≡ some (record { whole = whole; fraction = fraction; places = places })
unfolding decimal_text
fixed_of-places w f zero h =
    let none_left : f ≡ 0 = omega arith in
    rw (cut-digits (decimal w) (all-decimal w), read_decimal-decimal w, none_left) refl
fixed_of-places w f (suc n) h =
    rw
      (
        cut-point (decimal w) (padded (suc n) (decimal f)) (all-decimal w),
        read_decimal-decimal w,
        read_decimal-padded n f h,
        length-padded n f h,
      )
      refl

pub read_fixed-decimal_text :
    (d : Decimal) → IsDecimal d → read_fixed (num (decimal_text d)) ≡ some d
read_fixed-decimal_text d h = fixed_of-places d.whole d.fraction d.places h
