-- ===== src/Debit.antt =====
-- internal/server/credit.go, `record`: the debit that an event carries, from the usage of the provider
-- to a scale and a value. A `big.Rat` is a fraction that is not reduced, which its decimal form does
-- not show.
pub mod Numbers
use smolllm_server.Base.{
  ℕ, suc, ◌+◌, ◌-◌, ◌*◌, ◌^◌, Bool, false, not, ◌&&◌, ◌||◌, Option, none, some, List, [], ◌∷◌,
  if◌then◌else◌, ltb, eqb, text_eq, Text, length, to_lower, ℤ, pos, negsuc, ◌-ℤ◌, ltb_ℤ,
}
use smolllm_server.Config.{index_of}
use smolllm_server.Json.{Json}
use smolllm_server.Upstream.{RequestEvent}
use smolllm_server.Debit.Numbers.{
  digits_from, atoi, decimal, decode_credit, fields_e, unquoted, unsigned,
}

-- A non-negative fraction; the denominator is positive in every value that is built here.
pub record Rat : Type 0 where
  pub top : ℕ
  pub bottom : ℕ

abbrev pub rat_zero : Rat
rat_zero = record { top = 0; bottom = 1 }

-- `Rat.Add`
unfoldable pub add_rat : Rat → Rat → Rat
add_rat a b = record { top = a.top * b.bottom + b.top * a.bottom; bottom = a.bottom * b.bottom }

-- the digits behind the point: `len(parts[0]) - i - 1`, or none
unfoldable pub fraction_digits : Text → ℕ
fraction_digits s = elim (index_of b'.' s) [ none ↦ 0 | some i ↦ length s - i - 1 ]

pub without_point : Text → Text
without_point [] = []
without_point (c ∷ s) = if eqb c b'.' then s else c ∷ without_point s

is_negative : Text → Bool
is_negative [] = false
is_negative (c ∷ s) = eqb c b'-'

-- m · 10^exponent / 10^digits
unfoldable pub scaled : ℕ → ℕ → ℤ → Rat
scaled m digits (pos n) = record { top = m * 10 ^ n; bottom = 10 ^ digits }
scaled m digits (negsuc n) = record { top = m; bottom = 10 ^ (digits + suc n) }

-- `v.SetString(text)` and `v.Sign() < 0`: the value of a number's mantissa and exponent, or `none`
-- if it does not parse or is negative
unfoldable pub debit_value : Text → ℤ → Option Rat
unfolding without_point is_negative unsigned digits_from decimal
debit_value mantissa exponent = elim (decimal (without_point (unsigned mantissa))) [
  | none ↦ none
  | some m ↦
      if is_negative mantissa && not (eqb m 0)
      then none
      else some (scaled m (fraction_digits mantissa) exponent)
]

-- a debit that is accepted: its scale and its value
pub record Debit : Type 0 where
  pub scale : ℤ
  pub value : Rat

-- the bound on the scale, and the value
unfoldable pub bounded_debit : Text → ℤ → Option Debit
bounded_debit mantissa exponent =
    let scale = pos (fraction_digits mantissa) -ℤ exponent in
    if ltb_ℤ (pos 18) scale then none else elim (debit_value mantissa exponent) [
      | none ↦ none
      | some v ↦ some (record { scale = scale; value = v })
    ]

-- The parts of the text, as split at its exponent. A number has one or two; `SetString` refuses a
-- text that has more.
unfoldable pub debit_parts : List Text → Option Debit
debit_parts [] = none
debit_parts (m ∷ []) = bounded_debit m (pos 0)
debit_parts (m ∷ e ∷ []) = elim (atoi e) [
  | none ↦ none
  | some z ↦ if ltb_ℤ z (negsuc 17) || ltb_ℤ (pos 18) z then none else bounded_debit m z
]
debit_parts (m ∷ e ∷ f ∷ rest) = none

-- the literal of an event's credit, if it decodes to a plain number of at most 64 bytes
unfoldable pub credit_text : Option Json → Option Text
credit_text raw = elim (decode_credit raw) [
  | none ↦ none
  | some none ↦ none
  | some (some text) ↦
      if not (unquoted raw) then none else if ltb 64 (length text) then none else some text
]

-- the part of `record` that reads an event: the debit that it adds, if it is accepted
unfoldable pub debit_of : RequestEvent → Option Debit
debit_of ev = elim (credit_text ev.raw_usage) [
  | none ↦ none
  | some text ↦ debit_parts (fields_e (to_lower text))
]
