-- ===== src/Wire/Credits.antt =====
-- internal/server/credit.go: the credits that `apply` reports are decimals.
use native.Mathlib.Nat.{div-lt_iff_lt-mul, div-zero}
use smolllm_server.Base.{
  ℕ, zero, suc, ◌*◌, ◌/◌, ◌%◌, ◌^◌, ◌<◌, Text, ltb, arith, Bool-cases, inl, inr,
}
use smolllm_server.Credit.{Tally, apply, float_string}
use smolllm_server.Credit.Powers.{pow_pos}
use smolllm_server.Debit.{Rat}
use smolllm_server.Wire.Decimals.{IsDecimal}
use smolllm_server.Wire.Usage.{HasDecimal}

-- a remainder that is scaled is less than the scale
scaled-lt : (t b p : ℕ) → 0 < p → t % b * p / b < p
scaled-lt t zero p h = rw div-zero h
scaled-lt t (suc b) p h =
    let below : t % suc b < suc b = omega arith in (div-lt_iff_lt-mul (omega arith)).1 (grind arith)

float_string-IsDecimal : (r : Rat) (places : ℕ) → IsDecimal (float_string r places)
unfolding float_string
float_string-IsDecimal r places =
    let less = scaled-lt r.top r.bottom (10 ^ places) (pow_pos places) in ground arith

pub apply-HasDecimal : (fresh : Text) (b : Tally) → HasDecimal (apply fresh b).1.credit
unfolding apply
apply-HasDecimal fresh b = elim (Bool-cases (ltb 0 b.known)) [
  | inl known ↦ rw known (float_string-IsDecimal b.total b.scale)
  | inr unknown ↦ rw unknown tt
]
