-- ===== src/Credit/Powers.antt =====
-- Powers of ten, and division by a factor.
use native.Mathlib.Nat.{pow-suc, mul_assoc, mul-div_cancel, mul-mod_left}
use smolllm_server.Base.{ℕ, zero, suc, ◌+◌, ◌-◌, ◌*◌, ◌^◌, ◌/◌, ◌%◌, ◌<◌, ◌≤◌, ◌≡◌, ap, arith, ◌∙◌}

pub pow_add : (a b : ℕ) → 10 ^ (a + b) ≡ 10 ^ a * 10 ^ b
pow_add a zero = let e : a + 0 ≡ a = omega arith in rw e (omega arith)
pow_add a (suc b) =
    let e : a + suc b ≡ suc (a + b) = omega arith in
    rw (e, pow-suc 10 (a + b), pow-suc 10 b, pow_add a b) (mul_assoc (10 ^ a) (10 ^ b) 10)

pub pow_pos : (n : ℕ) → 0 < 10 ^ n
pow_pos zero = omega arith
pow_pos (suc n) = rw pow-suc (grind (arith, pow_pos n))

pub pow_split : (a b : ℕ) → a ≤ b → 10 ^ b ≡ 10 ^ a * 10 ^ (b - a)
pow_split a b h = let e : b ≡ a + (b - a) = omega arith in ap (λ n. 10 ^ n) e ∙ pow_add a (b - a)

-- Where `rest * p` is a multiple of `b`, the quotient is the factor and nothing remains.
pub divides : (n k b : ℕ) → 0 < b → n ≡ k * b → (n / b ≡ k) × (n % b ≡ 0)
divides n k b h e = rw e (mul-div_cancel k h, mul-mod_left k b)
