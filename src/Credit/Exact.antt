-- ===== src/Credit/Exact.antt =====
-- internal/server/credit.go: the reported total is the exact sum of the accepted debits.
use native.Mathlib.Nat.{
  div-add-mod', mod-lt, div-lt_iff_lt-mul, mul-lt-mul_of_pos_right, add-mul-div_right,
  add-mul-mod_self_right, mul-div_cancel, mul-mod_left,
}
use smolllm_server.Base.{
  ℕ, suc, ◌+◌, ◌-◌, ◌*◌, ◌/◌, ◌%◌, ◌^◌, ◌<◌, ◌≤◌, ◌≡◌, refl, ap, sym, ◌∙◌, false, none, some, List,
  [], ◌∷◌, arith, if◌then◌else◌, leb, ltb_ℤ, ℤ, pos, negsuc, pos_part, ◌-ℤ◌, Text, to_lower, lt→leb,
  Bool-cases, Option-cases, inl, inr, subst,
}
use smolllm_server.Credit.{Tally, add_debit, record_credit, tallied, Decimal, float_string, apply}
use smolllm_server.Debit.{
  Rat, rat_zero, add_rat, scaled, Debit, debit_of, debit_parts, bounded_debit, debit_value,
  without_point, credit_text, fraction_digits,
}
use smolllm_server.Debit.Numbers.{decimal, unsigned, atoi, fields_e}
use smolllm_server.Credit.Powers.{pow_pos, pow_split}
use smolllm_server.Upstream.{RequestEvent}

-- `r` is `units` / 10 ^ `s`
pub record IsScaled (s : ℕ) (r : Rat) : Type 0 where
  pub positive : 0 < r.bottom
  pub units : ℕ
  pub exact : r.top * 10 ^ s ≡ units * r.bottom

rat_zero-IsScaled : IsScaled 0 rat_zero
rat_zero-IsScaled = record { positive = omega arith; units = 0; exact = refl }

raise : (s t : ℕ) (r : Rat) → s ≤ t → IsScaled s r → IsScaled t r
raise s t r h d = record {
  positive = d.positive;
  units = d.units * 10 ^ (t - s);
  exact = rw (pow_split s t h) (omega (arith, ap (λ (x : ℕ). x * 10 ^ (t - s)) d.exact));
}

add_rat-IsScaled : (s : ℕ) (a b : Rat) → IsScaled s a → IsScaled s b → IsScaled s (add_rat a b)
unfolding add_rat
add_rat-IsScaled s a b da db = record {
  positive = grind (arith, da.positive, db.positive);
  units = da.units + db.units;
  exact =
      omega (arith, ap (λ (x : ℕ). x * b.bottom) da.exact, ap (λ (x : ℕ). x * a.bottom) db.exact);
}

scaled-IsScaled : (m digits : ℕ) (z : ℤ) → IsScaled (pos_part (pos digits -ℤ z)) (scaled m digits z)
unfolding scaled
scaled-IsScaled m digits (pos n) = elim (Bool-cases (leb n digits)) [
  | inl below ↦
      let e : pos_part (pos digits -ℤ pos n) ≡ digits - n = ground arith in
      subst (λ s. IsScaled s (record { top = m * 10 ^ n; bottom = 10 ^ digits })) (sym e)
        (record {
          positive = pow_pos digits;
          units = m;
          exact = rw (pow_split n digits (ground arith)) (omega arith);
        })
  | inr above ↦
      let e : pos_part (pos digits -ℤ pos n) ≡ 0 = ground arith in
      subst (λ s. IsScaled s (record { top = m * 10 ^ n; bottom = 10 ^ digits })) (sym e)
        (record {
          positive = pow_pos digits;
          units = m * 10 ^ (n - digits);
          exact = rw (pow_split digits n (ground arith)) (omega arith);
        })
]
scaled-IsScaled m digits (negsuc n) =
    let e : pos_part (pos digits -ℤ negsuc n) ≡ digits + suc n = ground arith in
    subst (λ s. IsScaled s (record { top = m; bottom = 10 ^ (digits + suc n) })) (sym e)
      (record { positive = pow_pos (digits + suc n); units = m; exact = refl })

module _ (r : Rat) (s : ℕ) (d : IsScaled s r) where
  abbrev quotient : ℕ
  quotient = r.top / r.bottom

  abbrev rest : ℕ
  rest = r.top % r.bottom * 10 ^ s

  rest-add : rest + quotient * 10 ^ s * r.bottom ≡ d.units * r.bottom
  rest-add = omega (arith, d.exact, ap (λ (x : ℕ). x * 10 ^ s) (div-add-mod' r.top r.bottom))

  rest_div : rest / r.bottom + quotient * 10 ^ s ≡ d.units
  rest_div =
      sym (add-mul-div_right rest (quotient * 10 ^ s) d.positive)
      ∙ ap (λ (x : ℕ). x / r.bottom) rest-add
      ∙ mul-div_cancel d.units d.positive

  rest_mod : rest % r.bottom ≡ 0
  rest_mod =
      sym (add-mul-mod_self_right rest (quotient * 10 ^ s) r.bottom)
      ∙ ap (λ (x : ℕ). x % r.bottom) rest-add
      ∙ mul-mod_left d.units r.bottom

  rest_div_lt : rest / r.bottom < 10 ^ s
  rest_div_lt = (div-lt_iff_lt-mul d.positive).1 (
      omega (
        arith,
        mul-lt-mul_of_pos_right {m = r.top % r.bottom} (mod-lt r.top d.positive) (pow_pos s),
      ))

  float_string_lem :
      float_string r s ≡ record { whole = quotient; fraction = rest / r.bottom; places = s }
  unfolding float_string
  float_string_lem =
      let even : leb r.bottom (rest % r.bottom * 2) ≡ false =
        lt→leb (rest % r.bottom * 2) r.bottom (omega (arith, rest_mod, d.positive)) in
      let small : leb (10 ^ s) (rest / r.bottom) ≡ false =
        lt→leb (rest / r.bottom) (10 ^ s) rest_div_lt in
      rw even (rw small)

-- what it means that a decimal is the fraction `r`, digit for digit
pub record Shows (d : Decimal) (r : Rat) : Type 0 where
  pub positive : 0 < r.bottom
  pub proper : d.fraction < 10 ^ d.places
  pub exact : (d.whole * 10 ^ d.places + d.fraction) * r.bottom ≡ r.top * 10 ^ d.places

float_string-Shows : (r : Rat) (s : ℕ) → IsScaled s r → Shows (float_string r s) r
float_string-Shows r s d =
    subst (λ f. Shows f r) (sym (float_string_lem r s d))
      (record {
        positive = d.positive;
        proper = rest_div_lt r s d;
        exact = omega (arith, d.exact, ap (λ (x : ℕ). x * r.bottom) (rest_div r s d));
      })

debit_value-scaled :
    (m : Text) (z : ℤ) {v : Rat}
    → debit_value m z ≡ some v
    → (k : ℕ) × (v ≡ scaled k (fraction_digits m) z)
unfolding debit_value
debit_value-scaled m z h =
    let parsed = decimal (without_point (unsigned m)) in
    elim (Option-cases parsed) [
      | inl bad ↦ absurd (ground arith)
      | inr (k, found) ↦ (k, ground arith)
    ]

bounded_debit-IsScaled :
    (m : Text) (z : ℤ) {d : Debit}
    → bounded_debit m z ≡ some d
    → IsScaled (pos_part d.scale) d.value
unfolding bounded_debit
bounded_debit-IsScaled m z {d} h = elim (Option-cases (debit_value m z)) [
  | inl bad ↦ absurd (ground arith)
  | inr (v, parsed) ↦
      let (k, e) = debit_value-scaled m z parsed in
      let scale : d.scale ≡ pos (fraction_digits m) -ℤ z = ground arith in
      let value : d.value ≡ scaled k (fraction_digits m) z = ground arith in
      rw (scale, value) (scaled-IsScaled k (fraction_digits m) z)
]

debit_parts-IsScaled :
    (parts : List Text) {d : Debit}
    → debit_parts parts ≡ some d
    → IsScaled (pos_part d.scale) d.value
unfolding debit_parts
debit_parts-IsScaled [] h = cc
debit_parts-IsScaled (m ∷ []) h = bounded_debit-IsScaled m (pos 0) h
debit_parts-IsScaled (m ∷ e ∷ []) {d} h = elim (Option-cases (atoi e)) [
  | inl bad ↦ absurd (ground arith)
  | inr (z, parsed) ↦
      let bounded : bounded_debit m z ≡ some d = ground arith in bounded_debit-IsScaled m z bounded
]
debit_parts-IsScaled (m ∷ e ∷ f ∷ more) h = cc

debit_of-IsScaled :
    (e : RequestEvent) {d : Debit} → debit_of e ≡ some d → IsScaled (pos_part d.scale) d.value
unfolding debit_of
debit_of-IsScaled e {d} h = elim (Option-cases (credit_text e.raw_usage)) [
  | inl bad ↦ absurd (ground arith)
  | inr (text, found) ↦
      let parts : debit_parts (fields_e (to_lower text)) ≡ some d = ground arith in
      debit_parts-IsScaled (fields_e (to_lower text)) parts
]

-- the accepted debits of a history, and their sum
unfoldable pub debits : List RequestEvent → List Debit
debits [] = []
debits (e ∷ h) = elim (debit_of e) [ none ↦ debits h | some d ↦ d ∷ debits h ]

unfoldable pub debit_sum : List Debit → Rat
debit_sum [] = rat_zero
debit_sum (d ∷ ds) = add_rat (debit_sum ds) d.value

tallied-total : (h : List RequestEvent) → (tallied h).total ≡ debit_sum (debits h)
unfolding tallied record_credit debits debit_sum
tallied-total [] = refl
tallied-total (e ∷ h) = ground (arith, tallied-total h)

add_debit-IsScaled :
    (d : Debit) (b : Tally)
    → IsScaled (pos_part d.scale) d.value
    → IsScaled b.scale b.total
    → IsScaled (add_debit d b).scale (add_debit d b).total
unfolding add_debit
add_debit-IsScaled d b v s =
    let top : ℕ = if ltb_ℤ (pos b.scale) d.scale then pos_part d.scale else b.scale in
    add_rat-IsScaled top b.total d.value (raise b.scale top b.total (ground arith) s)
      (raise (pos_part d.scale) top d.value (ground arith) v)

record_credit-IsScaled :
    (e : RequestEvent) (b : Tally)
    → IsScaled b.scale b.total
    → IsScaled (record_credit e b).scale (record_credit e b).total
unfolding record_credit
record_credit-IsScaled e b s = elim (Option-cases (debit_of e)) [
  | inl refused ↦ rw (refused, record_credit) s
  | inr (d, accepted) ↦
      rw (accepted, record_credit)
        (add_debit-IsScaled d (record b { attempts = b.attempts + 1 })
          (debit_of-IsScaled e accepted) s)
]

tallied-IsScaled : (h : List RequestEvent) → IsScaled (tallied h).scale (tallied h).total
unfolding tallied
tallied-IsScaled [] = rat_zero-IsScaled
tallied-IsScaled (e ∷ h) = record_credit-IsScaled e (tallied h) (tallied-IsScaled h)

-- A credit that `apply` reports is exactly the sum of the debits accepted from the events recorded:
-- its decimal form rounds nothing away, whatever their number, digits and exponents.
pub reported_exact :
    (h : List RequestEvent) (fresh : Text) {d : Decimal}
    → (apply fresh (tallied h)).1.credit ≡ some d
    → Shows d (debit_sum (debits h))
unfolding apply
reported_exact h fresh {d} e =
    let shown : float_string (tallied h).total (tallied h).scale ≡ d = ground arith in
    subst (λ r. Shows d r) (tallied-total h)
      (subst (λ f. Shows f (tallied h).total) shown
        (float_string-Shows (tallied h).total (tallied h).scale (tallied-IsScaled h)))
