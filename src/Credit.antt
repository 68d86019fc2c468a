-- ===== src/Credit.antt =====
-- internal/server/credit.go: the credits that the provider reports for one request. `mu` makes
-- each call one step. A `big.Rat` is a fraction that is not reduced, which its decimal form does not
-- show; it is never negative here, since `record` refuses negative credits.
pub mod Powers
pub mod Exact
pub mod Complete
use smolllm_server.Base.{
  ℕ, ◌+◌, ◌-◌, ◌*◌, ◌/◌, ◌%◌, ◌^◌, Bool, ◌&&◌, Option, none, some, List, [], ◌∷◌, if◌then◌else◌,
  ltb, leb, eqb, ◌==◌, text_eq, Text, pos, ltb_ℤ, pos_part,
}
use smolllm_server.Upstream.{RequestEvent}
use smolllm_server.Debit.{Rat, rat_zero, add_rat, Debit, debit_of}

-- `creditTally`
pub record Tally : Type 0 where
  pub total : Rat
  pub scale : ℕ
  pub id : Text
  pub attempts : ℕ
  pub known : ℕ

abbrev pub new_tally : Tally
new_tally = record { total = rat_zero; scale = 0; id = []; attempts = 0; known = 0 }

-- an accepted debit, at the end of `record`
unfoldable pub add_debit : Debit → Tally → Tally
add_debit d b = record b {
  scale = if ltb_ℤ (pos b.scale) d.scale then pos_part d.scale else b.scale;
  total = add_rat b.total d.value;
  known = b.known + 1;
}

-- `record`
unfoldable pub record_credit : RequestEvent → Tally → Tally
unfolding add_debit
record_credit ev b =
    let counted = record b { attempts = b.attempts + 1 } in
    elim (debit_of ev) [ none ↦ counted | some d ↦ add_debit d counted ]

-- A number in decimal form: `whole` before the point and `fraction` behind it, with `places` digits.
pub record Decimal : Type 0 where
  pub whole : ℕ
  pub fraction : ℕ
  pub places : ℕ

-- `Rat.FloatString`: the nearest decimal, halves away from zero
unfoldable pub float_string : Rat → ℕ → Decimal
float_string r places =
    let q = r.top / r.bottom in
    let p = 10 ^ places in
    let rest = r.top % r.bottom * p in
    let f = rest / r.bottom in
    let g = if leb r.bottom (rest % r.bottom * 2) then f + 1 else f in
    if leb p g
    then record { whole = q + 1; fraction = g - p; places = places }
    else record { whole = q; fraction = g; places = places }

-- what `apply` adds to the usage object
pub record CreditReport : Type 0 where
  pub credit : Option Decimal
  pub report_id : Text
  pub complete : Bool
  pub attempts : ℕ
  pub known_attempts : ℕ

-- `apply`, where `fresh` is the identifier drawn from crypto/rand
unfoldable pub apply : Text → Tally → Tally × CreditReport
apply fresh b =
    let id = if b.id == [] then fresh else b.id in
    (
      record b { id = id },
      record {
        credit = if ltb 0 b.known then some (float_string b.total b.scale) else none;
        report_id = id;
        complete = ltb 0 b.attempts && eqb b.known b.attempts;
        attempts = b.attempts;
        known_attempts = b.known;
      },
    )

-- the tally after a history of events, the latest first
unfoldable pub tallied : List RequestEvent → Tally
tallied [] = new_tally
tallied (e ∷ h) = record_credit e (tallied h)
