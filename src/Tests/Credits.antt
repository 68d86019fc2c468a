-- ===== src/Tests/Credits.antt =====
-- Examples of the theorems on the credits of a request.
use smolllm_server.Base.{
  ◌≡◌, ◌≢◌, ◌↔◌, refl, true, none, some, List, [], ◌∷◌, codes, length, All, to_lower, lower,
  text_discrete,
}
use smolllm_server.Config.{index_of}
use smolllm_server.Debit
use smolllm_server.Debit.Numbers
use smolllm_server.Credit.{Decimal, tallied, apply, float_string, record_credit}
use smolllm_server.Debit.{debit_of}
use smolllm_server.Credit.Exact.{debits, debit_sum, Shows, reported_exact}
use smolllm_server.Credit.Complete.{report_complete_iff}
use smolllm_server.Tests.{answered, slow}
use smolllm_server.Upstream.{RequestEvent}

abbrev events : List RequestEvent
events = slow ∷ answered ∷ []

abbrev fifteen : Decimal
fifteen = record { whole = 15; fraction = 25; places = 2 }

-- 1.5e1 and 0.25
events-credit : (apply (codes "id") (tallied events)).1.credit ≡ some fifteen
unfolding apply tallied record_credit debit_of Debit.credit_text Numbers.decode_credit
    Numbers.valid_number Numbers.fold_name Numbers.unquoted Numbers.fields_e Debit.debit_parts
    Debit.bounded_debit Debit.debit_value Debit.fraction_digits Debit.scaled Numbers.atoi
    Debit.add_rat float_string to_lower lower text_discrete index_of
events-credit = refl

reported_exact_example : Shows fifteen (debit_sum (debits events))
reported_exact_example = reported_exact events (codes "id") events-credit

report_complete_iff_example :
    let r = (apply (codes "id") (tallied events)).1 in
    (r.attempts ≡ length events)
    × (r.known_attempts ≡ length (debits events))
    × ((r.complete ≡ true) ↔ ((events ≢ []) × All (λ e. debit_of e ≢ none) events))
    × ((r.credit ≢ none) ↔ (debits events ≢ []))
report_complete_iff_example = report_complete_iff events (codes "id")
