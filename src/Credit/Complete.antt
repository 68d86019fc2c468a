-- ===== src/Credit/Complete.antt =====
-- internal/server/credit.go: when a report counts as complete, and the identity of a report.
use smolllm_server.Base.{
  ◌≤◌, ◌≡◌, ◌≢◌, ◌↔◌, refl, length_zero, true, none, List, [], ◌∷◌, arith, length, All, Text,
  text_eq,
}
use smolllm_server.Credit.{Tally, record_credit, tallied, apply}
use smolllm_server.Debit.{debit_of}
use smolllm_server.Credit.Exact.{debits}
use smolllm_server.Upstream.{RequestEvent}

tallied_counts :
    (h : List RequestEvent)
    → ((tallied h).attempts ≡ length h) × ((tallied h).known ≡ length (debits h))
unfolding tallied record_credit debits
tallied_counts [] = (refl, refl)
tallied_counts (e ∷ h) = ground (arith, tallied_counts h)

length-debits : (h : List RequestEvent) → length (debits h) ≤ length h
unfolding debits
length-debits [] = omega arith
length-debits (e ∷ h) = ground (arith, length-debits h)

all_accepted_iff :
    (h : List RequestEvent) → (length (debits h) ≡ length h) ↔ All (λ e. debit_of e ≢ none) h
unfolding debits
all_accepted_iff [] = (λ _. tt, λ _. refl)
all_accepted_iff (e ∷ h) = ground (arith, all_accepted_iff h, length-debits h)

-- A report counts all recorded events as attempts and those with an accepted debit as known. It is
-- complete exactly if there was an event and every event had an accepted debit, and it shows a
-- credit exactly if some event had one.
pub report_complete_iff :
    (h : List RequestEvent) (fresh : Text)
    → let r = (apply fresh (tallied h)).1 in
      (r.attempts ≡ length h)
      × (r.known_attempts ≡ length (debits h))
      × ((r.complete ≡ true) ↔ ((h ≢ []) × All (λ e. debit_of e ≢ none) h))
      × ((r.credit ≢ none) ↔ (debits h ≢ []))
unfolding apply
report_complete_iff h fresh =
    ground (arith, tallied_counts h, all_accepted_iff h, length_zero h, length_zero (debits h))

-- All reports on one request carry one identifier: the first one drawn.
pub apply_twice :
    (first second : Text) (b : Tally)
    → first ≢ []
    → (apply second (apply first b).0).1.report_id ≡ (apply first b).1.report_id
unfolding apply
apply_twice first second b ne = ground arith
