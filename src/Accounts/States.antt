-- ===== src/Accounts/States.antt =====
-- internal/server/account_metrics.go: the state that is shown of an account.
use smolllm_server.Base.{
  ℕ, ◌+◌, ◌≡◌, refl, ap, ◌∙◌, Option, none, some, List, [], ◌∷◌, arith, any, if◌then◌else◌, ◌==◌,
  text_eq, Text, codes, Dict, lookup, insert, lookup-insert,
}
use smolllm_server.Stats.{is_some}
use smolllm_server.Metrics.{Line, Value, count, seconds}
use smolllm_server.Accounts.{AccountId, account_id_eq, AccountMetrics}
use smolllm_server.Accounts.Lines.{
  AccountCircuit, with_circuits, all_closed, account_states, circuit_states, state_lines,
}

abbrev pub circuit_id : AccountCircuit → AccountId
circuit_id c = record { provider = c.provider; account = c.account }

-- the state of the last circuit of an account, or a default
unfoldable pub last_state : AccountId → List AccountCircuit → Option Text → Option Text
last_state id [] d = d
last_state id (c ∷ cs) d = last_state id cs (if circuit_id c == id then some c.state else d)

lookup-with_circuits :
    (id : AccountId) (cs : List AccountCircuit) (states : Dict AccountId Text)
    → lookup id (with_circuits cs states) ≡ last_state id cs (lookup id states)
unfolding with_circuits last_state
lookup-with_circuits id [] states = refl
lookup-with_circuits id (c ∷ cs) states =
    lookup-with_circuits id cs (insert (circuit_id c) c.state states)
    ∙ ap (last_state id cs) (lookup-insert id (circuit_id c) c.state states)

lookup-all_closed :
    (id : AccountId) (seen : Dict AccountId (Unit {0}))
    → lookup id (all_closed seen)
      ≡ (if is_some (lookup id seen) then some (codes "closed") else none)
unfolding lookup
lookup-all_closed id [] = refl
lookup-all_closed id ((j, _) ∷ seen) = ground (arith, lookup-all_closed id seen)

-- An account is shown in the state of the last circuit that the breaker lists for it; without a
-- circuit it is shown as closed if an event has named it, and not at all otherwise.
pub lookup-account_states :
    (id : AccountId) (m : AccountMetrics) (circuits : List AccountCircuit)
    → lookup id (account_states m circuits)
      ≡ last_state id circuits (if is_some (lookup id m.seen) then some (codes "closed") else none)
unfolding account_states
lookup-account_states id m circuits =
    lookup-with_circuits id circuits (all_closed m.seen)
    ∙ ap (last_state id circuits) (lookup-all_closed id m.seen)

abbrev pub counted : Value → ℕ
counted (count n) = n
counted (seconds n) = n

unfoldable pub sum_counts : List Line → ℕ
sum_counts [] = 0
sum_counts (l ∷ ls) = counted l.value + sum_counts ls

-- Of the lines of one account exactly one has the value 1 if the state is one of the three known
-- ones, and none has otherwise.
pub sum_counts-state_lines :
    (id : AccountId) (state : Text)
    → sum_counts (state_lines id state circuit_states)
      ≡ (if any (λ s. state == s) circuit_states then 1 else 0)
unfolding sum_counts state_lines
sum_counts-state_lines id state = ground arith
