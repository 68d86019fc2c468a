-- ===== src/Accounts/Lines.antt =====
-- internal/server/account_metrics.go, `write`: the lines of the account counters and of the states of
-- the circuits.
use smolllm_server.Base.{
  ℕ, Bool, List, [], ◌∷◌, ◌++◌, map, if◌then◌else◌, ◌==◌, text_eq, Text, codes, text_less, order_by,
  Dict, lookup, insert, sort_slice,
}
use smolllm_server.Stats.{get_or}
use smolllm_server.Metrics.{quote, label, Line, count}
use smolllm_server.Accounts.{
  AccountId, AccountMetrics, LegKey, SkipKey, TransitionKey, account_id_eq, leg_key_eq, skip_key_eq,
  transition_key_eq,
}

-- `accountLabels`, in front of what follows
abbrev pub account_labels : AccountId → Text → Text
account_labels id rest =
    label (codes "provider=\"") id.provider (label (codes ",account=\"") id.account rest)

-- `legLabels`, in front of what follows
unfoldable pub leg_labels : LegKey → Text → Text
leg_labels k rest =
    label (codes "alias=\"") k.alias
      (codes "," ++ account_labels k.id (label (codes ",model=\"") k.model rest))

unfoldable pub transition_labels : TransitionKey → Text
transition_labels k = account_labels k.id (label (codes ",transition=\"") k.transition [])

unfoldable pub skip_labels : SkipKey → Text
unfolding leg_labels
skip_labels k = leg_labels k.leg (label (codes ",reason=\"") k.reason [])

-- `series`
pub record Series : Type 0 where
  pub labels : Text
  pub value : ℕ

abbrev pub series_less : Series → Series → Bool
series_less a b = text_less a.labels b.labels

module _ {ℓ} {K : Type ℓ} (labels : K → Text) where
  abbrev pub series_of : Dict K ℕ → List Series
  series_of counts = map (λ (k, v). record { labels = labels k; value = v }) counts

  -- `sortedSeries`
  unfoldable pub sorted_series : Dict K ℕ → List Series
  sorted_series counts = sort_slice series_less (series_of counts)

-- `writeFamily`, without the comments
unfoldable pub write_family : Text → List Series → List Line
write_family name rows =
    map (λ r. record { name = name; labels = r.labels; value = count r.value }) rows

-- `smolllm.AccountCircuit`, with `string(c.State)`
pub record AccountCircuit : Type 0 where
  pub provider : Text
  pub account : Text
  pub state : Text

abbrev pub circuit_states : List Text
circuit_states = codes "closed" ∷ codes "open" ∷ codes "half_open" ∷ []

-- `states`: every seen account is closed, unless a circuit says otherwise
unfoldable pub with_circuits : List AccountCircuit → Dict AccountId Text → Dict AccountId Text
with_circuits [] states = states
with_circuits (c ∷ cs) states =
    with_circuits cs (insert (record { provider = c.provider; account = c.account }) c.state states)

abbrev pub all_closed : Dict AccountId (Unit {0}) → Dict AccountId Text
all_closed seen = map (λ (id, _). (id, codes "closed")) seen

unfoldable pub account_states : AccountMetrics → List AccountCircuit → Dict AccountId Text
unfolding with_circuits
account_states m circuits = with_circuits circuits (all_closed m.seen)

abbrev pub id_less : AccountId → AccountId → Bool
id_less a b = order_by a.provider b.provider (text_less a.account b.account)

abbrev pub states_name : Text
states_name = codes "smolllm_account_circuit_state"

-- the three lines of one account, by its state
unfoldable pub state_lines : AccountId → Text → List Text → List Line
state_lines id state [] = []
state_lines id state (s ∷ ss) =
    record {
      name = states_name;
      labels = account_labels id (codes ",state=\"" ++ (s ++ (quote ∷ [])));
      value = count (if state == s then 1 else 0);
    }
    ∷ state_lines id state ss

unfoldable pub all_state_lines : Dict AccountId Text → List AccountId → List Line
unfolding state_lines
all_state_lines states [] = []
all_state_lines states (id ∷ ids) =
    state_lines id (get_or (lookup id states) []) circuit_states ++ all_state_lines states ids

-- `write`
unfoldable pub write_accounts : AccountMetrics → List AccountCircuit → List Line
unfolding all_state_lines sorted_series write_family account_states leg_labels transition_labels
    skip_labels
write_accounts m circuits =
    let states = account_states m circuits in
    write_family (codes "smolllm_account_circuit_transitions_total")
      (sorted_series transition_labels m.transitions)
    ++ (write_family (codes "smolllm_account_circuit_skips_total")
          (sorted_series skip_labels m.skips)
        ++ (write_family (codes "smolllm_account_circuit_probes_total")
              (sorted_series (λ k. leg_labels k []) m.probes)
            ++ (write_family (codes "smolllm_account_circuit_fail_open_total")
                  (sorted_series (λ k. leg_labels k []) m.fail_opens)
                ++ (write_family (codes "smolllm_unrecognized_structured_429_total")
                      (sorted_series (λ k. leg_labels k []) m.unrecognized_429)
                    ++ all_state_lines states (sort_slice id_less (map (λ (id, _). id) states))))))
