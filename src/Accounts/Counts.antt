-- ===== src/Accounts/Counts.antt =====
-- internal/server/account_metrics.go: the counters against the history of the breaker's events, the
-- latest first.
use smolllm_server.Base.{
  ℕ, ◌+◌, ◌≡◌, Bool, true, false, ◌&&◌, List, [], ◌∷◌, arith, if◌then◌else◌, Eq, ◌==◌, Text, Dict,
  lookup, insert, any, lookup-insert,
}
use smolllm_server.Stats.{get_or, is_some}
use smolllm_server.Accounts.{
  AccountId, TransitionKey, LegKey, SkipKey, account_id_eq, transition_key_eq, leg_key_eq,
  skip_key_eq, AccountMetrics, new_metrics, Kind, opened, closed, skipped, probing, fail_open,
  unrecognized, other, AccountEvent, id_of, leg_of, skip_of, transition_of, increment, count_event,
  record_account,
}

-- one call of `record`
pub record Call : Type 0 where
  pub alias : Text
  pub event : AccountEvent

abbrev pub is_transition : Kind → Bool
is_transition opened = true
is_transition closed = true
is_transition _ = false

abbrev pub is_skip : Kind → Bool
is_skip skipped = true
is_skip _ = false

abbrev pub is_probe : Kind → Bool
is_probe probing = true
is_probe _ = false

abbrev pub is_fail_open : Kind → Bool
is_fail_open fail_open = true
is_fail_open _ = false

abbrev pub is_unrecognized : Kind → Bool
is_unrecognized unrecognized = true
is_unrecognized _ = false

-- how many calls pass a test
unfoldable pub times : (Call → Bool) → List Call → ℕ
times p [] = 0
times p (c ∷ h) = (if p c then 1 else 0) + times p h

abbrev pub counter {ℓ} : {K : Type ℓ} → ⦃e : Eq K⦄ → K → Dict K ℕ → ℕ
counter k m = get_or (lookup k m) 0

lookup-increment {ℓ} :
    {K : Type ℓ} ⦃e : Eq K⦄ (j k : K) (m : Dict K ℕ)
    → counter j (increment k m) ≡ (if k == j then 1 else 0) + counter j m
lookup-increment j k m = ground (arith, lookup-insert j k (counter k m + 1) m)

module _ (kind_text : Kind → Text) where
  -- the counters after a history
  unfoldable pub metrics_after : List Call → AccountMetrics
  metrics_after [] = new_metrics
  metrics_after (c ∷ h) = record_account kind_text c.alias c.event (metrics_after h)

  module _ (t : TransitionKey) (s : SkipKey) (l : LegKey) (i : AccountId) where
    -- what one event adds to the counters, by a kind
    record Adds (alias : Text) (e : AccountEvent) (k : Kind) (m n : AccountMetrics) : Type 0 where
      transitions :
          counter t n.transitions
          ≡ (if is_transition k && transition_of kind_text e == t then 1 else 0)
            + counter t m.transitions
      skips :
          counter s n.skips
          ≡ (if is_skip k && skip_of alias e == s then 1 else 0) + counter s m.skips
      probes :
          counter l n.probes
          ≡ (if is_probe k && leg_of alias e == l then 1 else 0) + counter l m.probes
      fail_opens :
          counter l n.fail_opens
          ≡ (if is_fail_open k && leg_of alias e == l then 1 else 0) + counter l m.fail_opens
      unrecognized_429 :
          counter l n.unrecognized_429
          ≡ (if is_unrecognized k && leg_of alias e == l then 1 else 0)
            + counter l m.unrecognized_429
      seen : n.seen ≡ m.seen

    -- every counter of a state, and whether an account was seen, as expected of a history
    pub record Matches (m : AccountMetrics) (h : List Call) : Type 0 where
      pub transitions :
          counter t m.transitions
          ≡ times (λ c. is_transition c.event.kind && transition_of kind_text c.event == t) h
      pub skips :
          counter s m.skips ≡ times (λ c. is_skip c.event.kind && skip_of c.alias c.event == s) h
      pub probes :
          counter l m.probes ≡ times (λ c. is_probe c.event.kind && leg_of c.alias c.event == l) h
      pub fail_opens :
          counter l m.fail_opens
          ≡ times (λ c. is_fail_open c.event.kind && leg_of c.alias c.event == l) h
      pub unrecognized_429 :
          counter l m.unrecognized_429
          ≡ times (λ c. is_unrecognized c.event.kind && leg_of c.alias c.event == l) h
      pub seen : is_some (lookup i m.seen) ≡ any (λ c. id_of c.event == i) h

    count_event-Adds :
        (alias : Text) (e : AccountEvent) (k : Kind) (m : AccountMetrics)
        → Adds alias e k m (count_event kind_text alias e k m)
    unfolding count_event
    count_event-Adds alias e opened m =
        ground (arith, lookup-increment t (transition_of kind_text e) m.transitions)
    count_event-Adds alias e closed m =
        ground (arith, lookup-increment t (transition_of kind_text e) m.transitions)
    count_event-Adds alias e skipped m =
        ground (arith, lookup-increment s (skip_of alias e) m.skips)
    count_event-Adds alias e probing m =
        ground (arith, lookup-increment l (leg_of alias e) m.probes)
    count_event-Adds alias e fail_open m =
        ground (arith, lookup-increment l (leg_of alias e) m.fail_opens)
    count_event-Adds alias e unrecognized m =
        ground (arith, lookup-increment l (leg_of alias e) m.unrecognized_429)
    count_event-Adds alias e (other _) m = ground arith

    record-Matches :
        (c : Call) (m : AccountMetrics) (h : List Call)
        → Matches m h
        → Matches (record_account kind_text c.alias c.event m) (c ∷ h)
    unfolding record_account times
    record-Matches c m h r =
        let noted : AccountMetrics = record m { seen = insert (id_of c.event) tt m.seen } in
        let a = count_event-Adds c.alias c.event c.event.kind noted in
        record {
          transitions = omega (arith, a.transitions, r.transitions);
          skips = omega (arith, a.skips, r.skips);
          probes = omega (arith, a.probes, r.probes);
          fail_opens = omega (arith, a.fail_opens, r.fail_opens);
          unrecognized_429 = omega (arith, a.unrecognized_429, r.unrecognized_429);
          seen = ground (arith, a.seen, r.seen, lookup-insert i (id_of c.event) tt m.seen);
        }

    -- After any history of events each counter is the number of events of its kind and key: the
    -- transitions by account and kind alone, the skips by leg and reason, probes, fail-opens and
    -- unrecognized rejections by leg; and the accounts seen are those of the events.
    pub metrics_after-Matches : (h : List Call) → Matches (metrics_after h) h
    unfolding metrics_after times lookup
    metrics_after-Matches [] = ground arith
    metrics_after-Matches (c ∷ h) = record-Matches c (metrics_after h) h (metrics_after-Matches h)
