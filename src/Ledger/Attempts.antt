-- ===== src/Ledger/Attempts.antt =====
-- The attempt counters and the histograms of the ledger against the history of recorded events:
-- what `Record` (ledger.go) has been called with, the latest call first.
use smolllm_server.Base.{
  codes, not, ◌||◌, Option, some, none, true, false, bool_eq, Bool-cases, Option-cases, inl, inr, ℕ,
  ◌+◌, ◌≡◌, refl, Bool, ◌&&◌, text_discrete, List, [], ◌∷◌, arith, ltb, if◌then◌else◌, ◌==◌,
  text_eq, length, Text, lookup, lookup-insert,
}
use smolllm_server.Ledger.{
  new_hist, classify, attempt_key, first_output_key, observe, record_attempt, record_event,
  sample_of,
}
use smolllm_server.Stats.{
  Ledger, AttemptKey, FirstOutputKey, attempt_key_eq, first_output_key_eq, new, get_or, outcome_ok,
  is_some, first_output_bounds,
}
use smolllm_server.Ledger.Histogram.{observed, expected, sum_of, cumulate-observed}
use smolllm_server.Upstream.{RequestEvent, Failure, canceled, failed}

-- one call of `Record`
pub record Call : Type 0 where
  pub now : ℕ
  pub alias : Text
  pub event : RequestEvent

module _ (date_only : ℕ → Text) where
  -- the ledger after a history
  unfoldable pub recorded : List Call → Ledger
  recorded [] = new
  recorded (c ∷ h) = record_event date_only c.now c.alias c.event (recorded h)

abbrev is_cancel : Option Failure → Bool
is_cancel (some (canceled _)) = true
is_cancel (some (failed _)) = false
is_cancel none = false

-- how an attempt ended: a queued one by its first-output timeout, which also has an error, with the
-- phase of the event, and the others by their error, with no phase
abbrev pub ended_as : Text → Text → RequestEvent → Bool
ended_as outcome phase e =
    e.first_output_timeout
      && outcome == codes "first_output_timeout"
      && phase == e.first_output_phase
    || not e.first_output_timeout
      && phase == []
      && (not (is_some e.error) && outcome == codes "ok"
          || is_cancel e.error && outcome == codes "canceled"
          || is_some e.error && not (is_cancel e.error) && outcome == codes "error")

-- whether a call is one that the key `k` counts
unfoldable pub is_attempt : AttemptKey → Call → Bool
is_attempt k c =
    c.alias == k.alias
    && c.event.provider == k.provider
    && c.event.model_name == k.model
    && c.event.streaming == k.streaming
    && ended_as k.outcome k.phase c.event

-- how many calls the key `k` counts
unfoldable pub attempts_of : AttemptKey → List Call → ℕ
attempts_of k [] = 0
attempts_of k (c ∷ h) = (if is_attempt k c then 1 else 0) + attempts_of k h

attempt_key_fields :
    (j k : AttemptKey)
    → (j == k) ≡ (
        j.alias == k.alias
        && j.provider == k.provider
        && j.model == k.model
        && j.streaming == k.streaming
        && (k.outcome == j.outcome && k.phase == j.phase))
attempt_key_fields j k = ground arith

ended_as-classify :
    (o p : Text) (e : RequestEvent) → (o == (classify e).0 && p == (classify e).1) ≡ ended_as o p e
unfolding classify
ended_as-classify o p e = elim (Bool-cases e.first_output_timeout) [
  | inl queued ↦ rw queued (ground arith)
  | inr not_queued ↦ elim (Option-cases e.error) [
    | inl fine ↦ rw (not_queued, fine) (ground arith)
    | inr (canceled m, gone) ↦ rw (not_queued, gone) (ground arith)
    | inr (failed m, broken) ↦ rw (not_queued, broken) (ground arith)
  ]
]

attempt_key-is_attempt :
    (k : AttemptKey) (c : Call) → (attempt_key c.alias c.event == k) ≡ is_attempt k c
unfolding is_attempt
attempt_key-is_attempt k c =
    rw
      (
        attempt_key_fields (attempt_key c.alias c.event) k,
        ← ended_as-classify k.outcome k.phase c.event,
      )
      refl

-- whether a call contributes a wait to the histogram `k`: it succeeded after a wait and has the
-- alias, the provider, the model and the transport mode of the key
unfoldable pub waited : FirstOutputKey → Call → Bool
waited k c =
    ended_as (codes "ok") [] c.event
    && ltb 0 c.event.ttft
    && (c.alias == k.alias
        && c.event.provider == k.provider
        && c.event.model_name == k.model
        && c.event.streaming == k.streaming)

first_output_key_fields :
    (j k : FirstOutputKey)
    → (j == k) ≡ (
        j.alias == k.alias
        && j.provider == k.provider
        && j.model == k.model
        && j.streaming == k.streaming)
first_output_key_fields j k = ground arith

ok-classify : (e : RequestEvent) → ((classify e).0 == outcome_ok) ≡ ended_as (codes "ok") [] e
unfolding classify text_discrete
ok-classify e = elim (Bool-cases e.first_output_timeout) [
  | inl queued ↦ rw queued refl
  | inr not_queued ↦ elim (Option-cases e.error) [
    | inl fine ↦ rw (not_queued, fine) refl
    | inr (canceled m, gone) ↦ rw (not_queued, gone) refl
    | inr (failed m, broken) ↦ rw (not_queued, broken) refl
  ]
]

waited-key :
    (k : FirstOutputKey) (c : Call)
    → waited k c ≡ (
        (classify c.event).0 == outcome_ok
        && ltb 0 c.event.ttft
        && first_output_key c.alias c.event == k)
unfolding waited
waited-key k c =
    rw (first_output_key_fields (first_output_key c.alias c.event) k, ok-classify c.event) refl

-- the waits of the successful calls with the key `k`
unfoldable pub waits_of : FirstOutputKey → List Call → List ℕ
waits_of k [] = []
waits_of k (c ∷ h) = if waited k c then c.event.ttft ∷ waits_of k h else waits_of k h

record_attempt-attempts :
    (k : AttemptKey) (alias : Text) (e : RequestEvent) (l : Ledger)
    → get_or (lookup k (record_attempt alias e l).attempts) 0
      ≡ (if attempt_key alias e == k then 1 else 0) + get_or (lookup k l.attempts) 0
unfolding record_attempt
record_attempt-attempts k alias e l = ground (
  arith,
  lookup-insert k (attempt_key alias e) (get_or (lookup (attempt_key alias e) l.attempts) 0 + 1)
      l.attempts,
)

record_event-attempts :
    (date_only : ℕ → Text) (now : ℕ) (alias : Text) (e : RequestEvent) (l : Ledger)
    → (record_event date_only now alias e l).attempts ≡ (record_attempt alias e l).attempts
unfolding record_event
record_event-attempts date_only now alias e l = refl

record_event-first_output :
    (date_only : ℕ → Text) (now : ℕ) (alias : Text) (e : RequestEvent) (l : Ledger)
    → (record_event date_only now alias e l).first_output ≡ (record_attempt alias e l).first_output
unfolding record_event
record_event-first_output date_only now alias e l = refl

-- Each counter of attempts equals the number of recorded events that have its alias, provider,
-- model, outcome, phase and transport mode, whatever has been pruned since.
pub recorded-attempts :
    (date_only : ℕ → Text) (k : AttemptKey) (h : List Call)
    → get_or (lookup k (recorded date_only h).attempts) 0 ≡ attempts_of k h
unfolding recorded attempts_of lookup
recorded-attempts date_only k [] = refl
recorded-attempts date_only k (c ∷ h) =
    let l = recorded date_only h in
    rw (record_event-attempts date_only c.now c.alias c.event l) (
      rw (record_attempt-attempts k c.alias c.event l, attempt_key-is_attempt k c)
        (omega (arith, recorded-attempts date_only k h)))

record_attempt-first_output :
    (k : FirstOutputKey) (c : Call) (l : Ledger)
    → get_or (lookup k (record_attempt c.alias c.event l).first_output) new_hist ≡ (
        if waited k c
        then observe c.event.ttft (get_or (lookup k l.first_output) new_hist)
        else get_or (lookup k l.first_output) new_hist)
unfolding record_attempt
record_attempt-first_output k c l =
    let fk = first_output_key c.alias c.event in
    rw (waited-key k c) (
      ground (
        arith,
        lookup-insert k fk (observe c.event.ttft (get_or (lookup fk l.first_output) new_hist))
            l.first_output,
      ))

recorded-observed :
    (date_only : ℕ → Text) (k : FirstOutputKey) (h : List Call)
    → get_or (lookup k (recorded date_only h).first_output) new_hist ≡ observed (waits_of k h)
unfolding recorded waits_of lookup observed
recorded-observed date_only k [] = refl
recorded-observed date_only k (c ∷ h) =
    let l = recorded date_only h in
    rw
      (
        record_event-first_output date_only c.now c.alias c.event l,
        record_attempt-first_output k c l,
        recorded-observed date_only k h,
      )
      (ground arith)

-- The histogram that `FirstOutputs` reports for a key is the histogram of the waits of the
-- recorded calls that succeeded, had a positive wait and have that key: per bound the number of
-- waits at or below it, last the number of all of them, with their sum and their number.
pub recorded-histogram :
    (date_only : ℕ → Text) (k : FirstOutputKey) (h : List Call)
    → let s = sample_of k (get_or (lookup k (recorded date_only h).first_output) new_hist) in
      (s.counts ≡ expected first_output_bounds (waits_of k h))
      × (s.sum ≡ sum_of (waits_of k h))
      × (s.count ≡ length (waits_of k h))
recorded-histogram date_only k h =
    rw (recorded-observed date_only k h) (cumulate-observed (waits_of k h))
