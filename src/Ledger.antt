-- ===== src/Ledger.antt =====
-- internal/ledger/ledger.go: the buckets, the attempt counters and the first-output histograms,
-- and the operations that change them. `mu` makes each operation one step.
-- Instants are seconds, waits are nanoseconds. `date_only` is `UTC().Format(time.DateOnly)`.
pub mod Histogram
pub mod Invariant
pub mod Attempts
pub mod Snapshot
pub mod Retention
use smolllm_server.Base.{
  ℕ, ◌+◌, ◌-◌, Bool, not, ◌&&◌, none, some, List, [], ◌∷◌, map, ltb, leb, if◌then◌else◌, ◌==◌,
  text_eq, text_discrete, bool_eq, length, replicate, Text, text_less, order_by, Dict, lookup,
  insert, retain, sort_slice, ℕ_discrete,
}
use smolllm_server.Upstream.{canceled, failed, RequestEvent}
use smolllm_server.Stats.{
  retention, Bucket, BucketKey, AttemptKey, FirstOutputKey, bucket_key_eq, attempt_key_eq,
  first_output_key_eq, Hist, Ledger, outcome_ok, outcome_first_output, outcome_error,
  outcome_canceled, first_output_bounds, empty_bucket, get_or, is_some,
}

-- `recordAttemptLocked`: the `switch` that names the outcome and the phase
unfoldable pub classify : RequestEvent → Text × Text
classify e =
    if e.first_output_timeout then (outcome_first_output, e.first_output_phase) else elim e.error [
      | none ↦ (outcome_ok, [])
      | some (canceled _) ↦ (outcome_canceled, [])
      | some (failed _) ↦ (outcome_error, [])
    ]

abbrev pub attempt_key : Text → RequestEvent → AttemptKey
attempt_key alias e = record {
  alias = alias;
  provider = e.provider;
  model = e.model_name;
  outcome = (classify e).0;
  phase = (classify e).1;
  streaming = e.streaming;
}

abbrev pub first_output_key : Text → RequestEvent → FirstOutputKey
first_output_key alias e = record {
  alias = alias;
  provider = e.provider;
  model = e.model_name;
  streaming = e.streaming;
}

-- `hist.Counts[idx]++` with `idx` from the search for the first bound that is not exceeded
unfoldable pub count_wait : List ℕ → ℕ → List ℕ → List ℕ
count_wait bounds wait [] = []
count_wait [] wait (c ∷ cs) = (c + 1) ∷ cs
count_wait (b ∷ bs) wait (c ∷ cs) =
    let later = c ∷ count_wait bs wait cs in if leb wait b then (c + 1) ∷ cs else later

unfoldable pub observe : ℕ → Hist → Hist
unfolding count_wait
observe wait h = record {
  counts = count_wait first_output_bounds wait h.counts;
  sum = h.sum + wait;
  count = h.count + 1;
}

abbrev pub new_hist : Hist
new_hist = record { counts = replicate (length first_output_bounds + 1) 0; sum = 0; count = 0 }

-- `recordAttemptLocked`
unfoldable pub record_attempt : Text → RequestEvent → Ledger → Ledger
record_attempt alias e l =
    let key = attempt_key alias e in
    let counted = insert key (get_or (lookup key l.attempts) 0 + 1) l.attempts in
    let fk = first_output_key alias e in
    let hist = observe e.ttft (get_or (lookup fk l.first_output) new_hist) in
    if (classify e).0 == outcome_ok && ltb 0 e.ttft
    then record l { attempts = counted; first_output = insert fk hist l.first_output }
    else record l { attempts = counted }

-- the updates that `Record` makes to one bucket
unfoldable pub add_event : BucketKey → RequestEvent → Bucket → Bucket
add_event key e b = record {
  day = key.day;
  alias = key.alias;
  provider = key.provider;
  model = key.model;
  requests = b.requests + 1;
  failures = if is_some e.error then b.failures + 1 else b.failures;
  input_tokens = b.input_tokens + e.input_tokens;
  output_tokens = b.output_tokens + e.output_tokens;
  cache_read_tokens = b.cache_read_tokens + e.cache_read_tokens;
  cache_write_tokens = b.cache_write_tokens + e.cache_write_tokens;
  cache_reported_requests =
      if e.cache_read_reported then b.cache_reported_requests + 1 else b.cache_reported_requests;
  cache_reported_input_tokens =
      if e.cache_read_reported
      then b.cache_reported_input_tokens + e.input_tokens
      else b.cache_reported_input_tokens;
  estimated_requests = if e.estimated then b.estimated_requests + 1 else b.estimated_requests;
}

abbrev pub bucket_less : Bucket → Bucket → Bool
bucket_less a b =
    order_by a.day b.day
      (order_by a.alias b.alias (order_by a.provider b.provider (text_less a.model b.model)))

abbrev pub values {ℓ κ} : {K : Type ℓ} {V : Type κ} → Dict K V → List V
values m = map (λ (_, v). v) m

module _ (date_only : ℕ → Text) where
  abbrev pub bucket_key : Text → RequestEvent → BucketKey
  bucket_key alias e = record {
    day = date_only e.timestamp;
    alias = alias;
    provider = e.provider;
    model = e.model_name;
  }

  -- `pruneLocked`
  unfoldable pub prune : ℕ → Ledger → Ledger
  prune now l =
      let cutoff = date_only (now - retention) in
      record l { buckets = retain (λ key. not (text_less key.day cutoff)) l.buckets }

  -- `Record` at the instant `now`
  unfoldable pub record_event : ℕ → Text → RequestEvent → Ledger → Ledger
  unfolding prune
  record_event now alias e l =
      let key = bucket_key alias e in
      let bucket = add_event key e (get_or (lookup key l.buckets) (empty_bucket key)) in
      let counted = record_attempt alias e l in
      prune now (record counted { buckets = insert key bucket counted.buckets })

  -- `Snapshot`: the new state and the report
  unfoldable pub snapshot : ℕ → Ledger → Ledger × List Bucket
  unfolding prune
  snapshot now l = let kept = prune now l in (kept, sort_slice bucket_less (values kept.buckets))

pub record AttemptCount : Type 0 where
  pub key : AttemptKey
  pub count : ℕ

abbrev pub attempt_less : AttemptCount → AttemptCount → Bool
attempt_less a b = order_by a.key.alias b.key.alias (
    order_by a.key.model b.key.model
      (order_by a.key.outcome b.key.outcome (text_less a.key.phase b.key.phase)))

-- `Attempts`
unfoldable pub attempt_counts : Ledger → List AttemptCount
attempt_counts l =
    sort_slice attempt_less (map (λ (k, n). record { key = k; count = n }) l.attempts)

-- `FirstOutputs`: the counts so far, from left to right
unfoldable pub cumulate : ℕ → List ℕ → List ℕ
cumulate running [] = []
cumulate running (c ∷ cs) = (running + c) ∷ cumulate (running + c) cs

pub record FirstOutputSample : Type 0 where
  pub key : FirstOutputKey
  pub bounds : List ℕ
  pub counts : List ℕ
  pub sum : ℕ
  pub count : ℕ

abbrev pub sample_less : FirstOutputSample → FirstOutputSample → Bool
sample_less a b = order_by a.key.alias b.key.alias (text_less a.key.model b.key.model)

abbrev pub sample_of : FirstOutputKey → Hist → FirstOutputSample
sample_of k h = record {
  key = k;
  bounds = first_output_bounds;
  counts = cumulate 0 h.counts;
  sum = h.sum;
  count = h.count;
}

unfoldable pub first_outputs : Ledger → List FirstOutputSample
first_outputs l = sort_slice sample_less (map (λ (k, h). sample_of k h) l.first_output)
