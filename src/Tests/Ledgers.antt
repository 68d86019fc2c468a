-- ===== src/Tests/Ledgers.antt =====
-- Examples of the theorems on the ledger.
use smolllm_server.Base.{
  ◌≡◌, ◌≢◌, refl, List, [], ◌∷◌, arith, text_discrete, text_less, text_eq, Text, codes, length,
  lookup,
}
use smolllm_server.Ledger
use smolllm_server.Ledger.{
  attempt_key, first_output_key, bucket_key, new_hist, sample_of, FirstOutputSample, add_event,
  record_event, snapshot, values, bucket_less, attempt_counts,
}
use smolllm_server.Stats.{
  Ledger, AttemptKey, FirstOutputKey, BucketKey, Bucket, new, get_or, attempt_key_eq,
  first_output_key_eq, bucket_key_eq, first_output_bounds, is_some,
}
use smolllm_server.Ledger.Attempts
use smolllm_server.Ledger.Retention
use smolllm_server.Ledger.Attempts.{
  Call, recorded, attempts_of, waits_of, waited, recorded-attempts, recorded-histogram,
}
use smolllm_server.Ledger.Histogram.{expected, sum_of}
use smolllm_server.Ledger.Invariant.{IsValid, record_event-IsValid, new-IsValid}
use smolllm_server.Ledger.Retention.{Kept, one_if, total, bucket_after, recorded-totals}
use smolllm_server.Ledger.Snapshot.{snapshot-Ascending, snapshot_unique}
use smolllm_server.Tests.{day_of, answered, slow, history}

abbrev fast : Text
fast = codes "fast"

abbrev ok_key : AttemptKey
ok_key = attempt_key fast answered

recorded-attempts_example :
    get_or (lookup ok_key (recorded day_of history).attempts) 0 ≡ attempts_of ok_key history
recorded-attempts_example = recorded-attempts day_of ok_key history

attempts_of_test : attempts_of ok_key history ≡ 2
unfolding attempts_of text_discrete Attempts.is_attempt Ledger.classify
attempts_of_test = refl

abbrev wait_key : FirstOutputKey
wait_key = first_output_key fast answered

recorded-histogram_example :
    let s =
      sample_of wait_key
        (get_or (lookup wait_key (recorded day_of history).first_output) new_hist) in
    (s.counts ≡ expected first_output_bounds (waits_of wait_key history))
    × (s.sum ≡ sum_of (waits_of wait_key history))
    × (s.count ≡ length (waits_of wait_key history))
recorded-histogram_example = recorded-histogram day_of wait_key history

waits_of_test : waits_of wait_key history ≡ 400_000_000_000 ∷ 1_500_000_000 ∷ []
unfolding waits_of waited text_discrete first_output_key_eq Ledger.classify
waits_of_test = refl

abbrev day_key : BucketKey
day_key = bucket_key day_of fast answered

history-Kept : Kept day_of day_key history
unfolding text_less
history-Kept = (refl, (refl, (refl, tt)))

recorded-totals_example :
    let b = bucket_after day_of day_key history in
    (b.requests ≡ total day_of (λ _. 1) day_key history)
    × (b.failures ≡ total day_of (λ e. one_if (is_some e.error) 1) day_key history)
    × (b.input_tokens ≡ total day_of (λ e. e.input_tokens) day_key history)
    × (b.output_tokens ≡ total day_of (λ e. e.output_tokens) day_key history)
    × (b.cache_read_tokens ≡ total day_of (λ e. e.cache_read_tokens) day_key history)
    × (b.cache_write_tokens ≡ total day_of (λ e. e.cache_write_tokens) day_key history)
    × (b.cache_reported_requests
        ≡ total day_of (λ e. one_if e.cache_read_reported 1) day_key history)
    × (b.cache_reported_input_tokens
        ≡ total day_of (λ e. one_if e.cache_read_reported e.input_tokens) day_key history)
    × (b.estimated_requests ≡ total day_of (λ e. one_if e.estimated 1) day_key history)
recorded-totals_example = recorded-totals day_of day_key history history-Kept

total_test : total day_of (λ e. e.input_tokens) day_key history ≡ 360
unfolding total text_discrete Retention.falls_into
total_test = refl

abbrev two_buckets : Ledger
two_buckets =
    record_event day_of 5_000_100 (codes "slow") slow
      (record_event day_of 5_000_100 fast answered new)

two_buckets-IsValid : IsValid two_buckets
two_buckets-IsValid =
    record_event-IsValid day_of 5_000_100 (codes "slow") slow
      (record_event day_of 5_000_100 fast answered new)
      (record_event-IsValid day_of 5_000_100 fast answered new new-IsValid)

abbrev two_report : List Bucket
two_report = (snapshot day_of 5_000_200 two_buckets).1

snapshot_unique_example : two_report ≡ (snapshot day_of 5_000_200 two_buckets).1
snapshot_unique_example =
    snapshot_unique day_of 5_000_200 two_buckets two_buckets-IsValid two_report
      (snapshot-Ascending day_of 5_000_200 two_buckets).0
      (snapshot-Ascending day_of 5_000_200 two_buckets).1

abbrev other_key : AttemptKey
other_key = attempt_key fast (record answered { provider = codes "azure" })

ok-ne-other : ok_key ≢ other_key
ok-ne-other e = ground arith
