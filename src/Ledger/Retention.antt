-- ===== src/Ledger/Retention.antt =====
-- The buckets of the ledger: what `Record` and `pruneLocked` (ledger.go) leave under each key, and
-- the totals of a bucket against the history of recorded events.
use smolllm_server.Base.{
  ◌&&◌, text_eq, ℕ, ◌+◌, ◌-◌, ◌≤◌, ◌≡◌, refl, ap, ◌∙◌, Bool, true, false, not, none, some, List, [],
  ◌∷◌, arith, if◌then◌else◌, ◌==◌, Text, text_less, lookup, insert, lookup-insert, lookup-retain,
  All,
}
use smolllm_server.Ledger.{add_event, bucket_key, record_attempt, record_event}
use smolllm_server.Stats.{
  Ledger, Bucket, BucketKey, bucket_key_eq, get_or, is_some, empty_bucket, retention,
}
use smolllm_server.Ledger.Attempts.{Call, recorded}
use smolllm_server.Upstream.{RequestEvent}

-- `date_only` keeps the order of instants, as dates written year first do.
abbrev pub KeepsOrder : (ℕ → Text) → Type 0
KeepsOrder date_only = (s t : ℕ) → s ≤ t → text_less (date_only t) (date_only s) ≡ false

record_attempt-buckets :
    (alias : Text) (e : RequestEvent) (l : Ledger) → (record_attempt alias e l).buckets ≡ l.buckets
unfolding record_attempt
record_attempt-buckets alias e l = ground arith

bucket_key_fields :
    (j k : BucketKey)
    → (j == k)
      ≡ (j.day == k.day && j.alias == k.alias && j.provider == k.provider && j.model == k.model)
bucket_key_fields j k = ground arith

module _ (date_only : ℕ → Text) where
  -- whether the bucket `k` is as old as the retention allows at the instant `now`
  abbrev pub is_kept : ℕ → BucketKey → Bool
  is_kept now k = not (text_less k.day (date_only (now - retention)))

  -- After `Record` the bucket of the event's day, alias, provider and model holds the event on top
  -- of what it held, every other bucket is what it was, and of all of them exactly those remain
  -- whose day is not before the day that lies 31 days back.
  pub lookup-record_event :
      (now : ℕ) (alias : Text) (e : RequestEvent) (l : Ledger) (k : BucketKey)
      → lookup k (record_event date_only now alias e l).buckets ≡ (
          if is_kept now k
          then (if bucket_key date_only alias e == k
              then some (add_event k e (get_or (lookup k l.buckets) (empty_bucket k)))
              else lookup k l.buckets)
          else none)
  unfolding record_event
  lookup-record_event now alias e l k =
      let key = bucket_key date_only alias e in
      let bucket = add_event key e (get_or (lookup key l.buckets) (empty_bucket key)) in
      rw
        (
          lookup-retain (is_kept now) k (insert key bucket (record_attempt alias e l).buckets),
          record_attempt-buckets alias e l,
        )
        (ground (arith, lookup-insert k key bucket l.buckets))

  -- Under a calendar that keeps the order of instants, an event of the last 31 days is found in its
  -- bucket right after it was recorded.
  pub record_event_recent :
      KeepsOrder date_only
      → (now : ℕ) (alias : Text) (e : RequestEvent) (l : Ledger) → now - retention ≤ e.timestamp
      → let k = bucket_key date_only alias e in
        lookup k (record_event date_only now alias e l).buckets
        ≡ some (add_event k e (get_or (lookup k l.buckets) (empty_bucket k)))
  record_event_recent ordered now alias e l recent =
      let k = bucket_key date_only alias e in
      ground
        (arith, lookup-record_event now alias e l k, ordered (now - retention) e.timestamp recent)

  -- whether a call has the day, the alias, the provider and the model of the bucket `k`
  unfoldable pub falls_into : BucketKey → Call → Bool
  falls_into k c =
      date_only c.event.timestamp == k.day
      && c.alias == k.alias
      && c.event.provider == k.provider
      && c.event.model_name == k.model

  bucket_key-falls_into :
      (k : BucketKey) (c : Call) → (bucket_key date_only c.alias c.event == k) ≡ falls_into k c
  unfolding falls_into
  bucket_key-falls_into k c = bucket_key_fields (bucket_key date_only c.alias c.event) k

  -- the sum of a measure over the calls that fall into the bucket `k`
  unfoldable pub total : (RequestEvent → ℕ) → BucketKey → List Call → ℕ
  total f k [] = 0
  total f k (c ∷ h) = (if falls_into k c then f c.event else 0) + total f k h

  -- No call of the history was made so late that it pruned the bucket `k`.
  abbrev pub Kept : BucketKey → List Call → Type 0
  Kept k = All (λ c. is_kept c.now k ≡ true)

  abbrev pub bucket_after : BucketKey → List Call → Bucket
  bucket_after k h = get_or (lookup k (recorded date_only h).buckets) (empty_bucket k)

  bucket_after-cons :
      (k : BucketKey) (c : Call) (h : List Call)
      → is_kept c.now k ≡ true
      → bucket_after k (c ∷ h)
        ≡ (if falls_into k c then add_event k c.event (bucket_after k h) else bucket_after k h)
  unfolding recorded
  bucket_after-cons k c h kept =
      rw
        (
          lookup-record_event c.now c.alias c.event (recorded date_only h) k,
          bucket_key-falls_into k c,
        )
        (ground arith)

  bucket_after-new : (k : BucketKey) → bucket_after k [] ≡ empty_bucket k
  unfolding recorded lookup
  bucket_after-new k = refl

abbrev pub one_if : Bool → ℕ → ℕ
one_if b n = if b then n else 0

-- what an event adds to one field of its bucket, for a field that is read off the events
record Counted (field : Bucket → ℕ) (f : RequestEvent → ℕ) : Type 0 where
  starts : (k : BucketKey) → field (empty_bucket k) ≡ 0
  grows : (k : BucketKey) (e : RequestEvent) (b : Bucket) → field (add_event k e b) ≡ f e + field b

bucket_after-total :
    (field : Bucket → ℕ) (f : RequestEvent → ℕ)
    → Counted field f
    → (date_only : ℕ → Text) (k : BucketKey) (h : List Call) → Kept date_only k h
    → field (bucket_after date_only k h) ≡ total date_only f k h
unfolding total
bucket_after-total field f r date_only k [] _ = rw (bucket_after-new date_only k) (r.starts k)
bucket_after-total field f r date_only k (c ∷ h) (kept, older) =
    let ih = bucket_after-total field f r date_only k h older in
    ap field (bucket_after-cons date_only k c h kept)
    ∙ ground (arith, ih, r.grows k c.event (bucket_after date_only k h))

module _ (date_only : ℕ → Text) (k : BucketKey) (h : List Call) (kept : Kept date_only k h) where
  -- The totals of a bucket that no call has pruned are the sums over the recorded calls of its day,
  -- alias, provider and model: the calls, those with an error, the tokens of the input, of the output,
  -- read from the cache and written to it, the calls whose provider reported cache reads with their input tokens, and the estimated ones.
  pub recorded-totals :
      let b = bucket_after date_only k h in
      (b.requests ≡ total date_only (λ _. 1) k h)
      × (b.failures ≡ total date_only (λ e. one_if (is_some e.error) 1) k h)
      × (b.input_tokens ≡ total date_only (λ e. e.input_tokens) k h)
      × (b.output_tokens ≡ total date_only (λ e. e.output_tokens) k h)
      × (b.cache_read_tokens ≡ total date_only (λ e. e.cache_read_tokens) k h)
      × (b.cache_write_tokens ≡ total date_only (λ e. e.cache_write_tokens) k h)
      × (b.cache_reported_requests ≡ total date_only (λ e. one_if e.cache_read_reported 1) k h)
      × (b.cache_reported_input_tokens
          ≡ total date_only (λ e. one_if e.cache_read_reported e.input_tokens) k h)
      × (b.estimated_requests ≡ total date_only (λ e. one_if e.estimated 1) k h)
  unfolding add_event
  recorded-totals = (
    bucket_after-total (λ b. b.requests) (λ _. 1)
        (record { starts = λ k. refl; grows = λ k e b. omega arith }) date_only k h kept,
    bucket_after-total (λ b. b.failures) (λ e. one_if (is_some e.error) 1)
        (record { starts = λ k. refl; grows = λ k e b. ground arith }) date_only k h kept,
    bucket_after-total (λ b. b.input_tokens) (λ e. e.input_tokens)
        (record { starts = λ k. refl; grows = λ k e b. omega arith }) date_only k h kept,
    bucket_after-total (λ b. b.output_tokens) (λ e. e.output_tokens)
        (record { starts = λ k. refl; grows = λ k e b. omega arith }) date_only k h kept,
    bucket_after-total (λ b. b.cache_read_tokens) (λ e. e.cache_read_tokens)
        (record { starts = λ k. refl; grows = λ k e b. omega arith }) date_only k h kept,
    bucket_after-total (λ b. b.cache_write_tokens) (λ e. e.cache_write_tokens)
        (record { starts = λ k. refl; grows = λ k e b. omega arith }) date_only k h kept,
    bucket_after-total (λ b. b.cache_reported_requests) (λ e. one_if e.cache_read_reported 1)
        (record { starts = λ k. refl; grows = λ k e b. ground arith }) date_only k h kept,
    bucket_after-total (λ b. b.cache_reported_input_tokens)
        (λ e. one_if e.cache_read_reported e.input_tokens)
        (record { starts = λ k. refl; grows = λ k e b. ground arith }) date_only k h kept,
    bucket_after-total (λ b. b.estimated_requests) (λ e. one_if e.estimated 1)
        (record { starts = λ k. refl; grows = λ k e b. ground arith }) date_only k h kept,
  )
