-- ===== src/Ledger/Invariant.antt =====
-- What every operation of the ledger (ledger.go) keeps: one entry for each key, buckets filed under
-- their own labels with partial counts below the whole, and histograms that add up.
use smolllm_server.Base.{
  ℕ, ◌+◌, ◌-◌, ◌<◌, ◌≤◌, ◌≡◌, refl, ◌∙◌, Bool, not, ◌&&◌, List, [], ◌∷◌, arith, Eq, ◌==◌, Text,
  text_less, Dict, lookup, insert, retain, NodupKeys, insert-NodupKeys, retain-NodupKeys, length,
  ==_iff, Bool-cases, inl, inr, ltb, text_eq,
}
use smolllm_server.Ledger.{
  add_event, bucket_key, record_attempt, record_event, prune, snapshot, observe, count_wait,
  new_hist, attempt_key, first_output_key, classify,
}
use smolllm_server.Stats.{
  Ledger, Bucket, BucketKey, Hist, bucket_key_eq, attempt_key_eq, first_output_key_eq, new, get_or,
  empty_bucket, first_output_bounds, outcome_ok, retention,
}
use smolllm_server.Ledger.Histogram.{sum_of, length-count_wait}
use smolllm_server.Upstream.{RequestEvent}

pub record BucketFits (k : BucketKey) (b : Bucket) : Type 0 where
  pub day_is : b.day ≡ k.day
  pub alias_is : b.alias ≡ k.alias
  pub provider_is : b.provider ≡ k.provider
  pub model_is : b.model ≡ k.model
  pub failures_le : b.failures ≤ b.requests
  pub reported_le : b.cache_reported_requests ≤ b.requests
  pub estimated_le : b.estimated_requests ≤ b.requests
  pub reported_tokens_le : b.cache_reported_input_tokens ≤ b.input_tokens

pub record HistFits (h : Hist) : Type 0 where
  pub length_is : length h.counts ≡ 10
  pub adds_up : sum_of h.counts ≡ h.count

-- A property of every entry of a map.
abbrev pub Entries {ℓ κ} : {K : Type ℓ} {V : Type κ} → (K → V → Type 0) → Dict K V → Type 0
Entries P [] = Unit
Entries P ((k, v) ∷ m) = P k v × Entries P m

pub record IsValid (l : Ledger) : Type 0 where
  pub buckets_nodup : NodupKeys l.buckets
  pub attempts_nodup : NodupKeys l.attempts
  pub first_output_nodup : NodupKeys l.first_output
  pub buckets_fit : Entries BucketFits l.buckets
  pub hists_fit : Entries (λ _ h. HistFits h) l.first_output

module _ {ℓ κ} {K : Type ℓ} {V : Type κ} ⦃e : Eq K⦄ (P : K → V → Type 0) where
  Entries-insert : (k : K) (v : V) (m : Dict K V) → P k v → Entries P m → Entries P (insert k v m)
  unfolding insert
  Entries-insert k v [] p h = (p, tt)
  Entries-insert k v ((j, w) ∷ m) p (q, h) = ground (arith, Entries-insert k v m p h)

  Entries-retain : (keep : K → Bool) (m : Dict K V) → Entries P m → Entries P (retain keep m)
  unfolding retain
  Entries-retain keep [] h = tt
  Entries-retain keep ((j, w) ∷ m) (q, h) = ground (arith, Entries-retain keep m h)

  Entries-lookup :
      (k : K) (m : Dict K V) (d : V) → P k d → Entries P m → P k (get_or (lookup k m) d)
  unfolding lookup
  Entries-lookup k [] d p h = p
  Entries-lookup k ((j, w) ∷ m) d p (q, h) = elim (Bool-cases (j == k)) [
    | inl same ↦ rw same (rw ((==_iff j k).0 same) at q)
    | inr other ↦ rw other (Entries-lookup k m d p h)
  ]

add_event-BucketFits :
    (k : BucketKey) (e : RequestEvent) (b : Bucket)
    → BucketFits k b
    → BucketFits k (add_event k e b)
unfolding add_event
add_event-BucketFits k e b f = ground arith

empty_bucket-BucketFits : (k : BucketKey) → BucketFits k (empty_bucket k)
empty_bucket-BucketFits k = ground arith

sum_of-count_wait :
    (bs : List ℕ) (w : ℕ) (cs : List ℕ)
    → length bs < length cs
    → sum_of (count_wait bs w cs) ≡ sum_of cs + 1
unfolding count_wait sum_of
sum_of-count_wait bs w [] h = elim h [ ]
sum_of-count_wait [] w (c ∷ cs) h = omega arith
sum_of-count_wait (b ∷ bs) w (c ∷ cs) h = ground (arith, sum_of-count_wait bs w cs (omega arith))

observe-HistFits : (w : ℕ) (h : Hist) → HistFits h → HistFits (observe w h)
unfolding observe
observe-HistFits w h f = record {
  length_is = length-count_wait first_output_bounds w h.counts ∙ f.length_is;
  adds_up = omega (
    arith,
    sum_of-count_wait first_output_bounds w h.counts (omega (arith, f.length_is)),
    f.adds_up,
  );
}

new_hist-HistFits : HistFits new_hist
unfolding sum_of
new_hist-HistFits = record { length_is = refl; adds_up = refl }

record_attempt-IsValid :
    (alias : Text) (e : RequestEvent) (l : Ledger) → IsValid l → IsValid (record_attempt alias e l)
unfolding record_attempt
record_attempt-IsValid alias e l v =
    let k = attempt_key alias e in
    let n : ℕ = get_or (lookup k l.attempts) 0 + 1 in
    let fk = first_output_key alias e in
    let h = observe e.ttft (get_or (lookup fk l.first_output) new_hist) in
    let h_fits = observe-HistFits e.ttft _ (
      Entries-lookup (λ _ h. HistFits h) fk l.first_output new_hist new_hist-HistFits
        v.hists_fit) in
    let attempts_nodup = insert-NodupKeys k n l.attempts v.attempts_nodup in
    elim (Bool-cases ((classify e).0 == outcome_ok && ltb 0 e.ttft)) [
      | inl counted ↦ rw counted (record {
        buckets_nodup = v.buckets_nodup;
        attempts_nodup = attempts_nodup;
        first_output_nodup = insert-NodupKeys fk h l.first_output v.first_output_nodup;
        buckets_fit = v.buckets_fit;
        hists_fit = Entries-insert (λ _ h. HistFits h) fk h l.first_output h_fits v.hists_fit;
      })
      | inr other ↦ rw other (record {
        buckets_nodup = v.buckets_nodup;
        attempts_nodup = attempts_nodup;
        first_output_nodup = v.first_output_nodup;
        buckets_fit = v.buckets_fit;
        hists_fit = v.hists_fit;
      })
    ]

module _ (date_only : ℕ → Text) (now : ℕ) where
  prune-IsValid : (l : Ledger) → IsValid l → IsValid (prune date_only now l)
  unfolding prune
  prune-IsValid l v =
      let keep = λ (key : BucketKey). not (text_less key.day (date_only (now - retention))) in
      record {
        buckets_nodup = retain-NodupKeys keep l.buckets v.buckets_nodup;
        attempts_nodup = v.attempts_nodup;
        first_output_nodup = v.first_output_nodup;
        buckets_fit = Entries-retain BucketFits keep l.buckets v.buckets_fit;
        hists_fit = v.hists_fit;
      }

  -- The state with its report keeps the invariant too: `Snapshot` prunes.
  pub snapshot-IsValid : (l : Ledger) → IsValid l → IsValid (snapshot date_only now l).0
  unfolding snapshot
  snapshot-IsValid l v = prune-IsValid l v

  -- `Record` keeps the ledger valid: one entry for each key; each bucket under its own day, alias,
  -- provider and model, with no more failures, cache reports or estimates than requests and no more
  -- cache-reported input tokens than input tokens; each histogram with ten counts that add up to
  -- its count.
  pub record_event-IsValid :
      (alias : Text) (e : RequestEvent) (l : Ledger)
      → IsValid l
      → IsValid (record_event date_only now alias e l)
  unfolding record_event
  record_event-IsValid alias e l v =
      let counted = record_attempt alias e l in
      let w = record_attempt-IsValid alias e l v in
      let key = bucket_key date_only alias e in
      let b = add_event key e (get_or (lookup key l.buckets) (empty_bucket key)) in
      let fits = add_event-BucketFits key e _ (
        Entries-lookup BucketFits key l.buckets (empty_bucket key) (empty_bucket-BucketFits key)
          v.buckets_fit) in
      prune-IsValid (record counted { buckets = insert key b counted.buckets })
        (record {
          buckets_nodup = insert-NodupKeys key b counted.buckets w.buckets_nodup;
          attempts_nodup = w.attempts_nodup;
          first_output_nodup = w.first_output_nodup;
          buckets_fit = Entries-insert BucketFits key b counted.buckets fits w.buckets_fit;
          hists_fit = w.hists_fit;
        })

pub new-IsValid : IsValid new
new-IsValid = record {
  buckets_nodup = tt;
  attempts_nodup = tt;
  first_output_nodup = tt;
  buckets_fit = tt;
  hists_fit = tt;
}
