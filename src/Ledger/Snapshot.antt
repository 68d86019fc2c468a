-- ===== src/Ledger/Snapshot.antt =====
-- The reports of the ledger (ledger.go): `Snapshot` does not depend on the iteration order of the
-- map nor on how `sort.Slice` arranges equal elements, and `Attempts` does.
use mathlib.Core.Logic.Or
use mathlib.Core.List.Perm
use mathlib.Core.List.{mem-cons, not-mem-nil}
use smolllm_server.Base.{
  ℕ, ◌≡◌, ◌≢◌, ap, false, Option, none, some, List, [], ◌∷◌, arith, ◌==◌, ==_iff, text_eq, Text,
  text_less_total, text_less_irrefl, Dict, lookup, NodupKeys, Mem, Perm, sort_slice,
  sort_slice-perm, sort_slice-Ascending, Ascending, Ascending-eq_of_perm, Separates, IsOrder,
  by-IsOrder, order_by-IsOrder, Bool-cases, inl, inr,
}
use smolllm_server.Ledger.{prune, snapshot, values, bucket_less, attempt_counts}
use smolllm_server.Stats.{Ledger, Bucket, BucketKey, bucket_key_eq, AttemptKey, attempt_key_eq}
use smolllm_server.Ledger.Invariant.{IsValid, BucketFits, Entries, snapshot-IsValid}

bucket_less-IsOrder : IsOrder bucket_less
bucket_less-IsOrder =
    order_by-IsOrder (λ b. b.day)
      (order_by-IsOrder (λ b. b.alias)
        (order_by-IsOrder (λ b. b.provider) (by-IsOrder (λ b. b.model))))

abbrev key_of : Bucket → BucketKey
key_of b = record { day = b.day; alias = b.alias; provider = b.provider; model = b.model }

Bucket-set : IsSet Bucket
Bucket-set = hlevel

found_set : IsSet (Option Bucket)
found_set = hlevel Bucket-set

lookup-cons_self :
    (k : BucketKey) (v : Bucket) (m : Dict BucketKey Bucket)
    → BucketFits k v
    → lookup (key_of v) ((k, v) ∷ m) ≡ some v
unfolding lookup
lookup-cons_self k v m f = ground arith

lookup-cons_later :
    (k j : BucketKey) (v a : Bucket) (m : Dict BucketKey Bucket)
    → lookup k m ≡ none
    → lookup j m ≡ some a
    → lookup j ((k, v) ∷ m) ≡ some a
lookup-cons_later k j v a m fresh h =
    unfold lookup in
    elim (Bool-cases (k == j)) [ inl same ↦ cc ((==_iff k j).0 same) | inr other ↦ rw other h ]

lookup-values :
    (m : Dict BucketKey Bucket)
    → NodupKeys m
    → Entries BucketFits m
    → (a : Bucket) → Mem a (values m)
    → lookup (key_of a) m ≡ some a
lookup-values [] _ _ a h = absurd (not-mem-nil h)
lookup-values ((k, v) ∷ m) (fresh, u) (f, fs) a h =
    Or.elim (found_set _ _) (mem-cons.0 h) (λ e. rw e (lookup-cons_self k v m f))
      (λ later. lookup-cons_later k (key_of a) v a m fresh (lookup-values m u fs a later))

same_key : (a b : Bucket) → bucket_less a b ≡ false → bucket_less b a ≡ false → key_of a ≡ key_of b
same_key a b p q = ground (
  arith,
  text_less_total a.day b.day,
  text_less_total a.alias b.alias,
  text_less_total a.provider b.provider,
  text_less_total a.model b.model,
)

values-Separates :
    (m : Dict BucketKey Bucket)
    → NodupKeys m
    → Entries BucketFits m
    → Separates bucket_less (values m)
values-Separates m u f a b ma mb p q =
    let e = same_key a b p q in
    cc (lookup-values m u f a ma, lookup-values m u f b mb, ap (λ k. lookup k m) e)

module _ (date_only : ℕ → Text) (now : ℕ) (l : Ledger) where
  -- The report of `Snapshot` holds exactly the buckets that the ledger keeps, each once, in
  -- ascending order of day, alias, provider and model.
  pub snapshot-Ascending :
      Perm (snapshot date_only now l).1 (values (snapshot date_only now l).0.buckets)
      × Ascending bucket_less (snapshot date_only now l).1
  unfolding snapshot
  snapshot-Ascending = (
    sort_slice-perm bucket_less (values (prune date_only now l).buckets),
    sort_slice-Ascending bucket_less bucket_less-IsOrder (values (prune date_only now l).buckets),
  )

  -- The report of a valid ledger does not depend on the order in which Go walks the map, nor on how
  -- it sorts: any ascending arrangement of the kept buckets is the report.
  pub snapshot_unique :
      IsValid l
      → (arranged : List Bucket) → Perm arranged (values (snapshot date_only now l).0.buckets)
      → Ascending bucket_less arranged
      → arranged ≡ (snapshot date_only now l).1
  snapshot_unique v arranged p asc =
      let w = snapshot-IsValid date_only now l v in
      let kept = values (snapshot date_only now l).0.buckets in
      let sep : Separates bucket_less arranged = λ a b ma mb.
        values-Separates (snapshot date_only now l).0.buckets w.buckets_nodup w.buckets_fit a b
          ((Perm.mem_iff p).0 ma) ((Perm.mem_iff p).0 mb) in
      Ascending-eq_of_perm bucket_less bucket_less-IsOrder arranged _ sep asc snapshot-Ascending.1
        (Perm.trans p (Perm.symm snapshot-Ascending.0))

-- Two counters that differ, in the provider or the transport mode at least, but agree on alias,
-- model, outcome and phase are reported by `Attempts` in the order in which the map is walked: two
-- orders of walking one map give two different reports.
pub attempt_counts_order :
    (j k : AttemptKey) (m n : ℕ) (l : Ledger)
    → j ≢ k
    → j.alias ≡ k.alias
    → j.model ≡ k.model
    → j.outcome ≡ k.outcome
    → j.phase ≡ k.phase
    → attempt_counts (record l { attempts = (j, m) ∷ (k, n) ∷ [] })
      ≢ attempt_counts (record l { attempts = (k, n) ∷ (j, m) ∷ [] })
unfolding attempt_counts sort_slice
attempt_counts_order j k m n l ne a o c p =
    ground (arith, text_less_irrefl j.phase, text_less_irrefl k.phase)
