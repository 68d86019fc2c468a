-- ===== src/Accounts/Labels.antt =====
-- internal/server/account_metrics.go: the labels of the counters can be read back, so the report of
-- a family does not depend on the order of the map.
use mathlib.Core.Logic.Or
use mathlib.Core.List.Perm
use mathlib.Core.List.{mem-cons, not-mem-nil}
use smolllm_server.Base.{
  ℕ, ◌≡◌, refl, ap, sym, ◌∙◌, Option, none, some, List, [], ◌∷◌, arith, Eq, ◌==◌, ==_iff, Text,
  codes, text_less_total, Dict, lookup, NodupKeys, Mem, Perm, sort_slice, sort_slice-perm,
  sort_slice-Ascending, Ascending, Ascending-eq_of_perm, Separates, by-IsOrder, Bool-cases, inl,
  inr,
}
use smolllm_server.Accounts.{TransitionKey, LegKey, SkipKey}
use smolllm_server.Accounts.Lines.{
  leg_labels, transition_labels, skip_labels, Series, series_less, series_of, sorted_series,
}
use smolllm_server.Metrics.Escape.{read_labels, read_labels-label}

abbrev account_heads : List Text → List Text
account_heads heads = codes "provider=\"" ∷ codes ",account=\"" ∷ heads

-- the labels of a leg are read as one text before the account and three behind it
abbrev leg_heads : List Text → List Text
leg_heads heads =
    codes "alias=\"" ∷ codes ",provider=\"" ∷ codes ",account=\"" ∷ codes ",model=\"" ∷ heads

abbrev values_of : Option (List Text × Text) → List Text
values_of none = []
values_of (some (vs, _)) = vs

read_labels-nil : read_labels [] [] ≡ some ([], [])
unfolding read_labels
read_labels-nil = refl

-- A reader gets back the labels of a transition, of a leg and of a skip.
pub read_labels-transition_labels :
    (k : TransitionKey)
    → read_labels (account_heads (codes ",transition=\"" ∷ [])) (transition_labels k)
      ≡ some (k.id.provider ∷ k.id.account ∷ k.transition ∷ [], [])
unfolding transition_labels
read_labels-transition_labels k =
    read_labels-label _ k.id.provider _ _
      (read_labels-label _ k.id.account _ _ (read_labels-label _ k.transition _ _ read_labels-nil))

read_labels-leg_labels :
    (k : LegKey) (rest : Text) (heads : List Text) {vs : List Text} {end : Text}
    → read_labels heads rest ≡ some (vs, end)
    → read_labels (leg_heads heads) (leg_labels k rest)
      ≡ some (k.alias ∷ k.id.provider ∷ k.id.account ∷ k.model ∷ vs, end)
unfolding leg_labels
read_labels-leg_labels k rest heads h = read_labels-label _ k.alias _ _ (
    read_labels-label (codes ",provider=\"") k.id.provider _ _
      (read_labels-label _ k.id.account _ _ (read_labels-label _ k.model _ _ h)))

read_labels-skip_labels :
    (k : SkipKey)
    → read_labels (leg_heads (codes ",reason=\"" ∷ [])) (skip_labels k)
      ≡ some (k.leg.alias ∷ k.leg.id.provider ∷ k.leg.id.account ∷ k.leg.model ∷ k.reason ∷ [], [])
unfolding skip_labels
read_labels-skip_labels k =
    read_labels-leg_labels k.leg _ _ (read_labels-label _ k.reason _ _ read_labels-nil)

-- A labelling from which the key can be read.
pub record IsLegible {ℓ} {K : Type ℓ} (labels : K → Text) : Type ℓ where
  pub decode : Text → Option K
  pub decodes : (k : K) → decode (labels k) ≡ some k

abbrev transition_key : List Text → Option TransitionKey
transition_key (p ∷ a ∷ t ∷ []) =
    some (record { id = record { provider = p; account = a }; transition = t })
transition_key _ = none

abbrev leg_key : List Text → Option LegKey
leg_key (l ∷ p ∷ a ∷ m ∷ []) =
    some (record { alias = l; id = record { provider = p; account = a }; model = m })
leg_key _ = none

abbrev skip_key : List Text → Option SkipKey
skip_key (l ∷ p ∷ a ∷ m ∷ r ∷ []) = some (record {
  leg = record { alias = l; id = record { provider = p; account = a }; model = m };
  reason = r;
})
skip_key _ = none

pub transition_labels-IsLegible : IsLegible transition_labels
transition_labels-IsLegible = record {
  decode =
      λ t. transition_key (values_of (read_labels (account_heads (codes ",transition=\"" ∷ [])) t));
  decodes = λ k. ap (λ r. transition_key (values_of r)) (read_labels-transition_labels k);
}

pub leg_labels-IsLegible : IsLegible (λ k. leg_labels k [])
leg_labels-IsLegible = record {
  decode = λ t. leg_key (values_of (read_labels (leg_heads []) t));
  decodes = λ k. ap (λ r. leg_key (values_of r)) (read_labels-leg_labels k [] [] read_labels-nil);
}

pub skip_labels-IsLegible : IsLegible skip_labels
skip_labels-IsLegible = record {
  decode = λ t. skip_key (values_of (read_labels (leg_heads (codes ",reason=\"" ∷ [])) t));
  decodes = λ k. ap (λ r. skip_key (values_of r)) (read_labels-skip_labels k);
}

found_set : IsSet (Option ℕ)
found_set = hlevel

module _ {ℓ} {K : Type ℓ} ⦃e : Eq K⦄ (labels : K → Text) (legible : IsLegible labels) where
  abbrev found : Option K → Dict K ℕ → Option ℕ
  found none m = none
  found (some k) m = lookup k m

  found-here :
      (k : K) (v : ℕ) (m : Dict K ℕ) → found (legible.decode (labels k)) ((k, v) ∷ m) ≡ some v
  unfolding lookup
  found-here k v m = rw (legible.decodes k) (ground arith)

  found-later :
      (o : Option K) (k : K) (v n : ℕ) (m : Dict K ℕ)
      → lookup k m ≡ none
      → found o m ≡ some n
      → found o ((k, v) ∷ m) ≡ some n
  unfolding lookup
  found-later none k v n m fresh h = cc
  found-later (some j) k v n m fresh h = elim (Bool-cases (k == j)) [
    | inl same ↦ absurd (ground (arith, (==_iff k j).0 same))
    | inr different ↦ rw different h
  ]

  found-series_of :
      (m : Dict K ℕ)
      → NodupKeys m
      → (a : Series) → Mem a (series_of labels m)
      → found (legible.decode a.labels) m ≡ some a.value
  found-series_of [] _ a h = absurd (not-mem-nil h)
  found-series_of ((k, v) ∷ m) (fresh, u) a h =
      Or.elim (found_set _ _) (mem-cons.0 h) (λ q. rw q (found-here k v m))
        (λ later.
          found-later (legible.decode a.labels) k v a.value m fresh (found-series_of m u a later))

  series_of-Separates : (m : Dict K ℕ) → NodupKeys m → Separates series_less (series_of labels m)
  series_of-Separates m u a b ma mb p q =
      let same = text_less_total a.labels b.labels p q in
      let value : some a.value ≡ some b.value =
        sym (found-series_of m u a ma)
        ∙ ap (λ t. found (legible.decode t) m) same
        ∙ found-series_of m u b mb in
      cc (same, value)

  -- If a key can be read from its labels, then the rows of a family are the counters of the map, in
  -- ascending order of their labels, whatever the order of the map: every ascending arrangement of
  -- them is the one that is reported.
  pub sorted_series_unique :
      (m : Dict K ℕ)
      → NodupKeys m
      → (arranged : List Series) → Perm arranged (series_of labels m)
      → Ascending series_less arranged
      → arranged ≡ sorted_series labels m
  unfolding sorted_series
  sorted_series_unique m u arranged p asc =
      let o = by-IsOrder (λ (s : Series). s.labels) in
      let sep : Separates series_less arranged =
        λ a b ma mb. series_of-Separates m u a b ((Perm.mem_iff p).0 ma) ((Perm.mem_iff p).0 mb) in
      Ascending-eq_of_perm series_less o arranged (sort_slice series_less (series_of labels m)) sep
        asc (sort_slice-Ascending series_less o (series_of labels m))
        (Perm.trans p (Perm.symm (sort_slice-perm series_less (series_of labels m))))
