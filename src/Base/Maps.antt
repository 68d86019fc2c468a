-- ===== src/Base/Maps.antt =====
-- Go maps as association lists. The order of the entries stands for the iteration order.
use mathlib.Core.Path.{◌≡◌, refl}
use mathlib.Core.Logic.{◌≢◌}
use mathlib.Core.Bool.{Bool}
use mathlib.Core.Option.{Option, none, some}
use mathlib.Core.List.{List, [], ◌∷◌}
use native.Mathlib.Omega.{arith}
use smolllm_server.Base.Tests.{if◌then◌else◌}
use smolllm_server.Base.Equality.{Eq, ◌==◌}

abbrev pub Dict {ℓ κ} : Type ℓ → Type κ → Type (ℓ ⊔ κ)
Dict K V = List (K × V)

module _ {ℓ κ} {K : Type ℓ} {V : Type κ} ⦃e : Eq K⦄ where
  unfoldable pub lookup : K → Dict K V → Option V
  lookup k [] = none
  lookup k ((j, v) ∷ m) = if j == k then some v else lookup k m

  -- `m[k] = v`
  unfoldable pub insert : K → V → Dict K V → Dict K V
  insert k v [] = (k, v) ∷ []
  insert k v ((j, w) ∷ m) = if j == k then (k, v) ∷ m else (j, w) ∷ insert k v m

  -- `delete(m, k)` for every key that fails a test
  unfoldable pub retain : (K → Bool) → Dict K V → Dict K V
  retain keep [] = []
  retain keep ((j, w) ∷ m) = let rest = retain keep m in if keep j then (j, w) ∷ rest else rest

  abbrev pub NodupKeys : Dict K V → Type κ
  NodupKeys [] = Unit
  NodupKeys ((k, _) ∷ m) = (lookup k m ≡ none) × NodupKeys m

  pub lookup-insert :
      (j k : K) (v : V) (m : Dict K V)
      → lookup j (insert k v m) ≡ (if k == j then some v else lookup j m)
  unfolding lookup insert
  lookup-insert j k v [] = refl
  lookup-insert j k v ((i, w) ∷ m) = ground (arith, lookup-insert j k v m)

  pub lookup-insert_self : (k : K) (v : V) (m : Dict K V) → lookup k (insert k v m) ≡ some v
  lookup-insert_self k v m = ground (arith, lookup-insert k k v m)

  pub lookup-insert_ne :
      (j k : K) (v : V) (m : Dict K V) → k ≢ j → lookup j (insert k v m) ≡ lookup j m
  lookup-insert_ne j k v m ne = ground (arith, lookup-insert j k v m)

  pub lookup-retain :
      (keep : K → Bool) (j : K) (m : Dict K V)
      → lookup j (retain keep m) ≡ (if keep j then lookup j m else none)
  unfolding lookup retain
  lookup-retain keep j [] = ground arith
  lookup-retain keep j ((i, w) ∷ m) = ground (arith, lookup-retain keep j m)

  pub insert-NodupKeys : (k : K) (v : V) (m : Dict K V) → NodupKeys m → NodupKeys (insert k v m)
  unfolding insert lookup
  insert-NodupKeys k v [] _ = (refl, tt)
  insert-NodupKeys k v ((j, w) ∷ m) (fresh, u) =
      ground (arith, insert-NodupKeys k v m u, lookup-insert j k v m)

  pub retain-NodupKeys : (keep : K → Bool) (m : Dict K V) → NodupKeys m → NodupKeys (retain keep m)
  unfolding retain
  retain-NodupKeys keep [] _ = tt
  retain-NodupKeys keep ((j, w) ∷ m) (fresh, u) =
      ground (arith, retain-NodupKeys keep m u, lookup-retain keep j m)
