-- ===== src/Base/Equality.antt =====
-- Go's `==` on comparable types: an instance for every type whose equality is decided.
use Prim.Native.Nat.{ℕ}
use mathlib.Core.Path.{◌≡◌, refl, ap₂}
use mathlib.Core.Logic.{ite, dite, ◌≢◌, ◌↔◌}
use mathlib.Core.Bool.{Bool, true, false, Bool-discrete}
use mathlib.Core.List.{List, [], ◌∷◌}
use native.Mathlib.Decide.{ℕ_discrete}
use native.Mathlib.Omega.{arith}

pub record Eq {ℓ} (A : Type ℓ) : Type ℓ where
  pub dec : Discrete A

unfoldable pub text_discrete : Discrete (List ℕ)
unfolding ℕ_discrete
text_discrete [] [] = yes refl
text_discrete [] (d ∷ b) = no (λ e. cc)
text_discrete (c ∷ a) [] = no (λ e. cc)
text_discrete (c ∷ a) (d ∷ b) =
    let rest = text_discrete a b in
    dite (ℕ_discrete c d) (λ p. dite rest (λ q. yes (ap₂ ◌∷◌ p q)) (λ n. no (λ e. n (cc))))
      (λ n. no (λ e. n (cc)))

instance abbrev pub nat_eq : Eq ℕ
nat_eq = record { dec = ℕ_discrete }

instance abbrev pub bool_eq : Eq Bool
bool_eq = record { dec = Bool-discrete }

instance abbrev pub text_eq : Eq (List ℕ)
text_eq = record { dec = text_discrete }

module _ {ℓ} {A : Type ℓ} ⦃e : Eq A⦄ where
  infix 50 ◌==◌
  abbrev pub ◌==◌ : A → A → Bool
  a == b = ite (e.dec a b) true false

  pub ==_iff : (a b : A) → ((a == b) ≡ true) ↔ (a ≡ b)
  ==_iff a b = ground arith

  pub ==_refl : (a : A) → (a == a) ≡ true
  ==_refl a = ground arith

  pub ==_ne : (a b : A) → a ≢ b → (a == b) ≡ false
  ==_ne a b ne = ground (arith, ==_iff a b, ne)
