-- ===== src/Base/Trim.antt =====
-- `strings.TrimSpace` leaves no space at either end.
use mathlib.Core.Path.{◌≡◌, refl, sym, ap, subst, ◌∙◌}
use mathlib.Core.Logic.{◌⊎◌, inl, inr}
use mathlib.Core.Bool.{false}
use mathlib.Core.List.{[], ◌∷◌, ◌++◌, reverse, reverse-append, reverse-reverse}
use native.Mathlib.Omega.{arith}
use smolllm_server.Base.Tests.{Bool-cases}
use smolllm_server.Base.Strings.{Text, is_space, trim_left, trim_space}

-- the text begins with a character that is no space
abbrev pub Solid : Text → Type 0
Solid [] = ⊥
Solid (c ∷ s) = is_space c ≡ false

pub trim_left-Solid : (a b : Text) → Solid a → trim_left (a ++ b) ≡ a ++ b
unfolding trim_left
trim_left-Solid [] b h = absurd h
trim_left-Solid (c ∷ a) b h = ground arith

trim_left_cases : (s : Text) → (trim_left s ≡ []) ⊎ Solid (trim_left s)
unfolding trim_left
trim_left_cases [] = inl refl
trim_left_cases (c ∷ s) = elim (Bool-cases (is_space c)) [
  | inl space ↦ rw space (trim_left_cases s)
  | inr solid ↦ rw solid (inr solid)
]

trim_left-suffix : (s : Text) → (dropped : Text) × (s ≡ dropped ++ trim_left s)
unfolding trim_left
trim_left-suffix [] = ([], refl)
trim_left-suffix (c ∷ s) = elim (Bool-cases (is_space c)) [
  | inl space ↦ let (d, e) = trim_left-suffix s in (c ∷ d, rw space (ap (◌∷◌ c) e))
  | inr solid ↦ ([], rw solid)
]

-- empty, or with no space in front
abbrev Flush : Text → Type 0
Flush a = (a ≡ []) ⊎ Solid a

trim_left-Flush : (a : Text) → Flush a → trim_left a ≡ a
unfolding trim_left
trim_left-Flush [] h = refl
trim_left-Flush (c ∷ a) (inl e) = cc
trim_left-Flush (c ∷ a) (inr h) = rw h

Flush-prefix : (a b : Text) → Flush (a ++ b) → Flush a
Flush-prefix [] b h = inl refl
Flush-prefix (c ∷ a) b (inl e) = cc
Flush-prefix (c ∷ a) b (inr h) = inr h

Flush-reverse-trim_left : (u : Text) → Flush u → Flush (reverse (trim_left (reverse u)))
Flush-reverse-trim_left u h =
    let (d, e) = trim_left-suffix (reverse u) in
    let v = trim_left (reverse u) in
    let whole : u ≡ reverse v ++ reverse d =
      sym (reverse-reverse u) ∙ ap reverse e ∙ reverse-append d v in
    Flush-prefix (reverse v) (reverse d) (subst Flush whole h)

-- Trimming twice is trimming once.
pub trim_space_idem : (s : Text) → trim_space (trim_space s) ≡ trim_space s
unfolding trim_space
trim_space_idem s =
    let u = trim_left s in
    let v = trim_left (reverse u) in
    let front = trim_left-Flush (reverse v) (Flush-reverse-trim_left u (trim_left_cases s)) in
    let back = trim_left-Flush v (trim_left_cases (reverse u)) in
    ap (λ t. reverse (trim_left (reverse t))) front
    ∙ ap (λ t. reverse (trim_left t)) (reverse-reverse v)
    ∙ ap reverse back

-- A text with no space at either end is left as it is.
pub trim_space-Solid : (a : Text) → Solid a → Solid (reverse a) → trim_space a ≡ a
unfolding trim_space
trim_space-Solid a h k =
    ap (λ t. reverse (trim_left (reverse t))) (trim_left-Flush a (inr h))
    ∙ ap reverse (trim_left-Flush (reverse a) (inr k))
    ∙ reverse-reverse a
