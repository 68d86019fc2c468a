-- ===== src/Auth/Tokens.antt =====
-- internal/auth/auth.go: which headers open a key, and which keys no header opens.
use mathlib.Core.List.{map-append, reverse-append}
use smolllm_server.Base.{
  ℕ, ◌≡◌, zero, suc, ◌≢◌, ◌↔◌, refl, sym, ap, subst, ◌∙◌, true, none, [], ◌∷◌, ◌++◌, reverse, ◌==◌,
  ==_iff, text_eq, text_discrete, Text, codes, trim_space, trim_left, to_lower, lower, has_prefix,
  drop, length, length-map, is_space, arith, Solid, trim_space_idem, trim_space-Solid, Bool-cases,
  inl, inr,
}
use smolllm_server.Auth.{extract_token, check_token, check_key}

check_token_iff : (key token : Text) → (check_token key token ≡ none) ↔ ((token ≡ key) × (key ≢ []))
unfolding check_token text_discrete
check_token_iff key [] = (λ h. absurd (ground arith), λ h. absurd (h.1 (sym h.0)))
check_token_iff key (c ∷ token) = elim (Bool-cases ((c ∷ token) == key)) [
  | inl same ↦
      let e = (==_iff (c ∷ token) key).0 same in
      (λ h. (e, λ n. cc (e, n)), λ h. rw (same, check_token) refl)
  | inr other ↦ (
    λ h. absurd (ground (arith, rw (other, check_token) at h)),
    λ h. cc (other, (==_iff (c ∷ token) key).1 h.0),
  )
]

-- A request passes exactly if the token of its header is the key and is not empty.
pub check_key_iff :
    (key header : Text)
    → (check_key key header ≡ none) ↔ ((extract_token header ≡ key) × (key ≢ []))
unfolding check_key
check_key_iff key header = check_token_iff key (extract_token header)

extract_token-trimmed : (header : Text) → trim_space (extract_token header) ≡ extract_token header
unfolding extract_token
extract_token-trimmed header = elim (Bool-cases (trim_space header == [])) [
  | inl empty ↦ rw (empty, extract_token) (unfold trim_space trim_left in refl)
  | inr full ↦ elim (Bool-cases (has_prefix (to_lower (trim_space header)) (codes "bearer "))) [
    | inl scheme ↦ rw (full, scheme, extract_token) (trim_space_idem (drop 7 (trim_space header)))
    | inr bare ↦ rw (full, bare, extract_token) (trim_space_idem header)
  ]
]

-- A key with space at either end, or of nothing but space, is opened by no header at all.
pub untrimmed_key_refused : (key header : Text) → trim_space key ≢ key → check_key key header ≢ none
untrimmed_key_refused key header spaced pass =
    let (e, _) = (check_key_iff key header).0 pass in
    spaced (subst (λ t. trim_space t ≡ t) e (extract_token-trimmed header))

drop-append : (n : ℕ) (a b : Text) → length a ≡ n → drop n (a ++ b) ≡ b
drop-append zero [] b h = refl
drop-append zero (c ∷ a) b h = absurd (omega arith)
drop-append (suc n) [] b h = absurd (omega arith)
drop-append (suc n) (c ∷ a) b h = drop-append n a b (omega arith)

Solid-append : (a b : Text) → Solid a → Solid (a ++ b)
Solid-append [] b h = absurd h
Solid-append (c ∷ a) b h = h

has_prefix-append : (a b : Text) → has_prefix (a ++ b) a ≡ true
unfolding has_prefix
has_prefix-append [] b = refl
has_prefix-append (c ∷ a) b = ground (arith, has_prefix-append a b)

Solid-scheme : (scheme : Text) → to_lower scheme ≡ codes "bearer " → Solid scheme
unfolding to_lower lower is_space
Solid-scheme [] h = cc
Solid-scheme (c ∷ s) h = ground arith

length-scheme : (scheme : Text) → to_lower scheme ≡ codes "bearer " → length scheme ≡ 7
unfolding to_lower
length-scheme scheme h = sym (length-map lower scheme) ∙ ap length h

to_lower-append : (a b : Text) → to_lower (a ++ b) ≡ to_lower a ++ to_lower b
unfolding to_lower
to_lower-append a b = map-append lower a b

Solid-ne : (a : Text) → Solid a → a ≢ []
Solid-ne [] h = absurd h
Solid-ne (c ∷ a) h = λ e. cc

extract_token-bearer :
    (scheme key : Text)
    → to_lower scheme ≡ codes "bearer "
    → Solid key
    → Solid (reverse key)
    → extract_token (scheme ++ key) ≡ key
unfolding extract_token
extract_token-bearer scheme key s k r =
    let whole : trim_space (scheme ++ key) ≡ scheme ++ key =
      trim_space-Solid (scheme ++ key) (Solid-append scheme key (Solid-scheme scheme s)) (
        subst Solid (sym (reverse-append scheme key))
          (Solid-append (reverse key) (reverse scheme) r)) in
    let tagged : has_prefix (to_lower (scheme ++ key)) (codes "bearer ") ≡ true =
      ap (λ t. has_prefix t (codes "bearer "))
        (to_lower-append scheme key ∙ ap (λ t. t ++ to_lower key) s)
      ∙ has_prefix-append (codes "bearer ") (to_lower key) in
    let rest : drop 7 (scheme ++ key) ≡ key = drop-append 7 scheme key (length-scheme scheme s) in
    elim (Bool-cases (scheme ++ key == [])) [
      | inl empty ↦ absurd (
          Solid-ne (scheme ++ key) (Solid-append scheme key (Solid-scheme scheme s))
            ((==_iff (scheme ++ key) []).0 empty))
      | inr full ↦ rw (whole, full, tagged, rest, extract_token) (trim_space-Solid key k r)
    ]

-- A key that has no space at either end is opened by "Bearer " and the key, in any case of the
-- letters of "Bearer".
pub check_key-bearer :
    (scheme key : Text)
    → to_lower scheme ≡ codes "bearer "
    → Solid key
    → Solid (reverse key)
    → check_key key (scheme ++ key) ≡ none
check_key-bearer scheme key s k r =
    (check_key_iff key (scheme ++ key)).1 (extract_token-bearer scheme key s k r, Solid-ne key k)
