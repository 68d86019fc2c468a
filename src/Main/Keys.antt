-- ===== src/Main/Keys.antt =====
-- cmd/server/main.go: `maskKey` and `parseLevel` against what they promise.
use smolllm_server.Base.{
  ℕ, zero, suc, ◌+◌, ◌-◌, ◌<◌, ◌≡◌, ◌↔◌, refl, true, some, List, [], ◌∷◌, ◌++◌, arith, length, drop,
  replicate, get_elem?, leb, Text, codes, text_eq, to_lower, length-append, length-replicate,
  Bool-cases, inl, inr,
}
use smolllm_server.Config.{known_level}
use smolllm_server.Main.{mask_key, parse_level, debug, info, error}

get_elem?-replicate :
    (n i a : ℕ) (rest : List ℕ) → i < n → get_elem? (replicate n a ++ rest) i ≡ some a
get_elem?-replicate zero i a rest h = elim h [ ]
get_elem?-replicate (suc n) zero a rest h = refl
get_elem?-replicate (suc n) (suc i) a rest h = get_elem?-replicate n i a rest (omega arith)

length-drop : (n : ℕ) (xs : List ℕ) → length (drop n xs) ≡ length xs - n
length-drop zero xs = omega arith
length-drop (suc n) [] = omega arith
length-drop (suc n) (x ∷ xs) = omega (arith, length-drop n xs)

-- A masked key of more than two bytes is as long as the key, and every byte but the first and the
-- last is a star.
pub mask_key-get_elem? :
    (k : List ℕ)
    → 2 < length k
    → (i : ℕ) → 0 < i
    → i + 1 < length k
    → (length (mask_key k) ≡ length k) × (get_elem? (mask_key k) i ≡ some b'*')
unfolding mask_key
mask_key-get_elem? [] h i p q = absurd (omega arith)
mask_key-get_elem? (c ∷ k) h zero p q = absurd (omega arith)
mask_key-get_elem? (c ∷ k) h (suc i) p q = elim (Bool-cases (leb (length (c ∷ k)) 2)) [
  | inl short ↦ absurd (ground arith)
  | inr long ↦
      let n = length (c ∷ k) in
      let star : ℕ = b'*' in
      rw long (
        omega (
          arith,
          length-append {0} (replicate (n - 2) star) (drop (n - 1) (c ∷ k)),
          length-replicate {0} (n - 2) star,
          length-drop (n - 1) (c ∷ k),
        ),
        get_elem?-replicate (n - 2) i b'*' (drop (n - 1) (c ∷ k)) (omega arith),
      )
]

-- Of the levels that `Validate` accepts, `parseLevel` maps each to the level it names, whatever its
-- case, and takes none but "info" for its default.
pub parse_level-known_level :
    (level : Text)
    → known_level level ≡ true
    → ((parse_level level ≡ debug) ↔ (to_lower level ≡ codes "debug"))
      × ((parse_level level ≡ info) ↔ (to_lower level ≡ codes "info"))
      × ((parse_level level ≡ error) ↔ (to_lower level ≡ codes "error"))
unfolding parse_level known_level
parse_level-known_level level h = ground arith
