-- ===== src/Metrics/Escape.antt =====
-- internal/server/metrics.go: a reader of the text format gets back the labels that were written.
use smolllm_server.Base.{
  ℕ, ◌≡◌, refl, ap, sym, ◌∙◌, Bool, true, false, Option, none, some, List, [], ◌∷◌, ◌++◌,
  if◌then◌else◌, eqb, Text, contains_any, arith, append_assoc, Bool-cases, inl, inr,
}
use smolllm_server.Metrics.{
  backslash, quote, newline, special_chars, escape_char, replaced, escape_label, label,
}

abbrev push : ℕ → Option (Text × Text) → Option (Text × Text)
push c none = none
push c (some (v, rest)) = some (c ∷ v, rest)

-- How the text format is read from behind an opening quote: the value up to the closing quote, and
-- the text behind it. The flag says that a backslash came before.
unfoldable pub read_value : Bool → Text → Option (Text × Text)
read_value escaped [] = none
read_value true (c ∷ s) =
    let rest = read_value false s in if eqb c b'n' then push newline rest else push c rest
read_value false (c ∷ s) =
    let plain = read_value false s in
    let escape = read_value true s in
    if eqb c quote then some ([], s) else if eqb c backslash then escape else push c plain

read_value-escape_char :
    (c : ℕ) (s : Text) → read_value false (escape_char c ++ s) ≡ push c (read_value false s)
unfolding read_value escape_char
read_value-escape_char c s = ground arith

read_value-replaced :
    (v rest : Text) → read_value false (replaced v ++ (quote ∷ rest)) ≡ some (v, rest)
unfolding replaced
read_value-replaced [] rest = unfold read_value in refl
read_value-replaced (c ∷ v) rest =
    ap (read_value false) (append_assoc (escape_char c) (replaced v) (quote ∷ rest))
    ∙ read_value-escape_char c (replaced v ++ (quote ∷ rest))
    ∙ ap (push c) (read_value-replaced v rest)

replaced_plain : (v : Text) → contains_any v special_chars ≡ false → replaced v ≡ v
unfolding replaced contains_any escape_char
replaced_plain [] h = refl
replaced_plain (c ∷ v) h = ground (arith, replaced_plain v)

-- The shortcut for texts without special characters makes no difference.
pub escape_label-replaced : (v : Text) → escape_label v ≡ replaced v
unfolding escape_label
escape_label-replaced v = elim (Bool-cases (contains_any v special_chars)) [
  | inl special ↦ rw special
  | inr plain ↦ rw plain (sym (replaced_plain v plain))
]

-- Whatever a label's value holds and whatever follows it, a reader gets back exactly the value and
-- what follows.
pub read_value-escape_label :
    (v rest : Text) → read_value false (escape_label v ++ (quote ∷ rest)) ≡ some (v, rest)
read_value-escape_label v rest =
    ap (λ t. read_value false (t ++ (quote ∷ rest))) (escape_label-replaced v)
    ∙ read_value-replaced v rest

unfoldable pub strip_prefix : Text → Text → Option Text
strip_prefix [] s = some s
strip_prefix (p ∷ ps) [] = none
strip_prefix (p ∷ ps) (c ∷ s) = let rest = strip_prefix ps s in if eqb p c then rest else none

strip_prefix-append : (p s : Text) → strip_prefix p (p ++ s) ≡ some s
unfolding strip_prefix
strip_prefix-append [] s = refl
strip_prefix-append (c ∷ p) s = ground (arith, strip_prefix-append p s)

-- The values of some labels, by the texts that stand before them.
unfoldable pub read_labels : List Text → Text → Option (List Text × Text)
read_labels [] s = some ([], s)
read_labels (head ∷ heads) s = elim (strip_prefix head s) [
  | none ↦ none
  | some t ↦ elim (read_value false t) [
    | none ↦ none
    | some (v, rest) ↦ elim (read_labels heads rest) [
      | none ↦ none
      | some (vs, end) ↦ some (v ∷ vs, end)
    ]
  ]
]

-- one more label in front of labels that are read back
pub read_labels-label :
    (head v rest : Text) (heads : List Text) {vs : List Text} {end : Text}
    → read_labels heads rest ≡ some (vs, end)
    → read_labels (head ∷ heads) (label head v rest) ≡ some (v ∷ vs, end)
unfolding read_labels
read_labels-label head v rest heads h = rw (
  strip_prefix-append head (escape_label v ++ (quote ∷ rest)),
  read_value-escape_label v rest,
  h,
  read_labels,
)
