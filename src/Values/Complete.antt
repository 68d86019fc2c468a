-- ===== src/Values/Complete.antt =====
-- internal/llm/adapter.go: `valueSubset` against what each part of a value owes to the part in its
-- place.
use smolllm_server.Base.{
  ℕ, suc, ◌≡◌, ◌↔◌, refl, ap, sym, ◌∙◌, true, Option, none, some, List, [], ◌∷◌, arith, subst, ◌==◌,
  ==_iff, ==_refl, text_eq, bool_eq, Text, Bool-cases, inl, inr, &&_intro,
}
use smolllm_server.Json.{
  Json, null, bool, num, str, arr, obj, Items, nil, cons, Members, end, member,
}
use smolllm_server.Values.{get, scalar_eq, value_subset, items_subset, members_subset}
use smolllm_server.Values.Paths.{
  Step, key, index, count_items, shape, item_at, part_at, reach, shape_at, Keeps, Survives,
  Distinct, DistinctItems, DistinctMembers, value_subset-Survives,
}

-- what a part owes to a part in its place
abbrev Owes : Option Json → Option Json → Type 0
Owes o q = (p : List Step) → Keeps (reach (shape_at p) o) (reach (shape_at p) q)

abbrev Covers : Members → Members → Type 0
Covers ws gs = (k : Text) → Owes (get k ws) (get k gs)

abbrev CoversItems : Items → Items → Type 0
CoversItems ws gs = (i : ℕ) → Owes (item_at i ws) (item_at i gs)

Owes-some :
    (w : Json) (q : Option Json) → Owes (some w) q → (g : Json) × (q ≡ some g) × Survives w g
unfolding shape_at
Owes-some w none h = absurd (ground (arith, h []))
Owes-some w (some g) h = (g, refl, h)

get-here : (k : Text) (w : Json) (ws : Members) → get k (member k w ws) ≡ some w
unfolding get
get-here k w ws = rw (==_refl k) refl

Covers-tail :
    (k : Text) (w : Json) (ws gs : Members)
    → get k ws ≡ none
    → Covers (member k w ws) gs
    → Covers ws gs
Covers-tail k w ws gs fresh h j = elim (Bool-cases (k == j)) [
  | inl same ↦
      let gone : get j ws ≡ none = ap (λ i. get i ws) (sym ((==_iff k j).0 same)) ∙ fresh in
      subst (λ o. Owes o (get j gs)) (sym gone) (λ p. tt)
  | inr other ↦
      let past : get j (member k w ws) ≡ get j ws = unfold get in rw other refl in
      subst (λ o. Owes o (get j gs)) past (h j)
]

mutual
  unfolding value_subset shape shape_at part_at item_at count_items scalar_eq Distinct

  complete : (w g : Json) → Distinct w → Survives w g → value_subset w g ≡ true
  complete (obj ws) (obj gs) d h = complete_members ws gs d (λ k p. h (key k ∷ p))
  complete (obj ws) g d h = cc (h [])
  complete (arr ws) (arr gs) d h = complete_items ws gs d (cc (h [])) (λ i p. h (index i ∷ p))
  complete (arr ws) g d h = cc (h [])
  complete null null d h = refl
  complete null g d h = cc (h [])
  complete (bool a) (bool b) d h = (==_iff a b).1 (cc (h []))
  complete (bool a) g d h = cc (h [])
  complete (num a) (num b) d h = (==_iff a b).1 (cc (h []))
  complete (num a) g d h = cc (h [])
  complete (str a) (str b) d h = (==_iff a b).1 (cc (h []))
  complete (str a) g d h = cc (h [])

  complete_items :
      (ws gs : Items)
      → DistinctItems ws
      → count_items ws ≡ count_items gs
      → CoversItems ws gs
      → items_subset ws gs ≡ true
  complete_items nil nil d e h = refl
  complete_items nil (cons g gs) d e h = absurd (omega arith)
  complete_items (cons w ws) nil d e h = absurd (omega arith)
  complete_items (cons w ws) (cons g gs) (d, ds) e h =
      &&_intro (complete w g d (h 0)) (complete_items ws gs ds (omega arith) (λ i p. h (suc i) p))

  complete_members :
      (ws gs : Members) → DistinctMembers ws → Covers ws gs → members_subset ws gs ≡ true
  complete_members end gs d h = refl
  complete_members (member k w ws) gs (fresh, d, ds) h =
      let (g, found, here) =
        Owes-some w (get k gs) (subst (λ o. Owes o (get k gs)) (get-here k w ws) (h k)) in
      &&_intro (rw found (complete w g d here))
        (complete_members ws gs ds (Covers-tail k w ws gs fresh h))

-- For a value that is a tree of maps, with no key twice, `valueSubset` answers true exactly if every
-- path through the first value leads to the same in the second: the same scalar, an array of the
-- same length, or an object.
pub value_subset_iff :
    (want got : Json) → Distinct want → (value_subset want got ≡ true) ↔ Survives want got
value_subset_iff want got d = (value_subset-Survives want got, complete want got d)
