-- ===== src/Values/Paths.antt =====
-- internal/llm/adapter.go: `valueSubset` against what it means for a value to survive in another.
use smolllm_server.Base.{
  ℕ, zero, suc, ◌≡◌, refl, ap, sym, ◌∙◌, Bool, true, Option, none, some, List, [], ◌∷◌, ◌==◌,
  ==_iff, text_eq, bool_eq, Text, Bool-cases, Option-cases, inl, inr, &&_elim,
}
use smolllm_server.Json.{
  Json, null, bool, num, str, arr, obj, Items, nil, cons, Members, end, member,
}
use smolllm_server.Values.{get, scalar_eq, subset_at, value_subset, items_subset, members_subset}

-- one step from a value to a part of it
pub data Step : Type 0 where
  key : Text → Step
  index : ℕ → Step

-- what a value is at its top
pub data Shape : Type 0 where
  nothing object : Shape
  flag : Bool → Shape
  number text : Text → Shape
  array : ℕ → Shape

unfoldable pub count_items : Items → ℕ
count_items nil = 0
count_items (cons _ vs) = suc (count_items vs)

unfoldable pub shape : Json → Shape
unfolding count_items
shape null = nothing
shape (bool b) = flag b
shape (num t) = number t
shape (str s) = text s
shape (arr vs) = array (count_items vs)
shape (obj ms) = object

unfoldable pub item_at : ℕ → Items → Option Json
item_at i nil = none
item_at zero (cons v vs) = some v
item_at (suc i) (cons v vs) = item_at i vs

-- the part that a step leads to
unfoldable pub part_at : Step → Json → Option Json
unfolding item_at
part_at (key k) (obj ms) = get k ms
part_at (index i) (arr vs) = item_at i vs
part_at _ _ = none

abbrev pub reach : (Json → Option Shape) → Option Json → Option Shape
reach f none = none
reach f (some v) = f v

-- the shape at the end of a path
unfoldable pub shape_at : List Step → Json → Option Shape
unfolding shape part_at
shape_at [] v = some (shape v)
shape_at (s ∷ p) v = reach (shape_at p) (part_at s v)

-- what is known on the left is the same on the right
abbrev pub Keeps {ℓ} : {A : Type ℓ} → Option A → Option A → Type ℓ
Keeps none o = Unit
Keeps (some a) o = o ≡ some a

-- Every path through `want` leads to the same shape in `got`.
abbrev pub Survives : Json → Json → Type 0
Survives want got = (p : List Step) → Keeps (shape_at p want) (shape_at p got)

-- no key twice, at any depth
unfoldable mutual
  pub Distinct : Json → Type 0
  Distinct (arr vs) = DistinctItems vs
  Distinct (obj ms) = DistinctMembers ms
  Distinct null = Unit
  Distinct (bool _) = Unit
  Distinct (num _) = Unit
  Distinct (str _) = Unit

  pub DistinctItems : Items → Type 0
  DistinctItems nil = Unit
  DistinctItems (cons v vs) = Distinct v × DistinctItems vs

  pub DistinctMembers : Members → Type 0
  DistinctMembers end = Unit
  DistinctMembers (member k v ms) = (get k ms ≡ none) × Distinct v × DistinctMembers ms

items_subset-count_items :
    (ws gs : Items) → items_subset ws gs ≡ true → count_items ws ≡ count_items gs
unfolding value_subset count_items
items_subset-count_items nil nil h = refl
items_subset-count_items nil (cons g gs) h = cc
items_subset-count_items (cons w ws) nil h = cc
items_subset-count_items (cons w ws) (cons g gs) h =
    ap suc (items_subset-count_items ws gs (&&_elim (value_subset w g) (items_subset ws gs) h).1)

-- a part of the larger value that holds a part of the smaller one
abbrev Held : Json → Option Json → Type 0
Held w o = (g : Json) × (o ≡ some g) × (value_subset w g ≡ true)

subset_at-Held : (w : Json) (o : Option Json) → subset_at (value_subset w) o ≡ true → Held w o
subset_at-Held w none h = cc
subset_at-Held w (some g) h = (g, refl, h)

members_subset-cons :
    (j : Text) (v : Json) (ws gs : Members)
    → members_subset (member j v ws) gs ≡ true
    → Held v (get j gs) × (members_subset ws gs ≡ true)
unfolding value_subset
members_subset-cons j v ws gs h =
    let (here, later) = &&_elim (subset_at (value_subset v) (get j gs)) (members_subset ws gs) h in
    (subset_at-Held v (get j gs) here, later)

members_subset-Held :
    (k : Text) (ws gs : Members) {w : Json}
    → members_subset ws gs ≡ true
    → get k ws ≡ some w
    → Held w (get k gs)
unfolding get
members_subset-Held k end gs h e = cc
members_subset-Held k (member j v ws) gs {w} h e =
    let ((g, found, here), later) = members_subset-cons j v ws gs h in
    elim (Bool-cases (j == k)) [
      | inl same ↦
          let q : v ≡ w = cc (rw (same, get) at e) in
          (g, ap (λ i. get i gs) (sym ((==_iff j k).0 same)) ∙ found, rw (← q) here)
      | inr other ↦ members_subset-Held k ws gs later (rw (other, get) at e)
    ]

items_subset-Held :
    (i : ℕ) (ws gs : Items) {w : Json}
    → items_subset ws gs ≡ true
    → item_at i ws ≡ some w
    → Held w (item_at i gs)
unfolding value_subset item_at
items_subset-Held zero nil gs h e = cc
items_subset-Held (suc i) nil gs h e = cc
items_subset-Held zero (cons v ws) nil h e = cc
items_subset-Held (suc i) (cons v ws) nil h e = cc
items_subset-Held zero (cons v ws) (cons g gs) {w} h e =
    let q : v ≡ w = cc e in
    (g, refl, rw (← q) ((&&_elim (value_subset v g) (items_subset ws gs) h).0))
items_subset-Held (suc i) (cons v ws) (cons g gs) h e =
    items_subset-Held i ws gs (&&_elim (value_subset v g) (items_subset ws gs) h).1 e

scalar_eq-eq : (w g : Json) → scalar_eq w g ≡ true → w ≡ g
unfolding scalar_eq
scalar_eq-eq null null h = refl
scalar_eq-eq (bool a) (bool b) h = ap bool ((==_iff a b).0 h)
scalar_eq-eq (num a) (num b) h = ap num ((==_iff a b).0 h)
scalar_eq-eq (str a) (str b) h = ap str ((==_iff a b).0 h)
scalar_eq-eq w g h = cc

value_subset-shape : (w g : Json) → value_subset w g ≡ true → shape g ≡ shape w
unfolding value_subset shape
value_subset-shape (obj ws) (obj gs) h = refl
value_subset-shape (obj ws) g h = cc
value_subset-shape (arr ws) (arr gs) h = ap array (sym (items_subset-count_items ws gs h))
value_subset-shape (arr ws) g h = cc
value_subset-shape null g h = ap shape (sym (scalar_eq-eq null g h))
value_subset-shape (bool b) g h = ap shape (sym (scalar_eq-eq (bool b) g h))
value_subset-shape (num t) g h = ap shape (sym (scalar_eq-eq (num t) g h))
value_subset-shape (str s) g h = ap shape (sym (scalar_eq-eq (str s) g h))

value_subset-Held :
    (s : Step) (w g : Json) {v : Json}
    → value_subset w g ≡ true
    → part_at s w ≡ some v
    → Held v (part_at s g)
unfolding value_subset part_at
value_subset-Held (key k) (obj ws) (obj gs) h e = members_subset-Held k ws gs h e
value_subset-Held (key k) (obj ws) g h e = cc
value_subset-Held (index i) (arr ws) (arr gs) h e = items_subset-Held i ws gs h e
value_subset-Held (index i) (arr ws) g h e = cc
value_subset-Held s w g h e = cc

pub value_subset-Survives : (w g : Json) → value_subset w g ≡ true → Survives w g
unfolding shape_at
value_subset-Survives w g h [] = ap some (value_subset-shape w g h)
value_subset-Survives w g h (s ∷ p) = elim (Option-cases (part_at s w)) [
  | inl gone ↦ rw (gone, shape_at) tt
  | inr (v, there) ↦
      let (u, found, sub) = value_subset-Held s w g h there in
      rw (there, found, shape_at) (value_subset-Survives v u sub p)
]
