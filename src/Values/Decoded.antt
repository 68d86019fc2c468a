-- ===== src/Values/Decoded.antt =====
-- internal/llm/adapter.go: what `json.Unmarshal` gives `jsonSubset` to compare.
use smolllm_server.Base.{
  ◌≡◌, ◌↔◌, refl, ap, sym, ◌∙◌, true, false, Option, some, arith, if◌then◌else◌, ◌==◌, ==_iff,
  text_eq, Text, Bool-cases, Option-cases, inl, inr, subst, and_then-eq-some, some-inj,
}
use smolllm_server.Json.{
  Json, null, bool, num, str, arr, obj, Items, nil, cons, Members, end, member,
}
use smolllm_server.Values.{
  get, put, both_decoded, decode_any, decode_items, decode_members, value_subset, json_subset,
}
use smolllm_server.Values.Paths.{Distinct, DistinctItems, DistinctMembers, Survives}
use smolllm_server.Values.Complete.{value_subset_iff}

pub get-put :
    (j k : Text) (v : Json) (ms : Members)
    → get j (put k v ms) ≡ (if k == j then some v else get j ms)
unfolding get put
get-put j k v end = ground arith
get-put j k v (member i w ms) = ground (arith, get-put j k v ms)

put-Distinct :
    (k : Text) (v : Json) (ms : Members)
    → Distinct v
    → DistinctMembers ms
    → DistinctMembers (put k v ms)
unfolding put Distinct get
put-Distinct k v end d ds = (refl, d, tt)
put-Distinct k v (member i w ms) d (fresh, e, es) = elim (Bool-cases (i == k)) [
  | inl same ↦ rw same (ap (λ j. get j ms) (sym ((==_iff i k).0 same)) ∙ fresh, d, es)
  | inr other ↦
      let back : (k == i) ≡ false = ground (arith, ==_iff i k) in
      rw other (get-put i k v ms ∙ rw back fresh, e, put-Distinct k v ms d es)
]

module _ (float_of : Text → Option Text) where
  mutual
    unfolding decode_any Distinct

    decoded : (j : Json) {w : Json} → decode_any float_of j ≡ some w → Distinct w
    decoded null h = subst Distinct (some-inj h) tt
    decoded (bool b) h = subst Distinct (some-inj h) tt
    decoded (num t) h =
        let (_, _, e) = and_then-eq-some (float_of t) _ h in subst Distinct (some-inj e) tt
    decoded (str s) h = subst Distinct (some-inj h) tt
    decoded (arr vs) h =
        let (ws, near, e) = and_then-eq-some (decode_items float_of vs) _ h in
        subst Distinct (some-inj e) (decoded_items vs near)
    decoded (obj ms) h =
        let (ws, near, e) = and_then-eq-some (decode_members float_of ms end) _ h in
        subst Distinct (some-inj e) (decoded_members ms end tt near)

    decoded_items :
        (vs : Items) {ws : Items} → decode_items float_of vs ≡ some ws → DistinctItems ws
    decoded_items nil h = subst DistinctItems (some-inj h) tt
    decoded_items (cons v vs) h =
        let (u, near, rest) = and_then-eq-some (decode_any float_of v) _ h in
        let (us, all_near, e) = and_then-eq-some (decode_items float_of vs) _ rest in
        subst DistinctItems (some-inj e) (decoded v near, decoded_items vs all_near)

    decoded_members :
        (ms m : Members) {ws : Members}
        → DistinctMembers m
        → decode_members float_of ms m ≡ some ws
        → DistinctMembers ws
    decoded_members end m d h = subst DistinctMembers (some-inj h) d
    decoded_members (member k v ms) m d h =
        let (w, near, rest) = and_then-eq-some (decode_any float_of v) _ h in
        decoded_members ms (put k w m) (put-Distinct k w m (decoded v near) d) rest

  subset_pair-both :
      (want got : Json)
      → json_subset float_of want got ≡ true
      → (w : Json) × (g : Json) × (decode_any float_of want ≡ some w)
        × (decode_any float_of got ≡ some g)
        × (value_subset w g ≡ true)
  unfolding json_subset
  subset_pair-both want got h = elim (Option-cases (both_decoded float_of want got)) [
    | inl far ↦ cc (rw far at h)
    | inr ((w, g), near) ↦
        let (u, here, rest) = and_then-eq-some (decode_any float_of want) _ near in
        let (v, there, e) = and_then-eq-some (decode_any float_of got) _ rest in
        let sub : value_subset w g ≡ true = rw near at h in (w, g, cc, cc, sub)
  ]

  -- `jsonSubset` answers true exactly if both texts decode and every path through the first value
  -- leads to the same in the second: the same scalar, with numbers as float64 values, an array of
  -- the same length, or an object, which may have more members.
  pub json_subset_iff :
      (want got : Json)
      → (json_subset float_of want got ≡ true) ↔ (
          (w : Json) × (g : Json) × (decode_any float_of want ≡ some w)
          × (decode_any float_of got ≡ some g)
          × Survives w g)
  unfolding json_subset
  json_subset_iff want got = (
    λ h.
        let (w, g, dw, dg, sub) = subset_pair-both want got h in
        (w, g, dw, dg, (value_subset_iff w g (decoded want dw)).0 sub),
    λ (w, g, dw, dg, all). rw dw (rw dg ((value_subset_iff w g (decoded want dw)).1 all)),
  )
