-- ===== src/Messages/Maps.antt =====
-- internal/llm/adapter.go: the objects of raw messages and calls as maps, decoded and encoded.
use smolllm_server.Adapter.{decode_map}
use smolllm_server.Base.{
  ◌≡◌, refl, ap, sym, ◌∙◌, true, false, none, some, [], ◌∷◌, arith, if◌then◌else◌, ◌==◌, ==_iff,
  text_eq, Text, Dict, lookup, insert, NodupKeys, lookup-insert, insert-NodupKeys, insert_sorted,
  sort_slice, Bool-cases, inl, inr, text_less, or_else, or_else-none,
}
use smolllm_server.Json.{Json, null, obj, members}
use smolllm_server.Messages.{decode_object, key_less, as_members}

decode_map-NodupKeys : (m ms : Dict Text Json) → NodupKeys m → NodupKeys (decode_map m ms)
unfolding decode_map
decode_map-NodupKeys m [] u = u
decode_map-NodupKeys m ((k, v) ∷ ms) u =
    decode_map-NodupKeys (insert k v m) ms (insert-NodupKeys k v m u)

pub decode_object-NodupKeys :
    (raw : Json) {m : Dict Text Json} → decode_object raw ≡ some m → NodupKeys m
unfolding decode_object
decode_object-NodupKeys null {m} e = let same : [] ≡ m = cc e in rw (← same) tt
decode_object-NodupKeys (obj ms) {m} e =
    let same : decode_map [] (members ms) ≡ m = cc e in
    rw (← same) (decode_map-NodupKeys [] (members ms) tt)
decode_object-NodupKeys raw e = cc

-- a key that is not in a map is neither its first one nor in the rest
lookup-absent :
    (k j : Text) (w : Json) (m : Dict Text Json)
    → lookup k ((j, w) ∷ m) ≡ none
    → ((j == k) ≡ false) × (lookup k m ≡ none)
unfolding lookup
lookup-absent k j w m fresh = elim (Bool-cases (j == k)) [
  | inl same ↦ cc (rw same at fresh)
  | inr other ↦ (other, rw other at fresh)
]

lookup-fresh :
    (j k : Text) (m : Dict Text Json) → lookup j m ≡ none → (j == k) ≡ true → lookup k m ≡ none
lookup-fresh j k m fresh same = ap (λ i. lookup i m) (sym ((==_iff j k).0 same)) ∙ fresh

pub lookup-decode_map_of_nodup :
    (k : Text) (m ms : Dict Text Json)
    → NodupKeys ms
    → lookup k (decode_map m ms) ≡ or_else (lookup k ms) (lookup k m)
unfolding decode_map lookup
lookup-decode_map_of_nodup k m [] u = refl
lookup-decode_map_of_nodup k m ((j, v) ∷ ms) (fresh, u) =
    lookup-decode_map_of_nodup k (insert j v m) ms u
    ∙ ap (or_else (lookup k ms)) (lookup-insert k j v m)
    ∙ elim (Bool-cases (j == k)) [
      | inl same ↦ rw (same, lookup-fresh j k ms fresh same) refl
      | inr other ↦ rw other refl
    ]

members-as_members : (m : Dict Text Json) → members (as_members m) ≡ m
members-as_members [] = refl
members-as_members ((k, v) ∷ m) = ap (λ rest. (k, v) ∷ rest) (members-as_members m)

lookup-insert_sorted :
    (i k : Text) (v : Json) (m : Dict Text Json)
    → lookup k m ≡ none
    → lookup i (insert_sorted key_less (k, v) m) ≡ (if k == i then some v else lookup i m)
unfolding insert_sorted lookup
lookup-insert_sorted i k v [] fresh = refl
lookup-insert_sorted i k v ((j, w) ∷ m) fresh =
    let (other, rest) = lookup-absent k j w m fresh in
    let ih = lookup-insert_sorted i k v m rest in
    elim (Bool-cases (text_less j k)) [
      | inl before ↦ rw before (elim (Bool-cases (j == i)) [
        | inl first ↦
            let not_k : (k == i) ≡ false =
              rw (← (==_iff j i).0 first) (ground (arith, ==_iff k j, ==_iff j k)) in
            rw (first, not_k) refl
        | inr later ↦ rw (later, ih) refl
      ])
      | inr after ↦ rw after refl
    ]

insert_sorted-NodupKeys :
    (k : Text) (v : Json) (m : Dict Text Json)
    → lookup k m ≡ none
    → NodupKeys m
    → NodupKeys (insert_sorted key_less (k, v) m)
unfolding insert_sorted lookup
insert_sorted-NodupKeys k v [] fresh u = (refl, tt)
insert_sorted-NodupKeys k v ((j, w) ∷ m) fresh (new, u) =
    let (other, rest) = lookup-absent k j w m fresh in
    let not_j : (k == j) ≡ false = ground (arith, ==_iff k j, ==_iff j k) in
    elim (Bool-cases (text_less j k)) [
      | inl before ↦
          rw before (
            lookup-insert_sorted j k v m rest ∙ rw (not_j) new,
            insert_sorted-NodupKeys k v m rest u,
          )
      | inr after ↦ rw after (fresh, (new, u))
    ]

pub sort_slice-lookup :
    (i : Text) (m : Dict Text Json) → NodupKeys m → lookup i (sort_slice key_less m) ≡ lookup i m
unfolding sort_slice lookup
sort_slice-lookup i [] u = refl
sort_slice-lookup i ((k, v) ∷ m) (fresh, u) =
    lookup-insert_sorted i k v (sort_slice key_less m) (sort_slice-lookup k m u ∙ fresh)
    ∙ rw (sort_slice-lookup i m u) refl

sort_slice-NodupKeys : (m : Dict Text Json) → NodupKeys m → NodupKeys (sort_slice key_less m)
unfolding sort_slice
sort_slice-NodupKeys [] u = tt
sort_slice-NodupKeys ((k, v) ∷ m) (fresh, u) =
    insert_sorted-NodupKeys k v (sort_slice key_less m) (sort_slice-lookup k m u ∙ fresh)
      (sort_slice-NodupKeys m u)

pub lookup-nil : (i : Text) → lookup {V = Json} i [] ≡ none
unfolding lookup
lookup-nil i = refl

pub lookup-as_members :
    (i : Text) (m : Dict Text Json)
    → NodupKeys m
    → lookup i (decode_map [] (members (as_members m))) ≡ lookup i m
lookup-as_members i m u =
    ap (λ l. lookup i (decode_map [] l)) (members-as_members m)
    ∙ lookup-decode_map_of_nodup i [] m u
    ∙ rw (lookup-nil i) (or_else-none (lookup i m))

-- A map that `json.Marshal` writes is read back with the same values.
pub lookup-written :
    (i : Text) (m : Dict Text Json)
    → NodupKeys m
    → lookup i (decode_map [] (members (as_members (sort_slice key_less m)))) ≡ lookup i m
lookup-written i m u =
    lookup-as_members i (sort_slice key_less m) (sort_slice-NodupKeys m u) ∙ sort_slice-lookup i m u
