-- ===== src/Values.antt =====
-- internal/llm/adapter.go: `jsonSubset` and `valueSubset`. A Go value of type `any` is written as the
-- JSON value of it: its numbers are the literals of float64 values, and its objects are maps. What
-- float64 a literal stands for, if it is in range, is an argument: a text that two literals share
-- exactly if Go finds their float64 values equal.
pub mod Paths
pub mod Complete
pub mod Decoded
use smolllm_server.Base.{
  Bool, true, false, ◌&&◌, Option, none, some, and_then, if◌then◌else◌, ◌==◌, text_eq, bool_eq,
  Text,
}
use smolllm_server.Json.{
  Json, null, bool, num, str, arr, obj, Items, nil, cons, Members, end, member,
}

-- a map's value at a key, and `m[k] = v`
unfoldable pub get : Text → Members → Option Json
get k end = none
get k (member j v ms) = let rest = get k ms in if j == k then some v else rest

unfoldable pub put : Text → Json → Members → Members
put k v end = member k v end
put k v (member j w ms) =
    let rest = member j w (put k v ms) in if j == k then member k v ms else rest

-- `json.Unmarshal` into an `any`; it fails on a number that no float64 is near
module _ (float_of : Text → Option Text) where
  unfoldable mutual
    pub decode_any : Json → Option Json
    decode_any null = some null
    decode_any (bool b) = some (bool b)
    decode_any (num t) = and_then (float_of t) (λ f. some (num f))
    decode_any (str s) = some (str s)
    decode_any (arr vs) = and_then (decode_items vs) (λ ws. some (arr ws))
    decode_any (obj ms) = and_then (decode_members ms end) (λ ws. some (obj ws))

    pub decode_items : Items → Option Items
    decode_items nil = some nil
    decode_items (cons v vs) =
        and_then (decode_any v) (λ w. and_then (decode_items vs) (λ ws. some (cons w ws)))

    -- the members in their order, into a map
    pub decode_members : Members → Members → Option Members
    decode_members end m = some m
    decode_members (member k v ms) m = and_then (decode_any v) (λ w. decode_members ms (put k w m))

-- `reflect.DeepEqual`, where the first value is no array and no object
unfoldable pub scalar_eq : Json → Json → Bool
scalar_eq null null = true
scalar_eq (bool a) (bool b) = a == b
scalar_eq (num a) (num b) = a == b
scalar_eq (str a) (str b) = a == b
scalar_eq _ _ = false

-- what a map must have at a key
abbrev pub subset_at : (Json → Bool) → Option Json → Bool
subset_at f none = false
subset_at f (some g) = f g

-- `valueSubset`, with its loops over the members of a map and the items of an array
unfoldable mutual
  unfolding scalar_eq get

  pub value_subset : Json → Json → Bool
  value_subset (obj ws) (obj gs) = members_subset ws gs
  value_subset (obj ws) _ = false
  value_subset (arr ws) (arr gs) = items_subset ws gs
  value_subset (arr ws) _ = false
  value_subset null g = scalar_eq null g
  value_subset (bool b) g = scalar_eq (bool b) g
  value_subset (num t) g = scalar_eq (num t) g
  value_subset (str s) g = scalar_eq (str s) g

  pub items_subset : Items → Items → Bool
  items_subset nil nil = true
  items_subset (cons w ws) (cons g gs) = value_subset w g && items_subset ws gs
  items_subset _ _ = false

  pub members_subset : Members → Members → Bool
  members_subset end gs = true
  members_subset (member k w ws) gs = subset_at (value_subset w) (get k gs) && members_subset ws gs

-- the two calls of `json.Unmarshal`
abbrev pub both_decoded : (Text → Option Text) → Json → Json → Option (Json × Json)
both_decoded float_of want got =
    and_then (decode_any float_of want) (λ w. and_then (decode_any float_of got) (λ g. some (w, g)))

abbrev pub subset_pair : Option (Json × Json) → Bool
subset_pair none = false
subset_pair (some (w, g)) = value_subset w g

-- `jsonSubset`
unfoldable pub json_subset : (Text → Option Text) → Json → Json → Bool
json_subset float_of want got = subset_pair (both_decoded float_of want got)
