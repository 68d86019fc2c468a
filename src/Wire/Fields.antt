-- ===== src/Wire/Fields.antt =====
-- internal/llm/types.go: a struct that is encoded with its tags, and the member that a reader finds.
use smolllm_server.Base.{
  ◌≡◌, refl, ◌∙◌, Bool, true, false, not, ◌&&◌, Option, none, some, [], ◌∷◌, arith, if◌then◌else◌,
  ◌==◌, ==_iff, text_eq, Text, lookup, NodupKeys, or_else-none, and_then,
}
use smolllm_server.Json.{Json, members}
use smolllm_server.Messages.{decode_object}
use smolllm_server.Messages.Maps.{lookup-decode_map_of_nodup}
use smolllm_server.Wire.{Fields, present, struct}

-- the value that a client finds under a name
unfoldable pub field : Text → Json → Option Json
unfolding decode_object
field k j = and_then (decode_object j) (lookup k)

-- the value of a struct's field, of fields with different names
unfoldable pub find : Text → Fields → Option Json
find k [] = none
find k ((j, v) ∷ fs) = let rest = find k fs in if j == k then v else rest

abbrev pub has_name : Text → Fields → Bool
has_name k [] = false
has_name k ((j, v) ∷ fs) = if j == k then true else has_name k fs

unfoldable pub distinct : Fields → Bool
distinct [] = true
distinct ((k, v) ∷ fs) = not (has_name k fs) && distinct fs

find-has_name : (k : Text) (fs : Fields) → has_name k fs ≡ false → find k fs ≡ none
unfolding find
find-has_name k [] h = refl
find-has_name k ((j, v) ∷ fs) h = ground (arith, find-has_name k fs)

lookup-present :
    (k : Text) (fs : Fields) → distinct fs ≡ true → lookup k (members (present fs)) ≡ find k fs
unfolding find distinct lookup present
lookup-present k [] d = refl
lookup-present k ((j, none) ∷ fs) d =
    ground (arith, lookup-present k fs, find-has_name k fs, ==_iff j k)
lookup-present k ((j, some v) ∷ fs) d = ground (arith, lookup-present k fs)

NodupKeys-present : (fs : Fields) → distinct fs ≡ true → NodupKeys (members (present fs))
unfolding distinct present
NodupKeys-present [] d = tt
NodupKeys-present ((j, none) ∷ fs) d = NodupKeys-present fs (ground arith)
NodupKeys-present ((j, some v) ∷ fs) d =
    let rest : distinct fs ≡ true = ground arith in
    (lookup-present j fs rest ∙ find-has_name j fs (ground arith), NodupKeys-present fs rest)

pub field-struct : (k : Text) (fs : Fields) → distinct fs ≡ true → field k (struct fs) ≡ find k fs
unfolding field decode_object lookup
field-struct k fs d =
    lookup-decode_map_of_nodup k [] (members (present fs)) (NodupKeys-present fs d)
    ∙ or_else-none _
    ∙ lookup-present k fs d
