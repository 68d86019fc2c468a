-- ===== src/Tests/Requests.antt =====
-- Examples of the theorems on requests.
use smolllm_server.Base.{
  ◌≡◌, refl, true, none, some, [], ◌∷◌, if◌then◌else◌, Text, codes, Dict, ok, text_eq,
  text_discrete, lookup, retain, insert, trim_space,
}
use smolllm_server.Adapter
use smolllm_server.Adapter.{
  decode_stop, decode_embedding_input, is_among, is_extra, forwarded_keys, decode_field,
  pass_through_fields,
}
use smolllm_server.Adapter.Fields.{
  is_passed_on, is_kept_back, present, last_value, lookup-pass_through_fields,
}
use smolllm_server.Debit.Numbers.{fold_name}
use smolllm_server.Json.{Json, str, bool, null}

abbrev request : Dict Text Json
request =
    (codes "model", str (codes "fast"))
    ∷ (codes "top_k", str (codes "7"))
    ∷ (codes "stream_options", bool true)
    ∷ (codes "tools", null)
    ∷ []

lookup-pass_through_fields_example : lookup (codes "top_k") (pass_through_fields request) ≡ (
    if is_passed_on (codes "top_k")
    then present (decode_field (codes "top_k") request)
    else if is_kept_back (codes "top_k")
    then none
    else last_value (codes "top_k") request)
lookup-pass_through_fields_example = lookup-pass_through_fields (codes "top_k") request

pass_through_fields_test : pass_through_fields request ≡ (codes "top_k", str (codes "7")) ∷ []
unfolding pass_through_fields Adapter.named_fields Adapter.with_field Adapter.with_extras
    Adapter.extra_fields Adapter.decode_map decode_field fold_name text_discrete lookup
    Adapter.is_json_null_or_empty retain insert
pass_through_fields_test = refl

one_stop : decode_stop (some (str (codes "end"))) ≡ ok (codes "end" ∷ [])
unfolding decode_stop trim_space text_discrete
one_stop = refl
