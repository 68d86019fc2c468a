-- ===== src/Tests/Reports.antt =====
-- Examples of the theorems on `/metrics`.
use mathlib.Core.List.Perm
use smolllm_server.Base.{
  ℕ, ◌≡◌, refl, false, none, some, List, [], ◌∷◌, ◌++◌, text_eq, text_discrete, text_less,
  contains_any, Dict, Text, codes, lookup, Ascending,
}
use smolllm_server.Accounts.{
  AccountEvent, Kind, opened, closed, skipped, probing, skip_of, SkipKey, skip_key_eq,
  account_id_eq,
}
use smolllm_server.Accounts.Lines.{
  AccountCircuit, leg_labels, skip_labels, Series, series_less, sorted_series,
}
use smolllm_server.Accounts.Counts.{Call}
use smolllm_server.Accounts.Labels.{skip_labels-IsLegible, sorted_series_unique}
use smolllm_server.Ledger.{AttemptCount, attempt_key, first_output_key, sample_of, new_hist}
use smolllm_server.Stats.{FirstOutputKey, get_or, first_output_key_eq}
use smolllm_server.Ledger.Attempts.{recorded, waits_of}
use smolllm_server.Metrics.{quote, escape_label, escape_char, replaced, sample_labels, sample_lines}
use smolllm_server.Metrics.Escape.{read_value, read_value-escape_label}
use smolllm_server.Metrics.Report.{histogram_lines, sample_lines-histogram_lines}
use smolllm_server.Tests.{day_of, answered, slow, history}

read_value-escape_label_example :
    read_value false (escape_label (codes "a\\\"\nb") ++ (quote ∷ codes "}"))
    ≡ some (codes "a\\\"\nb", codes "}")
read_value-escape_label_example = read_value-escape_label (codes "a\\\"\nb") (codes "}")

escape_label_test : escape_label (codes "a\"b") ≡ codes "a\\\"b"
unfolding escape_label replaced escape_char contains_any
escape_label_test = refl

abbrev counted : AttemptCount
counted = record { key = attempt_key (codes "a\"b") answered; count = 3 }

abbrev counted_slow : AttemptCount
counted_slow = record { key = attempt_key (codes "fast") slow; count = 1 }

abbrev one_digit : ℕ → Text
one_digit n = n ∷ []

abbrev wait_key : FirstOutputKey
wait_key = first_output_key (codes "fast") answered

sample_lines-histogram_lines_example :
    sample_lines one_digit (
      sample_of wait_key (get_or (lookup wait_key (recorded day_of history).first_output) new_hist))
    ≡ histogram_lines one_digit (sample_labels wait_key) (waits_of wait_key history)
sample_lines-histogram_lines_example =
    sample_lines-histogram_lines one_digit day_of wait_key history

abbrev kind_name : Kind → Text
kind_name opened = codes "opened"
kind_name closed = codes "closed"
kind_name _ = codes "other"

abbrev event : Kind → AccountEvent
event k = record {
  kind = k;
  provider = codes "openai";
  account = codes "0123";
  model_name = codes "gpt";
  skip_reason = codes "open";
}

abbrev call : Kind → Call
call k = record { alias = codes "fast"; event = event k }

abbrev calls : List Call
calls = call closed ∷ call probing ∷ call skipped ∷ call opened ∷ []

abbrev circuits : List AccountCircuit
circuits =
    record { provider = codes "openai"; account = codes "0123"; state = codes "half_open" } ∷ []

abbrev key_a : SkipKey
key_a = skip_of (codes "a") (event skipped)

abbrev key_b : SkipKey
key_b = skip_of (codes "b") (event skipped)

abbrev row : SkipKey → ℕ → Series
row k n = record { labels = skip_labels k; value = n }

rows-Ascending : Ascending series_less (row key_a 2 ∷ row key_b 1 ∷ [])
unfolding skip_labels leg_labels escape_label escape_char replaced text_less contains_any
rows-Ascending = ((refl, tt), (tt, tt))

abbrev none_yet : Dict SkipKey ℕ
none_yet = []

abbrev first_skips : Dict SkipKey ℕ
first_skips = (key_a, 2) ∷ none_yet

b_fresh : lookup key_b first_skips ≡ none
unfolding lookup text_discrete skip_key_eq
b_fresh = refl

a_fresh : lookup key_a none_yet ≡ none
unfolding lookup
a_fresh = refl

sorted_series_unique_example :
    row key_a 2 ∷ row key_b 1 ∷ [] ≡ sorted_series skip_labels ((key_b, 1) ∷ first_skips)
sorted_series_unique_example =
    sorted_series_unique skip_labels skip_labels-IsLegible ((key_b, 1) ∷ first_skips)
      (b_fresh, (a_fresh, tt)) (row key_a 2 ∷ row key_b 1 ∷ []) (Perm.swap _ _ _) rows-Ascending
