-- ===== src/Metrics.antt =====
-- internal/server/metrics.go: the text exposition of the ledger. A line is its family, its label
-- text and its number; writing a number in decimal is left out but where it is a label.
pub mod Escape
pub mod Report
use smolllm_server.Base.{
  ℕ, Bool, true, false, not, List, [], ◌∷◌, ◌++◌, if◌then◌else◌, eqb, Text, codes, contains_any,
}
use smolllm_server.Ledger.{AttemptCount, FirstOutputSample}
use smolllm_server.Stats.{FirstOutputKey}

abbrev pub backslash : ℕ
backslash = 0x5c

abbrev pub quote : ℕ
quote = 0x22

abbrev pub newline : ℕ
newline = 0x0a

abbrev pub special_chars : Text
special_chars = backslash ∷ quote ∷ newline ∷ []

-- the `strings.NewReplacer` of `escapeLabel` on one character and on a text
unfoldable pub escape_char : ℕ → Text
escape_char c =
    if eqb c backslash
    then backslash ∷ backslash ∷ []
    else if eqb c quote
    then backslash ∷ quote ∷ []
    else if eqb c newline
    then backslash ∷ b'n' ∷ []
    else c ∷ []

unfoldable pub replaced : Text → Text
replaced [] = []
replaced (c ∷ s) = escape_char c ++ replaced s

-- `escapeLabel`
unfoldable pub escape_label : Text → Text
escape_label v = if not (contains_any v special_chars) then v else replaced v

-- `boolLabel`
unfoldable pub bool_label : Bool → Text
bool_label v = if v then codes "true" else codes "false"

-- the number of a line: a count, or nanoseconds that are printed as seconds
pub data Value : Type 0 where
  count : ℕ → Value
  seconds : ℕ → Value

pub record Line : Type 0 where
  pub name : Text
  pub labels : Text
  pub value : Value

-- `alias="…"` and what follows it
abbrev pub label : Text → Text → Text → Text
label head v rest = head ++ (escape_label v ++ (quote ∷ rest))

-- the labels of a line of `smolllm_attempts_total`
unfoldable pub attempt_labels : AttemptCount → Text
attempt_labels a = label (codes "alias=\"") a.key.alias (
    label (codes ",provider=\"") a.key.provider (
      label (codes ",model=\"") a.key.model (
        label (codes ",outcome=\"") a.key.outcome (
          label (codes ",phase=\"") a.key.phase
            (codes ",streaming=\"" ++ (bool_label a.key.streaming ++ (quote ∷ [])))))))

-- the labels that the lines of one histogram share
unfoldable pub sample_labels : FirstOutputKey → Text
sample_labels k = label (codes "alias=\"") k.alias (
    label (codes ",provider=\"") k.provider (
      label (codes ",model=\"") k.model
        (codes ",streaming=\"" ++ (bool_label k.streaming ++ (quote ∷ [])))))

abbrev pub attempts_name : Text
attempts_name = codes "smolllm_attempts_total"

abbrev pub histogram_name : Text → Text
histogram_name suffix = codes "smolllm_attempt_first_output_seconds" ++ suffix

-- the last element, or 0
abbrev pub last_count : List ℕ → ℕ
last_count [] = 0
last_count (c ∷ []) = c
last_count (c ∷ d ∷ cs) = last_count (d ∷ cs)

-- `formatFloat` on the bounds, which are nanoseconds here
module _ (format_seconds : ℕ → Text) where
  -- one line for each bound, with the count at its position
  unfoldable pub bucket_lines : Text → List ℕ → List ℕ → List Line
  bucket_lines labels (b ∷ bs) (c ∷ cs) =
      record {
        name = histogram_name (codes "_bucket");
        labels = labels ++ (codes ",le=\"" ++ (format_seconds b ++ (quote ∷ [])));
        value = count c;
      }
      ∷ bucket_lines labels bs cs
  bucket_lines labels _ _ = []

  -- the lines of one histogram
  unfoldable pub sample_lines : FirstOutputSample → List Line
  unfolding bucket_lines
  sample_lines s =
      let labels = sample_labels s.key in
      bucket_lines labels s.bounds s.counts
      ++ (record {
        name = histogram_name (codes "_bucket");
        labels = labels ++ codes ",le=\"+Inf\"";
        value = count (last_count s.counts);
      }
          ∷ record { name = histogram_name (codes "_sum"); labels = labels; value = seconds s.sum }
          ∷ record {
            name = histogram_name (codes "_count");
            labels = labels;
            value = count s.count;
          }
          ∷ [])

  unfoldable pub all_sample_lines : List FirstOutputSample → List Line
  unfolding sample_lines
  all_sample_lines [] = []
  all_sample_lines (s ∷ ss) = sample_lines s ++ all_sample_lines ss

  unfoldable pub attempt_lines : List AttemptCount → List Line
  attempt_lines [] = []
  attempt_lines (a ∷ rest) =
      record { name = attempts_name; labels = attempt_labels a; value = count a.count }
      ∷ attempt_lines rest

  -- `writeMetrics`, without the comments
  unfoldable pub write_metrics : List AttemptCount → List FirstOutputSample → List Line
  unfolding attempt_lines all_sample_lines
  write_metrics attempts samples = attempt_lines attempts ++ all_sample_lines samples
