-- ===== src/Metrics/Report.antt =====
-- internal/server/metrics.go over the ledger: the labels tell the counters apart, and the lines of a
-- histogram are those of the recorded waits.
use smolllm_server.Base.{
  ℕ, ◌≡◌, ◌↔◌, refl, ap, sym, ◌∙◌, Bool, true, false, some, List, [], ◌∷◌, ◌++◌, map, Text, codes,
  arith, length, lookup, text_eq,
}
use smolllm_server.Ledger.{AttemptCount, sample_of, new_hist}
use smolllm_server.Stats.{FirstOutputKey, first_output_bounds, get_or, first_output_key_eq}
use smolllm_server.Ledger.Attempts.{Call, recorded, waits_of, recorded-histogram}
use smolllm_server.Ledger.Histogram.{at_most, expected, sum_of}
use smolllm_server.Metrics.{
  quote, escape_label, replaced, escape_char, bool_label, attempt_labels, sample_labels, Line,
  count, seconds, histogram_name, last_count, bucket_lines, sample_lines,
}
use smolllm_server.Metrics.Escape.{read_labels, read_labels-label, escape_label-replaced}

abbrev pub attempt_heads : List Text
attempt_heads =
    codes "alias=\""
    ∷ codes ",provider=\""
    ∷ codes ",model=\""
    ∷ codes ",outcome=\""
    ∷ codes ",phase=\""
    ∷ codes ",streaming=\""
    ∷ []

escape_label-bool_label : (b : Bool) → escape_label (bool_label b) ≡ bool_label b
unfolding bool_label replaced escape_char
escape_label-bool_label true = escape_label-replaced (codes "true")
escape_label-bool_label false = escape_label-replaced (codes "false")

read_labels-bool_label :
    (head : Text) (b : Bool)
    → read_labels (head ∷ []) (head ++ (bool_label b ++ (quote ∷ [])))
      ≡ some (bool_label b ∷ [], [])
read_labels-bool_label head b =
    ap (λ t. read_labels (head ∷ []) (head ++ (t ++ (quote ∷ []))))
      (sym (escape_label-bool_label b))
    ∙ read_labels-label head (bool_label b) [] [] (unfold read_labels in refl)

-- A reader gets back every label of an attempt counter, whatever characters they hold, and nothing
-- is left over.
pub read_labels-attempt_labels :
    (a : AttemptCount)
    → let k = a.key in
      read_labels attempt_heads (attempt_labels a)
      ≡ some
          (k.alias ∷ k.provider ∷ k.model ∷ k.outcome ∷ k.phase ∷ bool_label k.streaming ∷ [], [])
unfolding attempt_labels
read_labels-attempt_labels a =
    let k = a.key in
    read_labels-label _ k.alias _ _ (
      read_labels-label _ k.provider _ _ (
        read_labels-label _ k.model _ _ (
          read_labels-label _ k.outcome _ _
            (read_labels-label _ k.phase _ _ (read_labels-bool_label _ k.streaming)))))

bool_label-inj : (a b : Bool) → bool_label a ≡ bool_label b → a ≡ b
unfolding bool_label
bool_label-inj a b h = ground arith

-- Two counters are exposed under the same labels exactly if they have the same key: no two counters
-- of the ledger can be taken for one series.
pub attempt_labels_iff :
    (a b : AttemptCount) → (attempt_labels a ≡ attempt_labels b) ↔ (a.key ≡ b.key)
attempt_labels_iff a b = (
  λ h.
      let e =
        sym (read_labels-attempt_labels a)
        ∙ ap (read_labels attempt_heads) h
        ∙ read_labels-attempt_labels b in
      let s : bool_label a.key.streaming ≡ bool_label b.key.streaming = cc e in
      let f = bool_label-inj a.key.streaming b.key.streaming s in ground (arith, e, f),
  λ h. unfold attempt_labels in cc h,
)

last_count-expected : (bs waits : List ℕ) → last_count (expected bs waits) ≡ length waits
unfolding expected
last_count-expected [] waits = refl
last_count-expected (b ∷ []) waits = refl
last_count-expected (b ∷ c ∷ bs) waits = last_count-expected (c ∷ bs) waits

module _ (format_seconds : ℕ → Text) where
  bound_line : Text → List ℕ → ℕ → Line
  bound_line labels waits b = record {
    name = histogram_name (codes "_bucket");
    labels = labels ++ (codes ",le=\"" ++ (format_seconds b ++ (quote ∷ [])));
    value = count (at_most b waits);
  }

  -- the lines of a histogram of some waits
  unfoldable pub histogram_lines : Text → List ℕ → List Line
  unfolding bound_line
  histogram_lines labels waits =
      map (bound_line labels waits) first_output_bounds
      ++ (record {
        name = histogram_name (codes "_bucket");
        labels = labels ++ codes ",le=\"+Inf\"";
        value = count (length waits);
      }
          ∷ record {
            name = histogram_name (codes "_sum");
            labels = labels;
            value = seconds (sum_of waits);
          }
          ∷ record {
            name = histogram_name (codes "_count");
            labels = labels;
            value = count (length waits);
          }
          ∷ [])

  bucket_lines-expected :
      (labels : Text) (bs waits : List ℕ)
      → bucket_lines format_seconds labels bs (expected bs waits) ≡ map (bound_line labels waits) bs
  unfolding bucket_lines expected bound_line
  bucket_lines-expected labels [] waits = refl
  bucket_lines-expected labels (b ∷ bs) waits =
      ap (◌∷◌ (bound_line labels waits b)) (bucket_lines-expected labels bs waits)

  -- The lines that `/metrics` shows for a histogram are, after any history of calls: for each bound
  -- the number of waits at or below it, for +Inf and for the count the number of all waits, and
  -- their sum.
  pub sample_lines-histogram_lines :
      (date_only : ℕ → Text) (k : FirstOutputKey) (h : List Call)
      → sample_lines format_seconds
          (sample_of k (get_or (lookup k (recorded date_only h).first_output) new_hist))
        ≡ histogram_lines (sample_labels k) (waits_of k h)
  unfolding sample_lines histogram_lines
  sample_lines-histogram_lines date_only k h =
      let waits = waits_of k h in
      let (c, s, n) = recorded-histogram date_only k h in
      rw (
        c,
        s,
        n,
        bucket_lines-expected (sample_labels k) first_output_bounds waits,
        last_count-expected first_output_bounds waits,
      )
