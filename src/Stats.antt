-- ===== src/Stats.antt =====
-- internal/ledger/ledger.go: the data of the ledger, its keys and constants. Waits are nanoseconds.
use smolllm_server.Base.{
  ℕ, ◌*◌, Bool, true, false, Option, none, some, List, [], ◌∷◌, Eq, text_eq, text_discrete, bool_eq,
  Text, codes, Dict,
}

-- `31 * 24 * time.Hour`, in seconds
abbrev pub retention : ℕ
retention = 31 * 24 * 3600

pub record Bucket : Type 0 where
  pub day : Text
  pub alias : Text
  pub provider : Text
  pub model : Text
  pub requests : ℕ
  pub failures : ℕ
  pub input_tokens : ℕ
  pub output_tokens : ℕ
  pub cache_read_tokens : ℕ
  pub cache_write_tokens : ℕ
  pub cache_reported_requests : ℕ
  pub cache_reported_input_tokens : ℕ
  pub estimated_requests : ℕ

pub record BucketKey : Type 0 where
  pub day : Text
  pub alias : Text
  pub provider : Text
  pub model : Text

pub record AttemptKey : Type 0 where
  pub alias : Text
  pub provider : Text
  pub model : Text
  pub outcome : Text
  pub phase : Text
  pub streaming : Bool

pub record FirstOutputKey : Type 0 where
  pub alias : Text
  pub provider : Text
  pub model : Text
  pub streaming : Bool

BucketKey-discrete : Discrete BucketKey
unfolding text_discrete
BucketKey-discrete = hlevel text_discrete

AttemptKey-discrete : Discrete AttemptKey
unfolding text_discrete
AttemptKey-discrete = hlevel text_discrete

FirstOutputKey-discrete : Discrete FirstOutputKey
unfolding text_discrete
FirstOutputKey-discrete = hlevel text_discrete

instance unfoldable pub bucket_key_eq : Eq BucketKey
unfolding BucketKey-discrete
bucket_key_eq = record { dec = BucketKey-discrete }

instance unfoldable pub attempt_key_eq : Eq AttemptKey
unfolding AttemptKey-discrete
attempt_key_eq = record { dec = AttemptKey-discrete }

instance unfoldable pub first_output_key_eq : Eq FirstOutputKey
unfolding FirstOutputKey-discrete
first_output_key_eq = record { dec = FirstOutputKey-discrete }

-- `firstOutputHist`; `Sum` in nanoseconds
pub record Hist : Type 0 where
  pub counts : List ℕ
  pub sum : ℕ
  pub count : ℕ

pub record Ledger : Type 0 where
  pub buckets : Dict BucketKey Bucket
  pub attempts : Dict AttemptKey ℕ
  pub first_output : Dict FirstOutputKey Hist

abbrev pub new : Ledger
new = record { buckets = []; attempts = []; first_output = [] }

abbrev pub outcome_ok : Text
outcome_ok = codes "ok"

abbrev pub outcome_first_output : Text
outcome_first_output = codes "first_output_timeout"

abbrev pub outcome_error : Text
outcome_error = codes "error"

abbrev pub outcome_canceled : Text
outcome_canceled = codes "canceled"

-- `firstOutputBounds`: 0.5, 1, 2, 5, 10, 20, 30, 60 and 120 seconds
abbrev pub first_output_bounds : List ℕ
first_output_bounds =
    500_000_000 ∷ 1_000_000_000 ∷ 2_000_000_000 ∷ 5_000_000_000 ∷ 10_000_000_000 ∷ 20_000_000_000
    ∷ 30_000_000_000 ∷ 60_000_000_000 ∷ 120_000_000_000 ∷ []

abbrev pub empty_bucket : BucketKey → Bucket
empty_bucket key = record {
  day = key.day;
  alias = key.alias;
  provider = key.provider;
  model = key.model;
  requests = 0;
  failures = 0;
  input_tokens = 0;
  output_tokens = 0;
  cache_read_tokens = 0;
  cache_write_tokens = 0;
  cache_reported_requests = 0;
  cache_reported_input_tokens = 0;
  estimated_requests = 0;
}

-- Go's zero value for a missing key
abbrev pub get_or {ℓ} : {A : Type ℓ} → Option A → A → A
get_or none d = d
get_or (some a) d = a

abbrev pub is_some {ℓ} : {A : Type ℓ} → Option A → Bool
is_some none = false
is_some (some _) = true
