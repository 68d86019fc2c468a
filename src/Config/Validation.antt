-- ===== src/Config/Validation.antt =====
-- What a configuration that `Validate` (internal/config/config.go) accepts is guaranteed to be.
use smolllm_server.Base.{
  zero, suc, ◌≡◌, ◌≢◌, ◌↔◌, refl, true, false, Option, none, some, List, [], ◌∷◌, arith, any, ◌==◌,
  text_eq, Text, trim_space, contains_any, split, Dict, ℤ, pos, negsuc, ◌≤ℤ◌, All,
}
use smolllm_server.Config.{
  Config, ServerConfig, validate, splits_host_port, known_level, check_budget, check_aliases,
  check_entry, validate_first_output_budget, budget_error, header_limit, times, legs,
  forbidden_chars,
}

-- The alias chain fits the time that clients wait for headers, if there is a first-output budget.
abbrev pub WithinBudget : Option ℤ → ℤ → Text × Text → Type 0
WithinBudget none limit entry = Unit
WithinBudget (some b) limit entry = times b (legs entry.1) ≤ℤ limit

pub record AliasIsValid (entry : Text × Text) : Type 0 where
  pub name_ne : trim_space entry.0 ≢ []
  pub name_plain : contains_any entry.0 forbidden_chars ≡ false
  pub value_ne : trim_space entry.1 ≢ []
  pub entries_ne : All (λ part. trim_space part ≢ []) (split b',' entry.1)

abbrev pub NotNegative : Option ℤ → Type 0
NotNegative none = Unit
NotNegative (some b) = pos 0 ≤ℤ b

pub record IsValid (c : Config) : Type 0 where
  pub bind_splits : splits_host_port c.server.bind ≡ true
  pub key_ne : trim_space c.server.access_key ≢ []
  pub level_known : known_level c.server.log_level ≡ true
  pub request_timeout_pos : pos 0 ≤ℤ c.server.request_timeout
  pub first_output_pos : NotNegative c.server.first_output_timeout
  pub budgets : All (WithinBudget c.server.first_output_timeout (header_limit c.server)) c.aliases
  pub aliases_valid : All AliasIsValid c.aliases

parts_iff :
    (parts : List Text)
    → (any (λ part. trim_space part == []) parts ≡ false) ↔ All (λ part. trim_space part ≢ []) parts
parts_iff [] = (λ _. tt, λ _. refl)
parts_iff (x ∷ xs) = ground (arith, parts_iff xs)

check_entry_iff : (entry : Text × Text) → (check_entry entry ≡ none) ↔ AliasIsValid entry
unfolding check_entry
check_entry_iff (name, value) = ground (arith, parts_iff (split b',' value))

check_aliases_iff : (m : Dict Text Text) → (check_aliases m ≡ none) ↔ All AliasIsValid m
unfolding check_aliases
check_aliases_iff [] = (λ _. tt, λ _. refl)
check_aliases_iff (entry ∷ rest) = ground (arith, check_entry_iff entry, check_aliases_iff rest)

check_budget_iff :
    (budget limit : ℤ) (m : Dict Text Text)
    → (check_budget budget limit m ≡ none) ↔ All (WithinBudget (some budget) limit) m
unfolding check_budget
check_budget_iff budget limit [] = (λ _. tt, λ _. refl)
check_budget_iff budget limit ((name, value) ∷ rest) =
    ground (arith, check_budget_iff budget limit rest)

header_limit_pos : (s : ServerConfig) → pos 0 ≤ℤ header_limit s
header_limit_pos s = ground arith

no_budget : (limit : ℤ) (m : Dict Text Text) → All (WithinBudget none limit) m
no_budget limit [] = tt
no_budget limit (_ ∷ m) = (tt, no_budget limit m)

zero_budget :
    (limit : ℤ) (m : Dict Text Text) → pos 0 ≤ℤ limit → All (WithinBudget (some (pos 0)) limit) m
zero_budget limit [] h = tt
zero_budget limit ((name, value) ∷ m) h = (omega arith, zero_budget limit m h)

budget_error_iff :
    (o : Option ℤ) (limit : ℤ) (m : Dict Text Text)
    → pos 0 ≤ℤ limit
    → (budget_error o limit m ≡ none) ↔ All (WithinBudget o limit) m
unfolding budget_error
budget_error_iff none limit m h = (λ _. no_budget limit m, λ _. refl)
budget_error_iff (some (pos zero)) limit m h = (λ _. zero_budget limit m h, λ _. refl)
budget_error_iff (some (pos (suc n))) limit m h = check_budget_iff (pos (suc n)) limit m
budget_error_iff (some (negsuc n)) limit m h = check_budget_iff (negsuc n) limit m

budgets_iff :
    (c : Config)
    → (validate_first_output_budget c ≡ none)
      ↔ All (WithinBudget c.server.first_output_timeout (header_limit c.server)) c.aliases
unfolding validate_first_output_budget
budgets_iff c =
    budget_error_iff c.server.first_output_timeout (header_limit c.server) c.aliases
      (header_limit_pos c.server)

-- `Validate` accepts a configuration exactly when it is valid: an address that splits, a key that
-- is not blank, a known log level, timeouts that are not negative, first-output budgets that fit
-- the client's header timeout for every alias, and alias names and chains that are well formed.
pub validate_iff : (c : Config) → (validate c ≡ none) ↔ IsValid c
unfolding validate
validate_iff c = ground (arith, budgets_iff c, check_aliases_iff c.aliases)
