-- ===== src/Config.antt =====
-- internal/config/config.go: the configuration, its defaults, overrides and validation.
-- A `float64` of seconds is an integer count of nanoseconds; a nil alias map is the empty one.
pub mod Validation
pub mod Paths
pub mod Loading
pub mod Store
use smolllm_server.Base.{
  ℕ, zero, suc, ◌*◌, Bool, true, false, not, ◌&&◌, Option, none, some, List, [], ◌∷◌, any, length,
  if◌then◌else◌, ◌==◌, text_eq, text_discrete, Text, codes, trim_space, to_lower, contains_any,
  split, Dict, lookup, ℤ, pos, negsuc, ltb_ℤ, leb_ℤ, eqb, mem_char, take, drop, ◌+◌, ◌-◌,
}

pub record ServerConfig : Type 0 where
  pub bind : Text
  pub access_key : Text
  pub env_file : Text
  pub log_level : Text
  pub request_timeout : ℤ
  pub first_output_timeout : Option ℤ
  pub client_header_timeout : ℤ
  pub disable_account_breaker : Bool

pub record Config : Type 0 where
  pub server : ServerConfig
  pub aliases : Dict Text Text

pub data ConfigError : Type 0 where
  invalid_bind missing_access_key invalid_log_level : ConfigError
  negative_request_timeout negative_first_output_timeout : ConfigError
  over_budget : Text → ConfigError
  empty_alias_name : ConfigError
  forbidden_alias_name empty_alias empty_chain_entry : Text → ConfigError

abbrev pub default_bind : Text
default_bind = codes "0.0.0.0:11435"

abbrev pub default_log_level : Text
default_log_level = codes "info"

abbrev pub default_env_file : Text
default_env_file = codes "~/.env.smolllm"

abbrev pub or_default : Text → Text → Text
or_default s d = if s == [] then d else s

-- `applyDefaults`
unfoldable pub apply_defaults : Config → Config
apply_defaults c =
    let s = c.server in
    record c {
      server = record s {
        bind = or_default s.bind default_bind;
        log_level = or_default s.log_level default_log_level;
        env_file = or_default s.env_file default_env_file;
      };
    }

-- `applyEnvOverrides`, with the value of SMOLLLM_SERVER_ACCESS_KEY
unfoldable pub apply_env_overrides : Text → Config → Config
apply_env_overrides v c =
    let s = c.server in
    if not (v == []) then record c { server = record s { access_key = v } } else c

-- positions in a text, as `strings.IndexByte` and `strings.LastIndexByte` count them
unfoldable pub index_of : ℕ → Text → Option ℕ
index_of c [] = none
index_of c (x ∷ s) =
    let later : Option ℕ = elim (index_of c s) [ none ↦ none | some i ↦ some (suc i) ] in
    if eqb c x then some 0 else later

unfoldable pub last_index_of : ℕ → Text → Option ℕ
last_index_of c [] = none
last_index_of c (x ∷ s) = elim (last_index_of c s) [
  | some i ↦ some (suc i)
  | none ↦ if eqb c x then some 0 else none
]

has_char : ℕ → Text → Bool
has_char c s = mem_char c s

starts_with : ℕ → Text → Bool
starts_with c [] = false
starts_with c (x ∷ _) = eqb c x

-- the bracketed case of `net.SplitHostPort`, for the last colon `i` and the first `]` at `close`
bracketed : Text → ℕ → ℕ → Bool
bracketed s i close =
    not (eqb (close + 1) (length s))
    && eqb (close + 1) i
    && not (has_char b'[' (drop 1 s))
    && not (has_char b']' (drop (close + 1) s))

plain : Text → ℕ → Bool
plain s i = not (has_char b':' (take i s)) && not (has_char b'[' s) && not (has_char b']' s)

-- whether `net.SplitHostPort` returns no error
unfoldable pub splits_host_port : Text → Bool
unfolding index_of last_index_of has_char starts_with bracketed plain
splits_host_port s = elim (last_index_of b':' s) [
  | none ↦ false
  | some i ↦
      if starts_with b'[' s
      then elim (index_of b']' s) [ none ↦ false | some close ↦ bracketed s i close ]
      else plain s i
]

abbrev pub log_levels : List Text
log_levels = codes "debug" ∷ codes "info" ∷ codes "warn" ∷ codes "warning" ∷ codes "error" ∷ []

unfoldable pub known_level : Text → Bool
known_level level = any (λ l. to_lower level == l) log_levels

-- `defaultClientHeaderTimeout`, 300 seconds
abbrev pub default_client_header_timeout : ℤ
default_client_header_timeout = pos 300_000_000_000

abbrev pub times : ℤ → ℕ → ℤ
times (pos n) k = pos (n * k)
times (negsuc n) zero = pos 0
times (negsuc n) (suc k) = negsuc (suc n * suc k - 1)

abbrev pub legs : Text → ℕ
legs value = length (split b',' value)

-- the loop of `validateFirstOutputBudget`
unfoldable pub check_budget : ℤ → ℤ → Dict Text Text → Option ConfigError
check_budget budget limit [] = none
check_budget budget limit ((name, value) ∷ rest) =
    let later = check_budget budget limit rest in
    if leb_ℤ (times budget (legs value)) limit then later else some (over_budget name)

abbrev pub header_limit : ServerConfig → ℤ
header_limit s =
    if leb_ℤ s.client_header_timeout (pos 0)
    then default_client_header_timeout
    else s.client_header_timeout

abbrev is_zero : ℤ → Bool
is_zero (pos zero) = true
is_zero _ = false

-- the rest of `validateFirstOutputBudget`, by the configured budget
unfoldable pub budget_error : Option ℤ → ℤ → Dict Text Text → Option ConfigError
budget_error none limit m = none
budget_error (some budget) limit m = if is_zero budget then none else check_budget budget limit m

-- `validateFirstOutputBudget`
unfoldable pub validate_first_output_budget : Config → Option ConfigError
validate_first_output_budget c =
    budget_error c.server.first_output_timeout (header_limit c.server) c.aliases

abbrev pub forbidden_chars : Text
forbidden_chars = codes " \t/,"

unfoldable pub check_entry : Text × Text → Option ConfigError
check_entry (name, value) =
    if trim_space name == []
    then some empty_alias_name
    else if contains_any name forbidden_chars
    then some (forbidden_alias_name name)
    else if trim_space value == []
    then some (empty_alias name)
    else if any (λ part. trim_space part == []) (split b',' value)
    then some (empty_chain_entry name)
    else none

unfoldable pub check_aliases : Dict Text Text → Option ConfigError
check_aliases [] = none
check_aliases (entry ∷ rest) =
    let later = check_aliases rest in elim (check_entry entry) [ some e ↦ some e | none ↦ later ]

abbrev or_else : Option ConfigError → Option ConfigError → Option ConfigError
or_else (some e) later = some e
or_else none later = later

abbrev negative : Option ℤ → Bool
negative none = false
negative (some z) = ltb_ℤ z (pos 0)

-- `Validate`: the first error, or none
unfoldable pub validate : Config → Option ConfigError
validate c =
    if not (splits_host_port c.server.bind)
    then some invalid_bind
    else if trim_space c.server.access_key == []
    then some missing_access_key
    else if not (known_level c.server.log_level)
    then some invalid_log_level
    else if ltb_ℤ c.server.request_timeout (pos 0)
    then some negative_request_timeout
    else if negative c.server.first_output_timeout
    then some negative_first_output_timeout
    else or_else (validate_first_output_budget c) (check_aliases c.aliases)

-- `ResolveModel`
unfoldable pub resolve_model : Config → Text → Text
resolve_model c name = elim (lookup name c.aliases) [ some v ↦ v | none ↦ name ]
