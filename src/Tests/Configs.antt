-- ===== src/Tests/Configs.antt =====
-- Examples of the theorems on the configuration and the keys of requests.
use smolllm_server.Base.{
  ◌≡◌, ◌≢◌, ◌↔◌, refl, true, false, none, some, [], ◌∷◌, arith, Text, codes, ok, text_discrete,
  trim_space, is_space, pos, has_prefix, reverse, Solid, to_lower, lower, split, contains_any,
  lookup,
}
use smolllm_server.Auth.{check_key, extract_token}
use smolllm_server.Auth.Tokens.{untrimmed_key_refused}
use smolllm_server.Config
use smolllm_server.Config.{Config, validate, splits_host_port, known_level}
use smolllm_server.Config.Loading.{Host, present, load, prepared}
use smolllm_server.Config.Paths
use smolllm_server.Config.Paths.{
  Places, Env, is_abs, resolve_path, IsClean, resolve_path-IsClean, expand_home,
}
use smolllm_server.Config.Validation.{IsValid, validate_iff}

abbrev pub config : Config
config = record {
  server = record {
    bind = codes "127.0.0.1:80";
    access_key = codes "sk-1";
    env_file = codes "/e";
    log_level = codes "warn";
    request_timeout = pos 0;
    first_output_timeout = some (pos 60_000_000_000);
    client_header_timeout = pos 0;
    disable_account_breaker = false;
  };
  aliases = (codes "fast", codes "a/x,b/y") ∷ [];
}

validate_iff_example : (validate config ≡ none) ↔ IsValid config
validate_iff_example = validate_iff config

validate_test : validate config ≡ none
unfolding validate splits_host_port known_level trim_space text_discrete split contains_any to_lower
    lower Config.validate_first_output_budget Config.budget_error Config.check_budget
    Config.check_aliases Config.check_entry
validate_test = refl

abbrev pub host : Host
host = record {
  places = record { home = some (codes "/home"); cwd = some (codes "/srv") };
  read_file = λ p. some p;
  decode_yaml = λ t. some config;
  stat = λ p. present;
  load_env = λ p env. some env;
  overload_env = λ p env. some ((codes "SMOLLLM_SERVER_ACCESS_KEY", codes "sk-2") ∷ env);
}

abbrev pub no_env : Env
no_env = []

pub host-load : load host no_env (codes "/c") ≡ ok (prepared no_env config)
unfolding load validate splits_host_port known_level trim_space text_discrete split contains_any
    to_lower lower Config.validate_first_output_budget Config.budget_error Config.check_budget
    Config.check_aliases Config.check_entry Config.apply_defaults Config.apply_env_overrides
    expand_home has_prefix lookup
host-load = refl

srv-is_abs : (d : Text) → host.places.cwd ≡ some d → is_abs d ≡ true
unfolding has_prefix
srv-is_abs d h = ground arith

resolve_test : resolve_path host.places no_env (codes "../a/./b//c") ≡ ok (codes "/a/b/c")
unfolding resolve_path Config.Paths.candidate_path expand_home Config.Paths.absolute
    Config.Paths.join Config.Paths.clean has_prefix text_discrete split lookup
resolve_test = refl

extract_token_test : extract_token (codes "Bearer  sk-1 ") ≡ codes "sk-1"
unfolding extract_token trim_space to_lower lower has_prefix text_discrete
extract_token_test = refl

spaced : trim_space (codes "sk-1 ") ≢ codes "sk-1 "
unfolding trim_space
spaced e = ground arith

untrimmed_key_refused_example : check_key (codes "sk-1 ") (codes "Bearer sk-1 ") ≢ none
untrimmed_key_refused_example = untrimmed_key_refused (codes "sk-1 ") (codes "Bearer sk-1 ") spaced

bearer : to_lower (codes "BEARER ") ≡ codes "bearer "
unfolding to_lower lower
bearer = refl

sk-Solid : Solid (codes "sk-1")
unfolding is_space
sk-Solid = refl

sk-Solid_back : Solid (reverse (codes "sk-1"))
unfolding is_space
sk-Solid_back = refl
