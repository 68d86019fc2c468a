-- ===== src/Tests/Processes.antt =====
-- Examples of the theorems on the life of the process and the file watcher.
use smolllm_server.Base.{
  map, ◌++◌, ℕ, ◌≡◌, ◌≢◌, refl, true, List, [], ◌∷◌, arith, Text, codes, ok, text_discrete,
  trim_space, has_prefix, to_lower, lower, split, contains_any, lookup,
}
use smolllm_server.Config
use smolllm_server.Config.{Config, validate, splits_host_port, known_level}
use smolllm_server.Config.Loading.{load, load_env_file, prepared, env_access_key}
use smolllm_server.Config.Paths
use smolllm_server.Config.Paths.{Env, getenv, resolve_path, expand_home}
use smolllm_server.Main.{Process, start, with_bind, do_reload, parse_level, warn}
use smolllm_server.Main.Lifecycle.{here, reload, IsRunning, Reach-IsRunning, do_reload-access_key}
use smolllm_server.Main.Watch.{Event, base_name, Burst, is_config}
use smolllm_server.Main.Watch.Files.{Received, changed, watch_failed, done}
use smolllm_server.Tests.Configs.{config, host, no_env}

-- the process after a start with `host`
abbrev running : Process
running = record {
  env = no_env;
  cur = prepared no_env config;
  level = warn;
  bind = codes "127.0.0.1:80";
}

host-start : start host no_env (codes "/c") [] ≡ ok (codes "/c", running)
unfolding start with_bind parse_level load_env_file resolve_path load validate splits_host_port
    known_level trim_space text_discrete split contains_any to_lower lower
    Config.validate_first_output_budget Config.budget_error Config.check_budget Config.check_aliases
    Config.check_entry Config.apply_defaults Config.apply_env_overrides expand_home has_prefix
    lookup Config.Paths.candidate_path Config.Paths.absolute Config.Paths.clean
    Config.Paths.env_file_path
host-start = refl

abbrev reloaded : Process
reloaded = (do_reload host (codes "/c") running).0

Reach-IsRunning_example : IsRunning (codes "127.0.0.1:80") reloaded
Reach-IsRunning_example = Reach-IsRunning host no_env (codes "/c") [] host-start (reload host here)

-- the environment after the env file was sourced, which is what the next reload reads
abbrev sourced_env : Env
sourced_env = (codes "SMOLLLM_SERVER_ACCESS_KEY", codes "sk-2") ∷ []

abbrev sourced : Process
sourced = record running { env = sourced_env }

host-load_again : load host sourced_env (codes "/c") ≡ ok (prepared sourced_env config)
unfolding load validate splits_host_port known_level trim_space text_discrete split contains_any
    to_lower lower Config.validate_first_output_budget Config.budget_error Config.check_budget
    Config.check_aliases Config.check_entry Config.apply_defaults Config.apply_env_overrides
    expand_home has_prefix lookup
host-load_again = refl

sourced-key : getenv sourced_env env_access_key ≢ []
unfolding lookup text_discrete
sourced-key e = ground arith

do_reload-access_key_example :
    (do_reload host (codes "/c") sourced).0.cur.server.access_key
    ≡ getenv sourced_env env_access_key
do_reload-access_key_example =
    do_reload-access_key host (codes "/c") sourced host-load_again sourced-key

-- The first reload sources the env file and still serves the key of the configuration file.
first_reload_test : reloaded.cur.server.access_key ≡ codes "sk-1"
unfolding do_reload load validate splits_host_port known_level trim_space text_discrete split
    contains_any to_lower lower Config.validate_first_output_budget Config.budget_error
    Config.check_budget Config.check_aliases Config.check_entry Config.apply_defaults
    Config.apply_env_overrides expand_home has_prefix lookup
first_reload_test = refl

abbrev event_at : ℕ → Text → Event
event_at t name = record { time = t; name = name }

abbrev events : List Event
events =
    event_at 100 (codes "/c/x") ∷ event_at 150 (codes "/c/tmp") ∷ event_at 900 (codes "/c/x") ∷ []

abbrev received : List Received
received = map changed events ++ (watch_failed (codes "queue") ∷ done ∷ [])

ours : is_config (codes "x") (event_at 100 (codes "/c/x")) ≡ true
unfolding base_name text_discrete split
ours = refl

later_ours : is_config (codes "x") (event_at 290 (codes "/c/x")) ≡ true
unfolding base_name text_discrete split
later_ours = refl

burst : Burst (codes "x") 100 (event_at 290 (codes "/c/x") ∷ [])
burst = (omega arith, omega arith, later_ours, tt)
