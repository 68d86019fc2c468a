-- ===== src/Main.antt =====
-- cmd/server/main.go: start-up, reload of the configuration, and the two pure helpers.
pub mod Shutdown
pub mod Lifecycle
pub mod Watch
pub mod Stored
pub mod Keys
use smolllm_server.Base.{
  ◌>>=◌, ℕ, ◌-◌, Bool, true, false, not, ◌||◌, none, some, List, [], ◌++◌, if◌then◌else◌, ◌==◌,
  text_eq, text_discrete, Text, codes, to_lower, Result, ok, err, length, leb, replicate, take,
  drop,
}
use smolllm_server.Config.{Config, ConfigError, validate}
use smolllm_server.Config.Paths.{PathError, Env, resolve_path}
use smolllm_server.Config.Loading.{Host, LoadError, EnvFileError, load, load_env_file}

-- `slog.Level`
pub data Level : Type 0 where
  debug info warn error : Level

-- `parseLevel`
unfoldable pub parse_level : Text → Level
parse_level level =
    let l = to_lower level in
    if l == codes "debug"
    then debug
    else if l == codes "warn" || l == codes "warning"
    then warn
    else if l == codes "error"
    then error
    else info

-- `maskKey`, on the bytes of the key; `string(b)` of a byte is the code point `b`
unfoldable pub mask_key : List ℕ → Text
mask_key k =
    if leb (length k) 2
    then codes "***"
    else take 1 k ++ (replicate (length k - 2) b'*' ++ drop (length k - 1) k)

-- The state of the process: its environment, the configuration in the store, the level of the
-- logger and the address that it listens on.
pub record Process : Type 0 where
  pub env : Env
  pub cur : Config
  pub level : Level
  pub bind : Text

pub data StartError : Type 0 where
  path_error : PathError → StartError
  load_error : LoadError → StartError
  flag_error : ConfigError → StartError
  env_error : EnvFileError → StartError

abbrev mapped {ℓ} : {E : Type 0} {A : Type ℓ} → (E → StartError) → Result E A → Result StartError A
mapped f (ok a) = ok a
mapped f (err e) = err (f e)

-- the flag `--bind`
unfoldable pub with_bind : Text → Config → Result StartError Config
with_bind flag c =
    let s = c.server in
    let bound = record c { server = record s { bind = flag } } in
    if not (flag == [])
    then elim (validate bound) [ none ↦ ok bound | some e ↦ err (flag_error e) ]
    else ok c

abbrev listening : Env → Config → Process
listening env c = record {
  env = env;
  cur = c;
  level = parse_level c.server.log_level;
  bind = c.server.bind;
}

-- `run`, up to the point where the server listens: the path that is watched, and the process
unfoldable pub start : Host → Env → Text → Text → Result StartError (Text × Process)
start host env flag_config flag_bind = do
  path ← mapped path_error (resolve_path host.places env flag_config)
  loaded ← mapped load_error (load host env path)
  bound ← with_bind flag_bind loaded
  sourced ← mapped env_error (load_env_file host false bound env)
  ok (path, listening sourced bound)

abbrev env_or : Env → Result EnvFileError Env → Env
env_or env (ok sourced) = sourced
env_or env (err e) = env

-- `doReload` with `Store.Reload`, and whether it warns that the address has changed
unfoldable pub do_reload : Host → Text → Process → Process × Bool
do_reload host path p = elim (load host p.env path) [
  | err e ↦ (p, false)
  | ok new ↦ (
    record {
      env = env_or p.env (load_env_file host true new p.env);
      cur = new;
      level =
          if not (new.server.log_level == p.cur.server.log_level)
          then parse_level new.server.log_level
          else p.level;
      bind = p.bind;
    },
    not (new.server.bind == p.bind),
  )
]
