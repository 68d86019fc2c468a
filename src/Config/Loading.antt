-- ===== src/Config/Loading.antt =====
-- internal/config/config.go: `Load`, and `loadEnvFile` behind LoadEnvFile and ReloadEnvFile.
-- The file system, the YAML decoder (gopkg.in/yaml.v3) and the env-file loader
-- (github.com/joho/godotenv) are not part of the repository: a `Host` supplies them.
use smolllm_server.Base.{
  ◌≡◌, ◌≢◌, Bool, Option, none, some, [], if◌then◌else◌, ◌==◌, text_eq, Text, codes, Result, ok,
  err, ◌>>=◌, ◌>>◌, >>=-eq-ok, arith, subst, Option-cases, inl, inr, ◌⊎◌,
}
use smolllm_server.Config.{Config, ConfigError, apply_defaults, apply_env_overrides, validate}
use smolllm_server.Config.Paths.{PathError, Places, Env, getenv, expand_home, env_file_path}
use smolllm_server.Config.Validation.{IsValid, validate_iff}

-- what `os.Stat` says of a path
pub data FileStatus : Type 0 where
  present missing inaccessible : FileStatus

pub record Host : Type 0 where
  pub places : Places
  pub read_file : Text → Option Text
  pub decode_yaml : Text → Option Config
  pub stat : Text → FileStatus
  -- `godotenv.Load` and `godotenv.Overload` of a path: the environment after it
  pub load_env : Text → Env → Option Env
  pub overload_env : Text → Env → Option Env

pub data LoadError : Type 0 where
  bad_path : PathError → LoadError
  unreadable bad_yaml : LoadError
  invalid : ConfigError → LoadError

abbrev pub env_access_key : Text
env_access_key = codes "SMOLLLM_SERVER_ACCESS_KEY"

abbrev or_fail {ℓ} : {A : Type ℓ} → Option A → LoadError → Result LoadError A
or_fail none e = err e
or_fail (some a) e = ok a

abbrev at_path {ℓ} : {A : Type ℓ} → Result PathError A → Result LoadError A
at_path (ok a) = ok a
at_path (err e) = err (bad_path e)

abbrev checked : Option ConfigError → Result LoadError (Unit {0})
checked none = ok tt
checked (some e) = err (invalid e)

abbrev pub prepared : Env → Config → Config
prepared env c = apply_env_overrides (getenv env env_access_key) (apply_defaults c)

-- `Load`
unfoldable pub load : Host → Env → Text → Result LoadError Config
load host env path = do
  expanded ← at_path (expand_home host.places path)
  text ← or_fail (host.read_file expanded) unreadable
  decoded ← or_fail (host.decode_yaml text) bad_yaml
  checked (validate (prepared env decoded))
  ok (prepared env decoded)

pub data EnvFileError : Type 0 where
  no_path : PathError → EnvFileError
  no_stat no_load : EnvFileError

-- the file at the end of `loadEnvFile`, by what `os.Stat` says
unfoldable pub source_env : Host → Bool → Text → Env → FileStatus → Result EnvFileError Env
source_env host overload path env missing = ok env
source_env host overload path env inaccessible = err no_stat
source_env host overload path env present =
    elim (if overload then host.overload_env path env else host.load_env path env) [
      | none ↦ err no_load
      | some env' ↦ ok env'
    ]

-- `loadEnvFile`: `overload` is false in `LoadEnvFile` and true in `ReloadEnvFile`
unfoldable pub load_env_file : Host → Bool → Config → Env → Result EnvFileError Env
unfolding source_env
load_env_file host overload c env = elim (env_file_path host.places c) [
  | err e ↦ err (no_path e)
  | ok path ↦ if path == [] then ok env else source_env host overload path env (host.stat path)
]

-- What holds of every configuration that `Load` returns.
pub record IsLoaded (env : Env) (c : Config) : Type 0 where
  pub valid : IsValid c
  pub bind_ne : c.server.bind ≢ []
  pub level_ne : c.server.log_level ≢ []
  pub env_file_ne : c.server.env_file ≢ []
  pub key_from_env :
      (getenv env env_access_key ≡ []) ⊎ (c.server.access_key ≡ getenv env env_access_key)

prepared-IsLoaded :
    (env : Env) (c : Config) → validate (prepared env c) ≡ none → IsLoaded env (prepared env c)
unfolding apply_defaults apply_env_overrides
prepared-IsLoaded env c h = record {
  valid = (validate_iff (prepared env c)).0 h;
  bind_ne = ground arith;
  level_ne = ground arith;
  env_file_ne = ground arith;
  key_from_env = ground arith;
}

-- A configuration that `Load` returns is valid, has an address, a log level and an env file, and has
-- the access key of the environment wherever the environment sets one.
pub load-IsLoaded :
    (host : Host) (env : Env) (path : Text) {c : Config}
    → load host env path ≡ ok c
    → IsLoaded env c
unfolding load
load-IsLoaded host env path {c} h =
    let (expanded, _, h₁) = >>=-eq-ok (at_path (expand_home host.places path)) _ h in
    let (text, _, h₂) = >>=-eq-ok (or_fail (host.read_file expanded) unreadable) _ h₁ in
    let (decoded, _, h₃) = >>=-eq-ok (or_fail (host.decode_yaml text) bad_yaml) _ h₂ in
    elim (Option-cases (validate (prepared env decoded))) [
      | inl fine ↦
          let e : prepared env decoded ≡ c = cc (rw fine at h₃) in
          subst (IsLoaded env) e (prepared-IsLoaded env decoded fine)
      | inr (e, bad) ↦ cc (rw bad at h₃)
    ]
