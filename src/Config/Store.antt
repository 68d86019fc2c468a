-- ===== src/Config/Store.antt =====
-- internal/config/config.go: the `Store` that holds the configuration in use.
use smolllm_server.Base.{Text, Result, ok, err}
use smolllm_server.Config.{Config}
use smolllm_server.Config.Loading.{Host, LoadError, load}
use smolllm_server.Config.Paths.{Env}

-- `Store`: the path, and what the atomic pointer points to
pub record Holder : Type 0 where
  pub path : Text
  pub cur : Config

-- `NewStore`
abbrev pub new_store : Text → Config → Holder
new_store path initial = record { path = path; cur = initial }

-- what a load leaves: the configuration that it loaded, or the one of before and the error
abbrev pub swapped : Result LoadError Config → Holder → Holder × Result LoadError (Config × Config)
swapped (err e) s = (s, err e)
swapped (ok loaded) s = (record s { cur = loaded }, ok (loaded, s.cur))

-- `Reload`: the new and the old configuration, or the error
unfoldable pub reload : Host → Env → Holder → Holder × Result LoadError (Config × Config)
reload host env s = swapped (load host env s.path) s
