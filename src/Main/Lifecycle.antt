-- ===== src/Main/Lifecycle.antt =====
-- cmd/server/main.go over the life of the process: start-up followed by any number of reloads,
-- each with whatever the file system holds then.
use smolllm_server.Base.{
  ◌≡◌, ◌≢◌, refl, false, not, [], ◌==◌, text_eq, Text, Result, ok, err, >>=-eq-ok, arith,
  Bool-cases, Option-cases, ◌⊎◌, inl, inr, subst,
}
use smolllm_server.Config.{Config, validate}
use smolllm_server.Config.Paths.{Env, getenv, resolve_path}
use smolllm_server.Config.Loading.{Host, load, load_env_file, env_access_key, load-IsLoaded}
use smolllm_server.Config.Validation.{IsValid, validate_iff}
use smolllm_server.Main.{
  Process, parse_level, StartError, start, with_bind, do_reload, listening, mapped, path_error,
  load_error, env_error,
}

-- the states that the process can reach from a state by reloads
pub data Reach (path : Text) (p : Process) : Process → Type 0 where
  here : Reach path p p
  reload : {q : Process} (host : Host) → Reach path p q → Reach path p (do_reload host path q).0

-- What holds of a running process: its configuration is valid and its logger has the level that the
-- configuration names.
pub record IsRunning (bind : Text) (p : Process) : Type 0 where
  pub valid : IsValid p.cur
  pub level_is : p.level ≡ parse_level p.cur.server.log_level
  pub bind_is : p.bind ≡ bind

with_bind-IsValid :
    (flag : Text) (c : Config) {d : Config} → IsValid c → with_bind flag c ≡ ok d → IsValid d
unfolding with_bind
with_bind-IsValid flag c {d} v h = elim (Bool-cases (not (flag == []))) [
  | inr unset ↦ let e : c ≡ d = cc (rw unset at h) in subst IsValid e v
  | inl set ↦
      let s = c.server in
      let bound : Config = record c { server = record s { bind = flag } } in
      elim (Option-cases (validate bound)) [
        | inl fine ↦
            let e : bound ≡ d = cc (rw (set, fine) at h) in
            subst IsValid e ((validate_iff bound).0 fine)
        | inr (e, bad) ↦ cc (rw (set, bad) at h)
      ]
]

pub Result-cases {ℓ κ} :
    {E : Type ℓ} {A : Type κ} (r : Result E A) → ((e : E) × (r ≡ err e)) ⊎ ((a : A) × (r ≡ ok a))
Result-cases (ok a) = inr (a, refl)
Result-cases (err e) = inl (e, refl)

do_reload-IsRunning :
    (host : Host) (path bind : Text) (p : Process)
    → IsRunning bind p
    → IsRunning bind (do_reload host path p).0
unfolding do_reload
do_reload-IsRunning host path bind p r = elim (Result-cases (load host p.env path)) [
  | inl (e, failed) ↦ rw (failed, do_reload) r
  | inr (new, loaded) ↦
      let l = load-IsLoaded host p.env path loaded in
      rw (loaded, do_reload)
        (record { valid = l.valid; level_is = ground (arith, r.level_is); bind_is = r.bind_is })
]

mapped-eq-ok {ℓ} :
    {E : Type 0} {A : Type ℓ} (f : E → StartError) {r : Result E A} {a : A}
    → mapped f r ≡ ok a
    → r ≡ ok a
mapped-eq-ok f {r = ok b} h = cc
mapped-eq-ok f {r = err e} h = cc

start-IsRunning :
    (host : Host) (env : Env) (flag_config flag_bind : Text) {path : Text} {p : Process}
    → start host env flag_config flag_bind ≡ ok (path, p)
    → IsRunning p.bind p
unfolding start
start-IsRunning host env flag_config flag_bind {path} {p} h =
    let (at, _, h₁) =
      >>=-eq-ok (mapped path_error (resolve_path host.places env flag_config)) _ h in
    let (loaded, l, h₂) = >>=-eq-ok (mapped load_error (load host env at)) _ h₁ in
    let (bound, b, h₃) = >>=-eq-ok (with_bind flag_bind loaded) _ h₂ in
    let (sourced, _, h₄) = >>=-eq-ok (mapped env_error (load_env_file host false bound env)) _ h₃ in
    let valid =
      with_bind-IsValid flag_bind loaded
        (load-IsLoaded host env at (mapped-eq-ok load_error l)).valid b in
    let e : listening sourced bound ≡ p = cc h₄ in
    subst (λ q. IsRunning q.bind q) e (record { valid = valid; level_is = refl; bind_is = refl })

-- In every state that the process reaches from a successful start by reloads, whatever the files
-- hold at each reload, the configuration served is valid, the logger has the level that this
-- configuration names, and the listening address is the one of the start.
pub Reach-IsRunning :
    (host : Host) (env : Env) (flag_config flag_bind : Text) {path : Text} {p q : Process}
    → start host env flag_config flag_bind ≡ ok (path, p)
    → Reach path p q
    → IsRunning p.bind q
Reach-IsRunning host env flag_config flag_bind h here =
    start-IsRunning host env flag_config flag_bind h
Reach-IsRunning host env flag_config flag_bind {path} {p} h (reload {q} host' r) =
    do_reload-IsRunning host' path p.bind q (Reach-IsRunning host env flag_config flag_bind h r)

-- A reload that succeeds takes the access key from the environment of the process wherever that
-- sets one, also where the environment has it only from the env file that was sourced after the
-- previous load.
pub do_reload-access_key :
    (host : Host) (path : Text) (p : Process) {c : Config}
    → load host p.env path ≡ ok c
    → getenv p.env env_access_key ≢ []
    → (do_reload host path p).0.cur.server.access_key ≡ getenv p.env env_access_key
unfolding do_reload
do_reload-access_key host path p h set =
    let l = load-IsLoaded host p.env path h in rw (h, do_reload) (ground (arith, l.key_from_env))
