-- ===== src/Main/Stored.antt =====
-- cmd/server/main.go and internal/config/config.go: the configuration of the process is the one in
-- the store.
use smolllm_server.Base.{◌≡◌, refl, Text, inl, inr}
use smolllm_server.Config.Loading.{Host, load}
use smolllm_server.Config.Store.{new_store, reload}
use smolllm_server.Main.{Process, do_reload}
use smolllm_server.Main.Lifecycle.{Result-cases}

-- After `doReload` the process runs with what `Store.Reload` has put into the store: the new
-- configuration, or the one of before where it cannot be loaded.
pub do_reload-reload :
    (host : Host) (path : Text) (p : Process)
    → (do_reload host path p).0.cur ≡ (reload host p.env (new_store path p.cur)).0.cur
unfolding reload do_reload
do_reload-reload host path p = elim (Result-cases (load host p.env path)) [
  | inl (e, failed) ↦ rw (failed, do_reload) refl
  | inr (new, loaded) ↦ rw (loaded, do_reload) refl
]
