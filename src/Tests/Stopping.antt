-- ===== src/Tests/Stopping.antt =====
-- Examples of the theorems on the end of the process.
use smolllm_server.Base.{ℕ, ◌≡◌, ◌↔◌, refl, Bool, true, false, ◌||◌, none, some, ◌≤◌, ◌+◌}
use smolllm_server.Main.Shutdown.{
  selecting, shutting_down, leaving, exited, Life, gets_signal, is_told, shuts_down, exits, started,
  act, live_act, main_act, leave, shutdown_timeout, Runs, here, next,
}
use smolllm_server.Stats.{is_some}
use smolllm_server.Main.Shutdown.Exits.{Ends, Runs-Ends}
use smolllm_server.Main.Shutdown.Codes.{Runs-code}
use smolllm_server.Main.Shutdown.Graceful.{Runs-graceful}

-- a server that gets a signal at once, and shuts down
abbrev listening : Life
listening = record {
  now = 0;
  listening = true;
  sent = none;
  closed = false;
  signal = none;
  done = none;
  deadline = none;
  stage = selecting;
  drained = false;
  forced = false;
}

abbrev signalled : Life
signalled = record listening { signal = some 0; done = some 0 }

abbrev told : Life
told = record signalled { stage = shutting_down; deadline = some 5_000 }

abbrev left : Life
left = record told { stage = leaving 0; drained = true }

abbrev gone : Life
gone = record left { stage = exited 0 }

at_once : (stalls b : Bool) → (stalls || true || b) ≡ true
at_once true b = refl
at_once false b = refl

signalled-Runs : (stalls : Bool) → Runs stalls (started 0) signalled
unfolding started act live_act
signalled-Runs stalls = next here gets_signal (at_once stalls _) refl

gone-Runs : (stalls : Bool) → Runs stalls (started 0) gone
unfolding started act live_act main_act leave
gone-Runs stalls =
    let at_shutdown : Runs stalls (started 0) told =
      next (signalled-Runs stalls) is_told (at_once stalls _) refl in
    let at_exit : Runs stalls (started 0) left =
      next at_shutdown (shuts_down none) (at_once stalls _) refl in
    next at_exit exits (at_once stalls _) refl

Runs-Ends_example : Ends 10_000 signalled
Runs-Ends_example = Runs-Ends 0 (signalled-Runs true) refl

Runs-code_example :
    ((◌≡◌ {A = ℕ} 0 0) ↔ ((gone.drained ≡ true) × (gone.forced ≡ false)))
    × (◌≡◌ {A = ℕ} 0 0 → is_some gone.signal ≡ true)
Runs-code_example = Runs-code 0 (gone-Runs true) refl

Runs-graceful_example :
    (gone.forced ≡ false) × ((t : ℕ) → gone.done ≡ some t → gone.now ≤ t + shutdown_timeout)
Runs-graceful_example = Runs-graceful 0 (gone-Runs false)
