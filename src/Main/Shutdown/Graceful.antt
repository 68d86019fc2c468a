-- ===== src/Main/Shutdown/Graceful.antt =====
-- cmd/server/main.go and internal/server/server.go: the watchdog against a shutdown that does not stall.
use smolllm_server.Base.{ℕ, ◌+◌, ◌≤◌, ◌≡◌, refl, true, false, not, ◌||◌, Option, none, some, arith}
use smolllm_server.Main.Shutdown.{
  Stage, selecting, shutting_down, leaving, exited, Life, Act, fails, is_closed, closes,
  gets_signal, receives, is_told, shuts_down, exits, bites, waits, started, act, live_act, main_act,
  shutdown_timeout, receive, leave, overdue, idle, is_wait, Runs, here, next,
}
use smolllm_server.Stats.{is_some}

-- how the time stands to the instant at which the context was done
abbrev Since : ℕ → ℕ → Option ℕ → Type 0
Since late now none = Unit {0}
Since late now (some t) = now ≤ t + late

abbrev Before : ℕ → Option ℕ → Option ℕ → Type 0
Before now none d = ⊥
Before now (some t) none = ⊥
Before now (some t) (some d) = (now ≤ d) × (d ≤ t + shutdown_timeout)

-- at each stage no more time has passed than that stage may take
abbrev Timely : Stage → Life → Type 0
Timely selecting l = Since 0 l.now l.done × (l.forced ≡ false)
Timely shutting_down l = Before l.now l.done l.deadline × (l.forced ≡ false)
Timely (leaving c) l =
    Since shutdown_timeout l.now l.done × (is_some l.done ≡ true) × (l.forced ≡ false)
Timely (exited c) l =
    Since shutdown_timeout l.now l.done × (is_some l.done ≡ true) × (l.forced ≡ false)

act-Timely :
    (a : Act) (l : Life) {m : Life}
    → Timely l.stage l
    → (not (is_wait a) || idle l l.stage) ≡ true
    → act a l ≡ some m
    → Timely m.stage m
unfolding act live_act main_act receive leave overdue idle
act-Timely (fails e) l i q h = ground arith
act-Timely is_closed l i q h = ground arith
act-Timely closes l i q h = ground arith
act-Timely gets_signal l i q h = ground arith
act-Timely receives l i q h = ground arith
act-Timely is_told l i q h = ground arith
act-Timely (shuts_down e) l i q h = ground arith
act-Timely exits l i q h = ground arith
act-Timely bites l i q h = ground arith
act-Timely waits l i q h = ground arith

Runs-Timely : (now : ℕ) {l : Life} → Runs false (started now) l → Timely l.stage l
unfolding started
Runs-Timely now here = (tt, refl)
Runs-Timely now (next {m} r a allowed step) = act-Timely a m (Runs-Timely now r) allowed step

Timely-forced : (l : Life) (s : Stage) → Timely s l → l.forced ≡ false
Timely-forced l selecting i = i.1
Timely-forced l shutting_down i = i.1
Timely-forced l (leaving c) i = i.2
Timely-forced l (exited c) i = i.2

Timely-in_time :
    (l : Life) (s : Stage) {t : ℕ} → Timely s l → l.done ≡ some t → l.now ≤ t + shutdown_timeout
Timely-in_time l selecting i d = ground arith
Timely-in_time l shutting_down i d = ground arith
Timely-in_time l (leaving c) i d = ground arith
Timely-in_time l (exited c) i d = ground arith

-- If nothing stalls (`main` goes on at once where it can, and `Shutdown` answers before its context
-- expires), the watchdog never ends the process, and at most 5 seconds pass between the instant at which
-- the context of `run` is done and the end of the process.
pub Runs-graceful :
    (now : ℕ) {l : Life}
    → Runs false (started now) l
    → (l.forced ≡ false) × ((t : ℕ) → l.done ≡ some t → l.now ≤ t + shutdown_timeout)
Runs-graceful now {l} r =
    let timely = Runs-Timely now r in
    (Timely-forced l l.stage timely, λ t d. Timely-in_time l l.stage timely d)
