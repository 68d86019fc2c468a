-- ===== src/Main/Shutdown/Codes.antt =====
-- cmd/server/main.go and internal/server/server.go: what the exit code says.
use smolllm_server.Base.{ℕ, ◌≡◌, ◌↔◌, Bool, true, false, none, some, arith, subst}
use smolllm_server.Main.Shutdown.{
  Stage, selecting, shutting_down, leaving, exited, Life, Act, fails, is_closed, closes,
  gets_signal, receives, is_told, shuts_down, exits, bites, waits, started, act, live_act, main_act,
  receive, leave, overdue, Runs, here, next,
}
use smolllm_server.Stats.{is_some}

-- what each stage says of the process
abbrev Tells : Stage → Life → Type 0
Tells selecting l =
    (l.deadline ≡ none)
    × (is_some l.done ≡ is_some l.signal)
    × (l.listening ≡ false → is_some l.sent ≡ true)
    × (l.closed ≡ true → l.listening ≡ false)
    × (l.drained ≡ false)
    × (l.forced ≡ false)
Tells shutting_down l = (is_some l.signal ≡ true) × (l.drained ≡ false) × (l.forced ≡ false)
Tells (leaving c) l =
    (c ≡ 0 → (is_some l.signal ≡ true) × (l.drained ≡ true))
    × (l.drained ≡ true → c ≡ 0)
    × (l.forced ≡ false)
Tells (exited c) l =
    (c ≡ 0 → (is_some l.signal ≡ true) × (l.drained ≡ true) × (l.forced ≡ false))
    × (l.drained ≡ true → l.forced ≡ false → c ≡ 0)

act-Tells : (a : Act) (l : Life) {m : Life} → Tells l.stage l → act a l ≡ some m → Tells m.stage m
unfolding act live_act main_act receive leave overdue
act-Tells (fails e) l i h = ground arith
act-Tells is_closed l i h = ground arith
act-Tells closes l i h = ground arith
act-Tells gets_signal l i h = ground arith
act-Tells receives l i h = ground arith
act-Tells is_told l i h = ground arith
act-Tells (shuts_down e) l i h = ground arith
act-Tells exits l i h = ground arith
act-Tells bites l i h = ground arith
act-Tells waits l i h = ground arith

Runs-Tells : {stalls : Bool} (now : ℕ) {l : Life} → Runs stalls (started now) l → Tells l.stage l
unfolding started
Runs-Tells now here = ground arith
Runs-Tells now (next {m} r a allowed step) = act-Tells a m (Runs-Tells now r) step

-- The process exits with code 0 exactly if `Shutdown` answered without an error and the watchdog did
-- not end the process; and then a signal has come.
pub Runs-code :
    (now : ℕ) {l : Life} {c : ℕ}
    → Runs true (started now) l
    → l.stage ≡ exited c
    → ((c ≡ 0) ↔ ((l.drained ≡ true) × (l.forced ≡ false))) × (c ≡ 0 → is_some l.signal ≡ true)
Runs-code now {l} {c} r gone =
    let (ends, exact) = subst (λ s. Tells s l) gone (Runs-Tells now r) in
    (((λ z. ((ends z).1, (ends z).2)), (λ h. exact h.0 h.1)), (λ z. (ends z).0))
