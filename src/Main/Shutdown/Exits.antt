-- ===== src/Main/Shutdown/Exits.antt =====
-- cmd/server/main.go and internal/server/server.go: that the process ends.
use smolllm_server.Base.{
  ℕ, zero, suc, ◌+◌, ◌-◌, ◌≤◌, ◌<◌, ◌≡◌, refl, Bool, true, false, Option, none, some, arith,
  Bool-cases, inl, inr, subst,
}
use smolllm_server.Main.Shutdown.{
  Stage, selecting, shutting_down, leaving, exited, Life, Act, fails, is_closed, closes,
  gets_signal, receives, is_told, shuts_down, exits, bites, waits, started, watchdog_delay, act,
  live_act, main_act, receive, leave, overdue, has_exited, Runs, here, next,
}

-- the time is not past the end of the watchdog's sleep
abbrev InTime : ℕ → Option ℕ → Type 0
InTime now none = Unit {0}
InTime now (some t) = now ≤ t + watchdog_delay

-- whatever happens next, the process has ended at the latest at an instant, and never before that is it
-- stuck
pub data Ends (by : ℕ) : Life → Type 0 where
  over : {l : Life} (c : ℕ) → l.stage ≡ exited c → l.now ≤ by → Ends by l
  onward :
      {l m : Life} (a : Act)
      → act a l ≡ some m
      → ((b : Act) (n : Life) → act b l ≡ some n → Ends by n)
      → Ends by l

abbrev rank : Stage → ℕ
rank selecting = 3
rank shutting_down = 2
rank (leaving c) = 1
rank (exited c) = 0

abbrev flag : Bool → ℕ
flag true = 1
flag false = 0

abbrev open_flag : Bool → ℕ
open_flag true = 0
open_flag false = 1

abbrev unset_flag : Option ℕ → ℕ
unset_flag none = 1
unset_flag (some t) = 0

-- how many acts are left at most, with the watchdog due at an instant
measure : ℕ → Life → ℕ
measure by l =
    (by - l.now) + (rank l.stage + (flag l.listening + (open_flag l.closed + unset_flag l.signal)))

act-measure :
    (a : Act) (l : Life) {m : Life} (t : ℕ)
    → l.done ≡ some t
    → l.now ≤ t + watchdog_delay
    → act a l ≡ some m
    → (m.done ≡ some t)
      × (m.now ≤ t + watchdog_delay)
      × (measure (t + watchdog_delay) m < measure (t + watchdog_delay) l)
unfolding act live_act main_act receive leave overdue measure
act-measure (fails e) l t d i h = ground arith
act-measure is_closed l t d i h = ground arith
act-measure closes l t d i h = ground arith
act-measure gets_signal l t d i h = ground arith
act-measure receives l t d i h = ground arith
act-measure is_told l t d i h = ground arith
act-measure (shuts_down e) l t d i h = ground arith
act-measure exits l t d i h = ground arith
act-measure bites l t d i h = ground arith
act-measure waits l t d i h = ground arith

-- while the context is done, the watchdog can end the process or time can pass
can_act :
    (l : Life) (t : ℕ)
    → l.done ≡ some t
    → has_exited l.stage ≡ false
    → (a : Act) × (m : Life) × (act a l ≡ some m)
unfolding act live_act overdue
can_act l t d alive = elim (Bool-cases (overdue l l.done)) [
  | inl late ↦ (bites, record l { stage = exited 1; forced = true }, rw (alive, late) refl)
  | inr early ↦ (waits, record l { now = suc l.now }, rw (alive, early) refl)
]

exited-eq : (s : Stage) → has_exited s ≡ true → (c : ℕ) × (s ≡ exited c)
exited-eq (exited c) h = (c, refl)
exited-eq selecting h = cc
exited-eq shutting_down h = cc
exited-eq (leaving c) h = cc

Ends-of_measure :
    (n t : ℕ) (l : Life)
    → measure (t + watchdog_delay) l < n
    → l.done ≡ some t
    → l.now ≤ t + watchdog_delay
    → Ends (t + watchdog_delay) l
Ends-of_measure zero t l few d i = absurd (omega arith)
Ends-of_measure (suc n) t l few d i = elim (Bool-cases (has_exited l.stage)) [
  | inl gone ↦ let (c, e) = exited-eq l.stage gone in over c e i
  | inr alive ↦
      let (a, m, can) = can_act l t d alive in
      onward a can (λ b k step.
        let (d', i', less) = act-measure b l t d i step in
        Ends-of_measure n t k (omega arith) d' i')
]

act-InTime :
    (a : Act) (l : Life) {m : Life} → InTime l.now l.done → act a l ≡ some m → InTime m.now m.done
unfolding act live_act main_act receive leave overdue
act-InTime (fails e) l i h = ground arith
act-InTime is_closed l i h = ground arith
act-InTime closes l i h = ground arith
act-InTime gets_signal l i h = ground arith
act-InTime receives l i h = ground arith
act-InTime is_told l i h = ground arith
act-InTime (shuts_down e) l i h = ground arith
act-InTime exits l i h = ground arith
act-InTime bites l i h = ground arith
act-InTime waits l i h = ground arith

Runs-InTime :
    {stalls : Bool} (now : ℕ) {l : Life} → Runs stalls (started now) l → InTime l.now l.done
unfolding started
Runs-InTime now here = tt
Runs-InTime now (next {m} r a allowed step) = act-InTime a m (Runs-InTime now r) step

-- Once the context of `run` is done, which a signal or the return of `Run` brings about, the
-- process ends, whatever happens and whatever stalls: in every order of the acts it is never stuck
-- before it has exited, and it exits at the latest 10 seconds after the context was done.
pub Runs-Ends :
    (now : ℕ) {l : Life} {t : ℕ}
    → Runs true (started now) l
    → l.done ≡ some t
    → Ends (t + watchdog_delay) l
Runs-Ends now {l} {t} r d =
    let early : InTime l.now (some t) = subst (InTime l.now) d (Runs-InTime now r) in
    Ends-of_measure (suc (measure (t + watchdog_delay) l)) t l (omega arith) d early
