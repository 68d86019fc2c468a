-- ===== src/Main/Shutdown.antt =====
-- cmd/server/main.go, `main` and `run` from `signal.NotifyContext` on with the shutdown watchdog, and
-- internal/server/server.go, `Run`: the goroutine that listens, the one that runs `main`, and the
-- watchdog, in any interleaving. Time is in milliseconds, and a timer is served in the millisecond
-- in which it is due. net/http answers through the acts `fails`, `is_closed` and `shuts_down`: it may
-- fail or stall at any time, and `ListenAndServe` answers ErrServerClosed only after `Shutdown` was
-- called. A signal after the deferred `stop` is left out.
pub mod Exits
pub mod Codes
pub mod Graceful
use smolllm_server.Base.{
  ℕ, suc, ◌+◌, ◌≡◌, Bool, true, false, not, ◌&&◌, ◌||◌, Option, none, some, Text, if◌then◌else◌,
  ltb, leb,
}
use smolllm_server.Stats.{is_some}

-- where the goroutine of `main` is: at the select of `Run`, in `Shutdown`, on the way out with the
-- code that `main` will exit with, or gone with the process
pub data Stage : Type 0 where
  selecting shutting_down : Stage
  leaving exited : ℕ → Stage

-- the process: `errCh` as what it holds and whether it is closed, when a signal came, when the context
-- of `run` was done, when `shutdownCtx` expires, whether `Shutdown` answered nil, and whether the
-- watchdog ended the process
pub record Life : Type 0 where
  pub now : ℕ
  pub listening : Bool
  pub sent : Option Text
  pub closed : Bool
  pub signal : Option ℕ
  pub done : Option ℕ
  pub deadline : Option ℕ
  pub stage : Stage
  pub drained : Bool
  pub forced : Bool

-- what can happen next
pub data Act : Type 0 where
  fails : Text → Act
  is_closed closes gets_signal receives is_told : Act
  shuts_down : Option Text → Act
  exits bites waits : Act

unfoldable pub started : ℕ → Life
started now = record {
  now = now;
  listening = true;
  sent = none;
  closed = false;
  signal = none;
  done = none;
  deadline = none;
  stage = selecting;
  drained = false;
  forced = false;
}

abbrev pub shutdown_timeout : ℕ
shutdown_timeout = 5_000

abbrev pub watchdog_delay : ℕ
watchdog_delay = 10_000

-- a context stays done since the first time
abbrev pub done_by : ℕ → Option ℕ → Option ℕ
done_by now none = some now
done_by now (some t) = some t

-- `Run` returns, `run` with it, and `stop` is called; `main` exits with 1 on an error
abbrev pub code_of : Option Text → ℕ
code_of none = 0
code_of (some e) = 1

unfoldable pub leave : Option Text → Life → Life
leave e l = record l { stage = leaving (code_of e); done = done_by l.now l.done }

-- `case err := <-errCh`
unfoldable pub receive : Life → Option Text → Option Life
unfolding leave
receive l (some e) = some (leave (some e) (record l { sent = none }))
receive l none = if l.closed then some (leave none l) else none

-- whether the watchdog's sleep is over
unfoldable pub overdue : Life → Option ℕ → Bool
overdue l none = false
overdue l (some t) = leb (t + watchdog_delay) l.now

-- `case <-ctx.Done()`
abbrev pub tell : Life → Option ℕ → Option Life
tell l none = none
tell l (some t) =
    some (record l { stage = shutting_down; deadline = some (l.now + shutdown_timeout) })

-- the goroutine of `main`
unfoldable pub main_act : Stage → Act → Life → Option Life
unfolding leave receive
main_act selecting receives l = receive l l.sent
main_act selecting is_told l = tell l l.done
main_act shutting_down (shuts_down e) l = some (leave e (record l { drained = not (is_some e) }))
main_act (leaving c) exits l = some (record l { stage = exited c })
main_act _ _ l = none

abbrev pub is_running : Stage → Bool
is_running selecting = true
is_running shutting_down = true
is_running (leaving c) = false
is_running (exited c) = false

-- one step of a process that has not ended
unfoldable pub live_act : Act → Life → Option Life
unfolding main_act overdue
live_act (fails e) l =
    if l.listening then some (record l { listening = false; sent = some e }) else none
live_act is_closed l =
    if l.listening && is_some l.deadline then some (record l { listening = false }) else none
live_act closes l =
    if not l.listening && not l.closed then some (record l { closed = true }) else none
live_act gets_signal l =
    if is_running l.stage && not (is_some l.signal)
    then some (record l { signal = some l.now; done = done_by l.now l.done })
    else none
live_act bites l =
    if overdue l l.done then some (record l { stage = exited 1; forced = true }) else none
live_act waits l = if overdue l l.done then none else some (record l { now = suc l.now })
live_act a l = main_act l.stage a l

abbrev pub has_exited : Stage → Bool
has_exited (exited c) = true
has_exited s = false

-- one step: the process that is left, or none where the act cannot happen
unfoldable pub act : Act → Life → Option Life
unfolding live_act
act a l = if has_exited l.stage then none else live_act a l

-- whether `main` has nothing to do but to wait
unfoldable pub idle : Life → Stage → Bool
idle l selecting = not (is_some l.sent) && not l.closed && not (is_some l.done)
idle l shutting_down = elim l.deadline [ none ↦ true | some t ↦ ltb l.now t ]
idle l (leaving c) = false
idle l (exited c) = true

abbrev pub is_wait : Act → Bool
is_wait waits = true
is_wait a = false

-- the processes that acts lead to: if nothing stalls, time passes only while `main` is idle, and so
-- `Shutdown` answers before its context expires
pub data Runs (stalls : Bool) (l : Life) : Life → Type 0 where
  here : Runs stalls l l
  next :
      {m n : Life}
      → Runs stalls l m
      → (a : Act) → (stalls || not (is_wait a) || idle m m.stage) ≡ true
      → act a m ≡ some n
      → Runs stalls l n
