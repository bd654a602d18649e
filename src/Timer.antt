-- ===== src/Timer.antt =====
-- venti/platform/linux/linuxtimer.h, the timer over a timerfd.
pub mod Tick
use venti.Prelude.{ℕ, update, List}
use venti.Prelude.Int.{ℤ}
use venti.Event.{Event, event_of}
use venti.Os.{Os}
use venti.Sock
use venti.World.{World}
use venti.Epoll.Submit

-- `LinuxSteadyTimer`: the address of its `sock_`, and the time to wait in nanoseconds.
pub record LinuxSteadyTimer : Type 0 where
  pub sock : ℕ
  pub nsec : ℤ

-- `SetExpire`
unfoldable pub set_expire : LinuxSteadyTimer → ℤ → LinuxSteadyTimer
set_expire t ns = record t { nsec = ns }

-- The event that `Wait` submits: the callback gets the error code.
abbrev pub timer_event : {A : Type 0} → (ℤ → List A) → Event A
timer_event cb = event_of (λ len ec. cb ec)

module _ {A S : Type 0} (os : Os S) where
  -- `LinuxSteadyTimer(Context* ctx)`
  unfoldable pub timer_open : LinuxSteadyTimer → World A S → World A S
  timer_open t w =
      let (_, sk, o) = Sock.timer os (w.socks t.sock) w.os in
      Submit.reg_sock os t.sock (record w { socks = update w.socks t.sock sk; os = o })

  -- `Wait`
  unfoldable pub timer_wait : LinuxSteadyTimer → (ℤ → List A) → World A S → World A S
  timer_wait t cb w =
      let w' : World A S = record w { os = Sock.set_time os (w.socks t.sock) t.nsec w.os } in
      Submit.submit_timer t.sock (timer_event cb) w'
