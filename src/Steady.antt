-- ===== src/Steady.antt =====
-- The timer that programs use, `SteadyTimer` of venti/timer/timer.h. Its `PltSteadyTimer` is
-- `WinSteadyTimer` of venti/platform/win/wintimer.h on every system (venti/platform/plttimer.h), a
-- sleep in a task of `std::async`.
pub mod Firing
use venti.Prelude.{ℕ, List}
use venti.Prelude.Int.{ℤ, pos}
use venti.Event.{Event, event_of}
use venti.World.{World}
use venti.Context.{submit_complete}

-- `WinSteadyTimer`
pub record WinSteadyTimer (A : Type 0) : Type 0 where
  pub nsec : ℤ
  pub cb : ℤ → List A

-- `std::async` without a policy leaves it to the library whether the task runs in a thread of its own
-- or is deferred.
pub data Launch : Type 0 where
  threaded deferred : Launch

pub record SteadyOs (S : Type 0) : Type 0 where
  pub launch : S → Launch
  pub sleep_for : ℤ → S → S

module _ {A : Type 0} where
  -- `SetExpire`
  unfoldable pub steady_set_expire : WinSteadyTimer A → ℤ → WinSteadyTimer A
  steady_set_expire t ns = record t { nsec = ns }

  -- `SteadyTimer(Context& ctx, chrono::nanoseconds ns)`
  unfoldable pub steady_open : WinSteadyTimer A → ℤ → WinSteadyTimer A
  unfolding steady_set_expire
  steady_open t ns = steady_set_expire t ns

  -- The event that the task submits. Its callback `[this](int, int) { this->cb_(0); }` reads the
  -- timer when it is dispatched: it makes the calls `on_fire`, which stand for `fired`.
  abbrev pub fire_event : List A → Event A
  fire_event on_fire = event_of (λ _ _. on_fire)

  unfoldable pub fired : WinSteadyTimer A → List A
  fired t = t.cb (pos 0)

module _ {A S : Type 0} (os : SteadyOs S) where
  -- The task.
  unfoldable pub sleep_and_submit : WinSteadyTimer A → List A → World A S → World A S
  sleep_and_submit t on_fire w =
      submit_complete (fire_event on_fire) (record w { os = os.sleep_for t.nsec w.os })

  -- `Wait`: the destructor of the future that `async` returns waits for a thread, and a deferred task
  -- is dropped.
  unfoldable pub steady_wait :
      WinSteadyTimer A → (ℤ → List A) → List A → World A S → WinSteadyTimer A × World A S
  unfolding sleep_and_submit
  steady_wait t cb on_fire w =
      let t' : WinSteadyTimer A = record t { cb = cb } in
      (t', elim (os.launch w.os) [ threaded ↦ sleep_and_submit t' on_fire w | deferred ↦ w ])

  -- `AsyncWaitcb`, and `co_await timer.AsyncWait()`: the coroutine gets the error code.
  unfoldable pub await_steady :
      WinSteadyTimer A → (ℤ → List A) → List A → World A S → WinSteadyTimer A × World A S
  await_steady t resume on_fire w = steady_wait t (λ ec. resume ec) on_fire w
