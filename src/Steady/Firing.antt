-- ===== src/Steady/Firing.antt =====
-- When and with what a `SteadyTimer` (venti/timer/timer.h) calls back.
use venti.Prelude.{ℕ, suc, ◌+◌, ◌≤◌, true, subst, ◌≡◌, refl, ap, sym, ◌∙◌, List, [], ◌∷◌, ◌++◌}
use mathlib.Core.List.{append_assoc}
use venti.Prelude.Int.{ℤ, pos}
use venti.Event.{Event, completed, complete}
use venti.World.{World}
use venti.Context.{submit_complete, settled, is_due, pass, dispatch}
use venti.Context.Pass.{pass_step}
use venti.Tcp.Round.{gone_on}
use venti.Steady.{
  WinSteadyTimer, SteadyOs, threaded, fire_event, fired, steady_set_expire, sleep_and_submit,
  steady_wait, await_steady,
}

-- A sleep takes at least its time, by a clock in nanoseconds.
pub record Sleeps {S : Type 0} (os : SteadyOs S) (now : S → ℕ) : Type 0 where
  pub sleeps : (n : ℕ) (s : S) → now s + n ≤ now (os.sleep_for (pos n) s)

due_fired : is_due completed ≡ true
unfolding is_due
due_fired = refl

module _ {A S : Type 0} (os : SteadyOs S) (t : WinSteadyTimer A) (on_fire : List A) where
  abbrev pub fire_done : Event A
  fire_done = record (fire_event on_fire) { status = completed }

  waitset-steady_wait :
      (cb : ℤ → List A) (w : World A S)
      → os.launch w.os ≡ threaded
      → (steady_wait os t cb on_fire w).1.waitset ≡ w.waitset ++ fire_done ∷ []
  unfolding steady_wait sleep_and_submit submit_complete settled
  waitset-steady_wait cb w l = rw (l, steady_wait)

  complete_fire : complete fire_done ≡ on_fire
  unfolding complete
  complete_fire = refl

module _ {A S : Type 0} (os : SteadyOs S) (t : WinSteadyTimer A) (on_fire : List A)
    (w : World A S) where
  os-steady_wait :
      (cb : ℤ → List A) (n : ℕ)
      → os.launch w.os ≡ threaded
      → (steady_wait os (steady_set_expire t (pos n)) cb on_fire w).1.os ≡ os.sleep_for (pos n) w.os
  unfolding steady_wait sleep_and_submit submit_complete steady_set_expire
  os-steady_wait cb n l = rw (l, steady_wait)

  timer-steady_wait :
      (cb : ℤ → List A) (n : ℕ)
      → fired (steady_wait os (steady_set_expire t (pos n)) cb on_fire w).0 ≡ cb (pos 0)
  unfolding steady_wait fired
  timer-steady_wait cb n = refl

  pass_fired :
      (perform : A → World A S → World A S) (inner : ℕ) (v : World A S)
      → v.waitset ≡ fire_done os t on_fire ∷ []
      → pass perform (suc inner) 0 v ≡ pass perform inner 0 (gone_on perform on_fire v)
  unfolding dispatch complete
  pass_fired perform inner v one =
      pass_step perform inner v (fire_done os t on_fire) [] one due_fired

  module _ (now : S → ℕ) (clock : Sleeps os now) (perform : A → World A S → World A S) where
    -- A coroutine awaits a `SteadyTimer` that is set to `n` nanoseconds while no completion waits. If
    -- the library runs the task in a thread of its own, and a sleep takes at least its time, then at
    -- least `n` nanoseconds have passed when `await_suspend` returns; the first thing that the loop
    -- then does is to make the calls of the timer's callback; and the callback that the timer has
    -- resumes the coroutine with 0.
    pub await_steady-fired :
        (resume : ℤ → List A) (inner n : ℕ)
        → os.launch w.os ≡ threaded
        → w.waitset ≡ []
        → (now w.os + n ≤ now (await_steady os (steady_set_expire t (pos n)) resume on_fire w).1.os)
          × (pass perform
                (suc inner)
                0
                (await_steady os (steady_set_expire t (pos n)) resume on_fire w).1
              ≡ pass perform inner 0 (
                  gone_on perform on_fire
                    (await_steady os (steady_set_expire t (pos n)) resume on_fire w).1))
          × (fired (await_steady os (steady_set_expire t (pos n)) resume on_fire w).0
              ≡ resume (pos 0))
    unfolding await_steady steady_set_expire fired
    await_steady-fired resume inner n l none_waits =
        let t' : WinSteadyTimer A = steady_set_expire t (pos n) in
        let one : (steady_wait os t' resume on_fire w).1.waitset ≡ fire_done os t' on_fire ∷ [] =
          waitset-steady_wait os t' on_fire resume w l
          ∙ ap (λ es. es ++ fire_done os t' on_fire ∷ []) none_waits in
        (
          subst (λ o. now w.os + n ≤ now o) (sym (os-steady_wait resume n l)) (clock.sleeps n w.os),
          pass_fired perform inner (steady_wait os t' resume on_fire w).1 one,
          timer-steady_wait resume n,
        )

  -- If a timer waits a second time before the first completion is dispatched, there are two
  -- completions, and both call the second callback: the first is never called.
  pub steady_wait_twice :
      (cb1 cb2 : ℤ → List A)
      → ((o : S) → os.launch o ≡ threaded)
      → (r1 : Event A) × (r2 : Event A) × ((steady_wait os
            (steady_wait os t cb1 on_fire w).0
            cb2
            on_fire
            (steady_wait os t cb1 on_fire w).1).1.waitset
          ≡ w.waitset ++ r1 ∷ r2 ∷ [])
        × (complete r1 ≡ on_fire)
        × (complete r2 ≡ on_fire)
        × (fired
              (steady_wait os
                (steady_wait os t cb1 on_fire w).0
                cb2
                on_fire
                (steady_wait os t cb1 on_fire w).1).0
            ≡ cb2 (pos 0))
  unfolding steady_wait fired
  steady_wait_twice cb1 cb2 l =
      let t1 : WinSteadyTimer A = (steady_wait os t cb1 on_fire w).0 in
      let w1 : World A S = (steady_wait os t cb1 on_fire w).1 in
      let r : Event A = fire_done os t on_fire in
      (
        r,
        r,
        waitset-steady_wait os t1 on_fire cb2 w1 (l w1.os)
            ∙ ap (λ es. es ++ r ∷ []) (waitset-steady_wait os t on_fire cb1 w (l w.os))
            ∙ append_assoc w.waitset (r ∷ []) (r ∷ []),
        complete_fire os t on_fire,
        complete_fire os t on_fire,
        refl,
      )
