-- ===== src/Coroutine/Resumption.antt =====
-- Who goes on when an awaited coroutine ends (venti/coroutine.h).
use venti.Prelude.{
  ℕ, ◌≡◌, ◌≢◌, refl, ap, ◌∙◌, true, false, Option, none, some, ◌⊎◌, inl, inr, arith,
}
use venti.Coroutine.{
  Coros, running, is_done, get, await_ready, await_suspend, await_suspend_any, suspend, suspended,
  go_on, end_with, start, future_move, await_resume, outcome, set_result, finish_value,
  void_await_suspend, void_start,
}

pub get-outcome : {T : Type 0} (def : T) (o : T ⊎ ℕ) → get (outcome def o) ≡ o
unfolding get outcome
get-outcome def (inl v) = refl
get-outcome def (inr e) = refl

module _ {T : Type 0} (def : T) (f : ℕ) (o : T ⊎ ℕ) (c : Coros T) where
  pub await_resume-finish_value : await_resume f (finish_value def f o c).0 ≡ outcome def o
  unfolding finish_value end_with await_resume set_result
  await_resume-finish_value = ground arith

  await_ready-finish_value : await_ready (some f) (finish_value def f o c).0 ≡ some true
  unfolding finish_value end_with await_ready is_done
  await_ready-finish_value = ground arith

module _ {T : Type 0} (def : T) (f h : ℕ) (o : T ⊎ ℕ) (c : Coros T) where
  abbrev awaiting : Coros T
  awaiting = suspend h (await_suspend f h c)

  goes_on : (finish_value def f o awaiting).1 ≡ some h
  unfolding finish_value end_with await_suspend suspend set_result
  goes_on = ground arith

  -- A coroutine that awaits a `Future<T>` whose coroutine still runs is suspended; when that one
  -- returns a value or throws, the awaiting coroutine goes on, and `Get` gives it that value or
  -- throws that exception again.
  finish_value-await_suspend :
      c.frames f ≡ running
      → (await_ready (some f) c ≡ some false)
        × (awaiting.frames h ≡ suspended)
        × ((finish_value def f o awaiting).1 ≡ some h)
        × (await_ready (some f) (finish_value def f o awaiting).0 ≡ some true)
        × (get (await_resume f (finish_value def f o awaiting).0) ≡ o)
  unfolding await_ready is_done await_suspend suspend
  finish_value-await_suspend r = (
    ap is_done r,
    ground arith,
    goes_on,
    await_ready-finish_value def f o awaiting,
    rw (await_resume-finish_value def f o awaiting) (get-outcome def o),
  )

module _ (f h : ℕ) (c : Coros (Unit {0})) where
  abbrev pub void_awaiting : Coros (Unit {0})
  void_awaiting = suspend h (void_await_suspend f h (void_start f c))

module _ {T : Type 0} (def : T) (f h : ℕ) (c : Coros T) where
  abbrev pub any_awaiting : Coros T
  any_awaiting = suspend h (await_suspend_any f h (start def f c))

go_on-none : {T : Type 0} (p : Coros T × Option ℕ) → p.1 ≡ none → go_on p ≡ p.0
unfolding go_on
go_on-none (c, none) e = refl
go_on-none (c, some h) e = absurd (cc)

module _ {T : Type 0} (def : T) (f h : ℕ) (o : T ⊎ ℕ) (c : Coros T) where
  not_stored : (finish_value def f o (any_awaiting def f h c)).1 ≡ none
  unfolding await_suspend_any start suspend finish_value end_with set_result
  not_stored = ground arith

  frame_kept : f ≢ h → (finish_value def f o (any_awaiting def f h c)).0.frames h ≡ suspended
  unfolding await_suspend_any start suspend finish_value end_with set_result
  frame_kept n = ground arith

  -- A coroutine of another type, a `Future` of another type's included, that awaits the future, moved
  -- or not, of another coroutine, which was started and still runs, is suspended. When that one ends,
  -- it stays suspended, though the future is ready and has the result.
  pub finish_value-await_suspend_any :
      f ≢ h
      → (await_ready (future_move (some f)).0 (start def f c) ≡ some false)
        × ((any_awaiting def f h c).frames h ≡ suspended)
        × ((go_on (finish_value def f o (any_awaiting def f h c))).frames h ≡ suspended)
        × (await_ready
              (future_move (some f)).0
              (go_on (finish_value def f o (any_awaiting def f h c)))
            ≡ some true)
        × (get (await_resume f (go_on (finish_value def f o (any_awaiting def f h c)))) ≡ o)
  unfolding future_move await_ready is_done start await_suspend_any suspend
  finish_value-await_suspend_any n =
      let ended : go_on (finish_value def f o (any_awaiting def f h c))
          ≡ (finish_value def f o (any_awaiting def f h c)).0 =
        go_on-none (finish_value def f o (any_awaiting def f h c)) not_stored in
      (
        ground arith,
        ground arith,
        ap (λ (x : Coros T). x.frames h) ended ∙ frame_kept n,
        ap (await_ready (some f)) ended ∙ await_ready-finish_value def f o (any_awaiting def f h c),
        ap (λ x. get (await_resume f x)) ended
            ∙ rw (await_resume-finish_value def f o (any_awaiting def f h c)) (get-outcome def o),
      )
