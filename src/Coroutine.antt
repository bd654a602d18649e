-- ===== src/Coroutine.antt =====
-- venti/coroutine.h: `Result`, `Future<T>` and `Future<void>`. A coroutine's handle is the address
-- of its frame. What the C++ language does to a frame is written out where the code asks for it:
-- `suspend_never` at the final point destroys it, another awaitable leaves it there, done.
pub mod Resumption
pub mod Nesting
use venti.Prelude.{ℕ, Bool, true, false, Option, none, some, ◌⊎◌, inl, inr, update, if◌then◌else◌}

-- `Result<T>`; the exception is a pointer that may be null.
pub record Result (T : Type 0) : Type 0 where
  pub value : T
  pub exception : Option ℕ

-- `promise_type`
pub record Promise (T : Type 0) : Type 0 where
  pub result : Result T
  pub inner : Option ℕ
  pub outer : Option ℕ

pub data Frame : Type 0 where
  running suspended at_final destroyed : Frame

pub record Coros (T : Type 0) : Type 0 where
  pub promises : ℕ → Promise T
  pub frames : ℕ → Frame

-- What `final_suspend` returns: `suspend_never{}`, or the awaitable that goes on with `outer_`.
pub data FinalStep : Type 0 where
  never to_outer : FinalStep

-- `handle_.done()`; `none` is the use of a destroyed frame.
unfoldable pub is_done : Frame → Option Bool
is_done running = some false
is_done suspended = some false
is_done at_final = some true
is_done destroyed = none

-- `Future(Future&& promise)`: the handles of the new future and of the one it is made from.
unfoldable pub future_move : Option ℕ → Option ℕ × Option ℕ
future_move promise = (promise, none)

-- `operator=(Future&& promise)`, which does not look at the handle that the future had.
unfoldable pub future_assign : Option ℕ → Option ℕ → Option ℕ × Option ℕ
future_assign handle promise = (promise, none)

module _ {T : Type 0} where
  -- `Result::Get`: the value, or the exception that is thrown again.
  unfoldable pub get : Result T → T ⊎ ℕ
  get r = elim r.exception [ none ↦ inl r.value | some e ↦ inr e ]

  -- `await_ready`
  unfoldable pub await_ready : Option ℕ → Coros T → Option Bool
  unfolding is_done
  await_ready none c = some true
  await_ready (some f) c = is_done (c.frames f)

  -- `await_suspend(CoroHandle handle)` of the future over `f`, awaited by `h`, with its result.
  unfoldable pub await_suspend : ℕ → ℕ → Coros T → Bool × Coros T
  await_suspend f h c =
      let ps : ℕ → Promise T = update c.promises h (record (c.promises h) { inner = some f }) in
      (true, record c { promises = update ps f (record (ps f) { outer = some h }) })

  -- `await_suspend(coroutine_handle<> handle)`, for a coroutine of another type, a `Future` of another
  -- type's included: it is not stored.
  unfoldable pub await_suspend_any : ℕ → ℕ → Coros T → Bool × Coros T
  await_suspend_any f h c = (true, c)

  -- What the language does with the result: `true` leaves the awaiting coroutine `h` suspended.
  unfoldable pub suspend : ℕ → Bool × Coros T → Coros T
  suspend h (b, c) = if b then record c { frames = update c.frames h suspended } else c

  -- The coroutine that is named at a final point, if one is, goes on.
  unfoldable pub go_on : Coros T × Option ℕ → Coros T
  go_on (c, none) = c
  go_on (c, some h) = record c { frames = update c.frames h running }

  -- What the language does at the final point of `f`: without a suspension the frame is destroyed, and
  -- the second component is the coroutine that goes on.
  unfoldable pub end_with : FinalStep → ℕ → Coros T → Coros T × Option ℕ
  end_with never f c = (record c { frames = update c.frames f destroyed }, none)
  end_with to_outer f c = (record c { frames = update c.frames f at_final }, (c.promises f).outer)

  -- A coroutine's start: an empty promise, whose future gets its handle, and no suspension.
  unfoldable pub start : T → ℕ → Coros T → Coros T
  start def f c = record {
    promises =
        update c.promises f (record {
          result = record { value = def; exception = none };
          inner = none;
          outer = none;
        });
    frames = update c.frames f running;
  }

  -- `await_resume`
  unfoldable pub await_resume : ℕ → Coros T → Result T
  await_resume f c = (c.promises f).result

  -- `return_value` and `unhandled_exception`, over the value `T{}`.
  unfoldable pub outcome : T → T ⊎ ℕ → Result T
  outcome def (inl v) = record { value = v; exception = none }
  outcome def (inr e) = record { value = def; exception = some e }

  unfoldable pub set_result : ℕ → Result T → Coros T → Coros T
  set_result f r c = record c {
    promises = update c.promises f (record (c.promises f) { result = r });
  }

  -- The end of a `Future<T>`'s coroutine: its result, then `final_suspend`.
  unfoldable pub finish_value : T → ℕ → T ⊎ ℕ → Coros T → Coros T × Option ℕ
  unfolding outcome set_result end_with
  finish_value def f o c = end_with to_outer f (set_result f (outcome def o) c)

-- The members of `Future<void>`, which the source writes again: the move, `await_ready`,
-- `await_suspend(CoroHandle handle)`, and a coroutine's start.
unfoldable pub void_move : Option ℕ → Option ℕ × Option ℕ
void_move promise = (promise, none)

unfoldable pub void_await_ready : Option ℕ → Coros (Unit {0}) → Option Bool
unfolding is_done
void_await_ready none c = some true
void_await_ready (some f) c = is_done (c.frames f)

unfoldable pub void_await_suspend : ℕ → ℕ → Coros (Unit {0}) → Bool × Coros (Unit {0})
void_await_suspend f h c =
    let ps : ℕ → Promise (Unit {0}) =
      update c.promises h (record (c.promises h) { inner = some f }) in
    (true, record c { promises = update ps f (record (ps f) { outer = some h }) })

unfoldable pub void_start : ℕ → Coros (Unit {0}) → Coros (Unit {0})
void_start f c = record {
  promises =
      update c.promises f
        (record { result = record { value = tt; exception = none }; inner = none; outer = none });
  frames = update c.frames f running;
}

-- The end of a `Future<void>`'s coroutine: `return_void` or `unhandled_exception`, then
-- `final_suspend`, which is `suspend_never`.
unfoldable pub set_exception : ℕ → Option ℕ → Coros (Unit {0}) → Coros (Unit {0})
unfolding set_result
set_exception f none c = c
set_exception f (some e) c = set_result f (record { value = tt; exception = some e }) c

unfoldable pub finish_void : ℕ → Option ℕ → Coros (Unit {0}) → Coros (Unit {0}) × Option ℕ
unfolding set_exception end_with
finish_void f o c = end_with never f (set_exception f o c)
