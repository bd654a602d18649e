-- ===== src/Event.antt =====
-- venti/event.h: an operation's completion, with the callback to call when it is dispatched.
-- A callback is the list of calls that it makes, given the result and the error code; what a call
-- does to the program is left to the one who dispatches (`Context`).
use venti.Prelude.{List, [], Option, none, some}
use venti.Prelude.Int.{ℤ, pos}

-- `EvStat`. The field is an `int` that only ever holds one of these three.
pub data EvStat : Type 0 where
  waiting completed err : EvStat

abbrev pub Callback : Type 0 → Type 0
Callback A = ℤ → ℤ → List A

-- `errcb` is an empty `std::function` (`none`) after the default constructor; nothing calls it.
pub record Event (A : Type 0) : Type 0 where
  pub cb : Callback A
  pub errcb : Option (Callback A)
  pub status : EvStat
  pub error : ℤ
  pub res : ℤ

module _ {A : Type 0} where
  -- `Event(Callback cb, Callback errcb)`
  abbrev pub event_with : Callback A → Callback A → Event A
  event_with cb errcb = record {
    cb = cb;
    errcb = some errcb;
    status = waiting;
    error = pos 0;
    res = pos 0;
  }

  -- `Event(Callback cb)`
  abbrev pub event_of : Callback A → Event A
  event_of cb = event_with cb (λ _ _. [])

  -- `Event()`
  abbrev pub event_default : Event A
  event_default = record {
    cb = λ _ _. [];
    errcb = none;
    status = waiting;
    error = pos 0;
    res = pos 0;
  }

  -- `Event(const Event& ev)`
  abbrev pub event_copy : Event A → Event A
  event_copy ev = record {
    cb = ev.cb;
    errcb = ev.errcb;
    status = ev.status;
    error = ev.error;
    res = ev.res;
  }

  -- `Complete`: the calls that the callback makes.
  unfoldable pub complete : Event A → List A
  complete ev = ev.cb ev.res ev.error
