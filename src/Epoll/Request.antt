-- ===== src/Epoll/Request.antt =====
-- The eight kinds of submission of `Epoll` (venti/platform/linux/epoll.h) under one name.
use venti.Prelude.{ℕ, ◌≡◌, ◌≢◌, refl, Option, some}
use venti.Event.{Event}
use venti.Buffer.{Buffers}
use venti.Addr.{IpAddr}
use venti.Os.{Os}
use venti.World.{
  World, EvType, read, write, accept, connect, recvfrom, sendto, timetick, signal, noop,
}
use venti.Handler.{Submits}
use venti.Epoll.Submit.{
  submit_read, submit_write, submit_connect, submit_accept, submit_recvfrom, submit_sendto,
  submit_timer, submit_signal,
}
use venti.Epoll.Outcome.{Outcome}
use venti.Epoll.Submission.{
  submit_read-Outcome, submit_write-Outcome, submit_connect-Outcome, submit_recvfrom-Outcome,
  submit_sendto-Outcome, submit_timer-Outcome, submit_signal-Outcome, submit_accept-some,
  accept_tried, accept_tried-Outcome,
}
use venti.Epoll.Local.{IsLocal}
use venti.Epoll.Frame.{
  submit_read-IsLocal, submit_write-IsLocal, submit_connect-IsLocal, submit_recvfrom-IsLocal,
  submit_sendto-IsLocal, submit_timer-IsLocal, submit_signal-IsLocal, accept_tried-IsLocal,
}
use venti.Epoll.View.{view, Outcome-Submits}

-- What is asked for, with the arguments of its `Submit…`.
pub data Request : Type 0 where
  to_read to_write : Buffers → Request
  to_connect : IpAddr → Request
  to_accept : ℕ → Request
  to_receive to_send : Option ℕ → Buffers → Request
  to_tick to_signal : Request

abbrev pub type_of : Request → EvType
type_of (to_read buf) = read
type_of (to_write buf) = write
type_of (to_connect addr) = connect
type_of (to_accept res) = accept
type_of (to_receive peer buf) = recvfrom
type_of (to_send peer buf) = sendto
type_of to_tick = timetick
type_of to_signal = signal

type_of_busy : (req : Request) → type_of req ≢ noop
type_of_busy (to_read buf) = λ h. cc
type_of_busy (to_write buf) = λ h. cc
type_of_busy (to_connect addr) = λ h. cc
type_of_busy (to_accept res) = λ h. cc
type_of_busy (to_receive peer buf) = λ h. cc
type_of_busy (to_send peer buf) = λ h. cc
type_of_busy to_tick = λ h. cc
type_of_busy to_signal = λ h. cc

module _ {A S : Type 0} (os : Os S) (s : ℕ) (ev : Event A) (w : World A S) where
  unfoldable pub submit : Request → Option (World A S)
  submit (to_read buf) = some (submit_read os s buf ev w)
  submit (to_write buf) = some (submit_write os s buf ev w)
  submit (to_connect addr) = some (submit_connect os s addr ev w)
  submit (to_accept res) = submit_accept os s res ev w
  submit (to_receive peer buf) = some (submit_recvfrom os s peer buf ev w)
  submit (to_send peer buf) = some (submit_sendto os s peer buf ev w)
  submit to_tick = some (submit_timer s ev w)
  submit to_signal = some (submit_signal s ev w)

  pub submit-Outcome :
      (req : Request)
      → (w' : World A S) × (submit req ≡ some w') × Outcome (type_of req) s ev w w' × IsLocal s w w'
  unfolding submit
  submit-Outcome (to_read buf) =
      (_, refl, submit_read-Outcome os s ev w buf, submit_read-IsLocal os s ev w buf)
  submit-Outcome (to_write buf) =
      (_, refl, submit_write-Outcome os s ev w buf, submit_write-IsLocal os s ev w buf)
  submit-Outcome (to_connect addr) =
      (_, refl, submit_connect-Outcome os s ev w addr, submit_connect-IsLocal os s ev w addr)
  submit-Outcome (to_accept res) = (
    accept_tried os s ev w res,
    submit_accept-some os s ev w res,
    accept_tried-Outcome os s ev w res,
    accept_tried-IsLocal os s ev w res,
  )
  submit-Outcome (to_receive peer buf) = (
    _,
    refl,
    submit_recvfrom-Outcome os s ev w peer buf,
    submit_recvfrom-IsLocal os s ev w peer buf,
  )
  submit-Outcome (to_send peer buf) =
      (_, refl, submit_sendto-Outcome os s ev w peer buf, submit_sendto-IsLocal os s ev w peer buf)
  submit-Outcome to_tick = (_, refl, submit_timer-Outcome os s ev w, submit_timer-IsLocal os s ev w)
  submit-Outcome to_signal =
      (_, refl, submit_signal-Outcome os s ev w, submit_signal-IsLocal os s ev w)

  -- Every kind of submission, whatever the kernel answers, dereferences no null pointer and does what
  -- an event handler's submission is to do: the operation is under way in the socket's slot, or it is
  -- finished at once with one completion, and no other slot's operation and no earlier completion
  -- changes.
  pub submit-Submits :
      (req : Request)
      → (w' : World A S) × (submit req ≡ some w') × Submits (w.socks s).ev ev (view w) (view w')
  submit-Submits req =
      let (w', did, o, local) = submit-Outcome req in
      (w', did, Outcome-Submits local (type_of_busy req) o)
