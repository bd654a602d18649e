-- ===== src/Acceptor.antt =====
-- venti/socket/acceptor.h on Linux. The call that its event makes (`this->AcceptCallback(ec)`) runs
-- when the event is dispatched and reads the acceptor as it is then; the event is made with the
-- parameter `on_accept`, which stands for that call.
pub mod Accepting
pub mod Delivery
use venti.Prelude.{ℕ, Option, none, some, update, List, not, if◌then◌else◌}
use venti.Prelude.Int.{ℤ, pos, eqb}
use venti.Event.{event_of}
use venti.Addr.{IpAddr}
use venti.Os.{Os}
use venti.Sock
use venti.Sock.Utils.{LinuxSock}
use venti.World.{World}
use venti.Epoll.Submit
use venti.Tcp.{open_kind, setup}

-- `function<void(PltSock, int)>`
abbrev pub AcceptCallback : Type 0 → Type 0
AcceptCallback A = LinuxSock → ℤ → List A

-- `Acceptor` with its `SubmitWaiting`, whose pointer is set by the first accept. `listener` is the
-- address of `socket_`.
pub record Acceptor (A : Type 0) : Type 0 where
  pub listener : ℕ
  pub waiting_sock : Option ℕ
  pub waiting_cb : AcceptCallback A
  pub local_addr : IpAddr

module _ {A S : Type 0} (os : Os S) where
  -- `Bind`
  unfoldable pub acceptor_bind : Acceptor A → IpAddr → World A S → ℤ × Acceptor A × World A S
  acceptor_bind a addr w =
      let (_, sk, o) = open_kind os addr.kind (w.socks a.listener) w.os in
      let w' : World A S =
        Submit.reg_sock os a.listener (record w { socks = update w.socks a.listener sk; os = o }) in
      let (r, sk', o') = Sock.bind os (w'.socks a.listener) addr w'.os in
      (
        r,
        record a { local_addr = addr },
        record w' { socks = update w'.socks a.listener sk'; os = o' },
      )

  -- `Listen`
  unfoldable pub acceptor_listen : Acceptor A → ℤ → World A S → ℤ × World A S
  acceptor_listen a backlog w =
      let (r, o) = Sock.listen os (w.socks a.listener) backlog w.os in (r, record w { os = o })

  -- `SyncAccept(TCPSocket& sock)`
  unfoldable pub sync_accept : Acceptor A → ℕ → World A S → ℤ × World A S
  sync_accept a p w =
      let (r, sk, o) = Sock.accept os (w.socks a.listener) (w.socks p) w.os in
      let w' : World A S = record w { socks = update w.socks p sk; os = o } in
      if eqb r (pos 0) then (pos 0, setup os p w') else (r, w')

  -- `AsyncAcceptcb`
  unfoldable pub async_acceptcb :
      Acceptor A → ℕ → AcceptCallback A → (ℤ → List A) → World A S → Acceptor A × Option (World A S)
  async_acceptcb a p cb on_accept w = (
    record a { waiting_sock = some p; waiting_cb = cb },
    Submit.submit_accept os a.listener p (event_of (λ _ ec. on_accept ec)) w,
  )

  -- `AcceptCallback`: `fresh` is the default `PltSock()`; `none` is a null dereference.
  unfoldable pub accept_callback : LinuxSock → Acceptor A → ℤ → World A S → Option (List A)
  accept_callback fresh a ec w =
      if not (eqb ec (pos 0))
      then some (a.waiting_cb fresh ec)
      else elim a.waiting_sock [ none ↦ none | some p ↦ some (a.waiting_cb (w.socks p) ec) ]

  -- `co_await acceptor.Accept(skt)`: `await_suspend`. The calls of `Resume` are the parameter `resume`;
  -- what it does to the accepted socket is `resume_accept`.
  unfoldable pub await_accept :
      Acceptor A → ℕ → (ℤ → List A) → (ℤ → List A) → World A S → Acceptor A × Option (World A S)
  await_accept a p resume on_accept w = async_acceptcb a p (λ skt ec. resume ec) on_accept w

  -- `AcceptAwait::Resume`: the accepted socket is registered, then the coroutine goes on with the
  -- code, as `go_on` says.
  unfoldable pub resume_accept : ℕ → ℤ → (ℤ → World A S → World A S) → World A S → World A S
  resume_accept p ec go_on w = go_on ec (if eqb ec (pos 0) then setup os p w else w)

  -- `Close`, through `Epoll::CloseSock`.
  unfoldable pub acceptor_close : Acceptor A → World A S → ℤ × World A S
  acceptor_close a w =
      let (r, o) = Sock.close os (w.socks a.listener) w.os in (r, record w { os = o })
