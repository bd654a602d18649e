-- ===== src/Tcp.antt =====
-- venti/socket/tcpsocket.h over venti/socket/socket.h, with `LinuxSock` for `PltSock` and `Epoll`
-- for `PltEvent`. A socket object is known by the address of its `socket_`. What the coroutine that
-- awaits an operation does when it is resumed with a value is the parameter `resume`.
pub mod Await
pub mod Answer
pub mod Delivery
pub mod Round
pub mod Arrival
use venti.Prelude.{ℕ, not, update, List, if◌then◌else◌}
use venti.Prelude.Int.{ℤ, pos, negsuc, neg, eqb, to_size, to_int}
use venti.Event.{Event, Callback, event_of}
use venti.Buffer.{Buffers}
use venti.Addr.{IpAddr, AddrType, ipv4, ipv6}
use venti.Os.{Os}
use venti.Sock
use venti.Sock.Utils.{LinuxSock}
use venti.Sock.Open.{tcp_socket4, tcp_socket6}
use venti.Sock.Transfer
use venti.World.{World}
use venti.Epoll.Submit

-- `function<void(size_t, int)>`
abbrev pub IoCallback : Type 0 → Type 0
IoCallback A = ℕ → ℤ → List A

module _ {A : Type 0} where
  -- The lambda that `SubmitRead` and `SubmitWrite` wrap a callback in; -1 and `len` become `size_t`.
  unfoldable pub io_callback : IoCallback A → Callback A
  io_callback cb len ec =
      if not (eqb ec (pos 0)) then cb (to_size (negsuc 0)) ec else cb (to_size len) (pos 0)

  -- The lambda of `AsyncConnectcb`.
  unfoldable pub connect_callback : IoCallback A → Callback A
  connect_callback cb len ec =
      if not (eqb ec (pos 0)) then cb (to_size (negsuc 0)) ec else cb 0 (pos 0)

-- `Resume` of `ReadAwait` and `WriteAwait`: the `int` that the coroutine gets.
unfoldable pub io_result : ℤ → ℤ → ℤ
io_result len ec = if not (eqb ec (pos 0)) then neg ec else len

module _ {A : Type 0} (resume : ℤ → List A) where
  -- `[this](int len, int ec) { this->Resume(len, ec); }`, called with a `size_t`.
  unfoldable pub resume_io : IoCallback A
  resume_io len ec = resume (io_result (to_int len) ec)

  -- `ConnAwait`: the coroutine gets the error code.
  unfoldable pub resume_connect : IoCallback A
  resume_connect len ec = resume ec

module _ {S : Type 0} (os : Os S) where
  unfoldable pub open_kind : AddrType → LinuxSock → S → ℤ × LinuxSock × S
  open_kind ipv6 = tcp_socket6 os
  open_kind ipv4 = tcp_socket4 os

-- The event that a read or a write submits for a coroutine.
abbrev pub io_event : {A : Type 0} → (ℤ → List A) → Event A
io_event resume = event_of (io_callback (resume_io resume))

module _ {A S : Type 0} (os : Os S) where
  -- `TCPSocket(Context& ctx, IPAddr::Type type)`: the socket is registered whatever the result of
  -- opening it.
  unfoldable pub tcp_open : AddrType → ℕ → World A S → World A S
  tcp_open kind s w =
      let (_, sk, o) = open_kind os kind (w.socks s) w.os in
      Submit.reg_sock os s (record w { socks = update w.socks s sk; os = o })

  -- `Setup`
  unfoldable pub setup : ℕ → World A S → World A S
  setup s w = Submit.reg_sock os s w

  -- `SyncRead` and `SyncWrite`
  unfoldable pub sync_read : ℕ → Buffers → World A S → ℤ × World A S
  sync_read s bufs w =
      let (r, o) = Transfer.recv os (w.socks s) bufs w.os in (r, record w { os = o })

  unfoldable pub sync_write : ℕ → Buffers → World A S → ℤ × World A S
  sync_write s bufs w =
      let (r, o) = Transfer.send os (w.socks s) bufs w.os in (r, record w { os = o })

  -- `SyncConnect`
  unfoldable pub sync_connect : ℕ → IpAddr → World A S → ℤ × World A S
  sync_connect s addr w =
      let (r, sk, o) = Sock.connect os (w.socks s) addr w.os in
      (r, record w { socks = update w.socks s sk; os = o })

  -- `AsyncReadcb` (which is `SubmitRead`), `AsyncWritecb` and `AsyncConnectcb`
  unfoldable pub async_readcb : ℕ → Buffers → IoCallback A → World A S → World A S
  async_readcb s bufs cb w = Submit.submit_read os s bufs (event_of (io_callback cb)) w

  unfoldable pub async_writecb : ℕ → Buffers → IoCallback A → World A S → World A S
  async_writecb s bufs cb w = Submit.submit_write os s bufs (event_of (io_callback cb)) w

  unfoldable pub async_connectcb : ℕ → IpAddr → IoCallback A → World A S → World A S
  async_connectcb s addr cb w = Submit.submit_connect os s addr (event_of (connect_callback cb)) w

  -- `co_await sock.Read(bufs)`, `Write` and `Connect`: `await_suspend`.
  unfoldable pub await_read : ℕ → Buffers → (ℤ → List A) → World A S → World A S
  await_read s bufs resume w = async_readcb s bufs (resume_io resume) w

  unfoldable pub await_write : ℕ → Buffers → (ℤ → List A) → World A S → World A S
  await_write s bufs resume w = async_writecb s bufs (resume_io resume) w

  unfoldable pub await_connect : ℕ → IpAddr → (ℤ → List A) → World A S → World A S
  await_connect s addr resume w = async_connectcb s addr (resume_connect resume) w

  -- `Close`, through `Epoll::CloseSock`, and `Shutdown`.
  unfoldable pub tcp_close : ℕ → World A S → ℤ × World A S
  tcp_close s w = let (r, o) = Sock.close os (w.socks s) w.os in (r, record w { os = o })

  unfoldable pub tcp_shutdown : ℕ → ℤ → World A S → ℤ × World A S
  tcp_shutdown s how w =
      let (r, o) = Sock.shutdown os (w.socks s) how w.os in (r, record w { os = o })
