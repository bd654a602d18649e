-- ===== src/Udp.antt =====
-- venti/socket/udpsocket.h over venti/socket/socket.h, on Linux. Addresses that the caller passes by
-- reference are known by where they stand; `none` is the null peer of a connected socket.
pub mod Delivery
use venti.Prelude.{ℕ, true, none, some, update, List}
use venti.Prelude.Int.{ℤ}
use venti.Event.{event_of}
use venti.Buffer.{Buffers}
use venti.Addr.{IpAddr, AddrType, ipv4, ipv6}
use venti.Os.{Os}
use venti.Sock
use venti.Sock.Utils.{LinuxSock}
use venti.Sock.Open.{udp_socket4, udp_socket6}
use venti.Sock.Transfer
use venti.World.{World}
use venti.Epoll.Submit
use venti.Tcp.{IoCallback, io_callback, resume_io}

module _ {S : Type 0} (os : Os S) where
  unfoldable pub open_kind : AddrType → LinuxSock → S → ℤ × LinuxSock × S
  open_kind ipv6 = udp_socket6 os
  open_kind ipv4 = udp_socket4 os

module _ {A S : Type 0} (os : Os S) where
  -- `UDPSocket(Context& ctx, IPAddr::Type type)`
  unfoldable pub udp_open : AddrType → ℕ → World A S → World A S
  udp_open kind s w =
      let (_, sk, o) = open_kind os kind (w.socks s) w.os in
      Submit.reg_sock os s (record w { socks = update w.socks s sk; os = o })

  -- `SyncRecvfrom`: the address is a temporary, so what is written to it is dropped.
  unfoldable pub sync_recvfrom : ℕ → Buffers → World A S → ℤ × World A S
  sync_recvfrom s bufs w =
      let (r, _, o) = Transfer.recvfrom os (w.socks s) bufs true w.os in (r, record w { os = o })

  -- `SyncSendto`
  unfoldable pub sync_sendto : ℕ → IpAddr → Buffers → World A S → ℤ × World A S
  sync_sendto s peer bufs w =
      let (r, o) = Transfer.sendto os (w.socks s) bufs (some peer) w.os in (r, record w { os = o })

  -- `Connect` and `Bind`
  unfoldable pub udp_connect : ℕ → IpAddr → World A S → ℤ × World A S
  udp_connect s addr w =
      let (r, sk, o) = Sock.connect os (w.socks s) addr w.os in
      (r, record w { socks = update w.socks s sk; os = o })

  unfoldable pub udp_bind : ℕ → IpAddr → World A S → ℤ × World A S
  udp_bind s addr w =
      let (r, sk, o) = Sock.bind os (w.socks s) addr w.os in
      (r, record w { socks = update w.socks s sk; os = o })

  -- `AsyncRecvfromcb` and `AsyncConnectedRecvfromcb`: their lambdas are those of `TCPSocket`.
  unfoldable pub async_recvfromcb : ℕ → Buffers → ℕ → IoCallback A → World A S → World A S
  async_recvfromcb s bufs addr cb w =
      Submit.submit_recvfrom os s (some addr) bufs (event_of (io_callback cb)) w

  unfoldable pub async_connected_recvfromcb : ℕ → Buffers → IoCallback A → World A S → World A S
  async_connected_recvfromcb s bufs cb w =
      Submit.submit_recvfrom os s none bufs (event_of (io_callback cb)) w

  -- `AsyncSendtocb` and `AsyncConnectedSendtocb`
  unfoldable pub async_sendtocb : ℕ → Buffers → ℕ → IoCallback A → World A S → World A S
  async_sendtocb s bufs addr cb w =
      Submit.submit_sendto os s (some addr) bufs (event_of (io_callback cb)) w

  unfoldable pub async_connected_sendtocb : ℕ → Buffers → IoCallback A → World A S → World A S
  async_connected_sendtocb s bufs cb w =
      Submit.submit_sendto os s none bufs (event_of (io_callback cb)) w

  -- `await_suspend` of `RecvAwait`, `ConnectedRecvAwait`, `SendAwait` and `ConnectedSendAwait`.
  unfoldable pub await_recvfrom : ℕ → Buffers → ℕ → (ℤ → List A) → World A S → World A S
  await_recvfrom s bufs addr resume w = async_recvfromcb s bufs addr (resume_io resume) w

  unfoldable pub await_connected_recvfrom : ℕ → Buffers → (ℤ → List A) → World A S → World A S
  await_connected_recvfrom s bufs resume w = async_connected_recvfromcb s bufs (resume_io resume) w

  unfoldable pub await_sendto : ℕ → Buffers → ℕ → (ℤ → List A) → World A S → World A S
  await_sendto s bufs addr resume w = async_sendtocb s bufs addr (resume_io resume) w

  unfoldable pub await_connected_sendto : ℕ → Buffers → (ℤ → List A) → World A S → World A S
  await_connected_sendto s bufs resume w = async_connected_sendtocb s bufs (resume_io resume) w

  -- `Close`, through `Epoll::CloseSock`.
  unfoldable pub udp_close : ℕ → World A S → ℤ × World A S
  udp_close s w = let (r, o) = Sock.close os (w.socks s) w.os in (r, record w { os = o })
