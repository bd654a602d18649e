-- ===== src/Win/Iocp/Submit.antt =====
-- The `Submit…` functions of venti/platform/win/winiocpimpl.h, and `CloseSock` of
-- venti/platform/win/winiocp.h.
use venti.Prelude.{ℕ, ◌+◌, Option, none, some, update, ◌==◌, if◌then◌else◌}
use venti.Prelude.Int.{ℤ, pos, neg, ltb_zero}
use venti.Event.{Event}
use venti.Buffer.{Buffers}
use venti.Addr.{IpAddr, AddrType, ipv4, ipv6}
use venti.Os.{Sockaddr, in4, in6}
use venti.Context.{enqueue}
use venti.Epoll.Slot.{not_null, load_addr}
use venti.Win.Os.{WinOs}
use venti.Win.Sock.{
  WinSock, win_to_sockaddr4, win_to_sockaddr6, win_tcp_socket4, win_tcp_socket6, win_close,
}
use venti.Win.Sock.Transfer.{wsabufs, win_sendto_msg, win_recvfrom_msg}
use venti.Win.Iocp.{
  IocpOs, WinWorld, Seol, read, write, recvfrom, sendto, accept, connect, caller_addr, sock_addr,
  init_seol, init_seol_ipa, init_seol_extra, new_seol, alloc_seol,
}

-- WSA_IO_PENDING
abbrev pub io_pending : ℕ
io_pending = 997

-- The size of a `sockaddr_in` or `sockaddr_in6`, and the address of a kind.
abbrev pub name_size : AddrType → ℕ
name_size ipv6 = 28
name_size ipv4 = 16

unfoldable pub win_sockaddr : AddrType → IpAddr → Sockaddr
win_sockaddr ipv6 addr = in6 (win_to_sockaddr6 addr)
win_sockaddr ipv4 addr = in4 (win_to_sockaddr4 addr)

-- `TCPSocket6` or `TCPSocket4` of the socket that is accepted into.
unfoldable pub open_accepted : {S : Type 0} → WinOs S → AddrType → WinSock → S → ℤ × WinSock × S
open_accepted os ipv6 = win_tcp_socket6 os
open_accepted os ipv4 = win_tcp_socket4 os

module _ {A S : Type 0} (io : IocpOs S) where
  -- The block of a receive, with or without a place for the sender.
  unfoldable pub recvfrom_seol : ℕ → Option ℕ → Event A → AddrType → S → Seol A
  recvfrom_seol s none ev kind o = init_seol_ipa recvfrom s ev kind (new_seol io o)
  recvfrom_seol s (some p) ev kind o =
      init_seol_extra recvfrom s ev kind (caller_addr p) (new_seol io o)

module _ {A S : Type 0} (os : WinOs S) (io : IocpOs S) where
  -- The statements after each call: nothing if it did not fail or is under way; else the caller's own
  -- copy of the event is submitted, with the error's negative.
  unfoldable pub after_submit : Event A → ℤ × WinWorld A S → WinWorld A S
  after_submit ev (err, w) =
      if ltb_zero err
      then (let e : ℕ = os.last_error w.os in
          if e == io_pending then w else record w {
            waitset =
                enqueue (record ev { status = io.error_macro; error = neg (pos e) }) w.waitset;
          })
      else w

  -- `SubmitRead`
  unfoldable pub iocp_submit_read : ℕ → Buffers → Event A → WinWorld A S → WinWorld A S
  iocp_submit_read s buf ev w =
      let w' : WinWorld A S = alloc_seol (init_seol read s ev (new_seol io w.os)) w in
      let (err, o) = io.recv_ol (w.socks s).sock (wsabufs buf.bufs) w.next_seol w'.os in
      after_submit ev (err, record w' { os = o })

  -- `SubmitWrite`
  unfoldable pub iocp_submit_write : ℕ → Buffers → Event A → WinWorld A S → WinWorld A S
  iocp_submit_write s buf ev w =
      let w' : WinWorld A S = alloc_seol (init_seol write s ev (new_seol io w.os)) w in
      let (err, o) = io.send_ol (w.socks s).sock (wsabufs buf.bufs) w.next_seol w'.os in
      after_submit ev (err, record w' { os = o })

  -- `SubmitAccept`: the result of opening the socket is not looked at.
  unfoldable pub iocp_submit_accept : ℕ → ℕ → Event A → WinWorld A S → WinWorld A S
  iocp_submit_accept s res ev w =
      let kind : AddrType = (w.socks s).addr.kind in
      let q : Seol A = init_seol_extra accept s ev kind (sock_addr res) (new_seol io w.os) in
      let w' : WinWorld A S = alloc_seol q w in
      let (_, sk, o) = open_accepted os kind (w'.socks res) w'.os in
      let w'' : WinWorld A S = record w' { socks = update w'.socks res sk; os = o } in
      let (err, o') =
        io.accept_ex (w''.socks s).sock (w''.socks res).sock (name_size kind + 16) w.next_seol
          w''.os in
      after_submit ev (err, record w'' { os = o' })

  -- `SubmitConnect`
  unfoldable pub iocp_submit_connect : ℕ → IpAddr → Event A → WinWorld A S → WinWorld A S
  iocp_submit_connect s addr ev w =
      let kind : AddrType = (w.socks s).addr.kind in
      let w' : WinWorld A S = alloc_seol (init_seol_ipa connect s ev kind (new_seol io w.os)) w in
      let (err, o) =
        io.connect_ex_ol (w.socks s).connect_fn (w.socks s).sock (win_sockaddr kind addr)
          (name_size kind) w.next_seol w'.os in
      after_submit ev (err, record w' { os = o })

  -- `SubmitSendto`
  unfoldable pub iocp_submit_sendto : ℕ → Option ℕ → Buffers → Event A → WinWorld A S → WinWorld A S
  iocp_submit_sendto s peer buf ev w =
      let w' : WinWorld A S = alloc_seol (init_seol sendto s ev (new_seol io w.os)) w in
      let (err, o) =
        io.send_msg_ol (w.socks s).sock
          (win_sendto_msg os (w.socks s).addr.kind buf (load_addr w.addrs peer)) w.next_seol
          w'.os in
      after_submit ev (err, record w' { os = o })

  -- `SubmitRecvfrom`
  unfoldable pub iocp_submit_recvfrom :
      ℕ → Option ℕ → Buffers → Event A → WinWorld A S → WinWorld A S
  iocp_submit_recvfrom s peer buf ev w =
      let kind : AddrType = (w.socks s).addr.kind in
      let w' : WinWorld A S = alloc_seol (recvfrom_seol io s peer ev kind w.os) w in
      let (err, o) =
        io.recv_msg_ol (w.socks s).recv_msg (w.socks s).sock
          (win_recvfrom_msg os kind buf (not_null peer) w'.os) w.next_seol w'.os in
      after_submit ev (err, record w' { os = o })

  -- `CloseSock`
  unfoldable pub iocp_close_sock : ℕ → WinWorld A S → ℤ × WinWorld A S
  iocp_close_sock s w =
      let o = io.disconnect_ex (w.socks s).disconnect_fn (w.socks s).sock w.os in
      let (r, o') = win_close os (w.socks s) o in (r, record w { os = o' })
