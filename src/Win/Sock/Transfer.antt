-- ===== src/Win/Sock/Transfer.antt =====
-- `Accept`, `Send`, `Recv`, `Sendto` and `Recvfrom` of venti/platform/win/winsock.h.
use venti.Prelude.{
  ℕ, ◌%◌, ◌^◌, Bool, true, false, List, [], ◌∷◌, Option, none, some, length, take, ltb, not,
  if◌then◌else◌,
}
use venti.Prelude.Int.{ℤ, pos, negsuc, eqb, to_int}
use venti.Buffer.{Buffer, Buffers}
use venti.Addr.{IpAddr, AddrType, ipv4, ipv6, memcpy}
use venti.Os.{Sockaddr, in4, in6}
use venti.Win.Os.{WinOs, Wsabuf, Wsamsg}
use venti.Win.Sock.{WinSock, win_to_ip_addr4, win_to_ip_addr6, win_to_sockaddr4, win_to_sockaddr6}

-- The loop that fills the `WSABUF`s: `size_t` to `unsigned long`.
unfoldable pub wsabufs : List Buffer → List Wsabuf
wsabufs [] = []
wsabufs (b ∷ bs) = record { buf = b.content; len = b.len % 2 ^ 32 } ∷ wsabufs bs

unfoldable pub wsamsg_of : Option Sockaddr → ℕ → Buffers → Wsamsg
unfolding wsabufs
wsamsg_of name namelen buf = record {
  name = name;
  namelen = namelen;
  buffers = wsabufs buf.bufs;
  buffer_count = length (wsabufs buf.bufs);
}

-- `if (ec != 0) return -1; return len;`
unfoldable pub win_transferred : ℤ → ℕ → ℤ
win_transferred ec len = if not (eqb ec (pos 0)) then negsuc 0 else to_int len

module _ {S : Type 0} (os : WinOs S) where
  -- `Accept` on a socket of each kind: `newsock < 0` compares an unsigned number, and the address
  -- is written into the accepted socket's own block.
  unfoldable pub win_accept_as : AddrType → WinSock → WinSock → S → ℤ × WinSock × S
  win_accept_as ipv6 sk res s =
      let (fd, s') = os.accept sk.sock 28 s in
      let a : IpAddr = record {
        kind = ipv6;
        bytes = memcpy res.addr.bytes (take 16 (os.name6 s').sin6_addr);
        port = (os.name6 s').sin6_port;
      } in
      if ltb fd 0 then (negsuc 0, res, s') else (pos 0, record res { sock = fd; addr = a }, s')
  win_accept_as ipv4 sk res s =
      let (fd, s') = os.accept sk.sock 16 s in
      let a : IpAddr = record {
        kind = ipv4;
        bytes = memcpy res.addr.bytes (take 4 (os.name4 s').sin_addr);
        port = (os.name4 s').sin_port;
      } in
      if ltb fd 0 then (negsuc 0, res, s') else (pos 0, record res { sock = fd; addr = a }, s')

  -- `Accept(WinSock* res)`: returns the new `*res`.
  unfoldable pub win_accept : WinSock → WinSock → S → ℤ × WinSock × S
  unfolding win_accept_as
  win_accept sk res s = win_accept_as sk.addr.kind sk res s

  unfoldable pub win_send : WinSock → Buffers → S → ℤ × S
  unfolding win_transferred wsabufs
  win_send sk buf s =
      let (ec, len, s') = os.wsa_send sk.sock (wsabufs buf.bufs) s in (win_transferred ec len, s')

  unfoldable pub win_recv : WinSock → Buffers → S → ℤ × S
  unfolding win_transferred wsabufs
  win_recv sk buf s =
      let (ec, len, s') = os.wsa_recv sk.sock (wsabufs buf.bufs) s in (win_transferred ec len, s')

  unfoldable pub win_sendto_msg : AddrType → Buffers → Option IpAddr → Wsamsg
  unfolding wsamsg_of
  win_sendto_msg kind buf none = wsamsg_of none 0 buf
  win_sendto_msg ipv6 buf (some peer) = wsamsg_of (some (in6 (win_to_sockaddr6 peer))) 28 buf
  win_sendto_msg ipv4 buf (some peer) = wsamsg_of (some (in4 (win_to_sockaddr4 peer))) 16 buf

  -- `Sendto`
  unfoldable pub win_sendto : WinSock → Buffers → Option IpAddr → S → ℤ × S
  unfolding win_transferred win_sendto_msg
  win_sendto sk buf peer s =
      let (ec, len, s') = os.wsa_send_msg sk.sock (win_sendto_msg sk.addr.kind buf peer) s in
      (win_transferred ec len, s')

  -- The block for the sender's address is not initialised.
  unfoldable pub win_recvfrom_msg : AddrType → Buffers → Bool → S → Wsamsg
  unfolding wsamsg_of
  win_recvfrom_msg kind buf false s = wsamsg_of none 0 buf
  win_recvfrom_msg ipv6 buf true s = wsamsg_of (some (in6 (os.name6 s))) 28 buf
  win_recvfrom_msg ipv4 buf true s = wsamsg_of (some (in4 (os.name4 s))) 16 buf

  -- What is written to `*peer`: the address, then its port.
  unfoldable pub win_sender : AddrType → S → IpAddr
  win_sender ipv6 s = record (win_to_ip_addr6 (os.raw s) (os.name6 s).sin6_addr) {
    port = (os.name6 s).sin6_port;
  }
  win_sender ipv4 s = record (win_to_ip_addr4 (os.raw s) (os.name4 s).sin_addr) {
    port = (os.name4 s).sin_port;
  }

  -- `Recvfrom`, through the pointer that `InitFunc` looked up.
  unfoldable pub win_recvfrom : WinSock → Buffers → Bool → S → ℤ × Option IpAddr × S
  unfolding win_recvfrom_msg win_sender
  win_recvfrom sk buf peer s =
      let (ec, len, s') =
        os.call_recv_msg sk.recv_msg sk.sock (win_recvfrom_msg sk.addr.kind buf peer s) s in
      if not (eqb ec (pos 0))
      then (negsuc 0, none, s')
      else (to_int len, if peer then some (win_sender sk.addr.kind s') else none, s')
