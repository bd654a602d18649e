-- ===== src/Win/Sock.antt =====
-- `WinUtils` and `WinSock` of venti/platform/win/winsock.h.
pub mod Transfer
pub mod Laws
use venti.Prelude.{ℕ, Bool, true, false, List, take, ◌==◌, ◌<◌, ltb, not, if◌then◌else◌}
use venti.Prelude.Int.{ℤ, pos, eqb, to_int}
use venti.Addr.{IpAddr, AddrType, ipv4, ipv6, memcpy, addr_of_type}
use venti.Os.{SockaddrIn, SockaddrIn6, in4, in6}
use venti.Sock.Utils.{zero_sockaddr4, zero_sockaddr6}
use venti.Win.Os.{WinOs, wsa_recv_msg, connect_ex, disconnect_ex}

-- `ToIPAddr4` and `ToIPAddr6` take the address's bytes alone.
unfoldable pub win_to_ip_addr4 : List ℕ → List ℕ → IpAddr
unfolding addr_of_type
win_to_ip_addr4 raw bytes =
    let res : IpAddr = addr_of_type raw ipv4 in
    record res { bytes = memcpy res.bytes (take 4 bytes) }

unfoldable pub win_to_ip_addr6 : List ℕ → List ℕ → IpAddr
unfolding addr_of_type
win_to_ip_addr6 raw bytes =
    let res : IpAddr = addr_of_type raw ipv6 in
    record res { bytes = memcpy res.bytes (take 16 bytes) }

-- `ToSockaddr4` and `ToSockaddr6`; AF_INET6 is 23.
unfoldable pub win_to_sockaddr4 : IpAddr → SockaddrIn
win_to_sockaddr4 addr = record zero_sockaddr4 {
  sin_addr = memcpy zero_sockaddr4.sin_addr (take 4 addr.bytes);
  sin_family = 2;
  sin_port = addr.port;
}

unfoldable pub win_to_sockaddr6 : IpAddr → SockaddrIn6
win_to_sockaddr6 addr = record zero_sockaddr6 {
  sin6_addr = memcpy zero_sockaddr6.sin6_addr (take 16 addr.bytes);
  sin6_family = 23;
  sin6_port = addr.port;
}

-- `WinSock`; the three function pointers are addresses.
pub record WinSock : Type 0 where
  pub sock : ℕ
  pub addr : IpAddr
  pub recv_msg : ℕ
  pub connect_fn : ℕ
  pub disconnect_fn : ℕ
  pub inited : Bool

-- `Valid`
unfoldable pub is_valid : WinSock → Bool
is_valid sk = not (sk.sock == 0)

module _ {S : Type 0} (os : WinOs S) where
  -- `Init`: MAKEWORD(2, 2) is 514.
  unfoldable pub win_init : S → ℤ × S
  win_init s = os.wsa_startup 514 s

  -- `WinSock()`, over what the fields hold before.
  unfoldable pub win_new : WinSock → S → WinSock × S
  unfolding win_init
  win_new sk s = let (_, s') = win_init s in (record sk { sock = 0; inited = false }, s')

  -- The three look-ups of `InitFunc`.
  unfoldable pub look_up : WinSock → S → WinSock × S
  look_up sk s =
      let (p, s1) = os.wsa_ioctl sk.sock wsa_recv_msg sk.recv_msg s in
      let (q, s2) = os.wsa_ioctl sk.sock connect_ex sk.connect_fn s1 in
      let (r, s3) = os.wsa_ioctl sk.sock disconnect_ex sk.disconnect_fn s2 in
      (record sk { recv_msg = p; connect_fn = q; disconnect_fn = r; inited = true }, s3)

  -- `InitFunc`
  unfoldable pub init_func : WinSock → S → ℤ × WinSock × S
  unfolding look_up
  init_func sk s =
      if not sk.inited then (let (sk', s') = look_up sk s in (pos 0, sk', s')) else (pos 0, sk, s)

  -- The body that the six functions that open a socket share. `sock_ < 0` compares an unsigned
  -- number.
  unfoldable pub win_open_as : ℕ → ℕ → ℕ → AddrType → WinSock → S → ℤ × WinSock × S
  unfolding init_func
  win_open_as domain type protocol kind sk s =
      let (fd, s1) = os.wsa_socket domain type protocol s in
      let s2 = os.ioctlsocket fd 1 s1 in
      let sk' : WinSock = record sk { sock = fd } in
      if ltb fd 0
      then (to_int fd, sk', s2)
      else init_func (record sk' { addr = record (sk'.addr) { kind = kind } }) s2

  unfoldable pub win_raw_socket4 : WinSock → S → ℤ × WinSock × S
  win_raw_socket4 sk s = win_open_as 2 3 4 ipv4 sk s

  unfoldable pub win_raw_socket6 : WinSock → S → ℤ × WinSock × S
  win_raw_socket6 sk s = win_open_as 23 3 41 ipv6 sk s

  unfoldable pub win_tcp_socket4 : WinSock → S → ℤ × WinSock × S
  win_tcp_socket4 sk s = win_open_as 2 1 0 ipv4 sk s

  unfoldable pub win_tcp_socket6 : WinSock → S → ℤ × WinSock × S
  win_tcp_socket6 sk s = win_open_as 23 1 0 ipv6 sk s

  unfoldable pub win_udp_socket4 : WinSock → S → ℤ × WinSock × S
  win_udp_socket4 sk s = win_open_as 2 2 0 ipv4 sk s

  unfoldable pub win_udp_socket6 : WinSock → S → ℤ × WinSock × S
  win_udp_socket6 sk s = win_open_as 23 2 0 ipv6 sk s

  -- The end of `Connect` and `Bind`: a failure's code, or the address is taken over.
  unfoldable pub win_settle : ℤ → Bool → IpAddr → WinSock → S → ℤ × WinSock × S
  win_settle code failed addr sk s =
      if failed then (code, sk, s) else (pos 0, record sk { addr = addr }, s)

  unfoldable pub win_connect_as : AddrType → WinSock → IpAddr → S → ℤ × WinSock × S
  unfolding win_settle
  win_connect_as ipv6 sk addr s =
      let (r, s') = os.connect sk.sock (in6 (win_to_sockaddr6 addr)) 28 s in
      win_settle (pos (os.last_error s')) (not (eqb r (pos 0))) addr sk s'
  win_connect_as ipv4 sk addr s =
      let (r, s') = os.connect sk.sock (in4 (win_to_sockaddr4 addr)) 16 s in
      win_settle (pos (os.last_error s')) (not (eqb r (pos 0))) addr sk s'

  -- `Connect`: the error is returned as it is, not negated.
  unfoldable pub win_connect : WinSock → IpAddr → S → ℤ × WinSock × S
  unfolding win_connect_as
  win_connect sk addr s = win_connect_as sk.addr.kind sk addr s

  unfoldable pub win_bind_as : AddrType → WinSock → IpAddr → S → ℤ × WinSock × S
  unfolding win_settle
  win_bind_as ipv6 sk addr s =
      let (r, s') = os.bind sk.sock (in6 (win_to_sockaddr6 addr)) 28 s in
      win_settle r (not (eqb r (pos 0))) addr sk s'
  win_bind_as ipv4 sk addr s =
      let (r, s') = os.bind sk.sock (in4 (win_to_sockaddr4 addr)) 16 s in
      win_settle r (not (eqb r (pos 0))) addr sk s'

  -- `Bind`
  unfoldable pub win_bind : WinSock → IpAddr → S → ℤ × WinSock × S
  unfolding win_bind_as
  win_bind sk addr s = win_bind_as addr.kind sk addr s

  -- `Listen`
  unfoldable pub win_listen : WinSock → ℤ → S → ℤ × S
  win_listen sk backlog s = os.listen sk.sock backlog s

  -- `Shutdown` and `Close`
  unfoldable pub win_shutdown : WinSock → ℤ → S → ℤ × S
  win_shutdown sk how s =
      let (r, s') = os.shutdown sk.sock how s in
      if not (eqb r (pos 0)) then (pos (os.last_error s'), s') else (pos 0, s')

  unfoldable pub win_close : WinSock → S → ℤ × S
  win_close sk s =
      let (r, s') = os.closesocket sk.sock s in
      if not (eqb r (pos 0)) then (pos (os.last_error s'), s') else (pos 0, s')

-- `operator==`
unfoldable pub win_same_sock : WinSock → WinSock → Bool
win_same_sock a b = a.sock == b.sock
