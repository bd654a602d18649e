-- ===== src/Sock/Open.antt =====
-- The functions of `LinuxSock` (venti/platform/linux/linuxsock.h) that create a descriptor. The
-- numbers are Linux's: AF_INET 2, AF_INET6 10, SOCK_STREAM 1, SOCK_DGRAM 2, SOCK_RAW 3,
-- IPPROTO_IP 0, IPPROTO_IPV6 41.
use venti.Prelude.{ℕ, if◌then◌else◌}
use venti.Prelude.Int.{ℤ, pos, ltb_zero}
use venti.Addr.{AddrType, ipv4, ipv6}
use venti.Os.{Os}
use venti.Sock.Utils.{LinuxSock}

module _ {S : Type 0} (os : Os S) where
  -- The body that they share: the descriptor is stored and made non-blocking before it is tested.
  unfoldable pub open_as : ℕ → ℕ → ℕ → AddrType → LinuxSock → S → ℤ × LinuxSock × S
  open_as domain type protocol kind sk s =
      let (fd, s') = os.socket domain type protocol s in
      let s'' = os.ioctl_fionbio fd 1 s' in
      let sk' : LinuxSock = record sk { sock = fd } in
      if ltb_zero fd
      then (fd, sk', s'')
      else (pos 0, record sk' { addr = record (sk'.addr) { kind = kind } }, s'')

  unfoldable pub raw_socket4 : LinuxSock → S → ℤ × LinuxSock × S
  unfolding open_as
  raw_socket4 sk s = open_as 2 3 0 ipv4 sk s

  unfoldable pub raw_socket6 : LinuxSock → S → ℤ × LinuxSock × S
  unfolding open_as
  raw_socket6 sk s = open_as 2 3 41 ipv6 sk s

  unfoldable pub raw_socket46 : LinuxSock → S → ℤ × LinuxSock × S
  unfolding open_as
  raw_socket46 sk s = open_as 2 3 0 ipv4 sk s

  unfoldable pub tcp_socket4 : LinuxSock → S → ℤ × LinuxSock × S
  unfolding open_as
  tcp_socket4 sk s = open_as 2 1 0 ipv4 sk s

  unfoldable pub tcp_socket6 : LinuxSock → S → ℤ × LinuxSock × S
  unfolding open_as
  tcp_socket6 sk s = open_as 10 1 0 ipv6 sk s

  unfoldable pub udp_socket4 : LinuxSock → S → ℤ × LinuxSock × S
  unfolding open_as
  udp_socket4 sk s = open_as 2 2 0 ipv4 sk s

  unfoldable pub udp_socket6 : LinuxSock → S → ℤ × LinuxSock × S
  unfolding open_as
  udp_socket6 sk s = open_as 10 2 0 ipv6 sk s
