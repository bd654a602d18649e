-- ===== src/Sock.antt =====
-- venti/platform/linux/linuxsock.h: `LinuxUtils` and `LinuxSock`. A method takes the socket object
-- and the kernel's state, and returns its `int`, the object if it changes it, and the state.
pub mod Utils
pub mod Open
pub mod Transfer
pub mod Addresses
pub mod Expiry
use venti.Prelude.{ℕ, zero, suc, ◌/◌, ◌%◌, Bool, not, if◌then◌else◌}
use venti.Prelude.Int.{ℤ, pos, negsuc, neg, eqb, ltb_zero}
use venti.Addr.{IpAddr, AddrType, ipv4, ipv6}
use venti.Os.{Os, Sockaddr, in4, in6, Itimerspec}
use Utils.{LinuxSock, to_ip_addr4, to_ip_addr6, to_sockaddr4, to_sockaddr6}

module _ {S : Type 0} (os : Os S) where
  -- `GetSockErr`
  abbrev pub get_sock_err : S → ℤ
  get_sock_err s = pos (os.errno s)

  -- What `Connect` and `Bind` do with the call's result.
  unfoldable pub settle : Bool → IpAddr → LinuxSock → S → ℤ × LinuxSock × S
  settle failed addr sk s =
      if failed then (neg (get_sock_err s), sk, s) else (pos 0, record sk { addr = addr }, s)

  unfoldable pub connect_as : AddrType → LinuxSock → IpAddr → S → ℤ × LinuxSock × S
  connect_as ipv6 sk addr s =
      let (r, s') = os.connect sk.sock (in6 (to_sockaddr6 addr)) 28 s in
      settle (eqb r (negsuc 0)) addr sk s'
  connect_as ipv4 sk addr s =
      let (r, s') = os.connect sk.sock (in4 (to_sockaddr4 addr)) 16 s in
      settle (eqb r (negsuc 0)) addr sk s'

  -- `Connect`: the socket's own kind chooses the branch.
  unfoldable pub connect : LinuxSock → IpAddr → S → ℤ × LinuxSock × S
  unfolding connect_as settle
  connect sk addr s = connect_as sk.addr.kind sk addr s

  bind_as : AddrType → LinuxSock → IpAddr → S → ℤ × LinuxSock × S
  bind_as ipv6 sk addr s =
      let (r, s') = os.bind sk.sock (in6 (to_sockaddr6 addr)) 28 s in
      settle (not (eqb r (pos 0))) addr sk s'
  bind_as ipv4 sk addr s =
      let (r, s') = os.bind sk.sock (in4 (to_sockaddr4 addr)) 16 s in
      settle (not (eqb r (pos 0))) addr sk s'

  -- `Bind`: the address's kind chooses the branch.
  unfoldable pub bind : LinuxSock → IpAddr → S → ℤ × LinuxSock × S
  unfolding bind_as settle
  bind sk addr s = bind_as addr.kind sk addr s

  -- `Listen`
  unfoldable pub listen : LinuxSock → ℤ → S → ℤ × S
  listen sk backlog s = os.listen sk.sock backlog s

  -- `Accept` on a socket of each kind.
  unfoldable pub accept_as : AddrType → LinuxSock → LinuxSock → S → ℤ × LinuxSock × S
  accept_as ipv6 sk res s =
      let (fd, s') = os.accept sk.sock 28 s in
      if ltb_zero fd
      then (neg (get_sock_err s'), res, s')
      else (pos 0, record res { sock = fd; addr = to_ip_addr6 (os.raw s') (os.name6 s') }, s')
  accept_as ipv4 sk res s =
      let (fd, s') = os.accept sk.sock 16 s in
      if ltb_zero fd
      then (neg (get_sock_err s'), res, s')
      else (pos 0, record res { sock = fd; addr = to_ip_addr4 (os.raw s') (os.name4 s') }, s')

  -- `Accept(LinuxSock *res)`: returns the new `*res`.
  unfoldable pub accept : LinuxSock → LinuxSock → S → ℤ × LinuxSock × S
  unfolding accept_as
  accept sk res s = accept_as sk.addr.kind sk res s

  -- `Shutdown` and `Close` return the error itself, not its negative.
  unfoldable pub shutdown : LinuxSock → ℤ → S → ℤ × S
  shutdown sk how s =
      let (r, s') = os.shutdown sk.sock how s in
      if not (eqb r (pos 0)) then (get_sock_err s', s') else (pos 0, s')

  unfoldable pub close : LinuxSock → S → ℤ × S
  close sk s =
      let (r, s') = os.close sk.sock s in if ltb_zero r then (get_sock_err s', s') else (pos 0, s')

-- C's `/` and `%` by 1000000000 round towards zero.
abbrev pub nsec_per_sec : ℕ
nsec_per_sec = 1_000_000_000

abbrev pub quot_sec : ℤ → ℤ
quot_sec (pos n) = pos (n / nsec_per_sec)
quot_sec (negsuc n) = neg (pos (suc n / nsec_per_sec))

abbrev pub rem_nsec : ℤ → ℤ
rem_nsec (pos n) = pos (n % nsec_per_sec)
rem_nsec (negsuc n) = neg (pos (suc n % nsec_per_sec))

-- The timer setting that `SetTime` builds.
unfoldable pub expiry_of : ℤ → Itimerspec
expiry_of ns = record {
  interval_sec = pos 0;
  interval_nsec = pos 0;
  value_sec = quot_sec ns;
  value_nsec = rem_nsec ns;
}

module _ {S : Type 0} (os : Os S) where
  -- `Timer`
  unfoldable pub timer : LinuxSock → S → ℤ × LinuxSock × S
  timer sk s = let (fd, s') = os.timerfd_create s in (pos 0, record sk { sock = fd }, s')

  -- `SetTime`
  unfoldable pub set_time : LinuxSock → ℤ → S → S
  unfolding expiry_of
  set_time sk ns s = os.timerfd_settime sk.sock (expiry_of ns) s

-- `operator==`
unfoldable pub same_sock : LinuxSock → LinuxSock → Bool
same_sock a b = eqb a.sock b.sock
