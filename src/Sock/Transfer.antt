-- ===== src/Sock/Transfer.antt =====
-- `Send`, `Recv`, `Sendto` and `Recvfrom` of venti/platform/linux/linuxsock.h. The result of the
-- kernel's call is stored in a `size_t`, tested for `< 0`, and returned as `int`.
use venti.Prelude.{
  ℕ, Bool, true, false, List, [], ◌∷◌, Option, none, some, length, ltb, if◌then◌else◌,
}
use venti.Prelude.Int.{ℤ, pos, neg, to_size, to_int}
use venti.Buffer.{Buffer, Buffers}
use venti.Addr.{IpAddr, AddrType, ipv4, ipv6}
use venti.Os.{Os, Sockaddr, in4, in6, Msghdr, Iovec}
use venti.Sock.Utils.{
  LinuxSock, to_ip_addr4, to_ip_addr6, to_sockaddr4, to_sockaddr6, zero_sockaddr4, zero_sockaddr6,
}

-- The loop that fills the `iovec`s.
unfoldable pub iovecs : List Buffer → List Iovec
iovecs [] = []
iovecs (b ∷ bs) = record { iov_base = b.content; iov_len = b.len } ∷ iovecs bs

-- The zeroed `msghdr` with its fields set.
unfoldable pub msghdr_of : Option Sockaddr → ℕ → Buffers → Msghdr
msghdr_of name namelen buf = record {
  msg_name = name;
  msg_namelen = namelen;
  msg_iov = iovecs buf.bufs;
  msg_iovlen = length (iovecs buf.bufs);
}

module _ {S : Type 0} (os : Os S) where
  -- `size_t len = …; if (len < 0) return -GetSockErr(); return len;`
  unfoldable pub transferred : ℤ → S → ℤ
  transferred r s =
      let len : ℕ = to_size r in if ltb len 0 then neg (pos (os.errno s)) else to_int len

  unfoldable pub send : LinuxSock → Buffers → S → ℤ × S
  unfolding transferred
  send sk buf s =
      let (r, s') = os.sendmsg sk.sock (msghdr_of none 0 buf) s in (transferred r s', s')

  unfoldable pub recv : LinuxSock → Buffers → S → ℤ × S
  unfolding transferred
  recv sk buf s =
      let (r, s') = os.recvmsg sk.sock (msghdr_of none 0 buf) s in (transferred r s', s')

  unfoldable pub sendto_msg : AddrType → Buffers → Option IpAddr → Msghdr
  sendto_msg kind buf none = msghdr_of none 0 buf
  sendto_msg ipv6 buf (some peer) = msghdr_of (some (in6 (to_sockaddr6 peer))) 28 buf
  sendto_msg ipv4 buf (some peer) = msghdr_of (some (in4 (to_sockaddr4 peer))) 16 buf

  -- `Sendto`; `none` is the null peer of a connected socket.
  unfoldable pub sendto : LinuxSock → Buffers → Option IpAddr → S → ℤ × S
  unfolding transferred
  sendto sk buf peer s =
      let (r, s') = os.sendmsg sk.sock (sendto_msg sk.addr.kind buf peer) s in
      (transferred r s', s')

  unfoldable pub recvfrom_msg : AddrType → Buffers → Bool → Msghdr
  recvfrom_msg kind buf false = msghdr_of none 0 buf
  recvfrom_msg ipv6 buf true = msghdr_of (some (in6 zero_sockaddr6)) 28 buf
  recvfrom_msg ipv4 buf true = msghdr_of (some (in4 zero_sockaddr4)) 16 buf

  unfoldable pub sender : AddrType → S → IpAddr
  sender ipv6 s = to_ip_addr6 (os.raw s) (os.name6 s)
  sender ipv4 s = to_ip_addr4 (os.raw s) (os.name4 s)

  -- `Recvfrom` where `peer` says whether the pointer is not null; the second result is what it
  -- writes to `*peer`.
  unfoldable pub recvfrom : LinuxSock → Buffers → Bool → S → ℤ × Option IpAddr × S
  unfolding sender
  recvfrom sk buf peer s =
      let (r, s') = os.recvmsg sk.sock (recvfrom_msg sk.addr.kind buf peer) s in
      let len : ℕ = to_size r in
      if ltb len 0
      then (neg (pos (os.errno s')), none, s')
      else (to_int len, if peer then some (sender sk.addr.kind s') else none, s')
