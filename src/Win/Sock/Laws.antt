-- ===== src/Win/Sock/Laws.antt =====
-- What the sockets of venti/platform/win/winsock.h return.
use venti.Prelude.{
  ℕ, ◌<◌, ◌^◌, true, some, ◌≤◌, ◌≡◌, refl, ap, sym, ◌∙◌, false, inl, inr, Bool-cases, arith, length,
  ltb,
}
use venti.Prelude.Int.{pos, to_int}
use venti.Addr.{IpAddr, AddrType, ipv4, ipv6}
use venti.Sock.Addresses.{width, SameAddr, take-memcpy, length-memcpy-ge}
use venti.Buffer.{Buffers}
use venti.Os.{SockaddrIn, SockaddrIn6}
use venti.Win.Os.{WinOs}
use venti.Win.Sock.{
  WinSock, init_func, win_open_as, look_up, win_to_sockaddr4, win_to_sockaddr6, win_to_ip_addr4,
  win_to_ip_addr6,
}
use venti.Win.Sock.Transfer.{win_accept_as, win_accept, win_sender, win_recvfrom, win_recvfrom_msg}

not_below_zero : (n : ℕ) → ltb n 0 ≡ false
not_below_zero n = ground arith

fits_int : (n : ℕ) → n < 2 ^ 31 → to_int n ≡ pos n
unfolding to_int
fits_int n h = ground arith

module _ {S : Type 0} (os : WinOs S) where
  init_func_keeps :
      (sk : WinSock) (s : S)
      → ((init_func os sk s).0 ≡ pos 0) × ((init_func os sk s).1.sock ≡ sk.sock)
  unfolding init_func look_up
  init_func_keeps sk s = elim (Bool-cases sk.inited) [
    | inl done ↦ rw done (refl, refl)
    | inr fresh ↦ rw fresh (refl, refl)
  ]

  -- Opening a socket of any family, type and protocol returns 0 and stores what the system
  -- returned, the invalid socket included.
  win_open_as-pos :
      (domain type protocol : ℕ) (kind : AddrType) (sk : WinSock) (s : S)
      → ((win_open_as os domain type protocol kind sk s).0 ≡ pos 0)
        × ((win_open_as os domain type protocol kind sk s).1.sock
            ≡ (os.wsa_socket domain type protocol s).0)
  unfolding win_open_as
  win_open_as-pos domain type protocol kind sk s =
      rw (not_below_zero (os.wsa_socket domain type protocol s).0) (init_func_keeps _ _)

  accept_as_stores :
      (kind : AddrType) (sk res : WinSock) (s : S)
      → ((win_accept_as os kind sk res s).0 ≡ pos 0)
        × (n : ℕ) × ((win_accept_as os kind sk res s).1.sock ≡ (os.accept sk.sock n s).0)
  unfolding win_accept_as
  accept_as_stores ipv4 sk res s = rw (not_below_zero (os.accept sk.sock 16 s).0) (refl, 16, refl)
  accept_as_stores ipv6 sk res s = rw (not_below_zero (os.accept sk.sock 28 s).0) (refl, 28, refl)

  -- `Accept` returns 0 and stores what the system returned, the invalid socket included.
  pub win_accept-pos :
      (sk res : WinSock) (s : S)
      → ((win_accept os sk res s).0 ≡ pos 0)
        × (n : ℕ) × ((win_accept os sk res s).1.sock ≡ (os.accept sk.sock n s).0)
  unfolding win_accept
  win_accept-pos sk res s = accept_as_stores sk.addr.kind sk res s

  -- If the system reports as a datagram's sender the IPv4 address that `ToSockaddr4` makes of `a`,
  -- then what `Recvfrom` takes for the sender is `a`.
  pub win_sender-win_to_sockaddr4 :
      (a : IpAddr) (s : S)
      → a.kind ≡ ipv4
      → 4 ≤ length a.bytes
      → os.name4 s ≡ win_to_sockaddr4 a
      → SameAddr (win_sender os ipv4 s) a
  unfolding win_sender win_to_ip_addr4 win_to_sockaddr4
  win_sender-win_to_sockaddr4 a s k h reported = record {
    kind = sym k;
    port = ap (λ (n : SockaddrIn). n.sin_port) reported;
    bytes =
        rw (k, reported)
          (take-memcpy 4 _ _ (length-memcpy-ge 4 _ a.bytes h) ∙ take-memcpy 4 _ a.bytes h);
  }

  -- If the system reports as a datagram's sender the IPv6 address that `ToSockaddr6` makes of `a`,
  -- then what `Recvfrom` takes for the sender is `a`.
  pub win_sender-win_to_sockaddr6 :
      (a : IpAddr) (s : S)
      → a.kind ≡ ipv6
      → 16 ≤ length a.bytes
      → os.name6 s ≡ win_to_sockaddr6 a
      → SameAddr (win_sender os ipv6 s) a
  unfolding win_sender win_to_ip_addr6 win_to_sockaddr6
  win_sender-win_to_sockaddr6 a s k h reported = record {
    kind = sym k;
    port = ap (λ (n : SockaddrIn6). n.sin6_port) reported;
    bytes =
        rw (k, reported)
          (take-memcpy 16 _ _ (length-memcpy-ge 16 _ a.bytes h) ∙ take-memcpy 16 _ a.bytes h);
  }

  -- What the system reports as a datagram's sender is the block that `ToSockaddr4` or `ToSockaddr6`
  -- makes of `a`.
  abbrev pub Reports : AddrType → IpAddr → S → Type 0
  Reports ipv4 a s = os.name4 s ≡ win_to_sockaddr4 a
  Reports ipv6 a s = os.name6 s ≡ win_to_sockaddr6 a

  win_sender_as :
      (kind : AddrType) (a : IpAddr) (s : S)
      → a.kind ≡ kind
      → width kind ≤ length a.bytes
      → Reports kind a s
      → SameAddr (win_sender os kind s) a
  win_sender_as ipv4 a s k h reported = win_sender-win_to_sockaddr4 a s k h reported
  win_sender_as ipv6 a s k h reported = win_sender-win_to_sockaddr6 a s k h reported

  win_sender-SameAddr :
      (a : IpAddr) (s : S)
      → width a.kind ≤ length a.bytes
      → Reports a.kind a s
      → SameAddr (win_sender os a.kind s) a
  win_sender-SameAddr a s h reported = win_sender_as a.kind a s refl h reported

  -- If the call of `Recvfrom` succeeds with `len` bytes, which fit `int`, and the system then reports
  -- as the datagram's sender the block that `ToSockaddr4` or `ToSockaddr6` makes of an address of the
  -- socket's kind, whose block has the bytes of its kind, then `Recvfrom` returns that number and
  -- writes that address to its caller.
  pub win_recvfrom-SameAddr :
      (sk : WinSock) (buf : Buffers) (a : IpAddr) (s s' : S) (len : ℕ)
      → os.call_recv_msg sk.recv_msg sk.sock (win_recvfrom_msg os a.kind buf true s) s
        ≡ (pos 0, len, s')
      → len < 2 ^ 31
      → sk.addr.kind ≡ a.kind
      → width a.kind ≤ length a.bytes
      → Reports a.kind a s'
      → (b : IpAddr) × (win_recvfrom os sk buf true s ≡ (pos len, some b, s')) × SameAddr b a
  unfolding win_recvfrom
  win_recvfrom-SameAddr sk buf a s s' len received fits same h reported =
      let int : to_int len ≡ pos len = fits_int len fits in
      (win_sender os a.kind s', rw (same, received, int) refl, win_sender-SameAddr a s' h reported)
