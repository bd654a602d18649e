-- ===== src/Win/Iocp/Wait.antt =====
-- `WinIocp::Wait` of venti/platform/win/winiocpimpl.h. `none` is a null dereference, or the use of a
-- block that is not allocated or of a pointer that is not set.
use venti.Prelude.{ℕ, Bool, true, false, Option, none, some, update, List}
use venti.Prelude.Int.{pos, to_int}
use venti.Event.{Event, completed}
use venti.Addr.{IpAddr, AddrType, ipv4, ipv6}
use venti.Os.{SockaddrIn, SockaddrIn6}
use venti.Context.{enqueue}
use venti.Win.Os.{WinOs}
use venti.Win.Sock.{win_to_ip_addr4, win_to_ip_addr6}
use venti.Win.Iocp.{
  IocpOs, WinWorld, Seol, IocpType, Target, caller_addr, sock_addr, read, write, recvfrom, sendto,
  accept, connect, Block, free_seol,
}

-- An address and its port out of the system's form.
unfoldable pub addr_in4 : List ℕ → SockaddrIn → IpAddr
addr_in4 raw n = record (win_to_ip_addr4 raw n.sin_addr) { port = n.sin_port }

unfoldable pub addr_in6 : List ℕ → SockaddrIn6 → IpAddr
addr_in6 raw n = record (win_to_ip_addr6 raw n.sin6_addr) { port = n.sin6_port }

module _ {S : Type 0} (os : WinOs S) (io : IocpOs S) where
  -- The sender of a datagram, and the peer of an accepted connection.
  unfoldable pub block_addr : AddrType → ℕ → S → IpAddr
  block_addr ipv6 p o = addr_in6 (os.raw o) (io.block6 p o)
  block_addr ipv4 p o = addr_in4 (os.raw o) (io.block4 p o)

  unfoldable pub remote_addr : AddrType → ℕ → S → IpAddr
  remote_addr ipv6 p o = addr_in6 (os.raw o) (io.remote6 p o)
  remote_addr ipv4 p o = addr_in4 (os.raw o) (io.remote4 p o)

module _ {A S : Type 0} where
  -- `*(IPAddr*)seol->extra = …`
  unfoldable pub write_target : Option Target → IpAddr → WinWorld A S → Option (WinWorld A S)
  write_target none a w = none
  write_target (some (caller_addr p)) a w = some (record w { addrs = update w.addrs p a })
  write_target (some (sock_addr s)) a w =
      some (record w { socks = update w.socks s (record (w.socks s) { addr = a }) })

  -- The event is submitted, and `DelSEOL` deletes the block with its `data`, which stands in the
  -- block's own field here (`freed` is what it deletes it as).
  unfoldable pub complete_seol : ℕ → Event A → WinWorld A S → WinWorld A S
  complete_seol p ev w = free_seol p (record w { waitset = enqueue ev w.waitset })

module _ {A S : Type 0} (os : WinOs S) (io : IocpOs S) where
  -- RECVFROM, by whether `data` is null.
  unfoldable pub store_sender : Option Block → ℕ → Seol A → WinWorld A S → Option (WinWorld A S)
  store_sender none p q w = some w
  store_sender (some b) p q w = write_target q.extra (block_addr os io q.ipa p w.os) w

  -- What is stored before the completion is submitted.
  unfoldable pub store_addrs : IocpType → ℕ → Seol A → WinWorld A S → Option (WinWorld A S)
  store_addrs recvfrom p q w = store_sender q.block p q w
  store_addrs accept p q w = write_target q.extra (remote_addr os io q.ipa p w.os) w
  store_addrs read p q w = some w
  store_addrs write p q w = some w
  store_addrs sendto p q w = some w
  store_addrs connect p q w = some w

  -- The block `q` at `p` is reported as failed or as done with `len` bytes.
  unfoldable pub fail_seol : ℕ → Seol A → WinWorld A S → WinWorld A S
  fail_seol p q w =
      complete_seol p (record q.ev { status = io.error_macro; error = pos (os.last_error w.os) }) w

  unfoldable pub done_seol : ℕ → Seol A → ℕ → WinWorld A S → Option (WinWorld A S)
  done_seol p q len w = elim (store_addrs q.type p q w) [
    | none ↦ none
    | some w' ↦ some (complete_seol p (record q.ev { status = completed; res = to_int len }) w')
  ]

  unfoldable pub report_seol : Bool → ℕ → Seol A → ℕ → WinWorld A S → Option (WinWorld A S)
  report_seol false p q len w = some (fail_seol p q w)
  report_seol true p q len w = done_seol p q len w

  unfoldable pub report : Bool → Option ℕ → ℕ → WinWorld A S → Option (WinWorld A S)
  report valid none len w = none
  report valid (some p) len w = elim (w.seols p) [
    | none ↦ none
    | some q ↦ report_seol valid p q len w
  ]

  -- `Wait`
  unfoldable pub iocp_wait : WinWorld A S → Option (WinWorld A S)
  iocp_wait w =
      let (valid, ptr, len, o) = io.get_status w.port w.os in
      report valid ptr len (record w { os = o })
