-- ===== src/Win/Select/Try.antt =====
-- The `Try…` functions of venti/platform/win/wineventimpl.h. `none` is the use of a null pointer.
use venti.Prelude.{ℕ, false, Option, none, some, update, ◌==◌, if◌then◌else◌}
use venti.Prelude.Int.{ℤ, pos, negsuc, neg, ltb_zero}
use venti.Epoll.Slot.{not_null, load_addr, store_addr}
use venti.Win.Os.{WinOs}
use venti.Win.Sock.{win_connect}
use venti.Win.Sock.Transfer.{win_send, win_recv, win_sendto, win_recvfrom, win_accept}
use venti.Win.Select.{SelData, SelWorld}

-- WSAEWOULDBLOCK
abbrev pub wsa_would_block : ℕ
wsa_would_block = 10035

-- What a `Try…` returns: its result, the operation and the world afterwards.
abbrev pub Tried : (A F S : Type 0) → Type 0
Tried A F S = ℤ × SelData A × SelWorld A F S

module _ {A F S : Type 0} (os : WinOs S) where
  -- The end of the four transfers: `GetSockErr`, and 0 where it would block.
  unfoldable pub settle_try : ℤ → SelData A → SelWorld A F S → Tried A F S
  settle_try len d w =
      let e : ℕ = os.last_error w.os in
      if ltb_zero len
      then if e == wsa_would_block
        then (pos 0, record d { processing = false }, w)
        else (neg (pos e), d, w)
      else (len, d, w)

  unfoldable pub read_with : ℕ → SelData A → SelWorld A F S → Tried A F S
  read_with s d w =
      let (len, o) = win_recv os (w.socks s) d.bufs w.os in settle_try len d (record w { os = o })

  unfoldable pub write_with : ℕ → SelData A → SelWorld A F S → Tried A F S
  write_with s d w =
      let (len, o) = win_send os (w.socks s) d.bufs w.os in settle_try len d (record w { os = o })

  unfoldable pub recvfrom_with : ℕ → SelData A → SelWorld A F S → Tried A F S
  recvfrom_with s d w =
      let (len, a, o) = win_recvfrom os (w.socks s) d.bufs (not_null d.target) w.os in
      settle_try len d (record w { addrs = store_addr w.addrs d.target a; os = o })

  unfoldable pub sendto_with : ℕ → SelData A → SelWorld A F S → Tried A F S
  sendto_with s d w =
      let (len, o) = win_sendto os (w.socks s) d.bufs (load_addr w.addrs d.target) w.os in
      settle_try len d (record w { os = o })

  -- -1 where it would block, else the error itself.
  unfoldable pub settle_accept : ℤ → SelData A → SelWorld A F S → Tried A F S
  settle_accept r d w =
      let e : ℕ = os.last_error w.os in
      if ltb_zero r
      then if e == wsa_would_block
        then (negsuc 0, record d { processing = false }, w)
        else (pos e, d, w)
      else (pos 0, d, w)

  unfoldable pub accept_with : ℕ → ℕ → SelData A → SelWorld A F S → Tried A F S
  accept_with s p d w =
      let (r, res, o) = win_accept os (w.socks s) (w.socks p) w.os in
      settle_accept r d (record w { socks = update w.socks p res; os = o })

  unfoldable pub connect_with : ℕ → ℕ → SelData A → SelWorld A F S → Tried A F S
  connect_with s p d w =
      let (r, sk, o) = win_connect os (w.socks s) (w.addrs p) w.os in
      (r, d, record w { socks = update w.socks s sk; os = o })

-- An attempt through the pointers `sock` and `data`.
module _ {A F S : Type 0} where
  unfoldable pub attempt :
      (ℕ → SelData A → SelWorld A F S → Tried A F S)
      → SelData A
      → SelWorld A F S
      → Option (Tried A F S)
  attempt try d w = elim d.sock [ none ↦ none | some s ↦ some (try s d w) ]

  unfoldable pub attempt_at :
      (ℕ → ℕ → SelData A → SelWorld A F S → Tried A F S)
      → SelData A
      → SelWorld A F S
      → Option (Tried A F S)
  unfolding attempt
  attempt_at try d w = elim d.target [ none ↦ none | some p ↦ attempt (λ s. try s p) d w ]

module _ {A F S : Type 0} (os : WinOs S) where
  -- `TryRead`, `TryWrite`, `TryRecvfrom`, `TrySendto`, `TryAccept` and `TryConnect`
  unfoldable pub sel_try_read : SelData A → SelWorld A F S → Option (Tried A F S)
  sel_try_read = attempt (read_with os)

  unfoldable pub sel_try_write : SelData A → SelWorld A F S → Option (Tried A F S)
  sel_try_write = attempt (write_with os)

  unfoldable pub sel_try_recvfrom : SelData A → SelWorld A F S → Option (Tried A F S)
  sel_try_recvfrom = attempt (recvfrom_with os)

  unfoldable pub sel_try_sendto : SelData A → SelWorld A F S → Option (Tried A F S)
  sel_try_sendto = attempt (sendto_with os)

  unfoldable pub sel_try_accept : SelData A → SelWorld A F S → Option (Tried A F S)
  sel_try_accept = attempt_at (accept_with os)

  unfoldable pub sel_try_connect : SelData A → SelWorld A F S → Option (Tried A F S)
  sel_try_connect = attempt_at (connect_with os)
