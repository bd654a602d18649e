-- ===== src/Epoll/Slot.antt =====
-- The parts of venti/platform/linux/epollimpl.h that its functions share: one attempt at an
-- operation (`Try…`), and the statements that finish it.
use venti.Prelude.{ℕ, ◌^◌, Bool, true, false, Option, none, some, update}
use venti.Prelude.Int.{ℤ, negsuc}
use venti.Event.{Event, completed, err}
use venti.Addr.{IpAddr}
use venti.Os.{Os}
use venti.Sock
use venti.Sock.Transfer
use venti.World.{World, slot, put_slot, cleared}
use venti.Context.{submit_complete}

-- `-EWOULDBLOCK`
abbrev pub would_block : ℤ
would_block = negsuc 10

abbrev pub epollin : ℕ
epollin = 1

abbrev pub epollout : ℕ
epollout = 4

abbrev pub epollerr : ℕ
epollerr = 8

abbrev pub epollhup : ℕ
epollhup = 16

abbrev pub epollet : ℕ
epollet = 2 ^ 31

module _ {A S : Type 0} where
  -- `sock.ev_->Clear()`
  unfoldable pub clear : ℕ → World A S → World A S
  unfolding cleared
  clear s w = put_slot s (cleared (slot w s)) w

  unfoldable pub set_rp : ℕ → Bool → World A S → World A S
  set_rp s b w = put_slot s (record (slot w s) { rp = b }) w

  unfoldable pub set_wp : ℕ → Bool → World A S → World A S
  set_wp s b w = put_slot s (record (slot w s) { wp = b }) w

  -- The three ways in which `Submit…` finishes its own copy of the event.
  unfoldable pub fail_now : ℕ → ℤ → Event A → World A S → World A S
  fail_now s e ev w = clear s (submit_complete (record ev { status = err; error = e }) w)

  unfoldable pub finish_now : ℕ → ℤ → Event A → World A S → World A S
  finish_now s r ev w = clear s (submit_complete (record ev { status = completed; res = r }) w)

  unfoldable pub done_now : ℕ → Event A → World A S → World A S
  done_now s ev w = clear s (submit_complete (record ev { status = completed }) w)

  -- What `Wait` does with the event in the slot: it is changed in place, then submitted.
  unfoldable pub submit_slot : ℕ → Event A → World A S → World A S
  submit_slot s ev w = clear s (submit_complete ev (put_slot s (record (slot w s) { ev = ev }) w))

  unfoldable pub fail_slot : ℕ → ℤ → World A S → World A S
  fail_slot s e w = submit_slot s (record (slot w s).ev { status = err; error = e }) w

  unfoldable pub finish_slot : ℕ → ℤ → World A S → World A S
  finish_slot s r w = submit_slot s (record (slot w s).ev { status = completed; res = r }) w

  unfoldable pub done_slot : ℕ → World A S → World A S
  done_slot s w = submit_slot s (record (slot w s).ev { status = completed }) w

-- `*peer` for a pointer that may be null.
unfoldable pub load_addr : (ℕ → IpAddr) → Option ℕ → Option IpAddr
load_addr addrs none = none
load_addr addrs (some p) = some (addrs p)

unfoldable pub store_addr : (ℕ → IpAddr) → Option ℕ → Option IpAddr → ℕ → IpAddr
store_addr addrs none a = addrs
store_addr addrs (some p) none = addrs
store_addr addrs (some p) (some a) = update addrs p a

unfoldable pub not_null : Option ℕ → Bool
not_null none = false
not_null (some p) = true

module _ {A S : Type 0} (os : Os S) where
  -- `TryRead`
  unfoldable pub try_read : ℕ → World A S → ℤ × World A S
  try_read s w =
      let (r, o) = Transfer.recv os (w.socks s) (slot w s).bufs w.os in (r, record w { os = o })

  -- `TryWrite`
  unfoldable pub try_write : ℕ → World A S → ℤ × World A S
  try_write s w =
      let (r, o) = Transfer.send os (w.socks s) (slot w s).bufs w.os in (r, record w { os = o })

  -- `TryAccept`, given that the target pointer is not null.
  unfoldable pub accept_into : ℕ → ℕ → World A S → ℤ × World A S
  accept_into s p w =
      let (r, res, o) = Sock.accept os (w.socks s) (w.socks p) w.os in
      (r, record w { socks = update w.socks p res; os = o })

  -- `TryAccept`; `none` is the write through a null pointer.
  unfoldable pub try_accept : ℕ → World A S → Option (ℤ × World A S)
  try_accept s w = elim (slot w s).target [ none ↦ none | some p ↦ some (accept_into s p w) ]

  -- `TryRecvfrom`
  unfoldable pub try_recvfrom : ℕ → World A S → ℤ × World A S
  unfolding store_addr not_null
  try_recvfrom s w =
      let peer : Option ℕ = (slot w s).target in
      let (r, a, o) = Transfer.recvfrom os (w.socks s) (slot w s).bufs (not_null peer) w.os in
      (r, record w { addrs = store_addr w.addrs peer a; os = o })

  -- `TrySendto`
  unfoldable pub try_sendto : ℕ → World A S → ℤ × World A S
  unfolding load_addr
  try_sendto s w =
      let peer : Option IpAddr = load_addr w.addrs (slot w s).target in
      let (r, o) = Transfer.sendto os (w.socks s) (slot w s).bufs peer w.os in
      (r, record w { os = o })
