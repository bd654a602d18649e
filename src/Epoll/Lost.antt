-- ===== src/Epoll/Lost.antt =====
-- Reports that venti/platform/linux/epollimpl.h does not expect: of a socket without a submission, of
-- an error twice, of a peer that hung up, of a connection in progress.
use venti.Prelude.{
  ℕ, suc, ◌≡◌, ◌≢◌, refl, ap, ◌∙◌, true, false, List, [], ◌∷◌, ◌++◌, none, some, arith, ne→==_false,
}
use venti.Prelude.Int.{ℤ, pos, negsuc}
use venti.Event.{Event, err}
use venti.Addr.{IpAddr, AddrType, ipv4, ipv6}
use venti.Sock.Utils.{LinuxSock, to_sockaddr4, to_sockaddr6}
use venti.Os.{Os, EpollEvent, Sockaddr, in4, in6}
use mathlib.Core.List.{append_assoc}
use venti.Sock
use venti.Sock.{connect_as, settle}
use venti.World.{World, SockEventData, EvType, connect, noop, slot, new_data}
use venti.Tcp.{tcp_open}
use venti.Context.{submit_complete, settled}
use venti.Epoll.Slot.{epollerr, epollhup, clear, fail_now, submit_slot, fail_slot}
use venti.Epoll.Submit.{submit_connect, reg_sock}
use venti.Epoll.Wait.{has, is_connect, on_hup, handle_at, handle_event, handle_events, wait}

module _ {A S : Type 0} (s : ℕ) (e : ℤ) (w : World A S) where
  waitset-fail_slot :
      (fail_slot s e w).waitset ≡ w.waitset ++ record (slot w s).ev { status = err; error = e } ∷ []
  unfolding fail_slot submit_slot submit_complete clear settled
  waitset-fail_slot = refl

  slot-fail_slot :
      slot (fail_slot s e w) s
      ≡ record (slot w s) { ev = record (slot w s).ev { status = err; error = e }; type = noop }
  unfolding fail_slot submit_slot submit_complete clear settled
  slot-fail_slot = ground arith

module _ {A S : Type 0} (os : Os S) (siginfo : ℕ) where
  wait_null :
      (w : World A S) (e : EpollEvent) (es : List EpollEvent) (o : S)
      → os.epoll_wait w.epoll 128 w.os ≡ (e ∷ es, o)
      → (w.evs e.ptr).sock ≡ none
      → wait os siginfo w ≡ none
  unfolding wait handle_events handle_event
  wait_null w e es o polled null =
      let first : (os.epoll_wait w.epoll 128 w.os).0 ≡ e ∷ es = ap (λ p. p.0) polled in
      rw (first, handle_events) (rw (null, handle_event))

  -- If a `TCPSocket` is made of a `LinuxSock` whose event data is as its constructor makes it, and
  -- nothing is submitted for it before the kernel reports it first of all, whatever it reports, then
  -- `Wait` dereferences a null pointer.
  pub wait_unsubmitted :
      (kind : AddrType) (s : ℕ) (w : World A S) (e : EpollEvent) (es : List EpollEvent) (o : S)
      → slot w s ≡ new_data
      → os.epoll_wait (tcp_open os kind s w).epoll 128 (tcp_open os kind s w).os ≡ (e ∷ es, o)
      → e.ptr ≡ (w.socks s).ev
      → wait os siginfo (tcp_open os kind s w) ≡ none
  unfolding tcp_open reg_sock new_data
  wait_unsubmitted kind s w e es o made polled here =
      wait_null (tcp_open os kind s w) e es o polled
        (ap (λ p. (w.evs p).sock) here ∙ ap (λ (d : SockEventData A). d.sock) made)

  -- EPOLLERR: the event in the slot is submitted, whatever the slot's type.
  pub handle_at_err :
      (events s : ℕ) (w : World A S)
      → has events epollerr ≡ true
      → handle_at os siginfo events s w ≡ some (fail_slot s (pos (os.errno w.os)) w)
  unfolding handle_at
  handle_at_err events s w e = rw e

  -- A second EPOLLERR finds no operation under way (the slot is free) and still submits its event:
  -- the callback of one submission is called twice.
  pub handle_at_twice :
      (events s : ℕ) (w : World A S)
      → has events epollerr ≡ true
      → (w1 w2 : World A S) × (r1 : Event A) × (r2 : Event A) × (handle_at os siginfo events s w
          ≡ some w1)
        × ((slot w1 s).type ≡ noop)
        × (handle_at os siginfo events s w1 ≡ some w2)
        × (w2.waitset ≡ w.waitset ++ r1 ∷ r2 ∷ [])
        × (r1.cb ≡ (slot w s).ev.cb)
        × (r2.cb ≡ (slot w s).ev.cb)
  handle_at_twice events s w e =
      let w1 : World A S = fail_slot s (pos (os.errno w.os)) w in
      let r1 : Event A = record (slot w s).ev { status = err; error = pos (os.errno w.os) } in
      let r2 : Event A = record (slot w1 s).ev { status = err; error = pos (os.errno w1.os) } in
      (
        w1,
        fail_slot s (pos (os.errno w1.os)) w1,
        r1,
        r2,
        handle_at_err events s w e,
        ap (λ (d : SockEventData A). d.type) (slot-fail_slot s (pos (os.errno w.os)) w),
        handle_at_err events s w1 e,
        waitset-fail_slot s _ w1
            ∙ ap (λ l. l ++ r2 ∷ []) (waitset-fail_slot s _ w)
            ∙ append_assoc w.waitset (r1 ∷ []) (r2 ∷ []),
        refl,
        ap (λ (d : SockEventData A). d.ev.cb) (slot-fail_slot s (pos (os.errno w.os)) w),
      )

-- What `Connect` passes to the kernel by the socket's own kind: the address, and its length.
abbrev pub connect_name : AddrType → IpAddr → Sockaddr
connect_name ipv6 addr = in6 (to_sockaddr6 addr)
connect_name ipv4 addr = in4 (to_sockaddr4 addr)

abbrev pub connect_len : AddrType → ℕ
connect_len ipv6 = 28
connect_len ipv4 = 16

module _ {S : Type 0} (os : Os S) where
  connect_as_refused :
      (kind : AddrType) (sk : LinuxSock) (addr : IpAddr) (s s' : S) (e : ℕ)
      → os.connect sk.sock (connect_name kind addr) (connect_len kind) s ≡ (negsuc 0, s')
      → os.errno s' ≡ suc e
      → connect_as os kind sk addr s ≡ (negsuc e, sk, s')
  unfolding connect_as settle
  connect_as_refused ipv4 sk addr s s' e answer code = rw (answer, code) refl
  connect_as_refused ipv6 sk addr s s' e answer code = rw (answer, code) refl

is_connect_ne : (type : EvType) → type ≢ connect → is_connect type ≡ false
unfolding is_connect
is_connect_ne connect h = absurd (h refl)
is_connect_ne _ h = refl

module _ {A S : Type 0} (os : Os S) (siginfo : ℕ) where
  -- EPOLLHUP without EPOLLERR changes nothing unless a connection attempt is under way, whatever
  -- else is reported with it: a read under way is neither tried nor finished.
  handle_at_hup :
      (events s : ℕ) (w : World A S)
      → has events epollerr ≡ false
      → has events epollhup ≡ true
      → (slot w s).type ≢ connect
      → handle_at os siginfo events s w ≡ some w
  unfolding handle_at on_hup
  handle_at_hup events s w e h t = rw (e, h, is_connect_ne (slot w s).type t)

  -- If the kernel answers a connection attempt with -1 and leaves in `errno` any error but
  -- EWOULDBLOCK (11), EINPROGRESS (115) included, the attempt is finished at once as that error: one
  -- completion with the number that `errno` holds is added, and the slot is free, so that it never
  -- waits for the socket to become writable.
  pub submit_connect_in_progress :
      (s : ℕ) (addr : IpAddr) (ev : Event A) (w : World A S) (o : S) (e : ℕ)
      → os.connect
          (w.socks s).sock
          (connect_name (w.socks s).addr.kind addr)
          (connect_len (w.socks s).addr.kind)
          w.os
        ≡ (negsuc 0, o)
      → os.errno o ≡ suc e
      → suc e ≢ 11
      → ((submit_connect os s addr ev w).waitset
          ≡ w.waitset ++ record ev { status = err; error = pos (os.errno o) } ∷ [])
        × ((slot (submit_connect os s addr ev w) s).type ≡ noop)
  unfolding submit_connect Sock.connect fail_now clear submit_complete settled
  submit_connect_in_progress s addr ev w o e answer code other =
      let refused : connect_as os (w.socks s).addr.kind (w.socks s) addr w.os
          ≡ (negsuc e, w.socks s, o) =
        connect_as_refused os (w.socks s).addr.kind (w.socks s) addr w.os o e answer code in
      let open_ : e ≢ 10 = λ h. other (ap suc h) in
      rw (refused, ne→==_false e 10 open_, code) (refl, ground arith)
