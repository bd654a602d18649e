-- ===== src/Acceptor/Delivery.antt =====
-- A coroutine that awaits a connection on a listener that has none at once, from `await_suspend` to
-- its resumption (venti/socket/acceptor.h, venti/platform/linux/epollimpl.h).
use venti.Prelude.{ℕ, ◌+◌, ◌≡◌, refl, ap, ◌∙◌, true, false, List, some, arith}
use venti.Prelude.Int.{ℤ, pos}
use venti.Event.{Event, event_of, complete}
use venti.Os.{Os, EpollEvent, add}
use venti.Sock
use venti.Sock.Utils.{LinuxSock}
use venti.World.{World, SockEventData, accept, slot, put_slot, set_event_target}
use venti.Context.{submit_complete}
use venti.Epoll.Slot.{
  epollin, epollout, epollet, set_rp, done_slot, submit_slot, clear, try_accept, accept_into,
}
use venti.Epoll.Submit.{submit_accept, reg_sock}
use venti.Epoll.Wait.{handle_at, on_in, in_case, in_accept}
use venti.Epoll.Outcome.{slot-accept_into, pointers-accept_into, waitset-accept_into}
use venti.Tcp.{setup}
use venti.Tcp.Answer.{Answered, Answered-from, clear-Answered}
use venti.Tcp.Arrival.{IsCalm, handle_at_in, slot-set_rp}
use venti.Acceptor.{Acceptor, async_acceptcb, accept_callback, await_accept, resume_accept}
use venti.Acceptor.Accepting.{accept_as_accepts}

-- The event of an accept.
abbrev accept_event : {A : Type 0} → (ℤ → List A) → Event A
accept_event on_accept = event_of (λ _ ec. on_accept ec)

module _ {A S : Type 0} (os : Os S) (siginfo s p : ℕ) (w : World A S) (fd : ℕ) where
  abbrev readable_world : World A S
  readable_world = set_rp s true w

  abbrev accepted : World A S
  accepted = (accept_into os s p readable_world).1

  module _ (accepts : (n : ℕ) → (os.accept (w.socks s).sock n w.os).0 ≡ pos fd) where
    accepted_code : (accept_into os s p readable_world).0 ≡ pos 0
    unfolding accept_into Sock.accept set_rp
    accepted_code =
        (accept_as_accepts os (w.socks s) (w.socks p) w.os fd accepts (w.socks s).addr.kind).0

    accepted_sock : (accepted.socks p).sock ≡ pos fd
    unfolding accept_into Sock.accept set_rp
    accepted_sock = ground (
      arith,
      (accept_as_accepts os (w.socks s) (w.socks p) w.os fd accepts (w.socks s).addr.kind).1,
    )

    on_in_accept :
        (slot w s).type ≡ accept
        → (slot w s).target ≡ some p
        → on_in os siginfo s w ≡ some (done_slot s accepted)
    unfolding on_in in_case try_accept in_accept
    on_in_accept type t =
        let seen_type : (slot readable_world s).type ≡ accept =
          ap (λ d. d.type) (slot-set_rp s w true) ∙ type in
        let seen_target : (slot readable_world s).target ≡ some p =
          ap (λ d. d.target) (slot-set_rp s w true) ∙ t in
        rw (seen_type, in_case, seen_target, try_accept, accepted_code) refl

  done_slot-Answered :
      (on_accept : ℤ → List A)
      → (slot w s).ev ≡ accept_event on_accept
      → Answered on_accept s (pos 0) w (done_slot s accepted)
  unfolding done_slot submit_slot complete
  done_slot-Answered on_accept held =
      let same : accepted.waitset ≡ w.waitset =
        waitset-accept_into os s readable_world p ∙ unfold set_rp in refl in
      let held' : (slot accepted s).ev ≡ accept_event on_accept =
        ap (λ d. d.ev) (slot-accept_into os s readable_world p s ∙ slot-set_rp s w true) ∙ held in
      clear-Answered on_accept s (pos 0) _ w _ same (rw held' refl)

  -- What the end of the accept leaves alone.
  socks-done_slot : (v : World A S) → (done_slot s v).socks ≡ v.socks
  unfolding done_slot submit_slot submit_complete clear
  socks-done_slot v = refl

  epoll-done_slot : (done_slot s accepted).epoll ≡ w.epoll
  unfolding done_slot submit_slot submit_complete clear accept_into set_rp
  epoll-done_slot = refl

  ev-accepted : (accepted.socks p).ev ≡ (w.socks p).ev
  ev-accepted = pointers-accept_into os s readable_world p p ∙ unfold set_rp in refl

-- What epoll is told of a socket with its event data at `ev`.
abbrev pub watched : ℕ → EpollEvent
watched ev = record { events = epollin + epollout + epollet; ptr = ev }

module _ {A S : Type 0} (os : Os S) (a : Acceptor A) (p : ℕ) (resume on_accept : ℤ → List A)
    (w : World A S) where
  abbrev accept_data : SockEventData A
  accept_data = record (slot w a.listener) {
    sock = some a.listener;
    type = accept;
    ev = accept_event on_accept;
    target = some p;
  }

  slot-put_slot : slot (put_slot a.listener accept_data w) a.listener ≡ accept_data
  slot-put_slot = ground arith

  await_accept_parked :
      (slot w a.listener).rp ≡ false
      → (await_accept os a p resume on_accept w).1 ≡ some (put_slot a.listener accept_data w)
  unfolding await_accept async_acceptcb submit_accept set_event_target
  await_accept_parked unready = rw (slot-put_slot, unready) refl

  -- The world with the socket of descriptor `fd` registered.
  abbrev pub registered : ℤ → World A S → World A S
  registered fd v = record v { os = os.epoll_ctl w.epoll (add fd (watched (w.socks p).ev)) v.os }

  setup_accepted :
      (v : World A S) (fd : ℤ)
      → (v.socks p).sock ≡ fd
      → (v.socks p).ev ≡ (w.socks p).ev
      → v.epoll ≡ w.epoll
      → setup os p v ≡ registered fd v
  unfolding setup reg_sock
  setup_accepted v fd e f g =
      ap (λ (x : ℤ × ℕ × ℤ). record v { os = os.epoll_ctl x.0 (add x.2 (watched x.1)) v.os })
        (λ i. (g i, f i, e i))

  -- A coroutine that awaits a connection on a listener not last seen readable adds no completion. If
  -- then the kernel, in whatever state `o` it is by then, reports EPOLLIN alone for the listener and
  -- accepts a connection as the descriptor `fd`, one completion is added, whose dispatch calls the
  -- acceptor's callback with 0, and the slot is free. That callback calls `Resume` with 0, by which the
  -- coroutine goes on with 0 in a world where the accepted socket is registered already, with that
  -- descriptor and its own event data.
  pub await_accept-handle_at :
      (siginfo events : ℕ) (o : S) (fd : ℕ) (fresh : LinuxSock) (go_on : ℤ → World A S → World A S)
      → (slot w a.listener).rp ≡ false
      → IsCalm events true false
      → ((n : ℕ) → (os.accept (w.socks a.listener).sock n o).0 ≡ pos fd)
      → (v : World A S) × (w' : World A S) × ((await_accept os a p resume on_accept w).1 ≡ some v)
        × (v.waitset ≡ w.waitset)
        × (handle_at os siginfo events a.listener (record v { os = o }) ≡ some w')
        × Answered on_accept a.listener (pos 0) w w'
        × (accept_callback os fresh (await_accept os a p resume on_accept w).0 (pos 0) w'
            ≡ some (resume (pos 0)))
        × (resume_accept os p (pos 0) go_on w' ≡ go_on (pos 0) (registered (pos fd) w'))
  unfolding await_accept async_acceptcb accept_callback resume_accept
  await_accept-handle_at siginfo events o fd fresh go_on unready c accepts =
      let s : ℕ = a.listener in
      let v : World A S = put_slot s accept_data w in
      let v' : World A S = record v { os = o } in
      let at : slot v' s ≡ accept_data = slot-put_slot in
      let x : World A S = accepted os siginfo s p v' fd in
      let w' : World A S = done_slot s x in
      (
        v,
        w',
        await_accept_parked unready,
        refl,
        handle_at_in os siginfo s events v' c (
            on_in_accept os siginfo s p v' fd accepts (ap (λ d. d.type) at)
              (ap (λ d. d.target) at)),
        Answered-from on_accept s refl
            (done_slot-Answered os siginfo s p v' fd on_accept (ap (λ d. d.ev) at)),
        refl,
        ap (go_on (pos 0)) (
            setup_accepted w' (pos fd)
              (ap (λ m. (m p).sock) (socks-done_slot os siginfo s p v' fd x)
                ∙ accepted_sock os siginfo s p v' fd accepts)
              (ap (λ m. (m p).ev) (socks-done_slot os siginfo s p v' fd x)
                ∙ ev-accepted os siginfo s p v' fd)
              (epoll-done_slot os siginfo s p v' fd)),
      )
