-- ===== src/Tcp/Delivery.antt =====
-- A coroutine that awaits a read or a write of a socket (venti/socket/tcpsocket.h), from
-- `await_suspend` to its resumption, over `Epoll` (venti/platform/linux/epollimpl.h) and
-- `Context::Run` (venti/context.h).
use venti.Prelude.{ℕ, ◌≡◌, refl, ap, sym, true, false, List, [], ◌∷◌, none, some, arith, subst}
use venti.Prelude.Int.{ℤ}
use venti.Buffer.{Buffers}
use venti.Os.{Os, EpollEvent}
use venti.Sock.Transfer.{recv, send, msghdr_of}
use venti.World.{World, SockEventData, read, write, slot, put_slot, set_bufs}
use venti.Epoll.Slot.{set_rp, set_wp, try_read, try_write}
use venti.Epoll.Submit.{submit_read, submit_write}
use venti.Epoll.Wait.{handle_at, handle_event, handle_events, wait}
use venti.Tcp.{io_event, async_readcb, async_writecb, await_read, await_write}
use venti.Tcp.Answer.{
  IsAnswer, Answered, Answered-from, transferred_answer, after_transfer-Answered,
}
use venti.Tcp.Arrival.{IsCalm, handle_at_read, handle_at_write}

module _ {A S : Type 0} (os : Os S) (s : ℕ) (bufs : Buffers) (w : World A S) where
  -- The kernel's answers in a state `o` to a read into `bufs` and a write from them.
  abbrev pub read_answer : S → ℤ
  read_answer o = (os.recvmsg (w.socks s).sock (msghdr_of none 0 bufs) o).0

  abbrev pub write_answer : S → ℤ
  write_answer o = (os.sendmsg (w.socks s).sock (msghdr_of none 0 bufs) o).0

  module _ (resume : ℤ → List A) where
    abbrev pub read_data : SockEventData A
    read_data = record (slot w s) { sock = some s; type = read; bufs = bufs; ev = io_event resume }

    abbrev pub write_data : SockEventData A
    write_data = record (slot w s) {
      sock = some s;
      type = write;
      bufs = bufs;
      ev = io_event resume;
    }

    pub slot-put_slot : (d : SockEventData A) → slot (put_slot s d w) s ≡ d
    slot-put_slot d = ground arith

    pub await_read_parked :
        (slot w s).rp ≡ false → await_read os s bufs resume w ≡ put_slot s read_data w
    unfolding await_read async_readcb submit_read set_bufs
    await_read_parked unready = rw (slot-put_slot read_data, unready) refl

    pub await_write_parked :
        (slot w s).wp ≡ false → await_write os s bufs resume w ≡ put_slot s write_data w
    unfolding await_write async_writecb submit_write set_bufs
    await_write_parked unready = rw (slot-put_slot write_data, unready) refl

    -- On a socket last seen readable, whose kernel answers the read with -1 or a number of bytes that
    -- fits `int`, awaiting a read adds one completion at once, whose dispatch resumes the coroutine
    -- with that answer, and the slot is free.
    pub await_read-Answered :
        (slot w s).rp ≡ true
        → IsAnswer (read_answer w.os)
        → Answered resume s (read_answer w.os) w (await_read os s bufs resume w)
    unfolding await_read async_readcb submit_read set_bufs try_read recv
    await_read-Answered ready a =
        rw (slot-put_slot read_data, ready, transferred_answer os (read_answer w.os) _ a)
          (after_transfer-Answered resume s set_rp (read_answer w.os) w _ a refl)

    await_write-Answered :
        (slot w s).wp ≡ true
        → IsAnswer (write_answer w.os)
        → Answered resume s (write_answer w.os) w (await_write os s bufs resume w)
    unfolding await_write async_writecb submit_write set_bufs try_write send
    await_write-Answered ready a =
        rw (slot-put_slot write_data, ready, transferred_answer os (write_answer w.os) _ a)
          (after_transfer-Answered resume s set_wp (write_answer w.os) w _ a refl)

    module _ (siginfo : ℕ) (o : S) where
      -- A coroutine that awaits a read of a socket not last seen readable adds no completion. If then
      -- the kernel, in whatever state it is by then, reports EPOLLIN alone, and answers the read with
      -- -1 or a number of bytes that fits `int`, one completion is added, whose dispatch resumes the
      -- coroutine with that answer, and the slot is free.
      pub await_read-handle_at :
          (events : ℕ)
          → (slot w s).rp ≡ false
          → IsCalm events true false
          → IsAnswer (read_answer o)
          → ((await_read os s bufs resume w).waitset ≡ w.waitset)
            × (w' : World A S) × (handle_at os siginfo events s
                  (record (await_read os s bufs resume w) { os = o })
                ≡ some w')
            × Answered resume s (read_answer o) w w'
      await_read-handle_at events unready c a =
          let parked : World A S = record (put_slot s read_data w) { os = o } in
          let at : slot parked s ≡ read_data = slot-put_slot read_data in
          let reply : SockEventData A → ℤ =
            λ d. (os.recvmsg (w.socks s).sock (msghdr_of none 0 d.bufs) o).0 in
          let (w', did, k) =
            handle_at_read os siginfo s parked resume (ap (λ d. d.ev) at) events c
              (ap (λ d. d.type) at) (subst IsAnswer (sym (ap reply at)) a) in
          let k' : Answered resume s (read_answer o) parked w' =
            subst (λ r. Answered resume s r parked w') (ap reply at) k in
          rw (await_read_parked unready) (refl, w', did, Answered-from resume s refl k')

      -- A coroutine that awaits a write to a socket not last seen writable adds no completion. If then
      -- the kernel, in whatever state it is by then, reports EPOLLOUT alone, and answers the write
      -- with -1 or a number of bytes that fits `int`, one completion is added, whose dispatch resumes
      -- the coroutine with that answer, and the slot is free.
      pub await_write-handle_at :
          (events : ℕ)
          → (slot w s).wp ≡ false
          → IsCalm events false true
          → IsAnswer (write_answer o)
          → ((await_write os s bufs resume w).waitset ≡ w.waitset)
            × (w' : World A S) × (handle_at os siginfo events s
                  (record (await_write os s bufs resume w) { os = o })
                ≡ some w')
            × Answered resume s (write_answer o) w w'
      await_write-handle_at events unready c a =
          let parked : World A S = record (put_slot s write_data w) { os = o } in
          let at : slot parked s ≡ write_data = slot-put_slot write_data in
          let reply : SockEventData A → ℤ =
            λ d. (os.sendmsg (w.socks s).sock (msghdr_of none 0 d.bufs) o).0 in
          let (w', did, k) =
            handle_at_write os siginfo s parked resume (ap (λ d. d.ev) at) events c
              (ap (λ d. d.type) at) (subst IsAnswer (sym (ap reply at)) a) in
          let k' : Answered resume s (write_answer o) parked w' =
            subst (λ r. Answered resume s r parked w') (ap reply at) k in
          rw (await_write_parked unready) (refl, w', did, Answered-from resume s refl k')

-- One report of `epoll_wait` for the socket `s` is handled as that socket.
module _ {A S : Type 0} (os : Os S) (siginfo s : ℕ) (w : World A S) where
  pub wait_one :
      (e : EpollEvent) (o : S)
      → os.epoll_wait w.epoll 128 w.os ≡ (e ∷ [], o)
      → (w.evs e.ptr).sock ≡ some s
      → {w' : World A S} → handle_at os siginfo e.events s (record w { os = o }) ≡ some w'
      → wait os siginfo w ≡ some w'
  unfolding wait handle_events handle_event
  wait_one e o reported at did =
      let handled : handle_event os siginfo e (record w { os = o }) ≡ some _ = rw at did in
      rw (reported, handle_events, handled) refl
