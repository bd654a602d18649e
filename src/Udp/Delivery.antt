-- ===== src/Udp/Delivery.antt =====
-- A coroutine that awaits a datagram (venti/socket/udpsocket.h) on a socket that is not readable at
-- once, from `await_suspend` to its resumption (venti/platform/linux/epollimpl.h).
use venti.Prelude.{
  ℕ, ◌≡◌, refl, ap, sym, ◌∙◌, true, false, List, some, inl, inr, arith, subst, update, ltb,
  Bool-cases,
}
use venti.Prelude.Int.{ℤ, ltb_zero, to_size, to_int, to_int-to_size_pos}
use venti.Buffer.{Buffers}
use venti.Os.{Os}
use venti.Sock.Utils.{LinuxSock}
use venti.Sock.Transfer
use venti.Sock.Transfer.{recvfrom_msg, sender}
use venti.World.{World, SockEventData, recvfrom, slot, put_slot, set_bufs_target}
use venti.Epoll.Slot.{
  set_rp, try_recvfrom, store_addr, not_null, fail_slot, finish_slot, submit_slot, clear,
}
use venti.Context.{submit_complete}
use venti.Epoll.Submit.{submit_recvfrom}
use venti.Epoll.Wait.{handle_at, on_in, in_case, in_transfer}
use venti.Tcp.{io_event}
use venti.Tcp.Answer.{IsAnswer, Answered, Answered-from, in_transfer-Answered}
use venti.Tcp.Arrival.{IsCalm, slot-set_rp, handle_at_in}
use venti.Udp.{async_recvfromcb, await_recvfrom}

no_size_negative : (n : ℕ) → ltb n 0 ≡ false
no_size_negative n = ground arith

answer_int : (len : ℤ) → IsAnswer len → to_int (to_size len) ≡ len
unfolding to_int to_size
answer_int len (inl e) = rw e refl
answer_int len (inr (n, e, fits)) = rw e (to_int-to_size_pos n fits)

module _ {S : Type 0} (os : Os S) (sk : LinuxSock) (bufs : Buffers) (o : S) where
  -- The kernel's answer to `Recvfrom` with a place for the sender.
  abbrev pub datagram : ℤ × S
  datagram = os.recvmsg sk.sock (recvfrom_msg os sk.addr.kind bufs true) o

  recvfrom_answer :
      IsAnswer datagram.0
      → Transfer.recvfrom os sk bufs true o
        ≡ (datagram.0, some (sender os sk.addr.kind datagram.1), datagram.1)
  unfolding Transfer.recvfrom
  recvfrom_answer a = rw (no_size_negative (to_size datagram.0), answer_int datagram.0 a) refl

module _ {A S : Type 0} (os : Os S) (siginfo s : ℕ) (addr : ℕ) (w : World A S) where
  abbrev readable_world : World A S
  readable_world = set_rp s true w

  abbrev got : ℤ × S
  got = datagram os (w.socks s) (slot w s).bufs w.os

  -- The sender is stored at `addr`.
  abbrev received : World A S
  received = record readable_world {
    addrs = update w.addrs addr (sender os (w.socks s).addr.kind got.1);
    os = got.1;
  }

  try_recvfrom-set_rp :
      (slot w s).target ≡ some addr
      → IsAnswer got.0
      → try_recvfrom os s readable_world ≡ (got.0, received)
  unfolding try_recvfrom set_rp store_addr not_null
  try_recvfrom-set_rp t a =
      rw
        (slot-set_rp s w true, t, store_addr, recvfrom_answer os (w.socks s) (slot w s).bufs w.os a)
        refl

  in_transfer-addrs : (len : ℤ) (v : World A S) → (in_transfer s (len, v)).addrs ≡ v.addrs
  unfolding in_transfer fail_slot finish_slot submit_slot submit_complete clear
  in_transfer-addrs len v = elim (Bool-cases (ltb_zero len)) [
    | inl failed ↦ rw failed refl
    | inr fine ↦ rw fine refl
  ]

  -- EPOLLIN alone, for a RECVFROM under way that is to store the sender.
  handle_at-recvfrom :
      (events : ℕ) (resume : ℤ → List A)
      → IsCalm events true false
      → (slot w s).type ≡ recvfrom
      → (slot w s).ev ≡ io_event resume
      → (slot w s).target ≡ some addr
      → IsAnswer got.0
      → (w' : World A S) × (handle_at os siginfo events s w ≡ some w')
        × Answered resume s got.0 w w'
        × (w'.addrs addr ≡ sender os (w.socks s).addr.kind got.1)
  unfolding on_in set_rp in_case
  handle_at-recvfrom events resume c type held t a =
      let seen_type : (slot readable_world s).type ≡ recvfrom =
        ap (λ d. d.type) (slot-set_rp s w true) ∙ type in
      let did : on_in os siginfo s w ≡ some (in_transfer s (got.0, received)) =
        rw (seen_type, in_case) (ap (λ r. some (in_transfer s r)) (try_recvfrom-set_rp t a)) in
      (
        in_transfer s (got.0, received),
        handle_at_in os siginfo s events w c did,
        in_transfer-Answered resume s w received refl (ap (λ d. d.ev) (slot-set_rp s w true) ∙ held)
            got.0 a,
        ap (λ m. m addr) (in_transfer-addrs got.0 received) ∙ ground arith,
      )

module _ {A S : Type 0} (os : Os S) (siginfo s : ℕ) (bufs : Buffers) (addr : ℕ)
    (resume : ℤ → List A) (w : World A S) where
  abbrev recvfrom_data : SockEventData A
  recvfrom_data = record (slot w s) {
    sock = some s;
    type = recvfrom;
    bufs = bufs;
    ev = io_event resume;
    target = some addr;
  }

  slot-put_slot : slot (put_slot s recvfrom_data w) s ≡ recvfrom_data
  slot-put_slot = ground arith

  await_recvfrom_parked :
      (slot w s).rp ≡ false → await_recvfrom os s bufs addr resume w ≡ put_slot s recvfrom_data w
  unfolding await_recvfrom async_recvfromcb submit_recvfrom set_bufs_target
  await_recvfrom_parked unready = rw (slot-put_slot, unready) refl

  -- A coroutine that awaits a datagram on a socket not last seen readable adds no completion. If then
  -- the kernel, in whatever state `o` it is by then, reports EPOLLIN alone, and answers with -1 or a
  -- number of bytes that fits `int`, one completion is added, whose dispatch resumes the coroutine
  -- with that answer, the slot is free, and the sender that the kernel names stands at the address
  -- that was passed.
  pub await_recvfrom-handle_at :
      (events : ℕ) (o : S)
      → (slot w s).rp ≡ false
      → IsCalm events true false
      → IsAnswer (datagram os (w.socks s) bufs o).0
      → ((await_recvfrom os s bufs addr resume w).waitset ≡ w.waitset)
        × (w' : World A S) × (handle_at os siginfo events s
              (record (await_recvfrom os s bufs addr resume w) { os = o })
            ≡ some w')
        × Answered resume s (datagram os (w.socks s) bufs o).0 w w'
        × (w'.addrs addr ≡ sender os (w.socks s).addr.kind (datagram os (w.socks s) bufs o).1)
  await_recvfrom-handle_at events o unready c a =
      let parked : World A S = record (put_slot s recvfrom_data w) { os = o } in
      let at : slot parked s ≡ recvfrom_data = slot-put_slot in
      let reply : SockEventData A → ℤ × S = λ d. datagram os (w.socks s) d.bufs o in
      let (w', did, k, stored) =
        handle_at-recvfrom os siginfo s addr parked events resume c (ap (λ d. d.type) at)
          (ap (λ d. d.ev) at) (ap (λ d. d.target) at)
          (subst (λ r. IsAnswer r.0) (sym (ap reply at)) a) in
      let k' : Answered resume s (reply recvfrom_data).0 parked w' =
        subst (λ r. Answered resume s r.0 parked w') (ap reply at) k in
      rw (await_recvfrom_parked unready) (
        refl,
        w',
        did,
        Answered-from resume s refl k',
        stored ∙ ap (λ r. sender os (w.socks s).addr.kind r.1) (ap reply at),
      )
