-- ===== src/Epoll/Submit.antt =====
-- The `Submit…` functions of venti/platform/linux/epollimpl.h, and the constructor and `RegSock` of
-- venti/platform/linux/epoll.h.
use venti.Prelude.{ℕ, ◌+◌, Bool, false, Option, none, some, update, if◌then◌else◌}
use venti.Prelude.Int.{ℤ, pos, neg, eqb, ltb_zero}
use venti.Event.{Event}
use venti.Buffer.{Buffers}
use venti.Addr.{IpAddr}
use venti.Os.{Os, EpollEvent, add}
use venti.Sock
use venti.World.{
  World, read, write, accept, connect, recvfrom, sendto, timetick, signal, slot, put_slot, set_bufs,
  set_bufs_target, set_event, set_event_target,
}
use venti.Epoll.Slot.{
  would_block, epollin, epollout, epollet, set_rp, set_wp, fail_now, finish_now, done_now, try_read,
  try_write, try_accept, try_recvfrom, try_sendto,
}

module _ {A S : Type 0} where
  -- The ladder after an attempt that returned `len`: `unready` drops a readiness flag.
  unfoldable pub after_transfer :
      (ℕ → Bool → World A S → World A S) → ℕ → Event A → ℤ × World A S → World A S
  after_transfer flag s ev (len, w) =
      if eqb len would_block
      then flag s false w
      else if ltb_zero len
      then fail_now s (neg len) ev w
      else finish_now s len ev w

  unfoldable pub after_accept : ℕ → Event A → ℤ × World A S → World A S
  after_accept s ev (r, w) =
      if eqb r (pos 0)
      then done_now s ev w
      else if eqb r would_block
      then set_rp s false w
      else fail_now s (neg r) ev w

module _ {A S : Type 0} (os : Os S) where
  -- `Epoll(Context* ctx)`
  unfoldable pub epoll_init : World A S → World A S
  epoll_init w = let (fd, o) = os.epoll_create w.os in record w { epoll = fd; os = o }

  -- `RegSock`
  unfoldable pub reg_sock : ℕ → World A S → World A S
  reg_sock s w =
      let ev : EpollEvent = record {
        events = epollin + epollout + epollet;
        ptr = (w.socks s).ev;
      } in
      record w { os = os.epoll_ctl w.epoll (add (w.socks s).sock ev) w.os }

  -- `SubmitRead`
  unfoldable pub submit_read : ℕ → Buffers → Event A → World A S → World A S
  unfolding set_bufs
  submit_read s buf ev w =
      let w' : World A S = put_slot s (set_bufs read s buf ev (slot w s)) w in
      if (slot w' s).rp then after_transfer set_rp s ev (try_read os s w') else w'

  -- `SubmitWrite`
  unfoldable pub submit_write : ℕ → Buffers → Event A → World A S → World A S
  unfolding set_bufs
  submit_write s buf ev w =
      let w' : World A S = put_slot s (set_bufs write s buf ev (slot w s)) w in
      if (slot w' s).wp then after_transfer set_wp s ev (try_write os s w') else w'

  -- `SubmitConnect`
  unfoldable pub submit_connect : ℕ → IpAddr → Event A → World A S → World A S
  unfolding set_event
  submit_connect s addr ev w =
      let (r, sk, o) = Sock.connect os (w.socks s) addr w.os in
      let w' : World A S = record w { socks = update w.socks s sk; os = o } in
      if eqb r (pos 0)
      then done_now s ev w'
      else if eqb r would_block
      then put_slot s (set_event connect s ev (slot w' s)) w'
      else fail_now s (neg r) ev w'

  -- `SubmitAccept`; `none` is a null dereference.
  unfoldable pub submit_accept : ℕ → ℕ → Event A → World A S → Option (World A S)
  unfolding set_event_target
  submit_accept s res ev w =
      let w' : World A S = put_slot s (set_event_target accept s ev (some res) (slot w s)) w in
      if (slot w' s).rp
      then elim (try_accept os s w') [ none ↦ none | some r ↦ some (after_accept s ev r) ]
      else some w'

  -- `SubmitRecvfrom`
  unfoldable pub submit_recvfrom : ℕ → Option ℕ → Buffers → Event A → World A S → World A S
  unfolding set_bufs_target
  submit_recvfrom s peer buf ev w =
      let w' : World A S = put_slot s (set_bufs_target recvfrom s buf ev peer (slot w s)) w in
      if (slot w' s).rp then after_transfer set_rp s ev (try_recvfrom os s w') else w'

  -- `SubmitSendto`: a send that would block drops `rp`, as in the source.
  unfoldable pub submit_sendto : ℕ → Option ℕ → Buffers → Event A → World A S → World A S
  unfolding set_bufs_target
  submit_sendto s peer buf ev w =
      let w' : World A S = put_slot s (set_bufs_target sendto s buf ev peer (slot w s)) w in
      if (slot w' s).wp then after_transfer set_rp s ev (try_sendto os s w') else w'

module _ {A S : Type 0} where
  -- `SubmitTimer`
  unfoldable pub submit_timer : ℕ → Event A → World A S → World A S
  unfolding set_event
  submit_timer s ev w = put_slot s (set_event timetick s ev (slot w s)) w

  -- `SubmitSignal`
  unfoldable pub submit_signal : ℕ → Event A → World A S → World A S
  unfolding set_event
  submit_signal s ev w = put_slot s (set_event signal s ev (slot w s)) w
