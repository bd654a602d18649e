-- ===== src/Epoll/Frame.antt =====
-- What the submissions of venti/platform/linux/epollimpl.h leave alone.
use venti.Prelude.{
  ℕ, ◌≡◌, refl, sym, ap, subst, [], Bool, false, Option, some, arith, if◌then◌else◌, update,
}
use mathlib.Core.List.{append-nil}
use venti.Prelude.Int.{ℤ, pos, neg, eqb, ltb_zero}
use venti.Event.{Event}
use venti.Buffer.{Buffers}
use venti.Addr.{IpAddr, AddrType, ipv4, ipv6}
use venti.Os.{Os}
use venti.Sock
use venti.Sock.{connect_as, settle}
use venti.Sock.Utils.{LinuxSock}
use venti.World.{
  World, SockEventData, read, write, accept, recvfrom, sendto, slot, put_slot, set_bufs,
  set_bufs_target, set_event_target,
}
use venti.Epoll.Slot.{
  would_block, set_rp, set_wp, try_read, try_write, accept_into, try_recvfrom, try_sendto,
}
use venti.Epoll.Submit.{
  after_transfer, after_accept, submit_read, submit_write, submit_connect, submit_recvfrom,
  submit_sendto, submit_timer, submit_signal,
}
use venti.Epoll.Outcome.{slot-accept_into, pointers-accept_into}
use venti.Epoll.Submission.{accept_tried}
use venti.Epoll.Local.{
  IsLocal, IsAimed, IsLocal-trans, if-IsLocal, os-IsLocal, put_slot-IsLocal, set_rp-IsLocal,
  set_wp-IsLocal, fail_now-IsLocal, finish_now-IsLocal, done_now-IsLocal,
}

module _ {A S : Type 0} (s : ℕ) (ev : Event A) where
  after_transfer-IsLocal :
      (flag : ℕ → Bool → World A S → World A S) (len : ℤ) (w : World A S)
      → ((b : Bool) → IsLocal s w (flag s b w))
      → IsLocal s w (after_transfer flag s ev (len, w))
  unfolding after_transfer
  after_transfer-IsLocal flag len w local = if-IsLocal (eqb len would_block) w _ _ (local false) (
      if-IsLocal (ltb_zero len) w _ _ (fail_now-IsLocal s w (neg len) ev)
        (finish_now-IsLocal s w len ev))

  after_accept-IsLocal : (r : ℤ) (w : World A S) → IsLocal s w (after_accept s ev (r, w))
  unfolding after_accept
  after_accept-IsLocal r w = if-IsLocal (eqb r (pos 0)) w _ _ (done_now-IsLocal s w ev) (
      if-IsLocal (eqb r would_block) w _ _ (set_rp-IsLocal s w false)
        (fail_now-IsLocal s w (neg r) ev))

module _ {A S : Type 0} (os : Os S) (s : ℕ) (w : World A S) where
  pub try_read-IsLocal : IsLocal s w (try_read os s w).1
  unfolding try_read
  try_read-IsLocal = os-IsLocal w _

  pub try_write-IsLocal : IsLocal s w (try_write os s w).1
  unfolding try_write
  try_write-IsLocal = os-IsLocal w _

  pub try_sendto-IsLocal : IsLocal s w (try_sendto os s w).1
  unfolding try_sendto
  try_sendto-IsLocal = os-IsLocal w _

  pub try_recvfrom-IsLocal : IsLocal s w (try_recvfrom os s w).1
  unfolding try_recvfrom
  try_recvfrom-IsLocal = record {
    elsewhere = λ q _. refl;
    pointers = λ q. refl;
    owned = λ t e. (t, e);
    aimed = λ h. h;
    flag = refl;
    added = [];
    extended = sym (append-nil w.waitset);
    due = tt;
  }

  pub accept_into-IsLocal : (p : ℕ) → IsLocal s w (accept_into os s p w).1
  accept_into-IsLocal p = record {
    elsewhere = λ q _. unfold accept_into in refl;
    pointers = pointers-accept_into os s w p;
    owned = λ t e. (t, rw (slot-accept_into os s w p s) e);
    aimed = λ h. rw (slot-accept_into os s w p s) h;
    flag = unfold accept_into in refl;
    added = [];
    extended = unfold accept_into in (sym (append-nil w.waitset));
    due = tt;
  }

-- `Connect` keeps the pointer to the event data.
connect_as-ev :
    {S : Type 0} (os : Os S) (kind : AddrType) (sk : LinuxSock) (addr : IpAddr) (s : S)
    → (connect_as os kind sk addr s).1.ev ≡ sk.ev
unfolding connect_as settle
connect_as-ev os ipv4 sk addr s = ground arith
connect_as-ev os ipv6 sk addr s = ground arith

module _ {A S : Type 0} (os : Os S) (s : ℕ) (ev : Event A) (w : World A S) where
  -- What the submissions share: the slot is set, and the attempt made if the socket was ready.
  set_then-IsLocal :
      (d : SockEventData A) (w' : World A S) (ready : Bool)
      → d.sock ≡ some s
      → (IsAimed (slot w s) → IsAimed d)
      → IsLocal s (put_slot s d w) w'
      → IsLocal s w (if ready then w' else put_slot s d w)
  set_then-IsLocal d w' ready own aim local =
      let put : IsLocal s w (put_slot s d w) = put_slot-IsLocal s d w (λ t _. (s, own)) aim in
      if-IsLocal ready w w' _ (IsLocal-trans w (put_slot s d w) w' put local) put

  -- Submitting a read changes no other slot, no socket's pointer to its slot and not the loop's
  -- flag, only adds completions that are due, and keeps that the slot points to a socket and that
  -- an ACCEPT under way has a target.
  pub submit_read-IsLocal : (buf : Buffers) → IsLocal s w (submit_read os s buf ev w)
  unfolding submit_read
  submit_read-IsLocal buf =
      let w' : World A S = put_slot s (set_bufs read s buf ev (slot w s)) w in
      set_then-IsLocal _ _ (slot w' s).rp refl (λ _ e. cc)
        (IsLocal-trans w' _ _ (try_read-IsLocal os s w')
          (after_transfer-IsLocal s ev set_rp _ _ (set_rp-IsLocal s _)))

  -- Submitting a write changes no other slot, no socket's pointer to its slot and not the loop's
  -- flag, only adds completions that are due, and keeps that the slot points to a socket and that
  -- an ACCEPT under way has a target.
  pub submit_write-IsLocal : (buf : Buffers) → IsLocal s w (submit_write os s buf ev w)
  unfolding submit_write
  submit_write-IsLocal buf =
      let w' : World A S = put_slot s (set_bufs write s buf ev (slot w s)) w in
      set_then-IsLocal _ _ (slot w' s).wp refl (λ _ e. cc)
        (IsLocal-trans w' _ _ (try_write-IsLocal os s w')
          (after_transfer-IsLocal s ev set_wp _ _ (set_wp-IsLocal s _)))

  -- Submitting a receive changes no other slot, no socket's pointer to its slot and not the loop's
  -- flag, only adds completions that are due, and keeps that the slot points to a socket and that
  -- an ACCEPT under way has a target.
  pub submit_recvfrom-IsLocal :
      (peer : Option ℕ) (buf : Buffers) → IsLocal s w (submit_recvfrom os s peer buf ev w)
  unfolding submit_recvfrom
  submit_recvfrom-IsLocal peer buf =
      let w' : World A S = put_slot s (set_bufs_target recvfrom s buf ev peer (slot w s)) w in
      set_then-IsLocal _ _ (slot w' s).rp refl (λ _ e. cc)
        (IsLocal-trans w' _ _ (try_recvfrom-IsLocal os s w')
          (after_transfer-IsLocal s ev set_rp _ _ (set_rp-IsLocal s _)))

  -- Submitting a send changes no other slot, no socket's pointer to its slot and not the loop's
  -- flag, only adds completions that are due, and keeps that the slot points to a socket and that
  -- an ACCEPT under way has a target.
  pub submit_sendto-IsLocal :
      (peer : Option ℕ) (buf : Buffers) → IsLocal s w (submit_sendto os s peer buf ev w)
  unfolding submit_sendto
  submit_sendto-IsLocal peer buf =
      let w' : World A S = put_slot s (set_bufs_target sendto s buf ev peer (slot w s)) w in
      set_then-IsLocal _ _ (slot w' s).wp refl (λ _ e. cc)
        (IsLocal-trans w' _ _ (try_sendto-IsLocal os s w')
          (after_transfer-IsLocal s ev set_rp _ _ (set_rp-IsLocal s _)))

  -- Submitting a timer changes no other slot, no socket's pointer to its slot and not the loop's
  -- flag, only adds completions that are due, and keeps that the slot points to a socket and that
  -- an ACCEPT under way has a target.
  pub submit_timer-IsLocal : IsLocal s w (submit_timer s ev w)
  unfolding submit_timer
  submit_timer-IsLocal = put_slot-IsLocal s _ w (λ t _. (s, refl)) (λ _ e. cc)

  -- Submitting a signal changes no other slot, no socket's pointer to its slot and not the loop's
  -- flag, only adds completions that are due, and keeps that the slot points to a socket and that
  -- an ACCEPT under way has a target.
  pub submit_signal-IsLocal : IsLocal s w (submit_signal s ev w)
  unfolding submit_signal
  submit_signal-IsLocal = put_slot-IsLocal s _ w (λ t _. (s, refl)) (λ _ e. cc)

  -- A connection attempt writes the socket too, but not its pointer.
  connected-IsLocal :
      (sk : LinuxSock) (o : S)
      → sk.ev ≡ (w.socks s).ev
      → IsLocal s w (record w { socks = update w.socks s sk; os = o })
  connected-IsLocal sk o e =
      let same : (q : ℕ) → (update w.socks s sk q).ev ≡ (w.socks q).ev = λ q. ground arith in
      let slot_same : slot (record w { socks = update w.socks s sk; os = o }) s ≡ slot w s =
        ap w.evs (same s) in
      record {
        elsewhere = λ q _. refl;
        pointers = same;
        owned = λ t h. (t, subst (λ d. d.sock ≡ some t) (sym slot_same) h);
        aimed = λ h. subst IsAimed (sym slot_same) h;
        flag = refl;
        added = [];
        extended = sym (append-nil w.waitset);
        due = tt;
      }

  -- Submitting a connection attempt changes no other slot, no socket's pointer to its slot and not
  -- the loop's flag, only adds completions that are due, and keeps that the slot points to a
  -- socket and that an ACCEPT under way has a target.
  pub submit_connect-IsLocal : (addr : IpAddr) → IsLocal s w (submit_connect os s addr ev w)
  unfolding submit_connect
  submit_connect-IsLocal addr =
      let (r, sk, o) = Sock.connect os (w.socks s) addr w.os in
      let w' : World A S = record w { socks = update w.socks s sk; os = o } in
      IsLocal-trans w w' _
        (connected-IsLocal sk o
          (unfold Sock.connect in (connect_as-ev os (w.socks s).addr.kind (w.socks s) addr w.os)))
        (if-IsLocal (eqb r (pos 0)) w' _ _ (done_now-IsLocal s w' ev) (
          if-IsLocal (eqb r would_block) w' _ _
            (put_slot-IsLocal s _ w' (λ t _. (s, refl)) (λ _ e. cc))
            (fail_now-IsLocal s w' (neg r) ev)))

  pub accept_tried-IsLocal : (res : ℕ) → IsLocal s w (accept_tried os s ev w res)
  unfolding set_event_target
  accept_tried-IsLocal res =
      let d : SockEventData A = set_event_target accept s ev (some res) (slot w s) in
      let w' : World A S = put_slot s d w in
      set_then-IsLocal d _ (slot w' s).rp refl (λ _ _. (res, refl))
        (IsLocal-trans w' _ _ (accept_into-IsLocal os s w' res) (after_accept-IsLocal s ev _ _))
