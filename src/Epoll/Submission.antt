-- ===== src/Epoll/Submission.antt =====
-- How each `Submit…` of venti/platform/linux/epollimpl.h ends.
use venti.Prelude.{
  ℕ, ◌≡◌, refl, inl, inr, Bool, true, false, Option, some, arith, Bool-cases, if◌then◌else◌, update,
}
use venti.Prelude.Int.{pos, neg, eqb}
use venti.Event.{Event}
use venti.Buffer.{Buffers}
use venti.Addr.{IpAddr}
use venti.Os.{Os}
use venti.Sock
use venti.World.{
  World, EvType, read, write, accept, connect, recvfrom, sendto, timetick, signal, slot, put_slot,
  SockEventData, set_bufs, set_bufs_target, set_event_target,
}
use venti.Epoll.Slot.{would_block, set_rp, set_wp, try_accept, accept_into}
use venti.Epoll.Submit.{
  submit_read, submit_write, submit_connect, submit_accept, submit_recvfrom, submit_sendto,
  submit_timer, submit_signal, after_accept,
}
use venti.Epoll.Outcome.{
  IsParked, Outcome, set_rp-IsParked, set_wp-IsParked, after_transfer-Outcome, after_accept-Outcome,
  accept_into-IsParked, done_now-IsFinished, fail_now-IsFinished, try_read-IsParked,
  try_write-IsParked, try_recvfrom-IsParked, try_sendto-IsParked,
}

module _ {A S : Type 0} where
  -- What `Set` leaves in a slot.
  put_slot-IsParked :
      (type : EvType) (s : ℕ) (ev : Event A) (d : SockEventData A) (w : World A S)
      → d.type ≡ type
      → d.ev ≡ ev
      → IsParked type s ev w (put_slot s d w)
  put_slot-IsParked type s ev d w t e = record {
    quiet = refl;
    typed = ground arith;
    held = ground arith;
  }

  -- An operation that is only attempted if the socket was last seen ready.
  if_ready-Outcome :
      {type : EvType} {s : ℕ} {ev : Event A} {w : World A S} (ready : Bool) (w' w'' : World A S)
      → IsParked type s ev w w'
      → Outcome type s ev w w''
      → Outcome type s ev w (if ready then w'' else w')
  if_ready-Outcome true w' w'' parked o = o
  if_ready-Outcome false w' w'' parked o = inl parked

module _ {A S : Type 0} (os : Os S) (s : ℕ) (ev : Event A) (w : World A S) where
  -- A read is under way afterwards with the wait set as it was, or one completion for its callback
  -- was added and the socket's slot is free.
  pub submit_read-Outcome : (buf : Buffers) → Outcome read s ev w (submit_read os s buf ev w)
  unfolding submit_read
  submit_read-Outcome buf =
      let d : SockEventData A = set_bufs read s buf ev (slot w s) in
      let w' : World A S = put_slot s d w in
      let parked : IsParked read s ev w w' = put_slot-IsParked read s ev d w refl refl in
      if_ready-Outcome (slot w' s).rp w' _ parked (
        after_transfer-Outcome _ set_rp _ (set_rp-IsParked _)
          (try_read-IsParked os s read ev w w' parked))

  -- A write is under way afterwards with the wait set as it was, or one completion for its callback
  -- was added and the socket's slot is free.
  pub submit_write-Outcome : (buf : Buffers) → Outcome write s ev w (submit_write os s buf ev w)
  unfolding submit_write
  submit_write-Outcome buf =
      let d : SockEventData A = set_bufs write s buf ev (slot w s) in
      let w' : World A S = put_slot s d w in
      let parked : IsParked write s ev w w' = put_slot-IsParked write s ev d w refl refl in
      if_ready-Outcome (slot w' s).wp w' _ parked (
        after_transfer-Outcome _ set_wp _ (set_wp-IsParked _)
          (try_write-IsParked os s write ev w w' parked))

  -- A receive, with or without a place for the sender's address, is under way afterwards with the
  -- wait set as it was, or one completion for its callback was added and the socket's slot is free.
  pub submit_recvfrom-Outcome :
      (peer : Option ℕ) (buf : Buffers)
      → Outcome recvfrom s ev w (submit_recvfrom os s peer buf ev w)
  unfolding submit_recvfrom
  submit_recvfrom-Outcome peer buf =
      let d : SockEventData A = set_bufs_target recvfrom s buf ev peer (slot w s) in
      let w' : World A S = put_slot s d w in
      let parked : IsParked recvfrom s ev w w' = put_slot-IsParked recvfrom s ev d w refl refl in
      if_ready-Outcome (slot w' s).rp w' _ parked (
        after_transfer-Outcome _ set_rp _ (set_rp-IsParked _)
          (try_recvfrom-IsParked os s recvfrom ev w w' parked))

  -- A send, with or without a target address, is under way afterwards with the wait set as it was,
  -- or one completion for its callback was added and the socket's slot is free.
  pub submit_sendto-Outcome :
      (peer : Option ℕ) (buf : Buffers) → Outcome sendto s ev w (submit_sendto os s peer buf ev w)
  unfolding submit_sendto
  submit_sendto-Outcome peer buf =
      let d : SockEventData A = set_bufs_target sendto s buf ev peer (slot w s) in
      let w' : World A S = put_slot s d w in
      let parked : IsParked sendto s ev w w' = put_slot-IsParked sendto s ev d w refl refl in
      if_ready-Outcome (slot w' s).wp w' _ parked (
        after_transfer-Outcome _ set_rp _ (set_rp-IsParked _)
          (try_sendto-IsParked os s sendto ev w w' parked))

  -- A connection attempt is under way afterwards with the wait set as it was, or one completion for
  -- its callback was added and the socket's slot is free.
  pub submit_connect-Outcome :
      (addr : IpAddr) → Outcome connect s ev w (submit_connect os s addr ev w)
  unfolding submit_connect
  submit_connect-Outcome addr =
      let (r, sk, o) = Sock.connect os (w.socks s) addr w.os in
      let w' : World A S = record w { socks = update w.socks s sk; os = o } in
      elim (Bool-cases (eqb r (pos 0))) [
        | inl fine ↦ rw fine (inr (done_now-IsFinished s ev w w' refl))
        | inr other ↦ rw other (elim (Bool-cases (eqb r would_block)) [
          | inl blocked ↦
              rw blocked (inl (record { quiet = refl; typed = ground arith; held = ground arith }))
          | inr failed ↦ rw failed (inr (fail_now-IsFinished s ev w w' refl (neg r)))
        ])
      ]

  pub try_accept-target :
      (p : ℕ) → (slot w s).target ≡ some p → try_accept os s w ≡ some (accept_into os s p w)
  unfolding try_accept
  try_accept-target p e = rw (e, try_accept)

  pub submit_timer-Outcome : Outcome timetick s ev w (submit_timer s ev w)
  unfolding submit_timer
  submit_timer-Outcome = inl (put_slot-IsParked timetick s ev _ w refl refl)

  pub submit_signal-Outcome : Outcome signal s ev w (submit_signal s ev w)
  unfolding submit_signal
  submit_signal-Outcome = inl (put_slot-IsParked signal s ev _ w refl refl)

module _ {A S : Type 0} (os : Os S) (s : ℕ) (ev : Event A) (w : World A S) where
  -- The world in which the accept has been set, and the one that it is tried in and returns.
  abbrev pub accept_set : ℕ → World A S
  accept_set res = put_slot s (set_event_target accept s ev (some res) (slot w s)) w

  abbrev pub accept_tried : ℕ → World A S
  accept_tried res =
      if (slot (accept_set res) s).rp
      then after_accept s ev (accept_into os s res (accept_set res))
      else accept_set res

  -- An accept never writes through a null pointer.
  pub submit_accept-some : (res : ℕ) → submit_accept os s res ev w ≡ some (accept_tried res)
  unfolding submit_accept
  submit_accept-some res = elim (Bool-cases (slot (accept_set res) s).rp) [
    | inl ready ↦ rw (ready, try_accept-target os s ev (accept_set res) res (ground arith))
    | inr not_ready ↦ rw not_ready
  ]

  pub accept_tried-Outcome : (res : ℕ) → Outcome accept s ev w (accept_tried res)
  unfolding set_event_target
  accept_tried-Outcome res =
      let parked : IsParked accept s ev w (accept_set res) =
        put_slot-IsParked accept s ev _ w refl refl in
      if_ready-Outcome _ _ _ parked
        (after_accept-Outcome _ _ (accept_into-IsParked os s accept ev w _ res parked))

  -- Submitting an accept dereferences no null pointer; afterwards the accept is under way with the
  -- wait set as it was, or one completion for its callback was added and the socket's slot is free.
  pub submit_accept-Outcome :
      (res : ℕ)
      → (w' : World A S) × (submit_accept os s res ev w ≡ some w') × Outcome accept s ev w w'
  submit_accept-Outcome res = (accept_tried res, submit_accept-some res, accept_tried-Outcome res)
