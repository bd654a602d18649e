-- ===== src/Epoll/Handling.antt =====
-- How `Wait` treats one epoll event (venti/platform/linux/epollimpl.h), for the operation in the
-- socket's slot.
use venti.Prelude.{
  ℕ, ◌≡◌, refl, inl, inr, Bool, true, false, some, arith, Bool-cases, if◌then◌else◌,
}
use venti.Prelude.Int.{pos}
use venti.Event.{Event}
use venti.Os.{Os}
use venti.Sock
use venti.World.{
  World, EvType, read, write, accept, connect, recvfrom, sendto, timetick, signal, slot,
}
use venti.Epoll.Slot.{epollin, epollout, epollerr, epollhup, set_rp, set_wp, fail_slot, accept_into}
use venti.Epoll.Wait.{
  has, on_hup, in_accept, in_signal, in_case, on_in, out_case, on_out, in_then_out, handle_at,
}
use venti.Epoll.Outcome.{
  IsParked, IsFinished, Outcome, set_rp-IsParked, set_wp-IsParked, accept_into-IsParked,
  try_read-IsParked, try_write-IsParked, try_recvfrom-IsParked, try_sendto-IsParked,
}
use venti.Epoll.Submission.{try_accept-target}
use venti.Epoll.Branches.{
  os-IsParked, os-IsFinished, set_rp-IsFinished, set_wp-IsFinished, finish_slot-IsFinished,
  done_slot-IsFinished, fail_slot-IsFinished, in_transfer-Outcome, in_accept-Outcome,
  out_transfer-Outcome, on_hup-Outcome,
}

module _ {A S : Type 0} where
  -- An ACCEPT under way comes with a socket to accept into.
  abbrev pub HasTarget : EvType → ℕ → World A S → Type 0
  HasTarget type s w = type ≡ accept → (p : ℕ) × ((slot w s).target ≡ some p)

  HasTarget-set_rp :
      (s : ℕ) (w : World A S) (b : Bool)
      → HasTarget (slot w s).type s w
      → HasTarget (slot (set_rp s b w) s).type s (set_rp s b w)
  unfolding set_rp
  HasTarget-set_rp s w b t e = let (p, found) = t (ground arith) in (p, ground arith)

module _ {A S : Type 0} (os : Os S) (siginfo s : ℕ) (type : EvType) (ev : Event A)
    (w : World A S) where
  in_signal-IsFinished :
      (w' : World A S) → IsParked type s ev w w' → IsFinished s ev w (in_signal os siginfo s w')
  unfolding in_signal
  in_signal-IsFinished w' p =
      os-IsFinished _ _
        (set_rp-IsFinished _ false (finish_slot-IsFinished _ _ (os-IsParked w' _ p)))

  -- Each case of the switch under EPOLLIN, whatever the type that it is taken for.
  in_case-Outcome :
      (ty : EvType) (w' : World A S)
      → HasTarget ty s w'
      → IsParked type s ev w w'
      → (w'' : World A S) × (in_case os siginfo ty s w' ≡ some w'') × Outcome type s ev w w''
  unfolding in_case
  in_case-Outcome read w' t p =
      (_, refl, in_transfer-Outcome _ _ (try_read-IsParked os s type ev w w' p))
  in_case-Outcome accept w' t p = (
    in_accept s (accept_into os s (t refl).0 w'),
    rw (try_accept-target os s ev w' (t refl).0 (t refl).1, in_case),
    in_accept-Outcome _ _ (accept_into-IsParked os s type ev w w' (t refl).0 p),
  )
  in_case-Outcome recvfrom w' t p =
      (_, refl, in_transfer-Outcome _ _ (try_recvfrom-IsParked os s type ev w w' p))
  in_case-Outcome timetick w' t p =
      (_, refl, inr (set_rp-IsFinished _ false (finish_slot-IsFinished w' (pos 0) p)))
  in_case-Outcome signal w' t p = (_, refl, inr (in_signal-IsFinished w' p))
  in_case-Outcome _ w' t p = (w', refl, inl p)

  out_case-Outcome :
      (ty : EvType) (w' : World A S)
      → IsParked type s ev w w'
      → Outcome type s ev w (out_case os siginfo ty s w')
  unfolding out_case
  out_case-Outcome write w' p =
      out_transfer-Outcome _ set_wp _ (set_wp-IsParked _) (try_write-IsParked os s type ev w w' p)
  out_case-Outcome sendto w' p =
      out_transfer-Outcome _ set_rp _ (set_rp-IsParked _) (try_sendto-IsParked os s type ev w w' p)
  out_case-Outcome connect w' p = inr (done_slot-IsFinished w' p)
  out_case-Outcome _ w' p = inl p

  -- EPOLLIN finds the operation in the slot.
  on_in-Outcome :
      (w' : World A S)
      → HasTarget (slot w' s).type s w'
      → IsParked type s ev w w'
      → (w'' : World A S) × (on_in os siginfo s w' ≡ some w'') × Outcome type s ev w w''
  unfolding on_in
  on_in-Outcome w' t p =
      in_case-Outcome _ (set_rp s true w') (HasTarget-set_rp s w' true t)
        (set_rp-IsParked w' true p)

  on_out-Outcome :
      (w' : World A S) → IsParked type s ev w w' → Outcome type s ev w (on_out os siginfo s w')
  unfolding on_out
  on_out-Outcome w' p = out_case-Outcome _ (set_wp s true w') (set_wp-IsParked w' true p)

  -- After EPOLLIN finished it, EPOLLOUT finds none.
  on_out-IsFinished :
      (w' : World A S) → IsFinished s ev w w' → IsFinished s ev w (on_out os siginfo s w')
  unfolding on_out out_case
  on_out-IsFinished w' f =
      let f' : IsFinished s ev w (set_wp s true w') = set_wp-IsFinished w' true f in rw f'.idle f'

  then_out-Outcome :
      (events : ℕ) (w' : World A S)
      → Outcome type s ev w w'
      → Outcome type s ev w (if has events epollout then on_out os siginfo s w' else w')
  then_out-Outcome events w' o = elim (Bool-cases (has events epollout)) [
    | inl out ↦
        rw out (elim o [ inl p ↦ on_out-Outcome w' p | inr f ↦ inr (on_out-IsFinished w' f) ])
    | inr none_ ↦ rw none_ o
  ]

  in_then_out-Outcome :
      (events : ℕ) (w' : World A S)
      → HasTarget (slot w' s).type s w'
      → IsParked type s ev w w'
      → (w'' : World A S) × (in_then_out os siginfo events s w' ≡ some w'')
        × Outcome type s ev w w''
  unfolding in_then_out
  in_then_out-Outcome events w' t p = elim (Bool-cases (has events epollin)) [
    | inl readable ↦
        let (w'', e, o) = on_in-Outcome w' t p in
        (
          if has events epollout then on_out os siginfo s w'' else w'',
          rw (readable, e, in_then_out),
          then_out-Outcome events w'' o,
        )
    | inr not_readable ↦ (
      if has events epollout then on_out os siginfo s w' else w',
      rw (not_readable, in_then_out),
      then_out-Outcome events w' (inl p),
    )
  ]

module _ {A S : Type 0} (os : Os S) (siginfo events s : ℕ) (w : World A S) where
  -- For any bits that epoll reports for a socket, if an ACCEPT under way has a target, no null pointer
  -- is dereferenced, and afterwards the operation in the slot is still under way with the wait set as
  -- it was, or one completion for its callback was added, ready to dispatch, and the slot is free.
  pub handle_at-Outcome :
      HasTarget (slot w s).type s w
      → (w' : World A S) × (handle_at os siginfo events s w ≡ some w')
        × Outcome (slot w s).type s (slot w s).ev w w'
  unfolding handle_at
  handle_at-Outcome t =
      let here : IsParked (slot w s).type s (slot w s).ev w w = record {
        quiet = refl;
        typed = refl;
        held = refl;
      } in
      elim (Bool-cases (has events epollerr)) [
        | inl failed ↦ (
          fail_slot s (Sock.get_sock_err os w.os) w,
          rw failed,
          inr (fail_slot-IsFinished w _ here),
        )
        | inr working ↦ elim (Bool-cases (has events epollhup)) [
          | inl hung_up ↦ (on_hup s w, rw (working, hung_up), on_hup-Outcome w here)
          | inr connected ↦
              rw (working, connected) (in_then_out-Outcome os siginfo s _ _ w events w t here)
        ]
      ]
