-- ===== src/Tcp/Answer.antt =====
-- From the kernel's answer to a transfer to the coroutine that awaits it (venti/socket/tcpsocket.h,
-- venti/platform/linux/epollimpl.h).
use venti.Prelude.{
  ℕ, ◌^◌, ◌<◌, ◌≡◌, ◌⊎◌, inl, inr, refl, ap, ◌∙◌, Bool, true, List, [], ◌∷◌, ◌++◌, arith,
}
use venti.Prelude.Int.{ℤ, pos, negsuc}
use venti.Event.{Event, completed, err, complete}
use venti.Os.{Os}
use venti.Sock.Transfer.{transferred}
use venti.World.{World, noop, slot}
use venti.Context.{submit_complete, settled, is_due}
use venti.Epoll.Slot.{submit_slot, fail_slot, finish_slot, fail_now, finish_now, clear}
use venti.Epoll.Submit.{after_transfer}
use venti.Epoll.Wait.{in_transfer, out_transfer}
use venti.Epoll.Outcome.{settled_due}
use venti.Epoll.Faults.{transferred_failed, transferred_pos}
use venti.Tcp.{io_event}
use venti.Tcp.Await.{complete_io}

-- What the kernel answers to a transfer: -1, or a number of bytes that fits `int`.
abbrev pub IsAnswer : ℤ → Type 0
IsAnswer len = (len ≡ negsuc 0) ⊎ ((n : ℕ) × (len ≡ pos n) × (n < 2 ^ 31))

-- An answer passes the conversions of `Send` and `Recv`.
pub transferred_answer :
    {S : Type 0} (os : Os S) (len : ℤ) (o : S) → IsAnswer len → transferred os len o ≡ len
transferred_answer os len o (inl e) = rw e (transferred_failed os o)
transferred_answer os len o (inr (n, e, fits)) = rw e (transferred_pos os n o fits)

module _ {A S : Type 0} (resume : ℤ → List A) (s : ℕ) where
  -- One due completion was added whose dispatch resumes with `len`, and the slot is free.
  pub record Answered (len : ℤ) (w w' : World A S) : Type 0 where
    pub answer : Event A
    pub added : w'.waitset ≡ w.waitset ++ answer ∷ []
    pub resumes : complete answer ≡ resume len
    pub due : is_due answer.status ≡ true
    pub idle : (slot w' s).type ≡ noop

  pub Answered-from :
      {len : ℤ} {w w' v : World A S} → v.waitset ≡ w.waitset → Answered len v w' → Answered len w w'
  Answered-from same k = record {
    answer = k.answer;
    added = k.added ∙ ap (λ l. l ++ k.answer ∷ []) same;
    resumes = k.resumes;
    due = k.due;
    idle = k.idle;
  }

  pub clear-Answered :
      (len : ℤ) (r : Event A) (w w' : World A S)
      → w'.waitset ≡ w.waitset
      → complete r ≡ resume len
      → Answered len w (clear s (submit_complete r w'))
  unfolding submit_complete clear complete
  clear-Answered len r w w' same c = record {
    answer = record r { status = settled r.status };
    added = rw same refl;
    resumes = c;
    due = settled_due r.status;
    idle = ground arith;
  }

  module _ (w w' : World A S) (same : w'.waitset ≡ w.waitset)
      (held : (slot w' s).ev ≡ io_event resume) where
    finish_slot-Answered : (n : ℕ) → n < 2 ^ 31 → Answered (pos n) w (finish_slot s (pos n) w')
    unfolding finish_slot submit_slot
    finish_slot-Answered n fits =
        clear-Answered (pos n) _ w _ same (rw held (complete_io resume completed n 0 fits))

    fail_slot-Answered : Answered (negsuc 0) w (fail_slot s (pos 1) w')
    unfolding fail_slot submit_slot
    fail_slot-Answered =
        clear-Answered (negsuc 0) _ w _ same (rw held (complete_io resume err 0 1 (omega arith)))

    -- READ and RECVFROM under EPOLLIN.
    pub in_transfer-Answered : (len : ℤ) → IsAnswer len → Answered len w (in_transfer s (len, w'))
    unfolding in_transfer
    in_transfer-Answered len (inl e) = rw e fail_slot-Answered
    in_transfer-Answered len (inr (n, e, fits)) = rw e (finish_slot-Answered n fits)

    -- WRITE and SENDTO under EPOLLOUT.
    pub out_transfer-Answered :
        (flag : ℕ → Bool → World A S → World A S) (len : ℤ)
        → IsAnswer len
        → Answered len w (out_transfer flag s (len, w'))
    unfolding out_transfer
    out_transfer-Answered flag len (inl e) = rw e fail_slot-Answered
    out_transfer-Answered flag len (inr (n, e, fits)) = rw e (finish_slot-Answered n fits)

  -- A transfer that is tried as it is submitted.
  pub after_transfer-Answered :
      (flag : ℕ → Bool → World A S → World A S) (len : ℤ) (w w' : World A S)
      → IsAnswer len
      → w'.waitset ≡ w.waitset
      → Answered len w (after_transfer flag s (io_event resume) (len, w'))
  unfolding after_transfer fail_now finish_now
  after_transfer-Answered flag len w w' (inl e) same =
      rw e (clear-Answered (negsuc 0) _ w w' same (complete_io resume err 0 1 (omega arith)))
  after_transfer-Answered flag len w w' (inr (n, e, fits)) same =
      rw e (clear-Answered (pos n) _ w w' same (complete_io resume completed n 0 fits))
