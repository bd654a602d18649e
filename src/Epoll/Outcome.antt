-- ===== src/Epoll/Outcome.antt =====
-- The two ways in which a submission can leave things (venti/platform/linux/epollimpl.h): under way
-- in the socket's slot, or finished, with a completion in the wait set.
use venti.Prelude.{
  ℕ, [], ◌∷◌, ◌++◌, ◌≡◌, refl, ap, ◌∙◌, ◌⊎◌, inl, inr, Bool, true, false, arith, Bool-cases,
}
use venti.Prelude.Int.{ℤ, pos, neg, eqb, ltb_zero}
use venti.Event.{Event, EvStat, waiting, completed, err}
use venti.Os.{Os}
use venti.Sock.Utils.{LinuxSock}
use venti.Addr.{AddrType, ipv4, ipv6}
use venti.Sock
use venti.Sock.{accept_as}
use venti.World.{World, EvType, noop, slot}
use venti.Context.{is_due, settled, submit_complete}
use venti.Epoll.Slot.{
  would_block, clear, set_rp, set_wp, fail_now, finish_now, done_now, try_read, try_write,
  accept_into, try_recvfrom, try_sendto,
}
use venti.Epoll.Submit.{after_transfer, after_accept}

pub settled_due : (status : EvStat) → is_due (settled status) ≡ true
unfolding is_due settled
settled_due waiting = refl
settled_due completed = refl
settled_due err = refl

module _ {A S : Type 0} where
  -- The wait set is as it was, and the slot holds the operation.
  pub record IsParked (type : EvType) (s : ℕ) (ev : Event A) (w w' : World A S) : Type 0 where
    pub quiet : w'.waitset ≡ w.waitset
    pub typed : (slot w' s).type ≡ type
    pub held : (slot w' s).ev ≡ ev

  -- One completion was added, for this event's callback and ready to dispatch; the slot is free.
  pub record IsFinished (s : ℕ) (ev : Event A) (w w' : World A S) : Type 0 where
    pub result : Event A
    pub appended : w'.waitset ≡ w.waitset ++ result ∷ []
    pub same_cb : result.cb ≡ ev.cb
    pub due : is_due result.status ≡ true
    pub idle : (slot w' s).type ≡ noop

  abbrev pub Outcome : EvType → ℕ → Event A → World A S → World A S → Type 0
  Outcome type s ev w w' = IsParked type s ev w w' ⊎ IsFinished s ev w w'

  -- The common end of every completion.
  pub clear-IsFinished :
      (s : ℕ) (ev result : Event A) (w w' : World A S)
      → w'.waitset ≡ w.waitset
      → result.cb ≡ ev.cb
      → IsFinished s ev w (clear s (submit_complete result w'))
  unfolding clear submit_complete
  clear-IsFinished s ev result w w' same cb = record {
    result = record result { status = settled result.status };
    appended = rw same;
    same_cb = cb;
    due = settled_due result.status;
    idle = ground arith;
  }

  module _ (s : ℕ) (ev : Event A) (w w' : World A S) (same : w'.waitset ≡ w.waitset) where
    pub fail_now-IsFinished : (e : ℤ) → IsFinished s ev w (fail_now s e ev w')
    unfolding fail_now
    fail_now-IsFinished e =
        clear-IsFinished s ev (record ev { status = err; error = e }) w w' same refl

    pub finish_now-IsFinished : (r : ℤ) → IsFinished s ev w (finish_now s r ev w')
    unfolding finish_now
    finish_now-IsFinished r =
        clear-IsFinished s ev (record ev { status = completed; res = r }) w w' same refl

    pub done_now-IsFinished : IsFinished s ev w (done_now s ev w')
    unfolding done_now
    done_now-IsFinished = clear-IsFinished s ev (record ev { status = completed }) w w' same refl

  module _ {type : EvType} {s : ℕ} {ev : Event A} {w : World A S} (w' : World A S) where
    pub set_rp-IsParked :
        (b : Bool) → IsParked type s ev w w' → IsParked type s ev w (set_rp s b w')
    unfolding set_rp
    set_rp-IsParked b p = record { quiet = p.quiet; typed = ground arith; held = ground arith }

    pub set_wp-IsParked :
        (b : Bool) → IsParked type s ev w w' → IsParked type s ev w (set_wp s b w')
    unfolding set_wp
    set_wp-IsParked b p = record { quiet = p.quiet; typed = ground arith; held = ground arith }

    -- After an attempt whose flag keeps the slot's operation, whatever the attempt returned.
    pub after_transfer-Outcome :
        (flag : ℕ → Bool → World A S → World A S) (len : ℤ)
        → ((b : Bool) → IsParked type s ev w w' → IsParked type s ev w (flag s b w'))
        → IsParked type s ev w w'
        → Outcome type s ev w (after_transfer flag s ev (len, w'))
    unfolding after_transfer
    after_transfer-Outcome flag len keep p = elim (Bool-cases (eqb len would_block)) [
      | inl blocked ↦ rw blocked (inl (keep false p))
      | inr open_ ↦ rw open_ (elim (Bool-cases (ltb_zero len)) [
        | inl failed ↦ rw failed (inr (fail_now-IsFinished s ev w w' p.quiet (neg len)))
        | inr fine ↦ rw fine (inr (finish_now-IsFinished s ev w w' p.quiet len))
      ])
    ]

    pub after_accept-Outcome :
        (r : ℤ) → IsParked type s ev w w' → Outcome type s ev w (after_accept s ev (r, w'))
    unfolding after_accept
    after_accept-Outcome r p = elim (Bool-cases (eqb r (pos 0))) [
      | inl fine ↦ rw fine (inr (done_now-IsFinished s ev w w' p.quiet))
      | inr other ↦ rw other (elim (Bool-cases (eqb r would_block)) [
        | inl blocked ↦ rw blocked (inl (set_rp-IsParked false p))
        | inr failed ↦ rw failed (inr (fail_now-IsFinished s ev w w' p.quiet (neg r)))
      ])
    ]

-- `Accept` keeps the pointer to the event data of the socket that it fills in.
accept_as-ev :
    {S : Type 0} (os : Os S) (kind : AddrType) (sk res : LinuxSock) (s : S)
    → (accept_as os kind sk res s).1.ev ≡ res.ev
unfolding accept_as
accept_as-ev os ipv4 sk res s = ground arith
accept_as-ev os ipv6 sk res s = ground arith

module _ {A S : Type 0} (os : Os S) (s : ℕ) (w : World A S) where
  -- So every socket keeps its slot.
  pub pointers-accept_into : (p q : ℕ) → ((accept_into os s p w).1.socks q).ev ≡ (w.socks q).ev
  unfolding accept_into Sock.accept
  pointers-accept_into p q =
      ground (arith, accept_as-ev os (w.socks s).addr.kind (w.socks s) (w.socks p) w.os)

  pub slot-accept_into : (p q : ℕ) → slot (accept_into os s p w).1 q ≡ slot w q
  slot-accept_into p q = unfold accept_into in (ap w.evs (pointers-accept_into p q))

  pub waitset-accept_into : (p : ℕ) → (accept_into os s p w).1.waitset ≡ w.waitset
  unfolding accept_into
  waitset-accept_into p = refl

module _ {A S : Type 0} (os : Os S) (s : ℕ) (type : EvType) (ev : Event A) (w w' : World A S) where
  pub accept_into-IsParked :
      (p : ℕ) → IsParked type s ev w w' → IsParked type s ev w (accept_into os s p w').1
  accept_into-IsParked p h = record {
    quiet = waitset-accept_into os s w' p ∙ h.quiet;
    typed = rw (slot-accept_into os s w' p s) h.typed;
    held = rw (slot-accept_into os s w' p s) h.held;
  }

  pub try_read-IsParked : IsParked type s ev w w' → IsParked type s ev w (try_read os s w').1
  unfolding try_read
  try_read-IsParked h = record { quiet = h.quiet; typed = h.typed; held = h.held }

  pub try_write-IsParked : IsParked type s ev w w' → IsParked type s ev w (try_write os s w').1
  unfolding try_write
  try_write-IsParked h = record { quiet = h.quiet; typed = h.typed; held = h.held }

  pub try_recvfrom-IsParked :
      IsParked type s ev w w' → IsParked type s ev w (try_recvfrom os s w').1
  unfolding try_recvfrom
  try_recvfrom-IsParked h = record { quiet = h.quiet; typed = h.typed; held = h.held }

  pub try_sendto-IsParked : IsParked type s ev w w' → IsParked type s ev w (try_sendto os s w').1
  unfolding try_sendto
  try_sendto-IsParked h = record { quiet = h.quiet; typed = h.typed; held = h.held }
