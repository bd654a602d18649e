-- ===== src/Epoll/Branches.antt =====
-- The branches of `Wait` (venti/platform/linux/epollimpl.h), one at a time: each finishes the
-- operation in the slot or leaves it there.
use venti.Prelude.{ℕ, ◌≡◌, refl, ap, ◌∙◌, inl, inr, Bool, false, arith, Bool-cases}
use venti.Prelude.Int.{ℤ, pos, neg, eqb, ltb_zero}
use venti.Event.{Event, completed, err}
use venti.World.{World, EvType, slot}
use venti.Epoll.Slot.{would_block, set_rp, set_wp, submit_slot, fail_slot, finish_slot, done_slot}
use venti.Epoll.Wait.{is_connect, on_hup, in_transfer, in_accept, out_transfer}
use venti.Epoll.Outcome.{IsParked, IsFinished, Outcome, clear-IsFinished}

module _ {A S : Type 0} {s : ℕ} {ev : Event A} {w : World A S} (w' : World A S) where
  pub os-IsFinished : (o : S) → IsFinished s ev w w' → IsFinished s ev w (record w' { os = o })
  os-IsFinished o f = record {
    result = f.result;
    appended = f.appended;
    same_cb = f.same_cb;
    due = f.due;
    idle = f.idle;
  }

  -- The flags and the kernel's state can change under a finished operation.
  pub set_rp-IsFinished : (b : Bool) → IsFinished s ev w w' → IsFinished s ev w (set_rp s b w')
  unfolding set_rp
  set_rp-IsFinished b f = record {
    result = f.result;
    appended = f.appended;
    same_cb = f.same_cb;
    due = f.due;
    idle = ground arith;
  }

  pub set_wp-IsFinished : (b : Bool) → IsFinished s ev w w' → IsFinished s ev w (set_wp s b w')
  unfolding set_wp
  set_wp-IsFinished b f = record {
    result = f.result;
    appended = f.appended;
    same_cb = f.same_cb;
    due = f.due;
    idle = ground arith;
  }

module _ {A S : Type 0} {type : EvType} {s : ℕ} {ev : Event A} {w : World A S}
    (w' : World A S) where
  pub os-IsParked : (o : S) → IsParked type s ev w w' → IsParked type s ev w (record w' { os = o })
  os-IsParked o p = record { quiet = p.quiet; typed = p.typed; held = p.held }

  submit_slot-IsFinished :
      (result : Event A)
      → result.cb ≡ (slot w' s).ev.cb
      → IsParked type s ev w w'
      → IsFinished s ev w (submit_slot s result w')
  unfolding submit_slot
  submit_slot-IsFinished result cb p =
      clear-IsFinished s ev result w _ p.quiet (cb ∙ ap (λ (e : Event A). e.cb) p.held)

  pub fail_slot-IsFinished :
      (e : ℤ) → IsParked type s ev w w' → IsFinished s ev w (fail_slot s e w')
  unfolding fail_slot
  fail_slot-IsFinished e p =
      submit_slot-IsFinished (record (slot w' s).ev { status = err; error = e }) refl p

  pub finish_slot-IsFinished :
      (r : ℤ) → IsParked type s ev w w' → IsFinished s ev w (finish_slot s r w')
  unfolding finish_slot
  finish_slot-IsFinished r p =
      submit_slot-IsFinished (record (slot w' s).ev { status = completed; res = r }) refl p

  pub done_slot-IsFinished : IsParked type s ev w w' → IsFinished s ev w (done_slot s w')
  unfolding done_slot
  done_slot-IsFinished p =
      submit_slot-IsFinished (record (slot w' s).ev { status = completed }) refl p

  pub in_transfer-Outcome :
      (len : ℤ) → IsParked type s ev w w' → Outcome type s ev w (in_transfer s (len, w'))
  unfolding in_transfer
  in_transfer-Outcome len p = elim (Bool-cases (ltb_zero len)) [
    | inl failed ↦ rw failed (inr (fail_slot-IsFinished (neg len) p))
    | inr fine ↦ rw fine (inr (finish_slot-IsFinished len p))
  ]

  pub in_accept-Outcome :
      (r : ℤ) → IsParked type s ev w w' → Outcome type s ev w (in_accept s (r, w'))
  unfolding in_accept
  in_accept-Outcome r p = elim (Bool-cases (eqb r (pos 0))) [
    | inl fine ↦ rw fine (inr (done_slot-IsFinished p))
    | inr failed ↦ rw failed (inr (fail_slot-IsFinished (neg r) p))
  ]

  pub out_transfer-Outcome :
      (flag : ℕ → Bool → World A S → World A S) (len : ℤ)
      → ((b : Bool) → IsParked type s ev w w' → IsParked type s ev w (flag s b w'))
      → IsParked type s ev w w'
      → Outcome type s ev w (out_transfer flag s (len, w'))
  unfolding out_transfer
  out_transfer-Outcome flag len keep p = elim (Bool-cases (eqb len would_block)) [
    | inl blocked ↦ rw blocked (inl (keep false p))
    | inr open_ ↦ rw open_ (elim (Bool-cases (ltb_zero len)) [
      | inl failed ↦ rw failed (inr (fail_slot-IsFinished (neg len) p))
      | inr fine ↦ rw fine (inr (finish_slot-IsFinished len p))
    ])
  ]

  pub on_hup-Outcome : IsParked type s ev w w' → Outcome type s ev w (on_hup s w')
  unfolding on_hup
  on_hup-Outcome p = elim (Bool-cases (is_connect (slot w' s).type)) [
    | inl connecting ↦ rw connecting (inr (fail_slot-IsFinished (pos 144) p))
    | inr other ↦ rw other (inl p)
  ]
