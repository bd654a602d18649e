-- ===== src/Epoll/Local.antt =====
-- What the operations of venti/platform/linux/epollimpl.h leave alone: every other socket's slot,
-- the pointers between sockets and slots, the flag of the loop, and what already waits.
use venti.Prelude.{
  ℕ, ◌≡◌, ◌≢◌, refl, sym, ap, ◌∙◌, List, [], ◌∷◌, ◌++◌, Bool, true, false, some, arith,
  if◌then◌else◌,
}
use mathlib.Core.List.{append-nil, append_assoc}
use venti.Prelude.Int.{ℤ}
use venti.Event.{Event, completed, err}
use venti.World.{World, SockEventData, accept, slot, put_slot}
use venti.Context.{submit_complete}
use venti.Context.Pass.{AllDue, AllDue-append}
use venti.Epoll.Slot.{
  clear, set_rp, set_wp, fail_now, finish_now, done_now, submit_slot, fail_slot, finish_slot,
  done_slot,
}
use venti.Epoll.Outcome.{settled_due}

-- An ACCEPT in the slot comes with a socket to accept into.
abbrev pub IsAimed : {A : Type 0} → SockEventData A → Type 0
IsAimed d = d.type ≡ accept → (p : ℕ) × (d.target ≡ some p)

module _ {A S : Type 0} where
  -- From `w` to `w'` only the slot of the socket `s` was written; completions were only added.
  pub record IsLocal (s : ℕ) (w w' : World A S) : Type 0 where
    pub elsewhere : (q : ℕ) → q ≢ (w.socks s).ev → w'.evs q ≡ w.evs q
    pub pointers : (q : ℕ) → (w'.socks q).ev ≡ (w.socks q).ev
    pub owned : (t : ℕ) → (slot w s).sock ≡ some t → (t' : ℕ) × ((slot w' s).sock ≡ some t')
    pub aimed : IsAimed (slot w s) → IsAimed (slot w' s)
    pub flag : w'.can_continue ≡ w.can_continue
    pub added : List (Event A)
    pub extended : w'.waitset ≡ w.waitset ++ added
    pub due : AllDue added

  module _ {s : ℕ} where
    pub IsLocal-refl : (w : World A S) → IsLocal s w w
    IsLocal-refl w = record {
      elsewhere = λ q _. refl;
      pointers = λ q. refl;
      owned = λ t e. (t, e);
      aimed = λ h. h;
      flag = refl;
      added = [];
      extended = sym (append-nil w.waitset);
      due = tt;
    }

    pub IsLocal-trans : (u v w : World A S) → IsLocal s u v → IsLocal s v w → IsLocal s u w
    IsLocal-trans u v w h k = record {
      elsewhere = λ q ne. k.elsewhere q (λ e. ne (e ∙ h.pointers s)) ∙ h.elsewhere q ne;
      pointers = λ q. k.pointers q ∙ h.pointers q;
      owned = λ t e. let (t', e') = h.owned t e in k.owned t' e';
      aimed = λ i. k.aimed (h.aimed i);
      flag = k.flag ∙ h.flag;
      added = h.added ++ k.added;
      extended =
          k.extended ∙ ap (λ l. l ++ k.added) h.extended ∙ append_assoc u.waitset h.added k.added;
      due = AllDue-append h.added k.added h.due k.due;
    }

    pub if-IsLocal :
        (b : Bool) (u v w : World A S)
        → IsLocal s u v
        → IsLocal s u w
        → IsLocal s u (if b then v else w)
    if-IsLocal true u v w h k = h
    if-IsLocal false u v w h k = k

    pub os-IsLocal : (w : World A S) (o : S) → IsLocal s w (record w { os = o })
    os-IsLocal w o = record {
      elsewhere = λ q _. refl;
      pointers = λ q. refl;
      owned = λ t e. (t, e);
      aimed = λ h. h;
      flag = refl;
      added = [];
      extended = sym (append-nil w.waitset);
      due = tt;
    }

    pub submit_complete-IsLocal : (e : Event A) (w : World A S) → IsLocal s w (submit_complete e w)
    unfolding submit_complete
    submit_complete-IsLocal e w = record {
      elsewhere = λ q _. refl;
      pointers = λ q. refl;
      owned = λ t h. (t, h);
      aimed = λ h. h;
      flag = refl;
      added = _ ∷ [];
      extended = refl;
      due = (settled_due e.status, tt);
    }

  pub put_slot-IsLocal :
      (s : ℕ) (d : SockEventData A) (w : World A S)
      → ((t : ℕ) → (slot w s).sock ≡ some t → (t' : ℕ) × (d.sock ≡ some t'))
      → (IsAimed (slot w s) → IsAimed d)
      → IsLocal s w (put_slot s d w)
  put_slot-IsLocal s d w keeps aim = record {
    elsewhere = λ q ne. ground arith;
    pointers = λ q. refl;
    owned = λ t h. let (t', e) = keeps t h in (t', ground arith);
    aimed = λ h e. let (p, found) = aim h (ground arith) in (p, ground arith);
    flag = refl;
    added = [];
    extended = sym (append-nil w.waitset);
    due = tt;
  }

  module _ (s : ℕ) (w : World A S) where
    clear-IsLocal : IsLocal s w (clear s w)
    unfolding clear
    clear-IsLocal = put_slot-IsLocal s _ w (λ t h. (t, h)) (λ _ e. cc)

    pub set_rp-IsLocal : (b : Bool) → IsLocal s w (set_rp s b w)
    unfolding set_rp
    set_rp-IsLocal b = put_slot-IsLocal s _ w (λ t h. (t, h)) (λ h. h)

    pub set_wp-IsLocal : (b : Bool) → IsLocal s w (set_wp s b w)
    unfolding set_wp
    set_wp-IsLocal b = put_slot-IsLocal s _ w (λ t h. (t, h)) (λ h. h)

  finishing-IsLocal :
      (s : ℕ) (e : Event A) (w : World A S) → IsLocal s w (clear s (submit_complete e w))
  finishing-IsLocal s e w =
      IsLocal-trans w (submit_complete e w) _ (submit_complete-IsLocal e w)
        (clear-IsLocal s (submit_complete e w))

  module _ (s : ℕ) (w : World A S) where
    pub fail_now-IsLocal : (e : ℤ) (ev : Event A) → IsLocal s w (fail_now s e ev w)
    unfolding fail_now
    fail_now-IsLocal e ev = finishing-IsLocal s (record ev { status = err; error = e }) w

    pub finish_now-IsLocal : (r : ℤ) (ev : Event A) → IsLocal s w (finish_now s r ev w)
    unfolding finish_now
    finish_now-IsLocal r ev = finishing-IsLocal s (record ev { status = completed; res = r }) w

    pub done_now-IsLocal : (ev : Event A) → IsLocal s w (done_now s ev w)
    unfolding done_now
    done_now-IsLocal ev = finishing-IsLocal s (record ev { status = completed }) w

    submit_slot-IsLocal : (e : Event A) → IsLocal s w (submit_slot s e w)
    unfolding submit_slot
    submit_slot-IsLocal e =
        let w' : World A S = put_slot s (record (slot w s) { ev = e }) w in
        IsLocal-trans w w' _ (put_slot-IsLocal s _ w (λ t h. (t, h)) (λ h. h))
          (finishing-IsLocal s e w')

    pub fail_slot-IsLocal : (e : ℤ) → IsLocal s w (fail_slot s e w)
    unfolding fail_slot
    fail_slot-IsLocal e = submit_slot-IsLocal _

    pub finish_slot-IsLocal : (r : ℤ) → IsLocal s w (finish_slot s r w)
    unfolding finish_slot
    finish_slot-IsLocal r = submit_slot-IsLocal _

    pub done_slot-IsLocal : IsLocal s w (done_slot s w)
    unfolding done_slot
    done_slot-IsLocal = submit_slot-IsLocal _
