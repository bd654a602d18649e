-- ===== src/Epoll/Steps.antt =====
-- What one epoll event's handling (`Wait` of venti/platform/linux/epollimpl.h) leaves alone.
use venti.Prelude.{ℕ, Bool, true, false, Option, none, some, if◌then◌else◌}
use venti.Prelude.Int.{ℤ, pos, neg, eqb, ltb_zero}
use venti.Os.{Os}
use venti.World.{
  World, EvType, read, write, accept, connect, recvfrom, sendto, timetick, signal, slot,
}
use venti.Epoll.Slot.{
  would_block, epollin, epollout, epollerr, epollhup, set_rp, set_wp, try_accept, accept_into,
}
use venti.Epoll.Wait.{
  has, is_connect, on_hup, in_transfer, in_accept, out_transfer, in_signal, in_case, on_in,
  out_case, on_out, in_then_out, handle_at,
}
use venti.Epoll.Local.{
  IsLocal, IsLocal-refl, IsLocal-trans, if-IsLocal, os-IsLocal, set_rp-IsLocal, set_wp-IsLocal,
  fail_slot-IsLocal, finish_slot-IsLocal, done_slot-IsLocal,
}
use venti.Epoll.Frame.{
  try_read-IsLocal, try_write-IsLocal, try_recvfrom-IsLocal, try_sendto-IsLocal,
  accept_into-IsLocal,
}

-- A statement about the world, if there was no null dereference.
abbrev pub Holds : {W : Type 0} → (W → Type 0) → Option W → Type 0
Holds P none = Unit
Holds P (some w) = P w

pub Holds-map :
    {V W : Type 0} (P : V → Type 0) (Q : W → Type 0) (f : V → W) (o : Option V)
    → ((v : V) → P v → Q (f v))
    → Holds P o
    → Holds Q (elim o [ none ↦ none | some v ↦ some (f v) ])
Holds-map P Q f none keep h = tt
Holds-map P Q f (some v) keep h = keep v h

Holds-tabulate :
    {V W : Type 0} (Q : W → Type 0) (f : V → W) (o : Option V)
    → ((v : V) → Q (f v))
    → Holds Q (elim o [ none ↦ none | some v ↦ some (f v) ])
Holds-tabulate Q f none keep = tt
Holds-tabulate Q f (some v) keep = keep v

Holds-imp :
    {W : Type 0} (P Q : W → Type 0) (o : Option W) → ((w : W) → P w → Q w) → Holds P o → Holds Q o
Holds-imp P Q none keep h = tt
Holds-imp P Q (some w) keep h = keep w h

if-Holds :
    {W : Type 0} (P : W → Type 0) (b : Bool) (o o' : Option W)
    → Holds P o
    → Holds P o'
    → Holds P (if b then o else o')
if-Holds P true o o' h h' = h
if-Holds P false o o' h h' = h'

module _ {A S : Type 0} (s : ℕ) where
  in_transfer-IsLocal : (len : ℤ) (w : World A S) → IsLocal s w (in_transfer s (len, w))
  unfolding in_transfer
  in_transfer-IsLocal len w =
      if-IsLocal (ltb_zero len) w _ _ (fail_slot-IsLocal s w (neg len))
        (finish_slot-IsLocal s w len)

  in_accept-IsLocal : (r : ℤ) (w : World A S) → IsLocal s w (in_accept s (r, w))
  unfolding in_accept
  in_accept-IsLocal r w =
      if-IsLocal (eqb r (pos 0)) w _ _ (done_slot-IsLocal s w) (fail_slot-IsLocal s w (neg r))

  out_transfer-IsLocal :
      (flag : ℕ → Bool → World A S → World A S) (len : ℤ) (w : World A S)
      → ((b : Bool) → IsLocal s w (flag s b w))
      → IsLocal s w (out_transfer flag s (len, w))
  unfolding out_transfer
  out_transfer-IsLocal flag len w local = if-IsLocal (eqb len would_block) w _ _ (local false) (
      if-IsLocal (ltb_zero len) w _ _ (fail_slot-IsLocal s w (neg len))
        (finish_slot-IsLocal s w len))

  on_hup-IsLocal : (w : World A S) → IsLocal s w (on_hup s w)
  unfolding on_hup
  on_hup-IsLocal w =
      if-IsLocal (is_connect (slot w s).type) w _ _ (fail_slot-IsLocal s w (pos 144))
        (IsLocal-refl w)

module _ {A S : Type 0} (os : Os S) (siginfo s : ℕ) where
  in_signal-IsLocal : (w : World A S) → IsLocal s w (in_signal os siginfo s w)
  unfolding in_signal
  in_signal-IsLocal w = IsLocal-trans w _ _ (os-IsLocal w _) (
      IsLocal-trans _ _ _ (finish_slot-IsLocal s _ _)
        (IsLocal-trans _ _ _ (set_rp-IsLocal s _ false) (os-IsLocal _ _)))

  try_accept-IsLocal : (w : World A S) → Holds (λ r. IsLocal s w r.1) (try_accept os s w)
  unfolding try_accept
  try_accept-IsLocal w =
      Holds-tabulate (λ r. IsLocal s w r.1) (λ p. accept_into os s p w) (slot w s).target
        (accept_into-IsLocal os s w)

  in_case-IsLocal :
      (type : EvType) (w : World A S) → Holds (IsLocal s w) (in_case os siginfo type s w)
  unfolding in_case
  in_case-IsLocal read w = IsLocal-trans w _ _ (try_read-IsLocal os s w) (in_transfer-IsLocal s _ _)
  in_case-IsLocal accept w =
      Holds-map (λ r. IsLocal s w r.1) (IsLocal s w) (in_accept s) (try_accept os s w)
        (λ r h. IsLocal-trans w r.1 _ h (in_accept-IsLocal s r.0 r.1)) (try_accept-IsLocal w)
  in_case-IsLocal recvfrom w =
      IsLocal-trans w _ _ (try_recvfrom-IsLocal os s w) (in_transfer-IsLocal s _ _)
  in_case-IsLocal timetick w =
      IsLocal-trans w _ _ (finish_slot-IsLocal s w (pos 0)) (set_rp-IsLocal s _ false)
  in_case-IsLocal signal w = in_signal-IsLocal w
  in_case-IsLocal _ w = IsLocal-refl w

  out_case-IsLocal : (type : EvType) (w : World A S) → IsLocal s w (out_case os siginfo type s w)
  unfolding out_case
  out_case-IsLocal write w =
      IsLocal-trans w _ _ (try_write-IsLocal os s w)
        (out_transfer-IsLocal s set_wp _ _ (set_wp-IsLocal s _))
  out_case-IsLocal sendto w =
      IsLocal-trans w _ _ (try_sendto-IsLocal os s w)
        (out_transfer-IsLocal s set_rp _ _ (set_rp-IsLocal s _))
  out_case-IsLocal connect w = done_slot-IsLocal s w
  out_case-IsLocal _ w = IsLocal-refl w

  on_in-IsLocal : (w : World A S) → Holds (IsLocal s w) (on_in os siginfo s w)
  unfolding on_in
  on_in-IsLocal w =
      let w' : World A S = set_rp s true w in
      Holds-imp (IsLocal s w') (IsLocal s w) _ (λ v. IsLocal-trans w w' v (set_rp-IsLocal s w true))
        (in_case-IsLocal (slot w' s).type w')

  on_out-IsLocal : (w : World A S) → IsLocal s w (on_out os siginfo s w)
  unfolding on_out
  on_out-IsLocal w =
      IsLocal-trans w (set_wp s true w) _ (set_wp-IsLocal s w true) (out_case-IsLocal _ _)

  in_then_out-IsLocal :
      (events : ℕ) (w : World A S) → Holds (IsLocal s w) (in_then_out os siginfo events s w)
  unfolding in_then_out
  in_then_out-IsLocal events w =
      Holds-map (IsLocal s w) (IsLocal s w) _
        (if has events epollin then on_in os siginfo s w else some w)
        (λ v h. if-IsLocal (has events epollout) w _ _ (IsLocal-trans w v _ h (on_out-IsLocal v)) h)
        (if-Holds (IsLocal s w) (has events epollin) _ _ (on_in-IsLocal w) (IsLocal-refl w))

  -- Whatever epoll reports for a socket, handling it, unless it dereferences a null pointer,
  -- changes no other slot, no socket's pointer to its slot and not the loop's flag, only adds
  -- completions that are due, and keeps that the slot points to a socket and that an ACCEPT under
  -- way has a target.
  pub handle_at-IsLocal :
      (events : ℕ) (w : World A S) → Holds (IsLocal s w) (handle_at os siginfo events s w)
  unfolding handle_at
  handle_at-IsLocal events w =
      if-Holds (IsLocal s w) (has events epollerr) _ _ (fail_slot-IsLocal s w _) (
        if-Holds (IsLocal s w) (has events epollhup) _ _ (on_hup-IsLocal s w)
          (in_then_out-IsLocal events w))
