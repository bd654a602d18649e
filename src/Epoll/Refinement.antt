-- ===== src/Epoll/Refinement.antt =====
-- `Wait` (venti/platform/linux/epollimpl.h) as reports to an event handler.
use venti.Prelude.{
  ℕ, ◌≡◌, ◌≢◌, refl, ◌⊎◌, inl, inr, true, false, some, List, [], ◌∷◌, Bool-cases, if◌then◌else◌,
  length, subst,
}
use venti.Os.{Os, EpollEvent}
use venti.World.{
  World, EvType, read, write, accept, connect, recvfrom, sendto, timetick, signal, noop, slot,
}
use venti.Handler.{Handles, Serves, over, then_}
use venti.Epoll.Slot.{epollin, epollout, epollerr, epollhup, set_rp, set_wp}
use venti.Epoll.Wait.{
  has, is_connect, on_hup, in_case, on_in, out_case, on_out, in_then_out, handle_at, handle_event,
  handle_events, wait,
}
use venti.Epoll.Outcome.{IsParked, set_rp-IsParked, set_wp-IsParked}
use venti.Epoll.Handling.{HasTarget, handle_at-Outcome}
use venti.Epoll.Local.{IsLocal, IsAimed}
use venti.Epoll.Steps.{Holds, handle_at-IsLocal}
use venti.Epoll.Stepping.{IsOwned, AllOwned, AllOwned-mono, local-IsOwned, local-IsAimed}
use venti.Epoll.View.{view, Outcome-Handles, idle-Handles}

noop-cases : (type : EvType) → (type ≡ noop) ⊎ (type ≢ noop)
noop-cases noop = inl refl
noop-cases read = inr (λ h. cc)
noop-cases write = inr (λ h. cc)
noop-cases accept = inr (λ h. cc)
noop-cases connect = inr (λ h. cc)
noop-cases recvfrom = inr (λ h. cc)
noop-cases sendto = inr (λ h. cc)
noop-cases timetick = inr (λ h. cc)
noop-cases signal = inr (λ h. cc)

module _ {A S : Type 0} (os : Os S) (siginfo s : ℕ) (w : World A S) where
  abbrev IsIdle : World A S → Type 0
  IsIdle w' = IsParked noop s (slot w s).ev w w'

  on_in-IsIdle :
      (w' : World A S)
      → IsIdle w'
      → (w'' : World A S) × (on_in os siginfo s w' ≡ some w'') × IsIdle w''
  unfolding on_in in_case
  on_in-IsIdle w' p =
      let p' : IsIdle (set_rp s true w') = set_rp-IsParked w' true p in
      (set_rp s true w', rw (p'.typed, in_case), p')

  on_out-IsIdle : (w' : World A S) → IsIdle w' → IsIdle (on_out os siginfo s w')
  unfolding on_out out_case
  on_out-IsIdle w' p =
      let p' : IsIdle (set_wp s true w') = set_wp-IsParked w' true p in rw (p'.typed, out_case) p'

  then_out-IsIdle :
      (events : ℕ) (w' : World A S)
      → IsIdle w'
      → IsIdle (if has events epollout then on_out os siginfo s w' else w')
  then_out-IsIdle events w' p = elim (Bool-cases (has events epollout)) [
    | inl out ↦ rw out (on_out-IsIdle w' p)
    | inr no_out ↦ rw no_out p
  ]

  in_then_out-IsIdle :
      (events : ℕ)
      → IsIdle w
      → (w' : World A S) × (in_then_out os siginfo events s w ≡ some w') × IsIdle w'
  unfolding in_then_out
  in_then_out-IsIdle events p = elim (Bool-cases (has events epollin)) [
    | inl readable ↦
        let (w', e, p') = on_in-IsIdle w p in
        (_, rw (readable, e, in_then_out), then_out-IsIdle events w' p')
    | inr not_readable ↦ (_, rw (not_readable, in_then_out), then_out-IsIdle events w p)
  ]

  handle_at-IsIdle :
      (events : ℕ)
      → (slot w s).type ≡ noop
      → has events epollerr ≡ false
      → (w' : World A S) × (handle_at os siginfo events s w ≡ some w') × IsIdle w'
  unfolding handle_at on_hup is_connect
  handle_at-IsIdle events idle fine =
      let p : IsIdle w = record { quiet = refl; typed = idle; held = refl } in
      elim (Bool-cases (has events epollhup)) [
        | inl hung_up ↦ (w, rw (fine, hung_up, idle, is_connect), p)
        | inr connected ↦ rw (fine, connected) (in_then_out-IsIdle events p)
      ]

  -- Whatever epoll reports for a socket, if an error is reported only while an operation is under way
  -- and an ACCEPT under way has a target, handling it dereferences no null pointer and does what an
  -- event handler is to do with a report: nothing is seen of it, or the operation that is under way in
  -- the socket's slot is finished with one completion.
  handle_at-Handles :
      (events : ℕ)
      → ((slot w s).type ≡ noop → has events epollerr ≡ false)
      → HasTarget (slot w s).type s w
      → (w' : World A S) × (handle_at os siginfo events s w ≡ some w')
        × IsLocal s w w'
        × Handles (w.socks s).ev (view w) (view w')
  handle_at-Handles events fine target =
      let local : Holds (IsLocal s w) (handle_at os siginfo events s w) =
        handle_at-IsLocal os siginfo s events w in
      elim (noop-cases (slot w s).type) [
        | inl idle ↦
            let (w', did, p) = handle_at-IsIdle events idle (fine idle) in
            let l : IsLocal s w w' = subst (Holds (IsLocal s w)) did local in
            (w', did, l, idle-Handles l idle p)
        | inr busy ↦
            let (w', did, o) = handle_at-Outcome os siginfo events s w target in
            let l : IsLocal s w w' = subst (Holds (IsLocal s w)) did local in
            (w', did, l, Outcome-Handles l busy o)
      ]

-- No event reports an error.
abbrev pub NoError : List EpollEvent → Type 0
NoError [] = Unit {0}
NoError (e ∷ es) = (has e.events epollerr ≡ false) × NoError es

module _ {A S : Type 0} (os : Os S) (siginfo : ℕ) where
  handle_event-Handles :
      (e : EpollEvent) (w : World A S)
      → ((q : ℕ) → IsAimed (w.evs q))
      → has e.events epollerr ≡ false
      → IsOwned (w.evs e.ptr)
      → (s : ℕ) × (w' : World A S) × (handle_event os siginfo e w ≡ some w')
        × IsLocal s w w'
        × Handles (w.socks s).ev (view w) (view w')
  unfolding handle_event
  handle_event-Handles e w aimed fine (s, h) =
      let (w', did, l, handled) =
        handle_at-Handles os siginfo s w e.events (λ _. fine) (aimed (w.socks s).ev) in
      (s, w', rw (h, handle_event) did, l, handled)

  handle_events-Serves :
      (es : List EpollEvent) (w : World A S)
      → ((q : ℕ) → IsAimed (w.evs q))
      → AllOwned es w.evs
      → NoError es
      → (w' : World A S) × (handle_events os siginfo es w ≡ some w')
        × Serves (length es) (view w) (view w')
  unfolding handle_events
  handle_events-Serves [] w aimed owned fine = (w, refl, over)
  handle_events-Serves (e ∷ es) w aimed owned fine =
      let (s, w1, one, l, handled) = handle_event-Handles e w aimed fine.0 owned.0 in
      let (w2, rest, served) =
        handle_events-Serves es w1 (local-IsAimed l aimed)
          (AllOwned-mono es w.evs w1.evs (local-IsOwned l) owned.1) fine.1 in
      (w2, rw (one, handle_events) rest, then_ (w.socks s).ev handled served)

  -- If every ACCEPT under way has a socket to accept into, the events that the kernel returns are for
  -- slots that have had a submission, and none reports an error, then `Wait` returns, and it has
  -- served that many reports as an event handler is to: each finished at most the operation that was
  -- under way in one slot.
  pub wait-Serves :
      (w : World A S)
      → ((q : ℕ) → IsAimed (w.evs q))
      → AllOwned (os.epoll_wait w.epoll 128 w.os).0 w.evs
      → NoError (os.epoll_wait w.epoll 128 w.os).0
      → (w' : World A S) × (wait os siginfo w ≡ some w')
        × Serves (length (os.epoll_wait w.epoll 128 w.os).0) (view w) (view w')
  unfolding wait
  wait-Serves w aimed owned fine =
      let (es, o) = os.epoll_wait w.epoll 128 w.os in
      handle_events-Serves es (record w { os = o }) aimed owned fine
