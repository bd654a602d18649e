-- ===== src/Timer/Tick.antt =====
-- A timer from `Wait` to its callback (venti/platform/linux/linuxtimer.h, epollimpl.h beside it).
use venti.Prelude.{ℕ, ◌+◌, ◌*◌, ◌<◌, ◌≡◌, refl, ap, ◌∙◌, true, false, List, some, arith}
use venti.Prelude.Int.{ℤ, pos}
use venti.Event.{complete}
use venti.Os.{Os}
use venti.Sock
use venti.Sock.{set_time, nsec_per_sec}
use venti.Sock.Expiry.{expiry_of_pos}
use venti.World.{World, timetick, slot, set_event}
use venti.Epoll.Slot.{epollerr, set_rp, finish_slot, fail_slot, submit_slot}
use venti.Epoll.Submit.{submit_timer}
use venti.Epoll.Wait.{has, handle_at, on_in, in_case}
use venti.Epoll.Lost.{handle_at_err}
use venti.Tcp.Answer.{Answered, Answered-from, clear-Answered}
use venti.Tcp.Arrival.{IsCalm, handle_at_in, slot-set_rp}
use venti.Timer.{LinuxSteadyTimer, set_expire, timer_event, timer_wait}

module _ {A S : Type 0} (os : Os S) (siginfo s : ℕ) (w : World A S) (cb : ℤ → List A) where
  abbrev seen : World A S
  seen = set_rp s true w

  abbrev ticked : World A S
  ticked = set_rp s false (finish_slot s (pos 0) seen)

  on_in_tick : (slot w s).type ≡ timetick → on_in os siginfo s w ≡ some ticked
  unfolding on_in in_case
  on_in_tick t =
      let seen_type : (slot seen s).type ≡ timetick = ap (λ d. d.type) (slot-set_rp s w true) ∙ t in
      rw (seen_type, in_case)

  set_rp-Answered :
      (len : ℤ) (w' : World A S) → Answered cb s len w w' → Answered cb s len w (set_rp s false w')
  unfolding set_rp
  set_rp-Answered len w' k = record {
    answer = k.answer;
    added = k.added;
    resumes = k.resumes;
    due = k.due;
    idle = ground (arith, k.idle);
  }

  module _ (held : (slot w s).ev ≡ timer_event cb) (errno : ℕ) where
    finished-Answered : Answered cb s (pos 0) w (finish_slot s (pos 0) seen)
    unfolding finish_slot submit_slot complete
    finished-Answered =
        let held' : (slot seen s).ev ≡ timer_event cb =
          ap (λ d. d.ev) (slot-set_rp s w true) ∙ held in
        clear-Answered cb s (pos 0) _ w _ (unfold set_rp in refl) (rw held' refl)

    failed-Answered : Answered cb s (pos errno) w (fail_slot s (pos errno) w)
    unfolding fail_slot submit_slot complete
    failed-Answered = clear-Answered cb s (pos errno) _ w _ refl (rw held refl)

module _ {A S : Type 0} (os : Os S) (siginfo : ℕ) (t : LinuxSteadyTimer) (cb : ℤ → List A)
    (w : World A S) (n : ℕ) where
  abbrev pub waiting_world : World A S
  waiting_world = timer_wait os (set_expire t (pos n)) cb w

  slot-waiting :
      ((slot waiting_world t.sock).type ≡ timetick)
      × ((slot waiting_world t.sock).ev ≡ timer_event cb)
  unfolding timer_wait submit_timer set_event set_expire
  slot-waiting = (ground arith, ground arith)

  kept-waiting :
      (waiting_world.waitset ≡ w.waitset)
      × (waiting_world.os ≡ Sock.set_time os (w.socks t.sock) (pos n) w.os)
  unfolding timer_wait submit_timer set_expire
  kept-waiting = (refl, refl)

  -- When a timer set to `n` nanoseconds waits with the callback `cb`, no completion is added, and the
  -- kernel's timer is set to exactly that time, in seconds and nanoseconds below one second, with no
  -- interval. If then the kernel, in whatever state it is by then, reports EPOLLIN alone, one
  -- completion is added, whose dispatch calls `cb` with 0; if it reports EPOLLERR instead, one is added
  -- whose dispatch calls `cb` with `errno`. Either way the slot is free afterwards.
  pub timer_wait-handle_at :
      (events failing : ℕ) (o : S)
      → IsCalm events true false
      → has failing epollerr ≡ true
      → (sec nsec : ℕ) × (w' : World A S) × (w'' : World A S) × (waiting_world.waitset ≡ w.waitset)
        × (waiting_world.os
            ≡ os.timerfd_settime
                (w.socks t.sock).sock
                (record {
                  interval_sec = pos 0;
                  interval_nsec = pos 0;
                  value_sec = pos sec;
                  value_nsec = pos nsec;
                })
                w.os)
        × (sec * nsec_per_sec + nsec ≡ n)
        × (nsec < nsec_per_sec)
        × (handle_at os siginfo events t.sock (record waiting_world { os = o }) ≡ some w')
        × Answered cb t.sock (pos 0) w w'
        × (handle_at os siginfo failing t.sock (record waiting_world { os = o }) ≡ some w'')
        × Answered cb t.sock (pos (os.errno o)) w w''
  unfolding set_time
  timer_wait-handle_at events failing o c f =
      let v : World A S = record waiting_world { os = o } in
      let (sec, nsec, split, total, below) = expiry_of_pos n in
      (
        sec,
        nsec,
        ticked os siginfo t.sock v cb,
        fail_slot t.sock (pos (os.errno o)) v,
        kept-waiting.0,
        kept-waiting.1 ∙ ap (λ x. os.timerfd_settime (w.socks t.sock).sock x w.os) split,
        total,
        below,
        handle_at_in os siginfo t.sock events v c
            (on_in_tick os siginfo t.sock v cb slot-waiting.0),
        Answered-from cb t.sock kept-waiting.0 (
            set_rp-Answered os siginfo t.sock v cb (pos 0) _
              (finished-Answered os siginfo t.sock v cb slot-waiting.1 0)),
        handle_at_err os siginfo failing t.sock v f,
        Answered-from cb t.sock kept-waiting.0
            (failed-Answered os siginfo t.sock v cb slot-waiting.1 (os.errno o)),
      )
