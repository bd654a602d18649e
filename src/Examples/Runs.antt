-- ===== src/Examples/Runs.antt =====
-- Calls of `Wait`, a timer and coroutines on the small world.
use venti.Prelude.{
  ◌⊎◌, inr, arith, ◌+◌, ℕ, ◌≡◌, refl, ◌++◌, ◌∷◌, [], true, false, some, none, List, inl,
}
use venti.Prelude.Int.{pos}
use venti.Event.{Event}
use venti.Os.{EpollEvent}
use venti.World.{World, read, accept, noop, slot}
use venti.Epoll.Slot.{epollin}
use venti.Epoll.Wait.{handle_at, wait}
use venti.Epoll.Outcome.{Outcome}
use venti.Epoll.Handling.{handle_at-Outcome}
use venti.Epoll.Stepping.{Advances, wait-Advances}
use venti.Epoll.Lost.{wait_unsubmitted, handle_at_twice}
use venti.Timer.{LinuxSteadyTimer}
use venti.Tcp.Answer.{Answered}
use venti.Sock.{nsec_per_sec}
use venti.Prelude.{◌*◌, ◌<◌}
use venti.Timer.Tick.{waiting_world, timer_wait-handle_at}
use venti.Coroutine.{
  Coros, running, get, await_ready, start, future_move, await_resume, finish_value,
}
use venti.Coroutine.Nesting.{unwind, awaiting_all, AllDone, unwind-awaiting_all}
use venti.Addr.{ipv4}
use venti.World.{new_data}
use venti.Tcp.{tcp_open, open_kind}
use venti.Sock.Open.{tcp_socket4}
use venti.Epoll.Submit.{reg_sock}
use venti.Coroutine.{suspended, go_on}
use venti.Coroutine.Resumption.{any_awaiting, finish_value-await_suspend_any}
use venti.Examples.{kernel, world, call_one, hand_on}

handle_at-Outcome_example :
    (w' : World ℕ ℕ) × (handle_at (kernel (pos 7) (pos 9) []) 0 epollin 0 (world accept true)
      ≡ some w')
    × Outcome accept 0 call_one (world accept true) w'
handle_at-Outcome_example =
    handle_at-Outcome (kernel (pos 7) (pos 9) []) 0 epollin 0 (world accept true) (λ _. (1, refl))

-- Two sockets are readable.
abbrev two_ready : List EpollEvent
two_ready = record { events = 1; ptr = 0 } ∷ record { events = 1; ptr = 2 } ∷ []

wait-Advances_example :
    (w' : World ℕ ℕ) × (wait (kernel (pos 7) (pos 9) two_ready) 0 (world accept true) ≡ some w')
    × Advances 2 (world accept true) w'
wait-Advances_example =
    wait-Advances (kernel (pos 7) (pos 9) two_ready) 0 (world accept true) (λ _ _. (1, refl))
      ((0, refl), ((2, refl), tt))

-- Sockets as their constructor makes them.
abbrev new_socks : World ℕ ℕ
new_socks = record (world noop false) { evs = λ s. new_data }

wait_unsubmitted_example :
    wait
      (kernel (pos 7) (pos 9) two_ready)
      0
      (tcp_open (kernel (pos 7) (pos 9) two_ready) ipv4 0 new_socks)
    ≡ none
unfolding tcp_open reg_sock open_kind tcp_socket4
wait_unsubmitted_example =
    wait_unsubmitted (kernel (pos 7) (pos 9) two_ready) 0 ipv4 0 new_socks
      (record { events = 1; ptr = 0 }) (record { events = 1; ptr = 2 } ∷ []) 11 refl refl refl

handle_at_twice_example :
    (w1 w2 : World ℕ ℕ) × (r1 : Event ℕ) × (r2 : Event ℕ) × (handle_at
        (kernel (pos 7) (pos 9) [])
        0
        8
        0
        (world read false)
      ≡ some w1)
    × ((slot w1 0).type ≡ noop)
    × (handle_at (kernel (pos 7) (pos 9) []) 0 8 0 w1 ≡ some w2)
    × (w2.waitset ≡ [] ++ r1 ∷ r2 ∷ [])
    × (r1.cb ≡ call_one.cb)
    × (r2.cb ≡ call_one.cb)
handle_at_twice_example = handle_at_twice (kernel (pos 7) (pos 9) []) 0 8 0 (world read false) refl

abbrev any_timer : LinuxSteadyTimer
any_timer = record { sock = 3; nsec = pos 0 }

abbrev ticking : World ℕ ℕ
ticking =
    waiting_world (kernel (pos 7) (pos 9) []) 0 any_timer hand_on (world noop false) 1500000000

timer_wait-handle_at_example :
    (sec nsec : ℕ) × (w' : World ℕ ℕ) × (w'' : World ℕ ℕ) × (ticking.waitset ≡ [])
    × (ticking.os
        ≡ (kernel (pos 7) (pos 9) []).timerfd_settime
            (pos 4)
            (record {
              interval_sec = pos 0;
              interval_nsec = pos 0;
              value_sec = pos sec;
              value_nsec = pos nsec;
            })
            11)
    × (sec * nsec_per_sec + nsec ≡ 1500000000)
    × (nsec < nsec_per_sec)
    × (handle_at (kernel (pos 7) (pos 9) []) 0 1 3 (record ticking { os = 5 }) ≡ some w')
    × Answered hand_on 3 (pos 0) (world noop false) w'
    × (handle_at (kernel (pos 7) (pos 9) []) 0 8 3 (record ticking { os = 5 }) ≡ some w'')
    × Answered hand_on 3 (pos 5) (world noop false) w''
timer_wait-handle_at_example =
    timer_wait-handle_at (kernel (pos 7) (pos 9) []) 0 any_timer hand_on (world noop false)
      1500000000 1 8 5 (record { no_err = refl; no_hup = refl; reads = refl; writes = refl }) refl

-- Coroutine 2 runs; coroutine 1 comes to await it.
abbrev two_coros : Coros ℕ
two_coros = record {
  promises =
      λ _. record { result = record { value = 0; exception = none }; inner = none; outer = none };
  frames = λ _. running;
}

-- A body that adds its own number, and lets an exception through.
abbrev adds_own : ℕ → ℕ ⊎ ℕ → ℕ ⊎ ℕ
adds_own h (inl v) = inl (h + v)
adds_own h (inr e) = inr e

unwind-awaiting_all_example :
    (c' : Coros ℕ) × (unwind 0 adds_own 3 2 (inl 42) (awaiting_all 2 (1 ∷ 5 ∷ []) two_coros)
      ≡ some (5, c'))
    × (get (await_resume 5 c') ≡ inl 48)
    × AllDone (2 ∷ 1 ∷ 5 ∷ []) c'
unwind-awaiting_all_example =
    unwind-awaiting_all 0 adds_own 2 (1 ∷ 5 ∷ []) (inl 42) two_coros
      (
        ((λ e. absurd (omega (arith, e))), ((λ e. absurd (omega (arith, e))), tt)),
        (((λ e. absurd (omega (arith, e))), tt), tt),
      )
      refl

finish_value-await_suspend_any_example :
    (await_ready (future_move (some 2)).0 (start 0 2 two_coros) ≡ some false)
    × ((any_awaiting 0 2 1 two_coros).frames 1 ≡ suspended)
    × ((go_on (finish_value 0 2 (inl 42) (any_awaiting 0 2 1 two_coros))).frames 1 ≡ suspended)
    × (await_ready
          (future_move (some 2)).0
          (go_on (finish_value 0 2 (inl 42) (any_awaiting 0 2 1 two_coros)))
        ≡ some true)
    × (get (await_resume 2 (go_on (finish_value 0 2 (inl 42) (any_awaiting 0 2 1 two_coros))))
        ≡ inl 42)
finish_value-await_suspend_any_example =
    finish_value-await_suspend_any 0 2 1 (inl 42) two_coros (λ e. absurd (omega (arith, e)))

abbrev two_void : Coros (Unit {0})
two_void = record {
  promises =
      λ _. record { result = record { value = tt; exception = none }; inner = none; outer = none };
  frames = λ _. running;
}
