-- ===== src/Examples/Deliveries.antt =====
-- Coroutines and a signal handler that wait, on the small world.
use venti.Prelude.{ℕ, suc, ◌≡◌, refl, ◌∷◌, [], true, false, some, none, inr, arith}
use venti.Prelude.Int.{ℤ, negsuc, to_int, pos}
use venti.Os.{Os, EpollEvent, del}
use venti.Sock.Transfer.{sender}
use venti.World.{World, noop}
use venti.Context.{pass, run}
use venti.Epoll.Wait.{handle_at, wait}
use venti.Tcp.{await_read, await_write}
use venti.Tcp.Answer.{IsAnswer, Answered}
use venti.Tcp.Arrival.{IsCalm}
use venti.Tcp.Delivery.{await_read-Answered, await_write-handle_at}
use venti.Tcp.Round.{gone_on, run-await_read}
use venti.Udp.{await_recvfrom}
use venti.Udp.Delivery.{await_recvfrom-handle_at}
use venti.Signal.{SignalOs, LinuxSignalHandler, signal_wait}
use venti.Signal.Delivery.{signal_wait-handle_at}
use venti.Acceptor.{Acceptor, await_accept, accept_callback, resume_accept}
use venti.Acceptor.Delivery.{registered, await_accept-handle_at}
use venti.Examples.{localhost, kernel, world, one_buffer, hand_on}

-- The kernel gives 7 bytes, and reports the socket 0 readable.
abbrev readable : EpollEvent
readable = record { events = 1; ptr = 0 }

abbrev seven : Os ℕ
seven = kernel (pos 7) (pos 9) (readable ∷ [])

abbrev unready : World ℕ ℕ
unready = world noop false

fits : IsAnswer (pos 7)
fits = inr (7, refl, omega arith)

epollin-IsCalm : IsCalm 1 true false
epollin-IsCalm = record { no_err = refl; no_hup = refl; reads = refl; writes = refl }

epollout-IsCalm : IsCalm 4 false true
epollout-IsCalm = record { no_err = refl; no_hup = refl; reads = refl; writes = refl }

await_read-Answered_example :
    Answered hand_on 0
      (pos 7)
      (world noop true)
      (await_read seven 0 one_buffer hand_on (world noop true))
await_read-Answered_example =
    await_read-Answered seven 0 one_buffer (world noop true) hand_on refl fits

await_write-handle_at_example :
    ((await_write seven 0 one_buffer hand_on unready).waitset ≡ [])
    × (w' : World ℕ ℕ) × (handle_at seven 4096 4 0
          (record (await_write seven 0 one_buffer hand_on unready) { os = 4 })
        ≡ some w')
    × Answered hand_on 0 (pos 7) unready w'
await_write-handle_at_example =
    await_write-handle_at seven 0 one_buffer unready hand_on 4096 4 4 refl epollout-IsCalm fits

-- A call changes the kernel's state.
abbrev call : ℕ → World ℕ ℕ → World ℕ ℕ
call a w = record w { os = a }

run-await_read_example :
    (w' : World ℕ ℕ) × (run call
        (wait seven 4096)
        3
        2
        (await_read seven 0 one_buffer hand_on unready)
      ≡ run call (wait seven 4096) 3 1 w')
    × (pass call 3 0 w' ≡ pass call 2 0 (gone_on call (7 ∷ []) w'))
run-await_read_example =
    run-await_read seven 4096 0 one_buffer hand_on call unready 2 1 readable 11 refl refl refl refl
      refl epollin-IsCalm fits

await_recvfrom-handle_at_example :
    ((await_recvfrom seven 0 one_buffer 5 hand_on unready).waitset ≡ [])
    × (w' : World ℕ ℕ) × (handle_at seven 4096 1 0
          (record (await_recvfrom seven 0 one_buffer 5 hand_on unready) { os = 4 })
        ≡ some w')
    × Answered hand_on 0 (pos 7) unready w'
    × (w'.addrs 5 ≡ sender seven (unready.socks 0).addr.kind 4)
await_recvfrom-handle_at_example =
    await_recvfrom-handle_at seven 4096 0 one_buffer 5 hand_on unready 1 4 refl epollin-IsCalm fits

-- A signal set is the number of signals in it.
abbrev counted : SignalOs ℕ ℕ
counted = record {
  sigaddset = λ m _. suc m;
  sigprocmask_set = λ _ s. s;
  signalfd = λ _ _ s. (pos 8, s);
}

abbrev handler : LinuxSignalHandler ℕ
handler = record { mask = 1; sock = 3 }

signal_wait-handle_at_example :
    ((signal_wait seven counted handler hand_on unready).waitset ≡ [])
    × (w' : World ℕ ℕ) × (handle_at seven 4096 1 3
          (record (signal_wait seven counted handler hand_on unready) { os = 4 })
        ≡ some w')
    × Answered hand_on 3 (to_int 2) unready w'
    × (w'.os ≡ seven.epoll_ctl (pos 3) (del (pos 8)) 4)
signal_wait-handle_at_example =
    signal_wait-handle_at seven counted 4096 handler hand_on unready 1 4 epollin-IsCalm

abbrev listener : Acceptor ℕ
listener = record {
  listener = 0;
  waiting_sock = none;
  waiting_cb = λ _ _. [];
  local_addr = localhost;
}

-- A coroutine that puts the code that it is resumed with into the kernel's state.
abbrev then_call : ℤ → World ℕ ℕ → World ℕ ℕ
then_call (pos n) w = record w { os = n }
then_call (negsuc n) w = w

await_accept-handle_at_example :
    (v : World ℕ ℕ) × (w' : World ℕ ℕ) × ((await_accept seven listener 1 hand_on hand_on unready).1
      ≡ some v)
    × (v.waitset ≡ [])
    × (handle_at seven 4096 1 0 (record v { os = 4 }) ≡ some w')
    × Answered hand_on 0 (pos 0) unready w'
    × (accept_callback seven
          (unready.socks 2)
          (await_accept seven listener 1 hand_on hand_on unready).0
          (pos 0)
          w'
        ≡ some (0 ∷ []))
    × (resume_accept seven 1 (pos 0) then_call w'
        ≡ then_call (pos 0) (registered seven listener 1 hand_on hand_on unready (pos 9) w'))
await_accept-handle_at_example =
    await_accept-handle_at seven listener 1 hand_on hand_on unready 4096 1 4 9 (unready.socks 2)
      then_call refl epollin-IsCalm (λ n. refl)
