-- ===== src/Examples/Steady.antt =====
-- A timer and signals on a small system.
use venti.Prelude.{ℕ, ◌+◌, ◌≡◌, refl, ◌++◌, ◌∷◌, [], some, true, List, ◌≤◌, arith}
use venti.Prelude.Int.{ℤ, pos, negsuc}
use venti.Event.{Event, complete}
use venti.World.{World, noop}
use venti.Steady.{WinSteadyTimer, SteadyOs, threaded, fired, await_steady, steady_wait}
use venti.Tcp.Round.{gone_on}
use venti.Context.{pass}
use venti.Steady.{steady_set_expire}
use venti.Steady.Firing.{Sleeps, await_steady-fired, steady_wait_twice}
use venti.Win.Signal.{WinSigManager}
use venti.Examples.{world, hand_on}

abbrev add_time : ℤ → ℕ → ℕ
add_time (pos n) s = s + n
add_time (negsuc n) s = s

-- A clock that a sleep moves on.
abbrev sleeping : SteadyOs ℕ
sleeping = record { launch = λ _. threaded; sleep_for = λ _ s. 1 + s }

abbrev one_ms : WinSteadyTimer ℕ
one_ms = record { nsec = pos 1000000; cb = λ _. [] }

-- The state of this one is the time.
abbrev exact : SteadyOs ℕ
exact = record { launch = λ _. threaded; sleep_for = add_time }

exact-Sleeps : Sleeps exact (λ s. s)
exact-Sleeps = record { sleeps = λ n s. omega arith }

abbrev keep : ℕ → World ℕ ℕ → World ℕ ℕ
keep a w = w

abbrev awaited : WinSteadyTimer ℕ × World ℕ ℕ
awaited =
    await_steady exact (steady_set_expire one_ms (pos 1000000)) hand_on (5 ∷ []) (world noop true)

await_steady-fired_example :
    (11 + 1000000 ≤ awaited.1.os)
    × (pass keep 3 0 awaited.1 ≡ pass keep 2 0 (gone_on keep (5 ∷ []) awaited.1))
    × (fired awaited.0 ≡ 0 ∷ [])
await_steady-fired_example =
    await_steady-fired exact one_ms (5 ∷ []) (world noop true) (λ s. s) exact-Sleeps keep hand_on 2
      1000000 refl refl

steady_wait_twice_example :
    (r1 : Event ℕ) × (r2 : Event ℕ) × ((steady_wait sleeping
        (steady_wait sleeping one_ms hand_on (5 ∷ []) (world noop true)).0
        (λ _. 9 ∷ [])
        (5 ∷ [])
        (steady_wait sleeping one_ms hand_on (5 ∷ []) (world noop true)).1).1.waitset
      ≡ [] ++ r1 ∷ r2 ∷ [])
    × (complete r1 ≡ 5 ∷ [])
    × (complete r2 ≡ 5 ∷ [])
    × (fired
          (steady_wait sleeping
            (steady_wait sleeping one_ms hand_on (5 ∷ []) (world noop true)).0
            (λ _. 9 ∷ [])
            (5 ∷ [])
            (steady_wait sleeping one_ms hand_on (5 ∷ []) (world noop true)).1).0
        ≡ 9 ∷ [])
steady_wait_twice_example =
    steady_wait_twice sleeping one_ms (5 ∷ []) (world noop true) hand_on (λ _. 9 ∷ []) (λ _. refl)

-- SIGINT and SIGTERM to one handler, after SIGABRT to another; the state is the list of the signals
-- that `SigCallback` is called for.
abbrev earlier : WinSigManager ℕ
earlier = record { sigmap = (22, some (λ n. n ∷ 1 ∷ [])) ∷ [] }

abbrev listed : ℕ → List ℕ → List ℕ
listed n s = n ∷ s
