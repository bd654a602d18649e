-- ===== src/Examples/Handlers.antt =====
-- The Linux event handler as an event handler, on the small world.
use venti.Prelude.{ℕ, ◌≡◌, refl, ◌∷◌, [], true, some, List}
use venti.Prelude.Int.{pos}
use venti.Handler.{Submits, Serves}
use venti.Os.{EpollEvent}
use venti.World.{World, accept, noop}
use venti.Epoll.Wait.{wait}
use venti.Epoll.View.{view}
use venti.Epoll.Request.{to_accept, submit, submit-Submits}
use venti.Epoll.Refinement.{wait-Serves}
use venti.Examples.{kernel, world, call_one}

submit-Submits_example :
    (w' : World ℕ ℕ) × (submit
        (kernel (pos 7) (pos 9) [])
        0
        call_one
        (world noop true)
        (to_accept 1)
      ≡ some w')
    × Submits 0 call_one (view (world noop true)) (view w')
submit-Submits_example =
    submit-Submits (kernel (pos 7) (pos 9) []) 0 call_one (world noop true) (to_accept 1)

-- A socket twice and another once.
abbrev three_ready : List EpollEvent
three_ready =
    record { events = 1; ptr = 0 }
    ∷ record { events = 1; ptr = 2 }
    ∷ record { events = 5; ptr = 0 }
    ∷ []

wait-Serves_example :
    (w' : World ℕ ℕ) × (wait (kernel (pos 7) (pos 9) three_ready) 0 (world accept true) ≡ some w')
    × Serves 3 (view (world accept true)) (view w')
wait-Serves_example =
    wait-Serves (kernel (pos 7) (pos 9) three_ready) 0 (world accept true) (λ _ _. (1, refl))
      ((0, refl), ((2, refl), ((0, refl), tt))) (refl, (refl, (refl, tt)))
