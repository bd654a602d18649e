-- ===== src/Examples/Rounds.antt =====
-- Rounds of the loop on the small world.
use venti.Prelude.{
  ℕ, ◌<◌, ◌≡◌, refl, sym, ◌∙◌, ◌++◌, ◌∷◌, [], true, false, some, List, arith, length, suc, inl,
}
use mathlib.Core.List.{append_assoc, append-nil}
use venti.Prelude.Int.{pos}
use venti.Event.{Event, event_of, complete, completed}
use venti.Os.{EpollEvent}
use venti.World.{World, noop}
use venti.Context.{submit_complete, settled, is_due, perform_all, dispatch, pass, run, stop}
use venti.Context.Pass.{AllDue, total, Adds, Dispatched, pass-Dispatched}
use venti.Context.Loop.{exit_of, run-stop}
use venti.Epoll.Wait.{wait}
use venti.Prelude.{◌⊎◌, inl, inr, ◌≢◌, ◌≤◌, length, ◌≡◌}
use venti.Context.{fault}
use venti.Epoll.Submit.{submit_read}
use venti.Epoll.Frame.{submit_read-IsLocal}
use venti.Epoll.Safety.{IsSafe, IsLocal-IsSafe, run-IsSafe, run-round}
use venti.Examples.{kernel, world, call_one, one_buffer}

-- Each call adds one completion whose callback makes no call.
abbrev answer_call : ℕ → World ℕ ℕ → World ℕ ℕ
answer_call a w = submit_complete (event_of (λ _ _. [])) w

abbrev call_cost : Event ℕ → ℕ
call_cost e = suc (length (complete e))

adds :
    (calls : List ℕ) (w : World ℕ ℕ)
    → (added : List (Event ℕ)) × ((perform_all answer_call calls w).waitset ≡ w.waitset ++ added)
      × AllDue added
      × (total call_cost added ≡ length calls)
unfolding perform_all submit_complete settled is_due complete
adds [] w = ([], sym (append-nil w.waitset), tt, refl)
adds (c ∷ cs) w =
    let (added, e, due, cost) = adds cs (answer_call c w) in
    (
      record (event_of (λ _ _. [])) { status = completed } ∷ added,
      e ∙ append_assoc w.waitset _ added,
      (refl, due),
      omega (arith, cost),
    )

behaves :
    (e : Event ℕ) (w : World ℕ ℕ) → Adds call_cost e w (perform_all answer_call (complete e) w)
behaves e w =
    let (added, h, due, cost) = adds (complete e) w in
    record { added = added; extended = h; due = due; cheaper = omega (arith, cost) }

abbrev one_waits : World ℕ ℕ
one_waits = record (world noop true) { waitset = record call_one { status = completed } ∷ [] }

waits_due : AllDue one_waits.waitset
unfolding is_due
waits_due = (refl, tt)

waits_cost : total call_cost one_waits.waitset < 3
unfolding complete
waits_cost = omega arith

pass-Dispatched_example :
    (w' : World ℕ ℕ) × (later : List (Event ℕ)) × (pass answer_call 3 0 one_waits ≡ some w')
    × Dispatched answer_call w' one_waits (record call_one { status = completed } ∷ [] ++ later)
    × (w'.waitset ≡ [])
pass-Dispatched_example =
    pass-Dispatched answer_call call_cost behaves 3 one_waits waits_due waits_cost

-- The loop with a callback that ends it.
abbrev end_call : ℕ → World ℕ ℕ → World ℕ ℕ
end_call a w = stop w

end_pass :
    pass end_call 2 0 one_waits ≡ some (record one_waits { waitset = []; can_continue = false })
unfolding pass dispatch perform_all complete stop is_due
end_pass = refl

run-stop_example :
    run end_call (λ w. some w) 2 2 one_waits
    ≡ exit_of (some (record one_waits { waitset = []; can_continue = false }))
run-stop_example =
    run-stop end_call (λ w. some w) 2 0 one_waits
      (record one_waits { waitset = []; can_continue = false }) refl end_pass refl (λ v h. cc)

-- Sockets 0 and 2 are registered, and the kernel reports both.
abbrev Both : ℕ → Type 0
Both q = (q ≡ 0) ⊎ (q ≡ 2)

abbrev two_ready : List EpollEvent
two_ready = record { events = 1; ptr = 0 } ∷ record { events = 1; ptr = 2 } ∷ []

waits-IsSafe : IsSafe Both one_waits
waits-IsSafe = record { aimed = λ q h. (1, refl); owned = λ q r. (q, refl) }

-- Each call reads from the socket of its number.
abbrev read_call : ℕ → World ℕ ℕ → World ℕ ℕ
read_call a w = submit_read (kernel (pos 7) (pos 9) two_ready) a one_buffer call_one w

run-IsSafe_example : run read_call (wait (kernel (pos 7) (pos 9) two_ready) 0) 4 3 one_waits ≢ fault
run-IsSafe_example =
    run-IsSafe (kernel (pos 7) (pos 9) two_ready) 0 Both (λ fd o. (inl refl, (inr refl, tt)))
      read_call
      (λ a w k.
        IsLocal-IsSafe Both
          (submit_read-IsLocal (kernel (pos 7) (pos 9) two_ready) a call_one w one_buffer) k)
      4 3 one_waits waits-IsSafe

answer-IsSafe : (a : ℕ) (w : World ℕ ℕ) → IsSafe Both w → IsSafe Both (answer_call a w)
unfolding submit_complete
answer-IsSafe a w k = record { aimed = k.aimed; owned = k.owned }

run-round_example :
    (w' w'' : World ℕ ℕ) × (pass answer_call 3 0 one_waits ≡ some w')
    × (w'.waitset ≡ [])
    × (run answer_call (wait (kernel (pos 7) (pos 9) two_ready) 0) 3 5 one_waits
        ≡ run answer_call (wait (kernel (pos 7) (pos 9) two_ready) 0) 3 4 w'')
    × IsSafe Both w''
    × AllDue w''.waitset
    × (length w''.waitset ≤ 2)
run-round_example =
    run-round (kernel (pos 7) (pos 9) two_ready) 0 Both (λ fd o. (inl refl, (inr refl, tt)))
      answer_call answer-IsSafe call_cost behaves 3 4 one_waits waits-IsSafe refl waits_due
      waits_cost
