-- ===== src/Examples/Accounts.antt =====
-- A round of the loop whose callbacks read from sockets.
use venti.Prelude.{
  ℕ, suc, ◌+◌, ◌<◌, ◌≤◌, ◌≡◌, ◌⊎◌, refl, ap, sym, ◌∙◌, true, false, List, [], ◌∷◌, ◌++◌, some,
  arith, length, inl, inr,
}
use mathlib.Core.List.{append-nil, append_assoc}
use venti.Prelude.Int.{pos}
use venti.Event.{Event, Callback, event_of, complete, completed}
use venti.Os.{EpollEvent}
use venti.World.{World, noop}
use venti.Context.{is_due, perform_all, run}
use venti.Context.Pass.{AllDue, AllDue-append, total, total-append, Adds, Dispatched}
use venti.Handler.{Submits, begin, at_once}
use venti.Handler.Ledger.{many, waiting_count, Pending}
use venti.Win.Map.{map_get}
use venti.Epoll.View.{view, held_as}
use venti.Epoll.Wait.{wait}
use venti.Epoll.Request.{to_read}
use venti.Epoll.Safety.{IsSafe}
use venti.Epoll.Asking.{Ask, ask, ask-Submits}
use venti.Epoll.Ledger.{opened_by, replaced_in, run-round-Pending}
use venti.Examples.{kernel, world, call_one, one_buffer}

abbrev quiet_event : Event ℕ
quiet_event = event_of (λ _ _. [])

-- Each call reads from the socket of its number.
abbrev read_from : ℕ → Ask ℕ
read_from a = record { sock = a; ev = quiet_event; req = to_read one_buffer }

-- The sockets 0 and 2 are registered, and the kernel reports both.
abbrev Both : ℕ → Type 0
Both q = (q ≡ 0) ⊎ (q ≡ 2)

abbrev two_ready : List EpollEvent
two_ready = record { events = 1; ptr = 0 } ∷ record { events = 1; ptr = 2 } ∷ []

abbrev call_cost : Event ℕ → ℕ
call_cost e = suc (length (complete e))

abbrev step : ℕ → World ℕ ℕ → World ℕ ℕ
step = ask (kernel (pos 7) (pos 9) two_ready) read_from

quiet_complete : (r : Event ℕ) → r.cb ≡ quiet_event.cb → complete r ≡ []
unfolding complete
quiet_complete r h = ap (λ (f : Callback ℕ). f r.res r.error) h

one_call :
    (w : World ℕ ℕ) (a : ℕ)
    → Submits (w.socks a).ev quiet_event (view w) (view (step a w))
    → (added : List (Event ℕ)) × ((step a w).waitset ≡ w.waitset ++ added)
      × AllDue added
      × (total call_cost added ≤ 1)
one_call w a (begin e) = ([], ap (λ p. p.done) e ∙ sym (append-nil w.waitset), tt, omega arith)
one_call w a (at_once r result e) = (
  r ∷ [],
  ap (λ p. p.done) e,
  (result.due, tt),
  omega (arith, ap (length {A = ℕ}) (quiet_complete r result.same_cb)),
)

calls_add :
    (calls : List ℕ) (w : World ℕ ℕ)
    → (added : List (Event ℕ)) × ((perform_all step calls w).waitset ≡ w.waitset ++ added)
      × AllDue added
      × (total call_cost added ≤ length calls)
unfolding perform_all
calls_add [] w = ([], sym (append-nil w.waitset), tt, omega arith)
calls_add (a ∷ rest) w =
    let (x, e, d, c) =
      one_call w a (ask-Submits (kernel (pos 7) (pos 9) two_ready) read_from a w) in
    let (y, e', d', c') = calls_add rest (step a w) in
    (
      x ++ y,
      e' ∙ ap (λ l. l ++ y) e ∙ append_assoc w.waitset x y,
      AllDue-append x y d d',
      omega (arith, total-append call_cost x y, c, c'),
    )

behaves : (e : Event ℕ) (w : World ℕ ℕ) → Adds call_cost e w (perform_all step (complete e) w)
behaves e w =
    let (added, h, due, c) = calls_add (complete e) w in
    record { added = added; extended = h; due = due; cheaper = omega (arith, c) }

-- A completion waits whose callback makes the call 1, and nothing is under way.
abbrev one_waits : World ℕ ℕ
one_waits = record (world noop false) { waitset = record call_one { status = completed } ∷ [] }

one_waits-IsSafe : IsSafe Both one_waits
one_waits-IsSafe = record { aimed = λ q h. (1, refl); owned = λ q r. (q, refl) }

due : AllDue one_waits.waitset
unfolding is_due
due = (refl, tt)

affordable : total call_cost one_waits.waitset < 3
unfolding complete
affordable = omega arith

one_waits-Pending : Pending (λ _. true) (view one_waits) 1
unfolding held_as map_get
one_waits-Pending = record { table = []; sorted = tt; matches = λ k. refl; counts = refl }

run-round-Pending_example :
    (w' w'' : World ℕ ℕ) × (later : List (Event ℕ)) × (called : Dispatched step w' one_waits
      (one_waits.waitset ++ later))
    × (m : ℕ) × (run step (wait (kernel (pos 7) (pos 9) two_ready) 0) 3 5 one_waits
        ≡ run step (wait (kernel (pos 7) (pos 9) two_ready) 0) 3 4 w'')
    × (wait (kernel (pos 7) (pos 9) two_ready) 0 w' ≡ some w'')
    × Pending (λ _. true) (view w'') m
    × (m
          + waiting_count (λ _. true) (one_waits.waitset ++ later)
          + many (λ _. true) (replaced_in (kernel (pos 7) (pos 9) two_ready) read_from called)
        ≡ 1 + many (λ _. true) (opened_by read_from (one_waits.waitset ++ later)))
run-round-Pending_example =
    run-round-Pending (kernel (pos 7) (pos 9) two_ready) 0 Both (λ fd o. (inl refl, (inr refl, tt)))
      (λ fd o. (refl, (refl, tt))) read_from call_cost behaves (λ _. true) 3 4 1 one_waits
      one_waits-IsSafe refl due affordable one_waits-Pending
