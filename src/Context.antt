-- ===== src/Context.antt =====
-- venti/context.h: the completions that wait to be dispatched, and the loop that dispatches them.
-- On Linux `PLT_LOCK` is empty, so the loop and the submissions are one thread.
pub mod Pass
pub mod Loop
use venti.Prelude.{
  ℕ, zero, suc, List, [], ◌∷◌, ◌++◌, Bool, true, false, Option, none, some, get_elem?, erase_idx,
}
use venti.Event.{Event, EvStat, waiting, completed, err, complete}
use venti.World.{World}

-- The test at the head of `SubmitComplete`.
unfoldable pub settled : EvStat → EvStat
settled waiting = completed
settled completed = completed
settled err = err

-- The list after `SubmitComplete`.
abbrev pub enqueue : {A : Type 0} → Event A → List (Event A) → List (Event A)
enqueue ev waitset = waitset ++ record ev { status = settled ev.status } ∷ []

module _ {A S : Type 0} where
  -- `SubmitComplete`
  unfoldable pub submit_complete : Event A → World A S → World A S
  submit_complete ev w = record w { waitset = enqueue ev w.waitset }

  -- `End`
  unfoldable pub stop : World A S → World A S
  stop w = record w { can_continue = false }

unfoldable pub is_due : EvStat → Bool
is_due waiting = false
is_due completed = true
is_due err = true

-- How a run of the loop ends within its fuel: by the flag, by a null dereference, or not yet.
pub data Exit (W : Type 0) : Type 0 where
  returned : W → Exit W
  fault : Exit W
  out_of_fuel : Exit W

-- `perform a w` is the effect of one call that a callback makes, `poll` is `handler_.Wait()`.
module _ {A S : Type 0} (perform : A → World A S → World A S) where
  unfoldable pub perform_all : List A → World A S → World A S
  perform_all [] w = w
  perform_all (a ∷ rest) w = perform_all rest (perform a w)

  -- `i->Complete(); i = waitset_.erase(i);` with `i` the element at a position.
  unfoldable pub dispatch : ℕ → Event A → World A S → World A S
  dispatch i ev w =
      let w' : World A S = perform_all (complete ev) w in
      record w' { waitset = erase_idx w'.waitset i }

  -- The `for` loop from the position `i`; the end is looked up in each round, so it reaches what the
  -- callbacks add. `none` if the fuel runs out.
  unfoldable pub pass : ℕ → ℕ → World A S → Option (World A S)
  pass zero i w = none
  pass (suc f) i w = elim (get_elem? w.waitset i) [
    | none ↦ some w
    | some ev ↦ elim (is_due ev.status) [
      | true ↦ pass f i (dispatch i ev w)
      | false ↦ pass f (suc i) w
    ]
  ]

  -- `Run`, with fuel for its rounds and for the `for` loop of each.
  unfoldable pub run : (World A S → Option (World A S)) → ℕ → ℕ → World A S → Exit (World A S)
  run poll inner zero w = out_of_fuel
  run poll inner (suc f) w = elim w.can_continue [
    | false ↦ returned w
    | true ↦ elim (pass inner 0 w) [
      | none ↦ out_of_fuel
      | some w' ↦ elim (poll w') [ none ↦ fault | some w'' ↦ run poll inner f w'' ]
    ]
  ]
