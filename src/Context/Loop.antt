-- ===== src/Context/Loop.antt =====
-- How `Context::Run` (venti/context.h) ends.
use venti.Prelude.{ℕ, suc, ◌≡◌, refl, ◌∙◌, true, false, Option, none, some, arith}
use venti.World.{World}
use venti.Context.{pass, run, Exit, returned, fault, out_of_fuel}

module _ {A S : Type 0} (perform : A → World A S → World A S)
    (poll : World A S → Option (World A S)) (inner f : ℕ) (w : World A S) where
  -- A loop whose flag is down returns at once.
  pub run_stopped : w.can_continue ≡ false → run perform poll inner (suc f) w ≡ returned w
  unfolding run
  run_stopped h = rw h

  -- A `for` loop whose fuel runs out.
  pub run_short :
      w.can_continue ≡ true
      → pass perform inner 0 w ≡ none
      → run perform poll inner (suc f) w ≡ out_of_fuel
  unfolding run
  run_short h p = ground arith

  pub run_round :
      {w' w'' : World A S}
      → w.can_continue ≡ true
      → pass perform inner 0 w ≡ some w'
      → poll w' ≡ some w''
      → run perform poll inner (suc f) w ≡ run perform poll inner f w''
  unfolding run
  run_round h p q = ground arith

  run_fault :
      {w' : World A S}
      → w.can_continue ≡ true
      → pass perform inner 0 w ≡ some w'
      → poll w' ≡ none
      → run perform poll inner (suc f) w ≡ fault
  unfolding run
  run_fault h p q = ground arith

-- What `Run` comes to after its last `Wait`.
abbrev pub exit_of : {W : Type 0} → Option W → Exit W
exit_of none = fault
exit_of (some w) = returned w

module _ {A S : Type 0} (perform : A → World A S → World A S)
    (poll : World A S → Option (World A S)) (inner f : ℕ) (w w' : World A S) where
  -- When the callbacks of a round take the flag down, and `Wait` leaves it so, `Run` still calls
  -- `Wait` once more, and ends as that call does.
  pub run-stop :
      w.can_continue ≡ true
      → pass perform inner 0 w ≡ some w'
      → w'.can_continue ≡ false
      → ((v : World A S) → poll w' ≡ some v → v.can_continue ≡ w'.can_continue)
      → run perform poll inner (suc (suc f)) w ≡ exit_of (poll w')
  run-stop h p down keeps = by_poll (poll w') refl
    where
      by_poll :
          (o : Option (World A S))
          → poll w' ≡ o
          → run perform poll inner (suc (suc f)) w ≡ exit_of o
      by_poll none e = run_fault perform poll inner (suc f) w h p e
      by_poll (some v) e =
          run_round perform poll inner (suc f) w h p e
          ∙ run_stopped perform poll inner f v (keeps v e ∙ down)
