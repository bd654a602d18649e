-- ===== src/Epoll/Safety.antt =====
-- `Context::Run` (venti/context.h) over `Epoll::Wait` (venti/platform/linux/epollimpl.h), for any
-- number of rounds.
use venti.Prelude.{
  ℕ, zero, suc, ◌≡◌, ◌≢◌, ap, sym, subst, ◌∙◌, List, [], ◌∷◌, true, some, inl, inr, Bool-cases,
  Option-cases, get_elem?, length, ◌++◌, ◌≤◌, ◌<◌,
}
use venti.Prelude.Int.{ℤ}
use venti.Event.{Event, complete}
use venti.Os.{Os, EpollEvent}
use venti.World.{World}
use venti.Context.{is_due, perform_all, dispatch, pass, run, fault}
use venti.Context.Pass.{AllDue, total, Adds, pass-Dispatched}
use venti.Context.Loop.{run_stopped, run_short, run_round}
use venti.Epoll.Local.{IsAimed, IsLocal}
use venti.Epoll.Steps.{Holds}
use venti.Epoll.Stepping.{IsOwned, AllOwned, wait-Advances, local-IsOwned, local-IsAimed}
use venti.Epoll.Wait.{wait}

-- The events are of registered slots.
abbrev pub AllOf : (ℕ → Type 0) → List EpollEvent → Type 0
AllOf reg [] = Unit {0}
AllOf reg (e ∷ es) = reg e.ptr × AllOf reg es

-- Every ACCEPT under way has a socket to accept into, and every registered slot has had a
-- submission.
pub record IsSafe {A S : Type 0} (reg : ℕ → Type 0) (w : World A S) : Type 0 where
  pub aimed : (q : ℕ) → IsAimed (w.evs q)
  pub owned : (q : ℕ) → reg q → IsOwned (w.evs q)

module _ {A S : Type 0} (reg : ℕ → Type 0) where
  pub IsLocal-IsSafe : {s : ℕ} {w w' : World A S} → IsLocal s w w' → IsSafe reg w → IsSafe reg w'
  IsLocal-IsSafe h k = record {
    aimed = local-IsAimed h k.aimed;
    owned = λ q r. local-IsOwned h q (k.owned q r);
  }

  pub AllOf-AllOwned :
      (es : List EpollEvent) (w : World A S) → IsSafe reg w → AllOf reg es → AllOwned es w.evs
  AllOf-AllOwned [] w k a = tt
  AllOf-AllOwned (e ∷ es) w k a = (k.owned e.ptr a.0, AllOf-AllOwned es w k a.1)

module _ {A S : Type 0} (os : Os S) (siginfo : ℕ) (reg : ℕ → Type 0)
    (reports : (fd : ℤ) (o : S) → AllOf reg (os.epoll_wait fd 128 o).0)
    (perform : A → World A S → World A S)
    (keeps : (a : A) (w : World A S) → IsSafe reg w → IsSafe reg (perform a w)) where
  pub wait-IsSafe :
      (w : World A S)
      → IsSafe reg w
      → (w' : World A S) × (wait os siginfo w ≡ some w') × IsSafe reg w'
  wait-IsSafe w k =
      let (w', did, h) =
        wait-Advances os siginfo w k.aimed (AllOf-AllOwned reg _ w k (reports w.epoll w.os)) in
      (w', did, record { aimed = h.aimed k.aimed; owned = λ q r. h.owned q (k.owned q r) })

  perform_all-IsSafe :
      (calls : List A) (w : World A S) → IsSafe reg w → IsSafe reg (perform_all perform calls w)
  unfolding perform_all
  perform_all-IsSafe [] w k = k
  perform_all-IsSafe (a ∷ rest) w k = perform_all-IsSafe rest (perform a w) (keeps a w k)

  dispatch-IsSafe :
      (i : ℕ) (ev : Event A) (w : World A S) → IsSafe reg w → IsSafe reg (dispatch perform i ev w)
  unfolding dispatch
  dispatch-IsSafe i ev w k =
      let k' : IsSafe reg (perform_all perform (complete ev) w) =
        perform_all-IsSafe (complete ev) w k in
      record { aimed = k'.aimed; owned = k'.owned }

  pub pass-IsSafe :
      (f i : ℕ) (w : World A S) → IsSafe reg w → Holds (IsSafe reg) (pass perform f i w)
  unfolding pass
  pass-IsSafe zero i w k = tt
  pass-IsSafe (suc f) i w k = elim (Option-cases (get_elem? w.waitset i)) [
    | inl at_end ↦ rw (at_end, Holds) k
    | inr (ev, found) ↦
        rw (found, Holds)
          (elim (Bool-cases (is_due ev.status)) [
            | inl due ↦ rw (due, Holds) (pass-IsSafe f i _ (dispatch-IsSafe i ev w k))
            | inr waits ↦ rw (waits, Holds) (pass-IsSafe f (suc i) w k)
          ])
  ]

  -- If the kernel reports only registered slots, each of which has had a submission, if every ACCEPT
  -- under way has a socket to accept into, and if the calls that callbacks make keep this so, then
  -- `Run` never dereferences a null pointer, however many rounds it makes.
  pub run-IsSafe :
      (inner f : ℕ) (w : World A S) → IsSafe reg w → run perform (wait os siginfo) inner f w ≢ fault
  unfolding run
  run-IsSafe inner zero w k = λ h. cc
  run-IsSafe inner (suc f) w k = elim (Bool-cases w.can_continue) [
    | inr down ↦
        subst (λ x. x ≢ fault) (sym (run_stopped perform (wait os siginfo) inner f w down))
          (λ h. cc)
    | inl up ↦ elim (Option-cases (pass perform inner 0 w)) [
      | inl short ↦
          subst (λ x. x ≢ fault) (sym (run_short perform (wait os siginfo) inner f w up short))
            (λ h. cc)
      | inr (w', passed) ↦
          let (w'', waited, k'') =
            wait-IsSafe w' (subst (Holds (IsSafe reg)) passed (pass-IsSafe inner 0 w k)) in
          subst (λ x. x ≢ fault)
            (sym (run_round perform (wait os siginfo) inner f w up passed waited))
            (run-IsSafe inner f w'' k'')
    ]
  ]

  module _ (cost : Event A → ℕ)
      (behaves : (e : Event A) (w : World A S)
        → Adds cost e w (perform_all perform (complete e) w)) where
    pass_ends :
        (inner : ℕ) (w : World A S)
        → IsSafe reg w
        → AllDue w.waitset
        → total cost w.waitset < inner
        → (w' : World A S) × (pass perform inner 0 w ≡ some w') × (w'.waitset ≡ []) × IsSafe reg w'
    pass_ends inner w k due enough =
        let (w', later, passed, did, all) =
          pass-Dispatched perform cost behaves inner w due enough in
        (w', passed, all, subst (Holds (IsSafe reg)) passed (pass-IsSafe inner 0 w k))

    -- If the kernel reports only registered slots, each of which has had a submission, if every
    -- ACCEPT under way has a socket to accept into, if the calls that callbacks make keep this so,
    -- and if each callback adds events that are due and cost less than its own, then a round of
    -- `Run` whose events are due, with fuel above the cost of the wait set, is completed: it
    -- dispatches all that waits, comes back from `Wait`, and goes on in a world that meets the
    -- conditions on slots and accepts again, with at most one completion, ready to dispatch, for
    -- each event that the kernel reported.
    pub run-round :
        (inner f : ℕ) (w : World A S)
        → IsSafe reg w
        → w.can_continue ≡ true
        → AllDue w.waitset
        → total cost w.waitset < inner
        → (w' w'' : World A S) × (pass perform inner 0 w ≡ some w')
          × (w'.waitset ≡ [])
          × (run perform (wait os siginfo) inner (suc f) w
              ≡ run perform (wait os siginfo) inner f w'')
          × IsSafe reg w''
          × AllDue w''.waitset
          × (length w''.waitset ≤ length (os.epoll_wait w'.epoll 128 w'.os).0)
    run-round inner f w k up due enough =
        let (w', passed, all, k') = pass_ends inner w k due enough in
        let (w'', waited, h) =
          wait-Advances os siginfo w' k'.aimed
            (AllOf-AllOwned reg _ w' k' (reports w'.epoll w'.os)) in
        let kept : w''.waitset ≡ h.added = h.extended ∙ ap (λ l. l ++ h.added) all in
        (
          w',
          w'',
          passed,
          all,
          run_round perform (wait os siginfo) inner f w up passed waited,
          record { aimed = h.aimed k'.aimed; owned = λ q r. h.owned q (k'.owned q r) },
          subst AllDue (sym kept) h.due,
          subst (λ l. length l ≤ length (os.epoll_wait w'.epoll 128 w'.os).0) (sym kept) h.few,
        )
