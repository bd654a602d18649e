-- ===== src/Epoll/Ledger.antt =====
-- Keeping account of callbacks over a round of `Context::Run` (venti/context.h) with `Epoll::Wait`.
use venti.Prelude.{
  ℕ, suc, ◌+◌, ◌<◌, ◌≡◌, refl, ap, subst, ◌∙◌, Bool, true, List, [], ◌∷◌, ◌++◌, some, arith,
  erase_idx,
}
use venti.Prelude.Int.{ℤ}
use venti.Event.{Event, Callback, complete}
use venti.Os.{Os}
use venti.World.{World}
use venti.Context.{perform_all, dispatch, run}
use venti.Context.Pass.{AllDue, total, Adds, Dispatched, empty, next, pass-Dispatched}
use venti.Context.Loop.{run_round}
use venti.Handler.Ledger.{
  one, many, waiting_count, table_count, Pending, Pending-Serves, many-append,
}
use venti.Epoll.View.{view}
use venti.Epoll.Wait.{wait}
use venti.Epoll.Steps.{Holds}
use venti.Epoll.Refinement.{NoError, wait-Serves}
use venti.Epoll.Safety.{AllOf, IsSafe, AllOf-AllOwned, pass-IsSafe}
use venti.Epoll.Asking.{Ask, ask, ask-IsSafe, opened, replaced, Pending-perform_all}

module _ {A S : Type 0} (test : Callback A → Bool) where
  -- The event at the head of the wait set is erased.
  Pending-erase :
      (e : Event A) (l : List (Event A)) (v : World A S) (n : ℕ)
      → v.waitset ≡ e ∷ l
      → Pending test (view v) n
      → (m : ℕ) × Pending test (view (record v { waitset = erase_idx v.waitset 0 })) m
        × (m + one test e.cb ≡ n)
  Pending-erase e l v n h p = (
    waiting_count test l + table_count test p.table,
    record { table = p.table; sorted = p.sorted; matches = p.matches; counts = rw h refl },
    omega (arith, p.counts, ap (waiting_count test) h),
  )

-- The callbacks that the calls of dispatched events hand over.
abbrev pub opened_by : {A : Type 0} → (A → Ask A) → List (Event A) → List (Callback A)
opened_by asks [] = []
opened_by asks (e ∷ es) = opened asks (complete e) ++ opened_by asks es

module _ {A S : Type 0} (os : Os S) (asks : A → Ask A) where
  -- The callbacks that the calls of dispatched events replace.
  unfoldable pub replaced_in :
      {w' w : World A S} {es : List (Event A)}
      → Dispatched (ask os asks) w' w es
      → List (Callback A)
  replaced_in (empty h) = []
  replaced_in (next {w} {e} h d) = replaced os asks (complete e) w ++ replaced_in d

  module _ (test : Callback A → Bool) (cost : Event A → ℕ)
      (behaves : (e : Event A) (w : World A S)
        → Adds cost e w (perform_all (ask os asks) (complete e) w)) where
    Pending-dispatch :
        (e : Event A) (rest : List (Event A)) (w : World A S) (n : ℕ)
        → w.waitset ≡ e ∷ rest
        → Pending test (view w) n
        → (m : ℕ) × Pending test (view (dispatch (ask os asks) 0 e w)) m
          × (m + one test e.cb + many test (replaced os asks (complete e) w)
              ≡ n + many test (opened asks (complete e)))
    unfolding dispatch
    Pending-dispatch e rest w n h p =
        let v : World A S = perform_all (ask os asks) (complete e) w in
        let (m, kept, sum) = Pending-perform_all os asks test (complete e) w n p in
        let b : Adds cost e w v = behaves e w in
        let (m', kept', sum') =
          Pending-erase test e (rest ++ b.added) v m (b.extended ∙ ap (λ l. l ++ b.added) h) kept in
        (m', kept', omega (arith, sum, sum'))

    Pending-Dispatched :
        {w' w : World A S} {es : List (Event A)} (d : Dispatched (ask os asks) w' w es) (n : ℕ)
        → Pending test (view w) n
        → (m : ℕ) × Pending test (view w') m
          × (m + waiting_count test es + many test (replaced_in d)
              ≡ n + many test (opened_by asks es))
    unfolding replaced_in
    Pending-Dispatched (empty h) n p = (n, p, omega arith)
    Pending-Dispatched (next {w} {e} {rest} {es} h d) n p =
        let (m, kept, sum) = Pending-dispatch e rest w n h p in
        let (m', kept', sum') = Pending-Dispatched d m kept in
        (
          m',
          kept',
          omega (
            arith,
            sum,
            sum',
            many-append test (replaced os asks (complete e) w) (replaced_in d),
            many-append test (opened asks (complete e)) (opened_by asks es),
          ),
        )

module _ {A S : Type 0} (os : Os S) (siginfo : ℕ) (reg : ℕ → Type 0)
    (reports : (fd : ℤ) (o : S) → AllOf reg (os.epoll_wait fd 128 o).0)
    (fine : (fd : ℤ) (o : S) → NoError (os.epoll_wait fd 128 o).0) (asks : A → Ask A)
    (cost : Event A → ℕ)
    (behaves : (e : Event A) (w : World A S)
      → Adds cost e w (perform_all (ask os asks) (complete e) w)) where
  -- If the kernel reports only registered slots, each of which has had a submission, and no error, if
  -- every ACCEPT under way has a socket to accept into, if each call of a callback is a submission,
  -- and if each callback adds events that are due and cost less than its own, then a round of `Run`
  -- whose events are due, with fuel above the cost of the wait set, is completed, and it keeps account
  -- of every callback: by any test, those that were under way or waited before and those that its
  -- callbacks handed over are, together, those that it called, those that are under way or wait
  -- afterwards, and those that a second submission for the same slot replaced.
  pub run-round-Pending :
      (test : Callback A → Bool) (inner f n : ℕ) (w : World A S)
      → IsSafe reg w
      → w.can_continue ≡ true
      → AllDue w.waitset
      → total cost w.waitset < inner
      → Pending test (view w) n
      → (w' w'' : World A S) × (later : List (Event A)) × (called : Dispatched
          (ask os asks)
          w'
          w
          (w.waitset ++ later))
        × (m : ℕ) × (run (ask os asks) (wait os siginfo) inner (suc f) w
            ≡ run (ask os asks) (wait os siginfo) inner f w'')
        × (wait os siginfo w' ≡ some w'')
        × Pending test (view w'') m
        × (m + waiting_count test (w.waitset ++ later) + many test (replaced_in os asks called)
            ≡ n + many test (opened_by asks (w.waitset ++ later)))
  run-round-Pending test inner f n w k up due enough p =
      let (w', later, passed, called, all) =
        pass-Dispatched (ask os asks) cost behaves inner w due enough in
      let k' : IsSafe reg w' =
        subst (Holds (IsSafe reg)) passed
          (pass-IsSafe os siginfo reg reports (ask os asks) (ask-IsSafe os asks reg) inner 0 w k) in
      let (m, kept, sum) = Pending-Dispatched os asks test cost behaves called n p in
      let (w'', waited, served) =
        wait-Serves os siginfo w' k'.aimed (AllOf-AllOwned reg _ w' k' (reports w'.epoll w'.os))
          (fine w'.epoll w'.os) in
      (
        w',
        w'',
        later,
        called,
        m,
        run_round (ask os asks) (wait os siginfo) inner f w up passed waited,
        waited,
        Pending-Serves test m kept served,
        sum,
      )
