-- ===== src/Epoll/Asking.antt =====
-- Callbacks whose calls are submissions to `Epoll` (venti/platform/linux/epoll.h).
use venti.Prelude.{ℕ, ◌+◌, ◌≡◌, refl, Bool, List, [], ◌∷◌, ◌++◌, Option, none, some, arith}
use venti.Event.{Event, Callback}
use venti.Os.{Os}
use venti.World.{World}
use venti.Context.{perform_all}
use venti.Handler.{Submits}
use venti.Handler.Ledger.{many, maybe_count, Pending, Pending-Submits, many-append}
use venti.Epoll.Request.{Request, submit, submit-Outcome, submit-Submits}
use venti.Epoll.View.{view}
use venti.Epoll.Local.{IsLocal}
use venti.Epoll.Safety.{IsSafe, IsLocal-IsSafe}

-- The submission that a call makes: for which socket, with which event, and of what kind.
pub record Ask (A : Type 0) : Type 0 where
  pub sock : ℕ
  pub ev : Event A
  pub req : Request

abbrev world_or : {A S : Type 0} → World A S → Option (World A S) → World A S
world_or w none = w
world_or w (some w') = w'

abbrev pub callbacks : {A : Type 0} → Option (Event A) → List (Callback A)
callbacks none = []
callbacks (some e) = e.cb ∷ []

-- The callbacks that calls hand over.
abbrev pub opened : {A : Type 0} → (A → Ask A) → List A → List (Callback A)
opened asks [] = []
opened asks (a ∷ rest) = (asks a).ev.cb ∷ opened asks rest

module _ {A S : Type 0} (os : Os S) (asks : A → Ask A) where
  -- One call.
  unfoldable pub ask : A → World A S → World A S
  ask a w = world_or w (submit os (asks a).sock (asks a).ev w (asks a).req)

  -- The callbacks under way that calls replace.
  unfoldable pub replaced : List A → World A S → List (Callback A)
  replaced [] w = []
  replaced (a ∷ rest) w =
      callbacks ((view w).under_way (w.socks (asks a).sock).ev) ++ replaced rest (ask a w)

  ask-IsLocal : (a : A) (w : World A S) → IsLocal (asks a).sock w (ask a w)
  unfolding ask
  ask-IsLocal a w =
      let (w', did, o, local) = submit-Outcome os (asks a).sock (asks a).ev w (asks a).req in
      rw did local

  pub ask-IsSafe : (reg : ℕ → Type 0) (a : A) (w : World A S) → IsSafe reg w → IsSafe reg (ask a w)
  ask-IsSafe reg a w k = IsLocal-IsSafe reg (ask-IsLocal a w) k

  pub ask-Submits :
      (a : A) (w : World A S)
      → Submits (w.socks (asks a).sock).ev (asks a).ev (view w) (view (ask a w))
  unfolding ask
  ask-Submits a w =
      let (w', did, h) = submit-Submits os (asks a).sock (asks a).ev w (asks a).req in rw did h

  module _ (test : Callback A → Bool) where
    many-callbacks : (o : Option (Event A)) → many test (callbacks o) ≡ maybe_count test o
    many-callbacks none = refl
    many-callbacks (some e) = omega arith

    -- What all the calls of a callback do to the account.
    pub Pending-perform_all :
        (calls : List A) (w : World A S) (n : ℕ)
        → Pending test (view w) n
        → (m : ℕ) × Pending test (view (perform_all ask calls w)) m
          × (m + many test (replaced calls w) ≡ n + many test (opened asks calls))
    unfolding perform_all replaced
    Pending-perform_all [] w n h = (n, h, refl)
    Pending-perform_all (a ∷ rest) w n h =
        let k : ℕ = (w.socks (asks a).sock).ev in
        let (m, kept, sum) =
          Pending-Submits test k (asks a).ev (view w) (view (ask a w)) n h (ask-Submits a w) in
        let (m', kept', sum') = Pending-perform_all rest (ask a w) m kept in
        (
          m',
          kept',
          omega (
            arith,
            sum,
            sum',
            many-append test (callbacks ((view w).under_way k)) (replaced rest (ask a w)),
            many-callbacks ((view w).under_way k),
          ),
        )
