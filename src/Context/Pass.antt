-- ===== src/Context/Pass.antt =====
-- One `for` loop of `Context::Run` (venti/context.h), as a sequence of dispatches.
use venti.Prelude.{
  ℕ, zero, suc, ◌+◌, ◌<◌, ◌≡◌, refl, ap, ◌∙◌, List, [], ◌∷◌, ◌++◌, true, none, some, arith,
  get_elem?,
}
use mathlib.Core.List.{append_assoc}
use venti.Event.{Event, complete}
use venti.World.{World}
use venti.Context.{is_due, perform_all, dispatch, pass}

-- Every event is ready to dispatch, as `SubmitComplete` leaves it.
abbrev pub AllDue : {A : Type 0} → List (Event A) → Type 0
AllDue [] = Unit {0}
AllDue (e ∷ es) = (is_due e.status ≡ true) × AllDue es

pub AllDue-append :
    {A : Type 0} (xs ys : List (Event A)) → AllDue xs → AllDue ys → AllDue (xs ++ ys)
AllDue-append [] ys h k = k
AllDue-append (x ∷ xs) ys h k = (h.0, AllDue-append xs ys h.1 k)

-- The sum of a cost over a list of events.
abbrev pub total : {A : Type 0} → (Event A → ℕ) → List (Event A) → ℕ
total cost [] = 0
total cost (e ∷ es) = cost e + total cost es

pub total-append :
    {A : Type 0} (cost : Event A → ℕ) (xs ys : List (Event A))
    → total cost (xs ++ ys) ≡ total cost xs + total cost ys
total-append cost [] ys = omega arith
total-append cost (x ∷ xs) ys = omega (arith, total-append cost xs ys)

-- What a callback may do to the wait set: add events that are due, and cost less than its own.
pub record Adds {A S : Type 0} (cost : Event A → ℕ) (e : Event A) (w w' : World A S) : Type 0 where
  pub added : List (Event A)
  pub extended : w'.waitset ≡ w.waitset ++ added
  pub due : AllDue added
  pub cheaper : total cost added < cost e

module _ {A S : Type 0} (perform : A → World A S → World A S) where
  -- From `w` the events of a list are dispatched, each from the head of the wait set, until it is
  -- empty.
  pub data Dispatched (w' : World A S) : World A S → List (Event A) → Type 0 where
    empty : w'.waitset ≡ [] → Dispatched w' w' []
    next :
        {w : World A S} {e : Event A} {rest es : List (Event A)}
        → w.waitset ≡ e ∷ rest
        → Dispatched w' (dispatch perform 0 e w) es
        → Dispatched w' w (e ∷ es)

  pub pass_end : (f : ℕ) (w : World A S) → w.waitset ≡ [] → pass perform (suc f) 0 w ≡ some w
  unfolding pass
  pass_end f w h =
      let at_end : get_elem? w.waitset 0 ≡ none = ap (λ l. get_elem? l 0) h in rw (at_end, pass)

  pub pass_step :
      (f : ℕ) (w : World A S) (e : Event A) (rest : List (Event A))
      → w.waitset ≡ e ∷ rest
      → is_due e.status ≡ true
      → pass perform (suc f) 0 w ≡ pass perform f 0 (dispatch perform 0 e w)
  unfolding pass
  pass_step f w e rest h due =
      let at_head : get_elem? w.waitset 0 ≡ some e = ap (λ l. get_elem? l 0) h in
      rw (at_head, pass, due)

  Dispatched-all : {w' w : World A S} {es : List (Event A)} → Dispatched w' w es → w'.waitset ≡ []
  Dispatched-all (empty h) = h
  Dispatched-all (next h d) = Dispatched-all d

  module _ (cost : Event A → ℕ)
      (behaves : (e : Event A) (w : World A S)
        → Adds cost e w (perform_all perform (complete e) w)) where
    dispatch_waitset :
        (e : Event A) (rest : List (Event A)) (w : World A S)
        → w.waitset ≡ e ∷ rest
        → (dispatch perform 0 e w).waitset ≡ rest ++ (behaves e w).added
    unfolding dispatch
    dispatch_waitset e rest w h = rw ((behaves e w).extended, h)

    pass_from :
        (f : ℕ) (w : World A S) (l : List (Event A))
        → w.waitset ≡ l
        → AllDue l
        → total cost l < f
        → (w' : World A S) × (later : List (Event A)) × (pass perform f 0 w ≡ some w')
          × Dispatched w' w (l ++ later)
    pass_from zero w l e due h = absurd (omega arith)
    pass_from (suc f) w [] e due h = (w, [], pass_end f w e, empty e)
    pass_from (suc f) w (x ∷ l) e due h =
        let b : Adds cost x w (perform_all perform (complete x) w) = behaves x w in
        let w1 : World A S = dispatch perform 0 x w in
        let (w', later, ran, did) =
          pass_from f w1 (l ++ b.added) (dispatch_waitset x l w e)
            (AllDue-append l b.added due.1 b.due)
            (omega (arith, total-append cost l b.added, b.cheaper)) in
        (
          w',
          b.added ++ later,
          pass_step f w x l e due.0 ∙ ran,
          next e (rw (← append_assoc l b.added later) did),
        )

    -- With fuel above the cost of what waits, the loop ends with an empty wait set: everything that
    -- waited is dispatched first and in order, then what the callbacks added, in order.
    pub pass-Dispatched :
        (f : ℕ) (w : World A S)
        → AllDue w.waitset
        → total cost w.waitset < f
        → (w' : World A S) × (later : List (Event A)) × (pass perform f 0 w ≡ some w')
          × Dispatched w' w (w.waitset ++ later)
          × (w'.waitset ≡ [])
    pass-Dispatched f w due enough =
        let (w', later, ran, did) = pass_from f w w.waitset refl due enough in
        (w', later, ran, did, Dispatched-all did)
