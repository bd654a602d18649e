-- ===== src/Handler/Ledger.antt =====
-- Keeping account of callbacks: what an event handler promises (`Handler`), and the loop's dispatch
-- (venti/context.h), neither lose nor repeat one.
use venti.Prelude.{
  ℕ, ◌+◌, ◌≡◌, refl, ap, sym, subst, ◌∙◌, Bool, List, [], ◌∷◌, ◌++◌, Option, none, some, arith,
  ◌==◌, ltb, if◌then◌else◌, inl, inr, Bool-cases, ltb→lt,
}
use venti.Event.{Event, Callback}
use venti.Handler.{
  Progress, IsResult, begun, finished, Submits, begin, at_once, Handles, stay, finish, Serves, over,
  then_,
}
use venti.Win.Map.{map_get, map_put, map_erase}
use venti.Win.Map.Laws.{map_get-map_put}
use venti.Win.Map.Sorted.{Sorted, Sorted-map_put, map_get-Above, Above-trans}
use venti.Win.Map.Erase.{Sorted-map_erase, map_get-map_erase}

-- How many callbacks meet a test: in a list of them, in events, and in a table of operations.
module _ {A : Type 0} (test : Callback A → Bool) where
  abbrev pub one : Callback A → ℕ
  one f = if test f then 1 else 0

  abbrev pub many : List (Callback A) → ℕ
  many [] = 0
  many (f ∷ fs) = one f + many fs

  abbrev pub waiting_count : List (Event A) → ℕ
  waiting_count [] = 0
  waiting_count (e ∷ es) = one e.cb + waiting_count es

  abbrev pub table_count : List (ℕ × Event A) → ℕ
  table_count [] = 0
  table_count ((k, e) ∷ m) = one e.cb + table_count m

  abbrev pub maybe_count : Option (Event A) → ℕ
  maybe_count none = 0
  maybe_count (some e) = one e.cb

  pub many-append : (xs ys : List (Callback A)) → many (xs ++ ys) ≡ many xs + many ys
  many-append [] ys = omega arith
  many-append (x ∷ xs) ys = omega (arith, many-append xs ys)

  pub waiting_count-append :
      (xs ys : List (Event A)) → waiting_count (xs ++ ys) ≡ waiting_count xs + waiting_count ys
  waiting_count-append [] ys = omega arith
  waiting_count-append (x ∷ xs) ys = omega (arith, waiting_count-append xs ys)

  table_count-map_put :
      (k : ℕ) (e : Event A) (m : List (ℕ × Event A))
      → Sorted m
      → table_count (map_put k e m) + maybe_count (map_get k m) ≡ table_count m + one e.cb
  unfolding map_put map_get
  table_count-map_put k e [] s = omega arith
  table_count-map_put k e ((x, u) ∷ m) (a, s) = elim (Bool-cases (k == x)) [
    | inl same ↦ rw same (omega arith)
    | inr other ↦ elim (Bool-cases (ltb k x)) [
      | inl below ↦
          let gone : map_get k m ≡ none =
            map_get-Above k m (Above-trans k x m (ltb→lt k x below) a) in
          rw (other, below, gone) (omega arith)
      | inr above ↦ rw (other, above) (omega (arith, table_count-map_put k e m s))
    ]
  ]

  table_count-map_erase :
      (k : ℕ) (m : List (ℕ × Event A))
      → table_count (map_erase k m) + maybe_count (map_get k m) ≡ table_count m
  unfolding map_erase map_get
  table_count-map_erase k [] = omega arith
  table_count-map_erase k ((x, u) ∷ m) = elim (Bool-cases (k == x)) [
    | inl same ↦ rw same (omega arith)
    | inr other ↦ rw other (omega (arith, table_count-map_erase k m))
  ]

-- The number of callbacks that are under way or wait, by a test.
pub record Pending {A : Type 0} (test : Callback A → Bool) (p : Progress A) (n : ℕ) : Type 0 where
  pub table : List (ℕ × Event A)
  pub sorted : Sorted table
  pub matches : (k : ℕ) → p.under_way k ≡ map_get k table
  pub counts : waiting_count test p.done + table_count test table ≡ n

module _ {A : Type 0} (test : Callback A → Bool) where
  pub one-same_cb : (ev r : Event A) → IsResult ev r → one test r.cb ≡ one test ev.cb
  one-same_cb ev r h = ap (one test) h.same_cb

  Pending-begun :
      (k : ℕ) (ev : Event A) (p : Progress A) (n : ℕ)
      → Pending test p n
      → (m : ℕ) × Pending test (begun k ev p) m
        × (m + maybe_count test (p.under_way k) ≡ n + one test ev.cb)
  Pending-begun k ev p n h =
      let t : List (ℕ × Event A) = map_put k ev h.table in
      (
        waiting_count test p.done + table_count test t,
        record {
          table = t;
          sorted = Sorted-map_put k ev h.table h.sorted;
          matches = λ j. ground (arith, h.matches j, map_get-map_put j k ev h.table);
          counts = refl;
        },
        rw (h.matches k) (omega (arith, table_count-map_put test k ev h.table h.sorted, h.counts)),
      )

  Pending-finished :
      (k : ℕ) (r : Event A) (p : Progress A) (n : ℕ)
      → Pending test p n
      → (m : ℕ) × Pending test (finished k r p) m
        × (m + maybe_count test (p.under_way k) ≡ n + one test r.cb)
  Pending-finished k r p n h =
      let t : List (ℕ × Event A) = map_erase k h.table in
      (
        waiting_count test (p.done ++ r ∷ []) + table_count test t,
        record {
          table = t;
          sorted = Sorted-map_erase k h.table h.sorted;
          matches = λ j. ground (arith, h.matches j, map_get-map_erase j k h.table h.sorted);
          counts = refl;
        },
        rw (h.matches k) (
            omega (
              arith,
              table_count-map_erase test k h.table,
              h.counts,
              waiting_count-append test p.done (r ∷ []),
            )),
      )

  -- A submission adds its callback, and loses the one that was under way at its key.
  pub Pending-Submits :
      (k : ℕ) (ev : Event A) (p q : Progress A) (n : ℕ)
      → Pending test p n
      → Submits k ev p q
      → (m : ℕ) × Pending test q m × (m + maybe_count test (p.under_way k) ≡ n + one test ev.cb)
  Pending-Submits k ev p q n h (begin e) =
      let (m, kept, sum) = Pending-begun k ev p n h in
      (m, subst (λ x. Pending test x m) (sym e) kept, sum)
  Pending-Submits k ev p q n h (at_once r result e) =
      let (m, kept, sum) = Pending-finished k r p n h in
      (
        m,
        subst (λ x. Pending test x m) (sym e) kept,
        sum ∙ ap (λ c. n + c) (one-same_cb ev r result),
      )

  -- A report neither adds nor loses one.
  pub Pending-Handles :
      (k : ℕ) (p q : Progress A) (n : ℕ) → Pending test p n → Handles k p q → Pending test q n
  Pending-Handles k p q n h (stay e) = subst (λ x. Pending test x n) (sym e) h
  Pending-Handles k p q n h (finish ev r busy result e) =
      let (m, kept, sum) = Pending-finished k r p n h in
      let same : m ≡ n = omega (arith, sum, one-same_cb ev r result, ap (maybe_count test) busy) in
      subst (Pending test q) same (subst (λ x. Pending test x m) (sym e) kept)

  pub Pending-Serves :
      {k : ℕ} {p q : Progress A} (n : ℕ) → Pending test p n → Serves k p q → Pending test q n
  Pending-Serves n h over = h
  Pending-Serves n h (then_ k handled served) =
      Pending-Serves n (Pending-Handles k _ _ n h handled) served
