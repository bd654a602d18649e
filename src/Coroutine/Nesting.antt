-- ===== src/Coroutine/Nesting.antt =====
-- Coroutines that await one another, each the next (venti/coroutine.h), and what comes of it when the
-- innermost ends.
use venti.Prelude.{
  ℕ, zero, suc, ◌≡◌, ◌≢◌, refl, sym, ◌∙◌, true, List, [], ◌∷◌, Option, none, some, ◌⊎◌, arith,
  length,
}
use venti.Coroutine.{
  Coros, is_done, get, await_ready, await_suspend, suspend, end_with, await_resume, set_result,
  finish_value,
}
use venti.Coroutine.Resumption.{get-outcome, await_resume-finish_value}

-- A number that differs from others, and numbers all of which differ.
abbrev Apart : ℕ → List ℕ → Type 0
Apart q [] = Unit {0}
Apart q (h ∷ hs) = (q ≢ h) × Apart q hs

abbrev pub Distinct : ℕ → List ℕ → Type 0
Distinct f [] = Unit {0}
Distinct f (h ∷ hs) = Apart f (h ∷ hs) × Distinct h hs

abbrev pub last_of : ℕ → List ℕ → ℕ
last_of f [] = f
last_of f (h ∷ hs) = last_of h hs

last_of-Apart : (q h : ℕ) (hs : List ℕ) → Apart q (h ∷ hs) → last_of h hs ≢ q
last_of-Apart q h [] (n, a) = λ e. n (sym e)
last_of-Apart q h (k ∷ hs) (n, a) = last_of-Apart q k hs a

module _ {T : Type 0} where
  -- The first of the list awaits `f`, the second the first, and so on.
  unfoldable pub awaiting_all : ℕ → List ℕ → Coros T → Coros T
  awaiting_all f [] c = c
  awaiting_all f (h ∷ hs) c = awaiting_all h hs (suspend h (await_suspend f h c))

  -- Each is stored as the one to go on after the one that it awaits, and none after the last.
  abbrev Linked : ℕ → List ℕ → Coros T → Type 0
  Linked f [] c = (c.promises f).outer ≡ none
  Linked f (h ∷ hs) c = ((c.promises f).outer ≡ some h) × Linked h hs c

  outer-await_suspend :
      (f h q : ℕ) (c : Coros T)
      → q ≢ f
      → ((suspend h (await_suspend f h c)).promises q).outer ≡ (c.promises q).outer
  unfolding await_suspend suspend
  outer-await_suspend f h q c n = ground arith

  outer-awaiting_all :
      (f : ℕ) (hs : List ℕ) (q : ℕ) (c : Coros T)
      → q ≢ f
      → Apart q hs
      → ((awaiting_all f hs c).promises q).outer ≡ (c.promises q).outer
  unfolding awaiting_all
  outer-awaiting_all f [] q c n a = refl
  outer-awaiting_all f (h ∷ hs) q c n (m, a) =
      outer-awaiting_all h hs q (suspend h (await_suspend f h c)) m a
      ∙ outer-await_suspend f h q c n

  awaited : (f h : ℕ) (c : Coros T) → ((suspend h (await_suspend f h c)).promises f).outer ≡ some h
  unfolding await_suspend suspend
  awaited f h c = ground arith

  Linked-awaiting_all :
      (f : ℕ) (hs : List ℕ) (c : Coros T)
      → Distinct f hs
      → (c.promises (last_of f hs)).outer ≡ none
      → Linked f hs (awaiting_all f hs c)
  unfolding awaiting_all
  Linked-awaiting_all f [] c d e = e
  Linked-awaiting_all f (h ∷ hs) c ((n, a), d) e = (
    outer-awaiting_all h hs f (suspend h (await_suspend f h c)) n a ∙ awaited f h c,
    Linked-awaiting_all h hs (suspend h (await_suspend f h c)) d
        (outer-await_suspend f h (last_of h hs) c (last_of-Apart f h hs (n, a)) ∙ e),
  )

module _ {T : Type 0} where
  -- All of these are at their final points.
  abbrev pub AllDone : List ℕ → Coros T → Type 0
  AllDone [] c = Unit {0}
  AllDone (q ∷ qs) c = (await_ready (some q) c ≡ some true) × AllDone qs c

  -- What the last comes to, if the first comes to `o` and `body h` says how the coroutine `h` ends, by
  -- what the one that it awaits came to.
  abbrev pub ends_with : (ℕ → T ⊎ ℕ → T ⊎ ℕ) → T ⊎ ℕ → List ℕ → T ⊎ ℕ
  ends_with body o [] = o
  ends_with body o (h ∷ hs) = ends_with body (body h o) hs

module _ {T : Type 0} (def : T) (body : ℕ → T ⊎ ℕ → T ⊎ ℕ) where
  -- `f` ends with `o`; whoever `final_suspend` names goes on, takes the result, and ends in turn. The
  -- last to end, on fuel.
  unfoldable pub unwind : ℕ → ℕ → T ⊎ ℕ → Coros T → Option (ℕ × Coros T)
  unwind zero f o c = none
  unwind (suc n) f o c =
      let (c', next) = finish_value def f o c in
      elim next [ none ↦ some (f, c') | some h ↦ unwind n h (body h (get (await_resume f c'))) c' ]

  module _ (f : ℕ) (o : T ⊎ ℕ) (c : Coros T) where
    abbrev ended : Coros T
    ended = (finish_value def f o c).0

    outer-ended : (q : ℕ) → (ended.promises q).outer ≡ (c.promises q).outer
    unfolding finish_value set_result end_with
    outer-ended q = ground arith

    next-ended : (finish_value def f o c).1 ≡ (c.promises f).outer
    unfolding finish_value set_result end_with
    next-ended = ground arith

    done-ended : await_ready (some f) ended ≡ some true
    unfolding finish_value end_with await_ready is_done
    done-ended = ground arith

    done_kept :
        (q : ℕ) → await_ready (some q) c ≡ some true → await_ready (some q) ended ≡ some true
    unfolding finish_value end_with await_ready is_done set_result
    done_kept q d = ground arith

    result-ended : get (await_resume f ended) ≡ o
    result-ended = rw (await_resume-finish_value def f o c) (get-outcome def o)

    Linked-ended : (h : ℕ) (hs : List ℕ) → Linked h hs c → Linked h hs ended
    Linked-ended h [] l = outer-ended h ∙ l
    Linked-ended h (k ∷ hs) (e, l) = (outer-ended h ∙ e, Linked-ended k hs l)

    unwind_last : (n : ℕ) → (c.promises f).outer ≡ none → unwind (suc n) f o c ≡ some (f, ended)
    unfolding unwind
    unwind_last n e =
        let next : (finish_value def f o c).1 ≡ none = next-ended ∙ e in rw (next, unwind) refl

    unwind_next :
        (n h : ℕ)
        → (c.promises f).outer ≡ some h
        → unwind (suc n) f o c ≡ unwind n h (body h o) ended
    unfolding unwind
    unwind_next n h e =
        let next : (finish_value def f o c).1 ≡ some h = next-ended ∙ e in
        rw (next, unwind, result-ended) refl

  abbrev Unwound : ℕ → List ℕ → T ⊎ ℕ → Coros T → Type 0
  Unwound f hs o c =
      (c' : Coros T) × (unwind (suc (length hs)) f o c ≡ some (last_of f hs, c'))
      × (get (await_resume (last_of f hs) c') ≡ ends_with body o hs)
      × AllDone (f ∷ hs) c'
      × ((q : ℕ) → await_ready (some q) c ≡ some true → await_ready (some q) c' ≡ some true)

  unwind-Unwound :
      (f : ℕ) (hs : List ℕ) (o : T ⊎ ℕ) (c : Coros T) → Linked f hs c → Unwound f hs o c
  unwind-Unwound f [] o c e = (
    ended f o c,
    unwind_last f o c 0 e,
    result-ended f o c,
    (done-ended f o c, tt),
    done_kept f o c,
  )
  unwind-Unwound f (h ∷ hs) o c (e, l) =
      let (c', ran, result, done, kept) =
        unwind-Unwound h hs (body h o) (ended f o c) (Linked-ended f o c h hs l) in
      (
        c',
        unwind_next f o c (suc (length hs)) h e ∙ ran,
        result,
        (kept f (done-ended f o c), done),
        λ q d. kept q (done_kept f o c q d),
      )

  -- Coroutines of one `Future<T>` type that differ, each awaiting the one before it in the list and
  -- none the last: when the first ends, with a value or an exception, each of the others goes on in
  -- turn with what the one that it awaits came to, all of them end, and the last one's result is what
  -- their bodies make of the first one's.
  pub unwind-awaiting_all :
      (f : ℕ) (hs : List ℕ) (o : T ⊎ ℕ) (c : Coros T)
      → Distinct f hs
      → (c.promises (last_of f hs)).outer ≡ none
      → (c' : Coros T) × (unwind (suc (length hs)) f o (awaiting_all f hs c)
          ≡ some (last_of f hs, c'))
        × (get (await_resume (last_of f hs) c') ≡ ends_with body o hs)
        × AllDone (f ∷ hs) c'
  unwind-awaiting_all f hs o c d e =
      let (c', ran, result, done, kept) =
        unwind-Unwound f hs o (awaiting_all f hs c) (Linked-awaiting_all f hs c d e) in
      (c', ran, result, done)
