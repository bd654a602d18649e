-- ===== src/Win/Select/View.antt =====
-- `WinSockSelect` (venti/platform/win/winevent.h) as two event handlers of the kind that `Handler`
-- describes, one for the reading sides and one for the writing sides: what a world shows of a side,
-- by the descriptors.
use venti.Prelude.{
  ℕ, ◌≡◌, refl, ap, ◌∙◌, Option, none, some, List, arith, update, if◌then◌else◌, inl, inr,
  Bool-cases,
}
use mathlib.Core.Path.{fun_ext}
use venti.Event.{Event}
use venti.Prelude.Int.{pos, ltb_zero, eqb}
use venti.Context.{settled, enqueue}
use venti.Epoll.Outcome.{settled_due}
use venti.Handler.{Progress, Progress-path, begun, finished, Submits, begin, at_once}
use venti.Win.Map.{map_get, map_put}
use venti.Win.Map.Laws.{map_get-map_put}
use venti.Win.Select.{SelData, SockEvent, SelWorld}
use venti.Win.Select.Try.{Tried}
use venti.Win.Select.Submit.{after_try, put_entry, submit_own}

module _ {A : Type 0} where
  abbrev pub held_read : SockEvent A → Option (Event A)
  held_read se = if se.ractivated then some se.rdata.event else none

  abbrev pub held_write : SockEvent A → Option (Event A)
  held_write se = if se.wactivated then some se.wdata.event else none

  -- What is under way in a table, by `held`.
  unfoldable pub under :
      (SockEvent A → Option (Event A)) → List (ℕ × SockEvent A) → ℕ → Option (Event A)
  under held table fd = elim (map_get fd table) [ none ↦ none | some se ↦ held se ]

  abbrev pub view : {F S : Type 0} → (SockEvent A → Option (Event A)) → SelWorld A F S → Progress A
  view held w = record { under_way = under held w.table; done = w.waitset }

module _ {A : Type 0} (held : SockEvent A → Option (Event A)) (fd : ℕ) where
  pub under-map_put :
      (se : SockEvent A) (m : List (ℕ × SockEvent A))
      → under held (map_put fd se m) ≡ update (under held m) fd (held se)
  unfolding under
  under-map_put se m = fun_ext λ j. ground (arith, map_get-map_put j fd se m)

  update_twice :
      (u : ℕ → Option (Event A)) (x y : Option (Event A))
      → update (update u fd x) fd y ≡ update u fd y
  update_twice u x y = fun_ext λ j. ground arith

  pub update_same : (u : ℕ → Option (Event A)) (x : Option (Event A)) → u fd ≡ x → update u fd x ≡ u
  update_same u x h = fun_ext λ j. ground arith

  -- What is put in place of an entry that was itself just put.
  pub under_again :
      (e0 e1 : SockEvent A) (m m' : List (ℕ × SockEvent A)) (x : Option (Event A))
      → m' ≡ map_put fd e0 m
      → held e1 ≡ x
      → under held (map_put fd e1 m') ≡ update (under held m) fd x
  under_again e0 e1 m m' x put same =
      under-map_put e1 m'
      ∙ ap (λ u. update u fd (held e1)) (ap (under held) put ∙ under-map_put e0 m)
      ∙ update_twice (under held m) (held e0) (held e1)
      ∙ ap (update (under held m) fd) same

  pub under_untouched :
      (e0 e1 : SockEvent A) (m m' : List (ℕ × SockEvent A))
      → m' ≡ map_put fd e0 m
      → held e1 ≡ under held m fd
      → under held (map_put fd e1 m') ≡ under held m
  under_untouched e0 e1 m m' put same =
      under_again e0 e1 m m' (under held m fd) put same
      ∙ update_same (under held m) (under held m fd) refl

  pub under_same :
      (e0 : SockEvent A) (m : List (ℕ × SockEvent A))
      → under held m fd ≡ held e0
      → under held (map_put fd e0 m) ≡ under held m
  under_same e0 m h = under-map_put e0 m ∙ update_same (under held m) (held e0) h

module _ {A F S : Type 0} (held : SockEvent A → Option (Event A)) (fd : ℕ)
    (w : SelWorld A F S) where
  -- An event just put under way.
  pub begun-put :
      (e0 : SockEvent A) (ev : Event A)
      → held e0 ≡ some ev
      → view held (record w { table = map_put fd e0 w.table }) ≡ begun fd ev (view held w)
  begun-put e0 ev h =
      Progress-path (under-map_put held fd e0 w.table ∙ ap (update (under held w.table) fd) h) refl

  -- An attempt changed nothing but the entry, from `e0`.
  pub record IsTried (e0 : SockEvent A) (t : Tried A F S) : Type 0 where
    pub waitset : t.2.waitset ≡ w.waitset
    pub table : t.2.table ≡ map_put fd e0 w.table

  module _ (e0 : SockEvent A) (keep stop : SelData A → SockEvent A) (ev : Event A) where
    submit_own-finished :
        (e : SockEvent A) (r : Event A) (v : SelWorld A F S)
        → v.waitset ≡ w.waitset
        → v.table ≡ map_put fd e0 w.table
        → held e ≡ none
        → view held (submit_own r (put_entry fd e v))
          ≡ finished fd (record r { status = settled r.status }) (view held w)
    unfolding submit_own put_entry
    submit_own-finished e r v q put h =
        Progress-path (under_again held fd e0 e w.table v.table none put h) (ap (enqueue r) q)

    put_entry-begun :
        (e : SockEvent A) (v : SelWorld A F S)
        → v.waitset ≡ w.waitset
        → v.table ≡ map_put fd e0 w.table
        → held e ≡ some ev
        → view held (put_entry fd e v) ≡ begun fd ev (view held w)
    unfolding put_entry
    put_entry-begun e v q put h =
        Progress-path (under_again held fd e0 e w.table v.table (some ev) put h) q

    finishes :
        (e : SockEvent A) (r : Event A) (v : SelWorld A F S)
        → v.waitset ≡ w.waitset
        → v.table ≡ map_put fd e0 w.table
        → held e ≡ none
        → r.cb ≡ ev.cb
        → Submits fd ev (view held w) (view held (submit_own r (put_entry fd e v)))
    finishes e r v q put h same =
        at_once (record r { status = settled r.status })
          (record { same_cb = same; due = settled_due r.status })
          (submit_own-finished e r v q put h)

    pub after_try-Submits :
        (t : Tried A F S)
        → IsTried e0 t
        → held (keep t.1) ≡ some ev
        → held (stop t.1) ≡ none
        → Submits fd ev (view held w) (view held (after_try fd keep stop ev t))
    unfolding after_try
    after_try-Submits (len, d, v) h on off = elim (Bool-cases (ltb_zero len)) [
      | inl failed ↦ rw failed (finishes (stop d) _ v h.waitset h.table off refl)
      | inr fine ↦ elim (Bool-cases (eqb len (pos 0))) [
        | inl none_yet ↦
            rw (fine, none_yet) (begin (put_entry-begun (keep d) v h.waitset h.table on))
        | inr got ↦ rw (fine, got) (finishes (stop d) _ v h.waitset h.table off refl)
      ]
    ]

module _ {A F S : Type 0} (other : SockEvent A → Option (Event A)) (fd : ℕ)
    (w : SelWorld A F S) where
  -- The other side of the entry is what it was, whatever becomes of the attempt.
  pub after_try_other :
      (e0 : SockEvent A) (keep stop : SelData A → SockEvent A) (ev : Event A) (t : Tried A F S)
      → t.2.table ≡ map_put fd e0 w.table
      → other (keep t.1) ≡ under other w.table fd
      → other (stop t.1) ≡ under other w.table fd
      → under other (after_try fd keep stop ev t).table ≡ under other w.table
  unfolding after_try put_entry submit_own
  after_try_other e0 keep stop ev (len, d, v) put on off =
      let kept : under other (map_put fd (keep d) v.table) ≡ under other w.table =
        under_untouched other fd e0 (keep d) w.table v.table put on in
      let stopped : under other (map_put fd (stop d) v.table) ≡ under other w.table =
        under_untouched other fd e0 (stop d) w.table v.table put off in
      elim (Bool-cases (ltb_zero len)) [
        | inl failed ↦ rw failed stopped
        | inr fine ↦ elim (Bool-cases (eqb len (pos 0))) [
          | inl none_yet ↦ rw (fine, none_yet) kept
          | inr got ↦ rw (fine, got) stopped
        ]
      ]
