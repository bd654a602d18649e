-- ===== src/Epoll/View.antt =====
-- `Epoll` as an event handler of the kind that `Handler` describes: what a world shows of it.
use venti.Prelude.{ℕ, ◌≡◌, ◌≢◌, refl, ap, sym, ◌∙◌, Option, none, some, inl, inr, arith, update}
use mathlib.Core.Path.{fun_ext}
use native.Mathlib.Decide.{ℕ_discrete}
use venti.Event.{Event}
use venti.World.{World, SockEventData, EvType, noop, slot}
use venti.Handler.{
  Progress-path, Progress, IsResult, finished, Submits, begin, at_once, Handles, stay, finish,
}
use venti.Epoll.Outcome.{IsParked, IsFinished, Outcome}
use venti.Epoll.Local.{IsLocal}

-- What a slot of a type holds.
unfoldable pub held_as : {A : Type 0} → EvType → Event A → Option (Event A)
held_as noop ev = none
held_as _ ev = some ev

abbrev pub held : {A : Type 0} → SockEventData A → Option (Event A)
held d = held_as d.type d.ev

pub held_as_ne :
    {A : Type 0} (type : EvType) (ev : Event A) → type ≢ noop → held_as type ev ≡ some ev
unfolding held_as
held_as_ne noop ev h = absurd (h refl)
held_as_ne _ ev h = refl

update-at :
    {A : Type 0} (f : ℕ → Option (Event A)) (k : ℕ) (o : Option (Event A)) (q : ℕ)
    → q ≡ k
    → update f k o q ≡ o
update-at f k o q e = ground arith

update-off :
    {A : Type 0} (f : ℕ → Option (Event A)) (k : ℕ) (o : Option (Event A)) (q : ℕ)
    → q ≢ k
    → update f k o q ≡ f q
update-off f k o q e = ground arith

module _ {A S : Type 0} where
  abbrev pub view : World A S → Progress A
  view w = record { under_way = λ q. held (w.evs q); done = w.waitset }

  module _ {s : ℕ} {w w' : World A S} (h : IsLocal s w w') where
    under_way-update :
        (o : Option (Event A))
        → held (slot w' s) ≡ o
        → (view w').under_way ≡ update (view w).under_way (w.socks s).ev o
    under_way-update o e = fun_ext λ q. elim (ℕ_discrete q (w.socks s).ev) [
      | yes here ↦
          ap (λ a. held (w'.evs a)) (here ∙ sym (h.pointers s))
          ∙ e
          ∙ sym (update-at (view w).under_way (w.socks s).ev o q here)
      | no there ↦
          ap held (h.elsewhere q there)
          ∙ sym (update-off (view w).under_way (w.socks s).ev o q there)
    ]

    under_way_same : held (slot w' s) ≡ held (slot w s) → (view w').under_way ≡ (view w).under_way
    under_way_same e = fun_ext λ q. elim (ℕ_discrete q (w.socks s).ev) [
      | yes here ↦
          ap (λ a. held (w'.evs a)) (here ∙ sym (h.pointers s))
          ∙ e
          ∙ ap (λ a. held (w.evs a)) (sym here)
      | no there ↦ ap held (h.elsewhere q there)
    ]

    held-IsParked :
        {type : EvType} {ev : Event A}
        → IsParked type s ev w w'
        → held (slot w' s) ≡ held_as type ev
    held-IsParked {type} p = ap (λ t. held_as t (slot w' s).ev) p.typed ∙ ap (held_as type) p.held

    held-idle : (slot w' s).type ≡ noop → held (slot w' s) ≡ none
    unfolding held_as
    held-idle e = rw (e, held_as)

    view-IsFinished :
        {ev : Event A} (f : IsFinished s ev w w')
        → view w' ≡ finished (w.socks s).ev f.result (view w)
    view-IsFinished f = Progress-path (under_way-update none (held-idle f.idle)) f.appended

    result-IsFinished : {ev : Event A} (f : IsFinished s ev w w') → IsResult ev f.result
    result-IsFinished f = record { same_cb = f.same_cb; due = f.due }

    -- What a submission of any type comes to.
    pub Outcome-Submits :
        {type : EvType} {ev : Event A}
        → type ≢ noop
        → Outcome type s ev w w'
        → Submits (w.socks s).ev ev (view w) (view w')
    Outcome-Submits {type} {ev} busy (inl p) = begin (
        Progress-path (under_way-update (some ev) (held-IsParked p ∙ held_as_ne type ev busy))
          p.quiet)
    Outcome-Submits busy (inr f) = at_once f.result (result-IsFinished f) (view-IsFinished f)

    -- What a report comes to for a slot with an operation.
    pub Outcome-Handles :
        (slot w s).type ≢ noop
        → Outcome (slot w s).type s (slot w s).ev w w'
        → Handles (w.socks s).ev (view w) (view w')
    Outcome-Handles busy (inl p) = stay (Progress-path (under_way_same (held-IsParked p)) p.quiet)
    Outcome-Handles busy (inr f) =
        finish (slot w s).ev f.result (held_as_ne (slot w s).type (slot w s).ev busy)
          (result-IsFinished f) (view-IsFinished f)

    pub idle-Handles :
        (slot w s).type ≡ noop
        → IsParked noop s (slot w s).ev w w'
        → Handles (w.socks s).ev (view w) (view w')
    unfolding held_as
    idle-Handles idle p =
        let was : held (slot w s) ≡ none = rw (idle, held_as) in
        stay (Progress-path (under_way_same (held-idle p.typed ∙ sym was)) p.quiet)
