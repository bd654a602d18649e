-- ===== src/Win/Iocp/Ledger.antt =====
-- Keeping account of callbacks over the completion port (venti/platform/win/winiocpimpl.h).
use venti.Prelude.{
  ℕ, suc, ◌+◌, ◌≤◌, ◌≡◌, ◌≢◌, refl, ap, subst, sym, true, false, if◌then◌else◌, ◌∙◌, Bool, List, [],
  ◌∷◌, Option, none, some, arith,
}
use venti.Prelude.Int.{ℤ}
use venti.Event.{Event, Callback}
use venti.Handler.{IsResult, Progress, Submits, begin, at_once, finish, finished}
use venti.Handler.Ledger.{
  waiting_count, waiting_count-append, one-same_cb, one, many, maybe_count, Pending,
  Pending-Submits, Pending-Handles,
}
use venti.Win.Os.{WinOs}
use venti.Win.Iocp.{IocpOs, WinWorld}
use venti.Win.Iocp.Wait.{iocp_wait}
use venti.Win.Iocp.Blocks.{Keeps, win_submit-next_seol, iocp_wait-next_seol}
use venti.Win.Iocp.Shows.{Shows}
use venti.Win.Iocp.Request.{WinRequest, win_submit, win_answer, win_submit-IsTaken}
use venti.Win.Iocp.Refinement.{iocp_wait-IsReported}
use venti.Win.Iocp.Shows.{is_refused, taken, IsTaken, IsTaken-Submits}

module _ {A S : Type 0} where
  -- No operation is under way in a block that is still to be allocated.
  abbrev pub IsFresh : WinWorld A S → Progress A → Type 0
  IsFresh w p = (k : ℕ) → w.next_seol ≤ k → p.under_way k ≡ none

  -- `n` callbacks that meet the test are under way or wait.
  pub record IsAccounted (test : Callback A → Bool) (w : WinWorld A S) (p : Progress A) (n : ℕ)
      : Type 0 where
    pub shown : Shows w p
    pub unused : IsFresh w p
    pub pending : Pending test p n

module _ {A : Type 0} where
  Submits-others :
      {k : ℕ} {ev : Event A} {p q : Progress A}
      → Submits k ev p q
      → (j : ℕ) → j ≢ k
      → q.under_way j ≡ p.under_way j
  Submits-others (begin e) j n = ap (λ (x : Progress A). x.under_way j) e ∙ ground arith
  Submits-others (at_once r result e) j n = ap (λ (x : Progress A). x.under_way j) e ∙ ground arith

-- One thing that happens to a handler: a submission for the socket `s`, or a `Wait`.
pub data Turn (A : Type 0) : Type 0 where
  asks : ℕ → Event A → WinRequest → Turn A
  waits : Turn A

-- The callbacks that it hands over.
abbrev pub handed : {A : Type 0} → Turn A → List (Callback A)
handed (asks s ev req) = ev.cb ∷ []
handed waits = []

module _ {A S : Type 0} (os : WinOs S) (io : IocpOs S) where
  abbrev pub turn : Turn A → WinWorld A S → Option (WinWorld A S)
  turn (asks s ev req) w = some (win_submit os io s ev w req)
  turn waits w = iocp_wait os io w

  -- A `Wait` is told of an operation that is under way, failed or not.
  abbrev pub NamesBusy : Turn A → WinWorld A S → Progress A → Type 0
  NamesBusy (asks s ev req) w p = Unit {0}
  NamesBusy waits w p =
      (valid : Bool) × (k : ℕ) × (len : ℕ) × (o : S) × (ev : Event A) × (io.get_status w.port w.os
        ≡ (valid, some k, len, o))
      × (p.under_way k ≡ some ev)

  -- The callbacks whose completions it adds: that of a submission whose call is refused, and that of
  -- the operation that a `Wait` is told of.
  abbrev pub ended :
      (t : Turn A) (w : WinWorld A S) (p : Progress A) → NamesBusy t w p → List (Callback A)
  ended (asks s ev req) w p fits =
      if is_refused os (win_answer os io s ev w req) then ev.cb ∷ [] else []
  ended waits w p (valid, k, len, o, ev, status, busy) = ev.cb ∷ []

  waiting_count-finished :
      (test : Callback A → Bool) (k : ℕ) (ev r : Event A) (p : Progress A)
      → IsResult ev r
      → waiting_count test (finished k r p).done
        ≡ waiting_count test p.done + many test (ev.cb ∷ [])
  waiting_count-finished test k ev r p result =
      omega (arith, waiting_count-append test p.done (r ∷ []), one-same_cb test ev r result)

  waiting_count-taken :
      (test : Callback A → Bool) (refused : Bool) (k : ℕ) (ev r : Event A) (p : Progress A)
      → IsResult ev r
      → waiting_count test (taken refused k ev r p).done
        ≡ waiting_count test p.done + many test (if refused then ev.cb ∷ [] else [])
  waiting_count-taken test true k ev r p result = waiting_count-finished test k ev r p result
  waiting_count-taken test false k ev r p result = omega arith

  module _ (test : Callback A → Bool) (n : ℕ) (w : WinWorld A S) (p : Progress A)
      (h : IsAccounted test w p n) where
    asked-IsAccounted :
        (s : ℕ) (ev : Event A) (req : WinRequest)
        → (p' : Progress A) × IsAccounted test (win_submit os io s ev w req) p' (n + one test ev.cb)
          × (waiting_count test (win_submit os io s ev w req).waitset
              ≡ waiting_count test w.waitset + many test (ended (asks s ev req) w p tt))
    asked-IsAccounted s ev req =
        let answer : ℤ × S = win_answer os io s ev w req in
        let refused : Bool = is_refused os answer in
        let v : WinWorld A S = win_submit os io s ev w req in
        let h' : IsTaken os w.next_seol ev p answer v =
          win_submit-IsTaken os io s ev w req p h.shown in
        let p' : Progress A = taken refused w.next_seol ev h'.result p in
        let shown : Shows v p' = h'.shown in
        let sub : Submits w.next_seol ev p p' = IsTaken-Submits os w.next_seol ev p answer v h' in
        let (m, kept, sum) = Pending-Submits test w.next_seol ev p p' n h.pending sub in
        let free : p.under_way w.next_seol ≡ none = h.unused w.next_seol (omega arith) in
        let total : m ≡ n + one test ev.cb = omega (arith, sum, ap (maybe_count test) free) in
        (
          p',
          record {
            shown = shown;
            unused = λ k above.
                let past : suc w.next_seol ≤ k =
                  omega (arith, win_submit-next_seol os io s ev w req, above) in
                Submits-others sub k (λ e. absurd (omega (arith, e, past)))
                ∙ h.unused k (omega (arith, past));
            pending = subst (Pending test p') total kept;
          },
          ap (waiting_count test) shown.done
              ∙ waiting_count-taken test refused w.next_seol ev h'.result p h'.matches
              ∙ ap (λ l. waiting_count test l + many test (ended (asks s ev req) w p tt))
                  (sym h.shown.done),
        )

    waited-IsAccounted :
        (fits : NamesBusy waits w p)
        → (w' : WinWorld A S) × (p' : Progress A) × (iocp_wait os io w ≡ some w')
          × IsAccounted test w' p' n
          × (waiting_count test w'.waitset
              ≡ waiting_count test w.waitset + many test (ended waits w p fits))
    waited-IsAccounted (valid, k, len, o, ev, status, busy) =
        let (w', did, r) = iocp_wait-IsReported os io w p valid k len o ev h.shown status busy in
        let same : w'.next_seol ≡ w.next_seol =
          subst (Keeps w.next_seol) did (iocp_wait-next_seol os io w valid k len o status) in
        let p' : Progress A = finished k r.result p in
        (
          w',
          p',
          did,
          record {
            shown = r.shown;
            unused = λ j above.
                let free : p.under_way j ≡ none = h.unused j (omega (arith, same, above)) in
                ground (arith, free);
            pending =
                Pending-Handles test k p p' n h.pending (finish ev r.result busy r.matches refl);
          },
          ap (waiting_count test) r.shown.done
              ∙ waiting_count-finished test k ev r.result p r.matches
              ∙ ap (λ l. waiting_count test l + many test (ev.cb ∷ [])) (sym h.shown.done),
        )

    -- An operation is under way from a submission whose call is not refused until a `Wait` is told of
    -- it. A call is refused if its answer is negative and the last error is not WSA_IO_PENDING; an
    -- AcceptEx or ConnectEx that answers FALSE is not, so its operation is under way too. If `n`
    -- callbacks that meet a test wait or are under way, and no operation is under way in a block that is
    -- still to be allocated, then a submission of any kind, whatever the system answers, and a `Wait`
    -- that is told of an operation under way, failed or not, dereference no null pointer and no freed
    -- block. Afterwards `n` and the callbacks handed over that meet the test wait or are under way;
    -- and of those that wait there are more by exactly the callback of a submission that is refused, or
    -- of the operation that `Wait` is told of.
    pub turn-IsAccounted :
        (t : Turn A) (fits : NamesBusy t w p)
        → (w' : WinWorld A S) × (p' : Progress A) × (turn t w ≡ some w')
          × IsAccounted test w' p' (n + many test (handed t))
          × (waiting_count test w'.waitset
              ≡ waiting_count test w.waitset + many test (ended t w p fits))
    turn-IsAccounted (asks s ev req) fits =
        let (p', k, more) = asked-IsAccounted s ev req in
        (_, p', refl, subst (IsAccounted test _ p') (omega arith) k, more)
    turn-IsAccounted waits fits =
        let (w', p', did, k, more) = waited-IsAccounted fits in
        (w', p', did, subst (IsAccounted test w' p') (omega arith) k, more)
