-- ===== src/Handler.antt =====
-- What an event handler promises the loop, apart from how it keeps its operations: at each key
-- (a socket's slot, an overlapped block) at most one operation is under way, and what is finished
-- waits in order. `Epoll` (venti/platform/linux/epollimpl.h) and `WinIocp`
-- (venti/platform/win/winiocpimpl.h) are two implementations.
pub mod Ledger
use venti.Prelude.{ℕ, zero, suc, ◌≡◌, List, [], ◌∷◌, ◌++◌, true, Option, none, some, update}
use venti.Event.{Event}
use venti.Context.{is_due}

pub record Progress (A : Type 0) : Type 0 where
  pub under_way : ℕ → Option (Event A)
  pub done : List (Event A)

-- `r` is `ev` with a result: it has its callback, and is ready to dispatch.
pub record IsResult {A : Type 0} (ev r : Event A) : Type 0 where
  pub same_cb : r.cb ≡ ev.cb
  pub due : is_due r.status ≡ true

module _ {A : Type 0} where
  abbrev pub begun : ℕ → Event A → Progress A → Progress A
  begun k ev p = record p { under_way = update p.under_way k (some ev) }

  abbrev pub finished : ℕ → Event A → Progress A → Progress A
  finished k r p = record { under_way = update p.under_way k none; done = p.done ++ r ∷ [] }

  pub Progress-path : {p q : Progress A} → q.under_way ≡ p.under_way → q.done ≡ p.done → q ≡ p
  Progress-path e d = λ i. record { under_way = e i; done = d i }

  -- A submission of `ev` at the key `k`: the operation is under way, or finished at once. What was
  -- under way there before is replaced.
  pub data Submits (k : ℕ) (ev : Event A) (p q : Progress A) : Type 0 where
    begin : q ≡ begun k ev p → Submits k ev p q
    at_once : (r : Event A) → IsResult ev r → q ≡ finished k r p → Submits k ev p q

  -- A report of the system for the key `k`: nothing is seen of it, or the operation that is under way
  -- there is finished.
  pub data Handles (k : ℕ) (p q : Progress A) : Type 0 where
    stay : q ≡ p → Handles k p q
    finish :
        (ev r : Event A)
        → p.under_way k ≡ some ev
        → IsResult ev r
        → q ≡ finished k r p
        → Handles k p q

  -- A number of reports, one after another, each for some key.
  pub data Serves : ℕ → Progress A → Progress A → Type 0 where
    over : {p : Progress A} → Serves zero p p
    then_ : {n : ℕ} {p q r : Progress A} (k : ℕ) → Handles k p q → Serves n q r → Serves (suc n) p r
