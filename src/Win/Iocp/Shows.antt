-- ===== src/Win/Iocp/Shows.antt =====
-- `WinIocp` (venti/platform/win/winiocp.h) as an event handler of the kind that `Handler` describes:
-- what a world shows of it. A block may stay allocated that no report will name.
use venti.Prelude.{
  Bool, not, ◌&&◌, if◌then◌else◌, ℕ, ◌≡◌, refl, ap, ◌∙◌, Option, none, some, inl, inr, arith, ◌==◌,
  Bool-cases,
}
use native.Mathlib.Decide.{ℕ_discrete}
use venti.Prelude.Int.{ℤ, pos, neg, ltb_zero}
use venti.Event.{Event}
use venti.Context.{settled, enqueue}
use venti.Epoll.Outcome.{settled_due}
use venti.Handler.{Progress, IsResult, begun, finished, Submits, begin, at_once}
use venti.Win.Os.{WinOs}
use venti.Win.Iocp.{
  IocpOs, WinWorld, Seol, IocpType, read, write, recvfrom, sendto, accept, connect, Block, Target,
  alloc_seol,
}
use venti.Win.Iocp.Submit.{io_pending, after_submit}

-- A report for a block will find its pointers set.
abbrev pub PointsTo : Option Target → Type 0
PointsTo x = (t : Target) × (x ≡ some t)

abbrev pub SenderPoints : Option Block → Option Target → Type 0
SenderPoints none x = Unit {0}
SenderPoints (some b) x = PointsTo x

abbrev pub ReadyAs : IocpType → Option Block → Option Target → Type 0
ReadyAs recvfrom b x = SenderPoints b x
ReadyAs accept b x = PointsTo x
ReadyAs read b x = Unit {0}
ReadyAs write b x = Unit {0}
ReadyAs sendto b x = Unit {0}
ReadyAs connect b x = Unit {0}

abbrev pub IsReady : {A : Type 0} → Seol A → Type 0
IsReady q = ReadyAs q.type q.block q.extra

module _ {A S : Type 0} where
  pub record Shows (w : WinWorld A S) (p : Progress A) : Type 0 where
    pub done : w.waitset ≡ p.done
    pub kept :
        (k : ℕ) (ev : Event A)
        → p.under_way k ≡ some ev
        → (q : Seol A) × (w.seols k ≡ some q) × (q.ev ≡ ev) × IsReady q

  pub Shows-same :
      {w w' : WinWorld A S} {p : Progress A}
      → w'.waitset ≡ w.waitset
      → w'.seols ≡ w.seols
      → Shows w p
      → Shows w' p
  Shows-same e f h = record {
    done = e ∙ h.done;
    kept = λ k ev found.
        let (q, stored, holds, set) = h.kept k ev found in
        (q, ap (λ g. g k) f ∙ stored, holds, set);
  }

  pub Shows-alloc_seol :
      (w : WinWorld A S) (p : Progress A) (q : Seol A) (ev : Event A)
      → q.ev ≡ ev
      → IsReady q
      → Shows w p
      → Shows (alloc_seol q w) (begun w.next_seol ev p)
  unfolding alloc_seol
  Shows-alloc_seol w p q ev same ready h = record {
    done = h.done;
    kept = λ k e found. elim (ℕ_discrete w.next_seol k) [
      | yes here ↦ (q, ground arith, ground arith, ready)
      | no there ↦
          let (q', stored, holds, set) = h.kept k e (ground arith) in (q', ground arith, holds, set)
    ];
  }

  -- The operation at a key is gone, and its completion is there.
  finished-Shows :
      (w : WinWorld A S) (p : Progress A) (k : ℕ) (ev : Event A)
      → Shows w (begun k ev p)
      → (r : Event A)
      → Shows
          (record w { waitset = enqueue r w.waitset })
          (finished k (record r { status = settled r.status }) p)
  finished-Shows w p k ev h r = record {
    done = ap (enqueue r) h.done;
    kept = λ k' e found. elim (ℕ_discrete k k') [
      | yes here ↦ absurd (ground arith)
      | no there ↦ h.kept k' e (ground arith)
    ];
  }

module _ {S : Type 0} (os : WinOs S) where
  -- The code takes a call's answer for a refusal if it is negative and the last error is not
  -- WSA_IO_PENDING; any other answer it takes for an operation under way, so also a BOOL that is
  -- FALSE.
  abbrev pub is_refused : ℤ × S → Bool
  is_refused (err, o) = ltb_zero err && not (os.last_error o == io_pending)

module _ {A : Type 0} where
  abbrev pub taken : Bool → ℕ → Event A → Event A → Progress A → Progress A
  taken refused k ev r p = if refused then finished k r p else begun k ev p

module _ {A S : Type 0} (os : WinOs S) where
  -- What a submission of `ev` in the block `k` comes to, by the answer of its call.
  pub record IsTaken (k : ℕ) (ev : Event A) (p : Progress A) (answer : ℤ × S) (w' : WinWorld A S)
      : Type 0 where
    pub result : Event A
    pub matches : IsResult ev result
    pub code : result.error ≡ neg (pos (os.last_error answer.1))
    pub shown : Shows w' (taken (is_refused os answer) k ev result p)

  pub IsTaken-Submits :
      (k : ℕ) (ev : Event A) (p : Progress A) (answer : ℤ × S) (w' : WinWorld A S)
      → (h : IsTaken k ev p answer w')
      → Submits k ev p (taken (is_refused os answer) k ev h.result p)
  IsTaken-Submits k ev p answer w' h = elim (Bool-cases (is_refused os answer)) [
    | inl refused ↦ rw refused (at_once h.result h.matches refl)
    | inr fine ↦ rw fine (begin refl)
  ]

  pub after_submit-IsTaken :
      (io : IocpOs S) (w : WinWorld A S) (p : Progress A) (k : ℕ) (ev : Event A) (err : ℤ)
      → Shows w (begun k ev p)
      → IsTaken k ev p (err, w.os) (after_submit os io ev (err, w))
  unfolding after_submit
  after_submit-IsTaken io w p k ev err h =
      let r : Event A = record ev {
        status = io.error_macro;
        error = neg (pos (os.last_error w.os));
      } in
      record {
        result = record r { status = settled r.status };
        matches = record { same_cb = refl; due = settled_due r.status };
        code = refl;
        shown = elim (Bool-cases (ltb_zero err)) [
          | inr fine ↦ rw fine h
          | inl failed ↦ elim (Bool-cases (os.last_error w.os == io_pending)) [
            | inl pending ↦ rw (failed, pending) h
            | inr refused ↦ rw (failed, refused) (finished-Shows w p k ev h r)
          ]
        ];
      }
