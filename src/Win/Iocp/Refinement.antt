-- ===== src/Win/Iocp/Refinement.antt =====
-- `Wait` of `WinIocp` (venti/platform/win/winiocpimpl.h) as an event handler's.
use venti.Prelude.{ℕ, ◌≡◌, refl, ap, subst, ◌∙◌, Bool, true, false, Option, none, some, arith}
use native.Mathlib.Decide.{ℕ_discrete}
use venti.Prelude.Int.{to_int}
use venti.Event.{Event, completed}
use venti.Addr.{IpAddr}
use venti.Context.{settled, enqueue}
use venti.Epoll.Outcome.{settled_due}
use venti.Handler.{Progress, IsResult, finished}
use venti.Win.Os.{WinOs}
use venti.Win.Iocp.{
  IocpOs, WinWorld, Seol, IocpType, read, write, recvfrom, sendto, accept, connect, Block, Target,
  caller_addr, sock_addr, free_seol,
}
use venti.Win.Iocp.Wait.{
  write_target, store_sender, store_addrs, complete_seol, fail_seol, done_seol, report_seol, report,
  iocp_wait,
}
use venti.Win.Iocp.Shows.{IsReady, PointsTo, SenderPoints, ReadyAs, Shows, Shows-same}

module _ {A S : Type 0} where
  -- What storing addresses leaves alone.
  abbrev Stored : WinWorld A S → Option (WinWorld A S) → Type 0
  Stored w o = (w' : WinWorld A S) × (o ≡ some w') × (w'.waitset ≡ w.waitset) × (w'.seols ≡ w.seols)

  write_target-Stored :
      (x : Option Target) (a : IpAddr) (w : WinWorld A S)
      → PointsTo x
      → Stored w (write_target x a w)
  unfolding write_target
  write_target-Stored none a w (t, h) = absurd (cc)
  write_target-Stored (some (caller_addr p)) a w h = (_, refl, refl, refl)
  write_target-Stored (some (sock_addr s)) a w h = (_, refl, refl, refl)

  Shows-complete_seol :
      (w : WinWorld A S) (p : Progress A) (k : ℕ) (r : Event A)
      → Shows w p
      → Shows (complete_seol k r w) (finished k (record r { status = settled r.status }) p)
  unfolding complete_seol free_seol
  Shows-complete_seol w p k r h = record {
    done = ap (enqueue r) h.done;
    kept = λ k' e found. elim (ℕ_discrete k k') [
      | yes here ↦ absurd (ground arith)
      | no there ↦
          let (q, stored, holds, set) = h.kept k' e (ground arith) in (q, ground arith, holds, set)
    ];
  }

  -- The result of a report: one completion for the event of its block, which is deleted.
  pub record IsReported (k : ℕ) (ev : Event A) (p : Progress A) (w' : WinWorld A S) : Type 0 where
    pub result : Event A
    pub matches : IsResult ev result
    pub shown : Shows w' (finished k result p)
    pub freed : w'.seols k ≡ none

  complete_seol-IsReported :
      (w : WinWorld A S) (p : Progress A) (k : ℕ) (ev r : Event A)
      → r.cb ≡ ev.cb
      → Shows w p
      → IsReported k ev p (complete_seol k r w)
  unfolding complete_seol free_seol
  complete_seol-IsReported w p k ev r same h = record {
    result = record r { status = settled r.status };
    matches = record { same_cb = same; due = settled_due r.status };
    shown = Shows-complete_seol w p k r h;
    freed = ground arith;
  }

module _ {A S : Type 0} (os : WinOs S) (io : IocpOs S) where
  store_sender-Stored :
      (b : Option Block) (k : ℕ) (q : Seol A) (w : WinWorld A S)
      → SenderPoints b q.extra
      → Stored w (store_sender os io b k q w)
  unfolding store_sender
  store_sender-Stored none k q w h = (w, refl, refl, refl)
  store_sender-Stored (some b) k q w h = write_target-Stored q.extra _ w h

  store_addrs-Stored :
      (type : IocpType) (k : ℕ) (q : Seol A) (w : WinWorld A S)
      → ReadyAs type q.block q.extra
      → Stored w (store_addrs os io type k q w)
  unfolding store_addrs
  store_addrs-Stored recvfrom k q w h = store_sender-Stored q.block k q w h
  store_addrs-Stored accept k q w h = write_target-Stored q.extra _ w h
  store_addrs-Stored read k q w h = (w, refl, refl, refl)
  store_addrs-Stored write k q w h = (w, refl, refl, refl)
  store_addrs-Stored sendto k q w h = (w, refl, refl, refl)
  store_addrs-Stored connect k q w h = (w, refl, refl, refl)

  report_seol-IsReported :
      (valid : Bool) (w : WinWorld A S) (p : Progress A) (k len : ℕ) (q : Seol A)
      → Shows w p
      → IsReady q
      → (w' : WinWorld A S) × (report_seol os io valid k q len w ≡ some w') × IsReported k q.ev p w'
  unfolding report_seol fail_seol done_seol
  report_seol-IsReported false w p k len q h ready =
      (_, refl, complete_seol-IsReported w p k q.ev _ refl h)
  report_seol-IsReported true w p k len q h ready =
      let (w', did, e, f) = store_addrs-Stored q.type k q w ready in
      (
        _,
        rw (did, done_seol),
        complete_seol-IsReported w' p k q.ev (record q.ev { status = completed; res = to_int len })
            refl (Shows-same e f h),
      )

  -- If the completion port names an operation that is under way, whether it failed or not, `Wait`
  -- dereferences no null pointer and no freed block, finishes that operation with one completion, and
  -- deletes its block; no other operation changes.
  pub iocp_wait-IsReported :
      (w : WinWorld A S) (p : Progress A) (valid : Bool) (k len : ℕ) (o : S) (ev : Event A)
      → Shows w p
      → io.get_status w.port w.os ≡ (valid, some k, len, o)
      → p.under_way k ≡ some ev
      → (w' : WinWorld A S) × (iocp_wait os io w ≡ some w') × IsReported k ev p w'
  unfolding iocp_wait report
  iocp_wait-IsReported w p valid k len o ev h status busy =
      let (q, stored, holds, ready) = h.kept k ev busy in
      let w1 : WinWorld A S = record w { os = o } in
      let (w', did, done) =
        report_seol-IsReported valid w1 p k len q (Shows-same refl refl h) ready in
      (
        w',
        ap (λ (x : Bool × Option ℕ × ℕ × S). report os io x.0 x.1 x.2 (record w { os = x.3 }))
              status
            ∙ rw (stored, report) did,
        subst (λ e. IsReported k e p w') holds done,
      )
