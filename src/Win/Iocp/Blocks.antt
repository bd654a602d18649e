-- ===== src/Win/Iocp/Blocks.antt =====
-- How the submissions and `Wait` of venti/platform/win/winiocpimpl.h allocate blocks.
use venti.Prelude.{
  ℕ, suc, ◌≡◌, refl, sym, subst, Bool, true, false, Option, none, some, inl, inr, Bool-cases, ◌==◌,
}
use venti.Prelude.Int.{ℤ, ltb_zero}
use venti.Event.{Event}
use venti.Epoll.Steps.{Holds, Holds-map}
use venti.Win.Os.{WinOs}
use venti.Addr.{IpAddr}
use venti.Win.Iocp.{
  IocpOs, WinWorld, Seol, IocpType, read, write, recvfrom, sendto, accept, connect, Block, Target,
  caller_addr, sock_addr, alloc_seol, free_seol,
}
use venti.Win.Iocp.Submit.{
  io_pending, after_submit, iocp_submit_read, iocp_submit_write, iocp_submit_accept,
  iocp_submit_connect, iocp_submit_sendto, iocp_submit_recvfrom,
}
use venti.Win.Iocp.Wait.{
  complete_seol, fail_seol, done_seol, store_addrs, store_sender, write_target, report_seol, report,
  iocp_wait,
}
use venti.Win.Iocp.Request.{
  WinRequest, to_read, to_write, to_connect, to_accept, to_receive, to_send, win_submit,
}

-- A step that ends leaves the next block as it is.
abbrev pub Keeps : {A S : Type 0} → ℕ → Option (WinWorld A S) → Type 0
Keeps n = Holds (λ w. w.next_seol ≡ n)

module _ {A S : Type 0} (os : WinOs S) (io : IocpOs S) where
  after_submit-next_seol :
      (ev : Event A) (err : ℤ) (w : WinWorld A S)
      → (after_submit os io ev (err, w)).next_seol ≡ w.next_seol
  unfolding after_submit
  after_submit-next_seol ev err w = elim (Bool-cases (ltb_zero err)) [
    | inr fine ↦ rw fine refl
    | inl failed ↦ elim (Bool-cases (os.last_error w.os == io_pending)) [
      | inl pending ↦ rw (failed, pending) refl
      | inr refused ↦ rw (failed, refused) refl
    ]
  ]

  -- Each submission allocates one block.
  pub win_submit-next_seol :
      (s : ℕ) (ev : Event A) (w : WinWorld A S) (req : WinRequest)
      → (win_submit os io s ev w req).next_seol ≡ suc w.next_seol
  unfolding win_submit iocp_submit_read iocp_submit_write iocp_submit_connect iocp_submit_accept
      iocp_submit_recvfrom iocp_submit_sendto alloc_seol
  win_submit-next_seol s ev w (to_read buf) = after_submit-next_seol ev _ _
  win_submit-next_seol s ev w (to_write buf) = after_submit-next_seol ev _ _
  win_submit-next_seol s ev w (to_connect addr) = after_submit-next_seol ev _ _
  win_submit-next_seol s ev w (to_accept res) = after_submit-next_seol ev _ _
  win_submit-next_seol s ev w (to_receive peer buf) = after_submit-next_seol ev _ _
  win_submit-next_seol s ev w (to_send peer buf) = after_submit-next_seol ev _ _

  write_target-next_seol :
      (x : Option Target) (a : IpAddr) (w : WinWorld A S) → Keeps w.next_seol (write_target x a w)
  unfolding write_target
  write_target-next_seol none a w = tt
  write_target-next_seol (some (caller_addr p)) a w = refl
  write_target-next_seol (some (sock_addr s)) a w = refl

  store_sender-next_seol :
      (b : Option Block) (k : ℕ) (q : Seol A) (w : WinWorld A S)
      → Keeps w.next_seol (store_sender os io b k q w)
  unfolding store_sender
  store_sender-next_seol none k q w = refl
  store_sender-next_seol (some b) k q w = write_target-next_seol q.extra _ w

  store_addrs-next_seol :
      (type : IocpType) (k : ℕ) (q : Seol A) (w : WinWorld A S)
      → Keeps w.next_seol (store_addrs os io type k q w)
  unfolding store_addrs
  store_addrs-next_seol recvfrom k q w = store_sender-next_seol q.block k q w
  store_addrs-next_seol accept k q w = write_target-next_seol q.extra _ w
  store_addrs-next_seol read k q w = refl
  store_addrs-next_seol write k q w = refl
  store_addrs-next_seol sendto k q w = refl
  store_addrs-next_seol connect k q w = refl

  report_seol-next_seol :
      (valid : Bool) (k len : ℕ) (q : Seol A) (w : WinWorld A S)
      → Keeps w.next_seol (report_seol os io valid k q len w)
  unfolding report_seol fail_seol done_seol complete_seol free_seol
  report_seol-next_seol false k len q w = refl
  report_seol-next_seol true k len q w =
      Holds-map (λ w'. w'.next_seol ≡ w.next_seol) (λ w'. w'.next_seol ≡ w.next_seol) _
        (store_addrs os io q.type k q w) (λ w' same. same) (store_addrs-next_seol q.type k q w)

  pub iocp_wait-next_seol :
      (w : WinWorld A S) (valid : Bool) (k len : ℕ) (o : S)
      → io.get_status w.port w.os ≡ (valid, some k, len, o)
      → Keeps w.next_seol (iocp_wait os io w)
  unfolding iocp_wait report
  iocp_wait-next_seol w valid k len o status =
      subst
        (λ (x : Bool × Option ℕ × ℕ × S).
          Keeps w.next_seol (report os io x.0 x.1 x.2 (record w { os = x.3 })))
        (sym status) (of_block (w.seols k))
    where
      of_block :
          (found : Option (Seol A))
          → Keeps w.next_seol (elim found [
            | none ↦ none
            | some q ↦ report_seol os io valid k q len (record w { os = o })
          ])
      of_block none = tt
      of_block (some q) = report_seol-next_seol valid k len q (record w { os = o })
