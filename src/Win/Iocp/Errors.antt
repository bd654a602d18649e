-- ===== src/Win/Iocp/Errors.antt =====
-- Errors and memory of `WinIocp` (venti/platform/win/winiocp.h and winiocpimpl.h).
use venti.Prelude.{ℕ, suc, ◌≡◌, ◌≢◌, refl, List, [], ◌∷◌, ◌++◌, some, arith, ne→==_false}
use venti.Prelude.Int.{ℤ, pos, negsuc}
use venti.Event.{Event, complete}
use venti.Buffer.{Buffers}
use venti.Addr.{IpAddr, AddrType}
use venti.Context.{settled}
use venti.Tcp.{io_callback, resume_io, io_result, io_event}
use venti.Win.Os.{WinOs}
use venti.Win.Sock.Transfer.{wsabufs}
use venti.Win.Iocp.{
  IocpOs, WinWorld, Seol, IocpType, read, write, recvfrom, sendto, accept, connect, Target,
  init_seol, init_seol_ipa, init_seol_extra, connect_block, extra_block, freed, freed_as, new_seol,
  alloc_seol,
}
use venti.Win.Iocp.Submit.{
  io_pending, name_size, win_sockaddr, after_submit, iocp_submit_read, iocp_submit_connect,
}

module _ {A : Type 0} (sk : ℕ) (ev : Event A) (ipa : AddrType) (s : Seol A) where
  freed-init_seol_ipa :
      (type : IocpType)
      → freed (init_seol_ipa type sk ev ipa s) ≡ (init_seol_ipa type sk ev ipa s).block
  unfolding freed freed_as init_seol_ipa init_seol connect_block
  freed-init_seol_ipa connect = refl
  freed-init_seol_ipa read = refl
  freed-init_seol_ipa write = refl
  freed-init_seol_ipa recvfrom = refl
  freed-init_seol_ipa sendto = refl
  freed-init_seol_ipa accept = refl

  freed-init_seol_extra :
      (extra : Target) (type : IocpType)
      → freed (init_seol_extra type sk ev ipa extra s)
        ≡ (init_seol_extra type sk ev ipa extra s).block
  unfolding freed freed_as init_seol_extra extra_block
  freed-init_seol_extra extra connect = refl
  freed-init_seol_extra extra read = refl
  freed-init_seol_extra extra write = refl
  freed-init_seol_extra extra recvfrom = refl
  freed-init_seol_extra extra sendto = refl
  freed-init_seol_extra extra accept = refl

  -- Whichever `InitSEOL` filled in a block, and for whatever type of operation and of address,
  -- `DelSEOL` deletes exactly what was allocated for its `data`, as what it was allocated, and nothing
  -- where nothing was.
  pub freed-block :
      (type : IocpType) (extra : Target)
      → (freed (init_seol type sk ev s) ≡ (init_seol type sk ev s).block)
        × (freed (init_seol_ipa type sk ev ipa s) ≡ (init_seol_ipa type sk ev ipa s).block)
        × (freed (init_seol_extra type sk ev ipa extra s)
            ≡ (init_seol_extra type sk ev ipa extra s).block)
  unfolding freed init_seol
  freed-block type extra = (refl, freed-init_seol_ipa type, freed-init_seol_extra extra type)

-- A completion with the negative of an error code, as a coroutine sees it.
complete_negated :
    {A : Type 0} (resume : ℤ → List A) (e : ℕ) (ev : Event A)
    → ev.cb ≡ (io_event resume).cb
    → ev.error ≡ negsuc e
    → complete ev ≡ resume (pos (suc e))
unfolding complete io_callback resume_io io_result
complete_negated resume e ev c h = rw (c, h)

module _ {A S : Type 0} (os : WinOs S) (io : IocpOs S) (s : ℕ) (w : WinWorld A S) where
  -- A read that the system refuses at once with an error code other than WSA_IO_PENDING resumes the
  -- coroutine that awaits it with that code as a positive number, as if so many bytes had been read;
  -- and the block of the operation stays allocated.
  pub iocp_submit_read_refused :
      (buf : Buffers) (resume : ℤ → List A) (e : ℕ)
      → (io.recv_ol (w.socks s).sock (wsabufs buf.bufs) w.next_seol w.os).0 ≡ negsuc 0
      → os.last_error (io.recv_ol (w.socks s).sock (wsabufs buf.bufs) w.next_seol w.os).1 ≡ suc e
      → suc e ≢ io_pending
      → (r : Event A) × ((iocp_submit_read os io s buf (io_event resume) w).waitset
          ≡ w.waitset ++ r ∷ [])
        × (complete r ≡ resume (pos (suc e)))
        × ((iocp_submit_read os io s buf (io_event resume) w).seols w.next_seol
            ≡ some (init_seol read s (io_event resume) (new_seol io w.os)))
  unfolding iocp_submit_read after_submit alloc_seol
  iocp_submit_read_refused buf resume e failed code other = (
    record (io_event resume) { status = settled io.error_macro; error = negsuc e },
    rw (failed, code, ne→==_false (suc e) 997 other),
    complete_negated resume e _ refl refl,
    rw (failed, code, ne→==_false (suc e) 997 other) (ground arith),
  )

  -- `ConnectEx` answers with a `BOOL`, which is not negative: whatever it answers, also FALSE for a
  -- failure, the operation counts as under way and no completion is added.
  iocp_submit_connect_unchecked :
      (addr : IpAddr) (ev : Event A) (n : ℕ)
      → (io.connect_ex_ol
          (w.socks s).connect_fn
          (w.socks s).sock
          (win_sockaddr (w.socks s).addr.kind addr)
          (name_size (w.socks s).addr.kind)
          w.next_seol
          w.os).0
        ≡ pos n
      → ((iocp_submit_connect os io s addr ev w).waitset ≡ w.waitset)
        × ((iocp_submit_connect os io s addr ev w).seols w.next_seol
            ≡ some (init_seol_ipa connect s ev (w.socks s).addr.kind (new_seol io w.os)))
  unfolding iocp_submit_connect after_submit alloc_seol
  iocp_submit_connect_unchecked addr ev n answer = rw answer (refl, ground arith)
