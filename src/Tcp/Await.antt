-- ===== src/Tcp/Await.antt =====
-- What `co_await sock.Read(…)` comes to (venti/socket/tcpsocket.h), from the submission to the
-- value that the coroutine is resumed with.
use venti.Prelude.{
  ℕ, ◌^◌, ◌<◌, ◌≡◌, ap, true, List, [], ◌∷◌, ◌++◌, arith, zero, suc, ◌==◌, if◌then◌else◌,
  ne→==_false,
}
use venti.Prelude.Int.{ℤ, pos, negsuc, neg, to_int-to_size_pos}
use venti.Event.{Event, EvStat, completed, err, complete}
use venti.Buffer.{Buffers}
use venti.Os.{Os}
use venti.World.{World, slot}
use venti.Tcp.{io_callback, io_result, resume_io, io_event, async_readcb, await_read}
use venti.Epoll.Faults.{read_reply, submit_read_succeeds, submit_read_refused}

-- An operation's completion resumes the coroutine with the number of bytes, or with the negative of
-- the error number if there is one.
pub complete_io :
    {A : Type 0} (resume : ℤ → List A) (status : EvStat) (n e : ℕ)
    → n < 2 ^ 31
    → complete (record (io_event resume) { status = status; error = pos e; res = pos n })
      ≡ resume (if e == 0 then pos n else neg (pos e))
unfolding complete io_callback resume_io io_result
complete_io resume status n zero fits = ap resume (to_int-to_size_pos n fits)
complete_io resume status n (suc e) fits = rw (ne→==_false (suc e) 0 (omega arith))

module _ {A S : Type 0} (os : Os S) (s : ℕ) (bufs : Buffers) (resume : ℤ → List A) (w : World A S)
    (ready : (slot w s).rp ≡ true) where
  -- On a socket last seen readable, a coroutine that awaits a read is resumed, when its completion
  -- is dispatched, with the number of bytes that the kernel gave.
  await_read_succeeds :
      (n : ℕ)
      → read_reply os s bufs (io_event resume) w ≡ pos n
      → n < 2 ^ 31
      → (r : Event A) × ((await_read os s bufs resume w).waitset ≡ w.waitset ++ r ∷ [])
        × (complete r ≡ resume (pos n))
  unfolding await_read async_readcb
  await_read_succeeds n reply fits = (
    record (io_event resume) { status = completed; res = pos n },
    (submit_read_succeeds os s bufs (io_event resume) w n ready reply fits).0,
    complete_io resume completed n 0 fits,
  )

  -- If the kernel refuses the read, the coroutine is resumed with -1, whatever `errno` says.
  await_read_refused :
      read_reply os s bufs (io_event resume) w ≡ negsuc 0
      → (r : Event A) × ((await_read os s bufs resume w).waitset ≡ w.waitset ++ r ∷ [])
        × (complete r ≡ resume (negsuc 0))
  unfolding await_read async_readcb
  await_read_refused reply = (
    record (io_event resume) { status = err; error = pos 1 },
    (submit_read_refused os s bufs (io_event resume) w ready reply).0,
    complete_io resume err 0 1 (omega arith),
  )
