-- ===== src/Tcp/Round.antt =====
-- A coroutine that awaits a read of a socket (venti/socket/tcpsocket.h) in the rounds of
-- `Context::Run` (venti/context.h).
use venti.Prelude.{ℕ, suc, ◌≡◌, ap, sym, ◌∙◌, true, false, List, [], ◌∷◌, ◌++◌, some, erase_idx}
use venti.Prelude.Int.{ℤ}
use venti.Buffer.{Buffers}
use venti.Os.{Os, EpollEvent}
use venti.World.{World, SockEventData, slot, put_slot}
use venti.Context.{perform_all, dispatch, pass, run}
use venti.Context.Loop.{run_round}
use venti.Context.Pass.{pass_step, pass_end}
use venti.Epoll.Wait.{handle_at, wait}
use venti.Tcp.{await_read}
use venti.Tcp.Answer.{IsAnswer, Answered}
use venti.Tcp.Arrival.{IsCalm}
use venti.Tcp.Delivery.{
  slot-put_slot, await_read_parked, read_data, read_answer, await_read-handle_at, wait_one,
}

-- The world after a loop has dispatched the first completion, whose callback makes these calls.
abbrev pub gone_on : {A S : Type 0} → (A → World A S → World A S) → List A → World A S → World A S
gone_on perform calls w = record (perform_all perform calls w) {
  waitset = erase_idx (perform_all perform calls w).waitset 0;
}

module _ {A S : Type 0} (perform : A → World A S → World A S) (s : ℕ) (resume : ℤ → List A)
    (len : ℤ) where
  -- The loop dispatches the one completion that waits.
  pass-Answered :
      (inner : ℕ) (w w' : World A S)
      → w.waitset ≡ []
      → Answered resume s len w w'
      → pass perform (suc inner) 0 w' ≡ pass perform inner 0 (gone_on perform (resume len) w')
  unfolding dispatch
  pass-Answered inner w w' none_waits k =
      pass_step perform inner w' k.answer [] (k.added ∙ ap (λ l. l ++ k.answer ∷ []) none_waits)
        k.due
      ∙ ap (λ calls. pass perform inner 0 (gone_on perform calls w')) k.resumes

module _ {A S : Type 0} (os : Os S) (siginfo s : ℕ) (bufs : Buffers) (resume : ℤ → List A)
    (perform : A → World A S → World A S) (w : World A S) where
  -- If no completion waits, and a coroutine awaits a read of a socket not last seen readable, and the
  -- next `epoll_wait` reports EPOLLIN alone, for this socket, and the kernel answers the read with -1
  -- or a number of bytes that fits `int`, then a round of `Run` is completed, and the next one first
  -- resumes the coroutine with that answer.
  pub run-await_read :
      (inner f : ℕ) (e : EpollEvent) (o : S)
      → w.can_continue ≡ true
      → w.waitset ≡ []
      → (slot w s).rp ≡ false
      → os.epoll_wait w.epoll 128 w.os ≡ (e ∷ [], o)
      → e.ptr ≡ (w.socks s).ev
      → IsCalm e.events true false
      → IsAnswer (read_answer os s bufs w o)
      → (w' : World A S) × (run perform
            (wait os siginfo)
            (suc inner)
            (suc f)
            (await_read os s bufs resume w)
          ≡ run perform (wait os siginfo) (suc inner) f w')
        × (pass perform (suc inner) 0 w'
            ≡ pass perform inner 0 (gone_on perform (resume (read_answer os s bufs w o)) w'))
  run-await_read inner f e o up none_waits unready reported here c a =
      let v : World A S = put_slot s (read_data os s bufs w resume) w in
      let parked : await_read os s bufs resume w ≡ v =
        await_read_parked os s bufs w resume unready in
      let (quiet, w', did, k) =
        await_read-handle_at os s bufs w resume siginfo o e.events unready c a in
      let did' : handle_at os siginfo e.events s (record v { os = o }) ≡ some w' =
        ap (λ (x : World A S). handle_at os siginfo e.events s (record x { os = o })) (sym parked)
        ∙ did in
      let at : (v.evs e.ptr).sock ≡ some s =
        ap (λ p. (v.evs p).sock) here
        ∙ ap (λ (d : SockEventData A). d.sock)
            (slot-put_slot os s bufs w resume (read_data os s bufs w resume)) in
      (
        w',
        ap (run perform (wait os siginfo) (suc inner) (suc f)) parked
            ∙ run_round perform (wait os siginfo) (suc inner) f v up
                (pass_end perform inner v none_waits)
                (wait_one os siginfo s v e o reported at did'),
        pass-Answered perform s resume (read_answer os s bufs w o) inner w w' none_waits k,
      )
