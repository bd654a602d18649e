-- ===== src/Epoll/Wait.antt =====
-- `Epoll::Wait` of venti/platform/linux/epollimpl.h. `none` is a null dereference.
use venti.Prelude.{
  ℕ, ◌/◌, ◌%◌, Bool, true, false, List, [], ◌∷◌, Option, none, some, ◌==◌, if◌then◌else◌,
}
use venti.Prelude.Int.{ℤ, pos, neg, eqb, ltb_zero, to_int}
use venti.Buffer.{Buffers, buffers_of}
use venti.Os.{Os, EpollEvent, del}
use venti.Sock
use venti.Sock.Transfer
use venti.World.{
  World, EvType, read, write, accept, connect, recvfrom, sendto, timetick, signal, noop, slot,
}
use venti.Epoll.Slot.{
  would_block, epollin, epollout, epollerr, epollhup, set_rp, set_wp, fail_slot, finish_slot,
  done_slot, try_read, try_write, try_accept, try_recvfrom, try_sendto,
}

-- `ev.events & bit`, for a power of two.
abbrev pub has : ℕ → ℕ → Bool
has events bit = events / bit % 2 == 1

unfoldable pub is_connect : EvType → Bool
is_connect connect = true
is_connect _ = false

module _ {A S : Type 0} where
  -- EPOLLHUP: only a connection attempt is finished, with the source's error number.
  unfoldable pub on_hup : ℕ → World A S → World A S
  unfolding is_connect
  on_hup s w = if is_connect (slot w s).type then fail_slot s (pos 144) w else w

  -- READ and RECVFROM under EPOLLIN: no test for EWOULDBLOCK.
  unfoldable pub in_transfer : ℕ → ℤ × World A S → World A S
  in_transfer s (len, w) = if ltb_zero len then fail_slot s (neg len) w else finish_slot s len w

  unfoldable pub in_accept : ℕ → ℤ × World A S → World A S
  in_accept s (r, w) = if eqb r (pos 0) then done_slot s w else fail_slot s (neg r) w

  -- WRITE and SENDTO under EPOLLOUT, with the flag that a would-block drops.
  unfoldable pub out_transfer : (ℕ → Bool → World A S → World A S) → ℕ → ℤ × World A S → World A S
  out_transfer flag s (len, w) =
      if eqb len would_block
      then flag s false w
      else if ltb_zero len
      then fail_slot s (neg len) w
      else finish_slot s len w

module _ {A S : Type 0} (os : Os S) (siginfo : ℕ) where
  -- SIGNAL: the `signalfd_siginfo` of 128 bytes stands at the address `siginfo`; whether it
  -- was read is not looked at.
  unfoldable pub in_signal : ℕ → World A S → World A S
  in_signal s w =
      let bf : Buffers = buffers_of (record { content = siginfo; len = 128 }) in
      let (_, o) = Transfer.recv os (w.socks s) bf w.os in
      let w' : World A S =
        set_rp s false (finish_slot s (to_int (os.ssi_signo o)) (record w { os = o })) in
      record w' { os = os.epoll_ctl w'.epoll (del (w'.socks s).sock) w'.os }

  -- The `switch` under EPOLLIN.
  unfoldable pub in_case : EvType → ℕ → World A S → Option (World A S)
  in_case read s w = some (in_transfer s (try_read os s w))
  in_case accept s w = elim (try_accept os s w) [ none ↦ none | some r ↦ some (in_accept s r) ]
  in_case recvfrom s w = some (in_transfer s (try_recvfrom os s w))
  in_case timetick s w = some (set_rp s false (finish_slot s (pos 0) w))
  in_case signal s w = some (in_signal s w)
  in_case noop s w = some w
  in_case write s w = some w
  in_case sendto s w = some w
  in_case connect s w = some w

  unfoldable pub on_in : ℕ → World A S → Option (World A S)
  on_in s w = let w' : World A S = set_rp s true w in in_case (slot w' s).type s w'

  -- The `switch` under EPOLLOUT; SENDTO drops `rp`, as in the source.
  unfoldable pub out_case : EvType → ℕ → World A S → World A S
  out_case write s w = out_transfer set_wp s (try_write os s w)
  out_case connect s w = done_slot s w
  out_case sendto s w = out_transfer set_rp s (try_sendto os s w)
  out_case noop s w = w
  out_case read s w = w
  out_case accept s w = w
  out_case recvfrom s w = w
  out_case timetick s w = w
  out_case signal s w = w

  unfoldable pub on_out : ℕ → World A S → World A S
  on_out s w = let w' : World A S = set_wp s true w in out_case (slot w' s).type s w'

  unfoldable pub in_then_out : ℕ → ℕ → World A S → Option (World A S)
  in_then_out events s w = elim (if has events epollin then on_in s w else some w) [
    | none ↦ none
    | some w' ↦ some (if has events epollout then on_out s w' else w')
  ]

  -- The body of the loop, for the socket that the event's data points to.
  unfoldable pub handle_at : ℕ → ℕ → World A S → Option (World A S)
  handle_at events s w =
      if has events epollerr
      then some (fail_slot s (Sock.get_sock_err os w.os) w)
      else if has events epollhup
      then some (on_hup s w)
      else in_then_out events s w

  -- The body of the loop: `*data.sock` is read through a pointer that is null until the first
  -- submission.
  unfoldable pub handle_event : EpollEvent → World A S → Option (World A S)
  handle_event e w = elim (w.evs e.ptr).sock [ none ↦ none | some s ↦ handle_at e.events s w ]

  unfoldable pub handle_events : List EpollEvent → World A S → Option (World A S)
  handle_events [] w = some w
  handle_events (e ∷ es) w = elim (handle_event e w) [ none ↦ none | some w' ↦ handle_events es w' ]

  -- `Wait`
  unfoldable pub wait : World A S → Option (World A S)
  wait w = let (es, o) = os.epoll_wait w.epoll 128 w.os in handle_events es (record w { os = o })
