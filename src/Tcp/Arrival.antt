-- ===== src/Tcp/Arrival.antt =====
-- What `co_await sock.Read(…)` and `Write(…)` come to when the socket is not ready at once
-- (venti/socket/tcpsocket.h, venti/platform/linux/epollimpl.h).
use venti.Prelude.{ℕ, ◌≡◌, refl, ap, ◌∙◌, Bool, true, false, List, none, some, arith}
use venti.Prelude.Int.{ℤ}
use venti.Os.{Os}
use venti.Sock.Transfer.{recv, send, msghdr_of}
use venti.World.{World, read, write, slot}
use venti.Epoll.Slot.{epollin, epollout, epollerr, epollhup, set_rp, set_wp, try_read, try_write}
use venti.Epoll.Wait.{has, handle_at, in_then_out, on_in, on_out, in_case, out_case, in_transfer}
use venti.Tcp.{io_event}
use venti.Tcp.Answer.{
  IsAnswer, Answered, transferred_answer, in_transfer-Answered, out_transfer-Answered,
}

-- The bits of a report without an error or a hang-up.
pub record IsCalm (events : ℕ) (readable writable : Bool) : Type 0 where
  pub no_err : has events epollerr ≡ false
  pub no_hup : has events epollhup ≡ false
  pub reads : has events epollin ≡ readable
  pub writes : has events epollout ≡ writable

module _ {A S : Type 0} (os : Os S) (siginfo s : ℕ) (events : ℕ) (w : World A S) where
  pub handle_at_in :
      {w' : World A S}
      → IsCalm events true false
      → on_in os siginfo s w ≡ some w'
      → handle_at os siginfo events s w ≡ some w'
  unfolding handle_at in_then_out
  handle_at_in c e = rw (c.no_err, c.no_hup, in_then_out, c.reads, e, c.writes)

  pub handle_at_out :
      IsCalm events false true → handle_at os siginfo events s w ≡ some (on_out os siginfo s w)
  unfolding handle_at in_then_out
  handle_at_out c = rw (c.no_err, c.no_hup, in_then_out, c.reads, c.writes)

module _ {A S : Type 0} (s : ℕ) (w : World A S) where
  pub slot-set_rp : (b : Bool) → slot (set_rp s b w) s ≡ record (slot w s) { rp = b }
  unfolding set_rp
  slot-set_rp b = ground arith

  slot-set_wp : (b : Bool) → slot (set_wp s b w) s ≡ record (slot w s) { wp = b }
  unfolding set_wp
  slot-set_wp b = ground arith

module _ {A S : Type 0} (os : Os S) (siginfo s : ℕ) (w : World A S) where
  -- The kernel's answers to a read into the slot's buffers, and to a write from them.
  abbrev pub to_recv : ℤ × S
  to_recv = os.recvmsg (w.socks s).sock (msghdr_of none 0 (slot w s).bufs) w.os

  abbrev pub to_send : ℤ × S
  to_send = os.sendmsg (w.socks s).sock (msghdr_of none 0 (slot w s).bufs) w.os

  abbrev readable_world : World A S
  readable_world = set_rp s true w

  abbrev writable_world : World A S
  writable_world = set_wp s true w

  abbrev received : World A S
  received = record readable_world { os = to_recv.1 }

  abbrev sent : World A S
  sent = record writable_world { os = to_send.1 }

  try_read-set_rp : IsAnswer to_recv.0 → try_read os s readable_world ≡ (to_recv.0, received)
  unfolding try_read recv set_rp
  try_read-set_rp a =
      rw (ap (λ d. d.bufs) (slot-set_rp s w true))
        (ap (λ len. (len, received)) (transferred_answer os to_recv.0 to_recv.1 a))

  try_write-set_wp : IsAnswer to_send.0 → try_write os s writable_world ≡ (to_send.0, sent)
  unfolding try_write send set_wp
  try_write-set_wp a =
      rw (ap (λ d. d.bufs) (slot-set_wp s w true))
        (ap (λ len. (len, sent)) (transferred_answer os to_send.0 to_send.1 a))

  module _ (resume : ℤ → List A) (held : (slot w s).ev ≡ io_event resume) where
    on_in_read :
        (slot w s).type ≡ read
        → IsAnswer to_recv.0
        → (w' : World A S) × (on_in os siginfo s w ≡ some w') × Answered resume s to_recv.0 w w'
    unfolding on_in in_case set_rp
    on_in_read t a =
        let seen_type : (slot readable_world s).type ≡ read =
          ap (λ d. d.type) (slot-set_rp s w true) ∙ t in
        (
          in_transfer s (to_recv.0, received),
          rw (seen_type, in_case) (ap (λ r. some (in_transfer s r)) (try_read-set_rp a)),
          in_transfer-Answered resume s w received refl
              (ap (λ d. d.ev) (slot-set_rp s w true) ∙ held) to_recv.0 a,
        )

    on_out_write :
        (slot w s).type ≡ write
        → IsAnswer to_send.0
        → Answered resume s to_send.0 w (on_out os siginfo s w)
    unfolding on_out out_case set_wp
    on_out_write t a =
        let seen_type : (slot writable_world s).type ≡ write =
          ap (λ d. d.type) (slot-set_wp s w true) ∙ t in
        rw (seen_type, out_case, try_write-set_wp a)
          (out_transfer-Answered resume s w sent refl (ap (λ d. d.ev) (slot-set_wp s w true) ∙ held)
            set_wp to_send.0 a)

    -- EPOLLIN alone, for a read under way: the coroutine is to be resumed with the kernel's answer.
    pub handle_at_read :
        (events : ℕ)
        → IsCalm events true false
        → (slot w s).type ≡ read
        → IsAnswer to_recv.0
        → (w' : World A S) × (handle_at os siginfo events s w ≡ some w')
          × Answered resume s to_recv.0 w w'
    handle_at_read events c t a =
        let (w', did, k) = on_in_read t a in (w', handle_at_in os siginfo s events w c did, k)

    -- EPOLLOUT alone, for a write under way.
    pub handle_at_write :
        (events : ℕ)
        → IsCalm events false true
        → (slot w s).type ≡ write
        → IsAnswer to_send.0
        → (w' : World A S) × (handle_at os siginfo events s w ≡ some w')
          × Answered resume s to_send.0 w w'
    handle_at_write events c t a = (_, handle_at_out os siginfo s events w c, on_out_write t a)
