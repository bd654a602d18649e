-- ===== src/Signal/Delivery.antt =====
-- A signal from `Wait` to its callback (venti/platform/linux/linuxsignal.h, epollimpl.h beside it).
use venti.Prelude.{ℕ, ◌≡◌, refl, ap, ◌∙◌, true, false, List, none, some, arith, subst}
use venti.Prelude.Int.{ℤ, to_int, negsuc}
use venti.Event.{complete}
use venti.Buffer.{buffers_of}
use venti.Os.{Os, del}
use venti.Sock.Transfer.{recv, msghdr_of}
use venti.World.{World, signal, slot, set_event}
use venti.Context.{submit_complete}
use venti.Epoll.Slot.{set_rp, finish_slot, submit_slot, clear}
use venti.Epoll.Submit.{submit_signal, reg_sock}
use venti.Epoll.Wait.{handle_at, on_in, in_case, in_signal}
use venti.Tcp.Answer.{Answered, Answered-from, clear-Answered}
use venti.Tcp.Arrival.{IsCalm, handle_at_in, slot-set_rp}
use venti.Signal.{SignalOs, LinuxSignalHandler, signal_event, signal_wait}

module _ {A S : Type 0} (os : Os S) (siginfo s : ℕ) (w : World A S) where
  -- The kernel after the `signalfd_siginfo` has been read.
  abbrev after_read : ℤ → S → S
  after_read fd o =
      (os.recvmsg fd (msghdr_of none 0 (buffers_of (record { content = siginfo; len = 128 }))) o).1

  abbrev readable_world : World A S
  readable_world = set_rp s true w

  abbrev told : World A S
  told = record readable_world { os = after_read (w.socks s).sock w.os }

  abbrev told_slot : World A S
  told_slot = finish_slot s (to_int (os.ssi_signo told.os)) told

  abbrev unread : World A S
  unread = set_rp s false told_slot

  abbrev signalled : World A S
  signalled = record unread { os = os.epoll_ctl unread.epoll (del (unread.socks s).sock) unread.os }

  in_signal-set_rp : in_signal os siginfo s readable_world ≡ signalled
  unfolding in_signal recv set_rp
  in_signal-set_rp = refl

  os-signalled : signalled.os ≡ os.epoll_ctl w.epoll (del (w.socks s).sock) told.os
  unfolding set_rp finish_slot submit_slot submit_complete clear
  os-signalled = refl

  told_slot-Answered :
      (cb : ℤ → List A)
      → (slot told s).ev ≡ signal_event cb
      → Answered cb s (to_int (os.ssi_signo told.os)) w told_slot
  unfolding finish_slot submit_slot complete set_rp
  told_slot-Answered cb held =
      clear-Answered cb s (to_int (os.ssi_signo told.os)) _ w _ refl (rw held refl)

  signalled-Answered :
      (cb : ℤ → List A)
      → (slot told s).ev ≡ signal_event cb
      → Answered cb s (to_int (os.ssi_signo told.os)) w signalled
  unfolding set_rp
  signalled-Answered cb held =
      let k : Answered cb s (to_int (os.ssi_signo told.os)) w told_slot =
        told_slot-Answered cb held in
      record {
        answer = k.answer;
        added = k.added;
        resumes = k.resumes;
        due = k.due;
        idle = ground (arith, k.idle);
      }

  -- EPOLLIN alone, for a signal under way.
  handle_at_signal :
      (events : ℕ) (cb : ℤ → List A)
      → IsCalm events true false
      → (slot w s).type ≡ signal
      → (slot w s).ev ≡ signal_event cb
      → (handle_at os siginfo events s w ≡ some signalled)
        × Answered cb s (to_int (os.ssi_signo told.os)) w signalled
  unfolding on_in in_case set_rp
  handle_at_signal events cb c type held =
      let seen_type : (slot readable_world s).type ≡ signal =
        ap (λ d. d.type) (slot-set_rp s w true) ∙ type in
      let did : on_in os siginfo s w ≡ some signalled =
        rw (seen_type, in_case) (ap some in_signal-set_rp) in
      (
        handle_at_in os siginfo s events w c did,
        signalled-Answered cb (ap (λ d. d.ev) (slot-set_rp s w true) ∙ held),
      )

module _ {A M S : Type 0} (os : Os S) (sig : SignalOs M S) (siginfo : ℕ) (h : LinuxSignalHandler M)
    (cb : ℤ → List A) (w : World A S) where
  -- The descriptor that `signalfd` makes, and the kernel after the signal has been read from it in a
  -- state `o`.
  abbrev pub signal_fd : ℤ
  signal_fd = (sig.signalfd (negsuc 0) h.mask (sig.sigprocmask_set h.mask w.os)).0

  abbrev pub signal_read : S → S
  signal_read o =
      (os.recvmsg signal_fd
        (msghdr_of none 0 (buffers_of (record { content = siginfo; len = 128 }))) o).1

  abbrev waiting_world : World A S
  waiting_world = signal_wait os sig h cb w

  type-waiting : (slot waiting_world h.sock).type ≡ signal
  unfolding signal_wait submit_signal reg_sock set_event
  type-waiting = ground arith

  ev-waiting : (slot waiting_world h.sock).ev ≡ signal_event cb
  unfolding signal_wait submit_signal reg_sock set_event
  ev-waiting = ground arith

  sock-waiting : (waiting_world.socks h.sock).sock ≡ signal_fd
  unfolding signal_wait submit_signal reg_sock
  sock-waiting = ground arith

  kept-waiting : (waiting_world.waitset ≡ w.waitset) × (waiting_world.epoll ≡ w.epoll)
  unfolding signal_wait submit_signal reg_sock
  kept-waiting = (refl, refl)

  -- When a handler waits for its signals with the callback `cb`, no completion is added. When then
  -- the kernel, in whatever state `o` it is by then, reports EPOLLIN alone for the handler's
  -- descriptor, one completion is added, whose dispatch calls `cb` with the number, as an `int`, that
  -- stands in `Wait`'s `signalfd_siginfo` after the read, whether or not the read succeeded; the slot
  -- is free, and the descriptor is taken out of epoll.
  pub signal_wait-handle_at :
      (events : ℕ) (o : S)
      → IsCalm events true false
      → ((signal_wait os sig h cb w).waitset ≡ w.waitset)
        × (w' : World A S) × (handle_at os siginfo events h.sock
              (record (signal_wait os sig h cb w) { os = o })
            ≡ some w')
        × Answered cb h.sock (to_int (os.ssi_signo (signal_read o))) w w'
        × (w'.os ≡ os.epoll_ctl w.epoll (del signal_fd) (signal_read o))
  signal_wait-handle_at events o c =
      let v : World A S = record waiting_world { os = o } in
      let (did, k) = handle_at_signal os siginfo h.sock v events cb c type-waiting ev-waiting in
      let at : ℤ → S = λ fd. after_read os siginfo h.sock v fd o in
      (
        kept-waiting.0,
        signalled os siginfo h.sock v,
        did,
        subst
            (λ fd.
              Answered cb h.sock (to_int (os.ssi_signo (at fd))) w (signalled os siginfo h.sock v))
            sock-waiting (Answered-from cb h.sock kept-waiting.0 k),
        os-signalled os siginfo h.sock v
            ∙ ap (λ fd. os.epoll_ctl v.epoll (del fd) (at fd)) sock-waiting
            ∙ ap (λ p. os.epoll_ctl p (del signal_fd) (signal_read o)) kept-waiting.1,
      )
