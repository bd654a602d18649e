-- ===== src/Signal.antt =====
-- venti/platform/linux/linuxsignal.h: signals through a signalfd. The C library's signal sets and
-- the calls that take one are the parameter `SignalOs`.
pub mod Delivery
use venti.Prelude.{ℕ, List, [], ◌∷◌, update}
use venti.Prelude.Int.{ℤ, negsuc}
use venti.Event.{Event, event_of}
use venti.Os.{Os}
use venti.Sock.Utils.{LinuxSock}
use venti.World.{World}
use venti.Epoll.Submit

-- `M` is `sigset_t`. `signalfd` makes a non-blocking descriptor.
pub record SignalOs (M S : Type 0) : Type 0 where
  pub sigaddset : M → ℤ → M
  pub sigprocmask_set : M → S → S
  pub signalfd : ℤ → M → S → ℤ × S

-- `LinuxSignalHandler`: its mask and the address of its `sock_`.
pub record LinuxSignalHandler (M : Type 0) : Type 0 where
  pub mask : M
  pub sock : ℕ

-- The event that `Wait` submits: the callback gets the signal number.
abbrev pub signal_event : {A : Type 0} → (ℤ → List A) → Event A
signal_event cb = event_of (λ len ec. cb len)

module _ {M S : Type 0} (sig : SignalOs M S) where
  unfoldable pub add_all : M → List ℤ → M
  add_all m [] = m
  add_all m (i ∷ is) = add_all (sig.sigaddset m i) is

  -- `AddSig`
  unfoldable pub add_sig : LinuxSignalHandler M → List ℤ → LinuxSignalHandler M
  add_sig h sigs = record h { mask = add_all h.mask sigs }

module _ {A M S : Type 0} (os : Os S) (sig : SignalOs M S) where
  -- `Wait`
  unfoldable pub signal_wait : LinuxSignalHandler M → (ℤ → List A) → World A S → World A S
  signal_wait h cb w =
      let (fd, o) = sig.signalfd (negsuc 0) h.mask (sig.sigprocmask_set h.mask w.os) in
      let sk : LinuxSock = record (w.socks h.sock) { sock = fd } in
      let w' : World A S = record w { socks = update w.socks h.sock sk; os = o } in
      Submit.submit_signal h.sock (signal_event cb) (Submit.reg_sock os h.sock w')

  -- venti/signal/signal.h, with `LinuxSignalHandler` for `PltSigHandler`: `co_await AsyncWait(sigh)`,
  -- which gives the coroutine the signal number.
  unfoldable pub await_signal : LinuxSignalHandler M → (ℤ → List A) → World A S → World A S
  await_signal h resume w = signal_wait h (λ signo. resume signo) w
