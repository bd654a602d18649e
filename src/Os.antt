-- ===== src/Os.antt =====
-- The calls that venti makes of the kernel and the C library on Linux. None of that code is under
-- this repository: it is the parameter `Os` of the model, over a type `S` of kernel states (user
-- memory that the kernel writes included).
use venti.Prelude.{ℕ, List, Option}
use venti.Prelude.Int.{ℤ}

-- `sockaddr_in` and `sockaddr_in6`, field by field.
pub record SockaddrIn : Type 0 where
  pub sin_family : ℕ
  pub sin_port : ℕ
  pub sin_addr : List ℕ
  pub sin_zero : List ℕ

pub record SockaddrIn6 : Type 0 where
  pub sin6_family : ℕ
  pub sin6_port : ℕ
  pub sin6_flowinfo : ℕ
  pub sin6_addr : List ℕ
  pub sin6_scope_id : ℕ

pub data Sockaddr : Type 0 where
  in4 : SockaddrIn → Sockaddr
  in6 : SockaddrIn6 → Sockaddr

pub record Iovec : Type 0 where
  pub iov_base : ℕ
  pub iov_len : ℕ

-- `msg_name` is the address that is sent to, or the zeroed block that a sender is written to.
pub record Msghdr : Type 0 where
  pub msg_name : Option Sockaddr
  pub msg_namelen : ℕ
  pub msg_iov : List Iovec
  pub msg_iovlen : ℕ

-- `itimerspec`: the interval and the first expiry, each in seconds and nanoseconds.
pub record Itimerspec : Type 0 where
  pub interval_sec : ℤ
  pub interval_nsec : ℤ
  pub value_sec : ℤ
  pub value_nsec : ℤ

-- `epoll_event`; `ptr` is the address of a `SockEventData`.
pub record EpollEvent : Type 0 where
  pub events : ℕ
  pub ptr : ℕ

pub data EpollOp : Type 0 where
  add : ℤ → EpollEvent → EpollOp
  del : ℤ → EpollOp

-- A call returns what the C function returns, -1 for a failure, and the next state; then `errno`
-- reads the error. `name4` and `name6` read the caller's address block as `accept` or `recvmsg`
-- left it, `ssi_signo` the signal number of the caller's `signalfd_siginfo`, and `raw` the bytes of
-- an object that is not initialised. `epoll_wait` returns the events that it filled in, none when
-- it fails.
pub record Os (S : Type 0) : Type 0 where
  pub errno : S → ℕ
  pub raw : S → List ℕ
  pub name4 : S → SockaddrIn
  pub name6 : S → SockaddrIn6
  pub ssi_signo : S → ℕ
  pub socket : ℕ → ℕ → ℕ → S → ℤ × S
  pub ioctl_fionbio : ℤ → ℕ → S → S
  pub connect : ℤ → Sockaddr → ℕ → S → ℤ × S
  pub bind : ℤ → Sockaddr → ℕ → S → ℤ × S
  pub listen : ℤ → ℤ → S → ℤ × S
  pub accept : ℤ → ℕ → S → ℤ × S
  pub sendmsg : ℤ → Msghdr → S → ℤ × S
  pub recvmsg : ℤ → Msghdr → S → ℤ × S
  pub shutdown : ℤ → ℤ → S → ℤ × S
  pub close : ℤ → S → ℤ × S
  pub timerfd_create : S → ℤ × S
  pub timerfd_settime : ℤ → Itimerspec → S → S
  pub epoll_create : S → ℤ × S
  pub epoll_ctl : ℤ → EpollOp → S → S
  pub epoll_wait : ℤ → ℕ → S → List EpollEvent × S
