-- ===== src/Examples.antt =====
-- A small concrete kernel and world, on which the tests and the examples of the theorems run.
pub mod Runs
pub mod Rounds
pub mod Requests
pub mod Values
pub mod Win
pub mod Handlers
pub mod Accounts
pub mod Deliveries
pub mod Steady
pub mod Iocp
pub mod Select
use venti.Prelude.{ℕ, ◌+◌, List, [], ◌∷◌, ◌++◌, Bool, true, none, some, replicate}
use venti.Prelude.Int.{ℤ, pos, negsuc}
use venti.Event.{Event, event_of}
use venti.Buffer.{Buffers, buffers_of}
use venti.Addr.{IpAddr, ipv4, ipv6}
use venti.Os.{Os, EpollEvent}
use venti.Sock.Utils.{LinuxSock, zero_sockaddr4, zero_sockaddr6}
use venti.World.{World, EvType, SockEventData}

-- A kernel whose state is `errno`; each transfer answers `r`, each connect and accept `c`, and
-- `epoll_wait` reports `es`.
abbrev pub kernel : ℤ → ℤ → List EpollEvent → Os ℕ
kernel r c es = record {
  errno = λ s. s;
  raw = λ _. replicate 16 0;
  name4 = λ _. zero_sockaddr4;
  name6 = λ _. zero_sockaddr6;
  ssi_signo = λ _. 2;
  socket = λ _ _ _ s. (pos 5, s);
  ioctl_fionbio = λ _ _ s. s;
  connect = λ _ _ _ s. (c, s);
  bind = λ _ _ _ s. (pos 0, s);
  listen = λ _ _ s. (pos 0, s);
  accept = λ _ _ s. (c, s);
  sendmsg = λ _ _ s. (r, s);
  recvmsg = λ _ _ s. (r, s);
  shutdown = λ _ _ s. (pos 0, s);
  close = λ _ s. (pos 0, s);
  timerfd_create = λ s. (pos 6, s);
  timerfd_settime = λ _ _ s. s;
  epoll_create = λ s. (pos 3, s);
  epoll_ctl = λ _ _ s. s;
  epoll_wait = λ _ _ s. (es, s);
}

abbrev pub localhost : IpAddr
localhost = record { kind = ipv4; bytes = 127 ∷ 0 ∷ 0 ∷ 1 ∷ []; port = 8080 }

abbrev pub one_buffer : Buffers
one_buffer = buffers_of (record { content = 4096; len = 512 })

-- An event whose callback makes the one call 1.
abbrev pub call_one : Event ℕ
call_one = event_of (λ _ _. 1 ∷ [])

-- Socket `s` has the descriptor `s + 4` and its event data at `s`, where an operation `type` is
-- under way that aims at socket or address 1.
abbrev pub world : EvType → Bool → World ℕ ℕ
world type ready = record {
  waitset = [];
  can_continue = true;
  epoll = pos 3;
  socks = λ s. record { ev = s; sock = pos 4; addr = localhost };
  evs = λ s. record {
    sock = some s;
    bufs = one_buffer;
    ev = call_one;
    rp = ready;
    wp = ready;
    type = type;
    target = some 1;
  };
  addrs = λ _. localhost;
  os = 11;
}

-- A coroutine that hands on the value that it is resumed with, negative ones from 1000 on.
abbrev pub hand_on : ℤ → List ℕ
hand_on (pos n) = n ∷ []
hand_on (negsuc n) = (1000 + n) ∷ []

abbrev pub loopback6 : IpAddr
loopback6 = record { kind = ipv6; bytes = replicate 15 0 ++ 1 ∷ []; port = 443 }
