-- ===== src/World.antt =====
-- The state that the components share on Linux: the fields of `Context` (venti/context.h) with its
-- `Epoll` handler (venti/platform/linux/epoll.h), and the objects that they reach by pointer, each
-- kind in a store of its own: `LinuxSock`s, their `SockEventData` (venti/platform/linux/
-- linuxsock.h) and the caller's `IPAddr`s. A null pointer is `none`.
use venti.Prelude.{ℕ, List, Bool, Option, none, some, false, update}
use venti.Prelude.Int.{ℤ}
use venti.Event.{Event, event_default}
use venti.Buffer.{Buffers, buffers_empty}
use venti.Addr.{IpAddr}
use venti.Sock.Utils.{LinuxSock}

-- `SockEventData::Type`
pub data EvType : Type 0 where
  read write accept connect recvfrom sendto timetick signal noop : EvType

-- `SockEventData`: the one operation that a socket can have under way. `rp` and `wp` say that the
-- socket was last seen readable or writable. `target` is the field `data`, a pointer to a socket
-- (ACCEPT) or to an address (RECVFROM, SENDTO).
pub record SockEventData (A : Type 0) : Type 0 where
  pub sock : Option ℕ
  pub bufs : Buffers
  pub ev : Event A
  pub rp : Bool
  pub wp : Bool
  pub type : EvType
  pub target : Option ℕ

pub record World (A S : Type 0) : Type 0 where
  pub waitset : List (Event A)
  pub can_continue : Bool
  pub epoll : ℤ
  pub socks : ℕ → LinuxSock
  pub evs : ℕ → SockEventData A
  pub addrs : ℕ → IpAddr
  pub os : S

module _ {A : Type 0} where
  -- `new SockEventData()`: what has no initialiser is zero, and the type zero is READ.
  unfoldable pub new_data : SockEventData A
  new_data = record {
    sock = none;
    bufs = buffers_empty;
    ev = event_default;
    rp = false;
    wp = false;
    type = read;
    target = none;
  }

  -- The four `Set`s. `rp`, `wp` and what an overload does not mention stay.
  unfoldable pub set_bufs : EvType → ℕ → Buffers → Event A → SockEventData A → SockEventData A
  set_bufs type sock bufs ev d = record d { sock = some sock; type = type; bufs = bufs; ev = ev }

  unfoldable pub set_bufs_target :
      EvType → ℕ → Buffers → Event A → Option ℕ → SockEventData A → SockEventData A
  set_bufs_target type sock bufs ev target d = record d {
    sock = some sock;
    type = type;
    bufs = bufs;
    ev = ev;
    target = target;
  }

  unfoldable pub set_event : EvType → ℕ → Event A → SockEventData A → SockEventData A
  set_event type sock ev d = record d { sock = some sock; type = type; ev = ev }

  unfoldable pub set_event_target :
      EvType → ℕ → Event A → Option ℕ → SockEventData A → SockEventData A
  set_event_target type sock ev target d = record d {
    sock = some sock;
    type = type;
    ev = ev;
    target = target;
  }

  -- `Clear`
  unfoldable pub cleared : SockEventData A → SockEventData A
  cleared d = record d { type = noop }

module _ {A S : Type 0} where
  -- `*sock.ev_` and a write to it.
  abbrev pub slot : World A S → ℕ → SockEventData A
  slot w s = w.evs (w.socks s).ev

  abbrev pub put_slot : ℕ → SockEventData A → World A S → World A S
  put_slot s d w = record w { evs = update w.evs (w.socks s).ev d }
