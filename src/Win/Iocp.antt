-- ===== src/Win/Iocp.antt =====
-- `WinIocp` of venti/platform/win/winiocp.h: its overlapped blocks (`SEOL`), the world that it works
-- on, and the system calls that it makes.
pub mod Submit
pub mod Wait
pub mod Shows
pub mod Request
pub mod Refinement
pub mod Errors
pub mod Blocks
pub mod Ledger
use venti.Prelude.{ℕ, suc, List, Bool, Option, none, some, update}
use venti.Prelude.Int.{ℤ}
use venti.Event.{Event, EvStat, event_default}
use venti.Addr.{IpAddr, AddrType}
use venti.Os.{Sockaddr, SockaddrIn, SockaddrIn6}
use venti.Win.Os.{Wsabuf, Wsamsg}
use venti.Win.Sock.{WinSock}

-- `WinIocp::Type`
pub data IocpType : Type 0 where
  read write recvfrom sendto accept connect : IocpType

-- What `data` points to: a block for one address, or for the two that `AcceptEx` writes.
pub data Block : Type 0 where
  name_block accept_block : AddrType → Block

-- What `extra` points to: an address of the caller, or the address of a socket.
pub data Target : Type 0 where
  caller_addr sock_addr : ℕ → Target

-- `SEOL`; `block` is the field `data`. `extra` is `none` until it is set.
pub record Seol (A : Type 0) : Type 0 where
  pub type : IocpType
  pub sock : ℕ
  pub ev : Event A
  pub block : Option Block
  pub extra : Option Target
  pub ipa : AddrType

-- The overlapped calls are told the block's address; they return the `int` or `BOOL` of the C
-- function. `get_status` is `GetQueuedCompletionStatus`: whether it is valid, the block's address,
-- null or not, and the length. `block4`, `block6`, `remote4` and `remote6` read the addresses that
-- stand in a block, the last two through `GetAcceptExSockaddrs`. `error_macro` is the system headers'
-- macro ERROR as an event's status, and `raw_type` and `raw_ipa` are fields that are not initialised.
pub record IocpOs (S : Type 0) : Type 0 where
  pub error_macro : EvStat
  pub raw_type : S → IocpType
  pub raw_ipa : S → AddrType
  pub create_port : S → ℕ × S
  pub add_to_port : ℕ → ℕ → S → S
  pub recv_ol : ℕ → List Wsabuf → ℕ → S → ℤ × S
  pub send_ol : ℕ → List Wsabuf → ℕ → S → ℤ × S
  pub send_msg_ol : ℕ → Wsamsg → ℕ → S → ℤ × S
  pub recv_msg_ol : ℕ → ℕ → Wsamsg → ℕ → S → ℤ × S
  pub accept_ex : ℕ → ℕ → ℕ → ℕ → S → ℤ × S
  pub connect_ex_ol : ℕ → ℕ → Sockaddr → ℕ → ℕ → S → ℤ × S
  pub disconnect_ex : ℕ → ℕ → S → S
  pub get_status : ℕ → S → Bool × Option ℕ × ℕ × S
  pub block4 : ℕ → S → SockaddrIn
  pub block6 : ℕ → S → SockaddrIn6
  pub remote4 : ℕ → S → SockaddrIn
  pub remote6 : ℕ → S → SockaddrIn6

-- The context's wait set, the sockets and the addresses under their addresses, and the blocks that
-- are allocated; `next_seol` is the address of the next one, and no address is used twice.
pub record WinWorld (A S : Type 0) : Type 0 where
  pub waitset : List (Event A)
  pub port : ℕ
  pub socks : ℕ → WinSock
  pub addrs : ℕ → IpAddr
  pub seols : ℕ → Option (Seol A)
  pub next_seol : ℕ
  pub os : S

-- The blocks that the second and third `InitSEOL` allocate.
unfoldable pub connect_block : IocpType → AddrType → Option Block
connect_block connect ipa = some (name_block ipa)
connect_block _ ipa = none

unfoldable pub extra_block : IocpType → AddrType → Option Block
extra_block recvfrom ipa = some (name_block ipa)
extra_block accept ipa = some (accept_block ipa)
extra_block _ ipa = none

-- What `DelSEOL` takes `data` for.
unfoldable pub freed_as : IocpType → AddrType → Option Block
freed_as recvfrom ipa = some (name_block ipa)
freed_as accept ipa = some (accept_block ipa)
freed_as connect ipa = some (name_block ipa)
freed_as _ ipa = none

module _ {A : Type 0} where
  -- The three `InitSEOL`.
  unfoldable pub init_seol : IocpType → ℕ → Event A → Seol A → Seol A
  init_seol type sk ev s = record s { type = type; sock = sk; ev = ev; block = none }

  unfoldable pub init_seol_ipa : IocpType → ℕ → Event A → AddrType → Seol A → Seol A
  unfolding init_seol connect_block
  init_seol_ipa type sk ev ipa s = record (init_seol type sk ev s) {
    ipa = ipa;
    block = connect_block type ipa;
  }

  unfoldable pub init_seol_extra : IocpType → ℕ → Event A → AddrType → Target → Seol A → Seol A
  unfolding extra_block
  init_seol_extra type sk ev ipa extra s = record s {
    type = type;
    sock = sk;
    ev = ev;
    ipa = ipa;
    extra = some extra;
    block = extra_block type ipa;
  }

  -- `DelSEOL`: the block that it deletes. A null `data` stays.
  unfoldable pub freed : Seol A → Option Block
  unfolding freed_as
  freed s = elim s.block [ none ↦ none | some b ↦ freed_as s.type s.ipa ]

module _ {A S : Type 0} (io : IocpOs S) where
  -- `new SEOL`
  unfoldable pub new_seol : S → Seol A
  new_seol s = record {
    type = io.raw_type s;
    sock = 0;
    ev = event_default;
    block = none;
    extra = none;
    ipa = io.raw_ipa s;
  }

  -- `WinIocp(Context* ctx)`
  unfoldable pub iocp_init : WinWorld A S → WinWorld A S
  iocp_init w = let (port, o) = io.create_port w.os in record w { port = port; os = o }

  -- `RegSock`
  unfoldable pub iocp_reg_sock : ℕ → WinWorld A S → WinWorld A S
  iocp_reg_sock s w = record w { os = io.add_to_port (w.socks s).sock w.port w.os }

module _ {A S : Type 0} where
  -- A block just allocated is filled in, and a block is deleted.
  unfoldable pub alloc_seol : Seol A → WinWorld A S → WinWorld A S
  alloc_seol q w = record w {
    seols = update w.seols w.next_seol (some q);
    next_seol = suc w.next_seol;
  }

  unfoldable pub free_seol : ℕ → WinWorld A S → WinWorld A S
  free_seol p w = record w { seols = update w.seols p none }
