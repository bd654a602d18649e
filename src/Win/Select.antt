-- ===== src/Win/Select.antt =====
-- `WinSockSelect` of venti/platform/win/winevent.h: a table of sockets, each with one operation that
-- reads and one that writes.
pub mod Try
pub mod Submit
pub mod Wait
pub mod Attempts
pub mod Sides
pub mod Sound
pub mod Rounds
pub mod Served
pub mod Asked
pub mod Waiting
pub mod Histories
pub mod Keeping
pub mod Keeps
pub mod Accepting
pub mod View
pub mod Sided
pub mod Connecting
pub mod Request
use venti.Prelude.{ℕ, List, Bool, true, false, Option, none, some, if◌then◌else◌}
use venti.Prelude.Int.{ℤ}
use venti.Event.{Event, event_default}
use venti.Buffer.{Buffers, buffers_empty}
use venti.Addr.{IpAddr}
use venti.Win.Os.{WinOs}
use venti.Win.Map.{map_get, map_put, map_erase}
use venti.Win.Sock.{WinSock, win_close}

-- `SockEventData::Type`
pub data SelType : Type 0 where
  read write recvfrom sendto accept connect : SelType

-- `SockEventData`. `target` is the field `data`, a pointer to a socket (ACCEPT) or an address, `none`
-- where it is null or was never set.
pub record SelData (A : Type 0) : Type 0 where
  pub sock : Option ℕ
  pub bufs : Buffers
  pub event : Event A
  pub target : Option ℕ
  pub processing : Bool
  pub type : SelType

-- `SockEvent`
pub record SockEvent (A : Type 0) : Type 0 where
  pub rdata : SelData A
  pub wdata : SelData A
  pub ractivated : Bool
  pub wactivated : Bool

-- `fd_set` with its macros, and `select`, which returns its code and the two sets. `raw_type` is a
-- field that is not initialised.
pub record SelectOs (F S : Type 0) : Type 0 where
  pub raw_type : SelType
  pub fd_zero : F
  pub fd_set : ℕ → F → F
  pub fd_isset : ℕ → F → Bool
  pub select : ℤ → F → F → S → ℤ × F × F × S

-- The context's wait set, the sockets and addresses under their addresses, and the object's fields;
-- `table` is `socks_`, by the descriptors.
pub record SelWorld (A F S : Type 0) : Type 0 where
  pub waitset : List (Event A)
  pub socks : ℕ → WinSock
  pub addrs : ℕ → IpAddr
  pub table : List (ℕ × SockEvent A)
  pub rs : F
  pub ws : F
  pub os : S

module _ {A : Type 0} where
  -- The constructors of `SockEventData`.
  unfoldable pub sel_data : SelType → ℕ → Buffers → Event A → Option ℕ → SelData A
  sel_data type s bufs ev target = record {
    sock = some s;
    bufs = bufs;
    event = ev;
    target = target;
    processing = false;
    type = type;
  }

  -- `Set` leaves `processing`.
  unfoldable pub sel_set : SelData A → SelData A → SelData A
  sel_set d e = record d {
    type = e.type;
    sock = e.sock;
    bufs = e.bufs;
    event = e.event;
    target = e.target;
  }

  unfoldable pub add_read : SelData A → SockEvent A → SockEvent A
  unfolding sel_set
  add_read e se = record se { rdata = sel_set se.rdata e; ractivated = true }

  unfoldable pub add_write : SelData A → SockEvent A → SockEvent A
  unfolding sel_set
  add_write e se = record se { wdata = sel_set se.wdata e; wactivated = true }

  unfoldable pub add_as : SelType → SelData A → SockEvent A → SockEvent A
  add_as read = add_read
  add_as recvfrom = add_read
  add_as accept = add_read
  add_as write = add_write
  add_as sendto = add_write
  add_as connect = add_write

  -- `AddEvent`
  unfoldable pub add_event : SelData A → SockEvent A → SockEvent A
  unfolding add_as
  add_event e se = add_as e.type e se

module _ {A F S : Type 0} (sel : SelectOs F S) where
  -- `SockEventData()` and `SockEvent()`
  unfoldable pub empty_data : SelData A
  empty_data = record {
    sock = none;
    bufs = buffers_empty;
    event = event_default;
    target = none;
    processing = false;
    type = sel.raw_type;
  }

  unfoldable pub empty_event : SockEvent A
  unfolding empty_data
  empty_event = record {
    rdata = empty_data;
    wdata = empty_data;
    ractivated = false;
    wactivated = false;
  }

  -- `WinSockSelect(Context* ctx)`: both sets are empty.
  unfoldable pub sel_init : SelWorld A F S → SelWorld A F S
  sel_init w = record w { rs = sel.fd_zero; ws = sel.fd_zero }

  -- `RegSock`
  unfoldable pub sel_reg_sock : ℕ → SelWorld A F S → SelWorld A F S
  sel_reg_sock s w = record w { table = map_put (w.socks s).sock empty_event w.table }

  -- The entry of a descriptor, a new one where there is none.
  unfoldable pub entry : ℕ → List (ℕ × SockEvent A) → SockEvent A
  entry fd table = elim (map_get fd table) [ none ↦ empty_event | some se ↦ se ]

  -- `SubmitReadEvent` and `SubmitWriteEvent`, which do the same.
  unfoldable pub submit_event : ℕ → SelData A → SelWorld A F S → SelWorld A F S
  submit_event s e w =
      let fd : ℕ = (w.socks s).sock in
      record w { table = map_put fd (add_event e (entry fd w.table)) w.table }

module _ {A F S : Type 0} where
  -- `IsReadable` and `IsWriteable`
  unfoldable pub is_readable : ℕ → SelWorld A F S → Bool
  is_readable s w = elim (map_get (w.socks s).sock w.table) [
    | none ↦ false
    | some se ↦ se.rdata.processing
  ]

  unfoldable pub is_writeable : ℕ → SelWorld A F S → Bool
  is_writeable s w = elim (map_get (w.socks s).sock w.table) [
    | none ↦ false
    | some se ↦ se.wdata.processing
  ]

module _ {A F S : Type 0} (os : WinOs S) where
  -- `CloseSock`
  unfoldable pub sel_close_sock : ℕ → SelWorld A F S → ℤ × SelWorld A F S
  sel_close_sock s w =
      let w' : SelWorld A F S = record w { table = map_erase (w.socks s).sock w.table } in
      let (r, o) = win_close os (w'.socks s) w'.os in (r, record w' { os = o })
