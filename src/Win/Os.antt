-- ===== src/Win/Os.antt =====
-- The calls of Winsock that venti makes, a parameter over a type `S` of states of the system.
use venti.Prelude.{ℕ, List, Option}
use venti.Prelude.Int.{ℤ}
use venti.Os.{SockaddrIn, SockaddrIn6, Sockaddr}

-- `WSABUF` and `WSAMSG`; a length is an `unsigned long` of 32 bits.
pub record Wsabuf : Type 0 where
  pub buf : ℕ
  pub len : ℕ

-- `name` is the address block that the message points to, as it is before the call.
pub record Wsamsg : Type 0 where
  pub name : Option Sockaddr
  pub namelen : ℕ
  pub buffers : List Wsabuf
  pub buffer_count : ℕ

-- The functions that are looked up at run time.
pub data ExtFunc : Type 0 where
  wsa_recv_msg connect_ex disconnect_ex : ExtFunc

-- A `SOCKET` is an unsigned number of 64 bits, its greatest the invalid one. A transfer returns the
-- call's code and the count that it stored. `wsa_ioctl` is given the old pointer and returns the one
-- that stands there afterwards.
pub record WinOs (S : Type 0) : Type 0 where
  pub last_error : S → ℕ
  pub raw : S → List ℕ
  pub name4 : S → SockaddrIn
  pub name6 : S → SockaddrIn6
  pub wsa_startup : ℕ → S → ℤ × S
  pub wsa_socket : ℕ → ℕ → ℕ → S → ℕ × S
  pub ioctlsocket : ℕ → ℕ → S → S
  pub wsa_ioctl : ℕ → ExtFunc → ℕ → S → ℕ × S
  pub connect : ℕ → Sockaddr → ℕ → S → ℤ × S
  pub bind : ℕ → Sockaddr → ℕ → S → ℤ × S
  pub listen : ℕ → ℤ → S → ℤ × S
  pub accept : ℕ → ℕ → S → ℕ × S
  pub wsa_send : ℕ → List Wsabuf → S → ℤ × ℕ × S
  pub wsa_recv : ℕ → List Wsabuf → S → ℤ × ℕ × S
  pub wsa_send_msg : ℕ → Wsamsg → S → ℤ × ℕ × S
  pub call_recv_msg : ℕ → ℕ → Wsamsg → S → ℤ × ℕ × S
  pub shutdown : ℕ → ℤ → S → ℤ × S
  pub closesocket : ℕ → S → ℤ × S
