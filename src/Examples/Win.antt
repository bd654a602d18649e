-- ===== src/Examples/Win.antt =====
-- The sockets of the Windows build on a system whose `socket` and `accept` fail.
use venti.Prelude.{ℕ, ◌-◌, ◌^◌, refl, false, replicate, arith}
use venti.Prelude.Int.{pos}
use venti.Sock.Addresses.{SameAddr}
use venti.Win.Os.{WinOs}
use venti.Win.Sock.{WinSock, win_to_sockaddr4, win_to_sockaddr6}
use venti.Win.Sock.Laws.{win_recvfrom-SameAddr}
use venti.Win.Sock.Transfer.{win_recvfrom}
use venti.Addr.{IpAddr}
use venti.Prelude.{some, true, ◌≡◌}
use venti.Examples.{one_buffer, localhost, loopback6}

abbrev invalid_socket : ℕ
invalid_socket = 2 ^ 64 - 1

abbrev pub failing : WinOs ℕ
failing = record {
  last_error = λ s. s;
  raw = λ _. replicate 16 0;
  name4 = λ _. win_to_sockaddr4 localhost;
  name6 = λ _. win_to_sockaddr6 loopback6;
  wsa_startup = λ _ s. (pos 0, s);
  wsa_socket = λ _ _ _ s. (invalid_socket, s);
  ioctlsocket = λ _ _ s. s;
  wsa_ioctl = λ _ _ old s. (old, s);
  connect = λ _ _ _ s. (pos 0, s);
  bind = λ _ _ _ s. (pos 0, s);
  listen = λ _ _ s. (pos 0, s);
  accept = λ _ _ s. (invalid_socket, s);
  wsa_send = λ _ _ s. (pos 0, 7, s);
  wsa_recv = λ _ _ s. (pos 0, 7, s);
  wsa_send_msg = λ _ _ s. (pos 0, 7, s);
  call_recv_msg = λ _ _ _ s. (pos 0, 7, s);
  shutdown = λ _ _ s. (pos 0, s);
  closesocket = λ _ s. (pos 0, s);
}

abbrev pub fresh : WinSock
fresh = record {
  sock = 0;
  addr = localhost;
  recv_msg = 0;
  connect_fn = 0;
  disconnect_fn = 0;
  inited = false;
}

abbrev fresh6 : WinSock
fresh6 = record fresh { addr = loopback6 }

win_recvfrom-SameAddr_example :
    (b : IpAddr) × (win_recvfrom failing fresh6 one_buffer true 0 ≡ (pos 7, some b, 0))
    × SameAddr b loopback6
win_recvfrom-SameAddr_example =
    win_recvfrom-SameAddr failing fresh6 one_buffer loopback6 0 0 7 refl (omega arith) refl
      (omega arith) refl
