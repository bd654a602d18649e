-- ===== src/Examples/Iocp.antt =====
-- The completion port on a small system.
use venti.Prelude.{arith, ℕ, ◌≡◌, refl, ◌++◌, ◌∷◌, ◌+◌, [], true, some, none}
use venti.Prelude.Int.{pos, negsuc}
use venti.Event.{Event, complete, waiting}
use venti.Addr.{ipv4, ipv6}
use venti.Handler.{Progress, begun}
use venti.Tcp.{io_event}
use venti.Win.Sock.{win_to_sockaddr4, win_to_sockaddr6}
use venti.Win.Iocp.{
  IocpOs, WinWorld, Seol, read, accept, recvfrom, caller_addr, sock_addr, init_seol, init_seol_ipa,
  init_seol_extra, new_seol, freed, alloc_seol,
}
use venti.Win.Iocp.Submit.{iocp_submit_read}
use venti.Win.Iocp.Wait.{iocp_wait}
use venti.Win.Iocp.Shows.{Shows, Shows-alloc_seol}
use venti.Win.Iocp.Refinement.{IsReported, iocp_wait-IsReported}
use venti.Win.Iocp.Errors.{freed-block, iocp_submit_read_refused}
use venti.Win.Iocp.Ledger.{IsAccounted, turn, waits, handed, turn-IsAccounted}
use venti.Handler.Ledger.{many, waiting_count}
use venti.Win.Iocp.Request.{to_read, win_submit, win_answer, win_submit-IsTaken}
use venti.Win.Iocp.Shows.{IsTaken}
use venti.Win.Map.{map_get}
use venti.Examples.{localhost, loopback6, call_one, one_buffer, hand_on}
use venti.Examples.Win.{failing, fresh}

-- Overlapped reads fail with the error that `last_error` gives; the port names block 4, for 7 bytes.
abbrev port : IocpOs ℕ
port = record {
  error_macro = waiting;
  raw_type = λ _. read;
  raw_ipa = λ _. ipv4;
  create_port = λ s. (3, s);
  add_to_port = λ _ _ s. s;
  recv_ol = λ _ _ _ s. (negsuc 0, s);
  send_ol = λ _ _ _ s. (pos 0, s);
  send_msg_ol = λ _ _ _ s. (pos 0, s);
  recv_msg_ol = λ _ _ _ _ s. (pos 0, s);
  accept_ex = λ _ _ _ _ s. (pos 1, s);
  connect_ex_ol = λ _ _ _ _ _ s. (pos 0, s);
  disconnect_ex = λ _ _ s. s;
  get_status = λ _ s. (true, some 4, 7, s);
  block4 = λ _ _. win_to_sockaddr4 localhost;
  block6 = λ _ _. win_to_sockaddr6 loopback6;
  remote4 = λ _ _. win_to_sockaddr4 localhost;
  remote6 = λ _ _. win_to_sockaddr6 loopback6;
}

-- Nothing is under way; the next block is at 4, and the last error is 10054.
abbrev quiet : WinWorld ℕ ℕ
quiet = record {
  waitset = [];
  port = 3;
  socks = λ _. fresh;
  addrs = λ _. localhost;
  seols = λ _. none;
  next_seol = 4;
  os = 10054;
}

abbrev idle : Progress ℕ
idle = record { under_way = λ _. none; done = [] }

quiet-idle : Shows quiet idle
quiet-idle = record { done = refl; kept = λ k ev h. absurd cc }

-- A read that is refused.
win_submit-IsTaken_example :
    IsTaken failing 4 call_one idle
      (win_answer failing port 0 call_one quiet (to_read one_buffer))
      (win_submit failing port 0 call_one quiet (to_read one_buffer))
win_submit-IsTaken_example =
    win_submit-IsTaken failing port 0 call_one quiet (to_read one_buffer) idle quiet-idle

-- An accept into socket 1 is under way in block 4.
abbrev for_socket : Seol ℕ
for_socket = init_seol_extra accept 0 call_one ipv4 (sock_addr 1) (new_seol port 0)

accepting-begun : Shows (alloc_seol for_socket quiet) (begun 4 call_one idle)
unfolding init_seol_extra
accepting-begun =
    Shows-alloc_seol quiet idle for_socket call_one refl (sock_addr 1, refl) quiet-idle

port_names :
    port.get_status (alloc_seol for_socket quiet).port (alloc_seol for_socket quiet).os
    ≡ (true, some 4, 7, 10054)
unfolding alloc_seol
port_names = refl

iocp_wait-IsReported_example :
    (w' : WinWorld ℕ ℕ) × (iocp_wait failing port (alloc_seol for_socket quiet) ≡ some w')
    × IsReported 4 call_one (begun 4 call_one idle) w'
iocp_wait-IsReported_example =
    iocp_wait-IsReported failing port (alloc_seol for_socket quiet) (begun 4 call_one idle) true 4 7
      10054 call_one accepting-begun port_names refl

accepting-IsAccounted :
    IsAccounted (λ _. true) (alloc_seol for_socket quiet) (begun 4 call_one idle) 1
unfolding alloc_seol map_get
accepting-IsAccounted = record {
  shown = accepting-begun;
  unused = λ k above. ground arith;
  pending = record {
    table = (4, call_one) ∷ [];
    sorted = (tt, tt);
    matches = λ k. ground arith;
    counts = refl;
  };
}

turn-IsAccounted_example :
    (w' : WinWorld ℕ ℕ) × (p' : Progress ℕ) × (turn failing port waits (alloc_seol for_socket quiet)
      ≡ some w')
    × IsAccounted (λ _. true) w' p' (1 + many (λ _. true) (handed {A = ℕ} waits))
    × (waiting_count (λ _. true) w'.waitset ≡ 0 + many (λ _. true) (call_one.cb ∷ []))
unfolding alloc_seol
turn-IsAccounted_example =
    turn-IsAccounted failing port (λ _. true) 1 (alloc_seol for_socket quiet)
      (begun 4 call_one idle) accepting-IsAccounted waits
      (true, 4, 7, 10054, call_one, port_names, refl)

freed-block_example :
    (freed (init_seol recvfrom 0 call_one (new_seol port 0))
      ≡ (init_seol recvfrom 0 call_one (new_seol port 0)).block)
    × (freed (init_seol_ipa recvfrom 0 call_one ipv6 (new_seol port 0))
        ≡ (init_seol_ipa recvfrom 0 call_one ipv6 (new_seol port 0)).block)
    × (freed (init_seol_extra recvfrom 0 call_one ipv6 (caller_addr 1) (new_seol port 0))
        ≡ (init_seol_extra recvfrom 0 call_one ipv6 (caller_addr 1) (new_seol port 0)).block)
freed-block_example = freed-block 0 call_one ipv6 (new_seol port 0) recvfrom (caller_addr 1)

iocp_submit_read_refused_example :
    (r : Event ℕ) × ((iocp_submit_read failing port 0 one_buffer (io_event hand_on) quiet).waitset
      ≡ [] ++ r ∷ [])
    × (complete r ≡ 10054 ∷ [])
    × ((iocp_submit_read failing port 0 one_buffer (io_event hand_on) quiet).seols 4
        ≡ some (init_seol read 0 (io_event hand_on) (new_seol port 10054)))
iocp_submit_read_refused_example =
    iocp_submit_read_refused failing port 0 quiet one_buffer hand_on 10053 refl refl
      (λ h. absurd (omega arith))
