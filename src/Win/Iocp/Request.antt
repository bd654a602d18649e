-- ===== src/Win/Iocp/Request.antt =====
-- The submissions of `WinIocp` (venti/platform/win/winiocpimpl.h) as an event handler's.
use venti.Epoll.Slot.{not_null, load_addr}
use venti.Win.Sock.{WinSock}
use venti.Win.Sock.Transfer.{wsabufs, win_sendto_msg, win_recvfrom_msg}
use venti.Prelude.{◌+◌, update, ℕ, ◌≡◌, refl, Option, none, some}
use venti.Prelude.Int.{ℤ}
use venti.Event.{Event}
use venti.Buffer.{Buffers}
use venti.Addr.{IpAddr, AddrType}
use venti.Handler.{Progress}
use venti.Win.Os.{WinOs}
use venti.Win.Iocp.{
  IocpOs, WinWorld, Seol, read, write, sendto, accept, connect, caller_addr, sock_addr, init_seol,
  init_seol_ipa, init_seol_extra, connect_block, extra_block, new_seol, alloc_seol,
}
use venti.Win.Iocp.Submit.{
  iocp_submit_read, iocp_submit_write, iocp_submit_accept, iocp_submit_connect, iocp_submit_sendto,
  iocp_submit_recvfrom, recvfrom_seol, after_submit, win_sockaddr, name_size, open_accepted,
}
use venti.Win.Iocp.Shows.{
  IsReady, Shows, Shows-same, Shows-alloc_seol, IsTaken, after_submit-IsTaken,
}

-- What is asked for, with the arguments of its `Submit…`.
pub data WinRequest : Type 0 where
  to_read to_write : Buffers → WinRequest
  to_connect : IpAddr → WinRequest
  to_accept : ℕ → WinRequest
  to_receive to_send : Option ℕ → Buffers → WinRequest

module _ {A S : Type 0} (os : WinOs S) (io : IocpOs S) (s : ℕ) (ev : Event A)
    (w : WinWorld A S) where
  unfoldable pub win_submit : WinRequest → WinWorld A S
  win_submit (to_read buf) = iocp_submit_read os io s buf ev w
  win_submit (to_write buf) = iocp_submit_write os io s buf ev w
  win_submit (to_connect addr) = iocp_submit_connect os io s addr ev w
  win_submit (to_accept res) = iocp_submit_accept os io s res ev w
  win_submit (to_receive peer buf) = iocp_submit_recvfrom os io s peer buf ev w
  win_submit (to_send peer buf) = iocp_submit_sendto os io s peer buf ev w

  -- After a block is allocated, whatever is done to the sockets and the system.
  alloc_then :
      (p : Progress A) (q : Seol A) (w' : WinWorld A S) (err : ℤ)
      → q.ev ≡ ev
      → IsReady q
      → Shows w p
      → w'.waitset ≡ (alloc_seol q w).waitset
      → w'.seols ≡ (alloc_seol q w).seols
      → IsTaken os w.next_seol ev p (err, w'.os) (after_submit os io ev (err, w'))
  alloc_then p q w' err same ready h e f =
      after_submit-IsTaken os io w' p w.next_seol ev err
        (Shows-same e f (Shows-alloc_seol w p q ev same ready h))

  recvfrom_seol-IsReady :
      (peer : Option ℕ) (kind : AddrType) (o : S)
      → ((recvfrom_seol io s peer ev kind o).ev ≡ ev) × IsReady (recvfrom_seol io s peer ev kind o)
  unfolding recvfrom_seol init_seol_ipa init_seol_extra connect_block extra_block
  recvfrom_seol-IsReady none kind o = (refl, tt)
  recvfrom_seol-IsReady (some p) kind o = (refl, (caller_addr p, refl))

  -- The answer of the call that each submission makes, and the state it leaves.
  unfoldable pub win_answer : WinRequest → ℤ × S
  win_answer (to_read buf) = io.recv_ol (w.socks s).sock (wsabufs buf.bufs) w.next_seol w.os
  win_answer (to_write buf) = io.send_ol (w.socks s).sock (wsabufs buf.bufs) w.next_seol w.os
  win_answer (to_connect addr) =
      io.connect_ex_ol (w.socks s).connect_fn (w.socks s).sock
        (win_sockaddr (w.socks s).addr.kind addr) (name_size (w.socks s).addr.kind) w.next_seol w.os
  win_answer (to_accept res) =
      let (_, sk, o) = open_accepted os (w.socks s).addr.kind (w.socks res) w.os in
      let socks : ℕ → WinSock = update w.socks res sk in
      io.accept_ex (socks s).sock (socks res).sock (name_size (w.socks s).addr.kind + 16)
        w.next_seol o
  win_answer (to_receive peer buf) =
      io.recv_msg_ol (w.socks s).recv_msg (w.socks s).sock
        (win_recvfrom_msg os (w.socks s).addr.kind buf (not_null peer) w.os) w.next_seol w.os
  win_answer (to_send peer buf) =
      io.send_msg_ol (w.socks s).sock
        (win_sendto_msg os (w.socks s).addr.kind buf (load_addr w.addrs peer)) w.next_seol w.os

  -- Every kind of submission to the completion port has an operation in a new block. If the system's
  -- answer is negative and the last error is not WSA_IO_PENDING, it is finished at once with one
  -- completion, whose error is the negative of the last error. Otherwise, also where AcceptEx or
  -- ConnectEx answers FALSE, the operation is taken to be under way and no completion is added. No
  -- other operation that is under way and no earlier completion changes.
  pub win_submit-IsTaken :
      (req : WinRequest) (p : Progress A)
      → Shows w p
      → IsTaken os w.next_seol ev p (win_answer req) (win_submit req)
  unfolding win_answer win_submit iocp_submit_read iocp_submit_write iocp_submit_connect
      iocp_submit_accept iocp_submit_recvfrom iocp_submit_sendto init_seol init_seol_ipa
      init_seol_extra alloc_seol
  win_submit-IsTaken (to_read buf) p h =
      alloc_then p (init_seol read s ev (new_seol io w.os)) _ _ refl tt h refl refl
  win_submit-IsTaken (to_write buf) p h =
      alloc_then p (init_seol write s ev (new_seol io w.os)) _ _ refl tt h refl refl
  win_submit-IsTaken (to_connect addr) p h =
      alloc_then p (init_seol_ipa connect s ev (w.socks s).addr.kind (new_seol io w.os)) _ _ refl tt
        h refl refl
  win_submit-IsTaken (to_accept res) p h =
      alloc_then p
        (init_seol_extra accept s ev (w.socks s).addr.kind (sock_addr res) (new_seol io w.os)) _ _
        refl (sock_addr res, refl) h refl refl
  win_submit-IsTaken (to_receive peer buf) p h =
      let (same, ready) = recvfrom_seol-IsReady peer (w.socks s).addr.kind w.os in
      alloc_then p (recvfrom_seol io s peer ev (w.socks s).addr.kind w.os) _ _ same ready h refl
        refl
  win_submit-IsTaken (to_send peer buf) p h =
      alloc_then p (init_seol sendto s ev (new_seol io w.os)) _ _ refl tt h refl refl
