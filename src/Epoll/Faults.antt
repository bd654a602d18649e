-- ===== src/Epoll/Faults.antt =====
-- How venti/platform/linux/epollimpl.h treats a transfer that the kernel refuses or fulfils at once.
use venti.Prelude.{ℕ, ◌^◌, ◌<◌, ◌≡◌, refl, true, [], ◌∷◌, ◌++◌, none, arith}
use venti.Prelude.Int.{ℤ, pos, negsuc, to_size, to_int, to_int-to_size_pos}
use venti.Event.{Event, completed, err}
use venti.Buffer.{Buffers}
use venti.Os.{Os}
use venti.Sock.Transfer.{transferred, recv, msghdr_of}
use venti.World.{World, SockEventData, read, noop, slot, put_slot, set_bufs}
use venti.Context.{submit_complete, settled}
use venti.Epoll.Slot.{set_rp, clear, fail_now, finish_now, try_read}
use venti.Epoll.Submit.{after_transfer, submit_read}

module _ {S : Type 0} (os : Os S) where
  -- The error test is on an unsigned value, so a failed call's -1 is returned as it is, and never
  -- the negative of `errno`.
  pub transferred_failed : (s : S) → transferred os (negsuc 0) s ≡ negsuc 0
  unfolding transferred to_size to_int
  transferred_failed s = refl

  pub transferred_pos : (n : ℕ) (s : S) → n < 2 ^ 31 → transferred os (pos n) s ≡ pos n
  unfolding transferred
  transferred_pos n s h = ground (arith, to_int-to_size_pos n h)

module _ {A S : Type 0} where
  slot-put_slot : (s : ℕ) (d : SockEventData A) (w : World A S) → slot (put_slot s d w) s ≡ d
  slot-put_slot s d w = ground arith

module _ {A S : Type 0} (os : Os S) (s : ℕ) (buf : Buffers) (ev : Event A) (w : World A S) where
  -- The kernel's answer to the read that is tried at once.
  abbrev pub read_reply : ℤ
  read_reply = (os.recvmsg (w.socks s).sock (msghdr_of none 0 buf) w.os).0

  abbrev read_set : World A S
  read_set = put_slot s (set_bufs read s buf ev (slot w s)) w

  abbrev read_tried : World A S
  read_tried = record read_set { os = (os.recvmsg (w.socks s).sock (msghdr_of none 0 buf) w.os).1 }

  submit_read_ready :
      (len : ℤ)
      → (slot w s).rp ≡ true
      → transferred os read_reply read_tried.os ≡ len
      → submit_read os s buf ev w ≡ after_transfer set_rp s ev (len, read_tried)
  unfolding submit_read try_read recv set_bufs
  submit_read_ready len ready e =
      rw (slot-put_slot s (set_bufs read s buf ev (slot w s)) w, ready) (rw e)

  -- On a socket last seen readable, a read that the kernel answers with `n` bytes is finished at
  -- once with the result `n`.
  pub submit_read_succeeds :
      (n : ℕ)
      → (slot w s).rp ≡ true
      → read_reply ≡ pos n
      → n < 2 ^ 31
      → ((submit_read os s buf ev w).waitset
          ≡ w.waitset ++ record ev { status = completed; res = pos n } ∷ [])
        × ((slot (submit_read os s buf ev w) s).type ≡ noop)
  unfolding after_transfer finish_now clear submit_complete settled
  submit_read_succeeds n ready reply fits =
      let len : transferred os read_reply read_tried.os ≡ pos n =
        rw reply (transferred_pos os n read_tried.os fits) in
      rw (submit_read_ready (pos n) ready len) (refl, ground arith)

  -- A read that the kernel refuses, for whatever reason, EWOULDBLOCK included, is finished at once
  -- as an error with the number 1: the operation never waits for the socket.
  pub submit_read_refused :
      (slot w s).rp ≡ true
      → read_reply ≡ negsuc 0
      → ((submit_read os s buf ev w).waitset
          ≡ w.waitset ++ record ev { status = err; error = pos 1 } ∷ [])
        × ((slot (submit_read os s buf ev w) s).type ≡ noop)
  unfolding after_transfer fail_now clear submit_complete settled
  submit_read_refused ready reply =
      let len : transferred os read_reply read_tried.os ≡ negsuc 0 =
        rw reply (transferred_failed os read_tried.os) in
      rw (submit_read_ready (negsuc 0) ready len) (refl, ground arith)
