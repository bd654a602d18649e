-- ===== src/Win/Select/Request.antt =====
-- The submissions of `WinSockSelect` (venti/platform/win/wineventimpl.h) as an event handler's.
use venti.Prelude.{ℕ, ◌≡◌, refl, ap, sym, ◌∙◌, Option, none, some, update}
use venti.Prelude.Int.{pos}
use venti.Event.{Event}
use venti.Buffer.{Buffers, buffers_empty}
use venti.Handler.{Progress-path, begin}
use venti.Win.Os.{WinOs}
use venti.Win.Map.{map_put}
use venti.Win.Select.{
  SelData, SockEvent, SelWorld, SelectOs, read, write, recvfrom, sendto, accept, empty_event,
  add_event, add_read, add_write, sel_set, add_as, sel_data, submit_event, is_readable,
  is_writeable,
}
use venti.Win.Select.Try.{
  attempt, attempt_at, Tried, read_with, write_with, recvfrom_with, sendto_with, accept_with,
  sel_try_read, sel_try_write, sel_try_recvfrom, sel_try_sendto, sel_try_accept,
}
use venti.Win.Select.Attempts.{
  Keeps, attempt-Keeps, read_with-Keeps, write_with-Keeps, recvfrom_with-Keeps, sendto_with-Keeps,
  accept_with-Keeps,
}
use venti.Win.Select.Submit.{
  after_try_accept, stop_accept, put_entry, sel_submit_read, sel_submit_write, sel_submit_connect,
  sel_submit_accept, sel_submit_recvfrom, sel_submit_sendto, submit_reading, submit_writing,
  keep_read,
}
use venti.Win.Select.Sided.{
  Submitted, put, sided-Submitted, under-entry, reads_entry, writes_entry, submit_reading-Submitted,
  submit_writing-Submitted,
}
use venti.Win.Select.Accepting.{accept_with_zero}
use venti.Win.Select.Connecting.{submit_connect-Submitted}
use venti.Win.Select.View.{under_again, update_same, held_read, held_write, under, view}

-- What is asked for, with the arguments of its `Submit…`.
pub data SelRequest : Type 0 where
  to_read to_write : Buffers → SelRequest
  to_connect to_accept : ℕ → SelRequest
  to_receive to_send : Option ℕ → Buffers → SelRequest

-- The side that a request is for, and the other one.
abbrev pub side_of : {A : Type 0} → SelRequest → SockEvent A → Option (Event A)
side_of (to_read bufs) = held_read
side_of (to_accept res) = held_read
side_of (to_receive peer bufs) = held_read
side_of (to_write bufs) = held_write
side_of (to_send peer bufs) = held_write
side_of (to_connect p) = held_write

abbrev pub apart_of : {A : Type 0} → SelRequest → SockEvent A → Option (Event A)
apart_of (to_read bufs) = held_write
apart_of (to_accept res) = held_write
apart_of (to_receive peer bufs) = held_write
apart_of (to_write bufs) = held_read
apart_of (to_send peer bufs) = held_read
apart_of (to_connect p) = held_read

module _ {A F S : Type 0} (os : WinOs S) (sel : SelectOs F S) (s : ℕ) (ev : Event A)
    (w : SelWorld A F S) where
  unfoldable pub sel_submit : SelRequest → Option (SelWorld A F S)
  sel_submit (to_read bufs) = sel_submit_read os sel s bufs ev w
  sel_submit (to_write bufs) = sel_submit_write os sel s bufs ev w
  sel_submit (to_connect p) = some (sel_submit_connect os sel s p ev w)
  sel_submit (to_accept res) = sel_submit_accept os sel s res ev w
  sel_submit (to_receive peer bufs) = sel_submit_recvfrom os sel s peer bufs ev w
  sel_submit (to_send peer bufs) = sel_submit_sendto os sel s peer bufs ev w

  submit_read-Submitted :
      (bufs : Buffers)
      → Submitted held_read held_write (w.socks s).sock ev w (sel_submit_read os sel s bufs ev w)
  unfolding sel_submit_read submit_reading submit_event add_event add_as add_read sel_set sel_data
      sel_try_read
  submit_read-Submitted bufs =
      let e : SelData A = sel_data read s bufs ev none in
      let w1 : SelWorld A F S = put (w.socks s).sock (reads_entry sel s e w) w in
      submit_reading-Submitted sel s e w (is_readable s w1) (sel_try_read os) (
        attempt-Keeps (read_with os) (reads_entry sel s e w).rdata w1
          (λ s. read_with-Keeps os s _ w1) (s, refl))

  submit_recvfrom-Submitted :
      (peer : Option ℕ) (bufs : Buffers)
      → Submitted held_read held_write
          (w.socks s).sock
          ev
          w
          (sel_submit_recvfrom os sel s peer bufs ev w)
  unfolding sel_submit_recvfrom submit_reading submit_event add_event add_as add_read sel_set
      sel_data sel_try_recvfrom
  submit_recvfrom-Submitted peer bufs =
      let e : SelData A = sel_data recvfrom s bufs ev peer in
      let w1 : SelWorld A F S = put (w.socks s).sock (reads_entry sel s e w) w in
      submit_reading-Submitted sel s e w (is_readable s w1) (sel_try_recvfrom os) (
        attempt-Keeps (recvfrom_with os) (reads_entry sel s e w).rdata w1
          (λ s. recvfrom_with-Keeps os s _ w1) (s, refl))

  submit_write-Submitted :
      (bufs : Buffers)
      → Submitted held_write held_read (w.socks s).sock ev w (sel_submit_write os sel s bufs ev w)
  unfolding sel_submit_write submit_writing submit_event add_event add_as add_write sel_set sel_data
      sel_try_write
  submit_write-Submitted bufs =
      let e : SelData A = sel_data write s bufs ev none in
      let w1 : SelWorld A F S = put (w.socks s).sock (writes_entry sel s e w) w in
      submit_writing-Submitted sel s e w (is_writeable s w1) (sel_try_write os) (
        attempt-Keeps (write_with os) (writes_entry sel s e w).wdata w1
          (λ s. write_with-Keeps os s _ w1) (s, refl))

  submit_sendto-Submitted :
      (peer : Option ℕ) (bufs : Buffers)
      → Submitted held_write held_read
          (w.socks s).sock
          ev
          w
          (sel_submit_sendto os sel s peer bufs ev w)
  unfolding sel_submit_sendto submit_writing submit_event add_event add_as add_write sel_set
      sel_data sel_try_sendto
  submit_sendto-Submitted peer bufs =
      let e : SelData A = sel_data sendto s bufs ev peer in
      let w1 : SelWorld A F S = put (w.socks s).sock (writes_entry sel s e w) w in
      submit_writing-Submitted sel s e w (is_writeable s w1) (sel_try_sendto os) (
        attempt-Keeps (sendto_with os) (writes_entry sel s e w).wdata w1
          (λ s. sendto_with-Keeps os s _ w1) (s, refl))

  -- An attempt that returns 0 leaves the operation under way.
  after_zero :
      (held : SockEvent A → Option (Event A)) (fd : ℕ) (e0 : SockEvent A)
      (keep stop : SelData A → SockEvent A) (t : Tried A F S)
      → t.0 ≡ pos 0
      → t.2.waitset ≡ w.waitset
      → t.2.table ≡ map_put fd e0 w.table
      → (x : Option (Event A)) → held (keep t.1) ≡ x
      → view held (after_try_accept fd keep stop ev t)
        ≡ record { under_way = update (under held w.table) fd x; done = w.waitset }
  unfolding after_try_accept put_entry
  after_zero held fd e0 keep stop (len, d, v) zero quiet put x same =
      rw zero (Progress-path (under_again held fd e0 (keep d) w.table v.table x put same) quiet)

  submit_accept-Submitted :
      (res : ℕ)
      → Submitted held_read held_write (w.socks s).sock ev w (sel_submit_accept os sel s res ev w)
  unfolding sel_submit_accept submit_reading submit_event add_event add_as add_read sel_set sel_data
      sel_try_accept keep_read stop_accept attempt attempt_at empty_event
  submit_accept-Submitted res =
      let e : SelData A = sel_data accept s buffers_empty ev (some res) in
      let e0 : SockEvent A = reads_entry sel s e w in
      let w1 : SelWorld A F S = put (w.socks s).sock e0 w in
      let t : Tried A F S = accept_with os s res e0.rdata w1 in
      let kept : Keeps e0.rdata w1 t = accept_with-Keeps os s e0.rdata w1 res in
      let same : under held_write w.table (w.socks s).sock ≡ held_write e0 =
        under-entry sel held_write (w.socks s).sock w.table refl in
      sided-Submitted held_read held_write (w.socks s).sock ev w e0 (λ se. se.rdata)
        (is_readable s w1) (sel_try_accept os)
        (λ se. after_try_accept (w.socks s).sock (keep_read se) (stop_accept se) ev) refl same t
        refl
        (begin (
          after_zero held_read (w.socks s).sock e0 (keep_read e0) (stop_accept e0) t
            (accept_with_zero os s res e0.rdata w1) kept.waitset kept.table (some ev)
            (ap some kept.event)))
        (ap (λ p. p.under_way)
            (after_zero held_write (w.socks s).sock e0 (keep_read e0) (stop_accept e0) t
              (accept_with_zero os s res e0.rdata w1) kept.waitset kept.table
              (under held_write w.table (w.socks s).sock) (sym same))
          ∙ update_same held_write (w.socks s).sock (under held_write w.table)
              (under held_write w.table (w.socks s).sock) refl)

  -- Every kind of submission to `WinSockSelect`, whatever the system answers, dereferences no null
  -- pointer and does what an event handler's submission is to do on its side of the socket's
  -- descriptor, if a connection attempt finds nothing under way there: the operation is under way, or
  -- it is finished at once with one completion, and no other descriptor's operation, no earlier
  -- completion and nothing on the other sides changes.
  pub sel_submit-Submitted :
      (req : SelRequest)
      → ((p : ℕ) → req ≡ to_connect p → under held_write w.table (w.socks s).sock ≡ none)
      → Submitted (side_of req) (apart_of req) (w.socks s).sock ev w (sel_submit req)
  unfolding sel_submit
  sel_submit-Submitted (to_read bufs) free = submit_read-Submitted bufs
  sel_submit-Submitted (to_write bufs) free = submit_write-Submitted bufs
  sel_submit-Submitted (to_accept res) free = submit_accept-Submitted res
  sel_submit-Submitted (to_receive peer bufs) free = submit_recvfrom-Submitted peer bufs
  sel_submit-Submitted (to_send peer bufs) free = submit_sendto-Submitted peer bufs
  sel_submit-Submitted (to_connect p) free = submit_connect-Submitted os sel s ev w p (free p refl)
