-- ===== src/Win/Select/Submit.antt =====
-- The `Submit…` functions of venti/platform/win/wineventimpl.h. `none` is the use of a null pointer or
-- of a table entry that is not there.
use venti.Prelude.{ℕ, false, Option, none, some, update, if◌then◌else◌}
use venti.Prelude.Int.{pos, neg, ltb_zero, eqb}
use venti.Event.{Event, completed, err}
use venti.Buffer.{Buffers, buffers_empty}
use venti.Context.{enqueue}
use venti.Win.Os.{WinOs}
use venti.Win.Map.{map_get, map_put}
use venti.Win.Sock.{win_connect}
use venti.Win.Select.{
  SelData, SockEvent, SelWorld, SelectOs, read, write, recvfrom, sendto, accept, connect, sel_data,
  submit_event, is_readable, is_writeable,
}
use venti.Win.Select.Try.{
  Tried, wsa_would_block, sel_try_read, sel_try_write, sel_try_recvfrom, sel_try_sendto,
  sel_try_accept,
}

module _ {A : Type 0} where
  -- The entry with its reading or its writing operation changed, and no longer activated.
  unfoldable pub keep_read : SockEvent A → SelData A → SockEvent A
  keep_read se d = record se { rdata = d }

  unfoldable pub keep_write : SockEvent A → SelData A → SockEvent A
  keep_write se d = record se { wdata = d }

  unfoldable pub stop_read : SockEvent A → SelData A → SockEvent A
  stop_read se d = record se { rdata = d; ractivated = false }

  unfoldable pub stop_write : SockEvent A → SelData A → SockEvent A
  stop_write se d = record se { wdata = d; wactivated = false }

  -- What `SubmitAccept` does: the reading operation, and the writing side's flag.
  unfoldable pub stop_accept : SockEvent A → SelData A → SockEvent A
  stop_accept se d = record se { rdata = d; wactivated = false }

module _ {A F S : Type 0} where
  unfoldable pub put_entry : ℕ → SockEvent A → SelWorld A F S → SelWorld A F S
  put_entry fd se w = record w { table = map_put fd se w.table }

  -- The caller's own copy of the event is submitted.
  unfoldable pub submit_own : Event A → SelWorld A F S → SelWorld A F S
  submit_own ev w = record w { waitset = enqueue ev w.waitset }

  -- The ladder after an attempt: `keep` and `stop` are the entry with the operation as it is now,
  -- still activated or not. A length of 0 leaves the operation under way.
  unfoldable pub after_try :
      ℕ
      → (SelData A → SockEvent A)
      → (SelData A → SockEvent A)
      → Event A
      → Tried A F S
      → SelWorld A F S
  unfolding put_entry submit_own
  after_try fd keep stop ev (len, d, w) =
      if ltb_zero len
      then submit_own (record ev { error = neg len; status = err }) (put_entry fd (stop d) w)
      else if eqb len (pos 0)
      then put_entry fd (keep d) w
      else submit_own (record ev { res = len }) (put_entry fd (stop d) w)

  -- The ladder of `SubmitAccept`: the signs are the other way round.
  unfoldable pub after_try_accept :
      ℕ
      → (SelData A → SockEvent A)
      → (SelData A → SockEvent A)
      → Event A
      → Tried A F S
      → SelWorld A F S
  unfolding put_entry submit_own
  after_try_accept fd keep stop ev (len, d, w) =
      if eqb len (pos 0)
      then put_entry fd (keep d) w
      else if ltb_zero len
      then submit_own (record ev { res = len }) (put_entry fd (stop d) w)
      else submit_own (record ev { error = neg len; status = err }) (put_entry fd (stop d) w)

  -- The body under `IsReadable` and `IsWriteable`.
  unfoldable pub try_entry :
      (SockEvent A → Option (Tried A F S))
      → (SockEvent A → Tried A F S → SelWorld A F S)
      → Option (SockEvent A)
      → Option (SelWorld A F S)
  try_entry try after none = none
  try_entry try after (some se) = elim (try se) [ none ↦ none | some r ↦ some (after se r) ]

module _ {A F S : Type 0} (os : WinOs S) (sel : SelectOs F S) (s : ℕ) where
  -- The two bodies that the submissions share, for a reading and for a writing operation.
  unfoldable pub submit_reading :
      SelData A
      → (SelData A → SelWorld A F S → Option (Tried A F S))
      → (SockEvent A → Tried A F S → SelWorld A F S)
      → SelWorld A F S
      → Option (SelWorld A F S)
  unfolding try_entry
  submit_reading e try after w =
      let w' : SelWorld A F S = submit_event sel s e w in
      if is_readable s w'
      then try_entry (λ se. try se.rdata w') after (map_get (w'.socks s).sock w'.table)
      else some w'

  unfoldable pub submit_writing :
      SelData A
      → (SelData A → SelWorld A F S → Option (Tried A F S))
      → (SockEvent A → Tried A F S → SelWorld A F S)
      → SelWorld A F S
      → Option (SelWorld A F S)
  unfolding try_entry
  submit_writing e try after w =
      let w' : SelWorld A F S = submit_event sel s e w in
      if is_writeable s w'
      then try_entry (λ se. try se.wdata w') after (map_get (w'.socks s).sock w'.table)
      else some w'

  -- `SubmitRead`
  unfoldable pub sel_submit_read : Buffers → Event A → SelWorld A F S → Option (SelWorld A F S)
  unfolding submit_reading
  sel_submit_read bufs ev w =
      submit_reading (sel_data read s bufs ev none) (sel_try_read os)
        (λ se. after_try (w.socks s).sock (keep_read se) (stop_read se) ev) w

  -- `SubmitWrite`
  unfoldable pub sel_submit_write : Buffers → Event A → SelWorld A F S → Option (SelWorld A F S)
  unfolding submit_writing
  sel_submit_write bufs ev w =
      submit_writing (sel_data write s bufs ev none) (sel_try_write os)
        (λ se. after_try (w.socks s).sock (keep_write se) (stop_write se) ev) w

  -- `SubmitConnect`; `p` is where the address stands.
  unfoldable pub sel_submit_connect : ℕ → Event A → SelWorld A F S → SelWorld A F S
  sel_submit_connect p ev w =
      let (r, sk, o) = win_connect os (w.socks s) (w.addrs p) w.os in
      let w' : SelWorld A F S = record w { socks = update w.socks s sk; os = o } in
      if eqb r (pos 0)
      then submit_own (record ev { status = completed }) w'
      else if eqb r (pos wsa_would_block)
      then submit_event sel s (sel_data connect s buffers_empty ev (some p)) w'
      else submit_own (record ev { status = err; error = r }) w'

  -- `SubmitAccept`
  unfoldable pub sel_submit_accept : ℕ → Event A → SelWorld A F S → Option (SelWorld A F S)
  unfolding submit_reading
  sel_submit_accept res ev w =
      submit_reading (sel_data accept s buffers_empty ev (some res)) (sel_try_accept os)
        (λ se. after_try_accept (w.socks s).sock (keep_read se) (stop_accept se) ev) w

  -- `SubmitRecvfrom`
  unfoldable pub sel_submit_recvfrom :
      Option ℕ → Buffers → Event A → SelWorld A F S → Option (SelWorld A F S)
  unfolding submit_reading
  sel_submit_recvfrom peer bufs ev w =
      submit_reading (sel_data recvfrom s bufs ev peer) (sel_try_recvfrom os)
        (λ se. after_try (w.socks s).sock (keep_read se) (stop_read se) ev) w

  -- `SubmitSendto`
  unfoldable pub sel_submit_sendto :
      Option ℕ → Buffers → Event A → SelWorld A F S → Option (SelWorld A F S)
  unfolding submit_writing
  sel_submit_sendto peer bufs ev w =
      submit_writing (sel_data sendto s bufs ev peer) (sel_try_sendto os)
        (λ se. after_try (w.socks s).sock (keep_write se) (stop_write se) ev) w
