-- ===== src/Win/Select/Wait.antt =====
-- `InitSet` (venti/platform/win/winevent.h) and `Wait` (venti/platform/win/wineventimpl.h) of
-- `WinSockSelect`. `none` is the use of a null pointer.
use venti.Prelude.{
  ℕ, zero, suc, Bool, true, false, List, [], ◌∷◌, Option, none, some, ltb, if◌then◌else◌,
}
use venti.Prelude.Int.{ℤ, pos, negsuc, neg, ltb_zero, eqb, to_size, to_int}
use venti.Event.{Event, completed, err}
use venti.Context.{enqueue}
use venti.Win.Os.{WinOs}
use venti.Win.Select.{
  SelData, SockEvent, SelWorld, SelectOs, SelType, read, write, recvfrom, sendto, accept, connect,
}
use venti.Win.Select.Try.{
  Tried, sel_try_read, sel_try_write, sel_try_recvfrom, sel_try_sendto, sel_try_accept,
  sel_try_connect,
}

-- WSAEISCONN
abbrev pub wsa_is_conn : ℕ
wsa_is_conn = 10056

unfoldable pub plus_one : ℤ → ℤ
plus_one (pos n) = pos (suc n)
plus_one (negsuc zero) = pos 0
plus_one (negsuc (suc n)) = negsuc n

module _ {A F S : Type 0} (sel : SelectOs F S) where
  -- The loop of `InitSet`, with the two sets and `maxfds`, which is compared as unsigned.
  unfoldable pub init_entries : List (ℕ × SockEvent A) → F → F → ℤ → F × F × ℤ
  init_entries [] rs ws maxfds = (rs, ws, maxfds)
  init_entries ((t, se) ∷ m) rs ws maxfds =
      init_entries m (if se.ractivated then sel.fd_set t rs else rs)
        (if se.wactivated then sel.fd_set t ws else ws)
        (if ltb (to_size maxfds) t then to_int t else maxfds)

  -- `InitSet`
  unfoldable pub init_set : SelWorld A F S → ℤ × SelWorld A F S
  unfolding init_entries
  init_set w =
      let (rs, ws, maxfds) = init_entries w.table sel.fd_zero sel.fd_zero (pos 0) in
      (maxfds, record w { rs = rs; ws = ws })

module _ {A : Type 0} where
  unfoldable pub processing_data : SelData A → SelData A
  processing_data d = record d { processing = true }

  -- The results of a transfer, an accept and a connection attempt.
  unfoldable pub transfer_result : ℤ → Event A → Event A
  transfer_result len ev =
      if ltb_zero len
      then record ev { error = neg len; status = err }
      else record ev { res = len; status = completed }

  unfoldable pub accept_result : ℤ → Event A → Event A
  accept_result res ev =
      if ltb_zero res
      then record ev { status = completed }
      else if eqb res (pos 0)
      then record ev { status = completed }
      else record ev { error = res; status = err }

  unfoldable pub connect_result : ℤ → Event A → Event A
  connect_result res ev =
      if eqb res (pos wsa_is_conn)
      then record ev { status = completed }
      else record ev { status = err; error = res }

-- An entry and the world, as the rounds of `Wait` hand them on.
abbrev pub Round : (A F S : Type 0) → Type 0
Round A F S = SockEvent A × SelWorld A F S

module _ {A F S : Type 0} where
  -- The event is changed in place and submitted, and the side is no longer activated.
  unfoldable pub report_read : (ℤ → Event A → Event A) → SockEvent A → Tried A F S → Round A F S
  report_read result se (r, d, w) =
      let ev : Event A = result r d.event in
      (
        record se { rdata = record d { event = ev }; ractivated = false },
        record w { waitset = enqueue ev w.waitset },
      )

  unfoldable pub report_write : (ℤ → Event A → Event A) → SockEvent A → Tried A F S → Round A F S
  report_write result se (r, d, w) =
      let ev : Event A = result r d.event in
      (
        record se { wdata = record d { event = ev }; wactivated = false },
        record w { waitset = enqueue ev w.waitset },
      )

  unfoldable pub round_of :
      (Tried A F S → Round A F S) → Option (Tried A F S) → Option (Round A F S)
  round_of rep none = none
  round_of rep (some r) = some (rep r)

module _ {A F S : Type 0} (os : WinOs S) where
  -- The `switch` over the reading side.
  unfoldable pub read_case : SelType → SockEvent A → SelWorld A F S → Option (Round A F S)
  unfolding processing_data round_of
  read_case read se w =
      round_of (report_read transfer_result se) (sel_try_read os (processing_data se.rdata) w)
  read_case recvfrom se w =
      round_of (report_read transfer_result se) (sel_try_recvfrom os (processing_data se.rdata) w)
  read_case accept se w =
      round_of (report_read accept_result se) (sel_try_accept os (processing_data se.rdata) w)
  read_case connect se w = some (se, w)
  read_case write se w = some (se, w)
  read_case sendto se w = some (se, w)

  -- The `switch` over the writing side; only CONNECT does not ask whether it is activated.
  unfoldable pub write_case : SelType → SockEvent A → SelWorld A F S → Option (Round A F S)
  unfolding processing_data round_of
  write_case write se w =
      if se.wactivated
      then round_of (report_write transfer_result se)
          (sel_try_write os (processing_data se.wdata) w)
      else some (se, w)
  write_case sendto se w =
      if se.wactivated
      then round_of (report_write transfer_result se)
          (sel_try_sendto os (processing_data se.wdata) w)
      else some (se, w)
  write_case connect se w =
      round_of (report_write connect_result se) (sel_try_connect os se.wdata w)
  write_case read se w = some (se, w)
  write_case recvfrom se w = some (se, w)
  write_case accept se w = some (se, w)

  unfoldable pub write_round : Bool → SockEvent A → SelWorld A F S → Option (Round A F S)
  write_round writeable se w = if writeable then write_case se.wdata.type se w else some (se, w)

  -- The body of the loop, given whether the two sets have the descriptor. A readable socket whose
  -- reading side is not activated is passed over (`continue`).
  unfoldable pub entry_round : Bool → Bool → SockEvent A → SelWorld A F S → Option (Round A F S)
  unfolding write_round
  entry_round readable writeable se w =
      if readable
      then if se.ractivated
        then elim (read_case se.rdata.type se w) [
          | none ↦ none
          | some (se', w') ↦ write_round writeable se' w'
        ]
        else some (se, w)
      else write_round writeable se w

module _ {A F S : Type 0} (os : WinOs S) (sel : SelectOs F S) where
  unfoldable pub entry_rounds :
      List (ℕ × SockEvent A) → SelWorld A F S → Option (List (ℕ × SockEvent A) × SelWorld A F S)
  entry_rounds [] w = some ([], w)
  entry_rounds ((fd, se) ∷ m) w =
      elim (entry_round os (sel.fd_isset fd w.rs) (sel.fd_isset fd w.ws) se w) [
        | none ↦ none
        | some (se', w') ↦ elim (entry_rounds m w') [
          | none ↦ none
          | some (m', w'') ↦ some ((fd, se') ∷ m', w'')
        ]
      ]

  -- `Wait` from the answer of `select` on.
  unfoldable pub after_select : ℤ → SelWorld A F S → Option (ℤ × SelWorld A F S)
  unfolding entry_rounds
  after_select rc w = if ltb_zero rc then some (negsuc 0, w) else elim (entry_rounds w.table w) [
    | none ↦ none
    | some (table, w') ↦ some (pos 0, record w' { table = table })
  ]

  -- `Wait`
  unfoldable pub sel_wait : SelWorld A F S → Option (ℤ × SelWorld A F S)
  unfolding init_set after_select
  sel_wait w =
      let (maxfds, w') = init_set sel w in
      let (rc, rs, ws, o) = sel.select (plus_one maxfds) w'.rs w'.ws w'.os in
      after_select rc (record w' { rs = rs; ws = ws; os = o })
