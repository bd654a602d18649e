-- ===== src/Win/Select/Keeps.antt =====
-- The submissions of `WinSockSelect` (venti/platform/win/wineventimpl.h) keep its table well formed.
use venti.Prelude.{inl, inr, Bool-cases, update, ℕ, ◌≡◌, refl, Option, none, some, update}
use venti.Prelude.Int.{ℤ, eqb, pos}
use venti.Event.{Event}
use venti.Buffer.{Buffers, buffers_empty}
use venti.Win.Sock.{win_connect}
use venti.Win.Select.Try.{wsa_would_block}
use venti.Win.Os.{WinOs}
use venti.Win.Select.{
  connect, SelData, SelWorld, SelectOs, read, write, recvfrom, sendto, accept, add_event, add_read,
  add_write, sel_set, add_as, sel_data, submit_event, is_readable, is_writeable,
}
use venti.Win.Select.Try.{
  read_with, write_with, recvfrom_with, sendto_with, accept_with, sel_try_read, sel_try_write,
  sel_try_recvfrom, sel_try_sendto, sel_try_accept,
}
use venti.Win.Select.Attempts.{
  attempt_at-Keeps, attempt-Keeps, read_with-Keeps, write_with-Keeps, recvfrom_with-Keeps,
  sendto_with-Keeps, accept_with-Keeps,
}
use venti.Win.Select.Submit.{
  after_try, stop_read, keep_write, stop_write, submit_own, after_try_accept, stop_accept,
  sel_submit_read, sel_submit_write, sel_submit_connect, sel_submit_accept, sel_submit_recvfrom,
  sel_submit_sendto, submit_reading, submit_writing, keep_read,
}
use venti.Win.Select.Sided.{put, reads_entry, writes_entry}
use venti.Win.Select.Request.{
  SelRequest, to_read, to_write, to_connect, to_accept, to_receive, to_send, sel_submit,
}
use venti.Win.Select.Sound.{IsTable, IsTable-map_put}
use venti.Win.Select.Keeping.{
  reading-IsTable, writing-IsTable, writes_entry-IsSound, after_try-IsTable, after_accept-IsTable,
}

module _ {A F S : Type 0} (os : WinOs S) (sel : SelectOs F S) (s : ℕ) (ev : Event A)
    (w : SelWorld A F S) (table : IsTable w.table) where
  submit_read-IsTable :
      (bufs : Buffers)
      → (w' : SelWorld A F S) × (sel_submit_read os sel s bufs ev w ≡ some w') × IsTable w'.table
  unfolding sel_submit_read submit_reading submit_event add_event add_as add_read sel_set sel_data
      sel_try_read keep_read stop_read
  submit_read-IsTable bufs =
      let e : SelData A = sel_data read s bufs ev none in
      let w1 : SelWorld A F S = put (w.socks s).sock (reads_entry sel s e w) w in
      reading-IsTable sel s e w table (is_readable s w1) (sel_try_read os)
        (λ se. after_try (w.socks s).sock (keep_read se) (stop_read se) ev) tt (s, refl)
        (λ e0 t sound h kept.
          after_try-IsTable (w.socks s).sock ev w e0 table sound (keep_read e0) (stop_read e0) t h
            kept (tt, sound.1))
        (attempt-Keeps (read_with os) (reads_entry sel s e w).rdata w1
          (λ s. read_with-Keeps os s _ w1) (s, refl))

  submit_write-IsTable :
      (bufs : Buffers)
      → (w' : SelWorld A F S) × (sel_submit_write os sel s bufs ev w ≡ some w') × IsTable w'.table
  unfolding sel_submit_write submit_writing submit_event add_event add_as add_write sel_set sel_data
      sel_try_write keep_write stop_write
  submit_write-IsTable bufs =
      let e : SelData A = sel_data write s bufs ev none in
      let w1 : SelWorld A F S = put (w.socks s).sock (writes_entry sel s e w) w in
      writing-IsTable sel s e w table (is_writeable s w1) (sel_try_write os)
        (λ se. after_try (w.socks s).sock (keep_write se) (stop_write se) ev) tt (s, refl)
        (λ e0 t sound h kept.
          after_try-IsTable (w.socks s).sock ev w e0 table sound (keep_write e0) (stop_write e0) t h
            kept (sound.0, tt))
        (attempt-Keeps (write_with os) (writes_entry sel s e w).wdata w1
          (λ s. write_with-Keeps os s _ w1) (s, refl))

  submit_recvfrom-IsTable :
      (peer : Option ℕ) (bufs : Buffers)
      → (w' : SelWorld A F S) × (sel_submit_recvfrom os sel s peer bufs ev w ≡ some w')
        × IsTable w'.table
  unfolding sel_submit_recvfrom submit_reading submit_event add_event add_as add_read sel_set
      sel_data sel_try_recvfrom keep_read stop_read
  submit_recvfrom-IsTable peer bufs =
      let e : SelData A = sel_data recvfrom s bufs ev peer in
      let w1 : SelWorld A F S = put (w.socks s).sock (reads_entry sel s e w) w in
      reading-IsTable sel s e w table (is_readable s w1) (sel_try_recvfrom os)
        (λ se. after_try (w.socks s).sock (keep_read se) (stop_read se) ev) tt (s, refl)
        (λ e0 t sound h kept.
          after_try-IsTable (w.socks s).sock ev w e0 table sound (keep_read e0) (stop_read e0) t h
            kept (tt, sound.1))
        (attempt-Keeps (recvfrom_with os) (reads_entry sel s e w).rdata w1
          (λ s. recvfrom_with-Keeps os s _ w1) (s, refl))

  submit_sendto-IsTable :
      (peer : Option ℕ) (bufs : Buffers)
      → (w' : SelWorld A F S) × (sel_submit_sendto os sel s peer bufs ev w ≡ some w')
        × IsTable w'.table
  unfolding sel_submit_sendto submit_writing submit_event add_event add_as add_write sel_set
      sel_data sel_try_sendto keep_write stop_write
  submit_sendto-IsTable peer bufs =
      let e : SelData A = sel_data sendto s bufs ev peer in
      let w1 : SelWorld A F S = put (w.socks s).sock (writes_entry sel s e w) w in
      writing-IsTable sel s e w table (is_writeable s w1) (sel_try_sendto os)
        (λ se. after_try (w.socks s).sock (keep_write se) (stop_write se) ev) tt (s, refl)
        (λ e0 t sound h kept.
          after_try-IsTable (w.socks s).sock ev w e0 table sound (keep_write e0) (stop_write e0) t h
            kept (sound.0, tt))
        (attempt-Keeps (sendto_with os) (writes_entry sel s e w).wdata w1
          (λ s. sendto_with-Keeps os s _ w1) (s, refl))

  submit_accept-IsTable :
      (res : ℕ)
      → (w' : SelWorld A F S) × (sel_submit_accept os sel s res ev w ≡ some w') × IsTable w'.table
  unfolding sel_submit_accept submit_reading submit_event add_event add_as add_read sel_set sel_data
      sel_try_accept keep_read stop_accept
  submit_accept-IsTable res =
      let e : SelData A = sel_data accept s buffers_empty ev (some res) in
      let w1 : SelWorld A F S = put (w.socks s).sock (reads_entry sel s e w) w in
      reading-IsTable sel s e w table (is_readable s w1) (sel_try_accept os)
        (λ se. after_try_accept (w.socks s).sock (keep_read se) (stop_accept se) ev) (res, refl)
        (s, refl)
        (λ e0 t sound h kept.
          after_accept-IsTable (w.socks s).sock ev w e0 table sound (keep_read e0) (stop_accept e0)
            t h kept (kept.0, tt))
        (attempt_at-Keeps (accept_with os) (reads_entry sel s e w).rdata w1
          (λ s p. accept_with-Keeps os s _ w1 p) (res, refl) (s, refl))

  submit_connect-IsTable : (p : ℕ) → IsTable (sel_submit_connect os sel s p ev w).table
  unfolding sel_submit_connect submit_own submit_event add_event add_as sel_data
  submit_connect-IsTable p =
      let r : ℤ = (win_connect os (w.socks s) (w.addrs p) w.os).0 in
      let v : SelWorld A F S = record w {
        socks = update w.socks s (win_connect os (w.socks s) (w.addrs p) w.os).1;
        os = (win_connect os (w.socks s) (w.addrs p) w.os).2;
      } in
      let e : SelData A = sel_data connect s buffers_empty ev (some p) in
      elim (Bool-cases (eqb r (pos 0))) [
        | inl did ↦ rw did table
        | inr not_yet ↦ elim (Bool-cases (eqb r (pos wsa_would_block))) [
          | inl blocked ↦
              rw (not_yet, blocked)
                (IsTable-map_put (v.socks s).sock (writes_entry sel s e v) w.table
                  (writes_entry-IsSound sel s e v table (p, refl) (s, refl)) table)
          | inr failed ↦ rw (not_yet, failed) table
        ]
      ]

  -- On a well-formed table every kind of submission to `WinSockSelect`, whatever the system answers,
  -- dereferences no null pointer and leaves the table well formed.
  pub sel_submit-IsTable :
      (req : SelRequest)
      → (w' : SelWorld A F S) × (sel_submit os sel s ev w req ≡ some w') × IsTable w'.table
  unfolding sel_submit
  sel_submit-IsTable (to_read bufs) = submit_read-IsTable bufs
  sel_submit-IsTable (to_write bufs) = submit_write-IsTable bufs
  sel_submit-IsTable (to_accept res) = submit_accept-IsTable res
  sel_submit-IsTable (to_receive peer bufs) = submit_recvfrom-IsTable peer bufs
  sel_submit-IsTable (to_send peer bufs) = submit_sendto-IsTable peer bufs
  sel_submit-IsTable (to_connect p) = (_, refl, submit_connect-IsTable p)
