-- ===== src/Win/Select/Accepting.antt =====
-- What `SubmitAccept` of venti/platform/win/wineventimpl.h never does.
use venti.Prelude.{ℕ, ◌≡◌, refl, ◌∙◌, Option, some, List, inl, inr, Bool-cases}
use venti.Prelude.Int.{pos}
use venti.Event.{Event}
use venti.Buffer.{buffers_empty}
use venti.Win.Os.{WinOs}
use venti.Win.Sock.Laws.{win_accept-pos}
use venti.Win.Map.{map_get}
use venti.Win.Map.Laws.{map_get_put}
use venti.Win.Select.{
  SelData, SockEvent, SelWorld, SelectOs, accept, sel_data, add_event, add_read, sel_set, entry,
  submit_event, is_readable,
}
use venti.Win.Select.Try.{Tried, sel_try_accept, accept_with, settle_accept, attempt_at, attempt}
use venti.Win.Select.Attempts.{accept_with-Keeps}
use venti.Win.Select.Submit.{
  sel_submit_accept, submit_reading, after_try_accept, try_entry, keep_read, stop_accept,
}

module _ {A F S : Type 0} where
  -- The world that comes back has this wait set.
  abbrev Quiet : List (Event A) → Option (SelWorld A F S) → Type 0
  Quiet q o = (w' : SelWorld A F S) × (o ≡ some w') × (w'.waitset ≡ q)

  try_entry-Quiet :
      (try : SockEvent A → Option (Tried A F S))
      (after : SockEvent A → Tried A F S → SelWorld A F S)
      → (o : Option (SockEvent A)) (e : SockEvent A) (t : Tried A F S) (q : List (Event A))
      → o ≡ some e
      → try e ≡ some t
      → (after e t).waitset ≡ q
      → Quiet q (try_entry try after o)
  unfolding try_entry
  try_entry-Quiet try after o e t q found tried same =
      (after e t, rw (found, try_entry, tried) refl, same)

  after_try_accept_zero :
      (fd : ℕ) (keep stop : SelData A → SockEvent A) (ev : Event A) (t : Tried A F S)
      → t.0 ≡ pos 0
      → (after_try_accept fd keep stop ev t).waitset ≡ t.2.waitset
  unfolding after_try_accept
  after_try_accept_zero fd keep stop ev (len, d, w) h = rw h refl

  pub accept_with_zero :
      (os : WinOs S) (s p : ℕ) (d : SelData A) (w : SelWorld A F S)
      → (accept_with os s p d w).0 ≡ pos 0
  unfolding accept_with settle_accept
  accept_with_zero os s p d w = rw (win_accept-pos os (w.socks s) (w.socks p) w.os).0 refl

module _ {A F S : Type 0} (os : WinOs S) (sel : SelectOs F S) where
  -- Whatever the system answers, `SubmitAccept` returns and adds nothing to the wait set, also where
  -- the socket is readable and a connection is accepted at once.
  sel_submit_accept-waitset :
      (s res : ℕ) (ev : Event A) (w : SelWorld A F S)
      → (w' : SelWorld A F S) × (sel_submit_accept os sel s res ev w ≡ some w')
        × (w'.waitset ≡ w.waitset)
  unfolding sel_submit_accept submit_reading submit_event sel_try_accept sel_data add_event add_read
      sel_set attempt attempt_at
  sel_submit_accept-waitset s res ev w =
      let d : SelData A = sel_data accept s buffers_empty ev (some res) in
      let w1 : SelWorld A F S = submit_event sel s d w in
      let e : SockEvent A = add_event d (entry sel (w.socks s).sock w.table) in
      elim (Bool-cases (is_readable s w1)) [
        | inr unready ↦ (w1, rw unready refl, refl)
        | inl ready ↦
            let (w', found, same) =
              try_entry-Quiet (λ se. sel_try_accept os se.rdata w1)
                (λ se. after_try_accept (w.socks s).sock (keep_read se) (stop_accept se) ev)
                (map_get (w.socks s).sock w1.table) e (accept_with os s res e.rdata w1) w.waitset
                (map_get_put (w.socks s).sock e w.table) refl
                (after_try_accept_zero (w.socks s).sock (keep_read e) (stop_accept e) ev
                    (accept_with os s res e.rdata w1) (accept_with_zero os s res e.rdata w1)
                  ∙ (accept_with-Keeps os s e.rdata w1 res).waitset) in
            (w', rw ready found, same)
      ]
