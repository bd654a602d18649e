-- ===== src/Win/Select/Connecting.antt =====
-- `SubmitConnect` of `WinSockSelect` (venti/platform/win/wineventimpl.h) as an event handler's.
use venti.Prelude.{
  subst, arith, ℕ, ◌≡◌, refl, ap, sym, ◌∙◌, none, some, Bool, true, false, update, inl, inr,
  Bool-cases,
}
use venti.Prelude.Int.{ℤ, pos, eqb}
use venti.Event.{Event}
use venti.Buffer.{buffers_empty}
use venti.Context.{settled, enqueue}
use venti.Epoll.Outcome.{settled_due}
use venti.Handler.{Progress-path, Submits, begin, at_once}
use venti.Win.Os.{WinOs}
use venti.Win.Sock.{WinSock, win_connect, win_connect_as, win_settle}
use venti.Addr.{IpAddr, AddrType, ipv4, ipv6}
use venti.Win.Select.{
  SelData, SelWorld, SelectOs, connect, empty_event, add_event, add_write, sel_set, add_as,
  sel_data, submit_event,
}
use venti.Win.Select.Try.{wsa_would_block}
use venti.Win.Select.Submit.{sel_submit_connect, submit_own}
use venti.Win.Select.Sided.{Submitted, under-entry, writes_entry}
use venti.Win.Select.View.{update_same, held_read, held_write, under, view, begun-put, under_same}

update_at : {A : Type 0} (f : ℕ → A) (k : ℕ) (x : A) → update f k x k ≡ x
update_at f k x = ground arith

module _ {S : Type 0} (os : WinOs S) where
  win_settle-sock :
      (r : ℤ) (failed : Bool) (a : IpAddr) (sk : WinSock) (o : S)
      → (win_settle os r failed a sk o).1.sock ≡ sk.sock
  unfolding win_settle
  win_settle-sock r false a sk o = refl
  win_settle-sock r true a sk o = refl

  win_connect_as-sock :
      (kind : AddrType) (sk : WinSock) (a : IpAddr) (o : S)
      → (win_connect_as os kind sk a o).1.sock ≡ sk.sock
  unfolding win_connect_as
  win_connect_as-sock ipv6 sk a o = win_settle-sock _ _ a sk _
  win_connect_as-sock ipv4 sk a o = win_settle-sock _ _ a sk _

  win_connect-sock : (sk : WinSock) (a : IpAddr) (o : S) → (win_connect os sk a o).1.sock ≡ sk.sock
  unfolding win_connect
  win_connect-sock sk a o = win_connect_as-sock sk.addr.kind sk a o

module _ {A F S : Type 0} (sel : SelectOs F S) (s : ℕ) (ev : Event A) (w : SelWorld A F S) where
  -- An attempt to connect that ends at once, on a side where nothing was under way.
  own-Submits :
      (r : Event A) (v : SelWorld A F S)
      → v.waitset ≡ w.waitset
      → v.table ≡ w.table
      → under held_write w.table (w.socks s).sock ≡ none
      → r.cb ≡ ev.cb
      → Submits (w.socks s).sock ev (view held_write w) (view held_write (submit_own r v))
  unfolding submit_own
  own-Submits r v q t free same =
      at_once (record r { status = settled r.status })
        (record { same_cb = same; due = settled_due r.status })
        (Progress-path
          (ap (under held_write) t
            ∙ sym (update_same held_write (w.socks s).sock (under held_write w.table) none free))
          (ap (enqueue r) q))

  -- The attempt is submitted; `g` and `o` are the sockets and the system after it.
  parked-Submits :
      (p fd : ℕ) (g : ℕ → WinSock) (o : S)
      → (g s).sock ≡ fd
      → Submits fd ev (view held_write w) (
          view held_write (
            submit_event sel s
              (sel_data connect s buffers_empty ev (some p))
              (record w { socks = g; os = o })))
  unfolding submit_event add_event add_as add_write sel_set sel_data
  parked-Submits p fd g o h =
      let v : SelWorld A F S = record w { socks = g; os = o } in
      let e : SelData A = sel_data connect s buffers_empty ev (some p) in
      subst (λ k. Submits k ev (view held_write w) (view held_write (submit_event sel s e v))) h
        (begin (begun-put held_write (g s).sock v (writes_entry sel s e v) ev refl))

  parked-apart :
      (p : ℕ) (g : ℕ → WinSock) (o : S)
      → under held_read
          (submit_event sel s
            (sel_data connect s buffers_empty ev (some p))
            (record w { socks = g; os = o })).table
        ≡ under held_read w.table
  unfolding submit_event add_event add_as add_write sel_set sel_data empty_event
  parked-apart p g o =
      let e : SelData A = sel_data connect s buffers_empty ev (some p) in
      under_same held_read (g s).sock (writes_entry sel s e (record w { socks = g; os = o }))
        w.table (under-entry sel held_read (g s).sock w.table refl)

module _ {A F S : Type 0} (os : WinOs S) (sel : SelectOs F S) (s : ℕ) (ev : Event A)
    (w : SelWorld A F S) where
  pub submit_connect-Submitted :
      (p : ℕ)
      → under held_write w.table (w.socks s).sock ≡ none
      → Submitted held_write held_read
          (w.socks s).sock
          ev
          w
          (some (sel_submit_connect os sel s p ev w))
  unfolding sel_submit_connect submit_own
  submit_connect-Submitted p free =
      let r : ℤ = (win_connect os (w.socks s) (w.addrs p) w.os).0 in
      let g : ℕ → WinSock = update w.socks s (win_connect os (w.socks s) (w.addrs p) w.os).1 in
      let o : S = (win_connect os (w.socks s) (w.addrs p) w.os).2 in
      let same : (g s).sock ≡ (w.socks s).sock =
        ap (λ k. k.sock) (update_at w.socks s (win_connect os (w.socks s) (w.addrs p) w.os).1)
        ∙ win_connect-sock os (w.socks s) (w.addrs p) w.os in
      elim (Bool-cases (eqb r (pos 0))) [
        | inl did ↦ record {
          w' = sel_submit_connect os sel s p ev w;
          returns = refl;
          submits =
              rw did
                (own-Submits sel s ev w _ (record w { socks = g; os = o }) refl refl free refl);
          apart = rw did refl;
        }
        | inr not_yet ↦ elim (Bool-cases (eqb r (pos wsa_would_block))) [
          | inl blocked ↦ record {
            w' = sel_submit_connect os sel s p ev w;
            returns = refl;
            submits = rw (not_yet, blocked) (parked-Submits sel s ev w p (w.socks s).sock g o same);
            apart = rw (not_yet, blocked) (parked-apart sel s ev w p g o);
          }
          | inr failed ↦ record {
            w' = sel_submit_connect os sel s p ev w;
            returns = refl;
            submits =
                rw (not_yet, failed)
                  (own-Submits sel s ev w _ (record w { socks = g; os = o }) refl refl free refl);
            apart = rw (not_yet, failed) refl;
          }
        ]
      ]
