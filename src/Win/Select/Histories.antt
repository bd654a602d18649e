-- ===== src/Win/Select/Histories.antt =====
-- Sequences of what is done with a `WinSockSelect` (venti/platform/win/winevent.h, wineventimpl.h).
use venti.Prelude.{ℕ, ◌≡◌, refl, List, [], ◌∷◌, Option, none, some, inl, inr, Bool-cases, ◌==◌}
use venti.Prelude.Int.{ltb_zero}
use venti.Event.{Event}
use venti.Addr.{IpAddr}
use venti.Win.Os.{WinOs}
use venti.Win.Sock.{WinSock}
use venti.Win.Map.{map_erase}
use venti.Win.Map.Erase.{Sorted-map_erase}
use venti.Win.Select.{
  SockEvent, SelWorld, SelectOs, empty_event, sel_init, sel_reg_sock, sel_close_sock,
}
use venti.Win.Select.Wait.{sel_wait, after_select, init_set}
use venti.Win.Select.Sound.{IsSound, AllSound, IsTable, IsTable-map_put}
use venti.Win.Select.Asked.{Laws}
use venti.Win.Select.Waiting.{asked, sel_wait-AllServed}
use venti.Win.Select.Request.{SelRequest, sel_submit}
use venti.Win.Select.Keeps.{sel_submit-IsTable}

module _ {A : Type 0} where
  AllSound-map_erase : (k : ℕ) (m : List (ℕ × SockEvent A)) → AllSound m → AllSound (map_erase k m)
  unfolding map_erase
  AllSound-map_erase k [] a = tt
  AllSound-map_erase k ((x, u) ∷ m) (b, a) = elim (Bool-cases (k == x)) [
    | inl same ↦ rw same a
    | inr other ↦ rw other (b, AllSound-map_erase k m a)
  ]

  IsTable-map_erase : (k : ℕ) (m : List (ℕ × SockEvent A)) → IsTable m → IsTable (map_erase k m)
  IsTable-map_erase k m t = record {
    sorted = Sorted-map_erase k m t.sorted;
    sound = AllSound-map_erase k m t.sound;
  }

empty-IsSound : {F S : Type 0} (A : Type 0) (sel : SelectOs F S) → IsSound (empty_event {A = A} sel)
unfolding empty_event
empty-IsSound A sel = (tt, tt)

-- One thing that happens: a call of the handler for the socket `s`, or whatever else the program does
-- to its wait set, its sockets, its addresses and the system.
pub data SelCall (A S : Type 0) : Type 0 where
  registers : ℕ → SelCall A S
  submits : ℕ → Event A → SelRequest → SelCall A S
  waits : SelCall A S
  closes : ℕ → SelCall A S
  elsewhere : List (Event A) → (ℕ → WinSock) → (ℕ → IpAddr) → S → SelCall A S

module _ {A F S : Type 0} (os : WinOs S) (sel : SelectOs F S) where
  unfoldable pub sel_call : SelCall A S → SelWorld A F S → Option (SelWorld A F S)
  sel_call (registers s) w = some (sel_reg_sock sel s w)
  sel_call (submits s ev req) w = sel_submit os sel s ev w req
  sel_call waits w = elim (sel_wait os sel w) [ none ↦ none | some (r, w') ↦ some w' ]
  sel_call (closes s) w = some (sel_close_sock os s w).1
  sel_call (elsewhere waitset socks addrs o) w =
      some (record w { waitset = waitset; socks = socks; addrs = addrs; os = o })

  unfoldable pub sel_calls : List (SelCall A S) → SelWorld A F S → Option (SelWorld A F S)
  sel_calls [] w = some w
  sel_calls (c ∷ cs) w = elim (sel_call c w) [ none ↦ none | some w' ↦ sel_calls cs w' ]

  -- It is done, and the table is well formed afterwards.
  abbrev Keeps : Option (SelWorld A F S) → Type 0
  Keeps o = (w' : SelWorld A F S) × (o ≡ some w') × IsTable w'.table

  module _ (laws : Laws sel) where
    waited-Keeps : (w : SelWorld A F S) → IsTable w.table → Keeps (sel_call waits w)
    unfolding sel_call sel_wait init_set after_select
    waited-Keeps w t = elim (Bool-cases (ltb_zero (asked sel w).0)) [
      | inl failed ↦ (
        record (init_set sel w).1 {
          rs = (asked sel w).1;
          ws = (asked sel w).2;
          os = (asked sel w).3;
        },
        rw (failed, sel_call) refl,
        t,
      )
      | inr fine ↦
          let (w', did, served, kept) = sel_wait-AllServed os sel laws w t fine in
          (w', rw (did, sel_call) refl, kept)
    ]

    sel_call-Keeps : (c : SelCall A S) (w : SelWorld A F S) → IsTable w.table → Keeps (sel_call c w)
    unfolding sel_call sel_reg_sock sel_close_sock
    sel_call-Keeps (registers s) w t = (
      _,
      refl,
      IsTable-map_put (w.socks s).sock (empty_event sel) w.table (empty-IsSound A sel) t,
    )
    sel_call-Keeps (submits s ev req) w t = sel_submit-IsTable os sel s ev w t req
    sel_call-Keeps waits w t = waited-Keeps w t
    sel_call-Keeps (closes s) w t = (_, refl, IsTable-map_erase (w.socks s).sock w.table t)
    sel_call-Keeps (elsewhere waitset socks addrs o) w t = (_, refl, t)

    sel_calls-Keeps :
        (cs : List (SelCall A S)) (v : SelWorld A F S) → IsTable v.table → Keeps (sel_calls cs v)
    unfolding sel_calls
    sel_calls-Keeps [] v t = (v, refl, t)
    sel_calls-Keeps (c ∷ cs) v t =
        let (v', did, t') = sel_call-Keeps c v t in
        let (w', ran, kept) = sel_calls-Keeps cs v' t' in (w', rw (did, sel_calls) ran, kept)

    -- If `select` only takes sockets out of the sets, then from `WinSockSelect`'s constructor on
    -- an empty table, whatever sequence of registrations, submissions, calls of `Wait` and closings
    -- follows, whatever the system answers, `select`'s failures included, and whatever else is done to
    -- the wait set, the sockets, the addresses and the system between them, no null pointer is
    -- dereferenced, and the table stays well formed.
    pub sel_calls-IsTable :
        (calls : List (SelCall A S)) (w : SelWorld A F S)
        → w.table ≡ []
        → (w' : SelWorld A F S) × (sel_calls calls (sel_init sel w) ≡ some w') × IsTable w'.table
    unfolding sel_init
    sel_calls-IsTable calls w none_yet =
        sel_calls-Keeps calls (sel_init sel w) (rw none_yet (record { sorted = tt; sound = tt }))
