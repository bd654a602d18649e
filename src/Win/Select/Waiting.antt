-- ===== src/Win/Select/Waiting.antt =====
-- `Wait` of `WinSockSelect` (venti/platform/win/wineventimpl.h) on a well-formed table.
use venti.Prelude.{ℕ, zero, ◌≡◌, refl, false, some, List, [], ◌∷◌, arith}
use venti.Prelude.Int.{ℤ, pos, ltb_zero}
use venti.Win.Os.{WinOs}
use venti.Win.Select.{SockEvent, SelWorld, SelectOs}
use venti.Win.Select.Wait.{entry_rounds, sel_wait, after_select, init_set, plus_one}
use venti.Win.Select.Sound.{IsTable}
use venti.Win.Select.Served.{AllArmed, AllServed, entry_rounds-AllServed, Sorted-AllServed}
use venti.Win.Select.Asked.{Laws, From, init_reads, init_writes, zeroed_or, AllArmed-From}

module _ {A F S : Type 0} (sel : SelectOs F S) (w : SelWorld A F S) where
  -- What `InitSet` asks of `select`, and its answer.
  abbrev pub asked : ℤ × F × F × S
  asked = sel.select (plus_one (init_set sel w).0) (init_set sel w).1.rs (init_set sel w).1.ws w.os

module _ {A F S : Type 0} (os : WinOs S) (sel : SelectOs F S) (laws : Laws sel)
    (w : SelWorld A F S) where
  after_select_done :
      (rc : ℤ) (v v' : SelWorld A F S) (table : List (ℕ × SockEvent A))
      → ltb_zero rc ≡ false
      → entry_rounds os sel v.table v ≡ some (table, v')
      → after_select os sel rc v ≡ some (pos 0, record v' { table = table })
  unfolding after_select
  after_select_done rc v v' table fine found = simp (fine, found)

  From-zero : {V : Type 0} → (m : List (ℕ × V)) → From 0 m
  From-zero [] = tt
  From-zero ((x, u) ∷ m) = omega arith

  asked-AllArmed : IsTable w.table → AllArmed sel (asked sel w).1 (asked sel w).2 w.table
  unfolding init_set
  asked-AllArmed t =
      AllArmed-From sel (asked sel w).1 (asked sel w).2 zero w.table
        (λ j b h. zeroed_or sel laws j _ (
          init_reads sel laws j w.table sel.fd_zero sel.fd_zero (pos 0)
            (laws.reads_within _ _ _ _ j h)))
        (λ j b h. zeroed_or sel laws j _ (
          init_writes sel laws j w.table sel.fd_zero sel.fd_zero (pos 0)
            (laws.writes_within _ _ _ _ j h)))
        (From-zero w.table) t.sorted t.sound

  -- On a well-formed table, if `select` does not fail and only takes sockets out of the sets, `Wait`
  -- dereferences no null pointer and returns 0. In the order of the descriptors it gives each side that
  -- `select` marks one completion of its event, and no other side any; a side that is reported is no
  -- longer activated; and the table stays well formed.
  pub sel_wait-AllServed :
      IsTable w.table
      → ltb_zero (asked sel w).0 ≡ false
      → (w' : SelWorld A F S) × (sel_wait os sel w ≡ some (pos 0, w'))
        × AllServed sel (asked sel w).1 (asked sel w).2 w.table w.waitset w'.table w'.waitset
        × IsTable w'.table
  unfolding sel_wait
  sel_wait-AllServed t fine =
      let (rc, rs, ws, o) = asked sel w in
      let (table, w', found, served, sound) =
        entry_rounds-AllServed os sel rs ws w.table
          (record (init_set sel w).1 { rs = rs; ws = ws; os = o }) refl refl (asked-AllArmed t)
          t.sound in
      (
        record w' { table = table },
        after_select_done rc (record (init_set sel w).1 { rs = rs; ws = ws; os = o }) w' table fine
            found,
        served,
        record {
          sorted = Sorted-AllServed sel rs ws w.table table _ _ served t.sorted;
          sound = sound;
        },
      )
