-- ===== src/Win/Select/Sided.antt =====
-- What the submissions of `WinSockSelect` for one side of a socket share
-- (venti/platform/win/wineventimpl.h).
use venti.Prelude.{
  ℕ, ◌≡◌, refl, ap, sym, Option, none, some, List, Bool, if◌then◌else◌, inl, inr, Bool-cases,
}
use venti.Event.{Event}
use venti.Handler.{Submits, begin}
use venti.Win.Map.{map_get, map_put}
use venti.Win.Map.Laws.{map_get_put}
use venti.Win.Select.{
  SelData, SockEvent, SelWorld, SelectOs, entry, empty_event, add_read, add_write, sel_set,
}
use venti.Win.Select.Try.{Tried}
use venti.Win.Select.Attempts.{Attempted}
use venti.Win.Select.Submit.{try_entry, after_try, keep_read, stop_read, keep_write, stop_write}
use venti.Win.Select.View.{
  held_read, held_write, under, view, begun-put, under_same, after_try-Submits, after_try_other,
}

module _ {A F S : Type 0} where
  abbrev pub put : ℕ → SockEvent A → SelWorld A F S → SelWorld A F S
  put fd e w = record w { table = map_put fd e w.table }

  pub try_entry-some :
      (try : SockEvent A → Option (Tried A F S))
      (after : SockEvent A → Tried A F S → SelWorld A F S)
      → (o : Option (SockEvent A)) (e : SockEvent A) (t : Tried A F S) → o ≡ some e
      → try e ≡ some t
      → try_entry try after o ≡ some (after e t)
  unfolding try_entry
  try_entry-some try after o e t found tried = rw (found, try_entry, tried) refl

  -- The operation is submitted on the side `held`, and the side `other` is what it was.
  pub record Submitted (held other : SockEvent A → Option (Event A)) (fd : ℕ) (ev : Event A)
      (w : SelWorld A F S) (o : Option (SelWorld A F S)) : Type 0 where
    pub w' : SelWorld A F S
    pub returns : o ≡ some w'
    pub submits : Submits fd ev (view held w) (view held w')
    pub apart : under other w'.table ≡ under other w.table

module _ {A F S : Type 0} (held other : SockEvent A → Option (Event A)) (fd : ℕ) (ev : Event A)
    (w : SelWorld A F S) (e0 : SockEvent A) where
  -- What the two bodies share, given what is done after an attempt.
  pub sided-Submitted :
      (side : SockEvent A → SelData A) (ready : Bool)
      (try : SelData A → SelWorld A F S → Option (Tried A F S))
      (after : SockEvent A → Tried A F S → SelWorld A F S)
      → held e0 ≡ some ev
      → under other w.table fd ≡ other e0
      → (t : Tried A F S) → try (side e0) (put fd e0 w) ≡ some t
      → Submits fd ev (view held w) (view held (after e0 t))
      → under other (after e0 t).table ≡ under other w.table
      → Submitted held other fd ev w (
          if ready
          then try_entry (λ se. try (side se) (put fd e0 w)) after (map_get fd (put fd e0 w).table)
          else some (put fd e0 w))
  sided-Submitted side ready try after on same t tried submits apart = elim (Bool-cases ready) [
    | inr unready ↦ record {
      w' = (put fd e0 w);
      returns = rw unready refl;
      submits = begin (begun-put held fd w e0 ev on);
      apart = under_same other fd e0 w.table same;
    }
    | inl ready ↦ record {
      w' = after e0 t;
      returns = rw ready (
          try_entry-some (λ se. try (side se) (put fd e0 w)) after (map_get fd (put fd e0 w).table)
            e0 t (map_get_put fd e0 w.table) tried);
      submits = submits;
      apart = apart;
    }
  ]

module _ {A F S : Type 0} (sel : SelectOs F S) where
  entry_as :
      (held : SockEvent A → Option (Event A))
      → held (empty_event sel) ≡ none
      → (o : Option (SockEvent A))
      → elim o [ none ↦ none | some se ↦ held se ]
        ≡ held (elim o [ none ↦ empty_event sel | some se ↦ se ])
  entry_as held h none = sym h
  entry_as held h (some se) = refl

  pub under-entry :
      (held : SockEvent A → Option (Event A)) (fd : ℕ) (m : List (ℕ × SockEvent A))
      → held (empty_event sel) ≡ none
      → under held m fd ≡ held (entry sel fd m)
  unfolding under entry
  under-entry held fd m h = entry_as held h (map_get fd m)

module _ {A F S : Type 0} (sel : SelectOs F S) (s : ℕ) (e : SelData A) (w : SelWorld A F S) where
  abbrev fd_of : ℕ
  fd_of = (w.socks s).sock

  abbrev pub reads_entry : SockEvent A
  reads_entry = add_read e (entry sel fd_of w.table)

  abbrev pub writes_entry : SockEvent A
  writes_entry = add_write e (entry sel fd_of w.table)

  pub submit_reading-Submitted :
      (ready : Bool) (try : SelData A → SelWorld A F S → Option (Tried A F S))
      → Attempted reads_entry.rdata
          (put fd_of reads_entry w)
          (try reads_entry.rdata (put fd_of reads_entry w))
      → Submitted held_read held_write fd_of e.event w (
          if ready
          then try_entry
              (λ se. try se.rdata (put fd_of reads_entry w))
              (λ se. after_try fd_of (keep_read se) (stop_read se) e.event)
              (map_get fd_of (put fd_of reads_entry w).table)
          else some (put fd_of reads_entry w))
  unfolding add_read sel_set keep_read stop_read empty_event
  submit_reading-Submitted ready try (t, tried, kept) =
      let same : under held_write w.table fd_of ≡ held_write reads_entry =
        under-entry sel held_write fd_of w.table refl in
      sided-Submitted held_read held_write fd_of e.event w reads_entry (λ se. se.rdata) ready try
        (λ se. after_try fd_of (keep_read se) (stop_read se) e.event) refl same t tried
        (after_try-Submits held_read fd_of w reads_entry (keep_read reads_entry)
          (stop_read reads_entry) e.event t (record { waitset = kept.waitset; table = kept.table })
          (ap some kept.event) refl)
        (after_try_other held_write fd_of w reads_entry (keep_read reads_entry)
          (stop_read reads_entry) e.event t kept.table (sym same) (sym same))

  pub submit_writing-Submitted :
      (ready : Bool) (try : SelData A → SelWorld A F S → Option (Tried A F S))
      → Attempted writes_entry.wdata
          (put fd_of writes_entry w)
          (try writes_entry.wdata (put fd_of writes_entry w))
      → Submitted held_write held_read fd_of e.event w (
          if ready
          then try_entry
              (λ se. try se.wdata (put fd_of writes_entry w))
              (λ se. after_try fd_of (keep_write se) (stop_write se) e.event)
              (map_get fd_of (put fd_of writes_entry w).table)
          else some (put fd_of writes_entry w))
  unfolding add_write sel_set keep_write stop_write empty_event
  submit_writing-Submitted ready try (t, tried, kept) =
      let same : under held_read w.table fd_of ≡ held_read writes_entry =
        under-entry sel held_read fd_of w.table refl in
      sided-Submitted held_write held_read fd_of e.event w writes_entry (λ se. se.wdata) ready try
        (λ se. after_try fd_of (keep_write se) (stop_write se) e.event) refl same t tried
        (after_try-Submits held_write fd_of w writes_entry (keep_write writes_entry)
          (stop_write writes_entry) e.event t
          (record { waitset = kept.waitset; table = kept.table }) (ap some kept.event) refl)
        (after_try_other held_read fd_of w writes_entry (keep_write writes_entry)
          (stop_write writes_entry) e.event t kept.table (sym same) (sym same))
