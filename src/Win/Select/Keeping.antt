-- ===== src/Win/Select/Keeping.antt =====
-- Submissions to `WinSockSelect` (venti/platform/win/wineventimpl.h) on a well-formed table.
use venti.Prelude.{
  subst, Bool, List, ℕ, ◌≡◌, refl, sym, Option, some, List, Bool, if◌then◌else◌, inl, inr,
  Bool-cases,
}
use venti.Prelude.Int.{ltb_zero, eqb, pos}
use venti.Event.{Event}
use venti.Win.Map.{map_get, map_put}
use venti.Win.Map.Laws.{map_get_put}
use venti.Win.Select.{SelData, SockEvent, SelWorld, SelectOs, add_read, add_write, sel_set}
use venti.Win.Select.Try.{Tried}
use venti.Win.Select.Attempts.{Attempted}
use venti.Win.Select.Submit.{
  after_try_accept, put_entry, submit_own, try_entry, after_try, keep_read, keep_write,
}
use venti.Win.Select.Sided.{put, try_entry-some, reads_entry, writes_entry}
use venti.Win.Select.Sound.{
  IsSound, IsTable, IsTable-map_put, entry-IsSound, ReadsAs-same, WritesAs-same,
}
use venti.Win.Select.Sides.{ReadsAs, WritesAs}
use venti.Win.Select.Attempts.{IsSome}

module _ {A F S : Type 0} (fd : ℕ) (ev : Event A) (w : SelWorld A F S) (e0 : SockEvent A)
    (table : IsTable w.table) (sound : IsSound e0) where
  put_again :
      (e : SockEvent A) (m : List (ℕ × SockEvent A))
      → m ≡ map_put fd e0 w.table
      → IsSound e
      → IsTable (map_put fd e m)
  put_again e m h k =
      IsTable-map_put fd e m k (subst IsTable (sym h) (IsTable-map_put fd e0 w.table sound table))

  pub after_try-IsTable :
      (keep stop : SelData A → SockEvent A) (t : Tried A F S)
      → t.2.table ≡ map_put fd e0 w.table
      → IsSound (keep t.1)
      → IsSound (stop t.1)
      → IsTable (after_try fd keep stop ev t).table
  unfolding after_try put_entry submit_own
  after_try-IsTable keep stop (len, d, v) h k x =
      let kept : IsTable (map_put fd (keep d) v.table) = put_again (keep d) v.table h k in
      let stopped : IsTable (map_put fd (stop d) v.table) = put_again (stop d) v.table h x in
      elim (Bool-cases (ltb_zero len)) [
        | inl failed ↦ rw failed stopped
        | inr fine ↦ elim (Bool-cases (eqb len (pos 0))) [
          | inl none_yet ↦ rw (fine, none_yet) kept
          | inr got ↦ rw (fine, got) stopped
        ]
      ]

  pub after_accept-IsTable :
      (keep stop : SelData A → SockEvent A) (t : Tried A F S)
      → t.2.table ≡ map_put fd e0 w.table
      → IsSound (keep t.1)
      → IsSound (stop t.1)
      → IsTable (after_try_accept fd keep stop ev t).table
  unfolding after_try_accept put_entry submit_own
  after_accept-IsTable keep stop (len, d, v) h k x =
      let kept : IsTable (map_put fd (keep d) v.table) = put_again (keep d) v.table h k in
      let stopped : IsTable (map_put fd (stop d) v.table) = put_again (stop d) v.table h x in
      elim (Bool-cases (eqb len (pos 0))) [
        | inl none_yet ↦ rw none_yet kept
        | inr other ↦ elim (Bool-cases (ltb_zero len)) [
          | inl below ↦ rw (other, below) stopped
          | inr above ↦ rw (other, above) stopped
        ]
      ]

  sided-IsTable :
      (side : SockEvent A → SelData A) (ready : Bool)
      (try : SelData A → SelWorld A F S → Option (Tried A F S))
      (after : SockEvent A → Tried A F S → SelWorld A F S) (t : Tried A F S)
      → try (side e0) (put fd e0 w) ≡ some t
      → IsTable (after e0 t).table
      → (w' : SelWorld A F S) × ((if ready
            then try_entry
                (λ se. try (side se) (put fd e0 w))
                after
                (map_get fd (put fd e0 w).table)
            else some (put fd e0 w))
          ≡ some w')
        × IsTable w'.table
  sided-IsTable side ready try after t tried done = elim (Bool-cases ready) [
    | inr unready ↦ (put fd e0 w, rw unready refl, IsTable-map_put fd e0 w.table sound table)
    | inl ready ↦ (
      after e0 t,
      rw ready (
          try_entry-some (λ se. try (side se) (put fd e0 w)) after (map_get fd (put fd e0 w).table)
            e0 t (map_get_put fd e0 w.table) tried),
      done,
    )
  ]

module _ {A F S : Type 0} (sel : SelectOs F S) (s : ℕ) (e : SelData A) (w : SelWorld A F S)
    (table : IsTable w.table) where
  reads_entry-IsSound : ReadsAs e.type e → IsSome e.sock → IsSound (reads_entry sel s e w)
  unfolding add_read sel_set
  reads_entry-IsSound r h = (
    (ReadsAs-same e (reads_entry sel s e w).rdata refl refl r, h),
    (entry-IsSound sel (w.socks s).sock w.table table.sound).1,
  )

  pub reading-IsTable :
      (ready : Bool) (try : SelData A → SelWorld A F S → Option (Tried A F S))
      (after : SockEvent A → Tried A F S → SelWorld A F S)
      → ReadsAs e.type e
      → IsSome e.sock
      → ((e0 : SockEvent A) (t : Tried A F S)
          → IsSound e0
          → t.2.table ≡ map_put (w.socks s).sock e0 w.table
          → IsSound (keep_read e0 t.1)
          → IsTable (after e0 t).table)
      → Attempted
          (reads_entry sel s e w).rdata
          (put (w.socks s).sock (reads_entry sel s e w) w)
          (try (reads_entry sel s e w).rdata (put (w.socks s).sock (reads_entry sel s e w) w))
      → (w' : SelWorld A F S) × ((if ready
            then try_entry
                (λ se. try se.rdata (put (w.socks s).sock (reads_entry sel s e w) w))
                after
                (map_get (w.socks s).sock (put (w.socks s).sock (reads_entry sel s e w) w).table)
            else some (put (w.socks s).sock (reads_entry sel s e w) w))
          ≡ some w')
        × IsTable w'.table
  unfolding add_read sel_set keep_read
  reading-IsTable ready try after r h done (t, tried, kept) =
      let e0 : SockEvent A = reads_entry sel s e w in
      let sound : IsSound e0 = reads_entry-IsSound r h in
      sided-IsTable (w.socks s).sock e.event w e0 table sound (λ se. se.rdata) ready try after t
        tried
        (done e0 t sound kept.table
          ((ReadsAs-same e t.1 kept.type kept.target r, subst IsSome (sym kept.sock) h), sound.1))

  pub writes_entry-IsSound : WritesAs e.type e → IsSome e.sock → IsSound (writes_entry sel s e w)
  unfolding add_write sel_set
  writes_entry-IsSound r h = (
    (entry-IsSound sel (w.socks s).sock w.table table.sound).0,
    (WritesAs-same e (writes_entry sel s e w).wdata refl refl r, h),
  )

  pub writing-IsTable :
      (ready : Bool) (try : SelData A → SelWorld A F S → Option (Tried A F S))
      (after : SockEvent A → Tried A F S → SelWorld A F S)
      → WritesAs e.type e
      → IsSome e.sock
      → ((e0 : SockEvent A) (t : Tried A F S)
          → IsSound e0
          → t.2.table ≡ map_put (w.socks s).sock e0 w.table
          → IsSound (keep_write e0 t.1)
          → IsTable (after e0 t).table)
      → Attempted
          (writes_entry sel s e w).wdata
          (put (w.socks s).sock (writes_entry sel s e w) w)
          (try (writes_entry sel s e w).wdata (put (w.socks s).sock (writes_entry sel s e w) w))
      → (w' : SelWorld A F S) × ((if ready
            then try_entry
                (λ se. try se.wdata (put (w.socks s).sock (writes_entry sel s e w) w))
                after
                (map_get (w.socks s).sock (put (w.socks s).sock (writes_entry sel s e w) w).table)
            else some (put (w.socks s).sock (writes_entry sel s e w) w))
          ≡ some w')
        × IsTable w'.table
  unfolding add_write sel_set keep_write
  writing-IsTable ready try after r h done (t, tried, kept) =
      let e0 : SockEvent A = writes_entry sel s e w in
      let sound : IsSound e0 = writes_entry-IsSound r h in
      sided-IsTable (w.socks s).sock e.event w e0 table sound (λ se. se.wdata) ready try after t
        tried
        (done e0 t sound kept.table
          (sound.0, (WritesAs-same e t.1 kept.type kept.target r, subst IsSome (sym kept.sock) h)))
