-- ===== src/Win/Select/Sound.antt =====
-- When the table of a `WinSockSelect` (venti/platform/win/winevent.h) is well formed: its keys ascend,
-- and a side that is activated holds an operation of its kinds with the pointers that it uses.
use venti.Prelude.{
  ℕ, ◌≡◌, subst, sym, Bool, true, false, Option, none, some, List, [], ◌∷◌, ◌==◌, ltb, inl, inr,
  Bool-cases,
}
use venti.Win.Map.{map_get, map_put}
use venti.Win.Map.Sorted.{Sorted, Sorted-map_put}
use venti.Win.Select.{
  SelData, SockEvent, SelectOs, SelType, read, write, recvfrom, sendto, accept, connect, entry,
  empty_event, empty_data,
}
use venti.Win.Select.Attempts.{IsSome}
use venti.Win.Select.Sides.{ReadsAs, WritesAs}

abbrev pub WhenOn : Bool → Type 0 → Type 0
WhenOn true X = X
WhenOn false X = Unit {0}

module _ {A : Type 0} where
  abbrev pub IsSound : SockEvent A → Type 0
  IsSound se =
      WhenOn se.ractivated (ReadsAs se.rdata.type se.rdata × IsSome se.rdata.sock)
      × WhenOn se.wactivated (WritesAs se.wdata.type se.wdata × IsSome se.wdata.sock)

  abbrev pub AllSound : List (ℕ × SockEvent A) → Type 0
  AllSound [] = Unit {0}
  AllSound ((fd, se) ∷ m) = IsSound se × AllSound m

  AllSound-map_put :
      (k : ℕ) (se : SockEvent A) (m : List (ℕ × SockEvent A))
      → IsSound se
      → AllSound m
      → AllSound (map_put k se m)
  unfolding map_put
  AllSound-map_put k se [] h a = (h, tt)
  AllSound-map_put k se ((x, u) ∷ m) h (b, a) = elim (Bool-cases (k == x)) [
    | inl same ↦ rw same (h, a)
    | inr other ↦ elim (Bool-cases (ltb k x)) [
      | inl below ↦ rw (other, below) (h, (b, a))
      | inr above ↦ rw (other, above) (b, AllSound-map_put k se m h a)
    ]
  ]

  abbrev SoundIf : Option (SockEvent A) → Type 0
  SoundIf none = Unit {0}
  SoundIf (some se) = IsSound se

  map_get-SoundIf : (k : ℕ) (m : List (ℕ × SockEvent A)) → AllSound m → SoundIf (map_get k m)
  unfolding map_get
  map_get-SoundIf k [] a = tt
  map_get-SoundIf k ((x, u) ∷ m) (b, a) = elim (Bool-cases (k == x)) [
    | inl same ↦ rw same b
    | inr other ↦ rw other (map_get-SoundIf k m a)
  ]

  -- A table that is well formed.
  pub record IsTable (m : List (ℕ × SockEvent A)) : Type 0 where
    pub sorted : Sorted m
    pub sound : AllSound m

  pub IsTable-map_put :
      (k : ℕ) (se : SockEvent A) (m : List (ℕ × SockEvent A))
      → IsSound se
      → IsTable m
      → IsTable (map_put k se m)
  IsTable-map_put k se m h t = record {
    sorted = Sorted-map_put k se m t.sorted;
    sound = AllSound-map_put k se m h t.sound;
  }

  reads_on :
      (type : SelType) (d d' : SelData A) → d'.target ≡ d.target → ReadsAs type d → ReadsAs type d'
  reads_on read d d' f h = tt
  reads_on recvfrom d d' f h = tt
  reads_on accept d d' f h = subst IsSome (sym f) h
  reads_on write d d' f h = absurd h
  reads_on sendto d d' f h = absurd h
  reads_on connect d d' f h = absurd h

  writes_on :
      (type : SelType) (d d' : SelData A)
      → d'.target ≡ d.target
      → WritesAs type d
      → WritesAs type d'
  writes_on write d d' f h = tt
  writes_on sendto d d' f h = tt
  writes_on connect d d' f h = subst IsSome (sym f) h
  writes_on read d d' f h = absurd h
  writes_on recvfrom d d' f h = absurd h
  writes_on accept d d' f h = absurd h

  -- What an operation is good for rests on its type and its pointer alone.
  pub ReadsAs-same :
      (d d' : SelData A)
      → d'.type ≡ d.type
      → d'.target ≡ d.target
      → ReadsAs d.type d
      → ReadsAs d'.type d'
  ReadsAs-same d d' e f h = subst (λ t. ReadsAs t d') (sym e) (reads_on d.type d d' f h)

  pub WritesAs-same :
      (d d' : SelData A)
      → d'.type ≡ d.type
      → d'.target ≡ d.target
      → WritesAs d.type d
      → WritesAs d'.type d'
  WritesAs-same d d' e f h = subst (λ t. WritesAs t d') (sym e) (writes_on d.type d d' f h)

  -- A side that is not activated is well formed; the other one is what it was.
  pub IsSound-stop_write :
      (se se' : SockEvent A)
      → se'.rdata ≡ se.rdata
      → se'.ractivated ≡ se.ractivated
      → se'.wactivated ≡ false
      → IsSound se
      → IsSound se'
  IsSound-stop_write se se' same on off h = (
    subst (λ b. WhenOn b (ReadsAs se'.rdata.type se'.rdata × IsSome se'.rdata.sock)) (sym on)
        (subst (λ (d : SelData A). WhenOn se.ractivated (ReadsAs d.type d × IsSome d.sock))
          (sym same) h.0),
    subst (λ b. WhenOn b (WritesAs se'.wdata.type se'.wdata × IsSome se'.wdata.sock)) (sym off) tt,
  )

  pub IsSound-stop_read :
      (se se' : SockEvent A)
      → se'.wdata ≡ se.wdata
      → se'.wactivated ≡ se.wactivated
      → se'.ractivated ≡ false
      → IsSound se
      → IsSound se'
  IsSound-stop_read se se' same on off h = (
    subst (λ b. WhenOn b (ReadsAs se'.rdata.type se'.rdata × IsSome se'.rdata.sock)) (sym off) tt,
    subst (λ b. WhenOn b (WritesAs se'.wdata.type se'.wdata × IsSome se'.wdata.sock)) (sym on)
        (subst (λ (d : SelData A). WhenOn se.wactivated (WritesAs d.type d × IsSome d.sock))
          (sym same) h.1),
  )

module _ {A F S : Type 0} (sel : SelectOs F S) where
  abbrev or_empty : Option (SockEvent A) → SockEvent A
  or_empty o = elim o [ none ↦ empty_event sel | some se ↦ se ]

  or_empty-IsSound : (o : Option (SockEvent A)) → SoundIf o → IsSound (or_empty o)
  unfolding empty_event empty_data
  or_empty-IsSound none h = (tt, tt)
  or_empty-IsSound (some se) h = h

  pub entry-IsSound : (fd : ℕ) (m : List (ℕ × SockEvent A)) → AllSound m → IsSound (entry sel fd m)
  unfolding entry
  entry-IsSound fd m a = or_empty-IsSound (map_get fd m) (map_get-SoundIf fd m a)
