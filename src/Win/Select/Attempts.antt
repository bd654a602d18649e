-- ===== src/Win/Select/Attempts.antt =====
-- What the `Try…` functions of venti/platform/win/wineventimpl.h leave alone.
use venti.Prelude.{ℕ, ◌≡◌, refl, ap, ◌∙◌, Option, none, some, ◌==◌, inl, inr, Bool-cases}
use venti.Prelude.Int.{ℤ, ltb_zero}
use venti.Win.Os.{WinOs}
use venti.Win.Select.{SelData, SelWorld}
use venti.Win.Select.Try.{
  Tried, wsa_would_block, settle_try, settle_accept, read_with, write_with, recvfrom_with,
  sendto_with, accept_with, connect_with, attempt, attempt_at,
}

-- A pointer that is not null.
abbrev pub IsSome : Option ℕ → Type 0
IsSome x = (p : ℕ) × (x ≡ some p)

module _ {A F S : Type 0} where
  -- An attempt keeps the operation's event and pointers, the wait set and both sets.
  pub record Keeps (d : SelData A) (w : SelWorld A F S) (t : Tried A F S) : Type 0 where
    pub event : t.1.event ≡ d.event
    pub type : t.1.type ≡ d.type
    pub sock : t.1.sock ≡ d.sock
    pub target : t.1.target ≡ d.target
    pub waitset : t.2.waitset ≡ w.waitset
    pub table : t.2.table ≡ w.table
    pub rs : t.2.rs ≡ w.rs
    pub ws : t.2.ws ≡ w.ws

  settle_try-Keeps :
      (os : WinOs S) (len : ℤ) (d : SelData A) (w w' : SelWorld A F S)
      → w'.waitset ≡ w.waitset
      → w'.table ≡ w.table
      → w'.rs ≡ w.rs
      → w'.ws ≡ w.ws
      → Keeps d w (settle_try os len d w')
  unfolding settle_try
  settle_try-Keeps os len d w w' e k f g = elim (Bool-cases (ltb_zero len)) [
    | inr fine ↦ rw fine (record {
      event = refl;
      type = refl;
      sock = refl;
      target = refl;
      waitset = e;
      table = k;
      rs = f;
      ws = g;
    })
    | inl failed ↦ elim (Bool-cases (os.last_error w'.os == wsa_would_block)) [
      | inl blocked ↦
          rw (failed, blocked)
            (record {
              event = refl;
              type = refl;
              sock = refl;
              target = refl;
              waitset = e;
              table = k;
              rs = f;
              ws = g;
            })
      | inr refused ↦
          rw (failed, refused)
            (record {
              event = refl;
              type = refl;
              sock = refl;
              target = refl;
              waitset = e;
              table = k;
              rs = f;
              ws = g;
            })
    ]
  ]

  settle_accept-Keeps :
      (os : WinOs S) (r : ℤ) (d : SelData A) (w w' : SelWorld A F S)
      → w'.waitset ≡ w.waitset
      → w'.table ≡ w.table
      → w'.rs ≡ w.rs
      → w'.ws ≡ w.ws
      → Keeps d w (settle_accept os r d w')
  unfolding settle_accept
  settle_accept-Keeps os r d w w' e k f g = elim (Bool-cases (ltb_zero r)) [
    | inr fine ↦ rw fine (record {
      event = refl;
      type = refl;
      sock = refl;
      target = refl;
      waitset = e;
      table = k;
      rs = f;
      ws = g;
    })
    | inl failed ↦ elim (Bool-cases (os.last_error w'.os == wsa_would_block)) [
      | inl blocked ↦
          rw (failed, blocked)
            (record {
              event = refl;
              type = refl;
              sock = refl;
              target = refl;
              waitset = e;
              table = k;
              rs = f;
              ws = g;
            })
      | inr refused ↦
          rw (failed, refused)
            (record {
              event = refl;
              type = refl;
              sock = refl;
              target = refl;
              waitset = e;
              table = k;
              rs = f;
              ws = g;
            })
    ]
  ]

  module _ (os : WinOs S) (s : ℕ) (d : SelData A) (w : SelWorld A F S) where
    pub read_with-Keeps : Keeps d w (read_with os s d w)
    unfolding read_with
    read_with-Keeps = settle_try-Keeps os _ d w _ refl refl refl refl

    pub write_with-Keeps : Keeps d w (write_with os s d w)
    unfolding write_with
    write_with-Keeps = settle_try-Keeps os _ d w _ refl refl refl refl

    pub recvfrom_with-Keeps : Keeps d w (recvfrom_with os s d w)
    unfolding recvfrom_with
    recvfrom_with-Keeps = settle_try-Keeps os _ d w _ refl refl refl refl

    pub sendto_with-Keeps : Keeps d w (sendto_with os s d w)
    unfolding sendto_with
    sendto_with-Keeps = settle_try-Keeps os _ d w _ refl refl refl refl

    pub accept_with-Keeps : (p : ℕ) → Keeps d w (accept_with os s p d w)
    unfolding accept_with
    accept_with-Keeps p = settle_accept-Keeps os _ d w _ refl refl refl refl

    pub connect_with-Keeps : (p : ℕ) → Keeps d w (connect_with os s p d w)
    unfolding connect_with
    connect_with-Keeps p = record {
      event = refl;
      type = refl;
      sock = refl;
      target = refl;
      waitset = refl;
      table = refl;
      rs = refl;
      ws = refl;
    }

module _ {A F S : Type 0} where
  abbrev pub Attempted : SelData A → SelWorld A F S → Option (Tried A F S) → Type 0
  Attempted d w o = (t : Tried A F S) × (o ≡ some t) × Keeps d w t

  pub attempt-Keeps :
      (try : ℕ → SelData A → SelWorld A F S → Tried A F S) (d : SelData A) (w : SelWorld A F S)
      → ((s : ℕ) → Keeps d w (try s d w))
      → IsSome d.sock
      → Attempted d w (attempt try d w)
  unfolding attempt
  attempt-Keeps try d w keeps (s, h) =
      (try s d w, ap (λ x. elim x [ none ↦ none | some s' ↦ some (try s' d w) ]) h, keeps s)

  pub attempt_at-Keeps :
      (try : ℕ → ℕ → SelData A → SelWorld A F S → Tried A F S) (d : SelData A) (w : SelWorld A F S)
      → ((s p : ℕ) → Keeps d w (try s p d w))
      → IsSome d.target
      → IsSome d.sock
      → Attempted d w (attempt_at try d w)
  unfolding attempt_at
  attempt_at-Keeps try d w keeps (p, k) set =
      let (t, found, kept) = attempt-Keeps (λ s. try s p) d w (λ s. keeps s p) set in
      (t, ap (λ x. elim x [ none ↦ none | some p' ↦ attempt (λ s. try s p') d w ]) k ∙ found, kept)
