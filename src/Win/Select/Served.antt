-- ===== src/Win/Select/Served.antt =====
-- `Wait` (venti/platform/win/wineventimpl.h) over the whole table of sockets.
use venti.Prelude.{ℕ, ◌≡◌, refl, ◌∙◌, some, List, [], ◌∷◌}
use venti.Event.{Event}
use venti.Win.Os.{WinOs}
use venti.Win.Select.{SockEvent, SelWorld, SelectOs}
use venti.Win.Select.Wait.{entry_round, entry_rounds}
use venti.Win.Map.Sorted.{Above, Sorted}
use venti.Win.Select.Sound.{AllSound}
use venti.Win.Select.Sides.{IsArmed, Served}
use venti.Win.Select.Rounds.{Rounded, entry_round-IsServed}

module _ {A F S : Type 0} (sel : SelectOs F S) (rs ws : F) where
  -- Each socket that the answered sets have holds an operation to try.
  pub data AllArmed : List (ℕ × SockEvent A) → Type 0 where
    none_left : AllArmed []
    also :
        {fd : ℕ} {se : SockEvent A} {m : List (ℕ × SockEvent A)}
        → IsArmed (sel.fd_isset fd rs) (sel.fd_isset fd ws) se
        → AllArmed m
        → AllArmed ((fd, se) ∷ m)

  -- The sockets are served one after another, in the order of their descriptors.
  pub data AllServed
      : List (ℕ × SockEvent A)
        → List (Event A)
        → List (ℕ × SockEvent A)
        → List (Event A)
        → Type 0 where
    nothing : {q : List (Event A)} → AllServed [] q [] q
    then_ :
        {fd : ℕ} {se se' : SockEvent A} {m m' : List (ℕ × SockEvent A)} {q q' q'' : List (Event A)}
        → Served (sel.fd_isset fd rs) (sel.fd_isset fd ws) se q se' q'
        → AllServed m q' m' q''
        → AllServed ((fd, se) ∷ m) q ((fd, se') ∷ m') q''

module _ {A F S : Type 0} (os : WinOs S) (sel : SelectOs F S) (rs ws : F) where
  -- A round, then the rounds of the other sockets.
  entry_rounds_then :
      (fd : ℕ) (se se' : SockEvent A) (m m' : List (ℕ × SockEvent A)) (w w' w'' : SelWorld A F S)
      → w.rs ≡ rs
      → w.ws ≡ ws
      → entry_round os (sel.fd_isset fd rs) (sel.fd_isset fd ws) se w ≡ some (se', w')
      → entry_rounds os sel m w' ≡ some (m', w'')
      → entry_rounds os sel ((fd, se) ∷ m) w ≡ some ((fd, se') ∷ m', w'')
  unfolding entry_rounds
  entry_rounds_then fd se se' m m' w w' w'' e f found rest = simp (entry_rounds, e, f, found, rest)

  pub entry_rounds-AllServed :
      (table : List (ℕ × SockEvent A)) (w : SelWorld A F S)
      → w.rs ≡ rs
      → w.ws ≡ ws
      → AllArmed sel rs ws table
      → AllSound table
      → (table' : List (ℕ × SockEvent A)) × (w' : SelWorld A F S) × (entry_rounds os sel table w
          ≡ some (table', w'))
        × AllServed sel rs ws table w.waitset table' w'.waitset
        × AllSound table'
  unfolding entry_rounds
  entry_rounds-AllServed [] w e f h k = ([], w, refl, nothing, tt)
  entry_rounds-AllServed ((fd, se) ∷ m) w e f (also a h) (b, k) =
      let d : Rounded (sel.fd_isset fd rs) (sel.fd_isset fd ws) se w
          (entry_round os (sel.fd_isset fd rs) (sel.fd_isset fd ws) se w) =
        entry_round-IsServed os se w (sel.fd_isset fd rs) (sel.fd_isset fd ws) a b in
      let (m', w', found, served, sound) =
        entry_rounds-AllServed m d.w' (d.rs ∙ e) (d.ws ∙ f) h k in
      (
        (fd, d.se') ∷ m',
        w',
        entry_rounds_then fd se d.se' m m' w d.w' w' e f d.returns found,
        then_ d.served served,
        (d.sound, sound),
      )

module _ {A F S : Type 0} (sel : SelectOs F S) (rs ws : F) where
  Above-AllServed :
      (k : ℕ) (m m' : List (ℕ × SockEvent A)) (q q' : List (Event A))
      → AllServed sel rs ws m q m' q'
      → Above k m
      → Above k m'
  Above-AllServed k _ _ q q' nothing a = tt
  Above-AllServed k _ _ q q' (then_ s h) (b, a) = (b, Above-AllServed k _ _ _ q' h a)

  -- The keys stay as they are.
  pub Sorted-AllServed :
      (m m' : List (ℕ × SockEvent A)) (q q' : List (Event A))
      → AllServed sel rs ws m q m' q'
      → Sorted m
      → Sorted m'
  Sorted-AllServed _ _ q q' nothing a = tt
  Sorted-AllServed _ _ q q' (then_ {fd} s h) (b, a) =
      (Above-AllServed fd _ _ _ q' h b, Sorted-AllServed _ _ _ q' h a)
