-- ===== src/Win/Select/Asked.antt =====
-- `InitSet` of venti/platform/win/winevent.h: the sets ask for the sides that are activated.
use venti.Prelude.{
  ℕ, suc, ◌≡◌, ◌≤◌, refl, sym, ◌∙◌, subst, Bool, true, false, ◌||◌, ◌&&◌, List, [], ◌∷◌, arith,
  ◌==◌, if◌then◌else◌,
}
use venti.Prelude.Int.{ℤ}
use venti.Win.Map.Sorted.{Above, Sorted}
use venti.Win.Select.{SockEvent, SelectOs}
use venti.Win.Select.Wait.{init_entries}
use venti.Win.Select.Sides.{IsArmed}
use venti.Win.Select.Sound.{WhenOn, AllSound}
use venti.Win.Select.Served.{AllArmed, none_left, also}

-- What the system says of its sets and of `select`: FD_ZERO leaves a set empty, FD_SET adds at most
-- its socket, and `select` only takes sockets out.
pub record Laws {F S : Type 0} (sel : SelectOs F S) : Type 0 where
  pub zeroed : (j : ℕ) → sel.fd_isset j sel.fd_zero ≡ false
  pub added :
      (j k : ℕ) (f : F)
      → sel.fd_isset j (sel.fd_set k f) ≡ true
      → (j == k || sel.fd_isset j f) ≡ true
  pub reads_within :
      (n : ℤ) (rs ws : F) (o : S) (j : ℕ)
      → sel.fd_isset j (sel.select n rs ws o).1 ≡ true
      → sel.fd_isset j rs ≡ true
  pub writes_within :
      (n : ℤ) (rs ws : F) (o : S) (j : ℕ)
      → sel.fd_isset j (sel.select n rs ws o).2 ≡ true
      → sel.fd_isset j ws ≡ true

module _ {A : Type 0} (on : SockEvent A → Bool) where
  -- The table has the key with the flag set.
  abbrev pub is_on : ℕ → List (ℕ × SockEvent A) → Bool
  is_on j [] = false
  is_on j ((t, se) ∷ m) = (j == t && on se) || is_on j m

  is_on-Above : (j : ℕ) (m : List (ℕ × SockEvent A)) → Above j m → is_on j m ≡ false
  is_on-Above j [] a = refl
  is_on-Above j ((t, se) ∷ m) (b, a) = ground (arith, is_on-Above j m a)

  pub is_on-head :
      (fd : ℕ) (se : SockEvent A) (m : List (ℕ × SockEvent A))
      → Above fd m
      → is_on fd ((fd, se) ∷ m) ≡ true
      → on se ≡ true
  is_on-head fd se m a h = ground (arith, is_on-Above fd m a)

  pub is_on-tail :
      (fd j : ℕ) (se : SockEvent A) (m : List (ℕ × SockEvent A))
      → suc fd ≤ j
      → is_on j ((fd, se) ∷ m) ≡ true
      → is_on j m ≡ true
  is_on-tail fd j se m b h = ground arith

module _ {F S : Type 0} (sel : SelectOs F S) (laws : Laws sel) where
  set_if :
      (on b : Bool) (j t : ℕ) (f : F)
      → (b || sel.fd_isset j (if on then sel.fd_set t f else f)) ≡ true
      → (((j == t && on) || b) || sel.fd_isset j f) ≡ true
  set_if false b j t f h = ground arith
  set_if true true j t f h = ground arith
  set_if true false j t f h =
      let had : (j == t || sel.fd_isset j f) ≡ true = laws.added j t f h in ground arith

  pub zeroed_or : (j : ℕ) (b : Bool) → (b || sel.fd_isset j sel.fd_zero) ≡ true → b ≡ true
  zeroed_or j true h = refl
  zeroed_or j false h = sym (laws.zeroed j) ∙ h

module _ {A F S : Type 0} (sel : SelectOs F S) (laws : Laws sel) where
  pub init_reads :
      (j : ℕ) (m : List (ℕ × SockEvent A)) (rs ws : F) (mx : ℤ)
      → sel.fd_isset j (init_entries sel m rs ws mx).0 ≡ true
      → (is_on (λ se. se.ractivated) j m || sel.fd_isset j rs) ≡ true
  unfolding init_entries
  init_reads j [] rs ws mx h = h
  init_reads j ((t, se) ∷ m) rs ws mx h =
      set_if sel laws se.ractivated (is_on (λ se. se.ractivated) j m) j t rs
        (init_reads j m _ _ _ h)

  pub init_writes :
      (j : ℕ) (m : List (ℕ × SockEvent A)) (rs ws : F) (mx : ℤ)
      → sel.fd_isset j (init_entries sel m rs ws mx).1 ≡ true
      → (is_on (λ se. se.wactivated) j m || sel.fd_isset j ws) ≡ true
  unfolding init_entries
  init_writes j [] rs ws mx h = h
  init_writes j ((t, se) ∷ m) rs ws mx h =
      set_if sel laws se.wactivated (is_on (λ se. se.wactivated) j m) j t ws
        (init_writes j m _ _ _ h)

-- No key is below `k`.
abbrev pub From : {V : Type 0} → ℕ → List (ℕ × V) → Type 0
From k [] = Unit {0}
From k ((x, u) ∷ m) = k ≤ x

From-Above : {V : Type 0} (k : ℕ) (m : List (ℕ × V)) → Above k m → From (suc k) m
From-Above k [] a = tt
From-Above k ((x, u) ∷ m) (b, a) = b

armed_as : (X Y : Type 0) (b : Bool) → b ≡ true → WhenOn b (X × Y) → (b ≡ true) × X × Y
armed_as X Y b e x = let (u, v) = subst (λ c. WhenOn c (X × Y)) e x in (e, u, v)

module _ {A F S : Type 0} (sel : SelectOs F S) (rs ws : F) where
  -- The answered sets have none but the sides that are activated.
  pub AllArmed-From :
      (k : ℕ) (m : List (ℕ × SockEvent A))
      → ((j : ℕ) → k ≤ j → sel.fd_isset j rs ≡ true → is_on (λ se. se.ractivated) j m ≡ true)
      → ((j : ℕ) → k ≤ j → sel.fd_isset j ws ≡ true → is_on (λ se. se.wactivated) j m ≡ true)
      → From k m
      → Sorted m
      → AllSound m
      → AllArmed sel rs ws m
  AllArmed-From k [] r w l s t = none_left
  AllArmed-From k ((fd, se) ∷ m) r w l (a, s) ((reads, writes), t) =
      let armed : IsArmed (sel.fd_isset fd rs) (sel.fd_isset fd ws) se = record {
        reading = λ h.
            armed_as _ _ se.ractivated (is_on-head (λ se. se.ractivated) fd se m a (r fd l h))
              reads;
        writing = λ h.
            armed_as _ _ se.wactivated (is_on-head (λ se. se.wactivated) fd se m a (w fd l h))
              writes;
      } in
      also armed (
        AllArmed-From (suc fd) m
          (λ j b h. is_on-tail (λ se. se.ractivated) fd j se m b (r j (omega arith) h))
          (λ j b h. is_on-tail (λ se. se.wactivated) fd j se m b (w j (omega arith) h))
          (From-Above fd m a) s t)
