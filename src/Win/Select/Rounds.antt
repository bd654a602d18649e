-- ===== src/Win/Select/Rounds.antt =====
-- The loop of `Wait` (venti/platform/win/wineventimpl.h) over the sockets that `select` marks.
use venti.Prelude.{
  ◌≡◌, refl, ap, sym, subst, ◌∙◌, Bool, true, false, Option, none, some, List, [], ◌∷◌, ◌++◌,
  if◌then◌else◌,
}
use mathlib.Core.List.{append-nil}
use venti.Handler.{IsResult}
use venti.Win.Select.Attempts.{IsSome}
use venti.Win.Os.{WinOs}
use venti.Win.Select.{SockEvent, SelWorld}
use venti.Win.Select.Wait.{write_round, entry_round, read_case, write_case, Round}
use venti.Win.Select.Sound.{IsSound, IsSound-stop_read, IsSound-stop_write}
use venti.Win.Select.Sides.{
  IsArmed, WritesAs, Served, passed, reported, ReadDone, WriteDone, read_case_done, write_case_done,
}

one_side : {A : Type 0} → (q : List A) (r : A) → q ++ r ∷ [] ≡ (q ++ []) ++ r ∷ []
one_side q r = ap (λ l. l ++ r ∷ []) (sym (append-nil q))

module _ {A F S : Type 0} where
  -- The socket's round comes to its end and serves both sides.
  pub record Rounded (readable writeable : Bool) (se : SockEvent A) (w : SelWorld A F S)
      (o : Option (Round A F S)) : Type 0 where
    pub se' : SockEvent A
    pub w' : SelWorld A F S
    pub returns : o ≡ some (se', w')
    pub served : Served readable writeable se w.waitset se' w'.waitset
    pub sound : IsSound se'
    pub rs : w'.rs ≡ w.rs
    pub ws : w'.ws ≡ w.ws

  -- The reading side's result is what the writing side goes on with.
  after_read :
      (os : WinOs S) (writeable : Bool) (se se' : SockEvent A) (w w' : SelWorld A F S)
      → se.ractivated ≡ true
      → read_case os se.rdata.type se w ≡ some (se', w')
      → entry_round os true writeable se w ≡ write_round os writeable se' w'
  unfolding entry_round
  after_read os writeable se se' w w' on found =
      ap
        (λ b.
          if b
          then elim (read_case os se.rdata.type se w) [
            | none ↦ none
            | some (e, v) ↦ write_round os writeable e v
          ]
          else some (se, w))
        on
      ∙ ap (λ o. elim o [ none ↦ none | some (e, v) ↦ write_round os writeable e v ]) found

module _ {A F S : Type 0} (os : WinOs S) (se : SockEvent A) (w : SelWorld A F S) where
  pub entry_round-IsServed :
      (readable writeable : Bool)
      → IsArmed readable writeable se
      → IsSound se
      → Rounded readable writeable se w (entry_round os readable writeable se w)
  unfolding entry_round write_round
  entry_round-IsServed false false h k = record {
    se' = se;
    w' = w;
    returns = refl;
    served = record {
      reads = [];
      writes = [];
      read_side = passed;
      write_side = passed;
      waitset = sym (append-nil _ ∙ append-nil _);
      ractivated = refl;
      wactivated = refl;
    };
    sound = k;
    rs = refl;
    ws = refl;
  }
  entry_round-IsServed false true h k =
      let (on, kind, set) = h.writing refl in
      let d : WriteDone se w (write_case os se.wdata.type se w) =
        write_case_done os se w se.wdata.type kind on set in
      record {
        se' = d.se';
        w' = d.w';
        returns = d.returns;
        served = record {
          reads = [];
          writes = d.r ∷ [];
          read_side = passed;
          write_side = reported d.r d.result;
          waitset = d.waitset ∙ one_side w.waitset d.r;
          ractivated = d.other_on;
          wactivated = d.off;
        };
        sound = IsSound-stop_write se d.se' d.other d.other_on d.off k;
        rs = d.rs;
        ws = d.ws;
      }
  entry_round-IsServed true false h k =
      let (on, kind, set) = h.reading refl in
      let d : ReadDone se w (read_case os se.rdata.type se w) =
        read_case_done os se w se.rdata.type kind set in
      record {
        se' = d.se';
        w' = d.w';
        returns = after_read os false se d.se' w d.w' on d.returns;
        served = record {
          reads = d.r ∷ [];
          writes = [];
          read_side = reported d.r d.result;
          write_side = passed;
          waitset = d.waitset ∙ sym (append-nil _);
          ractivated = d.off;
          wactivated = d.other_on;
        };
        sound = IsSound-stop_read se d.se' d.other d.other_on d.off k;
        rs = d.rs;
        ws = d.ws;
      }
  entry_round-IsServed true true h k =
      let (on, kind, set) = h.reading refl in
      let (won, wkind, wset) = h.writing refl in
      let d : ReadDone se w (read_case os se.rdata.type se w) =
        read_case_done os se w se.rdata.type kind set in
      let e : WriteDone d.se' d.w' (write_case os d.se'.wdata.type d.se' d.w') =
        write_case_done os d.se' d.w' d.se'.wdata.type
          (subst (λ x. WritesAs x.type x) (sym d.other) wkind) (d.other_on ∙ won)
          (subst (λ x. IsSome x.sock) (sym d.other) wset) in
      record {
        se' = e.se';
        w' = e.w';
        returns = after_read os true se d.se' w d.w' on d.returns ∙ e.returns;
        served = record {
          reads = d.r ∷ [];
          writes = e.r ∷ [];
          read_side = reported d.r d.result;
          write_side = reported e.r (subst (λ x. IsResult x.event e.r) d.other e.result);
          waitset = e.waitset ∙ ap (λ q. q ++ e.r ∷ []) d.waitset;
          ractivated = e.other_on ∙ d.off;
          wactivated = e.off;
        };
        sound =
            IsSound-stop_write d.se' e.se' e.other e.other_on e.off
              (IsSound-stop_read se d.se' d.other d.other_on d.off k);
        rs = e.rs ∙ d.rs;
        ws = e.ws ∙ d.ws;
      }
