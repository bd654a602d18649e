-- ===== src/Win/Select/Sides.antt =====
-- What a round of `Wait` (venti/platform/win/wineventimpl.h) does with one side of a socket.
use venti.Prelude.{
  ◌≡◌, refl, ap, subst, ◌∙◌, Bool, true, false, Option, some, List, [], ◌∷◌, ◌++◌, arith,
  if◌then◌else◌,
}
use venti.Prelude.Int.{ℤ}
use venti.Event.{Event}
use venti.Context.{settled, enqueue}
use venti.Epoll.Outcome.{settled_due}
use venti.Handler.{IsResult}
use venti.Win.Os.{WinOs}
use venti.Win.Select.{
  SelData, SockEvent, SelWorld, SelType, read, write, recvfrom, sendto, accept, connect,
}
use venti.Win.Select.Try.{
  Tried, sel_try_read, sel_try_write, sel_try_recvfrom, sel_try_sendto, sel_try_accept,
  sel_try_connect, read_with, write_with, recvfrom_with, sendto_with, accept_with, connect_with,
}
use venti.Win.Select.Attempts.{
  IsSome, Attempted, attempt-Keeps, attempt_at-Keeps, read_with-Keeps, write_with-Keeps,
  recvfrom_with-Keeps, sendto_with-Keeps, accept_with-Keeps, connect_with-Keeps,
}
use venti.Win.Select.Wait.{
  processing_data, transfer_result, accept_result, connect_result, Round, report_read, report_write,
  round_of, read_case, write_case,
}

module _ {A : Type 0} where
  -- The operation that a side holds is one of that side's kinds, with its pointers set.
  abbrev pub ReadsAs : SelType → SelData A → Type 0
  ReadsAs read d = Unit {0}
  ReadsAs recvfrom d = Unit {0}
  ReadsAs accept d = IsSome d.target
  ReadsAs write d = ⊥
  ReadsAs sendto d = ⊥
  ReadsAs connect d = ⊥

  abbrev pub WritesAs : SelType → SelData A → Type 0
  WritesAs write d = Unit {0}
  WritesAs sendto d = Unit {0}
  WritesAs connect d = IsSome d.target
  WritesAs read d = ⊥
  WritesAs recvfrom d = ⊥
  WritesAs accept d = ⊥

  -- Where the set has the socket, the side has an operation to try.
  pub record IsArmed (readable writeable : Bool) (se : SockEvent A) : Type 0 where
    pub reading :
        readable ≡ true
        → (se.ractivated ≡ true) × ReadsAs se.rdata.type se.rdata × IsSome se.rdata.sock
    pub writing :
        writeable ≡ true
        → (se.wactivated ≡ true) × WritesAs se.wdata.type se.wdata × IsSome se.wdata.sock

  -- What a side adds to the wait set: one completion of its event where the set has the socket.
  pub data Side (ev : Event A) : Bool → List (Event A) → Type 0 where
    passed : Side ev false []
    reported : (r : Event A) → IsResult ev r → Side ev true (r ∷ [])

  -- A socket's round: the two sides in order, each no longer activated once it is reported.
  pub record Served (readable writeable : Bool) (se : SockEvent A) (q : List (Event A))
      (se' : SockEvent A) (q' : List (Event A)) : Type 0 where
    pub reads : List (Event A)
    pub writes : List (Event A)
    pub read_side : Side se.rdata.event readable reads
    pub write_side : Side se.wdata.event writeable writes
    pub waitset : q' ≡ (q ++ reads) ++ writes
    pub ractivated : se'.ractivated ≡ (if readable then false else se.ractivated)
    pub wactivated : se'.wactivated ≡ (if writeable then false else se.wactivated)

  transfer_result-cb : (len : ℤ) (ev : Event A) → (transfer_result len ev).cb ≡ ev.cb
  unfolding transfer_result
  transfer_result-cb len ev = ground arith

  accept_result-cb : (res : ℤ) (ev : Event A) → (accept_result res ev).cb ≡ ev.cb
  unfolding accept_result
  accept_result-cb res ev = ground arith

  connect_result-cb : (res : ℤ) (ev : Event A) → (connect_result res ev).cb ≡ ev.cb
  unfolding connect_result
  connect_result-cb res ev = ground arith

module _ {A F S : Type 0} where
  -- The reading side's round: the entry, its world, and the completion.
  pub record ReadDone (se : SockEvent A) (w : SelWorld A F S) (o : Option (Round A F S))
      : Type 0 where
    pub se' : SockEvent A
    pub w' : SelWorld A F S
    pub r : Event A
    pub returns : o ≡ some (se', w')
    pub result : IsResult se.rdata.event r
    pub waitset : w'.waitset ≡ w.waitset ++ r ∷ []
    pub off : se'.ractivated ≡ false
    pub other : se'.wdata ≡ se.wdata
    pub other_on : se'.wactivated ≡ se.wactivated
    pub rs : w'.rs ≡ w.rs
    pub ws : w'.ws ≡ w.ws

  report_read_done :
      (result : ℤ → Event A → Event A) (se : SockEvent A) (w : SelWorld A F S)
      (o : Option (Tried A F S))
      → ((len : ℤ) (ev : Event A) → (result len ev).cb ≡ ev.cb)
      → Attempted (processing_data se.rdata) w o
      → ReadDone se w (round_of (report_read result se) o)
  unfolding round_of report_read processing_data
  report_read_done result se w o cb ((len, d, w'), found, kept) =
      let ev : Event A = result len d.event in
      record {
        se' = record se { rdata = record d { event = ev }; ractivated = false };
        w' = record w' { waitset = enqueue ev w'.waitset };
        r = record ev { status = settled ev.status };
        returns = ap (round_of (report_read result se)) found;
        result = record {
          same_cb = cb len d.event ∙ ap (λ e. e.cb) kept.event;
          due = settled_due ev.status;
        };
        waitset = ap (enqueue ev) kept.waitset;
        off = refl;
        other = refl;
        other_on = refl;
        rs = kept.rs;
        ws = kept.ws;
      }

  pub record WriteDone (se : SockEvent A) (w : SelWorld A F S) (o : Option (Round A F S))
      : Type 0 where
    pub se' : SockEvent A
    pub w' : SelWorld A F S
    pub r : Event A
    pub returns : o ≡ some (se', w')
    pub result : IsResult se.wdata.event r
    pub waitset : w'.waitset ≡ w.waitset ++ r ∷ []
    pub off : se'.wactivated ≡ false
    pub other : se'.rdata ≡ se.rdata
    pub other_on : se'.ractivated ≡ se.ractivated
    pub rs : w'.rs ≡ w.rs
    pub ws : w'.ws ≡ w.ws

  report_write_done :
      (result : ℤ → Event A → Event A) (se : SockEvent A) (d0 : SelData A) (w : SelWorld A F S)
      (o : Option (Tried A F S))
      → ((len : ℤ) (ev : Event A) → (result len ev).cb ≡ ev.cb)
      → d0.event ≡ se.wdata.event
      → Attempted d0 w o
      → WriteDone se w (round_of (report_write result se) o)
  unfolding round_of report_write
  report_write_done result se d0 w o cb same ((len, d, w'), found, kept) =
      let ev : Event A = result len d.event in
      record {
        se' = record se { wdata = record d { event = ev }; wactivated = false };
        w' = record w' { waitset = enqueue ev w'.waitset };
        r = record ev { status = settled ev.status };
        returns = ap (round_of (report_write result se)) found;
        result = record {
          same_cb = cb len d.event ∙ ap (λ e. e.cb) (kept.event ∙ same);
          due = settled_due ev.status;
        };
        waitset = ap (enqueue ev) kept.waitset;
        off = refl;
        other = refl;
        other_on = refl;
        rs = kept.rs;
        ws = kept.ws;
      }

module _ {A F S : Type 0} (os : WinOs S) (se : SockEvent A) (w : SelWorld A F S) where
  pub read_case_done :
      (type : SelType)
      → ReadsAs type se.rdata
      → IsSome se.rdata.sock
      → ReadDone se w (read_case os type se w)
  unfolding read_case sel_try_read sel_try_recvfrom sel_try_accept processing_data
  read_case_done read x set = report_read_done transfer_result se w _ transfer_result-cb (
      attempt-Keeps (read_with os) (processing_data se.rdata) w (λ s. read_with-Keeps os s _ w) set)
  read_case_done recvfrom x set = report_read_done transfer_result se w _ transfer_result-cb (
      attempt-Keeps (recvfrom_with os) (processing_data se.rdata) w
        (λ s. recvfrom_with-Keeps os s _ w) set)
  read_case_done accept x set = report_read_done accept_result se w _ accept_result-cb (
      attempt_at-Keeps (accept_with os) (processing_data se.rdata) w
        (λ s p. accept_with-Keeps os s _ w p) x set)
  read_case_done write x set = absurd x
  read_case_done sendto x set = absurd x
  read_case_done connect x set = absurd x

  pub write_case_done :
      (type : SelType)
      → WritesAs type se.wdata
      → se.wactivated ≡ true
      → IsSome se.wdata.sock
      → WriteDone se w (write_case os type se w)
  unfolding write_case sel_try_write sel_try_sendto sel_try_connect processing_data
  write_case_done write x on set =
      subst (λ o. WriteDone se w o) (rw on refl)
        (report_write_done transfer_result se (processing_data se.wdata) w _ transfer_result-cb refl
          (attempt-Keeps (write_with os) (processing_data se.wdata) w
            (λ s. write_with-Keeps os s _ w) set))
  write_case_done sendto x on set =
      subst (λ o. WriteDone se w o) (rw on refl)
        (report_write_done transfer_result se (processing_data se.wdata) w _ transfer_result-cb refl
          (attempt-Keeps (sendto_with os) (processing_data se.wdata) w
            (λ s. sendto_with-Keeps os s _ w) set))
  write_case_done connect x on set =
      report_write_done connect_result se se.wdata w _ connect_result-cb refl
        (attempt_at-Keeps (connect_with os) se.wdata w (λ s p. connect_with-Keeps os s _ w p) x set)
  write_case_done read x on set = absurd x
  write_case_done recvfrom x on set = absurd x
  write_case_done accept x on set = absurd x
