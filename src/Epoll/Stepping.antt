-- ===== src/Epoll/Stepping.antt =====
-- `Epoll::Wait` as a whole (venti/platform/linux/epollimpl.h): a list of events, one after another.
use venti.Prelude.{
  ℕ, suc, ◌≤◌, ◌≡◌, refl, sym, ap, subst, ◌∙◌, inl, inr, List, [], ◌∷◌, ◌++◌, some, arith, length,
  length-append,
}
use mathlib.Core.List.{append-nil, append_assoc}
use native.Mathlib.Decide.{ℕ_discrete}
use venti.Event.{Event}
use venti.Os.{Os, EpollEvent}
use venti.World.{World, SockEventData, EvType, slot}
use venti.Context.Pass.{AllDue, AllDue-append}
use venti.Epoll.Wait.{handle_event, handle_events, wait}
use venti.Epoll.Outcome.{Outcome}
use venti.Epoll.Handling.{handle_at-Outcome}
use venti.Epoll.Local.{IsLocal, IsAimed}
use venti.Epoll.Steps.{Holds, handle_at-IsLocal}

-- The slot points to a socket.
abbrev pub IsOwned : {A : Type 0} → SockEventData A → Type 0
IsOwned d = (t : ℕ) × (d.sock ≡ some t)

module _ {A S : Type 0} where
  -- What the handling of `n` events makes of a world.
  pub record Advances (n : ℕ) (w w' : World A S) : Type 0 where
    pub added : List (Event A)
    pub extended : w'.waitset ≡ w.waitset ++ added
    pub due : AllDue added
    pub few : length added ≤ n
    pub flag : w'.can_continue ≡ w.can_continue
    pub owned : (q : ℕ) → IsOwned (w.evs q) → IsOwned (w'.evs q)
    pub aimed : ((q : ℕ) → IsAimed (w.evs q)) → (q : ℕ) → IsAimed (w'.evs q)

  module _ {s : ℕ} {w w' : World A S} (h : IsLocal s w w') where
    at_slot : w'.evs (w.socks s).ev ≡ slot w' s
    at_slot = ap w'.evs (sym (h.pointers s))

    pub local-IsOwned : (q : ℕ) → IsOwned (w.evs q) → IsOwned (w'.evs q)
    local-IsOwned q (t, e) = elim (ℕ_discrete q (w.socks s).ev) [
      | yes here ↦
          subst (λ a. IsOwned (w'.evs a)) (sym here)
            (subst IsOwned (sym at_slot) (h.owned t (subst (λ a. (w.evs a).sock ≡ some t) here e)))
      | no there ↦ (t, ap (λ (d : SockEventData A). d.sock) (h.elsewhere q there) ∙ e)
    ]

    pub local-IsAimed : ((q : ℕ) → IsAimed (w.evs q)) → (q : ℕ) → IsAimed (w'.evs q)
    local-IsAimed all q = elim (ℕ_discrete q (w.socks s).ev) [
      | yes here ↦
          subst (λ a. IsAimed (w'.evs a)) (sym here)
            (subst IsAimed (sym at_slot) (h.aimed (all (w.socks s).ev)))
      | no there ↦ subst IsAimed (sym (h.elsewhere q there)) (all q)
    ]

    Outcome-Advances : {type : EvType} {ev : Event A} → Outcome type s ev w w' → Advances 1 w w'
    Outcome-Advances (inl p) = record {
      added = [];
      extended = p.quiet ∙ sym (append-nil w.waitset);
      due = tt;
      few = omega arith;
      flag = h.flag;
      owned = local-IsOwned;
      aimed = local-IsAimed;
    }
    Outcome-Advances (inr f) = record {
      added = f.result ∷ [];
      extended = f.appended;
      due = (f.due, tt);
      few = omega arith;
      flag = h.flag;
      owned = local-IsOwned;
      aimed = local-IsAimed;
    }

  Advances-trans :
      {n : ℕ} {u v w : World A S} → Advances 1 u v → Advances n v w → Advances (suc n) u w
  Advances-trans {u} h k = record {
    added = h.added ++ k.added;
    extended =
        k.extended ∙ ap (λ l. l ++ k.added) h.extended ∙ append_assoc u.waitset h.added k.added;
    due = AllDue-append h.added k.added h.due k.due;
    few = omega (arith, length-append h.added k.added, h.few, k.few);
    flag = k.flag ∙ h.flag;
    owned = λ q o. k.owned q (h.owned q o);
    aimed = λ a. k.aimed (h.aimed a);
  }

-- Every event's data pointer leads to a slot that has had a submission.
abbrev pub AllOwned : {A : Type 0} → List EpollEvent → (ℕ → SockEventData A) → Type 0
AllOwned [] evs = Unit {0}
AllOwned (e ∷ es) evs = IsOwned (evs e.ptr) × AllOwned es evs

pub AllOwned-mono :
    {A : Type 0} (es : List EpollEvent) (evs evs' : ℕ → SockEventData A)
    → ((q : ℕ) → IsOwned (evs q) → IsOwned (evs' q))
    → AllOwned es evs
    → AllOwned es evs'
AllOwned-mono [] evs evs' keep o = tt
AllOwned-mono (e ∷ es) evs evs' keep o = (keep e.ptr o.0, AllOwned-mono es evs evs' keep o.1)

module _ {A S : Type 0} (os : Os S) (siginfo : ℕ) where
  handle_event-Advances :
      (e : EpollEvent) (w : World A S)
      → ((q : ℕ) → IsAimed (w.evs q))
      → IsOwned (w.evs e.ptr)
      → (w' : World A S) × (handle_event os siginfo e w ≡ some w') × Advances 1 w w'
  unfolding handle_event
  handle_event-Advances e w aimed (s, h) =
      let (w', did, o) = handle_at-Outcome os siginfo e.events s w (aimed (w.socks s).ev) in
      (
        w',
        rw (h, handle_event) did,
        Outcome-Advances
            (subst (Holds (IsLocal s w)) did (handle_at-IsLocal os siginfo s e.events w)) o,
      )

  handle_events-Advances :
      (es : List EpollEvent) (w : World A S)
      → ((q : ℕ) → IsAimed (w.evs q))
      → AllOwned es w.evs
      → (w' : World A S) × (handle_events os siginfo es w ≡ some w') × Advances (length es) w w'
  unfolding handle_events
  handle_events-Advances [] w aimed owned = (
    w,
    refl,
    record {
      added = [];
      extended = sym (append-nil w.waitset);
      due = tt;
      few = omega arith;
      flag = refl;
      owned = λ q o. o;
      aimed = λ a. a;
    },
  )
  handle_events-Advances (e ∷ es) w aimed owned =
      let (w1, one, h) = handle_event-Advances e w aimed owned.0 in
      let (w2, rest, k) =
        handle_events-Advances es w1 (h.aimed aimed)
          (AllOwned-mono es w.evs w1.evs h.owned owned.1) in
      (w2, rw (one, handle_events) rest, Advances-trans h k)

  -- If every ACCEPT under way has a socket to accept into, and the events that the kernel returns
  -- are for slots that have had a submission, `Wait` returns. It adds at most as many completions
  -- as there are events, all ready to dispatch, behind those that wait, leaves the loop's flag,
  -- and both conditions hold afterwards of every slot that they held of before.
  pub wait-Advances :
      (w : World A S)
      → ((q : ℕ) → IsAimed (w.evs q))
      → AllOwned (os.epoll_wait w.epoll 128 w.os).0 w.evs
      → (w' : World A S) × (wait os siginfo w ≡ some w')
        × Advances (length (os.epoll_wait w.epoll 128 w.os).0) w w'
  unfolding wait
  wait-Advances w aimed owned =
      let (es, o) = os.epoll_wait w.epoll 128 w.os in
      let (w', did, h) = handle_events-Advances es (record w { os = o }) aimed owned in
      (
        w',
        did,
        record {
          added = h.added;
          extended = h.extended;
          due = h.due;
          few = h.few;
          flag = h.flag;
          owned = h.owned;
          aimed = h.aimed;
        },
      )
