-- ===== src/Acceptor/Accepting.antt =====
-- An accept from its submission to the acceptor's callback (venti/socket/acceptor.h).
use venti.Prelude.{ℕ, ◌≡◌, refl, ap, ◌∙◌, true, List, [], ◌∷◌, ◌++◌, some, arith}
use venti.Prelude.Int.{ℤ, pos}
use venti.Event.{Event, event_of, completed, complete}
use venti.Addr.{AddrType, ipv4, ipv6}
use venti.Os.{Os}
use venti.Sock
use venti.Sock.{accept_as}
use venti.Sock.Utils.{LinuxSock}
use venti.World.{World, slot, set_event_target}
use venti.Context.{submit_complete, settled}
use venti.Epoll.Slot.{accept_into, done_now, clear}
use venti.Epoll.Submit.{after_accept}
use venti.Epoll.Submission.{submit_accept-some, accept_set, accept_tried}
use venti.Acceptor.{Acceptor, AcceptCallback, async_acceptcb, accept_callback}

module _ {S : Type 0} (os : Os S) (sk res : LinuxSock) (s : S) (fd : ℕ)
    (accepts : (n : ℕ) → (os.accept sk.sock n s).0 ≡ pos fd) where
  pub accept_as_accepts :
      (kind : AddrType)
      → ((accept_as os kind sk res s).0 ≡ pos 0) × ((accept_as os kind sk res s).1.sock ≡ pos fd)
  unfolding accept_as
  accept_as_accepts ipv4 = rw (accepts 16) (refl, refl)
  accept_as_accepts ipv6 = rw (accepts 28) (refl, refl)

module _ {A S : Type 0} (os : Os S) (s p : ℕ) (ev : Event A) (w : World A S) (fd : ℕ)
    (ready : (slot w s).rp ≡ true)
    (accepts : (n : ℕ) → (os.accept (w.socks s).sock n w.os).0 ≡ pos fd) where
  abbrev accepted : World A S
  accepted = (accept_into os s p (accept_set os s ev w p)).1

  accepted_code : (accept_into os s p (accept_set os s ev w p)).0 ≡ pos 0
  unfolding accept_into Sock.accept
  accepted_code =
      (accept_as_accepts os (w.socks s) (w.socks p) w.os fd accepts (w.socks s).addr.kind).0

  accepted_sock : (accepted.socks p).sock ≡ pos fd
  unfolding accept_into Sock.accept
  accepted_sock = ground (
    arith,
    (accept_as_accepts os (w.socks s) (w.socks p) w.os fd accepts (w.socks s).addr.kind).1,
  )

  rp_set : (slot (accept_set os s ev w p) s).rp ≡ true
  unfolding set_event_target
  rp_set = ground arith

  tried_done : accept_tried os s ev w p ≡ done_now s ev accepted
  unfolding after_accept
  tried_done = rw (rp_set, accepted_code)

  waitset_done :
      (done_now s ev accepted).waitset ≡ w.waitset ++ record ev { status = completed } ∷ []
  unfolding done_now submit_complete clear accept_into settled
  waitset_done = refl

  socks_done : ((done_now s ev accepted).socks p).sock ≡ pos fd
  unfolding done_now submit_complete clear
  socks_done = accepted_sock

module _ {A S : Type 0} (os : Os S) (a : Acceptor A) (p : ℕ) (cb : AcceptCallback A)
    (on_accept : ℤ → List A) (fresh : LinuxSock) (w : World A S) (fd : ℕ) where
  -- On a listener last seen readable, if the kernel accepts a connection as the descriptor `fd`, an
  -- accept is finished at once: one completion is added, whose dispatch calls the acceptor's
  -- callback with 0, and that one then passes the caller's callback the accepted socket, with that
  -- descriptor.
  pub async_acceptcb-accept_callback :
      (slot w a.listener).rp ≡ true
      → ((n : ℕ) → (os.accept (w.socks a.listener).sock n w.os).0 ≡ pos fd)
      → (w' : World A S) × (r : Event A) × (sk : LinuxSock) × ((async_acceptcb os a p cb on_accept
            w).1
          ≡ some w')
        × (w'.waitset ≡ w.waitset ++ r ∷ [])
        × (complete r ≡ on_accept (pos 0))
        × (accept_callback os fresh (async_acceptcb os a p cb on_accept w).0 (pos 0) w'
            ≡ some (cb sk (pos 0)))
        × (sk.sock ≡ pos fd)
  unfolding async_acceptcb accept_callback complete
  async_acceptcb-accept_callback ready accepts =
      let ev : Event A = event_of (λ _ ec. on_accept ec) in
      let w' : World A S =
        done_now a.listener ev (accepted os a.listener p ev w fd ready accepts) in
      (
        w',
        record ev { status = completed },
        w'.socks p,
        submit_accept-some os a.listener ev w p
            ∙ ap some (tried_done os a.listener p ev w fd ready accepts),
        waitset_done os a.listener p ev w fd ready accepts,
        refl,
        refl,
        socks_done os a.listener p ev w fd ready accepts,
      )
