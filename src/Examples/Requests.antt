-- ===== src/Examples/Requests.antt =====
-- Submissions on the small world: what each comes to.
use venti.Prelude.{ℕ, ◌≡◌, refl, ◌++◌, ◌∷◌, [], true, some, arith}
use venti.Prelude.Int.{pos, negsuc}
use venti.Event.{Event, complete, err}
use venti.World.{World, noop, slot}
use venti.Epoll.Submit.{submit_connect}
use venti.Epoll.Lost.{submit_connect_in_progress}
use venti.Sock.Utils.{LinuxSock}
use venti.Acceptor.{Acceptor, async_acceptcb, accept_callback}
use venti.Acceptor.Accepting.{async_acceptcb-accept_callback}
use venti.Prelude.{none}
use venti.Examples.{kernel, world, call_one, localhost, hand_on}

-- A ready socket, a kernel that gives 7 bytes.
abbrev idle : World ℕ ℕ
idle = world noop true

-- `errno` is EINPROGRESS.
abbrev in_progress : World ℕ ℕ
in_progress = record idle { os = 115 }

submit_connect_in_progress_example :
    ((submit_connect (kernel (pos 7) (negsuc 0) []) 0 localhost call_one in_progress).waitset
      ≡ [] ++ record call_one { status = err; error = pos 115 } ∷ [])
    × ((slot
          (submit_connect (kernel (pos 7) (negsuc 0) []) 0 localhost call_one in_progress)
          0).type
        ≡ noop)
submit_connect_in_progress_example =
    submit_connect_in_progress (kernel (pos 7) (negsuc 0) []) 0 0 localhost call_one in_progress 115
      114 refl refl (λ h. absurd (omega (arith, h)))

abbrev listening : Acceptor ℕ
listening = record {
  listener = 0;
  waiting_sock = none;
  waiting_cb = λ _ _. [];
  local_addr = localhost;
}

async_acceptcb-accept_callback_example :
    (w' : World ℕ ℕ) × (r : Event ℕ) × (sk : LinuxSock) × ((async_acceptcb
        (kernel (pos 7) (pos 9) [])
        listening
        1
        (λ sk ec. hand_on sk.sock)
        hand_on
        idle).1
      ≡ some w')
    × (w'.waitset ≡ [] ++ r ∷ [])
    × (complete r ≡ 0 ∷ [])
    × (accept_callback
          (kernel (pos 7) (pos 9) [])
          (idle.socks 5)
          (async_acceptcb
            (kernel (pos 7) (pos 9) [])
            listening
            1
            (λ sk ec. hand_on sk.sock)
            hand_on
            idle).0
          (pos 0)
          w'
        ≡ some (hand_on sk.sock))
    × (sk.sock ≡ pos 9)
async_acceptcb-accept_callback_example =
    async_acceptcb-accept_callback (kernel (pos 7) (pos 9) []) listening 1
      (λ sk ec. hand_on sk.sock) hand_on (idle.socks 5) idle 9 refl (λ n. refl)
