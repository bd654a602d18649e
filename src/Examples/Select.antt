-- ===== src/Examples/Select.antt =====
-- The `select` backend on a small system.
use venti.Prelude.{arith, ℕ, ◌≡◌, refl, ◌∷◌, [], true, false, some, none, List}
use venti.Prelude.Int.{pos}
use venti.Buffer.{buffers_empty}
use venti.Win.Map.Laws.{contains}
use venti.Win.Select.{SelData, SockEvent, SelWorld, SelectOs, read, connect}
use venti.Win.Select.Wait.{sel_wait}
use venti.Win.Select.Sound.{IsTable}
use venti.Win.Select.Histories.{
  SelCall, registers, submits, waits, closes, sel_calls, sel_calls-IsTable,
}
use venti.Win.Select.{sel_init}
use venti.Win.Select.Asked.{Laws}
use venti.Win.Select.Waiting.{asked, sel_wait-AllServed}
use venti.Win.Select.Served.{AllServed}
use venti.Win.Select.View.{held_read, held_write}
use venti.Win.Select.Sided.{Submitted}
use venti.Win.Select.Request.{to_send, sel_submit, sel_submit-Submitted}
use venti.Examples.{localhost, call_one, one_buffer}
use venti.Examples.Win.{failing, fresh}

-- Sets are lists, and `select` finds every socket of both sets ready.
abbrev all_ready : SelectOs (List ℕ) ℕ
all_ready = record {
  raw_type = read;
  fd_zero = [];
  fd_set = λ fd s. fd ∷ s;
  fd_isset = contains;
  select = λ _ rs ws s. (pos 1, rs, ws, s);
}

-- A read and a connection attempt to address 1 of the socket at `p`.
abbrev reading : ℕ → SelData ℕ
reading p = record {
  sock = some p;
  bufs = one_buffer;
  event = call_one;
  target = none;
  processing = false;
  type = read;
}

abbrev connecting : ℕ → SelData ℕ
connecting p = record {
  sock = some p;
  bufs = buffers_empty;
  event = call_one;
  target = some 1;
  processing = false;
  type = connect;
}

-- Descriptor 3 reads and connects, descriptor 8 only reads.
abbrev two_socks : List (ℕ × SockEvent ℕ)
two_socks =
    (3, record { rdata = reading 0; wdata = connecting 0; ractivated = true; wactivated = true })
    ∷ (8, record { rdata = reading 1; wdata = connecting 1; ractivated = true; wactivated = false })
    ∷ []

abbrev selecting : SelWorld ℕ (List ℕ) ℕ
selecting = record {
  waitset = [];
  socks = λ _. fresh;
  addrs = λ _. localhost;
  table = two_socks;
  rs = [];
  ws = [];
  os = 0;
}

abbrev laws : Laws all_ready
laws = record {
  zeroed = λ j. refl;
  added = λ j k f h. h;
  reads_within = λ n rs ws o j h. h;
  writes_within = λ n rs ws o j h. h;
}

two_socks-IsTable : IsTable two_socks
two_socks-IsTable = record {
  sorted = ((omega arith, tt), (tt, tt));
  sound = (((tt, (0, refl)), ((1, refl), (0, refl))), (((tt, (1, refl)), tt), tt));
}

sel_wait-AllServed_example :
    (w' : SelWorld ℕ (List ℕ) ℕ) × (sel_wait failing all_ready selecting ≡ some (pos 0, w'))
    × AllServed all_ready
        (asked all_ready selecting).1
        (asked all_ready selecting).2
        two_socks
        []
        w'.table
        w'.waitset
    × IsTable w'.table
sel_wait-AllServed_example =
    sel_wait-AllServed failing all_ready laws selecting two_socks-IsTable refl

sel_submit-Submitted_example :
    Submitted held_write held_read 0 call_one selecting
      (sel_submit failing all_ready 0 call_one selecting (to_send (some 1) one_buffer))
sel_submit-Submitted_example =
    sel_submit-Submitted failing all_ready 0 call_one selecting (to_send (some 1) one_buffer)
      (λ p h. absurd cc)

-- The socket 0 is registered, sends a datagram, and is closed after a `Wait`.
abbrev no_socks : SelWorld ℕ (List ℕ) ℕ
no_socks = record selecting { table = [] }

abbrev send_once : List (SelCall ℕ ℕ)
send_once = registers 0 ∷ submits 0 call_one (to_send (some 1) one_buffer) ∷ waits ∷ closes 0 ∷ []

sel_calls-IsTable_example :
    (w' : SelWorld ℕ (List ℕ) ℕ) × (sel_calls failing all_ready send_once
        (sel_init all_ready no_socks)
      ≡ some w')
    × IsTable w'.table
sel_calls-IsTable_example = sel_calls-IsTable failing all_ready laws send_once no_socks refl
