-- ===== src/Examples/Values.antt =====
-- Buffers, addresses and times: what the functions on values come to on concrete ones.
use venti.Prelude.{ℕ, ◌+◌, ◌*◌, ◌<◌, ◌≡◌, refl, ◌∷◌, [], some, List, arith, replicate, get_elem?}
use venti.Prelude.Int.{pos, to_int}
use venti.Buffer.{Buffers, size}
use venti.Buffer.Total.{sum_len, size-to_int}
use venti.Addr.{ipv6, NetCode, addr_copy, addr_to_string}
use venti.Addr.Text.{addr_to_string_port}
use venti.Sock.{expiry_of, nsec_per_sec}
use venti.Sock.Addresses.{SameAddr, there_and_back, there_and_back-SameAddr, addr_copy-SameAddr}
use venti.Sock.Expiry.{expiry_of_pos}
use venti.Examples.{loopback6}

-- Two buffers whose lengths pass the range of `int`.
abbrev two_large : Buffers
two_large = record {
  bufs = record { content = 0; len = 2147483647 } ∷ record { content = 0; len = 4 } ∷ [];
}

size-to_int_example : size two_large ≡ to_int (sum_len two_large.bufs)
size-to_int_example = size-to_int two_large

abbrev two_small : Buffers
two_small = record { bufs = record { content = 0; len = 5 } ∷ record { content = 0; len = 4 } ∷ [] }

abbrev old_bytes : List ℕ
old_bytes = replicate 16 205

there_and_back-SameAddr_example : SameAddr (there_and_back ipv6 old_bytes loopback6) loopback6
there_and_back-SameAddr_example = there_and_back-SameAddr old_bytes loopback6 (omega arith)

addr_copy-SameAddr_example : SameAddr (addr_copy old_bytes loopback6) loopback6
addr_copy-SameAddr_example = addr_copy-SameAddr old_bytes loopback6 (omega arith)

-- "::1", and a port that prints as "443".
abbrev small_net : NetCode
small_net = record {
  htons = λ n. n;
  ntohs = λ n. n;
  inet_pton = λ af text dst. dst;
  inet_ntop = λ af bytes l. 58 ∷ 58 ∷ 49 ∷ 0 ∷ [];
  to_string = λ n. 52 ∷ 52 ∷ 51 ∷ [];
}

addr_to_string_port_example :
    (get_elem? (addr_to_string small_net loopback6) 47 ≡ some b':')
    × (get_elem? (addr_to_string small_net loopback6) 3 ≡ some 0)
addr_to_string_port_example =
    addr_to_string_port small_net loopback6 (58 ∷ 58 ∷ 49 ∷ []) (λ h. absurd (omega arith)) refl
      (omega arith)

expiry_of_pos_example :
    (sec : ℕ) × (nsec : ℕ) × (expiry_of (pos 1500000000) ≡ record {
      interval_sec = pos 0;
      interval_nsec = pos 0;
      value_sec = pos sec;
      value_nsec = pos nsec;
    })
    × (sec * nsec_per_sec + nsec ≡ 1500000000)
    × (nsec < nsec_per_sec)
expiry_of_pos_example = expiry_of_pos 1500000000
