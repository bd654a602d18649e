-- ===== src/Sock/Addresses.antt =====
-- Addresses of venti/ip/addr.h to the kernel's form and back (`LinuxUtils` of
-- venti/platform/linux/linuxsock.h), and copies of them.
use venti.Prelude.{
  ℕ, ◌≤◌, ◌≡◌, refl, sym, ◌∙◌, List, arith, length, take, drop, length-append, length-take,
  take-append,
}
use venti.Addr.{IpAddr, AddrType, ipv4, ipv6, memcpy, addr_copy, copy_bytes}
use venti.Sock.Utils.{to_ip_addr4, to_ip_addr6, to_sockaddr4, to_sockaddr6}

-- How many bytes of the union an address of a kind has.
abbrev pub width : AddrType → ℕ
width ipv4 = 4
width ipv6 = 16

-- Two addresses are the same as far as their kind says.
pub record SameAddr (a b : IpAddr) : Type 0 where
  pub kind : a.kind ≡ b.kind
  pub port : a.port ≡ b.port
  pub bytes : take (width a.kind) a.bytes ≡ take (width b.kind) b.bytes

-- The head of a block after `n` bytes are copied there.
pub take-memcpy :
    (n : ℕ) (dst src : List ℕ) → n ≤ length src → take n (memcpy dst (take n src)) ≡ take n src
take-memcpy n dst src h = take-append n (take n src) _ (length-take n src h)

pub length-memcpy-ge :
    (n : ℕ) (dst src : List ℕ) → n ≤ length src → n ≤ length (memcpy dst (take n src))
length-memcpy-ge n dst src h =
    omega (arith, length-append (take n src) (drop (length (take n src)) dst), length-take n src h)

-- An IPv4 address goes to the kernel's form and back unchanged.
pub to_ip_addr4-to_sockaddr4 :
    (raw : List ℕ) (a : IpAddr)
    → a.kind ≡ ipv4
    → 4 ≤ length a.bytes
    → SameAddr (to_ip_addr4 raw (to_sockaddr4 a)) a
unfolding to_ip_addr4 to_sockaddr4
to_ip_addr4-to_sockaddr4 raw a k h = record {
  kind = sym k;
  port = refl;
  bytes = rw k (take-memcpy 4 _ _ (length-memcpy-ge 4 _ a.bytes h) ∙ take-memcpy 4 _ a.bytes h);
}

pub to_ip_addr6-to_sockaddr6 :
    (raw : List ℕ) (a : IpAddr)
    → a.kind ≡ ipv6
    → 16 ≤ length a.bytes
    → SameAddr (to_ip_addr6 raw (to_sockaddr6 a)) a
unfolding to_ip_addr6 to_sockaddr6
to_ip_addr6-to_sockaddr6 raw a k h = record {
  kind = sym k;
  port = refl;
  bytes = rw k (take-memcpy 16 _ _ (length-memcpy-ge 16 _ a.bytes h) ∙ take-memcpy 16 _ a.bytes h);
}

-- An address in the kernel's form for its kind, and back.
abbrev pub there_and_back : AddrType → List ℕ → IpAddr → IpAddr
there_and_back ipv4 raw a = to_ip_addr4 raw (to_sockaddr4 a)
there_and_back ipv6 raw a = to_ip_addr6 raw (to_sockaddr6 a)

there_and_back_as :
    (kind : AddrType) (raw : List ℕ) (a : IpAddr)
    → a.kind ≡ kind
    → width kind ≤ length a.bytes
    → SameAddr (there_and_back kind raw a) a
there_and_back_as ipv4 raw a k h = to_ip_addr4-to_sockaddr4 raw a k h
there_and_back_as ipv6 raw a k h = to_ip_addr6-to_sockaddr6 raw a k h

-- An address of either kind, whose block has the bytes of its kind, goes to the kernel's form and back
-- unchanged.
pub there_and_back-SameAddr :
    (raw : List ℕ) (a : IpAddr)
    → width a.kind ≤ length a.bytes
    → SameAddr (there_and_back a.kind raw a) a
there_and_back-SameAddr raw a h = there_and_back_as a.kind raw a refl h

copy_bytes-take :
    (kind : AddrType) (raw bytes : List ℕ)
    → width kind ≤ length bytes
    → take (width kind) (copy_bytes kind raw bytes) ≡ take (width kind) bytes
unfolding copy_bytes
copy_bytes-take ipv4 raw bytes h = take-memcpy 4 raw bytes h
copy_bytes-take ipv6 raw bytes h = take-memcpy 16 raw bytes h

-- A copy is the same address, whatever its block held before.
pub addr_copy-SameAddr :
    (raw : List ℕ) (a : IpAddr) → width a.kind ≤ length a.bytes → SameAddr (addr_copy raw a) a
unfolding addr_copy
addr_copy-SameAddr raw a h = record {
  kind = refl;
  port = refl;
  bytes = copy_bytes-take a.kind raw a.bytes h;
}
