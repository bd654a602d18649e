-- ===== src/Addr.antt =====
-- venti/ip/addr.h: an IPv4 or IPv6 address with a port. The union of the two byte arrays is one
-- block of 16 bytes, of which an IPv4 address uses the first four; `port` is the 16-bit pattern of
-- the `short`, in network order. The address routines of ip/htons.h, ip/inet_pton.h and
-- ip/inet_ntop.h are copies of musl's and stand as the parameter `NetCode`.
pub mod Text
use venti.Prelude.{ℕ, ◌%◌, ◌^◌, List, ◌∷◌, ◌++◌, length, drop, take, replicate, ◌==◌, if◌then◌else◌}

-- `IPAddr::Type`
pub data AddrType : Type 0 where
  ipv4 ipv6 : AddrType

pub record IpAddr : Type 0 where
  pub kind : AddrType
  pub bytes : List ℕ
  pub port : ℕ

-- `memcpy(dst, src, n)` with `n` the length of `src`, at the head of a block.
abbrev pub memcpy : List ℕ → List ℕ → List ℕ
memcpy dst src = src ++ drop (length src) dst

abbrev pub memset : List ℕ → ℕ → List ℕ
memset dst n = memcpy dst (replicate n 0)

abbrev pub af_inet : ℕ
af_inet = 2

abbrev pub af_inet6 : ℕ
af_inet6 = 10

-- What `IPAddr` takes from the three musl files and from `std::to_string`. `inet_pton af text dst`
-- is the block after the call, `inet_ntop af bytes l` what the call writes, its end mark included.
pub record NetCode : Type 0 where
  pub htons : ℕ → ℕ
  pub ntohs : ℕ → ℕ
  pub inet_pton : ℕ → List ℕ → List ℕ → List ℕ
  pub inet_ntop : ℕ → List ℕ → ℕ → List ℕ
  pub to_string : ℕ → List ℕ

-- `IPAddr(Type type)`, over a block of indeterminate bytes.
unfoldable pub addr_of_type : List ℕ → AddrType → IpAddr
addr_of_type raw ipv6 = record { kind = ipv6; bytes = memset raw 16; port = 0 }
addr_of_type raw ipv4 = record { kind = ipv4; bytes = memset raw 4; port = 0 }

-- `IPAddr(string addr, int port, Type type)`; the port is cut to `uint16_t` at the call.
unfoldable pub addr_parse : NetCode → List ℕ → List ℕ → ℕ → AddrType → IpAddr
addr_parse net raw text port ipv6 = record {
  kind = ipv6;
  bytes = net.inet_pton af_inet6 text raw;
  port = net.htons (port % 2 ^ 16);
}
addr_parse net raw text port ipv4 = record {
  kind = ipv4;
  bytes = net.inet_pton af_inet text raw;
  port = net.htons (port % 2 ^ 16);
}

unfoldable pub copy_bytes : AddrType → List ℕ → List ℕ → List ℕ
copy_bytes ipv6 raw bytes = memcpy raw (take 16 bytes)
copy_bytes ipv4 raw bytes = memcpy raw (take 4 bytes)

-- `IPAddr(const IPAddr& addr)`: only the bytes of the address's kind are copied.
unfoldable pub addr_copy : List ℕ → IpAddr → IpAddr
unfolding copy_bytes
addr_copy raw addr = record {
  kind = addr.kind;
  bytes = copy_bytes addr.kind raw addr.bytes;
  port = addr.port;
}

-- The text before the port: a string of 47 or 16 bytes into which `inet_ntop` writes.
unfoldable pub host_text : NetCode → AddrType → List ℕ → List ℕ
host_text net ipv6 bytes = memcpy (replicate 47 0) (net.inet_ntop af_inet6 bytes 47)
host_text net ipv4 bytes = memcpy (replicate 16 0) (net.inet_ntop af_inet bytes 16)

-- `IPAddr::ToString`
unfoldable pub addr_to_string : NetCode → IpAddr → List ℕ
unfolding host_text
addr_to_string net a =
    let host = host_text net a.kind a.bytes in
    if a.port == 0 then host else host ++ b':' ∷ net.to_string (net.ntohs a.port)
