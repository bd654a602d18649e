-- ===== src/Sock/Utils.antt =====
-- `LinuxUtils` of venti/platform/linux/linuxsock.h, and the fields of `LinuxSock`.
use venti.Prelude.{ℕ, List, take, replicate}
use venti.Prelude.Int.{ℤ}
use venti.Addr.{IpAddr, ipv4, ipv6, memcpy, addr_of_type}
use venti.Os.{SockaddrIn, SockaddrIn6}

-- `ev` is the address of the shared `SockEventData`.
pub record LinuxSock : Type 0 where
  pub ev : ℕ
  pub sock : ℤ
  pub addr : IpAddr

-- `ToIPAddr6` and `ToIPAddr4`, over the indeterminate bytes of the result.
unfoldable pub to_ip_addr6 : List ℕ → SockaddrIn6 → IpAddr
unfolding addr_of_type
to_ip_addr6 raw a =
    let res : IpAddr = addr_of_type raw ipv6 in
    record res { bytes = memcpy res.bytes (take 16 a.sin6_addr); port = a.sin6_port }

unfoldable pub to_ip_addr4 : List ℕ → SockaddrIn → IpAddr
unfolding addr_of_type
to_ip_addr4 raw a =
    let res : IpAddr = addr_of_type raw ipv4 in
    record res { bytes = memcpy res.bytes (take 4 a.sin_addr); port = a.sin_port }

abbrev pub zero_sockaddr4 : SockaddrIn
zero_sockaddr4 = record {
  sin_family = 0;
  sin_port = 0;
  sin_addr = replicate 4 0;
  sin_zero = replicate 8 0;
}

abbrev pub zero_sockaddr6 : SockaddrIn6
zero_sockaddr6 = record {
  sin6_family = 0;
  sin6_port = 0;
  sin6_flowinfo = 0;
  sin6_addr = replicate 16 0;
  sin6_scope_id = 0;
}

-- `ToSockaddr4` and `ToSockaddr6`: the zeroed block with three fields set.
unfoldable pub to_sockaddr4 : IpAddr → SockaddrIn
to_sockaddr4 addr = record zero_sockaddr4 {
  sin_addr = memcpy zero_sockaddr4.sin_addr (take 4 addr.bytes);
  sin_family = 2;
  sin_port = addr.port;
}

unfoldable pub to_sockaddr6 : IpAddr → SockaddrIn6
to_sockaddr6 addr = record zero_sockaddr6 {
  sin6_addr = memcpy zero_sockaddr6.sin6_addr (take 16 addr.bytes);
  sin6_family = 10;
  sin6_port = addr.port;
}
