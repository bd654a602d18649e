-- ===== src/Addr/Text.antt =====
-- `IPAddr::ToString` (venti/ip/addr.h).
use venti.Prelude.{
  ℕ, ◌≤◌, ◌<◌, ◌≡◌, ◌≢◌, refl, ap, subst, ◌∙◌, List, [], ◌∷◌, ◌++◌, some, arith, length, drop,
  replicate, get_elem?, length-append, length-drop, get_elem?-append, ne→==_false,
}
use mathlib.Core.List.{append_assoc}
use venti.Addr.{IpAddr, AddrType, ipv4, ipv6, memcpy, addr_to_string, host_text, NetCode}

-- The size of the string that `ToString` prepares, and the address family that it passes.
abbrev pub text_size : AddrType → ℕ
text_size ipv4 = 16
text_size ipv6 = 47

abbrev pub family : AddrType → ℕ
family ipv4 = 2
family ipv6 = 10

host_text-memcpy :
    (net : NetCode) (kind : AddrType) (bytes : List ℕ)
    → host_text net kind bytes
      ≡ memcpy (replicate (text_size kind) 0) (net.inet_ntop (family kind) bytes (text_size kind))
unfolding host_text
host_text-memcpy net ipv4 bytes = refl
host_text-memcpy net ipv6 bytes = refl

length-memcpy : (dst src : List ℕ) → length src ≤ length dst → length (memcpy dst src) ≡ length dst
length-memcpy dst src h =
    omega (arith, length-append src (drop (length src) dst), length-drop (length src) dst h)

length-zeros : (kind : AddrType) → length {A = ℕ} (replicate (text_size kind) 0) ≡ text_size kind
length-zeros ipv4 = refl
length-zeros ipv6 = refl

module _ (net : NetCode) (a : IpAddr) (text : List ℕ) where
  -- When `inet_ntop` writes a text and its end mark into the prepared string, and there is a port,
  -- the colon stands behind the whole prepared string (at 16 or 47), and the end mark stays where
  -- the text ends: the port is not read by who takes the string up to its first zero byte.
  pub addr_to_string_port :
      a.port ≢ 0
      → net.inet_ntop (family a.kind) a.bytes (text_size a.kind) ≡ text ++ 0 ∷ []
      → length text < text_size a.kind
      → (get_elem? (addr_to_string net a) (text_size a.kind) ≡ some b':')
        × (get_elem? (addr_to_string net a) (length text) ≡ some 0)
  unfolding addr_to_string
  addr_to_string_port port wrote fits = rw (ne→==_false a.port 0 port) (
    subst (λ n. get_elem? (host ++ b':' ∷ rest) n ≡ some b':') size
        (get_elem?-append host rest b':'),
    rw (host_split, append_assoc text (0 ∷ padding) (b':' ∷ rest))
        (get_elem?-append text (padding ++ b':' ∷ rest) 0),
  )
    where
      host : List ℕ
      host = host_text net a.kind a.bytes

      rest : List ℕ
      rest = net.to_string (net.ntohs a.port)

      padding : List ℕ
      padding = drop (length (text ++ 0 ∷ [])) (replicate (text_size a.kind) 0)

      host_eq : host ≡ memcpy (replicate (text_size a.kind) 0) (text ++ 0 ∷ [])
      host_eq = host_text-memcpy net a.kind a.bytes ∙ ap (memcpy _) wrote

      size : length host ≡ text_size a.kind
      size =
          ap length host_eq
          ∙ length-memcpy _ (text ++ 0 ∷ [])
              (omega (arith, length-append text (0 ∷ []), length-zeros a.kind))
          ∙ length-zeros a.kind

      host_split : host ≡ text ++ 0 ∷ padding
      host_split = host_eq ∙ append_assoc text (0 ∷ []) padding
