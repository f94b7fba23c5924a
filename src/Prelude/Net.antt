-- ===== src/Prelude/Net.antt =====
-- `std::net` addresses: an IP address is its octets, and a socket address has the flow and
-- scope numbers of `SocketAddrV6` (0 for an IPv4 address).
use easy_connection.Prelude.Lists.{length, Bytes, IsBytes}
use Prim.Native.Nat.{ℕ, ◌<◌}
use mathlib.Core.Path.{◌≡◌}
use mathlib.Core.Bool.{Bool, true, false}

pub data IpAddr : Type 0 where
  v4 : Bytes → IpAddr
  v6 : Bytes → IpAddr

pub record SocketAddr : Type 0 where
  pub ip : IpAddr
  pub port : ℕ
  pub flowinfo : ℕ
  pub scope_id : ℕ

-- `SocketAddr::from((ip, port))`.
abbrev pub socket_addr : IpAddr → ℕ → SocketAddr
socket_addr a p = record { ip = a; port = p; flowinfo = 0; scope_id = 0 }

abbrev pub is_ipv6 : IpAddr → Bool
is_ipv6 (v4 o) = false
is_ipv6 (v6 o) = true

-- The octets have the number and the size that the Rust types give them.
abbrev pub IsIp : IpAddr → Type 0
IsIp (v4 o) = (length o ≡ 4) × IsBytes o
IsIp (v6 o) = (length o ≡ 16) × IsBytes o

-- The address says no more than its IP address and its port.
pub record IsPlain (s : SocketAddr) : Type 0 where
  pub ip_octets : IsIp s.ip
  pub port_u16 : s.port < 65536
  pub no_flow : s.flowinfo ≡ 0
  pub no_scope : s.scope_id ≡ 0

-- `octets()` of either family.
abbrev pub octets : IpAddr → Bytes
octets (v4 o) = o
octets (v6 o) = o

-- `ipnet::IpNet`.
pub record IpNet : Type 0 where
  pub addr : IpAddr
  pub prefix : ℕ
