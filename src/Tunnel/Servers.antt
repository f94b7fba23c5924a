-- ===== src/Tunnel/Servers.antt =====
-- crates/tunnel/src/manager.rs: the addresses that go around the tunnel, and small texts.
pub mod Sorted
use easy_connection.Prelude.{
  ℕ, Bool, true, false, ◌&&◌, ◌||◌, Option, none, some, List, [], ◌∷◌, ◌++◌, ltb, ◌==◌, is_empty,
  if◌then◌else◌, map, Bytes, eq_bytes, Result, ok, err,
}
use easy_connection.Prelude.Net.{IpAddr, v4, v6, IpNet}
use easy_connection.Prelude.Text.{Str, codes, show_u16, trim, trim_end_matches, lines}
use easy_connection.Config.Model.{ConnectionConfig}
use easy_connection.Tunnel.State.{TunnelError, other}

-- `Ord` on octets, and on addresses: IPv4 comes first.
unfoldable pub bytes_less : Bytes → Bytes → Bool
bytes_less [] [] = false
bytes_less [] (y ∷ ys) = true
bytes_less (x ∷ xs) [] = false
bytes_less (x ∷ xs) (y ∷ ys) = let rest = bytes_less xs ys in ltb x y || (x == y && rest)

unfoldable pub ip_less : IpAddr → IpAddr → Bool
unfolding bytes_less
ip_less (v4 a) (v4 b) = bytes_less a b
ip_less (v4 a) (v6 b) = true
ip_less (v6 a) (v4 b) = false
ip_less (v6 a) (v6 b) = bytes_less a b

unfoldable pub ip_eq : IpAddr → IpAddr → Bool
ip_eq (v4 a) (v4 b) = eq_bytes a b
ip_eq (v6 a) (v6 b) = eq_bytes a b
ip_eq _ _ = false

-- `sort`: an address in front of the first that is greater.
unfoldable pub insert : IpAddr → List IpAddr → List IpAddr
unfolding ip_less
insert a [] = a ∷ []
insert a (b ∷ bs) = let rest = insert a bs in if ip_less a b then a ∷ b ∷ bs else b ∷ rest

unfoldable pub sort : List IpAddr → List IpAddr
unfolding insert
sort [] = []
sort (a ∷ rest) = insert a (sort rest)

-- `dedup`, behind an address that is kept.
unfoldable pub dedup_after : IpAddr → List IpAddr → List IpAddr
unfolding ip_eq
dedup_after last [] = []
dedup_after last (a ∷ rest) =
    let skipped = dedup_after last rest in
    let kept = dedup_after a rest in if ip_eq last a then skipped else a ∷ kept

unfoldable pub dedup : List IpAddr → List IpAddr
unfolding dedup_after
dedup [] = []
dedup (a ∷ rest) = a ∷ dedup_after a rest

abbrev pub host_port : Str → ℕ → Str
host_port host port = host ++ (codes ":" ++ show_u16 port)

-- What `lookup_host` answered.
unfoldable pub resolve_server_ips :
    Str → ℕ → Result (List IpAddr) Str → Result (List IpAddr) TunnelError
unfolding sort dedup
resolve_server_ips host port (err e) = err (
    other (
      codes "Could not resolve "
      ++ host_port host port
      ++ (codes " before applying routes: " ++ e)))
resolve_server_ips host port (ok found) =
    let ips = dedup (sort found) in
    if is_empty ips then err (other (codes "No addresses resolved for " ++ host)) else ok ips

-- The network of one address.
abbrev pub single : IpAddr → IpNet
single (v4 o) = record { addr = v4 o; prefix = 32 }
single (v6 o) = record { addr = v6 o; prefix = 128 }

-- The networks that parse; `parse` is `IpNet`'s.
abbrev pub cidr_nets : (Str → Option IpNet) → List Str → List IpNet
cidr_nets parse [] = []
cidr_nets parse (c ∷ cs) = elim (parse c) [
  | none ↦ cidr_nets parse cs
  | some n ↦ n ∷ cidr_nets parse cs
]

abbrev pub bypass_host : Str → Str
bypass_host domain = trim_end_matches (λ c. c == b'.') (trim domain)

-- The addresses of a name; `lookup` is `lookup_host` at port 0.
abbrev pub lookup_nets : Result (List IpAddr) Str → List IpNet
lookup_nets (ok addrs) = map single addrs
lookup_nets (err e) = []

abbrev pub domain_nets : (Str → Result (List IpAddr) Str) → List Str → List IpNet
domain_nets lookup [] = []
domain_nets lookup (d ∷ ds) =
    let rest = domain_nets lookup ds in
    if is_empty (bypass_host d) then rest else lookup_nets (lookup (bypass_host d)) ++ rest

unfoldable pub split_bypass_nets :
    (Str → Option IpNet) → (Str → Result (List IpAddr) Str) → ConnectionConfig → List IpNet
unfolding trim trim_end_matches
split_bypass_nets parse lookup profile =
    cidr_nets parse profile.split_bypass_cidrs ++ domain_nets lookup profile.split_bypass_domains

unfoldable pub proxy_bind_addr : Str → Str
proxy_bind_addr listen =
    if is_empty listen
      || (eq_bytes listen (codes "127.0.0.1") || eq_bytes listen (codes "localhost"))
    then codes "127.0.0.1"
    else if eq_bytes listen (codes "LAN") || eq_bytes listen (codes "lan")
    then codes "0.0.0.0"
    else listen

-- The first line, if there is one.
abbrev pub first_line : List Str → Str
first_line [] = codes "connect failed"
first_line (l ∷ ls) = l

unfoldable pub short_connect_error : Str → Str
unfolding lines
short_connect_error detail = first_line (lines detail)
