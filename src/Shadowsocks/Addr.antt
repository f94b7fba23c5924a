-- ===== src/Shadowsocks/Addr.antt =====
-- crates/shadowsocks/src/addr.rs: the destination in front of the first payload.
pub mod Target
use easy_connection.Prelude.{ℕ, Option, none, some, ◌∷◌, ◌++◌, Bytes, length, take, min, u16_to_be}
use easy_connection.Prelude.Net.{IpAddr, v4, v6}

-- The name of a host that is no address, cut to 255 bytes.
abbrev pub encode_name : Bytes → Bytes
encode_name host = 0x03 ∷ (min (length host) 255 ∷ take (min (length host) 255) host)

abbrev pub encode_host : Bytes → Option IpAddr → Bytes
encode_host host (some (v4 o)) = 0x01 ∷ o
encode_host host (some (v6 o)) = 0x04 ∷ o
encode_host host none = encode_name host

-- `parse` is `IpAddr`'s.
unfoldable pub encode_socks_addr : (Bytes → Option IpAddr) → Bytes → ℕ → Bytes
encode_socks_addr parse host port = encode_host host (parse host) ++ u16_to_be port
