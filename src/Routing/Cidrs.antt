-- ===== src/Routing/Cidrs.antt =====
-- crates/routing/src/cidrs.rs.
use easy_connection.Prelude.{ℕ, List, [], ◌∷◌, replicate}
use easy_connection.Prelude.Net.{v4, v6, IpNet}

abbrev net_v4 : ℕ → ℕ → ℕ → ℕ → ℕ → IpNet
net_v4 a b c d p = record { addr = v4 (a ∷ b ∷ c ∷ d ∷ []); prefix = p }

-- An IPv6 network by its first two octets.
abbrev net_v6 : ℕ → ℕ → ℕ → IpNet
net_v6 a b p = record { addr = v6 (a ∷ b ∷ replicate 14 0); prefix = p }

abbrev pub private_cidrs : List IpNet
private_cidrs =
    net_v4 10 0 0 0 8
    ∷ net_v4 172 16 0 0 12
    ∷ net_v4 192 168 0 0 16
    ∷ net_v4 169 254 0 0 16
    ∷ net_v6 0xfc 0 7
    ∷ net_v6 0xfe 0x80 10
    ∷ []

abbrev pub split_default_v4 : List IpNet
split_default_v4 = net_v4 0 0 0 0 1 ∷ net_v4 128 0 0 0 1 ∷ []

abbrev pub split_default_v6 : List IpNet
split_default_v6 = net_v6 0 0 1 ∷ net_v6 0x80 0 1 ∷ []
