-- ===== src/Routing/Plan/Halves.antt =====
-- The networks of the tunnel are the halves of the address space.
use mathlib.Core.List.{Memᴰ}
use easy_connection.Prelude.{
  ℕ, ◌/◌, ◌%◌, ◌<◌, length, take, replicate, Bytes, IsBytes, ◌≡◌, ◌⊎◌, inl, inr, refl, ap, arith,
  Bool, true, List, [], ◌∷◌,
}
use easy_connection.Prelude.Net.{IpAddr, v4, v6, is_ipv6, octets, IpNet}
use easy_connection.Routing.Cidrs.{split_default_v4, split_default_v6}

-- The octets of the highest bit alone, or of none.
abbrev pub from_top : ℕ → ℕ → Bytes
from_top n b = b ∷ replicate n 0

-- Half of the address space of a family; IPv6 if it is enabled.
abbrev pub IsHalf : Bool → IpNet → Type 0
IsHalf ipv6 net =
    (net.prefix ≡ 1)
    × (((net.addr ≡ v4 (from_top 3 0)) ⊎ (net.addr ≡ v4 (from_top 3 128)))
        ⊎ ((ipv6 ≡ true) × ((net.addr ≡ v6 (from_top 15 0)) ⊎ (net.addr ≡ v6 (from_top 15 128)))))

pub split_v4-IsHalf : (ipv6 : Bool) (net : IpNet) → Memᴰ net split_default_v4 → IsHalf ipv6 net
split_v4-IsHalf ipv6 net (Memᴰ.head e) = (ap (λ n. n.prefix) e, inl (inl (ap (λ n. n.addr) e)))
split_v4-IsHalf ipv6 net (Memᴰ.tail (Memᴰ.head e)) =
    (ap (λ n. n.prefix) e, inl (inr (ap (λ n. n.addr) e)))
split_v4-IsHalf ipv6 net (Memᴰ.tail (Memᴰ.tail m)) = elim m [ ]

pub split_v6-IsHalf :
    (ipv6 : Bool) (net : IpNet) → ipv6 ≡ true → Memᴰ net split_default_v6 → IsHalf ipv6 net
split_v6-IsHalf ipv6 net on (Memᴰ.head e) =
    (ap (λ n. n.prefix) e, inr (on, inl (ap (λ n. n.addr) e)))
split_v6-IsHalf ipv6 net on (Memᴰ.tail (Memᴰ.head e)) =
    (ap (λ n. n.prefix) e, inr (on, inr (ap (λ n. n.addr) e)))
split_v6-IsHalf ipv6 net on (Memᴰ.tail (Memᴰ.tail m)) = elim m [ ]

-- The bits of octets, the highest first.
abbrev pub bits : Bytes → List ℕ
bits [] = []
bits (b ∷ bs) =
    b / 128 % 2
    ∷ b / 64 % 2
    ∷ b / 32 % 2
    ∷ b / 16 % 2
    ∷ b / 8 % 2
    ∷ b / 4 % 2
    ∷ b / 2 % 2
    ∷ b % 2
    ∷ bits bs

-- The address has the bits of the prefix.
abbrev pub InNetwork : IpNet → IpAddr → Type 0
InNetwork net ip =
    (is_ipv6 net.addr ≡ is_ipv6 ip)
    × (take net.prefix (bits (octets net.addr)) ≡ take net.prefix (bits (octets ip)))

pub top_bit : (b : ℕ) → b < 256 → (0 ≡ b / 128 % 2) ⊎ (1 ≡ b / 128 % 2)
top_bit b h = ground arith

pub in_half_v4 :
    (o : Bytes)
    → length o ≡ 4
    → IsBytes o
    → (net : IpNet) × Memᴰ net split_default_v4 × InNetwork net (v4 o)
in_half_v4 [] e h = absurd (omega arith)
in_half_v4 (b ∷ o) e (h, hs) = elim (top_bit b h) [
  | inl t ↦ (_, Memᴰ.head refl, (refl, ap (λ d. d ∷ []) t))
  | inr t ↦ (_, Memᴰ.tail (Memᴰ.head refl), (refl, ap (λ d. d ∷ []) t))
]

pub in_half_v6 :
    (o : Bytes)
    → length o ≡ 16
    → IsBytes o
    → (net : IpNet) × Memᴰ net split_default_v6 × InNetwork net (v6 o)
in_half_v6 [] e h = absurd (omega arith)
in_half_v6 (b ∷ o) e (h, hs) = elim (top_bit b h) [
  | inl t ↦ (_, Memᴰ.head refl, (refl, ap (λ d. d ∷ []) t))
  | inr t ↦ (_, Memᴰ.tail (Memᴰ.head refl), (refl, ap (λ d. d ∷ []) t))
]
